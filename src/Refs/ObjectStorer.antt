-- ===== src/Refs/ObjectStorer.antt =====
-- plumbing/storer/object.go: the interface EncodedObjectStorer as a record of operations, and the laws that
-- its implementations keep, with no failing disk below them.
use ai_experimental_search.Base.{
  ℕ, ◌≡◌, Bool, true, ◌||◌, Option, none, some, List, [], ◌∷◌, ◌==◌, if◌then◌else◌,
}
use ai_experimental_search.Object.{
  ObjectType, any_object, type_eq, EncodedObject, size, is_supported,
}
use ai_experimental_search.Refs.Storer.{StoreError, object_not_found, Result, ok, err}

-- The error of a method and the iterator's objects in their order.
pub record ObjectStorer (S : Type 0) : Type 0 where
  pub set_encoded_object : EncodedObject → S → S × Option StoreError
  pub has_encoded_object : S → ℕ → Option StoreError
  pub encoded_object_size : S → ℕ → Result ℕ
  pub encoded_object : S → ObjectType → ℕ → Result EncodedObject
  pub iter_encoded_objects : S → ObjectType → List EncodedObject

-- `AnyObject != t && obj.Type() != t` fails.
abbrev pub is_wanted : ObjectType → ObjectType → Bool
is_wanted t u = type_eq any_object t || type_eq u t

abbrev pub narrow : ObjectType → Result EncodedObject → Result EncodedObject
narrow t (ok x) = if is_wanted t x.typ then ok x else err object_not_found
narrow t (err e) = err e

abbrev pub error_of : {A : Type 0} → Result A → Option StoreError
error_of (ok a) = none
error_of (err e) = some e

abbrev pub size_of : Result EncodedObject → Result ℕ
size_of (ok x) = ok (size x)
size_of (err e) = err e

abbrev pub AllSupported : List EncodedObject → Type 0
AllSupported [] = Unit
AllSupported (x ∷ xs) = (is_supported x.typ ≡ true) × AllSupported xs

module _ (object_hash : EncodedObject → ℕ) where
  unfoldable pub find_object : ℕ → List EncodedObject → Result EncodedObject
  find_object h [] = err object_not_found
  find_object h (x ∷ xs) = if object_hash x == h then ok x else find_object h xs

  module _ {S : Type 0} (o : ObjectStorer S) (Kept : S → Type 0) where
    pub record IsObjectStorer : Type 0 where
      pub set_no_error :
          (x : EncodedObject) (s : S)
          → is_supported x.typ ≡ true
          → (o.set_encoded_object x s).1 ≡ none
      pub set-Kept :
          (x : EncodedObject) (s : S)
          → is_supported x.typ ≡ true
          → Kept s
          → Kept (o.set_encoded_object x s).0
      pub object-set :
          (x : EncodedObject) (s : S) (h : ℕ)
          → o.encoded_object (o.set_encoded_object x s).0 any_object h
            ≡ (if object_hash x == h then ok x else o.encoded_object s any_object h)
      pub object-typ :
          (s : S) (t : ObjectType) (h : ℕ)
          → o.encoded_object s t h ≡ narrow t (o.encoded_object s any_object h)
      pub has-object :
          (s : S) (h : ℕ) → o.has_encoded_object s h ≡ error_of (o.encoded_object s any_object h)
      pub size-object :
          (s : S) (h : ℕ) → o.encoded_object_size s h ≡ size_of (o.encoded_object s any_object h)
      pub object-iter :
          (s : S) (h : ℕ)
          → Kept s
          → o.encoded_object s any_object h ≡ find_object h (o.iter_encoded_objects s any_object)
      pub iter-supported : (s : S) → Kept s → AllSupported (o.iter_encoded_objects s any_object)
