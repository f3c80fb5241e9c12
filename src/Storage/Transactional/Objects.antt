-- ===== src/Storage/Transactional/Objects.antt =====
-- storage/transactional/object.go over any two object storers, with the same hash function.
use ai_experimental_search.Base.{
  ℕ, ◌≡◌, refl, sym, ap, ◌∙◌, Option, none, some, List, ◌++◌, Bool-cases, inl, inr, arith,
}
use ai_experimental_search.Object.{ObjectType, any_object, EncodedObject, IsCollisionFree}
use ai_experimental_search.Refs.Storer.{StoreError, object_not_found, Result, ok, err}
use ai_experimental_search.Refs.ObjectStorer.{
  ObjectStorer, IsObjectStorer, is_wanted, narrow, error_of, size_of, find_object,
}
use ai_experimental_search.Refs.CopyObjects.{or_else, copy_all, copy_all_lem, find_object-cases}

pub record TxObjects (B T : Type 0) : Type 0 where
  pub base : B
  pub temporal : T

unfoldable pub new_object_storage : {B T : Type 0} → B → T → TxObjects B T
new_object_storage base temporal = record { base = base; temporal = temporal }

abbrev or_error : Option StoreError → Option StoreError → Option StoreError
or_error (some object_not_found) fallback = fallback
or_error e fallback = e

module _ {B T : Type 0} (b : ObjectStorer B) (t : ObjectStorer T) where
  abbrev with_temporal : TxObjects B T → T × Option StoreError → TxObjects B T × Option StoreError
  with_temporal tx (temporal, e) = (record tx { temporal = temporal }, e)

  unfoldable pub set_encoded_object :
      EncodedObject → TxObjects B T → TxObjects B T × Option StoreError
  set_encoded_object x tx = with_temporal tx (t.set_encoded_object x tx.temporal)

  unfoldable pub has_encoded_object : TxObjects B T → ℕ → Option StoreError
  has_encoded_object tx h =
      or_error (b.has_encoded_object tx.base h) (t.has_encoded_object tx.temporal h)

  unfoldable pub encoded_object_size : TxObjects B T → ℕ → Result ℕ
  encoded_object_size tx h =
      or_else (b.encoded_object_size tx.base h) (t.encoded_object_size tx.temporal h)

  unfoldable pub encoded_object : TxObjects B T → ObjectType → ℕ → Result EncodedObject
  encoded_object tx typ h =
      or_else (b.encoded_object tx.base typ h) (t.encoded_object tx.temporal typ h)

  -- The iterator over the base's objects and then the temporal ones.
  unfoldable pub iter_encoded_objects : TxObjects B T → ObjectType → List EncodedObject
  iter_encoded_objects tx typ =
      b.iter_encoded_objects tx.base typ ++ t.iter_encoded_objects tx.temporal typ

  unfoldable pub commit : TxObjects B T → B × Option StoreError
  unfolding copy_all
  commit tx = copy_all b (t.iter_encoded_objects tx.temporal any_object) tx.base

or_error-of :
    {A : Type 0} (r f : Result A) → or_error (error_of r) (error_of f) ≡ error_of (or_else r f)
or_error-of (ok a) f = refl
or_error-of (err e) f = or_error-err e
  where
    or_error-err : (e : StoreError) → or_error (some e) (error_of f) ≡ error_of (or_else (err e) f)
    or_error-err e = ground arith

size_of-or_else :
    (r f : Result EncodedObject) → or_else (size_of r) (size_of f) ≡ size_of (or_else r f)
size_of-or_else (ok x) f = refl
size_of-or_else (err e) f = ground arith

module _ (object_hash : EncodedObject → ℕ) (free : IsCollisionFree object_hash) where
  -- Which of two lists is searched first makes no difference.
  find_object-swap :
      (h : ℕ) (xs ys : List EncodedObject)
      → or_else (find_object object_hash h ys) (find_object object_hash h xs)
        ≡ or_else (find_object object_hash h xs) (find_object object_hash h ys)
  find_object-swap h xs ys = elim (find_object-cases object_hash h xs) [
    | inl n ↦ rw n (elim (find_object-cases object_hash h ys) [
      | inl m ↦ rw m refl
      | inr (y, l, q) ↦ rw l refl
    ])
    | inr (x, k, p) ↦ rw k (elim (find_object-cases object_hash h ys) [
      | inl m ↦ rw m refl
      | inr (y, l, q) ↦ rw l (ap (λ (z : EncodedObject). ok z) (free y x (q ∙ sym p)))
    ])
  ]

  narrow-find :
      (typ : ObjectType) (h : ℕ) (xs ys : List EncodedObject)
      → or_else
          (narrow typ (find_object object_hash h xs))
          (narrow typ (find_object object_hash h ys))
        ≡ narrow typ (or_else (find_object object_hash h xs) (find_object object_hash h ys))
  narrow-find typ h xs ys = elim (find_object-cases object_hash h xs) [
    | inl n ↦ rw n refl
    | inr (x, k, p) ↦ rw k (elim (Bool-cases (is_wanted typ x.typ)) [
      | inl w ↦ rw w refl
      | inr w ↦ rw w (elim (find_object-cases object_hash h ys) [
        | inl m ↦ rw m refl
        | inr (y, l, q) ↦
            rw l (ap (λ (z : EncodedObject). narrow typ (ok z)) (free y x (q ∙ sym p)) ∙ rw w refl)
      ])
    ])
  ]

module _ (object_hash : EncodedObject → ℕ) (free : IsCollisionFree object_hash) {B T : Type 0}
    (b : ObjectStorer B) (t : ObjectStorer T) {KeptB : B → Type 0} {KeptT : T → Type 0}
    (bl : IsObjectStorer object_hash b KeptB) (tl : IsObjectStorer object_hash t KeptT) where
  reference_find :
      (tx : TxObjects B T) (typ : ObjectType) (h : ℕ)
      → KeptB tx.base
      → KeptT tx.temporal
      → encoded_object b t tx typ h
        ≡ narrow typ (
            or_else
              (find_object object_hash h (b.iter_encoded_objects tx.base any_object))
              (find_object object_hash h (t.iter_encoded_objects tx.temporal any_object)))
  unfolding encoded_object
  reference_find tx typ h k l =
      rw
        (
          bl.object-typ tx.base typ h,
          tl.object-typ tx.temporal typ h,
          bl.object-iter tx.base h k,
          tl.object-iter tx.temporal h l,
        )
        (narrow-find object_hash free typ h (b.iter_encoded_objects tx.base any_object)
          (t.iter_encoded_objects tx.temporal any_object))

  -- A commit has no error and keeps the base storage in a state that it keeps to, and then the base storage
  -- gives for every type and hash what the transaction gave. Both storages are in states that they keep to,
  -- and no two objects are taken to have one hash.
  pub encoded_object-commit :
      (tx : TxObjects B T)
      → KeptB tx.base
      → KeptT tx.temporal
      → ((commit b t tx).1 ≡ none)
        × KeptB (commit b t tx).0
        × ((typ : ObjectType) (h : ℕ)
            → b.encoded_object (commit b t tx).0 typ h ≡ encoded_object b t tx typ h)
  unfolding commit
  encoded_object-commit tx k l =
      let (quiet, kept, gives) =
        copy_all_lem object_hash free b bl (t.iter_encoded_objects tx.temporal any_object) tx.base
          (tl.iter-supported tx.temporal l) k in
      (
        quiet,
        kept,
        λ typ h.
            bl.object-typ (copy_all b (t.iter_encoded_objects tx.temporal any_object) tx.base).0 typ
              h
            ∙ ap (narrow typ) (
                gives h
                ∙ ap
                    (or_else
                      (find_object object_hash h (t.iter_encoded_objects tx.temporal any_object)))
                    (bl.object-iter tx.base h k)
                ∙ find_object-swap object_hash free h (b.iter_encoded_objects tx.base any_object)
                    (t.iter_encoded_objects tx.temporal any_object))
            ∙ sym (reference_find tx typ h k l),
      )

  -- In a transaction HasEncodedObject has no error, and EncodedObjectSize gives the size, exactly where
  -- EncodedObject finds an object of any type; otherwise they fail with its error.
  pub encoded_object-agrees :
      (tx : TxObjects B T) (h : ℕ)
      → (has_encoded_object b t tx h ≡ error_of (encoded_object b t tx any_object h))
        × (encoded_object_size b t tx h ≡ size_of (encoded_object b t tx any_object h))
  unfolding encoded_object has_encoded_object encoded_object_size
  encoded_object-agrees tx h = (
    rw (bl.has-object tx.base h, tl.has-object tx.temporal h)
        (or_error-of (b.encoded_object tx.base any_object h)
          (t.encoded_object tx.temporal any_object h)),
    rw (bl.size-object tx.base h, tl.size-object tx.temporal h)
        (size_of-or_else (b.encoded_object tx.base any_object h)
          (t.encoded_object tx.temporal any_object h)),
  )
