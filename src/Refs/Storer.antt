-- ===== src/Refs/Storer.antt =====
-- plumbing/storer/reference.go: the interface ReferenceStorer as a record of operations, and the laws that
-- its implementations keep. A method gives the state and its error; the laws of a storer that keeps its
-- contract, with no failing disk below it.
use ai_experimental_search.Base.{
  ℕ, ◌≡◌, Bool, true, false, Option, none, some, List, [], ◌∷◌, Bytes, bytes_eq, if◌then◌else◌,
  arith, refl,
}
use ai_experimental_search.Refs.Reference.{Reference}

pub data StoreError : Type 0 where
  reference_not_found reference_has_changed max_resolve_recursion object_not_found : StoreError
  unsupported_object_type invalid_config not_supported : StoreError

pub data Result {ℓ} (A : Type ℓ) : Type ℓ where
  ok : A → Result A
  err : StoreError → Result A

-- The next operation, after one with no error.
abbrev pub and_then :
    {B : Type 0} → (B → B × Option StoreError) → B × Option StoreError → B × Option StoreError
and_then more (s, none) = more s
and_then more (s, some e) = (s, some e)

pub and_then-ok :
    {B : Type 0} (more : B → B × Option StoreError) (r : B × Option StoreError)
    → r.1 ≡ none
    → and_then more r ≡ more r.0
and_then-ok more (s, none) h = refl
and_then-ok more (s, some e) h = cc

-- IterReferences gives the references in the order in which the iterator yields them.
pub record ReferenceStorer (S : Type 0) : Type 0 where
  pub set_reference : Reference → S → S × Option StoreError
  pub reference : S → Bytes → Result Reference
  pub iter_references : S → List Reference
  pub remove_reference : Bytes → S → S × Option StoreError
  pub count_loose_refs : S → ℕ

-- The reference with a name among others.
unfoldable pub find_reference : Bytes → List Reference → Result Reference
find_reference n [] = err reference_not_found
find_reference n (r ∷ rs) = if bytes_eq r.name n then ok r else find_reference n rs

unfoldable pub has_name : Bytes → List Reference → Bool
has_name n [] = false
has_name n (r ∷ rs) = if bytes_eq r.name n then true else has_name n rs

abbrev pub Named : List Reference → Type 0
Named [] = Unit
Named (r ∷ rs) = (has_name r.name rs ≡ false) × Named rs

pub find_missing :
    (n : Bytes) (rs : List Reference)
    → has_name n rs ≡ false
    → find_reference n rs ≡ err reference_not_found
unfolding find_reference has_name
find_missing n [] h = refl
find_missing n (x ∷ xs) h = ground (arith, find_missing n xs)

-- The laws, for the states that the storer keeps to.
module _ {S : Type 0} (o : ReferenceStorer S) (Kept : S → Type 0) where
  pub record IsReferenceStorer : Type 0 where
    pub set_no_error : (r : Reference) (s : S) → (o.set_reference r s).1 ≡ none
    pub set-Kept : (r : Reference) (s : S) → Kept s → Kept (o.set_reference r s).0
    pub reference-set :
        (r : Reference) (s : S) (n : Bytes)
        → o.reference (o.set_reference r s).0 n
          ≡ (if bytes_eq r.name n then ok r else o.reference s n)
    pub remove_no_error : (m : Bytes) (s : S) → (o.remove_reference m s).1 ≡ none
    pub remove-Kept : (m : Bytes) (s : S) → Kept s → Kept (o.remove_reference m s).0
    pub reference-remove :
        (m : Bytes) (s : S) (n : Bytes)
        → Kept s
        → o.reference (o.remove_reference m s).0 n
          ≡ (if bytes_eq m n then err reference_not_found else o.reference s n)
    pub reference-iter :
        (s : S) (n : Bytes) → Kept s → o.reference s n ≡ find_reference n (o.iter_references s)
    pub iter-Named : (s : S) → Kept s → Named (o.iter_references s)
