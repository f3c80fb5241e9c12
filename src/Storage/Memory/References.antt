-- ===== src/Storage/Memory/References.antt =====
-- ReferenceStorage of storage/memory/storage.go: the references under their names. No method is called with
-- a nil reference.
use ai_experimental_search.Base.{
  ℕ, ◌≡◌, refl, sym, ap, ◌∙◌, Bool, false, not, Option, none, some, List, [], ◌∷◌, Bytes, bytes_eq,
  bytes_eq→≡, if◌then◌else◌, ◌==◌, length, arith, Bool-cases, inl, inr, bytes_eq_cong, bytes_eq_sym,
  bytes_eq_apart,
}
use ai_experimental_search.Refs.Reference.{Reference}
use ai_experimental_search.Refs.Storer.{
  StoreError, reference_not_found, reference_has_changed, Result, ok, err, ReferenceStorer,
  IsReferenceStorer, find_reference, has_name, Named, find_missing,
}

unfoldable pub set_reference : Reference → List Reference → List Reference
set_reference r [] = r ∷ []
set_reference r (x ∷ xs) = if bytes_eq x.name r.name then r ∷ xs else x ∷ set_reference r xs

unfoldable pub remove_reference : Bytes → List Reference → List Reference
remove_reference n [] = []
remove_reference n (x ∷ xs) = if bytes_eq x.name n then xs else x ∷ remove_reference n xs

unfoldable pub reference : List Reference → Bytes → Result Reference
reference rs n = find_reference n rs

abbrev has_changed : Reference → Result Reference → Bool
has_changed old (ok tmp) = not (tmp.hash == old.hash)
has_changed old (err e) = false

-- `old` is nil or the value that is expected.
unfoldable pub check_and_set_reference :
    Reference → Option Reference → List Reference → List Reference × Option StoreError
unfolding reference
check_and_set_reference r none rs = (set_reference r rs, none)
check_and_set_reference r (some old) rs =
    if has_changed old (reference rs r.name)
    then (rs, some reference_has_changed)
    else (set_reference r rs, none)

unfoldable pub count_loose_refs : List Reference → ℕ
count_loose_refs rs = length rs

abbrev pub memory_references : ReferenceStorer (List Reference)
memory_references = record {
  set_reference = λ r rs. (set_reference r rs, none);
  reference = reference;
  iter_references = λ rs. rs;
  remove_reference = λ n rs. (remove_reference n rs, none);
  count_loose_refs = count_loose_refs;
}

find-set_reference :
    (r : Reference) (rs : List Reference) (n : Bytes)
    → find_reference n (set_reference r rs)
      ≡ (if bytes_eq r.name n then ok r else find_reference n rs)
unfolding find_reference set_reference
find-set_reference r [] n = refl
find-set_reference r (x ∷ xs) n = elim (Bool-cases (bytes_eq x.name r.name)) [
  | inl e ↦ ground (arith, bytes_eq_cong x.name r.name n e)
  | inr e ↦ elim (Bool-cases (bytes_eq x.name n)) [
    | inl f ↦ ground (arith, bytes_eq_apart x.name r.name n e f)
    | inr f ↦ ground (arith, find-set_reference r xs n)
  ]
]

has_name-set_reference :
    (r : Reference) (rs : List Reference) (n : Bytes)
    → bytes_eq r.name n ≡ false
    → has_name n (set_reference r rs) ≡ has_name n rs
unfolding has_name set_reference
has_name-set_reference r [] n h = rw h
has_name-set_reference r (x ∷ xs) n h = elim (Bool-cases (bytes_eq x.name r.name)) [
  | inl e ↦ ground (arith, bytes_eq_cong x.name r.name n e)
  | inr e ↦ ground (arith, has_name-set_reference r xs n h)
]

Named-set_reference : (r : Reference) (rs : List Reference) → Named rs → Named (set_reference r rs)
unfolding has_name set_reference
Named-set_reference r [] h = (refl, tt)
Named-set_reference r (x ∷ xs) (h, hs) = elim (Bool-cases (bytes_eq x.name r.name)) [
  | inl e ↦ rw e (ap (λ (m : Bytes). has_name m xs) (sym (bytes_eq→≡ x.name r.name e)) ∙ h, hs)
  | inr e ↦ rw e (
    has_name-set_reference r xs x.name (bytes_eq_sym r.name x.name ∙ e) ∙ h,
    Named-set_reference r xs hs,
  )
]

has_name-remove_reference :
    (m n : Bytes) (rs : List Reference)
    → has_name n rs ≡ false
    → has_name n (remove_reference m rs) ≡ false
unfolding has_name remove_reference
has_name-remove_reference m n [] h = refl
has_name-remove_reference m n (x ∷ xs) h = ground (arith, has_name-remove_reference m n xs)

Named-remove_reference :
    (n : Bytes) (rs : List Reference) → Named rs → Named (remove_reference n rs)
unfolding remove_reference
Named-remove_reference n [] h = tt
Named-remove_reference n (x ∷ xs) (h, hs) = elim (Bool-cases (bytes_eq x.name n)) [
  | inl e ↦ rw e hs
  | inr e ↦ rw e (has_name-remove_reference n x.name xs h, Named-remove_reference n xs hs)
]

find-remove_reference :
    (m : Bytes) (rs : List Reference) (n : Bytes)
    → Named rs
    → find_reference n (remove_reference m rs)
      ≡ (if bytes_eq m n then err reference_not_found else find_reference n rs)
unfolding find_reference remove_reference
find-remove_reference m [] n h = ground arith
find-remove_reference m (x ∷ xs) n (h, hs) = elim (Bool-cases (bytes_eq x.name m)) [
  | inl e ↦ elim (Bool-cases (bytes_eq m n)) [
    | inl f ↦
        let gone : has_name n xs ≡ false =
          ap (λ (k : Bytes). has_name k xs) (sym (bytes_eq→≡ x.name m e ∙ bytes_eq→≡ m n f)) ∙ h in
        rw (e, f, find_missing n xs gone)
    | inr f ↦ ground (arith, bytes_eq_cong x.name m n e)
  ]
  | inr e ↦ elim (Bool-cases (bytes_eq x.name n)) [
    | inl f ↦ ground (arith, bytes_eq_apart x.name m n e f)
    | inr f ↦ ground (arith, find-remove_reference m xs n hs)
  ]
]

-- The storage in memory keeps the contract of a reference storer, on lists with distinct names.
pub memory_references-IsReferenceStorer : IsReferenceStorer memory_references Named
unfolding reference
memory_references-IsReferenceStorer = record {
  set_no_error = λ r s. refl;
  set-Kept = Named-set_reference;
  reference-set = find-set_reference;
  remove_no_error = λ m s. refl;
  remove-Kept = Named-remove_reference;
  reference-remove = find-remove_reference;
  reference-iter = λ s n h. refl;
  iter-Named = λ s h. h;
}
