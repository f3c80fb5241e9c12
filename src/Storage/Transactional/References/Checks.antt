-- ===== src/Storage/Transactional/References/Checks.antt =====
-- IterReferences and CheckAndSetReference of storage/transactional/reference.go, which do not look at the set
-- of deleted names.
use ai_experimental_search.Base.{
  ◌≡◌, refl, ◌∙◌, sym, some, List, [], ◌∷◌, ◌++◌, Bytes, bytes_eq, bytes_eq_refl, if◌then◌else◌,
  Bool-cases, inl, inr,
}
use ai_experimental_search.Refs.Reference.{Reference}
use ai_experimental_search.Refs.Storer.{
  reference_not_found, ok, err, ReferenceStorer, IsReferenceStorer, find_reference,
}
use ai_experimental_search.Storage.Transactional.References.{
  TxReferences, set_reference, remove_reference, is_deleted, reference, check_and_set_reference,
  iter_references, or_base, checked,
}
use ai_experimental_search.Storage.Transactional.References.Commit.{IsValid, is_deleted-undelete}

find-append :
    (n : Bytes) (xs ys : List Reference)
    → find_reference n (xs ++ ys) ≡ or_base (find_reference n xs) (find_reference n ys)
unfolding find_reference
find-append n [] ys = refl
find-append n (x ∷ xs) ys = elim (Bool-cases (bytes_eq x.name n)) [
  | inl e ↦ rw e refl
  | inr e ↦ rw e (find-append n xs ys)
]

module _ {B T : Type 0} (b : ReferenceStorer B) (t : ReferenceStorer T) {KeptB : B → Type 0}
    {KeptT : T → Type 0} (bl : IsReferenceStorer b KeptB) (tl : IsReferenceStorer t KeptT) where
  -- Whatever the transaction holds, the first one of the references that it lists under a name is the one of the
  -- base storage, where it has one.
  iter_references-base :
      (tx : TxReferences B T) (n : Bytes) (r : Reference)
      → KeptB tx.base
      → b.reference tx.base n ≡ ok r
      → find_reference n (iter_references b t tx) ≡ ok r
  unfolding iter_references
  iter_references-base tx n r k f =
      let listed : find_reference n (b.iter_references tx.base) ≡ ok r =
        sym (bl.reference-iter tx.base n k) ∙ f in
      find-append n (b.iter_references tx.base) (t.iter_references tx.temporal) ∙ rw listed refl

  -- For a transaction over two storages that keep their laws, and a name that the base storage has a reference
  -- under: after SetReference of a new reference with this name a read in the transaction gives the new one,
  -- and after RemoveReference of the name it finds nothing, but the first reference that the transaction lists
  -- under the name is the one of the base storage, both times.
  pub iter_references-set-remove :
      (tx : TxReferences B T) (new r : Reference)
      → KeptB tx.base
      → b.reference tx.base new.name ≡ ok r
      → (reference b t (set_reference b t new tx).0 new.name ≡ ok new)
        × (find_reference new.name (iter_references b t (set_reference b t new tx).0) ≡ ok r)
        × (reference b t (remove_reference b t new.name tx).0 new.name ≡ err reference_not_found)
        × (find_reference new.name (iter_references b t (remove_reference b t new.name tx).0)
            ≡ ok r)
  unfolding set_reference remove_reference reference is_deleted
  iter_references-set-remove tx new r k f = (
    rw
        (
          is_deleted-undelete new.name tx.deleted new.name,
          tl.reference-set new tx.temporal new.name,
          bytes_eq_refl new.name,
        )
        refl,
    iter_references-base (set_reference b t new tx).0 new.name r k f,
    rw (bytes_eq_refl new.name) refl,
    iter_references-base (remove_reference b t new.name tx).0 new.name r k f,
  )

  -- A checked update compares with what the transaction gives for the old name, except that after a removal
  -- of this name in a valid transaction it compares with the value of the base storage, which a read in the
  -- transaction does not give any more.
  pub check_and_set-reads :
      (new old : Reference) (tx : TxReferences B T)
      → IsValid b t bl tl tx
      → check_and_set_reference b t new (some old) tx
        ≡ checked b t new old tx (
            if is_deleted old.name tx.deleted
            then b.reference tx.base old.name
            else reference b t tx old.name)
  unfolding check_and_set_reference reference
  check_and_set-reads new old tx v = elim (Bool-cases (is_deleted old.name tx.deleted)) [
    | inl d ↦ rw (d, v.deleted_gone old.name d) refl
    | inr d ↦ rw d refl
  ]
