-- ===== src/Storage/Transactional/References/Commit.antt =====
-- Commit of storage/transactional/reference.go: the invariant of a transaction on references, and what the
-- base storage holds after the commit.
use ai_experimental_search.Base.{
  ◌≡◌, refl, sym, ap, ◌∙◌, true, false, none, List, [], ◌∷◌, Bytes, bytes_eq, bytes_eq→≡,
  if◌then◌else◌, arith, Bool-cases, inl, inr, bytes_eq_cong, bytes_eq_apart,
}
use ai_experimental_search.Refs.Reference.{Reference}
use ai_experimental_search.Refs.Storer.{
  reference_not_found, Result, ok, err, ReferenceStorer, IsReferenceStorer, find_reference,
  has_name, Named, find_missing, and_then-ok,
}
use ai_experimental_search.Storage.Transactional.References.{
  TxReferences, new_reference_storage, is_deleted, undelete, set_reference, reference,
  remove_reference, or_base, remove_all, set_all, commit,
}

pub is_deleted-undelete :
    (m : Bytes) (ms : List Bytes) (n : Bytes)
    → is_deleted n (undelete m ms) ≡ (if bytes_eq m n then false else is_deleted n ms)
unfolding is_deleted undelete
is_deleted-undelete m [] n = ground arith
is_deleted-undelete m (x ∷ xs) n = elim (Bool-cases (bytes_eq x m)) [
  | inl e ↦ ground (arith, is_deleted-undelete m xs n, bytes_eq_cong x m n e)
  | inr e ↦ elim (Bool-cases (bytes_eq x n)) [
    | inl f ↦ ground (arith, bytes_eq_apart x m n e f)
    | inr f ↦ ground (arith, is_deleted-undelete m xs n)
  ]
]

-- What a search gives is a reference or ErrReferenceNotFound, so the fallback is used where it finds none.
or_base-found :
    (n : Bytes) (r : Reference) (rs : List Reference) (f : Result Reference)
    → has_name r.name rs ≡ false
    → or_base (find_reference n rs) (if bytes_eq r.name n then ok r else f)
      ≡ or_base (if bytes_eq r.name n then ok r else find_reference n rs) f
or_base-found n r rs f h = elim (Bool-cases (bytes_eq r.name n)) [
  | inl e ↦
      rw
        (e, find_missing n rs (ap (λ (m : Bytes). has_name m rs) (sym (bytes_eq→≡ r.name n e)) ∙ h))
        refl
  | inr e ↦ rw e refl
]

module _ {B : Type 0} (b : ReferenceStorer B) {KeptB : B → Type 0}
    (bl : IsReferenceStorer b KeptB) where
  remove_all-lem :
      (ns : List Bytes) (s : B)
      → KeptB s
      → ((remove_all b ns s).1 ≡ none)
        × KeptB (remove_all b ns s).0
        × ((n : Bytes)
            → b.reference (remove_all b ns s).0 n
              ≡ (if is_deleted n ns then err reference_not_found else b.reference s n))
  unfolding remove_all is_deleted
  remove_all-lem [] s k = (refl, k, λ n. refl)
  remove_all-lem (m ∷ ns) s k =
      let step : remove_all b (m ∷ ns) s ≡ remove_all b ns (b.remove_reference m s).0 =
        and_then-ok (λ s'. remove_all b ns s') (b.remove_reference m s) (bl.remove_no_error m s) in
      let (quiet, kept, ih) = remove_all-lem ns (b.remove_reference m s).0 (bl.remove-Kept m s k) in
      rw step (quiet, kept, λ n. ih n ∙ ground (arith, bl.reference-remove m s n k))

  set_all-lem :
      (rs : List Reference) (s : B)
      → Named rs
      → KeptB s
      → ((set_all b rs s).1 ≡ none)
        × KeptB (set_all b rs s).0
        × ((n : Bytes)
            → b.reference (set_all b rs s).0 n ≡ or_base (find_reference n rs) (b.reference s n))
  unfolding set_all find_reference
  set_all-lem [] s h k = (refl, k, λ n. refl)
  set_all-lem (r ∷ rs) s (h, hs) k =
      let step : set_all b (r ∷ rs) s ≡ set_all b rs (b.set_reference r s).0 =
        and_then-ok (λ s'. set_all b rs s') (b.set_reference r s) (bl.set_no_error r s) in
      let (quiet, kept, ih) = set_all-lem rs (b.set_reference r s).0 hs (bl.set-Kept r s k) in
      rw step (
        quiet,
        kept,
        λ n.
            ih n
            ∙ ap (or_base (find_reference n rs)) (bl.reference-set r s n)
            ∙ or_base-found n r rs (b.reference s n) h,
      )

module _ {B T : Type 0} (b : ReferenceStorer B) (t : ReferenceStorer T) {KeptB : B → Type 0}
    {KeptT : T → Type 0} (bl : IsReferenceStorer b KeptB) (tl : IsReferenceStorer t KeptT) where
  -- What holds between the operations of a transaction.
  pub record IsValid (tx : TxReferences B T) : Type 0 where
    pub base-Kept : KeptB tx.base
    pub temporal-Kept : KeptT tx.temporal
    pub deleted_gone :
        (n : Bytes)
        → is_deleted n tx.deleted ≡ true
        → t.reference tx.temporal n ≡ err reference_not_found

  pub new-IsValid : (s : B) (e : T) → KeptB s → KeptT e → IsValid (new_reference_storage s e)
  unfolding new_reference_storage is_deleted
  new-IsValid s e h k = record { base-Kept = h; temporal-Kept = k; deleted_gone = λ n d. cc }

  pub set-IsValid :
      (r : Reference) (tx : TxReferences B T) → IsValid tx → IsValid (set_reference b t r tx).0
  unfolding set_reference
  set-IsValid r tx v = record {
    base-Kept = v.base-Kept;
    temporal-Kept = tl.set-Kept r tx.temporal v.temporal-Kept;
    deleted_gone = λ n d. gone n d;
  }
    where
      gone :
          (n : Bytes)
          → is_deleted n (undelete r.name tx.deleted) ≡ true
          → t.reference (t.set_reference r tx.temporal).0 n ≡ err reference_not_found
      gone n d = elim (Bool-cases (bytes_eq r.name n)) [
        | inl e ↦ cc (rw (is_deleted-undelete r.name tx.deleted n, e) at d)
        | inr e ↦
            tl.reference-set r tx.temporal n
            ∙ rw e (v.deleted_gone n (rw (is_deleted-undelete r.name tx.deleted n, e) at d))
      ]

  pub remove-IsValid :
      (m : Bytes) (tx : TxReferences B T) → IsValid tx → IsValid (remove_reference b t m tx).0
  unfolding remove_reference is_deleted
  remove-IsValid m tx v = record {
    base-Kept = v.base-Kept;
    temporal-Kept = tl.remove-Kept m tx.temporal v.temporal-Kept;
    deleted_gone = λ n d. gone n d;
  }
    where
      gone :
          (n : Bytes)
          → is_deleted n (m ∷ tx.deleted) ≡ true
          → t.reference (t.remove_reference m tx.temporal).0 n ≡ err reference_not_found
      gone n d = elim (Bool-cases (bytes_eq m n)) [
        | inl e ↦ tl.reference-remove m tx.temporal n v.temporal-Kept ∙ rw e refl
        | inr e ↦
            tl.reference-remove m tx.temporal n v.temporal-Kept
            ∙ rw e (v.deleted_gone n (rw e at d))
      ]

  -- Reads see through a commit.
  reference-loops :
      (tx : TxReferences B T) (n : Bytes)
      → IsValid tx
      → or_base
          (find_reference n (t.iter_references tx.temporal))
          (if is_deleted n tx.deleted then err reference_not_found else b.reference tx.base n)
        ≡ reference b t tx n
  unfolding reference
  reference-loops tx n v = elim (Bool-cases (is_deleted n tx.deleted)) [
    | inl e ↦ rw (e, sym (tl.reference-iter tx.temporal n v.temporal-Kept), v.deleted_gone n e) refl
    | inr e ↦ rw (e, sym (tl.reference-iter tx.temporal n v.temporal-Kept)) refl
  ]

  commit-loops :
      (tx : TxReferences B T)
      → IsValid tx
      → commit b t tx
        ≡ set_all b (t.iter_references tx.temporal) (remove_all b tx.deleted tx.base).0
  unfolding commit
  commit-loops tx v =
      and_then-ok (λ s. set_all b (t.iter_references tx.temporal) s)
        (remove_all b tx.deleted tx.base) (remove_all-lem b bl tx.deleted tx.base v.base-Kept).0

  -- A commit of a valid transaction has no error and keeps the base storage in a state that it keeps to, and
  -- then the base storage gives for every name what the transaction gave.
  pub reference-commit :
      (tx : TxReferences B T)
      → IsValid tx
      → ((commit b t tx).1 ≡ none)
        × KeptB (commit b t tx).0
        × ((n : Bytes) → b.reference (commit b t tx).0 n ≡ reference b t tx n)
  reference-commit tx v =
      let (quiet, kept, gives) = remove_all-lem b bl tx.deleted tx.base v.base-Kept in
      let (quiet', kept', gives') =
        set_all-lem b bl (t.iter_references tx.temporal) (remove_all b tx.deleted tx.base).0
          (tl.iter-Named tx.temporal v.temporal-Kept) kept in
      rw (commit-loops tx v) (
        quiet',
        kept',
        λ n.
            gives' n
            ∙ ap (or_base (find_reference n (t.iter_references tx.temporal))) (gives n)
            ∙ reference-loops tx n v,
      )
