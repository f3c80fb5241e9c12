-- ===== src/Storage/Transactional/References/Replay.antt =====
-- storage/transactional/reference.go against its specification: a transaction that runs operations and
-- commits does to the base storage what the same operations do to it directly.
use ai_experimental_search.Base.{
  ◌≡◌, refl, ◌∙◌, Option, none, some, List, [], ◌∷◌, Bytes, bytes_eq, if◌then◌else◌, Bool-cases,
  inl, inr, ◌==◌,
}
use ai_experimental_search.Refs.Reference.{Reference}
use ai_experimental_search.Refs.Storer.{
  StoreError, reference_not_found, Result, ok, err, ReferenceStorer, IsReferenceStorer,
}
use ai_experimental_search.Storage.Transactional.References.{
  TxReferences, new_reference_storage, is_deleted, set_reference, reference,
  check_and_set_reference, remove_reference, or_base, commit, checked,
}
use ai_experimental_search.Storage.Transactional.References.Commit.{
  is_deleted-undelete, IsValid, new-IsValid, set-IsValid, remove-IsValid, reference-commit,
}

pub data Op : Type 0 where
  setting : Reference → Op
  removing : Bytes → Op
  checking : Reference → Option Reference → Op

-- The operations that write with no condition.
pub data Write : Type 0 where
  put : Reference → Write
  drop : Bytes → Write

module _ {B T : Type 0} (b : ReferenceStorer B) (t : ReferenceStorer T) where
  unfoldable pub apply : Op → TxReferences B T → TxReferences B T × Option StoreError
  unfolding set_reference remove_reference check_and_set_reference
  apply (setting r) tx = set_reference b t r tx
  apply (removing n) tx = remove_reference b t n tx
  apply (checking r old) tx = check_and_set_reference b t r old tx

  unfoldable pub run : List Op → TxReferences B T → TxReferences B T
  unfolding apply
  run [] tx = tx
  run (o ∷ os) tx = run os (apply o tx).0

abbrev pub as_ops : List Write → List Op
as_ops [] = []
as_ops (put r ∷ ws) = setting r ∷ as_ops ws
as_ops (drop n ∷ ws) = removing n ∷ as_ops ws

-- The same writes to a storer itself.
unfoldable pub run_directly : {B : Type 0} → ReferenceStorer B → List Write → B → B
run_directly b [] s = s
run_directly b (put r ∷ ws) s = run_directly b ws (b.set_reference r s).0
run_directly b (drop n ∷ ws) s = run_directly b ws (b.remove_reference n s).0

module _ {B T : Type 0} (b : ReferenceStorer B) (t : ReferenceStorer T) {KeptB : B → Type 0}
    {KeptT : T → Type 0} (bl : IsReferenceStorer b KeptB) (tl : IsReferenceStorer t KeptT) where
  checked-IsValid :
      (r old : Reference) (tx : TxReferences B T) (x : Result Reference)
      → IsValid b t bl tl tx
      → IsValid b t bl tl (checked b t r old tx x).0
  checked-IsValid r old tx (err e) v = v
  checked-IsValid r old tx (ok tmp) v = elim (Bool-cases (tmp.hash == old.hash)) [
    | inl e ↦ rw e (set-IsValid b t bl tl r tx v)
    | inr e ↦ rw e v
  ]

  apply-IsValid :
      (o : Op) (tx : TxReferences B T) → IsValid b t bl tl tx → IsValid b t bl tl (apply b t o tx).0
  unfolding apply check_and_set_reference
  apply-IsValid (setting r) tx v = set-IsValid b t bl tl r tx v
  apply-IsValid (removing n) tx v = remove-IsValid b t bl tl n tx v
  apply-IsValid (checking r none) tx v = set-IsValid b t bl tl r tx v
  apply-IsValid (checking r (some old)) tx v =
      checked-IsValid r old tx
        (or_base (t.reference tx.temporal old.name) (b.reference tx.base old.name)) v

  -- Setting, removing and checked setting, in any order, keep a transaction valid: both storages stay in
  -- states that they keep to, and the temporal storage has no reference under a name that counts as deleted.
  pub run-IsValid :
      (os : List Op) (tx : TxReferences B T)
      → IsValid b t bl tl tx
      → IsValid b t bl tl (run b t os tx)
  unfolding run
  run-IsValid [] tx v = v
  run-IsValid (o ∷ os) tx v = run-IsValid os (apply b t o tx).0 (apply-IsValid o tx v)

  reference-set_tx :
      (r : Reference) (tx : TxReferences B T) (n : Bytes)
      → reference b t (set_reference b t r tx).0 n
        ≡ (if bytes_eq r.name n then ok r else reference b t tx n)
  unfolding reference set_reference
  reference-set_tx r tx n = elim (Bool-cases (bytes_eq r.name n)) [
    | inl e ↦ rw (is_deleted-undelete r.name tx.deleted n, tl.reference-set r tx.temporal n, e) refl
    | inr e ↦ rw (is_deleted-undelete r.name tx.deleted n, tl.reference-set r tx.temporal n, e) refl
  ]

  reference-remove_tx :
      (m : Bytes) (tx : TxReferences B T) (n : Bytes)
      → KeptT tx.temporal
      → reference b t (remove_reference b t m tx).0 n
        ≡ (if bytes_eq m n then err reference_not_found else reference b t tx n)
  unfolding reference remove_reference is_deleted
  reference-remove_tx m tx n k = elim (Bool-cases (bytes_eq m n)) [
    | inl e ↦ rw e refl
    | inr e ↦ rw (e, tl.reference-remove m tx.temporal n k) (rw e refl)
  ]

  -- The transaction and the base storage give the same references.
  abbrev SameReferences : TxReferences B T → B → Type 0
  SameReferences tx s = (n : Bytes) → reference b t tx n ≡ b.reference s n

  run-SameReferences :
      (ws : List Write) (tx : TxReferences B T) (s : B)
      → IsValid b t bl tl tx
      → KeptB s
      → SameReferences tx s
      → SameReferences (run b t (as_ops ws) tx) (run_directly b ws s)
  unfolding run run_directly apply
  run-SameReferences [] tx s v k h = h
  run-SameReferences (put r ∷ ws) tx s v k h =
      run-SameReferences ws (set_reference b t r tx).0 (b.set_reference r s).0
        (set-IsValid b t bl tl r tx v) (bl.set-Kept r s k)
        (λ n. reference-set_tx r tx n ∙ rw (h n, bl.reference-set r s n) refl)
  run-SameReferences (drop m ∷ ws) tx s v k h =
      run-SameReferences ws (remove_reference b t m tx).0 (b.remove_reference m s).0
        (remove-IsValid b t bl tl m tx v) (bl.remove-Kept m s k)
        (λ n.
          reference-remove_tx m tx n v.temporal-Kept ∙ rw (h n, bl.reference-remove m s n k) refl)

  new-SameReferences :
      (s : B) (e : T)
      → ((n : Bytes) → t.reference e n ≡ err reference_not_found)
      → SameReferences (new_reference_storage s e) s
  unfolding new_reference_storage reference is_deleted
  new-SameReferences s e h n = rw (h n) refl

  -- A transaction that starts with no references of its own, sets and removes references and commits, has no
  -- error, and leaves a base storage with the references that the same writes to the base storage itself
  -- leave.
  pub reference-replay :
      (ws : List Write) (s : B) (e : T)
      → KeptB s
      → KeptT e
      → ((n : Bytes) → t.reference e n ≡ err reference_not_found)
      → let done = commit b t (run b t (as_ops ws) (new_reference_storage s e)) in
        (done.1 ≡ none) × ((n : Bytes) → b.reference done.0 n ≡ b.reference (run_directly b ws s) n)
  reference-replay ws s e k l h =
      let start : IsValid b t bl tl (new_reference_storage s e) = new-IsValid b t bl tl s e k l in
      let (quiet, kept, gives) =
        reference-commit b t bl tl (run b t (as_ops ws) (new_reference_storage s e))
          (run-IsValid (as_ops ws) (new_reference_storage s e) start) in
      (
        quiet,
        λ n.
            gives n
            ∙ run-SameReferences ws (new_reference_storage s e) s start k (new-SameReferences s e h)
                n,
      )
