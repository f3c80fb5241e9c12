-- ===== src/Storage/Transactional/References.antt =====
-- storage/transactional/reference.go over any two reference storers. `deleted` is a set of names.
use ai_experimental_search.Base.{
  ℕ, ◌+◌, Bool, true, false, not, ◌||◌, Option, none, some, List, [], ◌∷◌, ◌++◌, Bytes, bytes_eq,
  if◌then◌else◌, ◌==◌,
}
use ai_experimental_search.Refs.Reference.{Reference}
use ai_experimental_search.Refs.Storer.{
  StoreError, reference_not_found, reference_has_changed, Result, ok, err, ReferenceStorer,
  and_then,
}
pub mod Commit
pub mod Replay
pub mod Checks

pub record TxReferences (B T : Type 0) : Type 0 where
  pub base : B
  pub temporal : T
  pub deleted : List Bytes

unfoldable pub new_reference_storage : {B T : Type 0} → B → T → TxReferences B T
new_reference_storage base temporal = record { base = base; temporal = temporal; deleted = [] }

unfoldable pub is_deleted : Bytes → List Bytes → Bool
is_deleted n [] = false
is_deleted n (m ∷ ms) = bytes_eq m n || is_deleted n ms

-- `delete(r.deleted, n)`.
unfoldable pub undelete : Bytes → List Bytes → List Bytes
undelete n [] = []
undelete n (m ∷ ms) = let rest = undelete n ms in if bytes_eq m n then rest else m ∷ rest

-- What `fallback` gives where the temporal storer has no such reference.
abbrev pub or_base : Result Reference → Result Reference → Result Reference
or_base (ok r) fallback = ok r
or_base (err reference_not_found) fallback = fallback
or_base (err e) fallback = err e

module _ {B : Type 0} (b : ReferenceStorer B) where
  -- The loops of Commit: the removals, and ForEach over the temporal references.
  unfoldable pub remove_all : List Bytes → B → B × Option StoreError
  remove_all [] s = (s, none)
  remove_all (n ∷ ns) s = and_then (λ s'. remove_all ns s') (b.remove_reference n s)

  unfoldable pub set_all : List Reference → B → B × Option StoreError
  set_all [] s = (s, none)
  set_all (r ∷ rs) s = and_then (λ s'. set_all rs s') (b.set_reference r s)

module _ {B T : Type 0} (b : ReferenceStorer B) (t : ReferenceStorer T) where
  abbrev with_temporal :
      TxReferences B T → List Bytes → T × Option StoreError → TxReferences B T × Option StoreError
  with_temporal tx deleted (temporal, e) =
      (record { base = tx.base; temporal = temporal; deleted = deleted }, e)

  unfoldable pub set_reference : Reference → TxReferences B T → TxReferences B T × Option StoreError
  set_reference ref tx =
      with_temporal tx (undelete ref.name tx.deleted) (t.set_reference ref tx.temporal)

  unfoldable pub reference : TxReferences B T → Bytes → Result Reference
  reference tx n =
      if is_deleted n tx.deleted
      then err reference_not_found
      else or_base (t.reference tx.temporal n) (b.reference tx.base n)

  abbrev pub checked :
      Reference
      → Reference
      → TxReferences B T
      → Result Reference
      → TxReferences B T × Option StoreError
  checked ref old tx (err e) = (tx, some e)
  checked ref old tx (ok tmp) =
      if not (tmp.hash == old.hash) then (tx, some reference_has_changed) else set_reference ref tx

  -- `none` for `old` is nil. The set of deleted names is not looked at.
  unfoldable pub check_and_set_reference :
      Reference → Option Reference → TxReferences B T → TxReferences B T × Option StoreError
  unfolding set_reference
  check_and_set_reference ref none tx = set_reference ref tx
  check_and_set_reference ref (some old) tx =
      checked ref old tx (or_base (t.reference tx.temporal old.name) (b.reference tx.base old.name))

  -- The iterator over the base's references and then the temporal ones.
  unfoldable pub iter_references : TxReferences B T → List Reference
  iter_references tx = b.iter_references tx.base ++ t.iter_references tx.temporal

  unfoldable pub count_loose_refs : TxReferences B T → ℕ
  count_loose_refs tx = t.count_loose_refs tx.temporal + b.count_loose_refs tx.base

  unfoldable pub remove_reference : Bytes → TxReferences B T → TxReferences B T × Option StoreError
  remove_reference n tx = with_temporal tx (n ∷ tx.deleted) (t.remove_reference n tx.temporal)

  unfoldable pub commit : TxReferences B T → B × Option StoreError
  unfolding remove_all set_all
  commit tx =
      and_then (λ s. set_all b (t.iter_references tx.temporal) s) (remove_all b tx.deleted tx.base)
