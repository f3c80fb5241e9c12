-- ===== src/Storage/Transactional/Cells.antt =====
-- storage/transactional/shallow.go, index.go and config.go. The last two are the same code over the type of
-- the value. The temporal storage after a commit is left out of its result.
use ai_experimental_search.Base.{
  ℕ, ◌≡◌, refl, ap, ◌∙◌, Bool, true, false, Option, none, some, List, [], ◌∷◌, if◌then◌else◌,
  Bool-cases, inl, inr,
}
use ai_experimental_search.Refs.Storer.{StoreError, Result, ok, err}
use ai_experimental_search.Refs.Cells.{ShallowStorer, IsShallowStorer, CellStorer, IsCellStorer}

pub record TxShallow (B T : Type 0) : Type 0 where
  pub base : B
  pub temporal : T

pub record TxCell (B T : Type 0) : Type 0 where
  pub base : B
  pub temporal : T
  pub changed : Bool

unfoldable pub new_shallow_storage : {B T : Type 0} → B → T → TxShallow B T
new_shallow_storage base temporal = record { base = base; temporal = temporal }

unfoldable pub new_index_storage : {B T : Type 0} → B → T → TxCell B T
new_index_storage base temporal = record { base = base; temporal = temporal; changed = false }

-- `len(shallow) != 0`.
abbrev pub or_shallow : List ℕ → List ℕ → List ℕ
or_shallow [] fallback = fallback
or_shallow (c ∷ commits) fallback = c ∷ commits

module _ {B T : Type 0} (b : ShallowStorer B) (t : ShallowStorer T) where
  abbrev with_shallow : TxShallow B T → T × Option StoreError → TxShallow B T × Option StoreError
  with_shallow tx (temporal, e) = (record tx { temporal = temporal }, e)

  unfoldable pub set_shallow : List ℕ → TxShallow B T → TxShallow B T × Option StoreError
  set_shallow commits tx = with_shallow tx (t.set_shallow commits tx.temporal)

  unfoldable pub shallow : TxShallow B T → List ℕ
  shallow tx = or_shallow (t.shallow tx.temporal) (b.shallow tx.base)

  abbrev commit_shallows : B → List ℕ → B × Option StoreError
  commit_shallows s [] = (s, none)
  commit_shallows s (c ∷ commits) = b.set_shallow (c ∷ commits) s

  unfoldable pub commit_shallow : TxShallow B T → B × Option StoreError
  commit_shallow tx = commit_shallows tx.base (t.shallow tx.temporal)

module _ {B T : Type 0} (b : ShallowStorer B) (t : ShallowStorer T) (bl : IsShallowStorer b)
    (tl : IsShallowStorer t) where
  -- A commit has no error, and then the base storage has the shallow commits that the transaction gave.
  pub shallow-commit :
      (tx : TxShallow B T)
      → ((commit_shallow b t tx).1 ≡ none) × (b.shallow (commit_shallow b t tx).0 ≡ shallow b t tx)
  unfolding commit_shallow shallow
  shallow-commit tx = commits (t.shallow tx.temporal)
    where
      commits :
          (l : List ℕ)
          → ((commit_shallows b t tx.base l).1 ≡ none)
            × (b.shallow (commit_shallows b t tx.base l).0 ≡ or_shallow l (b.shallow tx.base))
      commits [] = (refl, refl)
      commits (c ∷ l) = (bl.set_no_error (c ∷ l) tx.base, bl.shallow-set (c ∷ l) tx.base)

  -- What a transaction gives after it sets shallow commits, and what the base storage has after the commit:
  -- these commits, but its own ones as before where the new list is empty, so that no transaction can end
  -- the shallowness of a repository.
  pub commit-set_shallow :
      (commits : List ℕ) (tx : TxShallow B T)
      → let new = (set_shallow b t commits tx).0 in
        (shallow b t new ≡ or_shallow commits (b.shallow tx.base))
        × (b.shallow (commit_shallow b t new).0 ≡ or_shallow commits (b.shallow tx.base))
  unfolding set_shallow shallow
  commit-set_shallow commits tx =
      let gives : shallow b t (set_shallow b t commits tx).0
          ≡ or_shallow commits (b.shallow tx.base) =
        ap (λ (l : List ℕ). or_shallow l (b.shallow tx.base))
          (tl.shallow-set commits tx.temporal) in
      (gives, (shallow-commit (set_shallow b t commits tx).0).1 ∙ gives)

module _ {B T V : Type 0} (b : CellStorer B V) (t : CellStorer T V) where
  abbrev set_changed : TxCell B T → T × Option StoreError → TxCell B T × Option StoreError
  set_changed tx (temporal, some e) = (record tx { temporal = temporal }, some e)
  set_changed tx (temporal, none) = (record tx { temporal = temporal; changed = true }, none)

  unfoldable pub set_value : V → TxCell B T → TxCell B T × Option StoreError
  set_value v tx = set_changed tx (t.set_value v tx.temporal)

  abbrev in_base : TxCell B T → B × Result V → TxCell B T × Result V
  in_base tx (s, r) = (record tx { base = s }, r)

  abbrev in_temporal : TxCell B T → T × Result V → TxCell B T × Result V
  in_temporal tx (s, r) = (record tx { temporal = s }, r)

  unfoldable pub value : TxCell B T → TxCell B T × Result V
  value tx =
      if tx.changed then in_temporal tx (t.value tx.temporal) else in_base tx (b.value tx.base)

  abbrev commit_result : B → Result V → B × Option StoreError
  commit_result s (err e) = (s, some e)
  commit_result s (ok v) = b.set_value v s

  unfoldable pub commit_value : TxCell B T → B × Option StoreError
  commit_value tx =
      if tx.changed then commit_result tx.base (t.value tx.temporal).1 else (tx.base, none)

module _ {B T V : Type 0} (validate : V → Option StoreError) (b : CellStorer B V)
    (t : CellStorer T V) (bl : IsCellStorer validate b) (tl : IsCellStorer validate t) where
  -- A value that was set is one that is valid.
  abbrev pub Holds : TxCell B T → Type 0
  Holds tx = tx.changed ≡ true → (v : V) × ((t.value tx.temporal).1 ≡ ok v) × (validate v ≡ none)

  pub Holds-new : (s : B) (e : T) → Holds (new_index_storage s e)
  unfolding new_index_storage
  Holds-new s e h = cc

  set_changed-cases :
      (tx : TxCell B T) (r : T × Option StoreError) (x : Option StoreError)
      → r.1 ≡ x
      → (x ≡ none
          → (set_changed b t tx r
              ≡ (record { base = tx.base; temporal = r.0; changed = true }, none)))
  set_changed-cases tx (s, none) x e h = refl
  set_changed-cases tx (s, some y) x e h = cc

  -- Setting a valid value succeeds: the transaction then gives it, and holds a value that a commit can set.
  pub value-set_value :
      (v : V) (tx : TxCell B T)
      → validate v ≡ none
      → let new = set_value b t v tx in (new.1 ≡ none) × ((value b t new.0).1 ≡ ok v) × Holds new.0
  unfolding set_value value
  value-set_value v tx h =
      let same =
        set_changed-cases tx (t.set_value v tx.temporal) (validate v)
          (tl.set-validate v tx.temporal) h in
      rw same (refl, tl.value-set v tx.temporal h, λ c. (v, tl.value-set v tx.temporal h, h))

  -- A commit has no error, and then the base storage gives the value that the transaction gave.
  pub value-commit :
      (tx : TxCell B T)
      → Holds tx
      → ((commit_value b t tx).1 ≡ none) × ((b.value (commit_value b t tx).0).1 ≡ (value b t tx).1)
  unfolding commit_value value
  value-commit tx h = elim (Bool-cases tx.changed) [
    | inl c ↦
        let (v, e, q) = h c in rw c (rw e (bl.set-validate v tx.base ∙ q, bl.value-set v tx.base q))
    | inr c ↦ rw c (refl, refl)
  ]
