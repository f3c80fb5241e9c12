-- ===== src/Refs/Cells.antt =====
-- The interfaces ShallowStorer (plumbing/storer/shallow.go), IndexStorer (plumbing/storer/index.go) and
-- ConfigStorer (config/config.go). The last two are one interface over the type of the value.
use ai_experimental_search.Base.{ℕ, ◌≡◌, Option, none, List}
use ai_experimental_search.Refs.Storer.{StoreError, Result, ok}

pub record ShallowStorer (S : Type 0) : Type 0 where
  pub set_shallow : List ℕ → S → S × Option StoreError
  pub shallow : S → List ℕ

pub record IsShallowStorer {S : Type 0} (o : ShallowStorer S) : Type 0 where
  pub set_no_error : (commits : List ℕ) (s : S) → (o.set_shallow commits s).1 ≡ none
  pub shallow-set : (commits : List ℕ) (s : S) → o.shallow (o.set_shallow commits s).0 ≡ commits

-- `get` gives the state too, since a storage may set a first value when it is asked.
pub record CellStorer (S V : Type 0) : Type 0 where
  pub set_value : V → S → S × Option StoreError
  pub value : S → S × Result V

-- `validate` is the check of a value, with its error.
pub record IsCellStorer {S V : Type 0} (validate : V → Option StoreError) (o : CellStorer S V)
    : Type 0 where
  pub set-validate : (v : V) (s : S) → (o.set_value v s).1 ≡ validate v
  pub value-set : (v : V) (s : S) → validate v ≡ none → (o.value (o.set_value v s).0).1 ≡ ok v
