-- ===== src/Storage/Memory/Cells.antt =====
-- ShallowStorage, IndexStorage and ConfigStorage of storage/memory/storage.go. They never look into an index
-- or a configuration, so these are any types, with the first value and the validation as parameters.
use ai_experimental_search.Base.{ℕ, ◌≡◌, refl, Option, none, some, List}
use ai_experimental_search.Refs.Storer.{StoreError, Result, ok}
use ai_experimental_search.Refs.Cells.{ShallowStorer, IsShallowStorer, CellStorer, IsCellStorer}

unfoldable pub set_shallow : List ℕ → List ℕ → List ℕ × Option StoreError
set_shallow commits s = (commits, none)

unfoldable pub shallow : List ℕ → List ℕ
shallow s = s

abbrev pub memory_shallow : ShallowStorer (List ℕ)
memory_shallow = record { set_shallow = set_shallow; shallow = shallow }

-- The storage of the shallow commits in memory keeps its contract.
pub memory_shallow-IsShallowStorer : IsShallowStorer memory_shallow
unfolding set_shallow shallow
memory_shallow-IsShallowStorer = record { set_no_error = λ c s. refl; shallow-set = λ c s. refl }

module _ {Index : Type 0} (first : Index) where
  unfoldable pub set_index : Index → Option Index → Option Index × Option StoreError
  set_index idx s = (some idx, none)

  unfoldable pub index : Option Index → Option Index × Result Index
  index none = (some first, ok first)
  index (some idx) = (some idx, ok idx)

  abbrev pub memory_index : CellStorer (Option Index) Index
  memory_index = record { set_value = set_index; value = index }

  pub memory_index-IsCellStorer : IsCellStorer (λ v. none) memory_index
  unfolding set_index index
  memory_index-IsCellStorer = record { set-validate = λ v s. refl; value-set = λ v s h. refl }

module _ {Config : Type 0} (new_config : Config) (validate : Config → Option StoreError) where
  abbrev set_config_if :
      Config → Option Config → Option StoreError → Option Config × Option StoreError
  set_config_if cfg s none = (some cfg, none)
  set_config_if cfg s (some e) = (s, some e)

  unfoldable pub set_config : Config → Option Config → Option Config × Option StoreError
  set_config cfg s = set_config_if cfg s (validate cfg)

  unfoldable pub config : Option Config → Option Config × Result Config
  config none = (some new_config, ok new_config)
  config (some cfg) = (some cfg, ok cfg)

  abbrev pub memory_config : CellStorer (Option Config) Config
  memory_config = record { set_value = set_config; value = config }

  pub memory_config-IsCellStorer : IsCellStorer validate memory_config
  unfolding set_config config
  memory_config-IsCellStorer = record {
    set-validate = λ v s. set_config_if-error v s (validate v);
    value-set = λ v s h. rw h refl;
  }
    where
      set_config_if-error :
          (cfg : Config) (s : Option Config) (e : Option StoreError) → (set_config_if cfg s e).1 ≡ e
      set_config_if-error cfg s none = refl
      set_config_if-error cfg s (some x) = refl
