-- ===== src/Storage/Storer.antt =====
-- storage/storer.go: the interface Storer as the operations of its parts, their states, and the contract of
-- each part.
use ai_experimental_search.Base.{ℕ, Option}
use ai_experimental_search.Object.{EncodedObject}
use ai_experimental_search.Refs.Storer.{StoreError, ReferenceStorer, IsReferenceStorer}
use ai_experimental_search.Refs.ObjectStorer.{ObjectStorer, IsObjectStorer}
use ai_experimental_search.Refs.Cells.{ShallowStorer, IsShallowStorer, CellStorer, IsCellStorer}

-- The operations of a storage with five parts.
pub record Storer (O R I S C Index Config : Type 0) : Type 0 where
  pub objects : ObjectStorer O
  pub references : ReferenceStorer R
  pub index : CellStorer I Index
  pub shallow : ShallowStorer S
  pub config : CellStorer C Config

pub record Parts (O R I S C : Type 0) : Type 0 where
  pub objects : O
  pub references : R
  pub index : I
  pub shallow : S
  pub config : C

-- The contract of each part; `KeptO` and `KeptR` hold of the states of objects and references.
module _ {O R I S C Index Config : Type 0} (object_hash : EncodedObject → ℕ)
    (validate_index : Index → Option StoreError) (validate : Config → Option StoreError)
    (o : Storer O R I S C Index Config) (KeptO : O → Type 0) (KeptR : R → Type 0) where
  pub record IsStorer : Type 0 where
    pub objects_law : IsObjectStorer object_hash o.objects KeptO
    pub references_law : IsReferenceStorer o.references KeptR
    pub index_law : IsCellStorer validate_index o.index
    pub shallow_law : IsShallowStorer o.shallow
    pub config_law : IsCellStorer validate o.config
