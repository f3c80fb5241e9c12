-- ===== src/Storage/Memory/Whole.antt =====
-- Storage of storage/memory/storage.go, with no modules. `first_index` is the index of version 2 with no
-- entries; the new configuration and the validation are parameters.
use ai_experimental_search.Base.{Option, none, List, []}
use ai_experimental_search.Object.{EncodedObject, IsCollisionFree}
use ai_experimental_search.Refs.Storer.{StoreError, Named}
use ai_experimental_search.Refs.Reference.{Reference}
use ai_experimental_search.Base.{ℕ}
use ai_experimental_search.Storage.Storer.{Storer, Parts, IsStorer}
use ai_experimental_search.Storage.Memory.References.{
  memory_references, memory_references-IsReferenceStorer,
}
use ai_experimental_search.Storage.Memory.Objects.{
  ObjectStorage, new_object_storage, memory_objects,
}
use ai_experimental_search.Storage.Memory.Objects.Laws.{IsIndexed, memory_objects-IsObjectStorer}
use ai_experimental_search.Storage.Memory.Cells.{
  memory_index, memory_config, memory_shallow, memory_index-IsCellStorer,
  memory_config-IsCellStorer, memory_shallow-IsShallowStorer,
}

unfoldable pub new_storage :
    {Index Config : Type 0}
    → Parts ObjectStorage (List Reference) (Option Index) (List ℕ) (Option Config)
new_storage = record {
  objects = new_object_storage;
  references = [];
  index = none;
  shallow = [];
  config = none;
}

module _ {Index Config : Type 0} (object_hash : EncodedObject → ℕ) (first_index : Index)
    (new_config : Config) (validate : Config → Option StoreError) where
  abbrev pub memory_storer :
      Storer ObjectStorage (List Reference) (Option Index) (List ℕ) (Option Config) Index Config
  memory_storer = record {
    objects = memory_objects object_hash;
    references = memory_references;
    index = memory_index first_index;
    shallow = memory_shallow;
    config = memory_config new_config validate;
  }

  -- The storage in memory keeps the contract of each part: objects, references, index, shallow commits and
  -- configuration. No two objects are taken to have one hash.
  pub memory_storer-IsStorer :
      IsCollisionFree object_hash
      → IsStorer object_hash (λ i. none) validate memory_storer (IsIndexed object_hash) Named
  memory_storer-IsStorer free = record {
    objects_law = memory_objects-IsObjectStorer object_hash free;
    references_law = memory_references-IsReferenceStorer;
    index_law = memory_index-IsCellStorer first_index;
    shallow_law = memory_shallow-IsShallowStorer;
    config_law = memory_config-IsCellStorer new_config validate;
  }
