-- ===== src/Storage/Transactional/Whole.antt =====
-- storage/transactional/storage.go: the five storages of a transaction together, and their Commit. The
-- modules of a storage and its packfile writer are left out.
use ai_experimental_search.Base.{ℕ, ◌≡◌, refl, Option, none, Bytes}
use ai_experimental_search.Object.{ObjectType, EncodedObject, IsCollisionFree}
use ai_experimental_search.Refs.Storer.{StoreError, and_then}
use ai_experimental_search.Storage.Storer.{Storer, Parts, IsStorer}
use ai_experimental_search.Storage.Transactional.References.{TxReferences, new_reference_storage}
use ai_experimental_search.Storage.Transactional.References.Commit.{
  IsValid, new-IsValid, reference-commit,
}
use ai_experimental_search.Storage.Transactional.Objects.{
  TxObjects, new_object_storage, encoded_object-commit,
}
use ai_experimental_search.Storage.Transactional.Cells.{
  TxShallow, TxCell, new_shallow_storage, new_index_storage, Holds, Holds-new, shallow-commit,
  value-commit, commit_shallow, commit_value,
}
use ai_experimental_search.Storage.Transactional.References
use ai_experimental_search.Storage.Transactional.Objects
use ai_experimental_search.Storage.Transactional.Cells

-- The struct `basic`; the base and the temporal storage are those of its parts.
pub record Basic (O R I S C O2 R2 I2 S2 C2 : Type 0) : Type 0 where
  pub objects : TxObjects O O2
  pub references : TxReferences R R2
  pub index : TxCell I I2
  pub shallow : TxShallow S S2
  pub config : TxCell C C2

unfoldable pub new_storage :
    {O R I S C O2 R2 I2 S2 C2 : Type 0}
    → Parts O R I S C
    → Parts O2 R2 I2 S2 C2
    → Basic O R I S C O2 R2 I2 S2 C2
unfolding new_object_storage new_reference_storage new_index_storage new_shallow_storage
new_storage base temporal = record {
  objects = new_object_storage base.objects temporal.objects;
  references = new_reference_storage base.references temporal.references;
  index = new_index_storage base.index temporal.index;
  shallow = new_shallow_storage base.shallow temporal.shallow;
  config = new_index_storage base.config temporal.config;
}

module _ {O R I S C O2 R2 I2 S2 C2 Index Config : Type 0} (b : Storer O R I S C Index Config)
    (t : Storer O2 R2 I2 S2 C2 Index Config) where
  abbrev base_of : Basic O R I S C O2 R2 I2 S2 C2 → Parts O R I S C
  base_of tx = record {
    objects = tx.objects.base;
    references = tx.references.base;
    index = tx.index.base;
    shallow = tx.shallow.base;
    config = tx.config.base;
  }

  -- The parts in the order of the loop, which ends at the first error.
  unfoldable pub commit : Basic O R I S C O2 R2 I2 S2 C2 → Parts O R I S C × Option StoreError
  unfolding Objects.commit References.commit commit_value commit_shallow
  commit tx =
      let c1 = Objects.commit b.objects t.objects tx.objects in
      let c2 = References.commit b.references t.references tx.references in
      let c3 = commit_value b.index t.index tx.index in
      let c4 = commit_shallow b.shallow t.shallow tx.shallow in
      let c5 = commit_value b.config t.config tx.config in
      and_then (λ s. (record s { config = c5.0 }, c5.1))
        (and_then (λ s. (record s { shallow = c4.0 }, c4.1))
          (and_then (λ s. (record s { index = c3.0 }, c3.1))
            (and_then (λ s. (record s { references = c2.0 }, c2.1))
              (record (base_of tx) { objects = c1.0 }, c1.1))))

module _ {O R I S C O2 R2 I2 S2 C2 Index Config : Type 0} (object_hash : EncodedObject → ℕ)
    (free : IsCollisionFree object_hash) (validate_index : Index → Option StoreError)
    (validate : Config → Option StoreError) (b : Storer O R I S C Index Config)
    (t : Storer O2 R2 I2 S2 C2 Index Config) {KeptO : O → Type 0} {KeptR : R → Type 0}
    {KeptO2 : O2 → Type 0} {KeptR2 : R2 → Type 0}
    (bl : IsStorer object_hash validate_index validate b KeptO KeptR)
    (tl : IsStorer object_hash validate_index validate t KeptO2 KeptR2) where
  -- A transaction between its operations.
  pub record IsReady (tx : Basic O R I S C O2 R2 I2 S2 C2) : Type 0 where
    pub base-Kept : KeptO tx.objects.base
    pub temporal-Kept : KeptO2 tx.objects.temporal
    pub references-IsValid :
        IsValid b.references t.references bl.references_law tl.references_law tx.references
    pub index-Holds : Holds validate_index b.index t.index bl.index_law tl.index_law tx.index
    pub config-Holds : Holds validate b.config t.config bl.config_law tl.config_law tx.config

  -- The base storage gives what the transaction gives.
  pub record Agrees (tx : Basic O R I S C O2 R2 I2 S2 C2) (s : Parts O R I S C) : Type 0 where
    pub same_objects :
        (typ : ObjectType) (h : ℕ)
        → b.objects.encoded_object s.objects typ h
          ≡ Objects.encoded_object b.objects t.objects tx.objects typ h
    pub same_references :
        (n : Bytes)
        → b.references.reference s.references n
          ≡ References.reference b.references t.references tx.references n
    pub same_index : (b.index.value s.index).1 ≡ (Cells.value b.index t.index tx.index).1
    pub same_shallow : b.shallow.shallow s.shallow ≡ Cells.shallow b.shallow t.shallow tx.shallow
    pub same_config : (b.config.value s.config).1 ≡ (Cells.value b.config t.config tx.config).1

  -- A new transaction over two storages in states that they keep to is ready to be committed.
  pub new-IsReady :
      (base : Parts O R I S C) (temporal : Parts O2 R2 I2 S2 C2)
      → KeptO base.objects
      → KeptO2 temporal.objects
      → KeptR base.references
      → KeptR2 temporal.references
      → IsReady (new_storage base temporal)
  unfolding new_storage new_object_storage
  new-IsReady base temporal ko ko2 kr kr2 = record {
    base-Kept = ko;
    temporal-Kept = ko2;
    references-IsValid =
        new-IsValid b.references t.references bl.references_law tl.references_law base.references
          temporal.references kr kr2;
    index-Holds =
        Holds-new validate_index b.index t.index bl.index_law tl.index_law base.index
          temporal.index;
    config-Holds =
        Holds-new validate b.config t.config bl.config_law tl.config_law base.config
          temporal.config;
  }

  -- The commit of a transaction that is ready reports no error, and then the base storage gives every object,
  -- every reference, the index, the shallow commits and the configuration that the transaction gave. No two
  -- objects are taken to have one hash.
  pub commit-Agrees :
      (tx : Basic O R I S C O2 R2 I2 S2 C2)
      → IsReady tx
      → ((commit b t tx).1 ≡ none) × Agrees tx (commit b t tx).0
  unfolding commit
  commit-Agrees tx v =
      let (e1, k1, g1) =
        encoded_object-commit object_hash free b.objects t.objects bl.objects_law tl.objects_law
          tx.objects v.base-Kept v.temporal-Kept in
      let (e2, k2, g2) =
        reference-commit b.references t.references bl.references_law tl.references_law tx.references
          v.references-IsValid in
      let (e3, g3) =
        value-commit validate_index b.index t.index bl.index_law tl.index_law tx.index
          v.index-Holds in
      let (e4, g4) = shallow-commit b.shallow t.shallow bl.shallow_law tl.shallow_law tx.shallow in
      let (e5, g5) =
        value-commit validate b.config t.config bl.config_law tl.config_law tx.config
          v.config-Holds in
      rw (e1, e2, e3, e4, e5)
        (
          refl,
          record {
            same_objects = g1;
            same_references = g2;
            same_index = g3;
            same_shallow = g4;
            same_config = g5;
          },
        )
