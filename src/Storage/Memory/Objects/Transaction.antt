-- ===== src/Storage/Memory/Objects/Transaction.antt =====
-- TxObjectStorage of storage/memory/storage.go: the transactions that Begin starts.
use ai_experimental_search.Base.{ℕ, ◌≡◌, refl, ap, ◌∙◌, Option, none, some, List, [], ◌∷◌, inl, inr}
use ai_experimental_search.Object.{ObjectType, any_object, EncodedObject, IsCollisionFree}
use ai_experimental_search.Refs.Storer.{StoreError, object_not_found, Result, err, and_then}
use ai_experimental_search.Refs.ObjectStorer.{narrow, find_object, AllSupported}
use ai_experimental_search.Refs.CopyObjects.{
  or_else, or_else-found, find_object-cases, copy_all, copy_all_lem,
}
use ai_experimental_search.Storage.Memory.Objects.{
  Objects, lookup, insert, flatten_object_map, ObjectStorage, encoded_object, set_encoded_object,
  memory_objects,
}
use ai_experimental_search.Storage.Memory.Objects.Laws.{
  Keyed, IsIndexed, Keyed-insert, find-flatten, supported-flatten, memory_objects-IsObjectStorer,
  lookup-insert,
}

pub record TxObjectStorage : Type 0 where
  pub storage : ObjectStorage
  pub objects : Objects

unfoldable pub begin : ObjectStorage → TxObjectStorage
begin s = record { storage = s; objects = [] }

unfoldable pub rollback : TxObjectStorage → TxObjectStorage
rollback tx = record tx { objects = [] }

-- The objects of the storage below are not looked at.
unfoldable pub tx_encoded_object : TxObjectStorage → ObjectType → ℕ → Result EncodedObject
unfolding lookup
tx_encoded_object tx t h = narrow t (lookup h tx.objects)

module _ (object_hash : EncodedObject → ℕ) where
  unfoldable pub tx_set_encoded_object : EncodedObject → TxObjectStorage → TxObjectStorage
  unfolding insert
  tx_set_encoded_object x tx = record tx { objects = insert (object_hash x) x tx.objects }

  abbrev stored :
      (ObjectStorage → Objects × ObjectStorage × Option StoreError)
      → Objects
      → ObjectStorage × Option StoreError
      → Objects × ObjectStorage × Option StoreError
  stored more m (s, none) = more s
  stored more m (s, some e) = (m, s, some e)

  -- An object is deleted from the transaction before it is stored.
  unfoldable pub commit_loop : Objects → ObjectStorage → Objects × ObjectStorage × Option StoreError
  unfolding set_encoded_object
  commit_loop [] s = ([], s, none)
  commit_loop ((h, x) ∷ m) s =
      stored (λ s'. commit_loop m s') m (set_encoded_object object_hash x s)

  abbrev as_transaction :
      Objects × ObjectStorage × Option StoreError → TxObjectStorage × Option StoreError
  as_transaction (m, s, e) = (record { storage = s; objects = m }, e)

  unfoldable pub tx_commit : TxObjectStorage → TxObjectStorage × Option StoreError
  unfolding commit_loop
  tx_commit tx = as_transaction (commit_loop tx.objects tx.storage)

  -- What a transaction stores, until it is ended.
  unfoldable pub store_all : List EncodedObject → TxObjectStorage → TxObjectStorage
  unfolding tx_set_encoded_object
  store_all [] tx = tx
  store_all (x ∷ xs) tx = store_all xs (tx_set_encoded_object x tx)

  store_all-Keyed :
      (xs : List EncodedObject) (tx : TxObjectStorage)
      → AllSupported xs
      → Keyed object_hash tx.objects
      → Keyed object_hash (store_all xs tx).objects
  unfolding store_all tx_set_encoded_object
  store_all-Keyed [] tx a k = k
  store_all-Keyed (x ∷ xs) tx (a, as_) k =
      store_all-Keyed xs (tx_set_encoded_object x tx) as_
        (Keyed-insert object_hash x tx.objects a k)

  store_all-storage :
      (xs : List EncodedObject) (tx : TxObjectStorage) → (store_all xs tx).storage ≡ tx.storage
  unfolding store_all tx_set_encoded_object
  store_all-storage [] tx = refl
  store_all-storage (x ∷ xs) tx = store_all-storage xs (tx_set_encoded_object x tx)

  abbrev emptied : ObjectStorage × Option StoreError → Objects × ObjectStorage × Option StoreError
  emptied r = ([], r.0, r.1)

  module _ (free : IsCollisionFree object_hash) where
    commit_loop-copy_all :
        (m : Objects) (s : ObjectStorage)
        → Keyed object_hash m
        → IsIndexed object_hash s
        → commit_loop m s ≡ emptied (copy_all (memory_objects object_hash) (flatten_object_map m) s)
    unfolding commit_loop copy_all flatten_object_map set_encoded_object
    commit_loop-copy_all [] s k v = refl
    commit_loop-copy_all ((h, x) ∷ m) s (e, a, k) v =
        let laws = memory_objects-IsObjectStorer object_hash free in
        stored-ok (set_encoded_object object_hash x s) (laws.set_no_error x s a)
          (commit_loop-copy_all m (set_encoded_object object_hash x s).0 k (laws.set-Kept x s a v))
      where
        stored-ok :
            (r : ObjectStorage × Option StoreError)
            → r.1 ≡ none
            → commit_loop m r.0
              ≡ emptied (copy_all (memory_objects object_hash) (flatten_object_map m) r.0)
            → stored (λ s'. commit_loop m s') m r
              ≡ emptied (
                  and_then
                    (λ s'. copy_all (memory_objects object_hash) (flatten_object_map m) s')
                    r)
        stored-ok (s', none) q ih = ih
        stored-ok (s', some x) q ih = cc

    or_else-missing :
        (h : ℕ) (xs : List EncodedObject)
        → or_else (find_object object_hash h xs) (err object_not_found)
          ≡ find_object object_hash h xs
    or_else-missing h xs = elim (find_object-cases object_hash h xs) [
      | inl n ↦ rw n refl
      | inr (x, k, p) ↦ rw k refl
    ]

    lookup-store_all :
        (xs : List EncodedObject) (tx : TxObjectStorage) (h : ℕ)
        → lookup h (store_all xs tx).objects
          ≡ or_else (find_object object_hash h xs) (lookup h tx.objects)
    unfolding store_all tx_set_encoded_object find_object
    lookup-store_all [] tx h = refl
    lookup-store_all (x ∷ xs) tx h =
        lookup-store_all xs (tx_set_encoded_object x tx) h
        ∙ ap (or_else (find_object object_hash h xs)) (lookup-insert (object_hash x) x tx.objects h)
        ∙ or_else-found object_hash free h x xs (lookup h tx.objects)

    -- A transaction of a storage in memory that stores objects of supported types and commits: there is no
    -- error, the transaction is empty again, the maps of the storage still agree, and the storage gives an
    -- object, of the type that is asked for, exactly where it is one of these or was in the storage before.
    -- No two objects are taken to have one hash.
    pub tx_commit-store_all :
        (xs : List EncodedObject) (s : ObjectStorage)
        → AllSupported xs
        → IsIndexed object_hash s
        → let done = tx_commit (store_all xs (begin s)) in
          (done.1 ≡ none)
          × (done.0.objects ≡ [])
          × IsIndexed object_hash done.0.storage
          × ((t : ObjectType) (h : ℕ)
              → encoded_object done.0.storage t h
                ≡ narrow t (or_else (find_object object_hash h xs) (encoded_object s any_object h)))
    unfolding tx_commit begin lookup
    tx_commit-store_all xs s a v =
        let laws = memory_objects-IsObjectStorer object_hash free in
        let tx = store_all xs (begin s) in
        let keyed = store_all-Keyed xs (begin s) a tt in
        let same : tx.storage ≡ s = store_all-storage xs (begin s) in
        let (quiet, kept, gives) =
          copy_all_lem object_hash free (memory_objects object_hash) laws
            (flatten_object_map tx.objects) s (supported-flatten object_hash tx.objects keyed) v in
        rw (same, commit_loop-copy_all tx.objects s keyed v)
          (
            quiet,
            refl,
            kept,
            λ t h.
                laws.object-typ
                  (copy_all (memory_objects object_hash) (flatten_object_map tx.objects) s).0 t h
                ∙ ap (narrow t) (
                    gives h
                    ∙ rw
                        (
                          find-flatten object_hash h tx.objects keyed,
                          lookup-store_all xs (begin s) h,
                        )
                        (ap
                          (λ (r : Result EncodedObject). or_else r (encoded_object s any_object h))
                          (or_else-missing h xs))),
          )
