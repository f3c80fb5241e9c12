-- ===== src/Storage/Memory/Objects.antt =====
-- ObjectStorage and TxObjectStorage of storage/memory/storage.go. `object_hash` is the hash of an object.
use ai_experimental_search.Base.{
  ℕ, ◌≡◌, refl, sym, ap, ◌∙◌, Bool, true, false, ◌&&◌, Option, none, some, List, [], ◌∷◌, ◌==◌,
  ==_iff, if◌then◌else◌, arith, Bool-cases, inl, inr, subst,
}
use ai_experimental_search.Object.{
  ObjectType, invalid_object, commit_object, tree_object, blob_object, tag_object, ofs_delta_object,
  ref_delta_object, any_object, EncodedObject, size, is_supported,
}
use ai_experimental_search.Refs.Storer.{
  StoreError, object_not_found, unsupported_object_type, not_supported, Result, ok, err,
}
use ai_experimental_search.Refs.Iter.{Answer}
use ai_experimental_search.Refs.ObjectStorer.{ObjectStorer, is_wanted, narrow, error_of, size_of}
pub mod Laws
pub mod Transaction

-- A map from hashes to objects.
abbrev pub Objects : Type 0
Objects = List (ℕ × EncodedObject)

unfoldable pub lookup : ℕ → Objects → Result EncodedObject
lookup h [] = err object_not_found
lookup h ((k, x) ∷ m) = if k == h then ok x else lookup h m

unfoldable pub insert : ℕ → EncodedObject → Objects → Objects
insert h x [] = (h, x) ∷ []
insert h x ((k, y) ∷ m) = if k == h then (h, x) ∷ m else (k, y) ∷ insert h x m

unfoldable pub flatten_object_map : Objects → List EncodedObject
flatten_object_map [] = []
flatten_object_map ((k, x) ∷ m) = x ∷ flatten_object_map m

pub record ObjectStorage : Type 0 where
  pub objects : Objects
  pub commits : Objects
  pub trees : Objects
  pub blobs : Objects
  pub tags : Objects

abbrev pub new_object_storage : ObjectStorage
new_object_storage = record { objects = []; commits = []; trees = []; blobs = []; tags = [] }

-- The switch of SetEncodedObject, where `s` holds the object already.
unfoldable pub index_by :
    ObjectType → ℕ → EncodedObject → ObjectStorage → ObjectStorage × Option StoreError
index_by commit_object h x s = (record s { commits = insert h x s.commits }, none)
index_by tree_object h x s = (record s { trees = insert h x s.trees }, none)
index_by blob_object h x s = (record s { blobs = insert h x s.blobs }, none)
index_by tag_object h x s = (record s { tags = insert h x s.tags }, none)
index_by _ h x s = (s, some unsupported_object_type)

-- The map that IterEncodedObjects flattens.
unfoldable pub series : ObjectType → ObjectStorage → Objects
series any_object s = s.objects
series commit_object s = s.commits
series tree_object s = s.trees
series blob_object s = s.blobs
series tag_object s = s.tags
series _ s = []

unfoldable pub iter_encoded_objects : ObjectStorage → ObjectType → List EncodedObject
unfolding series flatten_object_map
iter_encoded_objects s t = flatten_object_map (series t s)

unfoldable pub has_encoded_object : ObjectStorage → ℕ → Option StoreError
unfolding lookup
has_encoded_object s h = error_of (lookup h s.objects)

unfoldable pub encoded_object_size : ObjectStorage → ℕ → Result ℕ
unfolding lookup
encoded_object_size s h = size_of (lookup h s.objects)

unfoldable pub encoded_object : ObjectStorage → ObjectType → ℕ → Result EncodedObject
unfolding lookup
encoded_object s t h = narrow t (lookup h s.objects)

module _ (object_hash : EncodedObject → ℕ) where
  unfoldable pub set_encoded_object :
      EncodedObject → ObjectStorage → ObjectStorage × Option StoreError
  unfolding index_by insert
  set_encoded_object x s =
      index_by x.typ (object_hash x) x (record s { objects = insert (object_hash x) x s.objects })

  abbrev pub memory_objects : ObjectStorer ObjectStorage
  memory_objects = record {
    set_encoded_object = set_encoded_object;
    has_encoded_object = has_encoded_object;
    encoded_object_size = encoded_object_size;
    encoded_object = encoded_object;
    iter_encoded_objects = iter_encoded_objects;
  }
