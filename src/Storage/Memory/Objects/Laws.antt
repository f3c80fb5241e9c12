-- ===== src/Storage/Memory/Objects/Laws.antt =====
-- ObjectStorage of storage/memory/storage.go keeps the contract of an object storer, and its maps for the
-- types of objects agree with the map of all objects.
use ai_experimental_search.Base.{
  ℕ, ◌≡◌, ◌⊎◌, refl, sym, ap, ◌∙◌, true, false, none, some, [], ◌∷◌, ◌==◌, ==_iff, if◌then◌else◌,
  arith, Bool-cases, inl, inr, subst,
}
use ai_experimental_search.Object.{
  ObjectType, invalid_object, commit_object, tree_object, blob_object, tag_object, ofs_delta_object,
  ref_delta_object, any_object, EncodedObject, is_supported, IsCollisionFree,
}
use ai_experimental_search.Refs.Storer.{object_not_found, unsupported_object_type, Result, ok, err}
use ai_experimental_search.Refs.ObjectStorer.{
  IsObjectStorer, is_wanted, narrow, find_object, AllSupported,
}
use ai_experimental_search.Storage.Memory.Objects.{
  Objects, lookup, insert, flatten_object_map, ObjectStorage, new_object_storage, index_by, series,
  iter_encoded_objects, has_encoded_object, encoded_object_size, encoded_object, set_encoded_object,
  memory_objects,
}

pub lookup-insert :
    (h : ℕ) (x : EncodedObject) (m : Objects) (k : ℕ)
    → lookup k (insert h x m) ≡ (if h == k then ok x else lookup k m)
unfolding lookup insert
lookup-insert h x [] k = refl
lookup-insert h x ((j, y) ∷ m) k = ground (arith, lookup-insert h x m k)

index_by-objects :
    (t : ObjectType) (h : ℕ) (x : EncodedObject) (s : ObjectStorage)
    → (index_by t h x s).0.objects ≡ s.objects
unfolding index_by
index_by-objects invalid_object h x s = refl
index_by-objects commit_object h x s = refl
index_by-objects tree_object h x s = refl
index_by-objects blob_object h x s = refl
index_by-objects tag_object h x s = refl
index_by-objects ofs_delta_object h x s = refl
index_by-objects ref_delta_object h x s = refl
index_by-objects any_object h x s = refl

index_by-error :
    (t : ObjectType) (h : ℕ) (x : EncodedObject) (s : ObjectStorage)
    → (index_by t h x s).1 ≡ (if is_supported t then none else some unsupported_object_type)
unfolding index_by
index_by-error invalid_object h x s = refl
index_by-error commit_object h x s = refl
index_by-error tree_object h x s = refl
index_by-error blob_object h x s = refl
index_by-error tag_object h x s = refl
index_by-error ofs_delta_object h x s = refl
index_by-error ref_delta_object h x s = refl
index_by-error any_object h x s = refl

index_by-no_error :
    (t : ObjectType) (h : ℕ) (x : EncodedObject) (s : ObjectStorage)
    → is_supported t ≡ true
    → (index_by t h x s).1 ≡ none
index_by-no_error t h x s e = index_by-error t h x s ∙ rw e refl

-- The map of a supported type and the map of all objects are the ones that change.
series-index_by :
    (u t : ObjectType) (h : ℕ) (x : EncodedObject) (s : ObjectStorage)
    → is_supported u ≡ true
    → series t (index_by u h x (record s { objects = insert h x s.objects })).0
      ≡ (if is_wanted t u then insert h x (series t s) else series t s)
unfolding index_by series
series-index_by u t h x s e = ground arith

pub narrow_all : (r : Result EncodedObject) → narrow any_object r ≡ r
narrow_all (ok x) = refl
narrow_all (err e) = refl

unwanted :
    (t : ObjectType) (r : Result EncodedObject) (x : EncodedObject)
    → is_wanted t x.typ ≡ false
    → r ≡ ok x
    → narrow t r ≡ err object_not_found
unwanted t r x w e = rw e (rw w refl)

module _ (object_hash : EncodedObject → ℕ) where
  -- Every object stands under its hash and has a supported type.
  abbrev pub Keyed : Objects → Type 0
  Keyed [] = Unit
  Keyed ((k, x) ∷ m) = (object_hash x ≡ k) × (is_supported x.typ ≡ true) × Keyed m

  -- The map of each type has the objects of this type.
  pub record IsIndexed (s : ObjectStorage) : Type 0 where
    pub objects-Keyed : Keyed s.objects
    pub series-lookup :
        (t : ObjectType) (h : ℕ) → lookup h (series t s) ≡ narrow t (lookup h s.objects)

  pub new-IsIndexed : IsIndexed new_object_storage
  unfolding series lookup
  new-IsIndexed = record { objects-Keyed = tt; series-lookup = nothing }
    where
      nothing :
          (t : ObjectType) (h : ℕ) → lookup h (series t new_object_storage) ≡ err object_not_found
      nothing invalid_object h = refl
      nothing commit_object h = refl
      nothing tree_object h = refl
      nothing blob_object h = refl
      nothing tag_object h = refl
      nothing ofs_delta_object h = refl
      nothing ref_delta_object h = refl
      nothing any_object h = refl

  pub Keyed-insert :
      (x : EncodedObject) (m : Objects)
      → is_supported x.typ ≡ true
      → Keyed m
      → Keyed (insert (object_hash x) x m)
  unfolding insert
  Keyed-insert x [] e k = (refl, e, tt)
  Keyed-insert x ((j, y) ∷ m) e (k, f, ks) = elim (Bool-cases (j == object_hash x)) [
    | inl q ↦ rw q (refl, e, ks)
    | inr q ↦ rw q (k, f, Keyed-insert x m e ks)
  ]

  lookup-Keyed :
      (h : ℕ) (m : Objects) (x : EncodedObject) → Keyed m → lookup h m ≡ ok x → object_hash x ≡ h
  unfolding lookup
  lookup-Keyed h [] x k e = cc
  lookup-Keyed h ((j, y) ∷ m) x (k, f, ks) e = ground (arith, lookup-Keyed h m x ks)

  lookup-cases :
      (h : ℕ) (m : Objects)
      → (lookup h m ≡ err object_not_found) ⊎ ((x : EncodedObject) × (lookup h m ≡ ok x))
  unfolding lookup
  lookup-cases h [] = inl refl
  lookup-cases h ((j, y) ∷ m) = elim (Bool-cases (j == h)) [
    | inl q ↦ inr (y, rw q refl)
    | inr q ↦ rw q (lookup-cases h m)
  ]

  pub find-flatten :
      (h : ℕ) (m : Objects)
      → Keyed m
      → find_object object_hash h (flatten_object_map m) ≡ lookup h m
  unfolding find_object flatten_object_map lookup
  find-flatten h [] k = refl
  find-flatten h ((j, x) ∷ m) (k, f, ks) = ground (arith, find-flatten h m ks)

  pub supported-flatten : (m : Objects) → Keyed m → AllSupported (flatten_object_map m)
  unfolding flatten_object_map
  supported-flatten [] k = tt
  supported-flatten ((j, x) ∷ m) (k, f, ks) = (f, supported-flatten m ks)

  -- What is looked up among all objects after one of them is stored.
  lookup-set :
      (x : EncodedObject) (s : ObjectStorage) (h : ℕ)
      → lookup h (set_encoded_object object_hash x s).0.objects
        ≡ (if object_hash x == h then ok x else lookup h s.objects)
  unfolding set_encoded_object
  lookup-set x s h =
      ap (lookup h) (
        index_by-objects x.typ (object_hash x) x
          (record s { objects = insert (object_hash x) x s.objects }))
      ∙ lookup-insert (object_hash x) x s.objects h

  module _ (free : IsCollisionFree object_hash) where
    -- Where one object has the hash, the others with this hash are the same one.
    narrow-other :
        (x : EncodedObject) (t : ObjectType) (h : ℕ) (m : Objects)
        → Keyed m
        → object_hash x ≡ h
        → is_wanted t x.typ ≡ false
        → narrow t (lookup h m) ≡ err object_not_found
    narrow-other x t h m k e w = elim (lookup-cases h m) [
      | inl l ↦ rw l refl
      | inr (y, l) ↦
          unwanted t (lookup h m) x w
            (l ∙ ap (λ (z : EncodedObject). ok z) (free y x (lookup-Keyed h m y k l ∙ sym e)))
    ]

    series-set :
        (x : EncodedObject) (s : ObjectStorage) (t : ObjectType) (h : ℕ)
        → is_supported x.typ ≡ true
        → IsIndexed s
        → lookup h (series t (set_encoded_object object_hash x s).0)
          ≡ narrow t (lookup h (set_encoded_object object_hash x s).0.objects)
    series-set x s t h e v = elim (Bool-cases (is_wanted t x.typ)) [
      | inl w ↦ before ∙ rw w (lookup-insert (object_hash x) x (series t s) h ∙ hit w)
      | inr w ↦ before ∙ rw w (v.series-lookup t h ∙ miss w)
    ]
      where
        before :
            lookup h (series t (set_encoded_object object_hash x s).0)
            ≡ lookup h
                (if is_wanted t x.typ then insert (object_hash x) x (series t s) else series t s)
        before =
            unfold set_encoded_object in
            ap (lookup h) (series-index_by x.typ t (object_hash x) x s e)

        hit :
            is_wanted t x.typ ≡ true
            → (if object_hash x == h then ok x else lookup h (series t s))
              ≡ narrow t (lookup h (set_encoded_object object_hash x s).0.objects)
        hit w = elim (Bool-cases (object_hash x == h)) [
          | inl q ↦ rw (lookup-set x s h, q) (rw w refl)
          | inr q ↦ rw (lookup-set x s h, q) (v.series-lookup t h)
        ]

        miss :
            is_wanted t x.typ ≡ false
            → narrow t (lookup h s.objects)
              ≡ narrow t (lookup h (set_encoded_object object_hash x s).0.objects)
        miss w = elim (Bool-cases (object_hash x == h)) [
          | inl q ↦
              rw (lookup-set x s h, q)
                (rw w
                  (narrow-other x t h s.objects v.objects-Keyed ((==_iff (object_hash x) h).0 q) w))
          | inr q ↦ rw (lookup-set x s h, q) refl
        ]

    -- Storing an object of a supported type keeps the maps in agreement: every object is under its hash, and
    -- the map of each type has exactly the objects of this type. No two objects are taken to have one hash.
    pub set_encoded_object-IsIndexed :
        (x : EncodedObject) (s : ObjectStorage)
        → is_supported x.typ ≡ true
        → IsIndexed s
        → IsIndexed (set_encoded_object object_hash x s).0
    set_encoded_object-IsIndexed x s e v = record {
      objects-Keyed = keyed;
      series-lookup = λ t h. series-set x s t h e v;
    }
      where
        keyed : Keyed (set_encoded_object object_hash x s).0.objects
        keyed =
            unfold set_encoded_object in
            subst Keyed
              (sym (
                index_by-objects x.typ (object_hash x) x
                  (record s { objects = insert (object_hash x) x s.objects })))
              (Keyed-insert x s.objects e v.objects-Keyed)

    -- The storage in memory keeps the contract of an object storer.
    pub memory_objects-IsObjectStorer :
        IsObjectStorer object_hash (memory_objects object_hash) IsIndexed
    unfolding has_encoded_object encoded_object_size encoded_object iter_encoded_objects
        set_encoded_object series
    memory_objects-IsObjectStorer = record {
      set_no_error = λ x s e.
          index_by-no_error x.typ (object_hash x) x
            (record s { objects = insert (object_hash x) x s.objects }) e;
      set-Kept = set_encoded_object-IsIndexed;
      object-set = λ x s h.
          narrow_all (lookup h (set_encoded_object object_hash x s).0.objects)
          ∙ lookup-set x s h
          ∙ rw (narrow_all (lookup h s.objects)) refl;
      object-typ = λ s t h. rw (narrow_all (lookup h s.objects)) refl;
      has-object = λ s h. rw (narrow_all (lookup h s.objects)) refl;
      size-object = λ s h. rw (narrow_all (lookup h s.objects)) refl;
      object-iter =
          λ s h v. narrow_all (lookup h s.objects) ∙ sym (find-flatten h s.objects v.objects-Keyed);
      iter-supported = λ s v. supported-flatten s.objects v.objects-Keyed;
    }

-- SetEncodedObject reports an error exactly for an object of a type that the storage does not keep, and
-- stores the object whatever its type: from then on the storage gives it for its own type and for any type.
pub encoded_object-set :
    (object_hash : EncodedObject → ℕ) (x : EncodedObject) (s : ObjectStorage) (t : ObjectType)
    (h : ℕ)
    → ((set_encoded_object object_hash x s).1
        ≡ (if is_supported x.typ then none else some unsupported_object_type))
      × (encoded_object (set_encoded_object object_hash x s).0 t h
          ≡ (if object_hash x == h then narrow t (ok x) else encoded_object s t h))
unfolding set_encoded_object encoded_object
encoded_object-set object_hash x s t h = (
  index_by-error x.typ (object_hash x) x
      (record s { objects = insert (object_hash x) x s.objects }),
  ap (narrow t) (lookup-set object_hash x s h)
      ∙ elim (Bool-cases (object_hash x == h)) [ inl e ↦ rw e refl | inr e ↦ rw e refl ],
)
