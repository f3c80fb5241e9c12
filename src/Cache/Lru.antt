-- ===== src/Cache/Lru.antt =====
-- plumbing/cache/object_lru.go and buffer_lru.go, which differ in the values and in one branch. A value
-- has a key (the object's hash, the buffer's Key) and a size (Size() of the object, the slice's length).
-- The element that the map holds for a key is the one of `ll` with that key. Sizes are non-negative, and
-- their sum is taken to fit an int64. The mutex makes each method one step.
use ai_experimental_search.Base.{
  ℕ, zero, suc, ◌+◌, ◌-◌, Bool, false, ◌||◌, Option, none, some, List, [], ◌∷◌, ltb, ◌==◌, length,
  if◌then◌else◌,
}

-- `cache` is nil (`none`) or the keys of the map; `ll` is the list, most recently used first.
pub record Lru (V : Type 0) : Type 0 where
  pub max_size : ℕ
  pub actual_size : ℕ
  pub ll : List V
  pub cache : Option (List ℕ)

abbrev pub keys_of : Option (List ℕ) → List ℕ
keys_of none = []
keys_of (some ks) = ks

unfoldable pub contains : ℕ → List ℕ → Bool
contains k [] = false
contains k (j ∷ ks) = j == k || contains k ks

unfoldable pub delete : ℕ → List ℕ → List ℕ
delete k [] = []
delete k (j ∷ ks) = if j == k then delete k ks else j ∷ delete k ks

-- `Back()` with the list before it.
unfoldable pub split_last : {V : Type 0} → List V → Option (List V × V)
split_last [] = none
split_last (x ∷ xs) = elim (split_last xs) [
  | none ↦ some ([], x)
  | some (front, back) ↦ some (x ∷ front, back)
]

unfoldable pub new_lru : {V : Type 0} → ℕ → Lru V
new_lru max_size = record { max_size = max_size; actual_size = 0; ll = []; cache = none }

-- The start of Put: a nil map is made.
unfoldable pub make : {V : Type 0} → Lru V → Option (List ℕ) → Lru V
make c none = record c { actual_size = 0; ll = []; cache = some [] }
make c (some ks) = c

unfoldable pub clear : {V : Type 0} → Lru V → Lru V
clear c = record c { actual_size = 0; ll = []; cache = none }

module _ {V : Type 0} (key size : V → ℕ) where
  unfoldable pub find : ℕ → List V → Option V
  find k [] = none
  find k (v ∷ vs) = if key v == k then some v else find k vs

  -- The list without the element of a key.
  unfoldable pub without : ℕ → List V → List V
  without k [] = []
  without k (v ∷ vs) = if key v == k then vs else v ∷ without k vs

  -- `on_empty` is what the loop does where `Back()` is nil.
  abbrev drop_back :
      (Lru V → Option (Lru V))
      → (Lru V → Option (Lru V))
      → Lru V
      → Option (List V × V)
      → Option (Lru V)
  drop_back on_empty more c none = on_empty c
  drop_back on_empty more c (some (front, back)) = more (record {
    max_size = c.max_size;
    actual_size = c.actual_size - size back;
    ll = front;
    cache = some (delete (key back) (keys_of c.cache));
  })

  -- The eviction loop of Put. A round drops an element or is the last; `none` is a panic.
  unfoldable pub evict : (Lru V → Option (Lru V)) → ℕ → Lru V → Option (Lru V)
  evict on_empty zero c = some c
  evict on_empty (suc fuel) c =
      let round = drop_back on_empty (λ c'. evict on_empty fuel c') c (split_last c.ll) in
      if ltb c.max_size c.actual_size then round else some c

  -- A key that is in the map: the element moves to the front and holds the new value.
  abbrev pub renew : (Lru V → Option (Lru V)) → Lru V → V → Option V → Option (Lru V)
  renew on_empty c v none = none
  renew on_empty c v (some old) =
      evict on_empty (suc (suc (length c.ll))) (record c {
        actual_size = c.actual_size + size v - size old;
        ll = v ∷ without (key v) c.ll;
      })

  abbrev pub put_made : (Lru V → Option (Lru V)) → Lru V → V → Option (Lru V)
  put_made on_empty c v =
      if contains (key v) (keys_of c.cache)
      then renew on_empty c v (find (key v) c.ll)
      else if ltb c.max_size (size v)
      then some c
      else evict on_empty (suc (suc (length c.ll))) (record c {
        actual_size = c.actual_size + size v;
        ll = v ∷ c.ll;
        cache = some (key v ∷ keys_of c.cache);
      })

  unfoldable pub put : (Lru V → Option (Lru V)) → Lru V → V → Option (Lru V)
  put on_empty c v = put_made on_empty (make c c.cache) v

  -- ObjectLRU resets the size of an empty list and leaves the loop; BufferLRU dereferences nil.
  unfoldable pub object_put : Lru V → V → Option (Lru V)
  unfolding put
  object_put c v = put (λ c'. some (record c' { actual_size = 0 })) c v

  unfoldable pub buffer_put : Lru V → V → Option (Lru V)
  unfolding put
  buffer_put c v = put (λ c'. none) c v

  abbrev hit : Lru V → ℕ → Option V → Lru V × Option V
  hit c k none = (c, none)
  hit c k (some v) = (record c { ll = v ∷ without k c.ll }, some v)

  -- Get, of both caches.
  unfoldable pub get : Lru V → ℕ → Lru V × Option V
  get c k = if contains k (keys_of c.cache) then hit c k (find k c.ll) else (c, none)

-- The methods of BufferLRU that do the same as those of ObjectLRU.
unfoldable pub new_buffer_lru : {V : Type 0} → ℕ → Lru V
unfolding new_lru
new_buffer_lru max_size = new_lru max_size

unfoldable pub buffer_clear : {V : Type 0} → Lru V → Lru V
unfolding clear
buffer_clear c = clear c

unfoldable pub buffer_get : {V : Type 0} → (V → ℕ) → (V → ℕ) → Lru V → ℕ → Lru V × Option V
unfolding get
buffer_get key size c k = get key size c k
