-- ===== src/Tests/Caches.antt =====
-- The caches on three small values.
use ai_experimental_search.Base.{ℕ, ◌≡◌, refl, none, some, [], ◌∷◌, arith}
use ai_experimental_search.Cache.Lru.{
  Lru, find, without, contains, make, evict, split_last, delete, put, object_put, buffer_put, get,
}
use ai_experimental_search.Cache.Refine.{
  IsValid, Holds, store, object_put-buffer_put, get-find, get-object_put,
}

abbrev key : ℕ × ℕ → ℕ
key v = v.0

abbrev size : ℕ × ℕ → ℕ
size v = v.1

abbrev two_values : Lru (ℕ × ℕ)
two_values = record {
  max_size = 10;
  actual_size = 9;
  ll = (2, 5) ∷ (1, 4) ∷ [];
  cache = some (2 ∷ 1 ∷ []);
}

two_values-IsValid : IsValid key size two_values
unfolding contains
two_values-IsValid = record {
  tidy = record { counted = refl; agree = λ k. refl; distinct = (refl, (refl, tt)) };
  within = omega arith;
}

-- The value with key 1, the least recently used, makes room.
evicts :
    object_put key size two_values (3, 3)
    ≡ some (record {
      max_size = 10;
      actual_size = 8;
      ll = (3, 3) ∷ (2, 5) ∷ [];
      cache = some (3 ∷ 2 ∷ []);
    })
unfolding object_put put make contains evict split_last delete
evicts = refl

object_put-buffer_put_example :
    Holds key size 10
      (store key size 10 (3, 3) two_values.ll)
      (object_put key size two_values (3, 3))
    × Holds key size 10
        (store key size 10 (3, 3) two_values.ll)
        (buffer_put key size two_values (3, 3))
object_put-buffer_put_example = object_put-buffer_put key size two_values (3, 3) two_values-IsValid

get-find_run :
    ((get key size two_values 1).1 ≡ find key size 1 two_values.ll)
    × IsValid key size (get key size two_values 1).0
    × ((get key size two_values 1).0.ll ≡ (elim (find key size 1 two_values.ll) [
      | none ↦ two_values.ll
      | some v ↦ v ∷ without key size 1 two_values.ll
    ]))
get-find_run = get-find key size two_values 1 two_values-IsValid

abbrev after_put : Lru (ℕ × ℕ)
after_put = record {
  max_size = 10;
  actual_size = 8;
  ll = (3, 3) ∷ (2, 5) ∷ [];
  cache = some (3 ∷ 2 ∷ []);
}

get-object_put_example : (get key size after_put 3).1 ≡ some (3, 3)
get-object_put_example =
    get-object_put key size two_values after_put (3, 3) two_values-IsValid (omega arith) evicts
