-- ===== src/Cache/Lists.antt =====
-- Lists of values with distinct keys: sizes, lookup, removal, and the longest front part that fits.
use ai_experimental_search.Base.{
  ℕ, ◌+◌, ◌-◌, ◌≤◌, ◌<◌, ◌≡◌, refl, Bool, true, false, ◌||◌, Option, none, some, List, [], ◌∷◌,
  ◌++◌, leb, leb-true, ◌==◌, ==_refl, length, if◌then◌else◌, arith, Bool-cases, inl, inr,
}
use ai_experimental_search.Cache.Lru.{contains, delete, split_last, find, without}

pub contains-delete :
    (k j : ℕ) (ks : List ℕ) → contains k (delete j ks) ≡ (if j == k then false else contains k ks)
unfolding contains delete
contains-delete k j [] = ground arith
contains-delete k j (i ∷ ks) = ground (arith, contains-delete k j ks)

pub split_last-none : {V : Type 0} (l : List V) → split_last l ≡ none → l ≡ []
unfolding split_last
split_last-none [] h = refl
split_last-none (x ∷ xs) h = ground arith

split_last-some_step :
    {V : Type 0} (x : V) (xs : List V) (o : Option (List V × V))
    → split_last xs ≡ o
    → ((f : List V) (b : V) → split_last xs ≡ some (f, b) → xs ≡ f ++ (b ∷ []))
    → (front : List V) (back : V) → split_last (x ∷ xs) ≡ some (front, back)
    → (x ∷ xs) ≡ front ++ (back ∷ [])
unfolding split_last
split_last-some_step x xs none e ih front back h = ground (arith, split_last-none xs e)
split_last-some_step x xs (some (f, b)) e ih front back h = ground (arith, ih f b e)

pub split_last-some :
    {V : Type 0} (l front : List V) (back : V)
    → split_last l ≡ some (front, back)
    → l ≡ front ++ (back ∷ [])
unfolding split_last
split_last-some [] front back h = cc
split_last-some (x ∷ xs) front back h =
    split_last-some_step x xs (split_last xs) refl (split_last-some xs) front back h

module _ {V : Type 0} (key size : V → ℕ) where
  abbrev pub has : ℕ → List V → Bool
  has k [] = false
  has k (v ∷ vs) = key v == k || has k vs

  abbrev pub total : List V → ℕ
  total [] = 0
  total (v ∷ vs) = size v + total vs

  abbrev pub Distinct : List V → Type 0
  Distinct [] = Unit
  Distinct (v ∷ vs) = (has (key v) vs ≡ false) × Distinct vs

  -- The longest front part whose sizes sum to `room` at most.
  unfoldable pub fit : ℕ → List V → List V
  fit room [] = []
  fit room (v ∷ vs) =
      let more = v ∷ fit (room - size v) vs in if leb (size v) room then more else []

  pub total-snoc : (xs : List V) (y : V) → total (xs ++ (y ∷ [])) ≡ total xs + size y
  total-snoc [] y = omega arith
  total-snoc (x ∷ xs) y = omega (arith, total-snoc xs y)

  pub has-snoc : (k : ℕ) (xs : List V) (y : V) → has k (xs ++ (y ∷ [])) ≡ (has k xs || key y == k)
  has-snoc k [] y = ground arith
  has-snoc k (x ∷ xs) y = ground (arith, has-snoc k xs y)

  pub Distinct-snoc :
      (xs : List V) (y : V) → Distinct (xs ++ (y ∷ [])) → Distinct xs × (has (key y) xs ≡ false)
  Distinct-snoc [] y h = (tt, refl)
  Distinct-snoc (x ∷ xs) y (h, hs) = ground (arith, has-snoc (key x) xs y, Distinct-snoc xs y hs)

  pub fit_all : (room : ℕ) (xs : List V) → total xs ≤ room → fit room xs ≡ xs
  unfolding fit
  fit_all room [] h = refl
  fit_all room (x ∷ xs) h = ground (arith, fit_all (room - size x) xs)

  pub fit_snoc :
      (room : ℕ) (xs : List V) (y : V)
      → room < total xs + size y
      → fit room (xs ++ (y ∷ [])) ≡ fit room xs
  unfolding fit
  fit_snoc room [] y h = ground arith
  fit_snoc room (x ∷ xs) y h = ground (arith, fit_snoc (room - size x) xs y)

  pub total-fit : (room : ℕ) (xs : List V) → total (fit room xs) ≤ room
  unfolding fit
  total-fit room [] = omega arith
  total-fit room (x ∷ xs) = ground (arith, total-fit (room - size x) xs)

  pub find-key : (k : ℕ) (xs : List V) {v : V} → find key size k xs ≡ some v → key v ≡ k
  unfolding find
  find-key k [] h = cc
  find-key k (x ∷ xs) {v = v} h = ground (arith, find-key k xs {v = v})

  pub find-has : (k : ℕ) (xs : List V) → has k xs ≡ true → (v : V) × (find key size k xs ≡ some v)
  unfolding find
  find-has k [] h = cc
  find-has k (x ∷ xs) h = elim (Bool-cases (key x == k)) [
    | inl here ↦ (x, rw here)
    | inr there ↦ let (v, e) = find-has k xs (rw there at h) in (v, rw there e)
  ]

  pub total-without :
      (k : ℕ) (xs : List V) {v : V}
      → find key size k xs ≡ some v
      → total (without key size k xs) + size v ≡ total xs
  unfolding find without
  total-without k [] h = cc
  total-without k (x ∷ xs) {v = v} h = ground (arith, total-without k xs {v = v})

  pub has-without :
      (k j : ℕ) (xs : List V)
      → Distinct xs
      → has k (without key size j xs) ≡ (if j == k then false else has k xs)
  unfolding without
  has-without k j [] h = ground arith
  has-without k j (x ∷ xs) (h, hs) = ground (arith, has-without k j xs hs)

  pub Distinct-without : (j : ℕ) (xs : List V) → Distinct xs → Distinct (without key size j xs)
  unfolding without
  Distinct-without j [] h = tt
  Distinct-without j (x ∷ xs) (h, hs) =
      ground (arith, Distinct-without j xs hs, has-without (key x) j xs hs)

  pub has-find : (k : ℕ) (xs : List V) (v : V) → find key size k xs ≡ some v → has k xs ≡ true
  unfolding find
  has-find k [] v h = cc
  has-find k (x ∷ xs) v h = ground (arith, has-find k xs v)

  pub find-none : (k : ℕ) (xs : List V) → has k xs ≡ false → find key size k xs ≡ none
  unfolding find
  find-none k [] h = refl
  find-none k (x ∷ xs) h = ground (arith, find-none k xs)

  pub length-without : (k : ℕ) (xs : List V) → length (without key size k xs) ≤ length xs
  unfolding without
  length-without k [] = omega arith
  length-without k (x ∷ xs) = ground (arith, length-without k xs)

  pub find-fit_cons :
      (room : ℕ) (v : V) (xs : List V)
      → size v ≤ room
      → find key size (key v) (fit room (v ∷ xs)) ≡ some v
  unfolding fit find
  find-fit_cons room v xs h = rw (leb-true (size v) room h, ==_refl (key v))
