-- ===== src/Cache/Evict.antt =====
-- The eviction loop of both caches: from a list, a size and a map that agree it leaves the longest front
-- part that fits, and it never meets an empty list.
use ai_experimental_search.Base.{
  ℕ, zero, suc, ◌+◌, ◌-◌, ◌≤◌, ◌<◌, ◌≡◌, refl, sym, ap, ◌∙◌, Option, some, List, [], ◌∷◌, ◌++◌, ltb,
  ◌==◌, ==_iff, subst, length, length-append, arith, Bool-cases, Option-cases, ltb→lt, inl, inr,
}
use ai_experimental_search.Cache.Lru.{Lru, keys_of, contains, delete, split_last, evict}
use ai_experimental_search.Cache.Lists.{
  contains-delete, split_last-none, split_last-some, has, total, Distinct, fit, total-snoc,
  has-snoc, Distinct-snoc, fit_all, fit_snoc,
}

module _ {V : Type 0} (key size : V → ℕ) where
  -- The size is that of the list's values, the map has the list's keys, and the keys differ.
  pub record Tidy (c : Lru V) : Type 0 where
    pub counted : c.actual_size ≡ total key size c.ll
    pub agree : (k : ℕ) → contains k (keys_of c.cache) ≡ has key size k c.ll
    pub distinct : Distinct key size c.ll

  pub record Evicted (c : Lru V) (r : Option (Lru V)) : Type 0 where
    pub after : Lru V
    pub returns : r ≡ some after
    pub tidy : Tidy after
    pub kept : after.ll ≡ fit key size c.max_size c.ll
    pub same_max : after.max_size ≡ c.max_size
    pub within : after.actual_size ≤ c.max_size

  -- The cache without its last element.
  abbrev dropped : Lru V → List V → V → Lru V
  dropped c front back = record {
    max_size = c.max_size;
    actual_size = c.actual_size - size back;
    ll = front;
    cache = some (delete (key back) (keys_of c.cache));
  }

  agree_dropped :
      (c : Lru V) (front : List V) (back : V)
      → Tidy c
      → c.ll ≡ front ++ (back ∷ [])
      → (k : ℕ) → contains k (delete (key back) (keys_of c.cache)) ≡ has key size k front
  agree_dropped c front back t e k =
      let apart = Distinct-snoc key size front back (subst (Distinct key size) e t.distinct) in
      let old = t.agree k ∙ ap (has key size k) e ∙ has-snoc key size k front back in
      elim (Bool-cases (key back == k)) [
        | inl here ↦
            (contains-delete k (key back) (keys_of c.cache) ∙ rw here)
            ∙ (sym apart.1 ∙ ap (λ (j : ℕ). has key size j front) ((==_iff (key back) k).0 here))
        | inr there ↦ ground (arith, contains-delete k (key back) (keys_of c.cache))
      ]

  Tidy-dropped :
      (c : Lru V) (front : List V) (back : V)
      → Tidy c
      → c.ll ≡ front ++ (back ∷ [])
      → Tidy (dropped c front back)
  Tidy-dropped c front back t e = record {
    counted = omega (arith, t.counted, ap (total key size) e, total-snoc key size front back);
    agree = agree_dropped c front back t e;
    distinct = (Distinct-snoc key size front back (subst (Distinct key size) e t.distinct)).0;
  }

  total-empty : (l : List V) → l ≡ [] → total key size l ≡ 0
  total-empty l e = ap (total key size) e

  length-snoc :
      (l front : List V) (back : V) → l ≡ front ++ (back ∷ []) → length l ≡ suc (length front)
  length-snoc l front back e = omega (arith, ap length e ∙ length-append front (back ∷ []))

  fit-snoc :
      (room : ℕ) (l front : List V) (back : V)
      → l ≡ front ++ (back ∷ [])
      → room < total key size l
      → fit key size room front ≡ fit key size room l
  fit-snoc room l front back e h =
      let over : room < total key size front + size back =
        omega (arith, h, ap (total key size) e, total-snoc key size front back) in
      sym (ap (fit key size room) e ∙ fit_snoc key size room front back over)

  pub evict-Evicted :
      (on_empty : Lru V → Option (Lru V)) (fuel : ℕ) (c : Lru V)
      → Tidy c
      → length c.ll < fuel
      → Evicted c (evict key size on_empty fuel c)
  unfolding evict
  evict-Evicted on_empty zero c t h = absurd (omega (arith, h))
  evict-Evicted on_empty (suc fuel) c t h = elim (Bool-cases (ltb c.max_size c.actual_size)) [
    | inl over ↦ elim (Option-cases (split_last c.ll)) [
      | inl e ↦ absurd (
          omega (
            arith,
            t.counted,
            total-empty c.ll (split_last-none c.ll e),
            ltb→lt c.max_size c.actual_size over,
          ))
      | inr ((front, back), e) ↦
          let e' = split_last-some c.ll front back e in
          let shorter : length front < fuel = omega (arith, h, length-snoc c.ll front back e') in
          let ih =
            evict-Evicted on_empty fuel (dropped c front back) (Tidy-dropped c front back t e')
              shorter in
          let large : c.max_size < total key size c.ll =
            omega (arith, t.counted, ltb→lt c.max_size c.actual_size over) in
          record {
            after = ih.after;
            returns = rw (over, e) ih.returns;
            tidy = ih.tidy;
            kept = ih.kept ∙ fit-snoc c.max_size c.ll front back e' large;
            same_max = ih.same_max;
            within = ih.within;
          }
    ]
    | inr under ↦
        let fits : c.actual_size ≤ c.max_size = ground (arith, under) in
        record {
          after = c;
          returns = rw under;
          tidy = t;
          kept = sym (fit_all key size c.max_size c.ll (omega (arith, fits, t.counted)));
          same_max = refl;
          within = fits;
        }
  ]
