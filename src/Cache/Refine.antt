-- ===== src/Cache/Refine.antt =====
-- What Put and Get of both caches do to a list of values, most recently used first, that fits the size.
use ai_experimental_search.Base.{
  ℕ, suc, ◌+◌, ◌-◌, ◌≤◌, ◌≡◌, refl, sym, ap, ◌∙◌, true, false, ◌||◌, Option, none, some, List, [],
  ◌∷◌, ltb, ◌==◌, ==_refl, ==_iff, length, if◌then◌else◌, arith, Bool-cases, inl, inr, subst, ap₂,
  ltb-false,
}
use ai_experimental_search.Cache.Lru.{
  Lru, keys_of, contains, new_lru, make, put_made, renew, find, without, evict, put, object_put,
  buffer_put, get,
}
use ai_experimental_search.Cache.Lists.{
  has, Distinct, fit, find-has, find-key, find-none, total-without, has-find, length-without,
  find-fit_cons, total-without, has-without, Distinct-without,
}
use ai_experimental_search.Cache.Evict.{Tidy, Evicted, evict-Evicted}

module _ {V : Type 0} (key size : V → ℕ) where
  pub record IsValid (c : Lru V) : Type 0 where
    pub tidy : Tidy key size c
    pub within : c.actual_size ≤ c.max_size

  -- Put on the list alone.
  unfoldable pub store : ℕ → V → List V → List V
  store max_size v l =
      if has key size (key v) l
      then fit key size max_size (v ∷ without key size (key v) l)
      else if ltb max_size (size v)
      then l
      else fit key size max_size (v ∷ l)

  -- `r` is a cache that keeps the invariant and the maximum, and holds the list `l`.
  pub record Holds (max_size : ℕ) (l : List V) (r : Option (Lru V)) : Type 0 where
    pub after : Lru V
    pub returns : r ≡ some after
    pub valid : IsValid after
    pub same_max : after.max_size ≡ max_size
    pub list : after.ll ≡ l

  Evicted-Holds :
      (c : Lru V) (r : Option (Lru V)) (m : ℕ) (l : List V)
      → c.max_size ≡ m
      → c.ll ≡ l
      → Evicted key size c r
      → Holds m (fit key size m l) r
  Evicted-Holds c r m l em el e = record {
    after = e.after;
    returns = e.returns;
    valid = record { tidy = e.tidy; within = omega (arith, e.within, e.same_max) };
    same_max = e.same_max ∙ em;
    list = e.kept ∙ rw (em, el);
  }

  no_values : (l : List V) → ((k : ℕ) → false ≡ has key size k l) → l ≡ []
  no_values [] h = refl
  no_values (v ∷ l) h = absurd (ground (arith, h (key v)))

  IsValid-make : (c : Lru V) (m : Option (List ℕ)) → c.cache ≡ m → IsValid c → IsValid (make c m)
  unfolding make contains
  IsValid-make c none e h = record {
    tidy = record { counted = refl; agree = λ k. refl; distinct = tt };
    within = omega arith;
  }
  IsValid-make c (some ks) e h = h

  make-list : (c : Lru V) (m : Option (List ℕ)) → c.cache ≡ m → IsValid c → (make c m).ll ≡ c.ll
  unfolding make contains
  make-list c none e h = sym (no_values c.ll (λ k. rw e at h.tidy.agree k))
  make-list c (some ks) e h = refl

  make-max : (c : Lru V) (m : Option (List ℕ)) → (make c m).max_size ≡ c.max_size
  unfolding make
  make-max c none = refl
  make-max c (some ks) = refl

  agree_renewed :
      (k : ℕ) (l : List V) (v old : V)
      → Distinct key size l
      → find key size (key v) l ≡ some old
      → has key size k l ≡ (key v == k || has key size k (without key size (key v) l))
  agree_renewed k l v old d e = elim (Bool-cases (key v == k)) [
    | inl here ↦
        (ap (λ (j : ℕ). has key size j l) (sym ((==_iff (key v) k).0 here))
          ∙ has-find key size (key v) l old e)
        ∙ rw here
    | inr there ↦ rw (there, has-without key size k (key v) l d, there)
  ]

  Tidy-renewed :
      (c : Lru V) (v old : V)
      → Tidy key size c
      → find key size (key v) c.ll ≡ some old
      → Tidy key size (record c {
        actual_size = c.actual_size + size v - size old;
        ll = v ∷ without key size (key v) c.ll;
      })
  Tidy-renewed c v old t e = record {
    counted = omega (arith, t.counted, total-without key size (key v) c.ll {v = old} e);
    agree = λ k. t.agree k ∙ agree_renewed k c.ll v old t.distinct e;
    distinct = (
      has-without key size (key v) (key v) c.ll t.distinct ∙ rw (==_refl (key v)),
      Distinct-without key size (key v) c.ll t.distinct,
    );
  }

  Tidy-inserted :
      (c : Lru V) (v : V)
      → Tidy key size c
      → has key size (key v) c.ll ≡ false
      → Tidy key size (record c {
        actual_size = c.actual_size + size v;
        ll = v ∷ c.ll;
        cache = some (key v ∷ keys_of c.cache);
      })
  unfolding contains
  Tidy-inserted c v t e = record {
    counted = omega (arith, t.counted);
    agree = λ k. rw (t.agree k);
    distinct = (e, t.distinct);
  }

  renewed-Holds :
      (on_empty : Lru V → Option (Lru V)) (c : Lru V) (v : V)
      → IsValid c
      → has key size (key v) c.ll ≡ true
      → Holds c.max_size
          (fit key size c.max_size (v ∷ without key size (key v) c.ll))
          (renew key size on_empty c v (find key size (key v) c.ll))
  renewed-Holds on_empty c v h e =
      let (old, f) = find-has key size (key v) c.ll e in
      let shorter = length-without key size (key v) c.ll in
      subst
        (λ o.
          Holds c.max_size (fit key size c.max_size (v ∷ without key size (key v) c.ll))
            (renew key size on_empty c v o))
        (sym f)
        (Evicted-Holds _ _ c.max_size _ refl refl (
          evict-Evicted key size on_empty (suc (suc (length c.ll))) _
            (Tidy-renewed c v old h.tidy f) (omega (arith, shorter))))

  inserted-Holds :
      (on_empty : Lru V → Option (Lru V)) (c : Lru V) (v : V)
      → IsValid c
      → has key size (key v) c.ll ≡ false
      → Holds c.max_size (fit key size c.max_size (v ∷ c.ll)) (
          evict key size on_empty (suc (suc (length c.ll))) (record c {
            actual_size = c.actual_size + size v;
            ll = v ∷ c.ll;
            cache = some (key v ∷ keys_of c.cache);
          }))
  inserted-Holds on_empty c v h e = Evicted-Holds _ _ c.max_size _ refl refl (
      evict-Evicted key size on_empty (suc (suc (length c.ll))) _ (Tidy-inserted c v h.tidy e)
        (omega arith))

  put_made-Holds :
      (on_empty : Lru V → Option (Lru V)) (c : Lru V) (v : V)
      → IsValid c
      → Holds c.max_size (store c.max_size v c.ll) (put_made key size on_empty c v)
  unfolding store
  put_made-Holds on_empty c v h = elim (Bool-cases (has key size (key v) c.ll)) [
    | inl e ↦ rw (h.tidy.agree (key v), e) (renewed-Holds on_empty c v h e)
    | inr e ↦ elim (Bool-cases (ltb c.max_size (size v))) [
      | inl large ↦
          rw (h.tidy.agree (key v), e, large)
            (record { after = c; returns = refl; valid = h; same_max = refl; list = refl })
      | inr small ↦ rw (h.tidy.agree (key v), e, small) (inserted-Holds on_empty c v h e)
    ]
  ]

  Holds-at :
      {m m' : ℕ} {l l' : List V} (r : Option (Lru V))
      → m ≡ m'
      → l ≡ l'
      → Holds m l r
      → Holds m' l' r
  Holds-at r em el h = record {
    after = h.after;
    returns = h.returns;
    valid = h.valid;
    same_max = h.same_max ∙ em;
    list = h.list ∙ el;
  }

  -- Put in either cache, whatever it does on an empty list: a cache that keeps the invariant gives one
  -- that keeps it, with the same maximum and the list that `store` gives.
  pub put-store :
      (on_empty : Lru V → Option (Lru V)) (c : Lru V) (v : V)
      → IsValid c
      → Holds c.max_size (store c.max_size v c.ll) (put key size on_empty c v)
  unfolding put
  put-store on_empty c v h =
      let m = make-max c c.cache in
      let l = make-list c c.cache refl h in
      Holds-at (put key size on_empty c v) m (ap₂ (λ (n : ℕ) (xs : List V). store n v xs) m l)
        (put_made-Holds on_empty (make c c.cache) v (IsValid-make c c.cache refl h))

  -- Put of the object cache and of the buffer cache agree on a cache with the invariant, and neither
  -- panics: both give the cache with the list that `store` gives.
  pub object_put-buffer_put :
      (c : Lru V) (v : V)
      → IsValid c
      → Holds c.max_size (store c.max_size v c.ll) (object_put key size c v)
        × Holds c.max_size (store c.max_size v c.ll) (buffer_put key size c v)
  unfolding object_put buffer_put
  object_put-buffer_put c v h = (put-store _ c v h, put-store _ c v h)

  IsValid-new_lru : (n : ℕ) → IsValid (new_lru n)
  unfolding new_lru contains
  IsValid-new_lru n = record {
    tidy = record { counted = refl; agree = λ k. refl; distinct = tt };
    within = omega arith;
  }

  Tidy-front :
      (c : Lru V) (v : V)
      → Tidy key size c
      → find key size (key v) c.ll ≡ some v
      → Tidy key size (record c { ll = v ∷ without key size (key v) c.ll })
  Tidy-front c v t e = record {
    counted = omega (arith, t.counted, total-without key size (key v) c.ll {v = v} e);
    agree = λ k. t.agree k ∙ agree_renewed k c.ll v v t.distinct e;
    distinct = (
      has-without key size (key v) (key v) c.ll t.distinct ∙ rw (==_refl (key v)),
      Distinct-without key size (key v) c.ll t.distinct,
    );
  }

  IsValid-front :
      (c : Lru V) (k : ℕ) (v : V)
      → IsValid c
      → find key size k c.ll ≡ some v
      → IsValid (record c { ll = v ∷ without key size k c.ll })
  IsValid-front c k v h e =
      let same = find-key key size k c.ll {v = v} e in
      record {
        tidy =
            subst (λ (j : ℕ). Tidy key size (record c { ll = v ∷ without key size j c.ll })) same
              (Tidy-front c v h.tidy (ap (λ (j : ℕ). find key size j c.ll) same ∙ e));
        within = h.within;
      }

  find-store :
      (m : ℕ) (v : V) (l : List V) → size v ≤ m → find key size (key v) (store m v l) ≡ some v
  unfolding store
  find-store m v l h = elim (Bool-cases (has key size (key v) l)) [
    | inl e ↦ rw e (find-fit_cons key size m v (without key size (key v) l) h)
    | inr e ↦ rw (e, ltb-false m (size v) h) (find-fit_cons key size m v l h)
  ]

  -- Get on a cache with the invariant: the answer is the list's value for the key; a hit brings it to the
  -- front, a miss changes nothing, and the invariant holds after both.
  pub get-find :
      (c : Lru V) (k : ℕ)
      → IsValid c
      → ((get key size c k).1 ≡ find key size k c.ll)
        × IsValid (get key size c k).0
        × ((get key size c k).0.ll
            ≡ (elim (find key size k c.ll) [ none ↦ c.ll | some v ↦ v ∷ without key size k c.ll ]))
  unfolding get
  get-find c k h = elim (Bool-cases (has key size k c.ll)) [
    | inl e ↦
        let (v, f) = find-has key size k c.ll e in
        rw (h.tidy.agree k, e, f) (refl, IsValid-front c k v h f, refl)
    | inr e ↦ rw (h.tidy.agree k, e, find-none key size k c.ll e) (refl, h, refl)
  ]

  -- A value that fits is what Get gives for its key directly after Put of it.
  pub get-object_put :
      (c c' : Lru V) (v : V)
      → IsValid c
      → size v ≤ c.max_size
      → object_put key size c v ≡ some c'
      → (get key size c' (key v)).1 ≡ some v
  get-object_put c c' v h fits e =
      let s = (object_put-buffer_put c v h).0 in
      let same : s.after ≡ c' = cc in
      ((get-find c' (key v) (subst IsValid same s.valid)).0
        ∙ ap (find key size (key v)) (ap (λ (d : Lru V). d.ll) (sym same) ∙ s.list))
      ∙ find-store c.max_size v c.ll fits
