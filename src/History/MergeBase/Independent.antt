-- ===== src/History/MergeBase/Independent.antt =====
-- plumbing/object/merge_base.go: the rounds of Independents, and what it returns.
use ai_experimental_search.Base.{
  ℕ, ◌<◌, ◌≡◌, ◌⊎◌, refl, sym, ap, subst, ◌∙◌, Bool, true, false, not, ◌||◌, ◌&&◌, none, some, List,
  [], ◌∷◌, ◌++◌, ◌==◌, ==_refl, arith, Bool-cases, inl, inr, length, append_assoc, append-nil,
}
use ai_experimental_search.Base.Members.{elem, NoRepeats, or-cases, or_right, or_left}
use ai_experimental_search.Refs.Filter.{outcome}
use ai_experimental_search.History.Graph.{Commit, hashes, get_commit, parents_of, is_closed, here}
use ai_experimental_search.History.Worklist.{AllStored}
use ai_experimental_search.History.Parents.{hashes-append}
use ai_experimental_search.History.Filtered.{visiting, new_filter_commit_iter, visiting-Visits}
use ai_experimental_search.History.MergeBase.{
  Candidates, is_limit, index_of, remove, walk_candidates,
}
use ai_experimental_search.History.MergeBase.Walk.{spared, remove-keep_by, visit-spared}
use ai_experimental_search.History.MergeBase.KeepBy.{
  elem-keep_by, keep_by, keep_by-AllStored, keep_by-NoRepeats, keep_by-append,
}
use ai_experimental_search.History.MergeBase.Limit.{walk_candidates-visit}
use ai_experimental_search.History.MergeBase.Ancestry.{
  HasAncestor, only_start, HasAncestor-trans, visited-HasAncestor, left_alone,
}

-- Stored commits of a list, none twice, that all of the list are ancestors of, or are.
pub record IsKept (store : List Commit) (given : List Commit) (res : List Commit) : Type 0 where
  pub stored : AllStored store res
  pub once : NoRepeats (hashes res)
  pub within : (h : ℕ) → elem h (hashes res) ≡ true → elem h (hashes given) ≡ true
  pub covers :
      (h : ℕ)
      → elem h (hashes given) ≡ true
      → (x : ℕ) × (elem x (hashes res) ≡ true) × HasAncestor store x h

-- Such commits, none of which is an ancestor of another one.
pub record IsIndependent (store : List Commit) (given : List Commit) (res : List Commit)
    : Type 0 where
  pub kept : IsKept store given res
  pub apart :
      (x y : ℕ)
      → elem x (hashes res) ≡ true
      → elem y (hashes res) ≡ true
      → HasAncestor store x y
      → x ≡ y

-- The state between two rounds: the candidates before the position are seen, and no candidate is an ancestor of
-- another commit that is seen.
pub record IsBetween (store : List Commit) (given : List Commit) (before after : List Commit)
    (seen : List ℕ) : Type 0 where
  pub kept : IsKept store given (before ++ after)
  pub walked : (h : ℕ) → elem h (hashes before) ≡ true → elem h seen ≡ true
  pub alone :
      (s y : ℕ)
      → elem s seen ≡ true
      → elem y (hashes (before ++ after)) ≡ true
      → HasAncestor store s y
      → s ≡ y

AllStored-middle :
    (store before after : List Commit) (c : Commit)
    → AllStored store (before ++ (c ∷ after))
    → get_commit store c.hash ≡ some c
AllStored-middle store [] after c (a, more) = a
AllStored-middle store (b ∷ before) after c (a, more) = AllStored-middle store before after c more

-- Without repeats, a commit stands at its own place.
pub index_of-middle :
    (before after : List Commit) (c : Commit)
    → NoRepeats (hashes (before ++ (c ∷ after)))
    → index_of (before ++ (c ∷ after)) c ≡ some (length before)
unfolding index_of elem
index_of-middle [] after c n = rw (==_refl c.hash) refl
index_of-middle (b ∷ before) after c (n, more) =
    let other : (c.hash == b.hash) ≡ false =
      middle (elem b.hash (hashes before)) (c.hash == b.hash) (elem b.hash (hashes after))
        (sym (hashes-append b.hash before (c ∷ after)) ∙ n) in
    rw (other, index_of-middle before after c more) refl
  where
    middle : (p q r : Bool) → (p || (q || r)) ≡ false → q ≡ false
    middle p q r e = grind arith

has_middle :
    (before after : List Commit) (c : Commit) → elem c.hash (hashes (before ++ (c ∷ after))) ≡ true
unfolding elem
has_middle before after c =
    hashes-append c.hash before (c ∷ after)
    ∙ or_right (elem c.hash (hashes before)) (elem c.hash (hashes (c ∷ after)))
        (or_left (c.hash == c.hash) (elem c.hash (hashes after)) (==_refl c.hash))

-- A single commit is no other one.
pub IsIndependent-one :
    (store given cs : List Commit)
    → IsKept store given cs
    → length cs ≡ 1
    → IsIndependent store given cs
IsIndependent-one store given [] k l = absurd (omega (arith, l))
IsIndependent-one store given (c ∷ d ∷ cs) k l = absurd (omega (arith, l))
IsIndependent-one store given (c ∷ []) k l = record {
  kept = k;
  apart = λ x y ex ey r. sym (only_start store c.hash x ex) ∙ only_start store c.hash y ey;
}

-- When every candidate was walked from, the candidates are independent.
pub IsIndependent-all :
    (store given before : List Commit) (seen : List ℕ)
    → IsBetween store given before [] seen
    → IsIndependent store given (before ++ [])
IsIndependent-all store given before seen b = record {
  kept = b.kept;
  apart = λ x y ex ey r.
      b.alone x y
        (b.walked x (ap (λ (cs : List Commit). elem x (hashes cs)) (sym (append-nil before)) ∙ ex))
        ey r;
}

module _ (store : List Commit) (whole : is_closed store ≡ true) (rank : ℕ → ℕ)
    (falls : (h p : ℕ) → elem p (parents_of store h) ≡ true → rank p < rank h)
    (given : List Commit) where
  spared-IsKept :
      (from : Commit) (ks : List ℕ) (cs : List Commit)
      → ((h : ℕ) → elem h ks ≡ true → HasAncestor store from.hash h)
      → elem from.hash (hashes cs) ≡ true
      → IsKept store given cs
      → IsKept store given (keep_by (spared from.hash ks) cs)
  spared-IsKept from ks cs below present k =
      let test = spared from.hash ks in
      record {
        stored = keep_by-AllStored store test cs k.stored;
        once = keep_by-NoRepeats test cs k.once;
        within = λ h e.
            k.within h (left_of (elem h (hashes cs)) (test h) (sym (elem-keep_by test cs h) ∙ e));
        covers = λ h e. let (x, m, r) = k.covers h e in cover h x m r;
      }
    where
      left_of : (a b : Bool) → (a && b) ≡ true → a ≡ true
      left_of a b e = grind arith

      reached : (f e : Bool) → (f || not e) ≡ false → e ≡ true
      reached f e q = grind arith

      cover :
          (h x : ℕ)
          → elem x (hashes cs) ≡ true
          → HasAncestor store x h
          → (y : ℕ) × (elem y (hashes (keep_by (spared from.hash ks) cs)) ≡ true)
            × HasAncestor store y h
      cover h x m r = elim (Bool-cases (spared from.hash ks x)) [
        | inl t ↦ (x, elem-keep_by (spared from.hash ks) cs x ∙ rw (m, t) refl, r)
        | inr t ↦ (
          from.hash,
          elem-keep_by (spared from.hash ks) cs from.hash ∙ rw (present, ==_refl from.hash) refl,
          HasAncestor-trans store from.hash x h (below x (reached (x == from.hash) (elem x ks) t))
              r,
        )
      ]

  -- What a round leaves of the candidates, and what is seen.
  pub round :
      (fuel : ℕ) (before after : List Commit) (from : Commit) (seen : List ℕ)
      → length store < fuel
      → IsBetween store given before (from ∷ after) seen
      → (s' : Candidates) × (test : ℕ → Bool) × (walk_candidates store fuel
            (new_filter_commit_iter from)
            (record {
              candidates = before ++ (from ∷ after);
              others = remove (before ++ (from ∷ after)) from;
              seen = seen;
            })
          ≡ (s', some none))
        × (s'.candidates ≡ keep_by test before ++ (from ∷ keep_by test after))
        × IsKept store given (keep_by test before ++ (from ∷ keep_by test after))
        × ((length (keep_by test before ++ (from ∷ keep_by test after)) ≡ 1)
            ⊎ IsBetween store given
                (keep_by test before ++ (from ∷ []))
                (keep_by test after)
                s'.seen)
  unfolding keep_by elem new_filter_commit_iter
  round fuel before after from seen enough b =
      let cs = before ++ (from ∷ after) in
      let known = AllStored-middle store before after from b.kept.stored in
      let (xs, v) = visiting-Visits store whole (is_limit seen) from known in
      let s₀ : Candidates = record { candidates = cs; others = remove cs from; seen = seen } in
      let present = has_middle before after from in
      let ran =
        walk_candidates-visit store whole seen fuel xs (new_filter_commit_iter from) s₀
          (omega (arith, v.few, enough)) ((known, tt), refl) (λ h n. refl) v.yields in
      let (s', does, is, all) =
        visit-spared store (is_limit seen) from.hash xs s₀ (remove-keep_by cs from) present in
      let test = spared from.hash (hashes xs) in
      let self : test from.hash ≡ true =
        or_left (from.hash == from.hash) (not (elem from.hash (hashes xs))) (==_refl from.hash) in
      let shape : keep_by test cs ≡ keep_by test before ++ (from ∷ keep_by test after) =
        keep_by-append test before (from ∷ after) ∙ rw self refl in
      let kept =
        spared-IsKept from (hashes xs) cs (visited-HasAncestor store seen from xs v) present
          b.kept in
      (
        s',
        test,
        ran ∙ ap (outcome (visiting store (is_limit seen))) does,
        is ∙ shape,
        subst (IsKept store given) shape kept,
        elim all [
          | inl one ↦ inl (ap (λ (ds : List Commit). length ds) (sym shape ∙ sym is) ∙ one)
          | inr f ↦ inr (record {
            kept =
                subst (IsKept store given)
                  (shape
                    ∙ sym (append_assoc (keep_by test before) (from ∷ []) (keep_by test after)))
                  kept;
            walked = λ h e.
                f h
                ∙ elim (or-cases (elem h (hashes (keep_by test before)))
                    (elem h (hashes (from ∷ [])))
                    (sym (hashes-append h (keep_by test before) (from ∷ [])) ∙ e)) [
                      | inl m ↦ or_left (elem h seen) (elem h (hashes xs)) (
                          b.walked h (
                            left_of (elem h (hashes before)) (test h)
                              (sym (elem-keep_by test before h) ∙ m)))
                      | inr m ↦
                          or_right (elem h seen) (elem h (hashes xs)) (v.complete h (here h m refl))
                    ];
            alone = λ s y m e r.
                left_alone store seen from xs v rank falls cs b.alone s y (sym (f s) ∙ m)
                  (ap (λ (ds : List Commit). elem y (hashes ds))
                      (shape
                        ∙ sym (append_assoc (keep_by test before) (from ∷ []) (keep_by test after)))
                    ∙ e)
                  r;
          })
        ],
      )
    where
      left_of : (a b : Bool) → (a && b) ≡ true → a ≡ true
      left_of a b e = grind arith
