-- ===== src/History/MergeBase/Ancestry.antt =====
-- plumbing/object/merge_base.go: what one walk of Independents finds, in terms of the ancestors of commits.
use ai_experimental_search.Base.{
  ℕ, ◌<◌, ◌≡◌, ◌⊎◌, refl, sym, ap, subst, ◌∙◌, Bool, true, false, not, ◌||◌, ◌&&◌, List, [], ◌∷◌,
  ◌==◌, ==_iff, ==_refl, arith, Bool-cases, Option-cases, inl, inr,
}
use ai_experimental_search.Base.Members.{elem, or-cases, or_left}
use ai_experimental_search.History.Graph.{
  Commit, hashes, get_commit, get_commit-hash, parents_of, Reach, here, step,
}
use ai_experimental_search.History.Worklist.{Visits}
use ai_experimental_search.History.Filtered.{visiting, parents_within, new_filter_commit_iter}
use ai_experimental_search.History.MergeBase.{is_limit}
use ai_experimental_search.History.MergeBase.Walk.{spared}
use ai_experimental_search.History.MergeBase.KeepBy.{keep_by, elem-keep_by}

-- `k` is `h` or one of its ancestors.
abbrev pub HasAncestor : List Commit → ℕ → ℕ → Type 0
HasAncestor store h k = Reach (parents_of store) (λ x. false) (h ∷ []) k

module _ (store : List Commit) where
  pub HasAncestor-refl : (h : ℕ) → HasAncestor store h h
  unfolding elem
  HasAncestor-refl h = here h (or_left (h == h) false (==_refl h)) refl

  pub only_start : (h k : ℕ) → elem k (h ∷ []) ≡ true → h ≡ k
  unfolding elem
  only_start h k e = ground (arith, e)

  pub HasAncestor-trans :
      (a b c : ℕ) → HasAncestor store a b → HasAncestor store b c → HasAncestor store a c
  HasAncestor-trans a b c r (here k e n) = subst (HasAncestor store a) (only_start b k e) r
  HasAncestor-trans a b c r (step h p q e n) = step h p (HasAncestor-trans a b h r q) e n

  module _ (rank : ℕ → ℕ)
      (falls : (h p : ℕ) → elem p (parents_of store h) ≡ true → rank p < rank h) where
    HasAncestor-rank : (a b : ℕ) → HasAncestor store a b → (a ≡ b) ⊎ (rank b < rank a)
    HasAncestor-rank a b (here k e n) = inl (only_start a k e)
    HasAncestor-rank a b (step h p r e n) = elim (HasAncestor-rank a h r) [
      | inl q ↦ inr (subst (λ (x : ℕ). rank p < rank x) (sym q) (falls h p e))
      | inr l ↦ let l' = falls h p e in inr (omega (arith, l, l'))
    ]

    -- Parents with a smaller rank: no commit is an ancestor of its ancestors.
    pub HasAncestor-antisym : (a b : ℕ) → HasAncestor store a b → HasAncestor store b a → a ≡ b
    HasAncestor-antisym a b r q = elim (HasAncestor-rank a b r) [
      | inl e ↦ e
      | inr l ↦ elim (HasAncestor-rank b a q) [
        | inl e ↦ sym e
        | inr l' ↦ absurd (omega (arith, l, l'))
      ]
    ]

  module _ (seen : List ℕ) where
    parents_within-parents_of :
        (h p : ℕ)
        → elem p (parents_within store (is_limit seen) h) ≡ true
        → elem p (parents_of store h) ≡ true
    unfolding parents_within parents_of elem
    parents_within-parents_of h p e = elim (Option-cases (get_commit store h)) [
      | inl o ↦ let absent : false ≡ true = rw o at e in cc
      | inr (c, o) ↦ elim (Bool-cases (is_limit seen c)) [
        | inl l ↦ let absent : false ≡ true = rw (o, l) at e in cc
        | inr l ↦ rw o (rw (o, l) at e)
      ]
    ]

    parents_of-parents_within :
        (h p : ℕ)
        → elem h seen ≡ false
        → elem p (parents_of store h) ≡ true
        → elem p (parents_within store (is_limit seen) h) ≡ true
    unfolding parents_within parents_of elem is_limit
    parents_of-parents_within h p n e = elim (Option-cases (get_commit store h)) [
      | inl o ↦ let absent : false ≡ true = rw o at e in cc
      | inr (c, o) ↦
          let free : elem c.hash seen ≡ false =
            ap (λ (x : ℕ). elem x seen) (get_commit-hash store h c o) ∙ n in
          rw (o, free) (rw o at e)
    ]

    module _ (from : Commit) (xs : List Commit)
        (v : Visits
          (visiting store (is_limit seen))
          store
          (parents_within store (is_limit seen))
          (λ h. false)
          (from.hash ∷ [])
          (new_filter_commit_iter from)
          xs) where
      -- What the walk visits are ancestors.
      pub visited-HasAncestor : (h : ℕ) → elem h (hashes xs) ≡ true → HasAncestor store from.hash h
      visited-HasAncestor h e = all h (v.reached h e)
        where
          all :
              (k : ℕ)
              → Reach (parents_within store (is_limit seen)) (λ x. false) (from.hash ∷ []) k
              → HasAncestor store from.hash k
          all k (here b e' n) = here b e' n
          all k (step b p r e' n) = step b p (all b r) (parents_within-parents_of b p e') n

      -- An ancestor is visited, or it is an ancestor of a commit that is visited and was seen before.
      pub HasAncestor-visited :
          (k : ℕ)
          → HasAncestor store from.hash k
          → (elem k (hashes xs) ≡ true)
            ⊎ ((s : ℕ) × (elem s (hashes xs) ≡ true) × (elem s seen ≡ true) × HasAncestor store s k)
      HasAncestor-visited k (here b e n) = inl (v.complete b (here b e n))
      HasAncestor-visited k (step b p r e n) = elim (HasAncestor-visited b r) [
        | inl m ↦ elim (Bool-cases (elem b seen)) [
          | inl s ↦ inr (b, m, s, step b p (HasAncestor-refl b) e refl)
          | inr s ↦
              inl (v.complete p (step b p (v.reached b m) (parents_of-parents_within b p s e) refl))
        ]
        | inr (s, m, q, t) ↦ inr (s, m, q, step b p t e refl)
      ]

      module _ (rank : ℕ → ℕ)
          (falls : (h p : ℕ) → elem p (parents_of store h) ≡ true → rank p < rank h)
          (cs : List Commit)
          (alone : (s y : ℕ)
            → elem s seen ≡ true
            → elem y (hashes cs) ≡ true
            → HasAncestor store s y
            → s ≡ y) where
        abbrev left : List Commit
        left = keep_by (spared from.hash (hashes xs)) cs

        left-cases :
            (y : ℕ)
            → elem y (hashes left) ≡ true
            → (elem y (hashes cs) ≡ true) × ((from.hash ≡ y) ⊎ (elem y (hashes xs) ≡ false))
        left-cases y e =
            let both : (elem y (hashes cs) && spared from.hash (hashes xs) y) ≡ true =
              sym (elem-keep_by (spared from.hash (hashes xs)) cs y) ∙ e in
            (
              left_of (elem y (hashes cs)) (spared from.hash (hashes xs) y) both,
              elim (Bool-cases (y == from.hash)) [
                | inl q ↦ inl (sym ((==_iff y from.hash).0 q))
                | inr q ↦
                    inr (
                      not_visited (elem y (hashes cs)) (y == from.hash) (elem y (hashes xs)) both q)
              ],
            )
          where
            left_of : (a b : Bool) → (a && b) ≡ true → a ≡ true
            left_of a b e = grind arith

            not_visited : (a f x : Bool) → (a && (f || not x)) ≡ true → f ≡ false → x ≡ false
            not_visited a f x e q = grind arith

        visited_alone :
            (s y : ℕ)
            → elem s (hashes xs) ≡ true
            → elem y (hashes left) ≡ true
            → HasAncestor store s y
            → s ≡ y
        visited_alone s y m e r =
            let down = visited-HasAncestor s m in
            let (c, one) = left-cases y e in
            elim one [
              | inl q ↦
                  HasAncestor-antisym rank falls s y r
                    (subst (λ (k : ℕ). HasAncestor store k s) q down)
              | inr n ↦ elim (HasAncestor-visited y (HasAncestor-trans from.hash s y down r)) [
                | inl m' ↦ cc
                | inr (t, m', seen_t, q) ↦
                    let is : t ≡ y = alone t y seen_t c q in
                    let m'' : elem y (hashes xs) ≡ true =
                      ap (λ (k : ℕ). elem k (hashes xs)) (sym is) ∙ m' in
                    cc
              ]
            ]

        -- After the walk, a candidate that is left is no ancestor of another commit that is seen by then.
        pub left_alone :
            (s y : ℕ)
            → (elem s seen || elem s (hashes xs)) ≡ true
            → elem y (hashes left) ≡ true
            → HasAncestor store s y
            → s ≡ y
        left_alone s y m e r = elim (or-cases (elem s seen) (elem s (hashes xs)) m) [
          | inl old ↦ let (c, one) = left-cases y e in alone s y old c r
          | inr new ↦ visited_alone s y new e r
        ]
