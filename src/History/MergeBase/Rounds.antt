-- ===== src/History/MergeBase/Rounds.antt =====
-- plumbing/object/merge_base.go: the loop of Independents over its rounds.
use ai_experimental_search.Base.{
  ℕ, zero, suc, ◌+◌, ◌≤◌, ◌<◌, ◌≡◌, ◌⊎◌, refl, subst, true, false, List, [], ◌∷◌, ◌++◌,
  if◌then◌else◌, leb, arith, inl, inr, length, length-append, get_elem?-append, append_assoc,
  append-nil,
}
use ai_experimental_search.Base.Members.{elem}
use ai_experimental_search.History.Graph.{Commit, parents_of, is_closed}
use ai_experimental_search.History.MergeBase.{CommitsResult, commits, independents_loop}
use ai_experimental_search.History.MergeBase.KeepBy.{keep_by, length-keep_by}
use ai_experimental_search.History.MergeBase.Independent.{
  IsKept, IsIndependent, IsBetween, IsIndependent-one, IsIndependent-all, index_of-middle, round,
}

module _ (store : List Commit) (whole : is_closed store ≡ true) (rank : ℕ → ℕ)
    (falls : (h p : ℕ) → elem p (parents_of store h) ≡ true → rank p < rank h)
    (given : List Commit) where
  abbrev pub Done : CommitsResult → Type 0
  Done r = (res : List Commit) × (r ≡ commits res) × IsIndependent store given res

  -- The end of a round, when the recursion holds for what is left.
  finish :
      (more : ℕ → List Commit → List ℕ → CommitsResult) (rounds : ℕ) (before after : List Commit)
      (from : Commit) (seen : List ℕ)
      → ((d : Commit) (rest : List Commit)
          → length (d ∷ rest) ≤ rounds
          → IsBetween store given (before ++ (from ∷ [])) (d ∷ rest) seen
          → Done
              (more (length (before ++ (from ∷ []))) ((before ++ (from ∷ [])) ++ (d ∷ rest)) seen))
      → length after ≤ rounds
      → IsKept store given (before ++ (from ∷ after))
      → (length (before ++ (from ∷ after)) ≡ 1)
        ⊎ IsBetween store given (before ++ (from ∷ [])) after seen
      → Done (
          if leb (length (before ++ (from ∷ after))) (length before + 1)
          then commits (before ++ (from ∷ after))
          else more (length before + 1) (before ++ (from ∷ after)) seen)
  finish more rounds before [] from seen recursion l kept state =
      let at_end : leb (length (before ++ (from ∷ []))) (length before + 1) ≡ true =
        ground (arith, length-append before (from ∷ [])) in
      rw at_end (
        before ++ (from ∷ []),
        refl,
        elim state [
          | inl one ↦ IsIndependent-one store given (before ++ (from ∷ [])) kept one
          | inr b ↦
              subst (IsIndependent store given) (append-nil (before ++ (from ∷ [])))
                (IsIndependent-all store given (before ++ (from ∷ [])) seen b)
        ],
      )
  finish more rounds before (d ∷ rest) from seen recursion l kept state =
      let long : leb (length (before ++ (from ∷ d ∷ rest))) (length before + 1) ≡ false =
        ground (arith, length-append before (from ∷ d ∷ rest)) in
      let same : (before ++ (from ∷ [])) ++ (d ∷ rest) ≡ before ++ (from ∷ d ∷ rest) =
        append_assoc before (from ∷ []) (d ∷ rest) in
      let place : length (before ++ (from ∷ [])) ≡ length before + 1 =
        omega (arith, length-append before (from ∷ [])) in
      rw long (elim state [
        | inl one ↦ absurd (omega (arith, one, length-append before (from ∷ d ∷ rest)))
        | inr b ↦
            subst (λ (ds : List Commit). Done (more (length before + 1) ds seen)) same
              (subst (λ (n : ℕ). Done (more n ((before ++ (from ∷ [])) ++ (d ∷ rest)) seen)) place
                (recursion d rest l b))
      ])

  -- As many rounds as there are candidates from the position on are enough.
  pub independents_loop-IsIndependent :
      (rounds fuel : ℕ) (before after : List Commit) (from : Commit) (seen : List ℕ)
      → length store < fuel
      → length (from ∷ after) ≤ rounds
      → IsBetween store given before (from ∷ after) seen
      → Done (independents_loop store rounds fuel (length before) (before ++ (from ∷ after)) seen)
  unfolding independents_loop
  independents_loop-IsIndependent zero fuel before after from seen enough l b =
      absurd (omega (arith, l))
  independents_loop-IsIndependent (suc rounds) fuel before after from seen enough l b =
      let (s', test, does, is, kept, state) =
        round store whole rank falls given fuel before after from seen enough b in
      let left = keep_by test before in
      let shorter = length-keep_by test after in
      rw
        (
          get_elem?-append before after from,
          does,
          is,
          index_of-middle left (keep_by test after) from kept.once,
        )
        (finish (λ pos cs later. independents_loop store rounds fuel pos cs later) rounds left
          (keep_by test after) from s'.seen
          (λ d rest l' b'.
            independents_loop-IsIndependent rounds fuel (left ++ (from ∷ [])) rest d s'.seen enough
              l' b')
          (omega (arith, l, shorter)) kept state)
