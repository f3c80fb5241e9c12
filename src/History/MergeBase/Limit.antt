-- ===== src/History/MergeBase/Limit.antt =====
-- plumbing/object/merge_base.go: the limit of a walk of Independents grows while the walk goes on; the walk is the
-- same as with the limit that it begins with.
use ai_experimental_search.Base.{
  ℕ, zero, suc, ◌<◌, ◌≡◌, refl, sym, ap, ◌∙◌, Bool, true, false, ◌||◌, Option, none, some, List, [],
  ◌∷◌, ◌==◌, arith, Bool-cases, inl, inr, length,
}
use ai_experimental_search.Base.Members.{elem}
use ai_experimental_search.Refs.Iter.{Next, got, ended, failed}
use ai_experimental_search.Refs.Filter.{Yields, visit, outcome, filter_next, filter_got}
use ai_experimental_search.History.Graph.{Commit, WalkError, is_closed}
use ai_experimental_search.History.Worklist.{Step, at_end, at_commit}
use ai_experimental_search.History.Filtered.{
  FilterCommitIter, visiting, visit_next, popped, pop_new_from_queue, visiting-Step, IsOpen,
  is_visited, pending, parents_within,
}
use ai_experimental_search.History.MergeBase.{
  Candidates, reach_ancestor, drop_reached, is_limit, all_valid, walk_candidates, walk_step,
  answered,
}
use ai_experimental_search.History.MergeBase.Walk.{drop_reached-keep_by}

-- Only commits that are not visited are asked for their limit.
module _ (store : List Commit) (l l' : Commit → Bool) (w : FilterCommitIter)
    (same : (c : Commit) → elem c.hash w.visited ≡ false → l c ≡ l' c) where
  popped-same :
      (queue : List Commit)
      → popped store l w (pop_new_from_queue w.visited queue)
        ≡ popped store l' w (pop_new_from_queue w.visited queue)
  unfolding pop_new_from_queue
  popped-same [] = refl
  popped-same (c ∷ queue) = elim (Bool-cases (elem c.hash w.visited)) [
    | inl s ↦ rw s (popped-same queue)
    | inr s ↦ rw (s, same c s) refl
  ]

  visit_next-same : visit_next store l w ≡ visit_next store l' w
  unfolding visit_next
  visit_next-same = popped-same w.queue

module _ (store : List Commit) (limit : Commit → Bool) (i : FilterCommitIter) where
  -- What a Next that gives a commit leaves.
  Step-got :
      (x : Commit) (r : FilterCommitIter × Next Commit WalkError)
      → Step store (parents_within store limit) is_visited pending (IsOpen store) i r
      → r.1 ≡ got x
      → IsOpen store r.0 × ((h : ℕ) → elem h r.0.visited ≡ (x.hash == h || elem h i.visited))
  Step-got x r (at_end i' all) e = cc
  Step-got x r (at_commit i' c known free waited grows covered only valid) e =
      let is : c ≡ x = cc in
      (valid, λ h. grows h ∙ ap (λ (d : Commit). d.hash == h || elem h i.visited) is)

abbrev More : Type 0
More = FilterCommitIter → Candidates → Candidates × Option (Option WalkError)

module _ (store : List Commit) (limit : Commit → Bool) (more : More) (s : Candidates)
    (passed : FilterCommitIter → FilterCommitIter × Next Commit WalkError) where
  walk_step-ended :
      (r : FilterCommitIter × Next Commit WalkError)
      → r.1 ≡ ended
      → walk_step more s (filter_got (visiting store limit) all_valid passed r) ≡ (s, some none)
  walk_step-ended (i, got c) e = cc
  walk_step-ended (i, ended) e = refl
  walk_step-ended (i, failed x) e = cc

  walk_step-got :
      (x : Commit) (r : FilterCommitIter × Next Commit WalkError)
      → r.1 ≡ got x
      → walk_step more s (filter_got (visiting store limit) all_valid passed r)
        ≡ answered more r.0 (reach_ancestor x s)
  unfolding all_valid
  walk_step-got x (i, got c) e = let is : c ≡ x = cc in rw is refl
  walk_step-got x (i, ended) e = cc
  walk_step-got x (i, failed y) e = cc

module _ (store : List Commit) (whole : is_closed store ≡ true) (seen : List ℕ) where
  -- The walk with the growing limit does what the callback does on the commits of the walk with the first limit.
  pub walk_candidates-visit :
      (fuel : ℕ) (xs : List Commit) (i : FilterCommitIter) (s : Candidates)
      → length xs < fuel
      → IsOpen store i
      → ((h : ℕ) → elem h i.visited ≡ false → elem h s.seen ≡ elem h seen)
      → Yields (visiting store (is_limit seen)) i xs
      → walk_candidates store fuel i s
        ≡ outcome
            (visiting store (is_limit seen))
            (visit (visiting store (is_limit seen)) reach_ancestor xs s)
  unfolding walk_candidates filter_next visit reach_ancestor elem
  walk_candidates-visit zero xs i s l good same y = absurd (omega (arith, l))
  walk_candidates-visit (suc fuel) [] i s l good same y =
      rw (visit_next-same store (is_limit s.seen) (is_limit seen) i (λ c. same c.hash)) (
        walk_step-ended store (is_limit s.seen) (λ i' s'. walk_candidates store fuel i' s') s
          (λ i'. filter_next (visiting store (is_limit s.seen)) all_valid fuel i')
          (visit_next store (is_limit seen) i) y)
  walk_candidates-visit (suc fuel) (x ∷ xs) i s l good same (y, ys) =
      let it = visiting store (is_limit seen) in
      let s₁ = drop_reached x s.others s in
      let (good', grows) =
        Step-got store (is_limit seen) i x (it.next i)
          (visiting-Step store whole (is_limit seen) i good) y in
      let kept : s₁.seen ≡ s.seen =
        ap (λ (t : Candidates). t.seen) (drop_reached-keep_by x s.others s) in
      let rest =
        walk_candidates-visit fuel xs (it.next i).0 (record s₁ { seen = x.hash ∷ s₁.seen })
          (omega (arith, l)) good'
          (λ h n. still x.hash h (elem h i.visited) (sym (grows h) ∙ n) s₁.seen (
            ap (elem h) kept
            ∙ same h (right_of (x.hash == h) (elem h i.visited) (sym (grows h) ∙ n))))
          ys in
      rw (visit_next-same store (is_limit s.seen) (is_limit seen) i (λ c. same c.hash)) (
        walk_step-got store (is_limit s.seen) (λ i' s'. walk_candidates store fuel i' s') s
          (λ i'. filter_next (visiting store (is_limit s.seen)) all_valid fuel i') x
          (visit_next store (is_limit seen) i) y
        ∙ elim (Bool-cases (length s₁.candidates == 1)) [ inl q ↦ rw q refl | inr q ↦ rw q rest ])
    where
      right_of : (a b : Bool) → (a || b) ≡ false → b ≡ false
      right_of a b e = grind arith

      left_of : (a b : Bool) → (a || b) ≡ false → a ≡ false
      left_of a b e = grind arith

      still :
          (k h : ℕ) (b : Bool)
          → ((k == h) || b) ≡ false
          → (u : List ℕ) → elem h u ≡ elem h seen
          → elem h (k ∷ u) ≡ elem h seen
      still k h b e u f = rw (left_of (k == h) b e) f
