-- ===== src/History/Ancestor.antt =====
-- plumbing/object/merge_base.go: whether a commit is an ancestor of another one, and all its ancestors.
use ai_experimental_search.Base.{
  ℕ, ◌<◌, ◌≡◌, ◌↔◌, ◌⊎◌, refl, sym, ap, ◌∙◌, Bool, true, false, ◌||◌, Option, none, some, List, [],
  ◌∷◌, if◌then◌else◌, ◌==◌, ==_iff, ==_refl, arith, Bool-cases, inl, inr, length,
}
use ai_experimental_search.Base.Members.{elem, or_left}
use ai_experimental_search.Refs.Iter.{Answer, go_on, stop, fail, for_each_loop}
use ai_experimental_search.Refs.Filter.{visit, outcome, result, for_each_loop-visit}
use ai_experimental_search.History.Graph.{
  Commit, WalkError, is_reachable, get_commit, hashes, parents_of, is_closed, Reach, here,
}
use ai_experimental_search.History.Pre.{pre_iterator, new_commit_preorder_iter}
use ai_experimental_search.History.Pre.Laws.{pre_iterator-Visits}
use ai_experimental_search.History.Bfs.{bfs_iterator, new_commit_iter_bfs, bfs_iterator-Visits}

abbrev find_hash : Commit → Commit → Bool → Bool × Answer WalkError
find_hash c comm found = if comm.hash == c.hash then (true, stop) else (found, go_on)

-- IsAncestor: whether it was found, and the error; `none` in its place: the fuel ran out.
unfoldable pub is_ancestor : ℕ → List Commit → Commit → Commit → Bool × Option (Option WalkError)
is_ancestor fuel store c other = result (pre_iterator store) (
    for_each_loop (pre_iterator store) fuel (find_hash c) (new_commit_preorder_iter other [] [])
      false)

visit-find_hash :
    (store : List Commit) (c : Commit) (xs : List Commit)
    → visit (pre_iterator store) (find_hash c) xs false ≡ (elem c.hash (hashes xs), none)
unfolding visit elem
visit-find_hash store c [] = refl
visit-find_hash store c (x ∷ xs) = elim (Bool-cases (x.hash == c.hash)) [
  | inl s ↦ rw s refl
  | inr s ↦ rw s (visit-find_hash store c xs)
]

-- Over a closed store, IsAncestor ends without an error, and finds a commit exactly when it can be reached over
-- parents from the other one, which is stored. More rounds than there are commits are enough.
pub is_ancestor_iff :
    (fuel : ℕ) (store : List Commit) (c other : Commit)
    → is_closed store ≡ true
    → get_commit store other.hash ≡ some other
    → length store < fuel
    → (found : Bool) × (is_ancestor fuel store c other ≡ (found, some none))
      × ((found ≡ true) ↔ Reach (parents_of store) (λ h. false) (other.hash ∷ []) c.hash)
unfolding is_ancestor elem
is_ancestor_iff fuel store c other whole known enough =
    let (xs, v) = pre_iterator-Visits store whole other [] [] known in
    let ran =
      for_each_loop-visit (pre_iterator store) (find_hash c) xs
        (new_commit_preorder_iter other [] []) false fuel v.yields (omega (arith, v.few, enough)) in
    (
      elem c.hash (hashes xs),
      ran ∙ ap (outcome (pre_iterator store)) (visit-find_hash store c xs),
      (v.reached c.hash, v.complete c.hash),
    )

-- What ancestorsIndex returns: a map, as the set of its keys, or an error.
pub data AncestorsIndex : Type 0 where
  index : List ℕ → AncestorsIndex
  error : WalkError → AncestorsIndex
  out_of_fuel : AncestorsIndex

abbrev index_commit : Commit → Commit → List ℕ → List ℕ × Answer WalkError
index_commit excluded commit starting_history =
    if commit.hash == excluded.hash
    then (starting_history, fail is_reachable)
    else (commit.hash ∷ starting_history, go_on)

abbrev indexed : List ℕ × Option (Option WalkError) → AncestorsIndex
indexed (history, none) = out_of_fuel
indexed (history, some none) = index history
indexed (history, some (some e)) = error e

unfoldable pub ancestors_index : ℕ → List Commit → Commit → Commit → AncestorsIndex
ancestors_index fuel store excluded starting =
    if excluded.hash == starting.hash
    then error is_reachable
    else indexed (
        result (bfs_iterator store) (
          for_each_loop (bfs_iterator store) fuel (index_commit excluded)
            (new_commit_iter_bfs starting [] []) []))

visit-index_reachable :
    (store : List Commit) (excluded : Commit) (xs : List Commit) (history : List ℕ)
    → elem excluded.hash (hashes xs) ≡ true
    → (visit (bfs_iterator store) (index_commit excluded) xs history).1 ≡ some is_reachable
unfolding visit elem
visit-index_reachable store excluded [] history e = cc
visit-index_reachable store excluded (x ∷ xs) history e =
    elim (Bool-cases (x.hash == excluded.hash)) [
      | inl s ↦ rw s refl
      | inr s ↦ rw s (visit-index_reachable store excluded xs (x.hash ∷ history) (rw s at e))
    ]

visit-index_all :
    (store : List Commit) (excluded : Commit) (xs : List Commit) (history : List ℕ)
    → elem excluded.hash (hashes xs) ≡ false
    → (all : List ℕ) × (visit (bfs_iterator store) (index_commit excluded) xs history ≡ (all, none))
      × ((h : ℕ) → elem h all ≡ (elem h history || elem h (hashes xs)))
unfolding visit elem
visit-index_all store excluded [] history e = (history, refl, λ h. grind arith)
visit-index_all store excluded (x ∷ xs) history e = elim (Bool-cases (x.hash == excluded.hash)) [
  | inl s ↦ let taken : true ≡ false = rw s at e in cc
  | inr s ↦
      let (all, does, has) = visit-index_all store excluded xs (x.hash ∷ history) (rw s at e) in
      (all, rw s does, λ h. has h ∙ regroup (x.hash == h) (elem h history) (elem h (hashes xs)))
]
  where
    regroup : (a b c : Bool) → ((a || b) || c) ≡ (b || (a || c))
    regroup a b c = grind arith

indexed-error :
    (r : List ℕ × Option WalkError) (e : WalkError)
    → r.1 ≡ some e
    → indexed (r.0, some r.1) ≡ error e
indexed-error (history, none) e q = cc
indexed-error (history, some x) e q = let is : x ≡ e = cc in rw is refl

-- Over a closed store, ancestorsIndex gives the error that the excluded commit is reachable when it can be
-- reached over parents from the starting one, which is stored, and else the set of the hashes that can be
-- reached, which has not the excluded one. More rounds than there are commits are enough.
pub ancestors_index_lem :
    (fuel : ℕ) (store : List Commit) (excluded starting : Commit)
    → is_closed store ≡ true
    → get_commit store starting.hash ≡ some starting
    → length store < fuel
    → (Reach (parents_of store) (λ h. false) (starting.hash ∷ []) excluded.hash
        × (ancestors_index fuel store excluded starting ≡ error is_reachable))
      ⊎ ((history : List ℕ) × (ancestors_index fuel store excluded starting ≡ index history)
          × (elem excluded.hash history ≡ false)
          × ((h : ℕ)
              → (elem h history ≡ true)
                ↔ Reach (parents_of store) (λ h. false) (starting.hash ∷ []) h))
unfolding ancestors_index elem
ancestors_index_lem fuel store excluded starting whole known enough =
    let (xs, v) = bfs_iterator-Visits store whole starting [] [] known in
    let it = bfs_iterator store in
    let ran =
      for_each_loop-visit it (index_commit excluded) xs (new_commit_iter_bfs starting [] []) [] fuel
        v.yields (omega (arith, v.few, enough)) in
    elim (Bool-cases (excluded.hash == starting.hash)) [
      | inl s ↦
          let itself : Reach (parents_of store) (λ h. false) (starting.hash ∷ []) excluded.hash =
            here excluded.hash
              (ap (λ (h : ℕ). elem excluded.hash (h ∷ []))
                  (sym ((==_iff excluded.hash starting.hash).0 s))
                ∙ or_left (excluded.hash == excluded.hash) false (==_refl excluded.hash))
              refl in
          inl (itself, rw s refl)
      | inr s ↦ elim (Bool-cases (elem excluded.hash (hashes xs))) [
        | inl e ↦
            let fails =
              indexed-error (visit it (index_commit excluded) xs []) is_reachable
                (visit-index_reachable store excluded xs [] e) in
            inl (v.reached excluded.hash e, rw (s, ran) fails)
        | inr e ↦
            let (all, does, has) = visit-index_all store excluded xs [] e in
            inr (
              all,
              rw (s, ran, does) refl,
              has excluded.hash ∙ e,
              λ h. (λ m. v.reached h (sym (has h) ∙ m), λ r. has h ∙ v.complete h r),
            )
      ]
    ]
