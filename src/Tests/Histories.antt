-- ===== src/Tests/Histories.antt =====
-- The walks over histories and the merge bases at concrete inputs.
use ai_experimental_search.Base.{
  ℕ, ◌≡◌, ◌↔◌, ◌⊎◌, refl, Bool, true, false, ◌||◌, none, some, List, [], ◌∷◌, ltb, if◌then◌else◌,
  arith,
}
use ai_experimental_search.Base.Members.{elem}
use ai_experimental_search.Refs.Iter.{failed, for_each_loop}
use ai_experimental_search.Refs.Filter.{keep, Yields, filter_next}
use ai_experimental_search.History.Graph.{
  Commit, object_not_found, is_reachable, parents_of, Reach, is_closed, get_commit,
}
use ai_experimental_search.History.Worklist.{Visits}
use ai_experimental_search.History.Bfs.{
  bfs_iterator, new_commit_iter_bfs, bfs_iterator-Visits, bfs_next, bfs_next-missing, bfs_pop,
  append_hash, append_hashes,
}
use ai_experimental_search.History.Pre.{pre_iterator, new_commit_preorder_iter}
use ai_experimental_search.History.Pre.Laws.{pre_iterator-Visits}
use ai_experimental_search.History.Post.{
  post_iterator, first_parent_iterator, new_commit_postorder_iter,
}
use ai_experimental_search.History.Post.Laws.{
  first_parent_of, post_iterator-Visits, first_parent_iterator-Visits,
}
use ai_experimental_search.History.Filtered.{
  visiting, visit_next, parents_within, new_filter_commit_iter, filter_commit_iterator,
  filter_commit_iterator-keep,
}
use ai_experimental_search.History.Ancestor.{
  is_ancestor, is_ancestor_iff, ancestors_index, ancestors_index_lem, index, error,
}
use ai_experimental_search.History.MergeBase.{
  merge_base, commits, independents_loop, walk_candidates, remove, index_of,
}
use ai_experimental_search.History.MergeBase.{independents}
use ai_experimental_search.History.MergeBase.Ranked.{is_ranked}
use ai_experimental_search.History.MergeBase.Independent.{IsIndependent}
use ai_experimental_search.History.MergeBase.Sorted.{independents-IsIndependent}
use ai_experimental_search.History.MergeBase.Best.{IsBest, merge_base-IsBest}
use ai_experimental_search.Base.{Bool-cases, inl, inr}
use mathlib.Core.List.{Permᴰ}
use mathlib.Core.List.Permᴰ
use mathlib.Core.List.Permᴰ.{nil, swap}
use ai_experimental_search.Refs.Iter.{got}
use ai_experimental_search.History.All.Laws.{IsPathOf, new_commit_all_iter-IsPathOf}
use ai_experimental_search.History.All.{new_commit_all_iter, collect, add_reference, insert_before}
use ai_experimental_search.History.Pre.{
  PreIterator, pre_next, stack_next, top_next, pre_visit, filtered_parent_iter,
}

abbrev root : Commit
root = record { hash = 1; parents = []; when = 10 }

abbrev left : Commit
left = record { hash = 2; parents = 1 ∷ []; when = 20 }

abbrev right : Commit
right = record { hash = 3; parents = 1 ∷ []; when = 30 }

abbrev merge : Commit
merge = record { hash = 4; parents = 2 ∷ 3 ∷ []; when = 40 }

abbrev topic : Commit
topic = record { hash = 5; parents = 3 ∷ []; when = 50 }

abbrev repository : List Commit
repository = root ∷ left ∷ right ∷ merge ∷ topic ∷ []

repository_closed : is_closed repository ≡ true
unfolding is_closed
repository_closed = refl

merge_stored : get_commit repository 4 ≡ some merge
unfolding get_commit
merge_stored = refl

topic_stored : get_commit repository 5 ≡ some topic
unfolding get_commit
topic_stored = refl

bfs_iterator-Visits_example :
    (xs : List Commit) × Visits
      (bfs_iterator repository)
      repository
      (parents_of repository)
      (λ h. elem h (2 ∷ []) || elem h [])
      (4 ∷ [])
      (new_commit_iter_bfs merge [] (2 ∷ []))
      xs
bfs_iterator-Visits_example =
    bfs_iterator-Visits repository repository_closed merge [] (2 ∷ []) merge_stored

pre_iterator-Visits_example :
    (xs : List Commit) × Visits
      (pre_iterator repository)
      repository
      (parents_of repository)
      (λ h. elem h [] || elem h (3 ∷ []))
      (4 ∷ [])
      (new_commit_preorder_iter merge (3 ∷ []) [])
      xs
pre_iterator-Visits_example =
    pre_iterator-Visits repository repository_closed merge (3 ∷ []) [] merge_stored

post_iterator-Visits_run :
    (xs : List Commit) × Visits
      (post_iterator repository)
      repository
      (parents_of repository)
      (λ h. elem h [])
      (4 ∷ [])
      (new_commit_postorder_iter merge [])
      xs
post_iterator-Visits_run = post_iterator-Visits repository repository_closed merge [] merge_stored

first_parent_iterator-Visits_example :
    (xs : List Commit) × Visits
      (first_parent_iterator repository)
      repository
      (first_parent_of repository)
      (λ h. elem h [])
      (4 ∷ [])
      (new_commit_postorder_iter merge [])
      xs
first_parent_iterator-Visits_example =
    first_parent_iterator-Visits repository repository_closed merge [] merge_stored

abbrev is_late : Commit → Bool
is_late c = ltb 15 c.when

abbrev is_right : Commit → Bool
is_right c = ltb 25 c.when

filter_commit_iterator-keep_example :
    (xs : List Commit) × Visits
      (visiting repository is_right)
      repository
      (parents_within repository is_right)
      (λ h. false)
      (4 ∷ [])
      (new_filter_commit_iter merge)
      xs
    × Yields
        (filter_commit_iterator repository is_late is_right 6)
        (new_filter_commit_iter merge)
        (keep is_late xs)
filter_commit_iterator-keep_example =
    filter_commit_iterator-keep repository repository_closed is_right is_late merge merge_stored

is_ancestor_iff_example :
    (found : Bool) × (is_ancestor 6 repository right topic ≡ (found, some none))
    × ((found ≡ true) ↔ Reach (parents_of repository) (λ h. false) (5 ∷ []) 3)
is_ancestor_iff_example =
    is_ancestor_iff 6 repository right topic repository_closed topic_stored (omega arith)

ancestors_index_lem_run :
    (Reach (parents_of repository) (λ h. false) (4 ∷ []) 5
      × (ancestors_index 6 repository topic merge ≡ error is_reachable))
    ⊎ ((history : List ℕ) × (ancestors_index 6 repository topic merge ≡ index history)
        × (elem 5 history ≡ false)
        × ((h : ℕ)
            → (elem h history ≡ true) ↔ Reach (parents_of repository) (λ h'. false) (4 ∷ []) h))
ancestors_index_lem_run =
    ancestors_index_lem 6 repository topic merge repository_closed merge_stored (omega arith)

bfs_next-missing_example :
    (bfs_next (merge ∷ left ∷ root ∷ []) (new_commit_iter_bfs merge [] [])).1
    ≡ failed object_not_found
unfolding new_commit_iter_bfs elem get_commit
bfs_next-missing_example =
    bfs_next-missing (merge ∷ left ∷ root ∷ []) (new_commit_iter_bfs merge [] []) merge [] 3 refl
      refl refl refl refl

-- A sort of at most two commits.
abbrev sort_two : (Commit → Commit → Bool) → List Commit → List Commit
sort_two less [] = []
sort_two less (a ∷ []) = a ∷ []
sort_two less (a ∷ b ∷ more) = if less b a then b ∷ a ∷ more else a ∷ b ∷ more

merge_base_run : merge_base sort_two repository 6 merge topic ≡ commits (right ∷ [])
unfolding merge_base for_each_loop bfs_next bfs_pop new_commit_iter_bfs elem append_hashes
    append_hash get_commit filter_next visit_next new_filter_commit_iter independents_loop
    walk_candidates remove index_of
merge_base_run = refl

sort_two-Permᴰ : (less : Commit → Commit → Bool) (cs : List Commit) → Permᴰ (sort_two less cs) cs
sort_two-Permᴰ less [] = nil
sort_two-Permᴰ less (a ∷ []) = Permᴰ.refl (a ∷ [])
sort_two-Permᴰ less (a ∷ b ∷ more) = elim (Bool-cases (less b a)) [
  | inl s ↦ rw s (swap refl refl)
  | inr s ↦ rw s (Permᴰ.refl (a ∷ b ∷ more))
]

left_stored : get_commit repository 2 ≡ some left
unfolding get_commit
left_stored = refl

repository_ranked : is_ranked (λ h. h) repository ≡ true
unfolding is_ranked
repository_ranked = refl

right_stored : get_commit repository 3 ≡ some right
unfolding get_commit
right_stored = refl

merge_base-IsBest_example :
    (res : List Commit) × (merge_base sort_two repository 6 merge topic ≡ commits res)
    × IsBest repository 4 5 res
merge_base-IsBest_example =
    merge_base-IsBest sort_two sort_two-Permᴰ repository (λ h. h) 6 repository_closed
      repository_ranked (omega arith) merge topic merge_stored topic_stored

independents-IsIndependent_example :
    (res : List Commit) × (independents sort_two repository 6 (right ∷ topic ∷ []) ≡ commits res)
    × IsIndependent repository (right ∷ topic ∷ []) res
independents-IsIndependent_example =
    independents-IsIndependent sort_two sort_two-Permᴰ repository (λ h. h) 6 (right ∷ topic ∷ [])
      repository_closed repository_ranked (omega arith) (right_stored, (topic_stored, tt))

abbrev pre_start : Commit → PreIterator
pre_start c = new_commit_preorder_iter c [] []

pre_walks :
    (c : Commit)
    → get_commit repository c.hash ≡ some c
    → (xs : List Commit) × Visits
        (pre_iterator repository)
        repository
        (parents_of repository)
        (λ h. false)
        (c.hash ∷ [])
        (pre_start c)
        xs
unfolding elem
pre_walks c known = pre_iterator-Visits repository repository_closed c [] [] known

pre_begins :
    (c : Commit)
    → get_commit repository c.hash ≡ some c
    → (pre_next repository (pre_start c)).1 ≡ got c
unfolding pre_next pre_visit new_commit_preorder_iter elem
pre_begins c known = refl

new_commit_all_iter-IsPathOf_example :
    IsPathOf repository 2
      (4 ∷ [])
      (new_commit_all_iter (pre_iterator repository) pre_start repository 6 [] (2 ∷ 4 ∷ []))
new_commit_all_iter-IsPathOf_example =
    new_commit_all_iter-IsPathOf (pre_iterator repository) pre_start repository 6 (omega arith)
      pre_walks pre_begins 2 left (4 ∷ []) left_stored

-- The second parent of the merge is not in the path.
new_commit_all_iter_run :
    new_commit_all_iter (pre_iterator repository) pre_start repository 6 [] (2 ∷ 4 ∷ [])
    ≡ merge ∷ left ∷ root ∷ []
unfolding new_commit_all_iter collect add_reference insert_before pre_next stack_next top_next
    pre_visit filtered_parent_iter new_commit_preorder_iter elem get_commit keep
new_commit_all_iter_run = refl
