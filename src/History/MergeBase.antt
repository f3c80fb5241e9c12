-- ===== src/History/MergeBase.antt =====
-- plumbing/object/merge_base.go: independent commits and merge bases. sort.Slice is a parameter.
pub mod KeepBy
pub mod Walk
pub mod Limit
pub mod Ancestry
pub mod Independent
pub mod Rounds
pub mod Sorted
pub mod Ranked
pub mod Best
use ai_experimental_search.Base.{
  ℕ, zero, suc, ◌+◌, Bool, true, Option, none, some, List, [], ◌∷◌, ◌++◌, if◌then◌else◌, ◌==◌, ltb,
  leb, length, get_elem?,
}
use ai_experimental_search.Base.Members.{elem}
use ai_experimental_search.Refs.Iter.{Next, got, ended, failed, Answer, go_on, for_each_loop}
use ai_experimental_search.History.Graph.{Commit, WalkError, eof, object_not_found, is_reachable}
use ai_experimental_search.History.Filtered.{
  FilterCommitIter, new_filter_commit_iter, filter_commit_iterator,
}
use ai_experimental_search.History.Ancestor.{
  AncestorsIndex, index, error, out_of_fuel, ancestors_index,
}

-- What MergeBase and Independents return; `panicked` is an index out of range, `unfinished` the end of the fuel.
pub data CommitsResult : Type 0 where
  commits : List Commit → CommitsResult
  not_walked : WalkError → CommitsResult
  panicked : CommitsResult
  unfinished : CommitsResult

unfoldable pub is_after : Commit → Commit → Bool
is_after a b = ltb b.when a.when

abbrev moved : Option ℕ → Option ℕ
moved none = none
moved (some i) = some (suc i)

-- indexOf; `none` is -1.
unfoldable pub index_of : List Commit → Commit → Option ℕ
index_of [] target = none
index_of (c ∷ cs) target =
    let rest = index_of cs target in if target.hash == c.hash then some 0 else moved rest

unfoldable pub remove : List Commit → Commit → List Commit
remove [] to_delete = []
remove (c ∷ cs) to_delete =
    let rest = remove cs to_delete in if c.hash == to_delete.hash then rest else c ∷ rest

unfoldable pub remove_duplicates : List ℕ → List Commit → List Commit
remove_duplicates seen [] = []
remove_duplicates seen (c ∷ cs) =
    let again = remove_duplicates seen cs in
    let first = remove_duplicates (c.hash ∷ seen) cs in
    if elem c.hash seen then again else c ∷ first

unfoldable pub remove_duplicated : List Commit → List Commit
unfolding remove_duplicates
remove_duplicated cs = remove_duplicates [] cs

unfoldable pub is_in_index_commit_filter : List ℕ → Commit → Bool
is_in_index_commit_filter known c = elem c.hash known

-- The variables of Independents that the callback changes.
pub record Candidates : Type 0 where
  pub candidates : List Commit
  pub others : List Commit
  pub seen : List ℕ

-- The loop of the callback over the others that there were before it.
unfoldable pub drop_reached : Commit → List Commit → Candidates → Candidates
drop_reached from_ancestor [] s = s
drop_reached from_ancestor (other ∷ others) s = drop_reached from_ancestor others (
    if from_ancestor.hash == other.hash
    then record s { candidates = remove s.candidates other; others = remove s.others other }
    else s)

abbrev pub unless_one : Commit → Candidates → Candidates × Answer WalkError
unless_one from_ancestor s =
    if length s.candidates == 1
    then (s, Answer.stop)
    else (record s { seen = from_ancestor.hash ∷ s.seen }, go_on)

unfoldable pub reach_ancestor : Commit → Candidates → Candidates × Answer WalkError
unfolding drop_reached
reach_ancestor from_ancestor s = unless_one from_ancestor (drop_reached from_ancestor s.others s)

unfoldable pub is_limit : List ℕ → Commit → Bool
is_limit seen c = elem c.hash seen

unfoldable pub all_valid : Commit → Bool
all_valid c = true

abbrev pub answered :
    (FilterCommitIter → Candidates → Candidates × Option (Option WalkError))
    → FilterCommitIter
    → Candidates × Answer WalkError
    → Candidates × Option (Option WalkError)
answered more i (s, go_on) = more i s
answered more i (s, Answer.stop) = (s, some none)
answered more i (s, Answer.fail e) = (s, some (some e))

abbrev pub walk_step :
    (FilterCommitIter → Candidates → Candidates × Option (Option WalkError))
    → Candidates
    → FilterCommitIter × Next Commit WalkError
    → Candidates × Option (Option WalkError)
walk_step more s (i, ended) = (s, some none)
walk_step more s (i, failed e) = (s, some (some e))
walk_step more s (i, got c) = answered more i (reach_ancestor c s)

-- fromHistoryIter.ForEach: the limit of each Next is what is seen at its time.
unfoldable pub walk_candidates :
    List Commit → ℕ → FilterCommitIter → Candidates → Candidates × Option (Option WalkError)
unfolding reach_ancestor is_limit all_valid
walk_candidates store zero i s = (s, none)
walk_candidates store (suc fuel) i s =
    walk_step (λ i' s'. walk_candidates store fuel i' s') s
      ((filter_commit_iterator store all_valid (is_limit s.seen) (suc fuel)).next i)

abbrev pub next_pos : Option ℕ → ℕ
next_pos none = 0
next_pos (some i) = i + 1

abbrev pub go_to :
    (ℕ → List Commit → List ℕ → CommitsResult)
    → Commit
    → Candidates × Option (Option WalkError)
    → CommitsResult
go_to more from (s, none) = unfinished
go_to more from (s, some (some e)) = not_walked e
go_to more from (s, some none) =
    let pos = next_pos (index_of s.candidates from) in
    let rest = more pos s.candidates s.seen in
    if leb (length s.candidates) pos then commits s.candidates else rest

abbrev pub from_candidate :
    List Commit
    → ℕ
    → (ℕ → List Commit → List ℕ → CommitsResult)
    → List Commit
    → List ℕ
    → Option Commit
    → CommitsResult
from_candidate store fuel more cs seen none = panicked
from_candidate store fuel more cs seen (some from) = go_to more from (
    walk_candidates store fuel (new_filter_commit_iter from)
      (record { candidates = cs; others = remove cs from; seen = seen }))

-- The loop of Independents; the first number bounds its rounds, the second one those of each walk.
unfoldable pub independents_loop : List Commit → ℕ → ℕ → ℕ → List Commit → List ℕ → CommitsResult
independents_loop store zero fuel pos cs seen = unfinished
independents_loop store (suc rounds) fuel pos cs seen =
    from_candidate store fuel (λ pos' cs' seen'. independents_loop store rounds fuel pos' cs' seen')
      cs seen (get_elem? cs pos)

abbrev pub independents_of : List Commit → ℕ → List Commit → CommitsResult
independents_of store fuel cs =
    let found = independents_loop store (length cs) fuel 0 cs [] in
    if ltb (length cs) 2 then commits cs else found

module _ (sort_slice : (Commit → Commit → Bool) → List Commit → List Commit) where
  unfoldable pub sort_by_commit_date_desc : List Commit → List Commit
  unfolding is_after
  sort_by_commit_date_desc cs = sort_slice is_after cs

  unfoldable pub independents : List Commit → ℕ → List Commit → CommitsResult
  unfolding sort_by_commit_date_desc remove_duplicated
  independents store fuel cs =
      independents_of store fuel (remove_duplicated (sort_by_commit_date_desc cs))

  abbrev pub appended : Commit → List Commit → List Commit × Answer WalkError
  appended c res = (res ++ (c ∷ []), go_on)

  -- The commits at the border of a history, seen from an older commit.
  unfoldable pub border : List Commit → ℕ → Commit → List ℕ → List Commit
  unfolding is_in_index_commit_filter
  border store fuel older newer_history =
      let in_newer_history = is_in_index_commit_filter newer_history in
      (for_each_loop (filter_commit_iterator store in_newer_history in_newer_history fuel) fuel
        appended (new_filter_commit_iter older) []).1

  abbrev pub merge_in : List Commit → ℕ → Commit → AncestorsIndex → CommitsResult
  merge_in store fuel older (error is_reachable) = commits (older ∷ [])
  merge_in store fuel older (error eof) = not_walked eof
  merge_in store fuel older (error object_not_found) = not_walked object_not_found
  merge_in store fuel older out_of_fuel = unfinished
  merge_in store fuel older (index newer_history) =
      independents store fuel (border store fuel older newer_history)

  abbrev pub merge_sorted : List Commit → ℕ → List Commit → CommitsResult
  merge_sorted store fuel [] = panicked
  merge_sorted store fuel (newer ∷ []) = panicked
  merge_sorted store fuel (newer ∷ older ∷ more) =
      merge_in store fuel older (ancestors_index fuel store older newer)

  unfoldable pub merge_base : List Commit → ℕ → Commit → Commit → CommitsResult
  unfolding sort_by_commit_date_desc ancestors_index independents border
  merge_base store fuel c other =
      merge_sorted store fuel (sort_by_commit_date_desc (c ∷ other ∷ []))
