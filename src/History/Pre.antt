-- ===== src/History/Pre.antt =====
-- plumbing/object/commit_walker.go: the walk in pre-order.
pub mod Laws
use ai_experimental_search.Base.{
  ℕ, ◌≡◌, refl, sym, ap, ◌∙◌, Bool, true, false, not, ◌||◌, ◌&&◌, Option, none, some, List, [], ◌∷◌,
  ◌++◌, if◌then◌else◌, ◌==◌, ==_iff, arith, Bool-cases, inl, inr,
}
use ai_experimental_search.Base.Members.{elem, elem-append, or_assoc}
use ai_experimental_search.Refs.Iter.{Next, got, ended, failed, Iterator}
use ai_experimental_search.Refs.Filter.{keep}
use ai_experimental_search.History.Graph.{
  Commit, WalkError, object_not_found, get_commit, hashes, parents_of, is_closed, parents_of-commit,
  get_commit-elem, get_commit-hash, get_commit-stored, all_elem, all_elem-first, all_elem-rest,
  is_closed-parents,
}
use ai_experimental_search.History.Worklist.{Step, at_end, Visits, Step-Visits}
use ai_experimental_search.History.Worklist.Steps.{Step-skip, Step-take, Step-same}

-- commitPreIterator. An iterator on the stack is the list of the hashes that it has still to look up; the top
-- of the stack, the end of the slice, is the head of the list.
pub record PreIterator : Type 0 where
  pub seen_external : List ℕ
  pub seen : List ℕ
  pub stack : List (List ℕ)
  pub start : Option Commit

unfoldable pub new_commit_preorder_iter : Commit → List ℕ → List ℕ → PreIterator
new_commit_preorder_iter c seen_external ignore = record {
  seen_external = seen_external;
  seen = ignore;
  stack = [];
  start = some c;
}

-- filteredParentIter, as the hashes that it looks up.
unfoldable pub filtered_parent_iter : Commit → List ℕ → List ℕ
unfolding keep
filtered_parent_iter c seen = keep (λ h. not (elem h seen)) c.parents

abbrev pub is_seen : PreIterator → ℕ → Bool
is_seen w h = elem h w.seen || elem h w.seen_external

abbrev pub pushed : List ℕ → List ℕ → List (List ℕ) → List (List ℕ)
pushed [] iter stack = stack
pushed (h ∷ hs) iter stack = iter ∷ stack

-- The end of Next, for a commit that is not seen.
unfoldable pub pre_visit :
    PreIterator → List (List ℕ) → Commit → PreIterator × Next Commit WalkError
pre_visit w stack c = (
  record {
    seen_external = w.seen_external;
    seen = c.hash ∷ w.seen;
    stack = pushed c.parents (filtered_parent_iter c (c.hash ∷ w.seen)) stack;
    start = none;
  },
  got c,
)

abbrev pub looked_up :
    PreIterator
    → List ℕ
    → List ℕ
    → List (List ℕ)
    → Option Commit
    → PreIterator × Next Commit WalkError
    → PreIterator × Next Commit WalkError
looked_up w top hs below none skipped =
    (record w { stack = top ∷ below; start = none }, failed object_not_found)
looked_up w top hs below (some c) skipped =
    if is_seen w c.hash then skipped else pre_visit w (hs ∷ below) c

-- The loop of Next while the iterator on the top of the stack lasts; `popped` is what the loop does without it.
unfoldable pub top_next :
    List Commit
    → PreIterator
    → List ℕ
    → List (List ℕ)
    → PreIterator × Next Commit WalkError
    → PreIterator × Next Commit WalkError
top_next store w [] below popped = popped
top_next store w (h ∷ hs) below popped =
    looked_up w (h ∷ hs) hs below (get_commit store h) (top_next store w hs below popped)

unfoldable pub stack_next :
    List Commit → PreIterator → List (List ℕ) → PreIterator × Next Commit WalkError
stack_next store w [] = (record w { stack = []; start = none }, ended)
stack_next store w (top ∷ below) = top_next store w top below (stack_next store w below)

abbrev pub from_start :
    List Commit → PreIterator → Option Commit → PreIterator × Next Commit WalkError
from_start store w none = stack_next store w w.stack
from_start store w (some c) =
    let skipped = stack_next store w w.stack in
    if is_seen w c.hash then skipped else pre_visit w w.stack c

unfoldable pub pre_next : List Commit → PreIterator → PreIterator × Next Commit WalkError
unfolding stack_next pre_visit
pre_next store w = from_start store w w.start

abbrev pub pre_iterator : List Commit → Iterator PreIterator Commit WalkError
pre_iterator store = record { next = pre_next store; close = λ w. w }
