-- ===== src/History/Post.antt =====
-- plumbing/object/commit_walker.go: the walks in post-order, over all parents and over the first ones.
pub mod Laws
use ai_experimental_search.Base.{
  ℕ, take, ◌≡◌, refl, sym, ap, ◌∙◌, Bool, true, false, ◌||◌, ◌&&◌, Option, none, some, List, [],
  ◌∷◌, if◌then◌else◌, ◌==◌, ==_iff, arith, Bool-cases, inl, inr,
}
use ai_experimental_search.Base.Members.{elem, or_right}
use ai_experimental_search.Refs.Iter.{Next, got, ended, failed, Iterator}
use ai_experimental_search.History.Graph.{
  Commit, WalkError, object_not_found, get_commit, hashes, parents_of, is_closed, parents_of-commit,
  get_commit-elem, get_commit-hash, get_commit-stored, all_elem, all_elem-first, all_elem-rest,
  is_closed-parents,
}
use ai_experimental_search.History.Worklist.{Step, at_end, AllStored, Visits, Step-Visits}
use ai_experimental_search.History.Worklist.Steps.{Step-skip, Step-take}

-- commitPostIterator and commitPostIteratorFirstParent, which have the same fields. The top of the stack,
-- the end of the slice, is the head of the list.
pub record PostIterator : Type 0 where
  pub stack : List Commit
  pub seen : List ℕ

unfoldable pub new_commit_postorder_iter : Commit → List ℕ → PostIterator
new_commit_postorder_iter c ignore = record { stack = c ∷ []; seen = ignore }

-- The test of a parent in the callback of the walk over the first parents.
abbrev pub first_is : ℕ → List ℕ → Bool
first_is p [] = false
first_is p (h ∷ hs) = p == h

unfoldable pub is_first_parent : Commit → Commit → Bool
is_first_parent c p = first_is p.hash c.parents

unfoldable pub is_parent : Commit → Commit → Bool
is_parent c p = true

abbrev pub pushed :
    List Commit
    → Option Commit
    → (Commit → Bool)
    → (List Commit → List Commit × Option WalkError)
    → List Commit × Option WalkError
pushed stack none wanted more = (stack, some object_not_found)
pushed stack (some p) wanted more = more (if wanted p then p ∷ stack else stack)

-- Parents().ForEach with the callback that pushes the wanted parents.
unfoldable pub push_parents :
    List Commit → (Commit → Bool) → List Commit → List ℕ → List Commit × Option WalkError
push_parents store wanted stack [] = (stack, none)
push_parents store wanted stack (h ∷ hs) =
    pushed stack (get_commit store h) wanted (λ stack'. push_parents store wanted stack' hs)

abbrev pub given :
    Commit → List ℕ → List Commit × Option WalkError → PostIterator × Next Commit WalkError
given c seen (stack, none) = (record { stack = stack; seen = seen }, got c)
given c seen (stack, some e) = (record { stack = stack; seen = seen }, failed e)

-- The loop of Next over the stack, for the parents that the callback pushes.
unfoldable pub post_pop :
    List Commit
    → (Commit → Commit → Bool)
    → List ℕ
    → List Commit
    → PostIterator × Next Commit WalkError
post_pop store wanted seen [] = (record { stack = []; seen = seen }, ended)
post_pop store wanted seen (c ∷ stack) =
    let skipped = post_pop store wanted seen stack in
    if elem c.hash seen
    then skipped
    else given c (c.hash ∷ seen) (push_parents store (wanted c) stack c.parents)

unfoldable pub post_next : List Commit → PostIterator → PostIterator × Next Commit WalkError
post_next store w = post_pop store is_parent w.seen w.stack

unfoldable pub first_parent_next : List Commit → PostIterator → PostIterator × Next Commit WalkError
first_parent_next store w = post_pop store is_first_parent w.seen w.stack

abbrev pub post_iterator : List Commit → Iterator PostIterator Commit WalkError
post_iterator store = record { next = post_next store; close = λ w. w }

abbrev pub first_parent_iterator : List Commit → Iterator PostIterator Commit WalkError
first_parent_iterator store = record { next = first_parent_next store; close = λ w. w }
