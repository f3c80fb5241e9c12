-- ===== src/History/All.antt =====
-- plumbing/object/commit_walker.go: the commits of all references, in one path.
pub mod Laws
use ai_experimental_search.Base.{
  ℕ, zero, suc, ◌≡◌, refl, sym, ap, ◌∙◌, Bool, true, false, ◌||◌, Option, none, some, List, [], ◌∷◌,
  ◌++◌, if◌then◌else◌, ◌==◌, ==_iff, ==_refl, arith, Bool-cases, Option-cases, inl, inr,
}
use ai_experimental_search.Base.Members.{elem, NoRepeats, or-cases, or_left, or_right, or_assoc}
use ai_experimental_search.Refs.Iter.{Next, got, ended, failed, Iterator}
use ai_experimental_search.Refs.Filter.{Yields}
use ai_experimental_search.History.Graph.{Commit, WalkError, get_commit, get_commit-stored, hashes}
use ai_experimental_search.History.Parents.{hashes-append}

-- The commits of the path are the keys of the map commitsLookup, so the path stands for both.
unfoldable pub insert_before : List Commit → List Commit → ℕ → List Commit
insert_before [] new parent = []
insert_before (c ∷ path) new parent =
    let rest = insert_before path new parent in
    if c.hash == parent then new ++ (c ∷ path) else c ∷ rest

abbrev pub inserted : List Commit → List Commit × Option ℕ → List Commit
inserted path (new, none) = path ++ new
inserted path (new, some parent) = insert_before path new parent

module _ {I : Type 0} (it : Iterator I Commit WalkError) (start : Commit → I) where
  abbrev pub collected :
      List ℕ → (I → List Commit × Option ℕ) → I × Next Commit WalkError → List Commit × Option ℕ
  collected path more (i, ended) = ([], none)
  collected path more (i, failed e) = ([], none)
  collected path more (i, got c) =
      let (new, parent) = more i in
      if elem c.hash path then ([], some c.hash) else (c ∷ new, parent)

  -- The loop that collects the commits in front of the first one that the path has, and this one.
  unfoldable pub collect : List ℕ → ℕ → I → List Commit × Option ℕ
  collect path zero i = ([], none)
  collect path (suc fuel) i = collected path (λ i'. collect path fuel i') (it.next i)

  abbrev pub with_commit : ℕ → List Commit → Option Commit → List Commit
  with_commit fuel path none = path
  with_commit fuel path (some c) = inserted path (collect (hashes path) fuel (start c))

  unfoldable pub add_reference : List Commit → ℕ → List Commit → ℕ → List Commit
  unfolding collect
  add_reference store fuel path h =
      let added = with_commit fuel path (get_commit store h) in
      if elem h (hashes path) then path else added

  -- NewCommitAllIter, for the hashes of the resolved HEAD and of the references in turn.
  unfoldable pub new_commit_all_iter : List Commit → ℕ → List Commit → List ℕ → List Commit
  unfolding add_reference
  new_commit_all_iter store fuel path [] = path
  new_commit_all_iter store fuel path (h ∷ refs) =
      new_commit_all_iter store fuel (add_reference store fuel path h) refs
