-- ===== src/History/Bfs.antt =====
-- plumbing/object/commit_walker_bfs.go: the walk in breadth-first order.
use ai_experimental_search.Base.{
  ℕ, ◌≡◌, refl, ap, ◌∙◌, Bool, true, false, ◌||◌, Option, none, some, List, [], ◌∷◌, ◌++◌,
  if◌then◌else◌, ◌==◌, ==_iff, Option-cases, Bool-cases, inl, inr, append-nil, append_assoc,
}
use ai_experimental_search.Base.Members.{elem, or_assoc}
use ai_experimental_search.Refs.Iter.{Next, got, ended, failed, Iterator}
use ai_experimental_search.History.Graph.{
  Commit, WalkError, object_not_found, get_commit, hashes, parents_of, is_closed, parents_of-commit,
  get_commit-elem, all_elem, all_elem-first, all_elem-rest, is_closed-parents,
}
use ai_experimental_search.History.Parents.{
  new_commits, new_commits-elem, new_commits-AllStored, AllStored-append, hashes-append,
}
use ai_experimental_search.History.Worklist.{Step, at_end, AllStored, Visits, Step-Visits}
use ai_experimental_search.History.Worklist.Steps.{Step-skip, Step-take_unmarked}

-- bfsCommitIterator. The maps hold true only; they are the sets of their keys.
pub record BfsIterator : Type 0 where
  pub seen_external : List ℕ
  pub seen : List ℕ
  pub queue : List Commit

unfoldable pub new_commit_iter_bfs : Commit → List ℕ → List ℕ → BfsIterator
new_commit_iter_bfs c seen_external ignore = record {
  seen_external = seen_external;
  seen = ignore;
  queue = c ∷ [];
}

abbrev pub is_seen : BfsIterator → ℕ → Bool
is_seen w h = elem h w.seen || elem h w.seen_external

abbrev found : BfsIterator → Option Commit → BfsIterator × Option WalkError
found w none = (w, some object_not_found)
found w (some c) = (record w { queue = w.queue ++ (c ∷ []) }, none)

unfoldable pub append_hash : List Commit → BfsIterator → ℕ → BfsIterator × Option WalkError
append_hash store w h = if is_seen w h then (w, none) else found w (get_commit store h)

abbrev or_error :
    BfsIterator × Option WalkError
    → (BfsIterator → BfsIterator × Option WalkError)
    → BfsIterator × Option WalkError
or_error (w, none) more = more w
or_error (w, some e) more = (w, some e)

-- The loop over ParentHashes.
unfoldable pub append_hashes : List Commit → BfsIterator → List ℕ → BfsIterator × Option WalkError
append_hashes store w [] = (w, none)
append_hashes store w (h ∷ hs) = or_error (append_hash store w h) (λ w'. append_hashes store w' hs)

abbrev given : Commit → BfsIterator × Option WalkError → BfsIterator × Next Commit WalkError
given c (w, none) = (w, got c)
given c (w, some e) = (w, failed e)

-- The loop of Next over the queue.
unfoldable pub bfs_pop :
    List Commit → BfsIterator → List Commit → BfsIterator × Next Commit WalkError
bfs_pop store w [] = (record w { queue = [] }, ended)
bfs_pop store w (c ∷ queue) =
    let skipped = bfs_pop store w queue in
    if is_seen w c.hash
    then skipped
    else given c (
        append_hashes store
          (record { seen_external = w.seen_external; seen = c.hash ∷ w.seen; queue = queue })
          c.parents)

unfoldable pub bfs_next : List Commit → BfsIterator → BfsIterator × Next Commit WalkError
bfs_next store w = bfs_pop store w w.queue

abbrev pub bfs_iterator : List Commit → Iterator BfsIterator Commit WalkError
bfs_iterator store = record { next = bfs_next store; close = λ w. w }

abbrev pub pending : BfsIterator → List ℕ
pending w = hashes w.queue

abbrev IsStoredQueue : List Commit → BfsIterator → Type 0
IsStoredQueue store w = AllStored store w.queue

-- With every parent stored, the loop adds the parents that are not seen.
append_hashes-new :
    (store : List Commit) (w : BfsIterator) (hs : List ℕ)
    → all_elem hs (hashes store) ≡ true
    → append_hashes store w hs
      ≡ (record w { queue = w.queue ++ new_commits store (is_seen w) hs }, none)
unfolding append_hashes append_hash new_commits
append_hashes-new store w [] a = rw (append-nil w.queue) refl
append_hashes-new store w (h ∷ hs) a = elim (Bool-cases (is_seen w h)) [
  | inl s ↦ rw s (append_hashes-new store w hs (all_elem-rest h hs (hashes store) a))
  | inr s ↦
      let (c, is) = get_commit-elem store h (all_elem-first h hs (hashes store) a) in
      rw (s, is)
        (append_hashes-new store (record w { queue = w.queue ++ (c ∷ []) }) hs
            (all_elem-rest h hs (hashes store) a)
          ∙ rw (append_assoc w.queue (c ∷ []) (new_commits store (is_seen w) hs)) refl)
]

module _ (store : List Commit) (whole : is_closed store ≡ true) where
  abbrev IsStep : BfsIterator → BfsIterator × Next Commit WalkError → Type 0
  IsStep w r = Step store (parents_of store) is_seen pending (IsStoredQueue store) w r

  bfs_visit-Step :
      (w : BfsIterator) (c : Commit) (queue : List Commit)
      → get_commit store c.hash ≡ some c
      → AllStored store queue
      → is_seen w c.hash ≡ false
      → IsStep
          (record w { queue = c ∷ queue })
          (given c (
            append_hashes store
              (record { seen_external = w.seen_external; seen = c.hash ∷ w.seen; queue = queue })
              c.parents))
  unfolding elem
  bfs_visit-Step w c queue known stored free =
      let next : BfsIterator = record {
        seen_external = w.seen_external;
        seen = c.hash ∷ w.seen;
        queue = queue;
      } in
      let parents = is_closed-parents store c.hash c whole known in
      let new : List Commit = new_commits store (is_seen next) c.parents in
      rw (append_hashes-new store next c.parents parents) (
        Step-take_unmarked store (parents_of store) is_seen pending (IsStoredQueue store)
          (record w { queue = c ∷ queue }) (record next { queue = queue ++ new }) c (hashes queue)
          c.parents (parents_of-commit store c known) known free
          (λ h. or_assoc (c.hash == h) (elem h w.seen) (elem h w.seen_external)) (λ h. refl)
          (λ h.
            hashes-append h queue new
            ∙ ap (λ (b : Bool). elem h (hashes queue) || b)
                (new_commits-elem store (is_seen next) c.parents parents h))
          (AllStored-append store queue new stored
            (new_commits-AllStored store (is_seen next) c.parents)))

  bfs_pop-Step :
      (w : BfsIterator) (queue : List Commit)
      → AllStored store queue
      → IsStep (record w { queue = queue }) (bfs_pop store w queue)
  unfolding bfs_pop elem
  bfs_pop-Step w [] stored = at_end (record w { queue = [] }) (λ h e. cc)
  bfs_pop-Step w (c ∷ queue) (known, stored) = elim (Bool-cases (is_seen w c.hash)) [
    | inl s ↦ rw s (
        Step-skip store (parents_of store) is_seen pending (IsStoredQueue store)
          (record w { queue = c ∷ queue }) (record w { queue = queue }) c.hash (λ h. refl) s
          (λ h. refl) (bfs_pop store w queue) (bfs_pop-Step w queue stored))
    | inr s ↦ rw s (bfs_visit-Step w c queue known stored s)
  ]

  -- The walk from a stored commit, over a closed store, gives exactly the commits that can be reached from it
  -- over parents that are not to be ignored and were not seen elsewhere, each one once, and ends; it gives
  -- no more commits than there are.
  pub bfs_iterator-Visits :
      (c : Commit) (seen_external ignore : List ℕ)
      → get_commit store c.hash ≡ some c
      → (xs : List Commit) × Visits
          (bfs_iterator store)
          store
          (parents_of store)
          (λ h. elem h ignore || elem h seen_external)
          (c.hash ∷ [])
          (new_commit_iter_bfs c seen_external ignore)
          xs
  unfolding bfs_next new_commit_iter_bfs
  bfs_iterator-Visits c seen_external ignore known =
      Step-Visits (bfs_iterator store) store (parents_of store) is_seen pending
        (IsStoredQueue store) (λ w stored. bfs_pop-Step w w.queue stored)
        (new_commit_iter_bfs c seen_external ignore) (known, tt)

append_hashes-missing :
    (store : List Commit) (w : BfsIterator) (hs : List ℕ) (p : ℕ)
    → elem p hs ≡ true
    → is_seen w p ≡ false
    → get_commit store p ≡ none
    → (append_hashes store w hs).1 ≡ some object_not_found
unfolding append_hashes append_hash elem
append_hashes-missing store w [] p e n m = cc
append_hashes-missing store w (h ∷ hs) p e n m = elim (Bool-cases (h == p)) [
  | inl q ↦
      let is = (==_iff h p).0 q in rw (ap (is_seen w) is ∙ n, ap (get_commit store) is ∙ m) refl
  | inr q ↦
      let rest : elem p hs ≡ true = rw q at e in
      elim (Bool-cases (is_seen w h)) [
        | inl s ↦ rw s (append_hashes-missing store w hs p rest n m)
        | inr s ↦ elim (Option-cases (get_commit store h)) [
          | inl o ↦ rw (s, o) refl
          | inr (c, o) ↦
              rw (s, o)
                (append_hashes-missing store (record w { queue = w.queue ++ (c ∷ []) }) hs p rest n
                  m)
        ]
      ]
]

given-error :
    (c : Commit) (r : BfsIterator × Option WalkError) (e : WalkError)
    → r.1 ≡ some e
    → (given c r).1 ≡ failed e
given-error c (w, none) e q = cc
given-error c (w, some x) e q = let is : x ≡ e = cc in rw is refl

-- When the next commit of the queue is new and one of its parents is new, another one and not in the store,
-- Next gives the error that an object is not found, and the commit itself is not given.
pub bfs_next-missing :
    (store : List Commit) (w : BfsIterator) (c : Commit) (queue : List Commit) (p : ℕ)
    → w.queue ≡ c ∷ queue
    → is_seen w c.hash ≡ false
    → elem p c.parents ≡ true
    → (c.hash == p || is_seen w p) ≡ false
    → get_commit store p ≡ none
    → (bfs_next store w).1 ≡ failed object_not_found
unfolding bfs_next bfs_pop elem
bfs_next-missing store w c queue p q free parent other m =
    let next : BfsIterator = record {
      seen_external = w.seen_external;
      seen = c.hash ∷ w.seen;
      queue = queue;
    } in
    let unseen = or_assoc (c.hash == p) (elem p w.seen) (elem p w.seen_external) ∙ other in
    rw (q, free)
      (given-error c (append_hashes store next c.parents) object_not_found
        (append_hashes-missing store next c.parents p parent unseen m))
