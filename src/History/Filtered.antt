-- ===== src/History/Filtered.antt =====
-- plumbing/object/commit_walker_bfs_filtered.go: the walk with a filter and a limit.
use ai_experimental_search.Base.{
  ℕ, suc, ◌≡◌, refl, ap, ◌∙◌, Bool, true, false, ◌||◌, Option, none, some, List, [], ◌∷◌, ◌++◌,
  if◌then◌else◌, arith, Bool-cases, inl, inr, append-nil, append_assoc, length,
}
use ai_experimental_search.Base.Members.{elem}
use ai_experimental_search.Refs.Iter.{Next, got, ended, failed, Iterator}
use ai_experimental_search.Refs.Filter.{keep, filter_iterator, Yields, Yields-keep}
use ai_experimental_search.History.Graph.{
  Commit, WalkError, eof, object_not_found, is_reachable, get_commit, hashes, is_closed,
  get_commit-elem, all_elem, all_elem-first, all_elem-rest, is_closed-parents,
}
use ai_experimental_search.History.Parents.{
  new_commits, new_commits-elem, new_commits-AllStored, AllStored-append, hashes-append,
}
use ai_experimental_search.History.Worklist.{Step, at_end, AllStored, Visits, Step-Visits}
use ai_experimental_search.History.Worklist.Steps.{Step-skip, Step-take_unmarked}

-- filterCommitIter, less its two filters, which are arguments of Next.
pub record FilterCommitIter : Type 0 where
  pub visited : List ℕ
  pub queue : List Commit
  pub last_err : Option WalkError

unfoldable pub new_filter_commit_iter : Commit → FilterCommitIter
new_filter_commit_iter from = record { visited = []; queue = from ∷ []; last_err = none }

-- Close. The filters that it drops are not called again, since the queue is empty.
unfoldable pub close : FilterCommitIter → FilterCommitIter
close w = record w { visited = []; queue = [] }

abbrev as_next : WalkError → Next Commit WalkError
as_next eof = ended
as_next object_not_found = failed object_not_found
as_next is_reachable = failed is_reachable

-- close, and the return of its error.
unfoldable pub close_with : FilterCommitIter → WalkError → FilterCommitIter × Next Commit WalkError
unfolding close
close_with w e = (record (close w) { last_err = some e }, as_next e)

-- popNewFromQueue: the first commit that is not visited, and the queue behind it.
unfoldable pub pop_new_from_queue : List ℕ → List Commit → Option (Commit × List Commit)
pop_new_from_queue visited [] = none
pop_new_from_queue visited (first ∷ queue) =
    let rest = pop_new_from_queue visited queue in
    if elem first.hash visited then rest else some (first, queue)

abbrev found : FilterCommitIter → Option Commit → FilterCommitIter × Option WalkError
found w none = (w, some object_not_found)
found w (some c) = (record w { queue = w.queue ++ (c ∷ []) }, none)

abbrev or_error :
    FilterCommitIter × Option WalkError
    → (FilterCommitIter → FilterCommitIter × Option WalkError)
    → FilterCommitIter × Option WalkError
or_error (w, none) more = more w
or_error (w, some e) more = (w, some e)

unfoldable pub add_to_queue :
    List Commit → FilterCommitIter → List ℕ → FilterCommitIter × Option WalkError
add_to_queue store w [] = (w, none)
add_to_queue store w (h ∷ hs) =
    or_error (if elem h w.visited then (w, none) else found w (get_commit store h))
      (λ w'. add_to_queue store w' hs)

abbrev or_eof : Option WalkError → WalkError
or_eof none = eof
or_eof (some e) = e

abbrev given :
    Commit → FilterCommitIter × Option WalkError → FilterCommitIter × Next Commit WalkError
given c (w, none) = (w, got c)
given c (w, some e) = close_with w e

abbrev pub popped :
    List Commit
    → (Commit → Bool)
    → FilterCommitIter
    → Option (Commit × List Commit)
    → FilterCommitIter × Next Commit WalkError
popped store is_limit w none = close_with w (or_eof w.last_err)
popped store is_limit w (some (c, queue)) =
    let w' : FilterCommitIter = record w { visited = c.hash ∷ w.visited; queue = queue } in
    given c (if is_limit c then (w', none) else add_to_queue store w' c.parents)

-- A round of the loop of Next: the commit that is visited, valid or not.
unfoldable pub visit_next :
    List Commit → (Commit → Bool) → FilterCommitIter → FilterCommitIter × Next Commit WalkError
unfolding pop_new_from_queue add_to_queue close_with
visit_next store is_limit w = popped store is_limit w (pop_new_from_queue w.visited w.queue)

abbrev pub visiting : List Commit → (Commit → Bool) → Iterator FilterCommitIter Commit WalkError
visiting store is_limit = record { next = visit_next store is_limit; close = close }

-- Next goes on with its rounds until a commit is valid; the fuel bounds the rounds.
abbrev pub filter_commit_iterator :
    List Commit → (Commit → Bool) → (Commit → Bool) → ℕ → Iterator FilterCommitIter Commit WalkError
filter_commit_iterator store is_valid is_limit fuel =
    filter_iterator (visiting store is_limit) is_valid fuel

abbrev pub is_visited : FilterCommitIter → ℕ → Bool
is_visited w h = elem h w.visited

abbrev pub pending : FilterCommitIter → List ℕ
pending w = hashes w.queue

abbrev pub IsOpen : List Commit → FilterCommitIter → Type 0
IsOpen store w = AllStored store w.queue × (w.last_err ≡ none)

abbrev limited : (Commit → Bool) → Option Commit → List ℕ
limited is_limit none = []
limited is_limit (some c) = if is_limit c then [] else c.parents

-- The parents of the commit with a hash, unless the commit is a limit.
unfoldable pub parents_within : List Commit → (Commit → Bool) → ℕ → List ℕ
parents_within store is_limit h = limited is_limit (get_commit store h)

add_to_queue-new :
    (store : List Commit) (w : FilterCommitIter) (hs : List ℕ)
    → all_elem hs (hashes store) ≡ true
    → add_to_queue store w hs
      ≡ (record w { queue = w.queue ++ new_commits store (is_visited w) hs }, none)
unfolding add_to_queue new_commits
add_to_queue-new store w [] a = rw (append-nil w.queue) refl
add_to_queue-new store w (h ∷ hs) a = elim (Bool-cases (is_visited w h)) [
  | inl s ↦ rw s (add_to_queue-new store w hs (all_elem-rest h hs (hashes store) a))
  | inr s ↦
      let (c, is) = get_commit-elem store h (all_elem-first h hs (hashes store) a) in
      rw (s, is)
        (add_to_queue-new store (record w { queue = w.queue ++ (c ∷ []) }) hs
            (all_elem-rest h hs (hashes store) a)
          ∙ rw (append_assoc w.queue (c ∷ []) (new_commits store (is_visited w) hs)) refl)
]

module _ (store : List Commit) (whole : is_closed store ≡ true) (is_limit : Commit → Bool) where
  abbrev pub IsStep : FilterCommitIter → FilterCommitIter × Next Commit WalkError → Type 0
  IsStep w r = Step store (parents_within store is_limit) is_visited pending (IsOpen store) w r

  popped-Step :
      (w : FilterCommitIter) (c : Commit) (queue : List Commit)
      → w.last_err ≡ none
      → get_commit store c.hash ≡ some c
      → AllStored store queue
      → elem c.hash w.visited ≡ false
      → IsStep (record w { queue = c ∷ queue }) (popped store is_limit w (some (c, queue)))
  unfolding elem parents_within
  popped-Step w c queue no_err known stored free =
      let next : FilterCommitIter = record w { visited = c.hash ∷ w.visited; queue = queue } in
      elim (Bool-cases (is_limit c)) [
        | inl s ↦ rw s (
            Step-take_unmarked store (parents_within store is_limit) is_visited pending
              (IsOpen store) (record w { queue = c ∷ queue }) next c (hashes queue) []
              (rw (known, s) refl) known free (λ h. refl) (λ h. refl)
              (λ h. or_false (elem h (hashes queue))) (stored, no_err))
        | inr s ↦
            let new : List Commit = new_commits store (is_visited next) c.parents in
            let parents = is_closed-parents store c.hash c whole known in
            rw (s, add_to_queue-new store next c.parents parents)
              (Step-take_unmarked store (parents_within store is_limit) is_visited pending
                (IsOpen store) (record w { queue = c ∷ queue })
                (record next { queue = queue ++ new }) c (hashes queue) c.parents
                (rw (known, s) refl) known free (λ h. refl) (λ h. refl)
                (λ h.
                  hashes-append h queue new
                  ∙ ap (λ (b : Bool). elem h (hashes queue) || b)
                      (new_commits-elem store (is_visited next) c.parents parents h))
                (
                  AllStored-append store queue new stored
                      (new_commits-AllStored store (is_visited next) c.parents),
                  no_err,
                ))
      ]
    where
      or_false : (b : Bool) → b ≡ (b || false)
      or_false b = grind arith

  visit_next-Step :
      (w : FilterCommitIter) (queue : List Commit)
      → w.last_err ≡ none
      → AllStored store queue
      → IsStep
          (record w { queue = queue })
          (popped store is_limit w (pop_new_from_queue w.visited queue))
  unfolding elem pop_new_from_queue close_with
  visit_next-Step w [] no_err stored =
      rw no_err (at_end (record { visited = []; queue = []; last_err = some eof }) (λ h e. cc))
  visit_next-Step w (c ∷ queue) no_err (known, stored) = elim (Bool-cases (elem c.hash w.visited)) [
    | inl s ↦ rw s (
        Step-skip store (parents_within store is_limit) is_visited pending (IsOpen store)
          (record w { queue = c ∷ queue }) (record w { queue = queue }) c.hash (λ h. refl) s
          (λ h. refl) (popped store is_limit w (pop_new_from_queue w.visited queue))
          (visit_next-Step w queue no_err stored))
    | inr s ↦ rw s (popped-Step w c queue no_err known stored s)
  ]

  pub visiting-Step :
      (w : FilterCommitIter) → IsOpen store w → IsStep w (visit_next store is_limit w)
  unfolding visit_next
  visiting-Step w good = visit_next-Step w w.queue good.1 good.0

  pub visiting-Visits :
      (from : Commit)
      → get_commit store from.hash ≡ some from
      → (xs : List Commit) × Visits
          (visiting store is_limit)
          store
          (parents_within store is_limit)
          (λ h. false)
          (from.hash ∷ [])
          (new_filter_commit_iter from)
          xs
  unfolding new_filter_commit_iter elem
  visiting-Visits from known =
      Step-Visits (visiting store is_limit) store (parents_within store is_limit) is_visited pending
        (IsOpen store) visiting-Step (new_filter_commit_iter from) ((known, tt), refl)

  -- The walk from a stored commit, over a closed store, visits exactly the commits that can be reached from it
  -- over commits that are not limits, each one once, and gives those of them that are valid, in the order of
  -- the visits, and then io.EOF. As many rounds as there are commits, and one more, are enough for each Next.
  pub filter_commit_iterator-keep :
      (is_valid : Commit → Bool) (from : Commit)
      → get_commit store from.hash ≡ some from
      → (xs : List Commit) × Visits
          (visiting store is_limit)
          store
          (parents_within store is_limit)
          (λ h. false)
          (from.hash ∷ [])
          (new_filter_commit_iter from)
          xs
        × Yields
            (filter_commit_iterator store is_valid is_limit (suc (length store)))
            (new_filter_commit_iter from)
            (keep is_valid xs)
  filter_commit_iterator-keep is_valid from known =
      let (xs, v) = visiting-Visits from known in
      (
        xs,
        v,
        Yields-keep (visiting store is_limit) is_valid xs (new_filter_commit_iter from)
            (suc (length store)) (omega (arith, v.few)) v.yields,
      )
