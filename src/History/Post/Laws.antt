-- ===== src/History/Post/Laws.antt =====
-- plumbing/object/commit_walker.go: what the walks in post-order visit.
use ai_experimental_search.Base.{
  ℕ, take, ◌≡◌, refl, sym, ap, ◌∙◌, Bool, true, false, ◌||◌, ◌&&◌, none, some, List, [], ◌∷◌, ◌==◌,
  ==_iff, arith, Bool-cases, inl, inr,
}
use ai_experimental_search.Base.Members.{elem, or_right}
use ai_experimental_search.Refs.Iter.{Next}
use ai_experimental_search.History.Graph.{
  Commit, WalkError, get_commit, hashes, parents_of, is_closed, parents_of-commit, get_commit-elem,
  get_commit-hash, get_commit-stored, all_elem, all_elem-first, all_elem-rest, is_closed-parents,
}
use ai_experimental_search.History.Worklist.{Step, at_end, AllStored, Visits, Step-Visits}
use ai_experimental_search.History.Worklist.Steps.{Step-skip, Step-take}
use ai_experimental_search.History.Post.{
  PostIterator, new_commit_postorder_iter, first_is, is_first_parent, is_parent, push_parents,
  given, post_pop, post_next, first_parent_next, post_iterator, first_parent_iterator,
}

abbrev is_seen : PostIterator → ℕ → Bool
is_seen w h = elem h w.seen

abbrev pending : PostIterator → List ℕ
pending w = hashes w.stack

abbrev IsStoredStack : List Commit → PostIterator → Type 0
IsStoredStack store w = AllStored store w.stack

taken : (k s e w : Bool) → (k ≡ true → w ≡ true) → ((k || s) || (e && w)) ≡ (s || ((k || e) && w))
taken k s e w i = grind arith

passed : (k s e w : Bool) → (k ≡ true → w ≡ false) → (s || (e && w)) ≡ (s || ((k || e) && w))
passed k s e w i = grind arith

module _ (store : List Commit) (wanted : Commit → Bool) (wants : ℕ → Bool)
    (same : (p : Commit) → wanted p ≡ wants p.hash) where
  -- With all the hashes stored, the wanted ones are pushed.
  push_parents-all :
      (stack : List Commit) (hs : List ℕ)
      → all_elem hs (hashes store) ≡ true
      → AllStored store stack
      → (stack' : List Commit) × (push_parents store wanted stack hs ≡ (stack', none))
        × AllStored store stack'
        × ((h : ℕ) → elem h (hashes stack') ≡ (elem h (hashes stack) || (elem h hs && wants h)))
  unfolding push_parents elem
  push_parents-all stack [] a stored = (stack, refl, stored, λ h. or_false (elem h (hashes stack)))
    where
      or_false : (b : Bool) → b ≡ (b || false)
      or_false b = grind arith
  push_parents-all stack (k ∷ hs) a stored = elim (Bool-cases (wants k)) [
    | inl s ↦
        let (c, is) = get_commit-elem store k (all_elem-first k hs (hashes store) a) in
        let key = get_commit-hash store k c is in
        let (stack', does, stored', has) =
          push_parents-all (c ∷ stack) hs (all_elem-rest k hs (hashes store) a)
            (get_commit-stored store k c is, stored) in
        (
          stack',
          rw (is, same c, key, s) does,
          stored',
          λ h.
              has h
              ∙ rw key (
                  taken (k == h) (elem h (hashes stack)) (elem h hs) (wants h)
                    (λ q. ap wants (sym ((==_iff k h).0 q)) ∙ s)),
        )
    | inr s ↦
        let (c, is) = get_commit-elem store k (all_elem-first k hs (hashes store) a) in
        let key = get_commit-hash store k c is in
        let (stack', does, stored', has) =
          push_parents-all stack hs (all_elem-rest k hs (hashes store) a) stored in
        (
          stack',
          rw (is, same c, key, s) does,
          stored',
          λ h.
              has h
              ∙ passed (k == h) (elem h (hashes stack)) (elem h hs) (wants h)
                  (λ q. ap wants (sym ((==_iff k h).0 q)) ∙ s),
        )
  ]

module _ (store : List Commit) (whole : is_closed store ≡ true) (wanted : Commit → Commit → Bool)
    (wants : Commit → ℕ → Bool) (same : (c p : Commit) → wanted c p ≡ wants c p.hash)
    (succ : ℕ → List ℕ)
    (nexts : (c : Commit)
      → get_commit store c.hash ≡ some c
      → (h : ℕ) → elem h (succ c.hash) ≡ (elem h c.parents && wants c h)) where
  abbrev IsStep : PostIterator → PostIterator × Next Commit WalkError → Type 0
  IsStep w r = Step store succ is_seen pending (IsStoredStack store) w r

  post_visit-Step :
      (seen : List ℕ) (c : Commit) (stack : List Commit)
      → get_commit store c.hash ≡ some c
      → AllStored store stack
      → elem c.hash seen ≡ false
      → IsStep
          (record { stack = c ∷ stack; seen = seen })
          (given c (c.hash ∷ seen) (push_parents store (wanted c) stack c.parents))
  unfolding elem
  post_visit-Step seen c stack known stored free =
      let (stack', does, stored', has) =
        push_parents-all store (wanted c) (wants c) (same c) stack c.parents
          (is_closed-parents store c.hash c whole known) stored in
      rw does (
        Step-take store succ is_seen pending (IsStoredStack store)
          (record { stack = c ∷ stack; seen = seen })
          (record { stack = stack'; seen = c.hash ∷ seen }) c (hashes stack)
          (λ h. elem h c.parents && wants c h) known free (λ h. refl) (λ h. refl) has
          (λ h e. nexts c known h ∙ e)
          (λ h e.
            or_right (is_seen (record { stack = stack'; seen = c.hash ∷ seen }) h)
              (elem h c.parents && wants c h) (sym (nexts c known h) ∙ e))
          stored')

  post_pop-Step :
      (seen : List ℕ) (stack : List Commit)
      → AllStored store stack
      → IsStep (record { stack = stack; seen = seen }) (post_pop store wanted seen stack)
  unfolding post_pop elem
  post_pop-Step seen [] stored = at_end (record { stack = []; seen = seen }) (λ h e. cc)
  post_pop-Step seen (c ∷ stack) (known, stored) = elim (Bool-cases (elem c.hash seen)) [
    | inl s ↦ rw s (
        Step-skip store succ is_seen pending (IsStoredStack store)
          (record { stack = c ∷ stack; seen = seen }) (record { stack = stack; seen = seen }) c.hash
          (λ h. refl) s (λ h. refl) (post_pop store wanted seen stack)
          (post_pop-Step seen stack stored))
    | inr s ↦ rw s (post_visit-Step seen c stack known stored s)
  ]

-- The first parent of the commit with a hash.
unfoldable pub first_parent_of : List Commit → ℕ → List ℕ
first_parent_of store h = take 1 (parents_of store h)

module _ (store : List Commit) (whole : is_closed store ≡ true) where
  -- The walk from a stored commit, over a closed store, gives exactly the commits that can be reached from it
  -- over parents that are not to be ignored, each one once, and ends; it gives no more commits than there are.
  pub post_iterator-Visits :
      (c : Commit) (ignore : List ℕ)
      → get_commit store c.hash ≡ some c
      → (xs : List Commit) × Visits
          (post_iterator store)
          store
          (parents_of store)
          (λ h. elem h ignore)
          (c.hash ∷ [])
          (new_commit_postorder_iter c ignore)
          xs
  unfolding post_next new_commit_postorder_iter is_parent
  post_iterator-Visits c ignore known =
      Step-Visits (post_iterator store) store (parents_of store) is_seen pending
        (IsStoredStack store)
        (λ w stored.
          post_pop-Step store whole is_parent (λ d h. true) (λ d p. refl) (parents_of store)
            (λ d is h. ap (elem h) (parents_of-commit store d is) ∙ and_true (elem h d.parents))
            w.seen w.stack stored)
        (new_commit_postorder_iter c ignore) (known, tt)
    where
      and_true : (b : Bool) → b ≡ (b && true)
      and_true b = grind arith

  first_is-elem : (h : ℕ) (hs : List ℕ) → elem h (take 1 hs) ≡ (elem h hs && first_is h hs)
  unfolding elem
  first_is-elem h [] = refl
  first_is-elem h (k ∷ hs) = ground (arith)

  -- The walk over the first parents from a stored commit, over a closed store, gives exactly the commits on
  -- the chain of first parents up to a commit that is to be ignored, each one once, and ends.
  pub first_parent_iterator-Visits :
      (c : Commit) (ignore : List ℕ)
      → get_commit store c.hash ≡ some c
      → (xs : List Commit) × Visits
          (first_parent_iterator store)
          store
          (first_parent_of store)
          (λ h. elem h ignore)
          (c.hash ∷ [])
          (new_commit_postorder_iter c ignore)
          xs
  unfolding first_parent_next new_commit_postorder_iter is_first_parent first_parent_of
  first_parent_iterator-Visits c ignore known =
      Step-Visits (first_parent_iterator store) store (first_parent_of store) is_seen pending
        (IsStoredStack store)
        (λ w stored.
          post_pop-Step store whole is_first_parent (λ d h. first_is h d.parents) (λ d p. refl)
            (first_parent_of store)
            (λ d is h.
              ap (λ (ps : List ℕ). elem h (take 1 ps)) (parents_of-commit store d is)
              ∙ first_is-elem h d.parents)
            w.seen w.stack stored)
        (new_commit_postorder_iter c ignore) (known, tt)
