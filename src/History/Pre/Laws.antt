-- ===== src/History/Pre/Laws.antt =====
-- plumbing/object/commit_walker.go: what the walk in pre-order visits.
use ai_experimental_search.Base.{
  ℕ, ◌≡◌, refl, sym, ap, ◌∙◌, Bool, true, false, not, ◌||◌, ◌&&◌, Option, none, some, List, [], ◌∷◌,
  ◌++◌, ◌==◌, ==_iff, arith, Bool-cases, inl, inr,
}
use ai_experimental_search.Base.Members.{elem, elem-append, or_assoc}
use ai_experimental_search.Refs.Iter.{Next}
use ai_experimental_search.Refs.Filter.{keep}
use ai_experimental_search.History.Graph.{
  Commit, WalkError, get_commit, hashes, parents_of, is_closed, parents_of-commit, get_commit-elem,
  get_commit-hash, get_commit-stored, all_elem, all_elem-first, all_elem-rest, is_closed-parents,
}
use ai_experimental_search.History.Worklist.{Step, at_end, Visits, Step-Visits}
use ai_experimental_search.History.Worklist.Steps.{Step-skip, Step-take, Step-same}
use ai_experimental_search.History.Pre.{
  PreIterator, new_commit_preorder_iter, filtered_parent_iter, is_seen, pushed, pre_visit, top_next,
  stack_next, from_start, pre_next, pre_iterator,
}

-- The hashes on a stack.
unfoldable on_stack : List (List ℕ) → List ℕ
on_stack [] = []
on_stack (top ∷ below) = top ++ on_stack below

abbrev start_hash : Option Commit → List ℕ
start_hash none = []
start_hash (some c) = c.hash ∷ []

abbrev pending : PreIterator → List ℕ
pending w = start_hash w.start ++ on_stack w.stack

abbrev AllKnown : List Commit → List (List ℕ) → Type 0
AllKnown store [] = Unit
AllKnown store (hs ∷ stack) = (all_elem hs (hashes store) ≡ true) × AllKnown store stack

abbrev IsStored : List Commit → Option Commit → Type 0
IsStored store none = Unit
IsStored store (some c) = get_commit store c.hash ≡ some c

abbrev IsStoredWalk : List Commit → PreIterator → Type 0
IsStoredWalk store w = IsStored store w.start × AllKnown store w.stack

elem-keep : (test : ℕ → Bool) (hs : List ℕ) (h : ℕ) → elem h (keep test hs) ≡ (elem h hs && test h)
unfolding elem keep
elem-keep test [] h = refl
elem-keep test (k ∷ hs) h = elim (Bool-cases (test k)) [
  | inl s ↦ rw s (
      ap (λ (b : Bool). k == h || b) (elem-keep test hs h)
      ∙ taken (k == h) (elem h hs) (test h) (λ q. ap test (sym ((==_iff k h).0 q)) ∙ s))
  | inr s ↦ rw s (
      elem-keep test hs h
      ∙ passed (k == h) (elem h hs) (test h) (λ q. ap test (sym ((==_iff k h).0 q)) ∙ s))
]
  where
    taken : (k e w : Bool) → (k ≡ true → w ≡ true) → (k || (e && w)) ≡ ((k || e) && w)
    taken k e w i = grind arith

    passed : (k e w : Bool) → (k ≡ true → w ≡ false) → (e && w) ≡ ((k || e) && w)
    passed k e w i = grind arith

all_elem-keep :
    (test : ℕ → Bool) (hs known : List ℕ)
    → all_elem hs known ≡ true
    → all_elem (keep test hs) known ≡ true
unfolding all_elem keep
all_elem-keep test [] known a = refl
all_elem-keep test (h ∷ hs) known a = elim (Bool-cases (test h)) [
  | inl s ↦
      rw (s, all_elem-first h hs known a) (all_elem-keep test hs known (all_elem-rest h hs known a))
  | inr s ↦ rw s (all_elem-keep test hs known (all_elem-rest h hs known a))
]

pushed-elem :
    (test : ℕ → Bool) (ps : List ℕ) (stack : List (List ℕ)) (h : ℕ)
    → elem h (on_stack (pushed ps (keep test ps) stack))
      ≡ (elem h (on_stack stack) || (elem h ps && test h))
unfolding elem on_stack
pushed-elem test [] stack h = or_false (elem h (on_stack stack))
  where
    or_false : (b : Bool) → b ≡ (b || false)
    or_false b = grind arith
pushed-elem test (p ∷ ps) stack h =
    elem-append h (keep test (p ∷ ps)) (on_stack stack)
    ∙ ap (λ (b : Bool). b || elem h (on_stack stack)) (elem-keep test (p ∷ ps) h)
    ∙ or_comm (elem h (p ∷ ps) && test h) (elem h (on_stack stack))
  where
    or_comm : (a b : Bool) → (a || b) ≡ (b || a)
    or_comm a b = grind arith

pushed-AllKnown :
    (store : List Commit) (test : ℕ → Bool) (ps : List ℕ) (stack : List (List ℕ))
    → all_elem ps (hashes store) ≡ true
    → AllKnown store stack
    → AllKnown store (pushed ps (keep test ps) stack)
pushed-AllKnown store test [] stack a stored = stored
pushed-AllKnown store test (p ∷ ps) stack a stored =
    (all_elem-keep test (p ∷ ps) (hashes store) a, stored)

left_of : (a b : Bool) → (a && b) ≡ true → a ≡ true
left_of a b e = grind arith

either : (m a x : Bool) → a ≡ true → ((m || x) || (a && not m)) ≡ true
either m a x e = grind arith

module _ (store : List Commit) (whole : is_closed store ≡ true) where
  abbrev IsStep : PreIterator → PreIterator × Next Commit WalkError → Type 0
  IsStep w r = Step store (parents_of store) is_seen pending (IsStoredWalk store) w r

  -- `w` waits for the commit and for the stack.
  pre_visit-Step :
      (i w : PreIterator) (c : Commit) (stack : List (List ℕ))
      → ((h : ℕ) → is_seen i h ≡ is_seen w h)
      → ((h : ℕ) → elem h (pending i) ≡ (c.hash == h || elem h (on_stack stack)))
      → get_commit store c.hash ≡ some c
      → AllKnown store stack
      → is_seen w c.hash ≡ false
      → IsStep i (pre_visit w stack c)
  unfolding pre_visit elem filtered_parent_iter
  pre_visit-Step i w c stack same waits known stored free =
      let parents = is_closed-parents store c.hash c whole known in
      let new : ℕ → Bool = λ h. elem h c.parents && not (elem h (c.hash ∷ w.seen)) in
      Step-take store (parents_of store) is_seen pending (IsStoredWalk store) i
        (pre_visit w stack c).0 c (on_stack stack) new known (same c.hash ∙ free)
        (λ h.
          or_assoc (c.hash == h) (elem h w.seen) (elem h w.seen_external)
          ∙ ap (λ (b : Bool). c.hash == h || b) (sym (same h)))
        waits (pushed-elem (λ h. not (elem h (c.hash ∷ w.seen))) c.parents stack)
        (λ h e.
          ap (elem h) (parents_of-commit store c known)
          ∙ left_of (elem h c.parents) (not (elem h (c.hash ∷ w.seen))) e)
        (λ h e.
          either (elem h (c.hash ∷ w.seen)) (elem h c.parents) (elem h w.seen_external)
            (ap (elem h) (sym (parents_of-commit store c known)) ∙ e))
        (
          tt,
          pushed-AllKnown store (λ h. not (elem h (c.hash ∷ w.seen))) c.parents stack parents
              stored,
        )

  top_next-Step :
      (w : PreIterator) (below : List (List ℕ)) (popped : PreIterator × Next Commit WalkError)
      → AllKnown store below
      → IsStep (record w { stack = below; start = none }) popped
      → (hs : List ℕ) → all_elem hs (hashes store) ≡ true
      → IsStep (record w { stack = hs ∷ below; start = none }) (top_next store w hs below popped)
  unfolding top_next elem on_stack
  top_next-Step w below popped stored s [] a =
      Step-same store (parents_of store) is_seen pending (IsStoredWalk store)
        (record w { stack = [] ∷ below; start = none }) (record w { stack = below; start = none })
        (λ h. refl) (λ h. refl) popped s
  top_next-Step w below popped stored s (h ∷ hs) a =
      let (c, is) = get_commit-elem store h (all_elem-first h hs (hashes store) a) in
      let key = get_commit-hash store h c is in
      let known = get_commit-stored store h c is in
      let rest = all_elem-rest h hs (hashes store) a in
      let later = top_next-Step w below popped stored s hs rest in
      elim (Bool-cases (is_seen w c.hash)) [
        | inl q ↦
            rw (is, q)
              (Step-skip store (parents_of store) is_seen pending (IsStoredWalk store)
                (record w { stack = (h ∷ hs) ∷ below; start = none })
                (record w { stack = hs ∷ below; start = none }) h (λ k. refl)
                (ap (is_seen w) (sym key) ∙ q) (λ k. refl) (top_next store w hs below popped) later)
        | inr q ↦
            rw (is, q)
              (pre_visit-Step (record w { stack = (h ∷ hs) ∷ below; start = none }) w c (hs ∷ below)
                (λ k. refl) (λ k. ap (λ (x : ℕ). x == k || elem k (hs ++ on_stack below)) (sym key))
                known (rest, stored) q)
      ]

  stack_next-Step :
      (w : PreIterator) (stack : List (List ℕ))
      → AllKnown store stack
      → IsStep (record w { stack = stack; start = none }) (stack_next store w stack)
  unfolding stack_next elem on_stack
  stack_next-Step w [] stored = at_end (record w { stack = []; start = none }) (λ h e. cc)
  stack_next-Step w (top ∷ below) (known, stored) =
      top_next-Step w below (stack_next store w below) stored (stack_next-Step w below stored) top
        known

  from_start-Step :
      (w : PreIterator) (start : Option Commit)
      → IsStored store start
      → AllKnown store w.stack
      → IsStep (record w { start = start }) (from_start store w start)
  unfolding elem
  from_start-Step w none known stored = stack_next-Step w w.stack stored
  from_start-Step w (some c) known stored = elim (Bool-cases (is_seen w c.hash)) [
    | inl q ↦ rw q (
        Step-skip store (parents_of store) is_seen pending (IsStoredWalk store)
          (record w { start = some c }) (record w { start = none }) c.hash (λ k. refl) q (λ k. refl)
          (stack_next store w w.stack) (stack_next-Step w w.stack stored))
    | inr q ↦ rw q (
        pre_visit-Step (record w { start = some c }) w c w.stack (λ k. refl) (λ k. refl) known
          stored q)
  ]

  -- The walk from a stored commit, over a closed store, gives exactly the commits that can be reached from it
  -- over parents that are not to be ignored and were not seen elsewhere, each one once, and ends; it gives
  -- no more commits than there are.
  pub pre_iterator-Visits :
      (c : Commit) (seen_external ignore : List ℕ)
      → get_commit store c.hash ≡ some c
      → (xs : List Commit) × Visits
          (pre_iterator store)
          store
          (parents_of store)
          (λ h. elem h ignore || elem h seen_external)
          (c.hash ∷ [])
          (new_commit_preorder_iter c seen_external ignore)
          xs
  unfolding pre_next new_commit_preorder_iter on_stack
  pre_iterator-Visits c seen_external ignore known =
      Step-Visits (pre_iterator store) store (parents_of store) is_seen pending (IsStoredWalk store)
        (λ w stored. from_start-Step w w.start stored.0 stored.1)
        (new_commit_preorder_iter c seen_external ignore) (known, tt)
