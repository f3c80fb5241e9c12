-- ===== src/History/Worklist/Steps.antt =====
-- plumbing/object: how a Next of an iterator over a history is shown to be a step of a walk.
use ai_experimental_search.Base.{
  ℕ, ◌≡◌, refl, sym, ap, ◌∙◌, Bool, true, false, ◌||◌, ◌&&◌, not, some, List, ◌==◌, ==_iff, ==_refl,
  arith, Bool-cases, inl, inr,
}
use ai_experimental_search.Base.Members.{elem, or-cases, or_left, or_right}
use ai_experimental_search.Refs.Iter.{Next, got}
use ai_experimental_search.History.Graph.{Commit, get_commit}
use ai_experimental_search.History.Worklist.{Step, at_end, at_commit}

module _ {I E : Type 0} (store : List Commit) (succ : ℕ → List ℕ) (marked : I → ℕ → Bool)
    (pending : I → List ℕ) (IsValid : I → Type 0) where
  -- A pending hash that is marked may be passed over.
  pub Step-skip :
      (i j : I) (k : ℕ)
      → ((h : ℕ) → marked i h ≡ marked j h)
      → marked i k ≡ true
      → ((h : ℕ) → elem h (pending i) ≡ (k == h || elem h (pending j)))
      → (r : I × Next Commit E) → Step store succ marked pending IsValid j r
      → Step store succ marked pending IsValid i r
  Step-skip i j k same is_marked waits r s = skip_at r s
    where
      skipped : (h : ℕ) → k ≡ h → marked i h ≡ true
      skipped h q = ap (marked i) (sym q) ∙ is_marked

      covered_still :
          (i' : I) (c : Commit)
          → ((h : ℕ) → marked i' h ≡ (c.hash == h || marked j h))
          → ((h : ℕ)
              → (elem h (pending j) || elem h (succ c.hash)) ≡ true
              → (marked i' h || elem h (pending i')) ≡ true)
          → (h : ℕ) → (elem h (pending i) || elem h (succ c.hash)) ≡ true
          → (marked i' h || elem h (pending i')) ≡ true
      covered_still i' c grows covered h e = elim (Bool-cases (k == h)) [
        | inl q ↦ or_left (marked i' h) (elem h (pending i')) (
            grows h
            ∙ or_right (c.hash == h) (marked j h) (sym (same h) ∙ skipped h ((==_iff k h).0 q)))
        | inr q ↦
            let here' : elem h (pending i) ≡ elem h (pending j) = waits h ∙ rw q refl in
            covered h (ap (λ (b : Bool). b || elem h (succ c.hash)) (sym here') ∙ e)
      ]

      skip_at :
          (r : I × Next Commit E)
          → Step store succ marked pending IsValid j r
          → Step store succ marked pending IsValid i r
      skip_at r (at_end i' all) = at_end i' (λ h e.
          elim (or-cases (k == h) (elem h (pending j)) (sym (waits h) ∙ e)) [
            | inl q ↦ skipped h ((==_iff k h).0 q)
            | inr p ↦ same h ∙ all h p
          ])
      skip_at r (at_commit i' c known free waited grows covered only valid) =
          at_commit i' c known (same c.hash ∙ free)
            (waits c.hash ∙ or_right (k == c.hash) (elem c.hash (pending j)) waited)
            (λ h. grows h ∙ ap (λ (b : Bool). c.hash == h || b) (sym (same h)))
            (λ h e. covered_still i' c grows covered h e) (λ h e. ground (arith, only h e, waits h))
            valid

  -- The same holds from a state with the same marks and the same pending hashes.
  pub Step-same :
      (i j : I)
      → ((h : ℕ) → marked i h ≡ marked j h)
      → ((h : ℕ) → elem h (pending i) ≡ elem h (pending j))
      → (r : I × Next Commit E) → Step store succ marked pending IsValid j r
      → Step store succ marked pending IsValid i r
  Step-same i j same waits r (at_end i' all) = at_end i' (λ h e. same h ∙ all h (sym (waits h) ∙ e))
  Step-same i j same waits r (at_commit i' c known free waited grows covered only valid) =
      at_commit i' c known (same c.hash ∙ free) (waits c.hash ∙ waited)
        (λ h. grows h ∙ ap (λ (b : Bool). c.hash == h || b) (sym (same h)))
        (λ h e. covered h (ap (λ (b : Bool). b || elem h (succ c.hash)) (sym (waits h)) ∙ e))
        (λ h e. ap (λ (b : Bool). b || elem h (succ c.hash)) (waits h) ∙ only h e) valid

  -- A commit is taken from what is pending, and successors that cover all its unmarked ones are added.
  pub Step-take :
      (i i' : I) (c : Commit) (rest : List ℕ) (new : ℕ → Bool)
      → get_commit store c.hash ≡ some c
      → marked i c.hash ≡ false
      → ((h : ℕ) → marked i' h ≡ (c.hash == h || marked i h))
      → ((h : ℕ) → elem h (pending i) ≡ (c.hash == h || elem h rest))
      → ((h : ℕ) → elem h (pending i') ≡ (elem h rest || new h))
      → ((h : ℕ) → new h ≡ true → elem h (succ c.hash) ≡ true)
      → ((h : ℕ) → elem h (succ c.hash) ≡ true → (marked i' h || new h) ≡ true)
      → IsValid i'
      → Step {E = E} store succ marked pending IsValid i (i', got c)
  Step-take i i' c rest new known free grows waits adds succ_only succ_all valid =
      at_commit i' c known free
        (waits c.hash ∙ or_left (c.hash == c.hash) (elem c.hash rest) (==_refl c.hash)) grows
        (λ h e.
          covered_by (c.hash == h) (marked i h) (elem h rest) (new h) (elem h (succ c.hash))
            (marked i' h) (elem h (pending i)) (elem h (pending i')) (grows h) (waits h) (adds h)
            (succ_all h) e)
        (λ h e.
          only_by (elem h rest) (new h) (elem h (succ c.hash)) (c.hash == h) (elem h (pending i))
            (elem h (pending i')) (waits h) (adds h) (succ_only h) e)
        valid
    where
      covered_by :
          (same old later add next now was will : Bool)
          → now ≡ (same || old)
          → was ≡ (same || later)
          → will ≡ (later || add)
          → (next ≡ true → (now || add) ≡ true)
          → (was || next) ≡ true
          → (now || will) ≡ true
      covered_by same old later add next now was will g w a all e = grind arith

      only_by :
          (later add next same was will : Bool)
          → was ≡ (same || later)
          → will ≡ (later || add)
          → (add ≡ true → next ≡ true)
          → will ≡ true
          → (was || next) ≡ true
      only_by later add next same was will w a fr e = grind arith

  -- The successors that are added are those that are not marked.
  pub Step-take_unmarked :
      (i i' : I) (c : Commit) (rest nexts : List ℕ)
      → succ c.hash ≡ nexts
      → get_commit store c.hash ≡ some c
      → marked i c.hash ≡ false
      → ((h : ℕ) → marked i' h ≡ (c.hash == h || marked i h))
      → ((h : ℕ) → elem h (pending i) ≡ (c.hash == h || elem h rest))
      → ((h : ℕ) → elem h (pending i') ≡ (elem h rest || (elem h nexts && not (marked i' h))))
      → IsValid i'
      → Step {E = E} store succ marked pending IsValid i (i', got c)
  Step-take_unmarked i i' c rest nexts is known free grows waits adds valid =
      Step-take i i' c rest (λ h. elem h nexts && not (marked i' h)) known free grows waits adds
        (λ h e. ap (elem h) is ∙ left_of (elem h nexts) (not (marked i' h)) e)
        (λ h e. either (marked i' h) (elem h nexts) (ap (elem h) (sym is) ∙ e)) valid
    where
      left_of : (a b : Bool) → (a && b) ≡ true → a ≡ true
      left_of a b e = grind arith

      either : (m a : Bool) → a ≡ true → (m || (a && not m)) ≡ true
      either m a e = grind arith
