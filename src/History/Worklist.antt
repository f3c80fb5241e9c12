-- ===== src/History/Worklist.antt =====
-- plumbing/object: what the iterators over a history have in common. Each keeps a set of marked hashes and
-- commits that are pending; a Next marks one commit and adds its successors to the pending ones.
pub mod Steps
use ai_experimental_search.Base.{
  ℕ, zero, suc, ◌≤◌, ◌<◌, ◌≡◌, ◌⊎◌, refl, sym, ap, ◌∙◌, subst, Bool, true, false, ◌||◌, ◌&&◌, not,
  some, List, [], ◌∷◌, length, ◌==◌, ==_iff, ==_refl, arith, Bool-cases, inl, inr,
}
use ai_experimental_search.Base.Members.{
  elem, or-cases, or_left, or_right, NoRepeats, unmarked, unmarked-lt,
}
use ai_experimental_search.Refs.Iter.{Next, got, ended, Iterator}
use ai_experimental_search.Refs.Filter.{Yields}
use ai_experimental_search.History.Graph.{
  Commit, hashes, get_commit, elem-get_commit, Reach, here, step,
}

-- What a Next does in a walk over the hashes with `succ` as successors: it ends when everything pending is
-- marked, or it gives a stored commit that was pending and not marked. It marks this commit only, and adds
-- its successors only.
pub data Step {I E : Type 0} (store : List Commit) (succ : ℕ → List ℕ) (marked : I → ℕ → Bool)
    (pending : I → List ℕ) (IsValid : I → Type 0) (i : I) : I × Next Commit E → Type 0 where
  at_end :
      (i' : I)
      → ((h : ℕ) → elem h (pending i) ≡ true → marked i h ≡ true)
      → Step store succ marked pending IsValid i (i', ended)
  at_commit :
      (i' : I) (c : Commit)
      → get_commit store c.hash ≡ some c
      → marked i c.hash ≡ false
      → elem c.hash (pending i) ≡ true
      → ((h : ℕ) → marked i' h ≡ (c.hash == h || marked i h))
      → ((h : ℕ)
          → (elem h (pending i) || elem h (succ c.hash)) ≡ true
          → (marked i' h || elem h (pending i')) ≡ true)
      → ((h : ℕ) → elem h (pending i') ≡ true → (elem h (pending i) || elem h (succ c.hash)) ≡ true)
      → IsValid i'
      → Step store succ marked pending IsValid i (i', got c)

abbrev pub AllStored : List Commit → List Commit → Type 0
AllStored store [] = Unit
AllStored store (c ∷ cs) = (get_commit store c.hash ≡ some c) × AllStored store cs

module _ {I E : Type 0} (it : Iterator I Commit E) (store : List Commit) (succ : ℕ → List ℕ)
    (marked : I → ℕ → Bool) (pending : I → List ℕ) (IsValid : I → Type 0) where
  -- What a walk from a state visits.
  pub record Walked (i : I) (xs : List Commit) : Type 0 where
    pub yields : Yields it i xs
    pub stored : AllStored store xs
    pub fresh : (h : ℕ) → elem h (hashes xs) ≡ true → marked i h ≡ false
    pub once : NoRepeats (hashes xs)
    pub covers : (h : ℕ) → elem h (pending i) ≡ true → (marked i h || elem h (hashes xs)) ≡ true
    pub closed :
        (h p : ℕ)
        → elem h (hashes xs) ≡ true
        → elem p (succ h) ≡ true
        → (marked i p || elem p (hashes xs)) ≡ true
    pub sound : (h : ℕ) → elem h (hashes xs) ≡ true → Reach succ (marked i) (pending i) h
    pub few : length xs ≤ unmarked (marked i) (hashes store)

  Walked-end :
      (i : I)
      → (it.next i).1 ≡ ended
      → ((h : ℕ) → elem h (pending i) ≡ true → marked i h ≡ true)
      → Walked i []
  unfolding elem
  Walked-end i e all = record {
    yields = e;
    stored = tt;
    fresh = λ h n. cc;
    once = tt;
    covers = λ h n. or_left (marked i h) false (all h n);
    closed = λ h p n s. cc;
    sound = λ h n. cc;
    few = omega arith;
  }

  module _ (i i' : I) (c : Commit) (free : marked i c.hash ≡ false)
      (waited : elem c.hash (pending i) ≡ true)
      (grows : (h : ℕ) → marked i' h ≡ (c.hash == h || marked i h))
      (only : (h : ℕ)
        → elem h (pending i') ≡ true
        → (elem h (pending i) || elem h (succ c.hash)) ≡ true) where
    still_free : (h : ℕ) → marked i' h ≡ false → marked i h ≡ false
    still_free h n = ground (arith, grows h)

    -- What is reached after a step was reached before it.
    reached_before :
        (h : ℕ) → Reach succ (marked i') (pending i') h → Reach succ (marked i) (pending i) h
    reached_before h (here k e n) =
        elim (or-cases (elem k (pending i)) (elem k (succ c.hash)) (only k e)) [
          | inl old ↦ here k old (still_free k n)
          | inr new ↦ step c.hash k (here c.hash waited free) new (still_free k n)
        ]
    reached_before p (step h q r e n) = step h q (reached_before h r) e (still_free q n)

    module _ (xs : List Commit) (w : Walked i' xs) (known : get_commit store c.hash ≡ some c)
        (covered : (h : ℕ)
          → (elem h (pending i) || elem h (succ c.hash)) ≡ true
          → (marked i' h || elem h (pending i')) ≡ true)
        (all : it.next i ≡ (i', got c)) where
      marked_then :
          (h : ℕ)
          → (marked i' h || elem h (hashes xs)) ≡ true
          → (marked i h || elem h (hashes (c ∷ xs))) ≡ true
      unfolding elem
      marked_then h e = ground (arith, grows h, e)

      covers_then :
          (h : ℕ)
          → (elem h (pending i) || elem h (succ c.hash)) ≡ true
          → (marked i h || elem h (hashes (c ∷ xs))) ≡ true
      covers_then h e = elim (or-cases (marked i' h) (elem h (pending i')) (covered h e)) [
        | inl m ↦ marked_then h (or_left (marked i' h) (elem h (hashes xs)) m)
        | inr p ↦ marked_then h (w.covers h p)
      ]

      not_again : elem c.hash (hashes xs) ≡ false
      not_again = elim (Bool-cases (elem c.hash (hashes xs))) [
        | inl e ↦
            let now : marked i' c.hash ≡ true =
              grows c.hash ∙ or_left (c.hash == c.hash) (marked i c.hash) (==_refl c.hash) in
            let free' = w.fresh c.hash e in cc
        | inr e ↦ e
      ]

      member-cases :
          (h : ℕ) → elem h (hashes (c ∷ xs)) ≡ true → (c.hash ≡ h) ⊎ (elem h (hashes xs) ≡ true)
      unfolding elem
      member-cases h e = elim (or-cases (c.hash == h) (elem h (hashes xs)) e) [
        | inl q ↦ inl ((==_iff c.hash h).0 q)
        | inr q ↦ inr q
      ]

      fresh_then : (h : ℕ) → elem h (hashes (c ∷ xs)) ≡ true → marked i h ≡ false
      fresh_then h e = elim (member-cases h e) [
        | inl q ↦ ap (marked i) (sym q) ∙ free
        | inr q ↦ still_free h (w.fresh h q)
      ]

      closed_then :
          (h p : ℕ)
          → elem h (hashes (c ∷ xs)) ≡ true
          → elem p (succ h) ≡ true
          → (marked i p || elem p (hashes (c ∷ xs))) ≡ true
      closed_then h p e s = elim (member-cases h e) [
        | inl q ↦ covers_then p (
            or_right (elem p (pending i)) (elem p (succ c.hash))
              (ap (λ (k : ℕ). elem p (succ k)) q ∙ s))
        | inr q ↦ marked_then p (w.closed h p q s)
      ]

      sound_then : (h : ℕ) → elem h (hashes (c ∷ xs)) ≡ true → Reach succ (marked i) (pending i) h
      sound_then h e = elim (member-cases h e) [
        | inl q ↦ subst (Reach succ (marked i) (pending i)) q (here c.hash waited free)
        | inr q ↦ reached_before h (w.sound h q)
      ]

      Walked-step : Walked i (c ∷ xs)
      Walked-step = record {
        yields = (
          ap (λ (r : I × Next Commit E). r.1) all,
          subst (λ (r : I × Next Commit E). Yields it r.0 xs) (sym all) w.yields,
        );
        stored = (known, w.stored);
        fresh = fresh_then;
        once = (not_again, w.once);
        covers = λ h e. covers_then h (or_left (elem h (pending i)) (elem h (succ c.hash)) e);
        closed = closed_then;
        sound = sound_then;
        few = omega (
          arith,
          w.few,
          unmarked-lt (marked i) (marked i') c.hash grows (hashes store) free
              (elem-get_commit store c.hash c known),
        );
      }

  Walked-from :
      (law : (i : I) → IsValid i → Step store succ marked pending IsValid i (it.next i)) (bound : ℕ)
      (more : (i : I)
        → unmarked (marked i) (hashes store) < bound
        → IsValid i
        → (xs : List Commit) × Walked i xs)
      (i : I)
      → unmarked (marked i) (hashes store) ≤ bound
      → IsValid i
      → (xs : List Commit) × Walked i xs
  Walked-from law bound more i enough valid = at_step (it.next i) refl (law i valid)
    where
      at_step :
          (r : I × Next Commit E)
          → it.next i ≡ r
          → Step store succ marked pending IsValid i r
          → (xs : List Commit) × Walked i xs
      at_step r same (at_end i' all) =
          ([], Walked-end i (ap (λ (r : I × Next Commit E). r.1) same) all)
      at_step r same (at_commit i' c known free waited grows covered only valid') =
          let fewer =
            unmarked-lt (marked i) (marked i') c.hash grows (hashes store) free
              (elem-get_commit store c.hash c known) in
          let (xs, w) = more i' (omega (arith, fewer, enough)) valid' in
          (c ∷ xs, Walked-step i i' c free waited grows only xs w known covered same)

  -- A walk comes to its end after at most as many commits as are stored and not marked.
  pub Step-Walked :
      (law : (i : I) → IsValid i → Step store succ marked pending IsValid i (it.next i)) (fuel : ℕ)
      (i : I)
      → unmarked (marked i) (hashes store) ≤ fuel
      → IsValid i
      → (xs : List Commit) × Walked i xs
  Step-Walked law zero i enough valid =
      Walked-from law zero (λ j less v. absurd (omega (arith, less))) i enough valid
  Step-Walked law (suc fuel) i enough valid =
      Walked-from law (suc fuel) (λ j less v. Step-Walked law fuel j (omega (arith, less)) v) i
        enough valid

module _ {I E : Type 0} (it : Iterator I Commit E) (store : List Commit) (succ : ℕ → List ℕ)
    (blocked : ℕ → Bool) (starts : List ℕ) where
  -- An iterator gives exactly the commits that can be reached, each one once, and then io.EOF.
  pub record Visits (i : I) (xs : List Commit) : Type 0 where
    pub yields : Yields it i xs
    pub stored : AllStored store xs
    pub once : NoRepeats (hashes xs)
    pub reached : (h : ℕ) → elem h (hashes xs) ≡ true → Reach succ blocked starts h
    pub complete : (h : ℕ) → Reach succ blocked starts h → elem h (hashes xs) ≡ true
    pub few : length xs ≤ length store

unmarked-length : (m : ℕ → Bool) (cs : List Commit) → unmarked m (hashes cs) ≤ length cs
unfolding unmarked
unmarked-length m [] = omega arith
unmarked-length m (c ∷ cs) = ground (arith, unmarked-length m cs)

module _ {I E : Type 0} (it : Iterator I Commit E) (store : List Commit) (succ : ℕ → List ℕ)
    (marked : I → ℕ → Bool) (pending : I → List ℕ) (IsValid : I → Type 0) where
  not_marked :
      (i : I) (keys : List ℕ) (h : ℕ)
      → marked i h ≡ false
      → (marked i h || elem h keys) ≡ true
      → elem h keys ≡ true
  not_marked i keys h n e = rw n at e

  Walked-complete :
      (i : I) (xs : List Commit)
      → Walked it store succ marked pending IsValid i xs
      → (h : ℕ) → Reach succ (marked i) (pending i) h
      → elem h (hashes xs) ≡ true
  Walked-complete i xs w h (here k e n) = not_marked i (hashes xs) k n (w.covers k e)
  Walked-complete i xs w h (step k p r e n) =
      not_marked i (hashes xs) p n (w.closed k p (Walked-complete i xs w k r) e)

  -- A walk gives exactly what can be reached from the pending commits over commits that are not marked.
  pub Step-Visits :
      (law : (i : I) → IsValid i → Step store succ marked pending IsValid i (it.next i)) (i : I)
      → IsValid i
      → (xs : List Commit) × Visits it store succ (marked i) (pending i) i xs
  Step-Visits law i valid =
      let (xs, w) =
        Step-Walked it store succ marked pending IsValid law (length store) i
          (unmarked-length (marked i) store) valid in
      (
        xs,
        record {
          yields = w.yields;
          stored = w.stored;
          once = w.once;
          reached = w.sound;
          complete = Walked-complete i xs w;
          few = omega (arith, w.few, unmarked-length (marked i) store);
        },
      )
