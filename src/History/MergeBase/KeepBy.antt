-- ===== src/History/MergeBase/KeepBy.antt =====
-- Lists of commits, filtered by their hashes.
use ai_experimental_search.Base.{
  ℕ, ◌≤◌, ◌≡◌, refl, sym, ap, ◌∙◌, Bool, true, false, ◌||◌, ◌&&◌, List, [], ◌∷◌, ◌++◌,
  if◌then◌else◌, ◌==◌, ==_iff, ==_refl, arith, Bool-cases, inl, inr, length,
}
use ai_experimental_search.Base.Members.{elem, NoRepeats}
use ai_experimental_search.History.Graph.{Commit, hashes}
use ai_experimental_search.History.Worklist.{AllStored}

-- The commits whose hash has a property, in order.
unfoldable pub keep_by : (ℕ → Bool) → List Commit → List Commit
keep_by test [] = []
keep_by test (c ∷ cs) = let rest = keep_by test cs in if test c.hash then c ∷ rest else rest

pub keep_by_all :
    (test : ℕ → Bool) (cs : List Commit)
    → ((h : ℕ) → elem h (hashes cs) ≡ true → test h ≡ true)
    → keep_by test cs ≡ cs
unfolding keep_by elem
keep_by_all test [] all = refl
keep_by_all test (c ∷ cs) all =
    rw (all c.hash (ap (λ (b : Bool). b || elem c.hash (hashes cs)) (==_refl c.hash))) (
      ap (λ (rest : List Commit). c ∷ rest) (keep_by_all test cs (λ h e. all h (grind (arith, e)))))

pub keep_by_same :
    (test other : ℕ → Bool) (cs : List Commit)
    → ((h : ℕ) → elem h (hashes cs) ≡ true → test h ≡ other h)
    → keep_by test cs ≡ keep_by other cs
unfolding keep_by elem
keep_by_same test other [] same = refl
keep_by_same test other (c ∷ cs) same =
    let first = same c.hash (ap (λ (b : Bool). b || elem c.hash (hashes cs)) (==_refl c.hash)) in
    let rest = keep_by_same test other cs (λ h e. same h (grind (arith, e))) in
    rw (first, rest) refl

pub keep_by-keep_by :
    (test other : ℕ → Bool) (cs : List Commit)
    → keep_by test (keep_by other cs) ≡ keep_by (λ h. other h && test h) cs
unfolding keep_by
keep_by-keep_by test other [] = refl
keep_by-keep_by test other (c ∷ cs) = elim (Bool-cases (other c.hash)) [
  | inl s ↦ rw (s, keep_by-keep_by test other cs) refl
  | inr s ↦ rw (s, keep_by-keep_by test other cs) refl
]

pub elem-keep_by :
    (test : ℕ → Bool) (cs : List Commit) (h : ℕ)
    → elem h (hashes (keep_by test cs)) ≡ (elem h (hashes cs) && test h)
unfolding elem keep_by
elem-keep_by test [] h = refl
elem-keep_by test (c ∷ cs) h = elim (Bool-cases (test c.hash)) [
  | inl s ↦ rw s (
      ap (λ (b : Bool). c.hash == h || b) (elem-keep_by test cs h)
      ∙ taken (c.hash == h) (elem h (hashes cs)) (test h)
          (λ q. ap test (sym ((==_iff c.hash h).0 q)) ∙ s))
  | inr s ↦ rw s (
      elem-keep_by test cs h
      ∙ passed (c.hash == h) (elem h (hashes cs)) (test h)
          (λ q. ap test (sym ((==_iff c.hash h).0 q)) ∙ s))
]
  where
    taken : (k e w : Bool) → (k ≡ true → w ≡ true) → (k || (e && w)) ≡ ((k || e) && w)
    taken k e w i = grind arith

    passed : (k e w : Bool) → (k ≡ true → w ≡ false) → (e && w) ≡ ((k || e) && w)
    passed k e w i = grind arith

pub keep_by-append :
    (test : ℕ → Bool) (xs ys : List Commit)
    → keep_by test (xs ++ ys) ≡ keep_by test xs ++ keep_by test ys
unfolding keep_by
keep_by-append test [] ys = refl
keep_by-append test (x ∷ xs) ys = elim (Bool-cases (test x.hash)) [
  | inl s ↦ rw (s, keep_by-append test xs ys) refl
  | inr s ↦ rw (s, keep_by-append test xs ys) refl
]

pub keep_by-AllStored :
    (store : List Commit) (test : ℕ → Bool) (xs : List Commit)
    → AllStored store xs
    → AllStored store (keep_by test xs)
unfolding keep_by
keep_by-AllStored store test [] a = tt
keep_by-AllStored store test (x ∷ xs) (a, more) = elim (Bool-cases (test x.hash)) [
  | inl s ↦ rw s (a, keep_by-AllStored store test xs more)
  | inr s ↦ rw s (keep_by-AllStored store test xs more)
]

pub keep_by-NoRepeats :
    (test : ℕ → Bool) (xs : List Commit)
    → NoRepeats (hashes xs)
    → NoRepeats (hashes (keep_by test xs))
unfolding keep_by
keep_by-NoRepeats test [] a = tt
keep_by-NoRepeats test (x ∷ xs) (a, more) = elim (Bool-cases (test x.hash)) [
  | inl s ↦ rw s (elem-keep_by test xs x.hash ∙ rw a refl, keep_by-NoRepeats test xs more)
  | inr s ↦ rw s (keep_by-NoRepeats test xs more)
]

pub length-keep_by : (test : ℕ → Bool) (xs : List Commit) → length (keep_by test xs) ≤ length xs
unfolding keep_by
length-keep_by test [] = omega arith
length-keep_by test (x ∷ xs) = ground (arith, length-keep_by test xs)
