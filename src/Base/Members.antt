-- ===== src/Base/Members.antt =====
-- Membership of numbers in lists, as a Boolean test, and what is left of a list beside a growing set.
use Prim.Native.Nat.{ℕ, suc, ◌≤◌, ◌<◌}
use ai_experimental_search.Base.Tests.{◌==◌, ==_iff, ==_refl, if◌then◌else◌, Bool-cases}
use mathlib.Core.Path.{◌≡◌, refl, sym, ap, ◌∙◌}
use mathlib.Core.Logic.{inl, inr, ◌⊎◌}
use mathlib.Core.Bool.{Bool, true, false, ◌||◌}
use mathlib.Core.List.{List, [], ◌∷◌, ◌++◌}
use native.Mathlib.Omega.{arith}

unfoldable pub elem : ℕ → List ℕ → Bool
elem h [] = false
elem h (x ∷ xs) = x == h || elem h xs

pub elem-append : (h : ℕ) (xs ys : List ℕ) → elem h (xs ++ ys) ≡ (elem h xs || elem h ys)
unfolding elem
elem-append h [] ys = refl
elem-append h (x ∷ xs) ys = ground (arith, elem-append h xs ys)

pub or-cases : (a b : Bool) → (a || b) ≡ true → (a ≡ true) ⊎ (b ≡ true)
or-cases true b h = inl refl
or-cases false b h = inr h

pub or_right : (a b : Bool) → b ≡ true → (a || b) ≡ true
or_right true b h = refl
or_right false b h = h

pub or_left : (a b : Bool) → a ≡ true → (a || b) ≡ true
or_left a b h = rw h refl

pub or_assoc : (a b c : Bool) → ((a || b) || c) ≡ (a || (b || c))
or_assoc true b c = refl
or_assoc false b c = refl

abbrev pub NoRepeats : List ℕ → Type 0
NoRepeats [] = Unit
NoRepeats (x ∷ xs) = (elem x xs ≡ false) × NoRepeats xs

-- How many of a list are not in a set.
unfoldable pub unmarked : (ℕ → Bool) → List ℕ → ℕ
unmarked m [] = 0
unmarked m (h ∷ hs) = let rest = unmarked m hs in if m h then rest else suc rest

-- A set with one more member.
module _ (m m' : ℕ → Bool) (k : ℕ) (grows : (h : ℕ) → m' h ≡ (k == h || m h)) where
  unmarked-le : (hs : List ℕ) → unmarked m' hs ≤ unmarked m hs
  unfolding unmarked
  unmarked-le [] = omega arith
  unmarked-le (h ∷ hs) = ground (arith, unmarked-le hs, grows h)

  pub unmarked-lt : (hs : List ℕ) → m k ≡ false → elem k hs ≡ true → unmarked m' hs < unmarked m hs
  unfolding unmarked elem
  unmarked-lt [] n e = cc
  unmarked-lt (h ∷ hs) n e = elim (Bool-cases (h == k)) [
    | inl q ↦
        let same : h ≡ k = (==_iff h k).0 q in
        let old : m h ≡ false = ap m same ∙ n in
        let new : m' h ≡ true =
          grows h ∙ or_left (k == h) (m h) (ap (λ (x : ℕ). x == h) (sym same) ∙ ==_refl h) in
        rw (old, new) (omega (arith, unmarked-le hs))
    | inr q ↦ ground (arith, unmarked-lt hs n, unmarked-le hs, grows h)
  ]
