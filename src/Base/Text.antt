-- ===== src/Base/Text.antt =====
-- Strings as lists of bytes: equality, the functions of Go's package strings that search for one byte, and
-- tests for a prefix and a suffix.
use Prim.Native.Nat.{ℕ, suc, ◌-◌}
use ai_experimental_search.Base.Tests.{◌==◌, ==_refl, leb, if◌then◌else◌}
use ai_experimental_search.Base.Lists.{Bytes, length, take, drop}
use mathlib.Core.Path.{◌≡◌, refl, sym, ap, ◌∙◌}
use mathlib.Core.Bool.{Bool, true, false, ◌&&◌}
use mathlib.Core.List.{[], ◌∷◌}
use mathlib.Core.Option.{Option, none, some}
use native.Mathlib.Omega.{arith}

unfoldable pub bytes_eq : Bytes → Bytes → Bool
bytes_eq [] [] = true
bytes_eq [] (y ∷ ys) = false
bytes_eq (x ∷ xs) [] = false
bytes_eq (x ∷ xs) (y ∷ ys) = x == y && bytes_eq xs ys

pub bytes_eq_refl : (s : Bytes) → bytes_eq s s ≡ true
unfolding bytes_eq
bytes_eq_refl [] = refl
bytes_eq_refl (x ∷ xs) = rw (==_refl x, bytes_eq_refl xs)

pub bytes_eq→≡ : (s t : Bytes) → bytes_eq s t ≡ true → s ≡ t
unfolding bytes_eq
bytes_eq→≡ [] [] h = refl
bytes_eq→≡ [] (y ∷ ys) h = cc
bytes_eq→≡ (x ∷ xs) [] h = cc
bytes_eq→≡ (x ∷ xs) (y ∷ ys) h = ground (arith, bytes_eq→≡ xs ys)

-- strings.Count and strings.Index of a string of one byte; `none` is the index -1.
unfoldable pub count : Bytes → ℕ → ℕ
count [] c = 0
count (b ∷ s) c = let rest = count s c in if b == c then suc rest else rest

unfoldable pub index : Bytes → ℕ → Option ℕ
index [] c = none
index (b ∷ s) c =
    if b == c then some 0 else elim (index s c) [ none ↦ none | some i ↦ some (suc i) ]

unfoldable pub slice : Bytes → ℕ → ℕ → Option Bytes
slice s low high =
    if leb low high && leb high (length s) then some (take (high - low) (drop low s)) else none

unfoldable pub has_prefix : Bytes → Bytes → Bool
has_prefix s [] = true
has_prefix [] (p ∷ prefix) = false
has_prefix (b ∷ s) (p ∷ prefix) = b == p && has_prefix s prefix

abbrev pub has_suffix : Bytes → Bytes → Bool
has_suffix s suffix =
    leb (length suffix) (length s) && bytes_eq (drop (length s - length suffix) s) suffix

pub bytes_eq_cong : (a b c : Bytes) → bytes_eq a b ≡ true → bytes_eq a c ≡ bytes_eq b c
bytes_eq_cong a b c h = ap (λ (x : Bytes). bytes_eq x c) (bytes_eq→≡ a b h)

pub bytes_eq_sym : (a b : Bytes) → bytes_eq a b ≡ bytes_eq b a
unfolding bytes_eq
bytes_eq_sym [] [] = refl
bytes_eq_sym [] (y ∷ ys) = refl
bytes_eq_sym (x ∷ xs) [] = refl
bytes_eq_sym (x ∷ xs) (y ∷ ys) = ground (arith, bytes_eq_sym xs ys)

-- Two different strings are not both equal to a third.
pub bytes_eq_apart :
    (a b c : Bytes) → bytes_eq a b ≡ false → bytes_eq a c ≡ true → bytes_eq b c ≡ false
bytes_eq_apart a b c h e = bytes_eq_sym b c ∙ (sym (bytes_eq_cong a c b e) ∙ h)
