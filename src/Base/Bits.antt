-- ===== src/Base/Bits.antt =====
-- `&`, `|`, `<<` and `>>` on unsigned values as arithmetic, at every width.
use Prim.Native.Nat.{ℕ, zero, suc, ◌+◌, ◌-◌, ◌*◌, ◌/◌, ◌%◌, ◌^◌, ◌<◌, ◌≤◌, min, max}
use Prim.Native.Nat.{
  bit_and, bit_or, digits, bit_and-bitwise, bit_or-bitwise, bit_xor, bit_xor-bitwise, differ,
}
use mathlib.Core.Path.{◌≡◌, refl, sym, ap, ap₂, ◌∙◌}
use mathlib.Core.Bool.{Bool, true, not, ◌&&◌, ◌||◌}
use ai_experimental_search.Base.Tests.{ltb, ◌==◌}
use native.Mathlib.Nat.{pow-suc, one-le-pow, div-add-mod, mod-lt, mod-eq_of_lt}
use native.Mathlib.Nat.{mul-add-mod_self_left, div-div-eq-div-mul}
use native.Mathlib.Omega.{arith}

-- `op` is a native operation on digits: `rest` for what the second number has left, `both` for two digits.
module _ (op : ℕ → ℕ → ℕ) (rest : ℕ → ℕ) (both : ℕ → ℕ → ℕ)
    (law : (x y : ℕ) → op x y ≡ digits rest both x x y) where
  -- Fuel that covers the first number is as good as one more.
  spare_round :
      (fuel x y : ℕ) → x ≤ fuel → digits rest both (suc fuel) x y ≡ digits rest both fuel x y
  spare_round zero zero y covers = refl
  spare_round (suc fuel) zero y covers = refl
  spare_round zero (suc x) y covers = absurd (omega (arith, covers))
  spare_round (suc fuel) (suc x) y covers =
      omega (arith, spare_round fuel (suc x / 2) (y / 2) (omega (arith, covers)))

  spare_rounds : (extra x y : ℕ) → digits rest both (extra + x) x y ≡ op x y
  spare_rounds zero x y = ap (λ (fuel : ℕ). digits rest both fuel x y) (omega arith) ∙ sym (law x y)
  spare_rounds (suc extra) x y =
      let counted : suc extra + x ≡ suc (extra + x) = omega arith in
      ap (λ (fuel : ℕ). digits rest both fuel x y) counted
      ∙ spare_round (extra + x) x y (omega arith)
      ∙ spare_rounds extra x y

  low_digit : (x y : ℕ) → op (suc x) y ≡ op (suc x / 2) (y / 2) * 2 + both (suc x % 2) (y % 2)
  low_digit x y =
      let exact : x - suc x / 2 + suc x / 2 ≡ x = omega arith in
      let halved : digits rest both x (suc x / 2) (y / 2) ≡ op (suc x / 2) (y / 2) =
        ap (λ (fuel : ℕ). digits rest both fuel (suc x / 2) (y / 2)) (sym exact)
        ∙ spare_rounds (x - suc x / 2) (suc x / 2) (y / 2) in
      law (suc x) y ∙ ap (λ (t : ℕ). t * 2 + both (suc x % 2) (y % 2)) halved

nothing_in_common : (y : ℕ) → bit_and 0 y ≡ 0
nothing_in_common y = bit_and-bitwise 0 y

nothing_added : (y : ℕ) → bit_or 0 y ≡ y
nothing_added y = bit_or-bitwise 0 y

bit_and_step : (x y : ℕ) → bit_and x y ≡ bit_and (x / 2) (y / 2) * 2 + min (x % 2) (y % 2)
bit_and_step zero y = omega (arith, nothing_in_common y, nothing_in_common (y / 2))
bit_and_step (suc x) y = low_digit bit_and (λ y'. zero) min bit_and-bitwise x y

bit_or_step : (x y : ℕ) → bit_or x y ≡ bit_or (x / 2) (y / 2) * 2 + max (x % 2) (y % 2)
bit_or_step zero y = omega (arith, nothing_added y, nothing_added (y / 2))
bit_or_step (suc x) y = low_digit bit_or (λ y'. y') max bit_or-bitwise x y

double_pow : (q k : ℕ) → q * 2 ^ suc k ≡ 2 * (q * 2 ^ k)
double_pow q k = omega (arith, ap (λ (t : ℕ). q * t) (pow-suc 2 k))

-- On a number below `2 ^ k`, or-ing with a number shifted by `k` adds it.
pub bit_or_shifted : (k a q : ℕ) → a < 2 ^ k → bit_or a (q * 2 ^ k) ≡ a + q * 2 ^ k
bit_or_shifted zero a q h =
    let z : a ≡ 0 = omega arith in rw z (nothing_added (q * 2 ^ 0) ∙ omega arith)
bit_or_shifted (suc k) a q h = omega (
  arith,
  pow-suc 2 k,
  double_pow q k,
  bit_or_step a (q * 2 ^ suc k),
  ap (λ (t : ℕ). bit_or (a / 2) t) half,
  bit_or_shifted k (a / 2) q (omega (arith, pow-suc 2 k)),
)
  where
    half : q * 2 ^ suc k / 2 ≡ q * 2 ^ k
    half = omega (arith, double_pow q k)

no_mask : (x bound : ℕ) → x ≤ bound → bit_and x 0 ≡ 0
no_mask zero bound small = refl
no_mask (suc x) zero small = absurd (omega (arith, small))
no_mask (suc x) (suc bound) small =
    let halved = no_mask (suc x / 2) bound (omega (arith, small)) in
    omega (arith, bit_and_step (suc x) 0, halved)

-- Division of `a` by `2 * p` from the division of `a / 2` by `p`.
halves : (a p : ℕ) → 1 ≤ p → a / 2 % p * 2 + a % 2 ≡ a % (p * 2)
halves a p h =
    let q : ℕ = a / 2 / p in
    let r : ℕ = a / 2 % p * 2 + a % 2 in
    let whole : a ≡ p * 2 * q + r = omega (arith, ap (λ (t : ℕ). t * 2) (div-add-mod (a / 2) p)) in
    let small : r < p * 2 = omega (arith, mod-lt (a / 2) h) in
    sym (ap (λ (t : ℕ). t % (p * 2)) whole ∙ mul-add-mod_self_left (p * 2) q r ∙ mod-eq_of_lt small)

-- A mask of `k` ones is the remainder by `2 ^ k`.
pub bit_and_ones : (k a : ℕ) → bit_and a (2 ^ k - 1) ≡ a % 2 ^ k
bit_and_ones zero a = no_mask a a (omega arith) ∙ omega arith
bit_and_ones (suc k) a =
    let pos : 1 ≤ 2 ^ k = one-le-pow k 2 (omega arith) in
    let half : (2 ^ suc k - 1) / 2 ≡ 2 ^ k - 1 = omega (arith, pow-suc 2 k) in
    omega (
      arith,
      pow-suc 2 k,
      bit_and_step a (2 ^ suc k - 1),
      ap (λ (t : ℕ). bit_and (a / 2) t) half,
      bit_and_ones k (a / 2),
      halves a (2 ^ k) pos,
      ap (λ (t : ℕ). a % t) (pow-suc 2 k),
    )

-- A shifted mask looks at the shifted number.
pub bit_and_shifted : (k a m : ℕ) → bit_and a (m * 2 ^ k) ≡ bit_and (a / 2 ^ k) m * 2 ^ k
bit_and_shifted zero a m =
    let e : m * 2 ^ 0 ≡ m = omega arith in
    let f : a / 2 ^ 0 ≡ a = omega arith in rw (e, f) (omega arith)
bit_and_shifted (suc k) a m =
    let mask : m * 2 ^ suc k / 2 ≡ m * 2 ^ k = omega (arith, double_pow m k) in
    let shift : a / 2 / 2 ^ k ≡ a / 2 ^ suc k =
      div-div-eq-div-mul a 2 (2 ^ k) ∙ ap (λ (t : ℕ). a / t) (omega (arith, pow-suc 2 k)) in
    omega (
      arith,
      double_pow m k,
      double_pow (bit_and (a / 2 ^ suc k) m) k,
      bit_and_step a (m * 2 ^ suc k),
      ap (λ (t : ℕ). bit_and (a / 2) t) mask,
      bit_and_shifted k (a / 2) m,
      ap (λ (t : ℕ). bit_and t m * 2 ^ k) shift,
    )

-- Whether a test holds of every number below a bound.
unfoldable pub holds_below : (ℕ → Bool) → ℕ → Bool
holds_below test zero = true
holds_below test (suc bound) = holds_below test bound && test bound

below_bound :
    (test : ℕ → Bool) (bound x : ℕ) → x < bound → holds_below test bound ≡ true → test x ≡ true
unfolding holds_below
below_bound test zero x inside table = absurd (omega (arith, inside))
below_bound test (suc bound) x inside table = ground (arith, below_bound test bound x)

-- A test on bytes that holds at all 256 holds at each.
pub all_bytes : (test : ℕ → Bool) → holds_below test 256 ≡ true → (b : ℕ) → b < 256 → test b ≡ true
all_bytes test table b inside = below_bound test 256 b inside table

pub low_seven : (a : ℕ) → bit_and a 0x7f ≡ a % 128
low_seven a = bit_and_ones 7 a

set_continue : (b : ℕ) → b < 256 → (not (ltb b 128) || bit_or 0x80 b == b + 128) ≡ true
unfolding holds_below
set_continue = all_bytes _ refl

pub bit_or_continue : (b : ℕ) → b < 128 → bit_or 0x80 b ≡ b + 128
bit_or_continue b h = ground (arith, set_continue b)

bit_and_le_at : (fuel a m : ℕ) → a ≤ fuel → bit_and a m ≤ m
bit_and_le_at fuel zero m h = omega (arith, nothing_in_common m)
bit_and_le_at zero (suc a) m h = absurd (omega (arith, h))
bit_and_le_at (suc fuel) (suc a) m h =
    omega (arith, bit_and_step (suc a) m, bit_and_le_at fuel (suc a / 2) (m / 2) (omega (arith, h)))

-- A mask is not exceeded.
pub bit_and_le : (a m : ℕ) → bit_and a m ≤ m
bit_and_le a m = bit_and_le_at a a m (omega arith)

nothing_differs : (y : ℕ) → bit_xor 0 y ≡ y
nothing_differs y = bit_xor-bitwise 0 y

differ_digits : (x y : ℕ) → x < 2 → y < 2 → differ x y < 2
differ_digits zero y h k = k
differ_digits (suc x) zero h k = h
differ_digits (suc zero) (suc zero) h k = omega arith
differ_digits (suc zero) (suc (suc y)) h k = absurd (omega (arith, k))
differ_digits (suc (suc x)) (suc y) h k = absurd (omega (arith, h))

bit_xor_step : (x y : ℕ) → bit_xor x y ≡ bit_xor (x / 2) (y / 2) * 2 + differ (x % 2) (y % 2)
bit_xor_step zero y = omega (arith, nothing_differs y, nothing_differs (y / 2))
bit_xor_step (suc x) y = low_digit bit_xor (λ y'. y') differ bit_xor-bitwise x y

bit_xor_half : (x y : ℕ) → bit_xor x y / 2 ≡ bit_xor (x / 2) (y / 2)
bit_xor_half x y =
    omega (arith, bit_xor_step x y, differ_digits (x % 2) (y % 2) (omega arith) (omega arith))

div_pow-suc : (a k : ℕ) → a / 2 / 2 ^ k ≡ a / 2 ^ suc k
div_pow-suc a k =
    div-div-eq-div-mul a 2 (2 ^ k) ∙ ap (λ (t : ℕ). a / t) (omega (arith, pow-suc 2 k))

-- The high bits of an exclusive or.
pub bit_xor_div : (k x y : ℕ) → bit_xor x y / 2 ^ k ≡ bit_xor (x / 2 ^ k) (y / 2 ^ k)
bit_xor_div zero x y = omega (arith, ap₂ bit_xor (divide_one x) (divide_one y))
  where
    divide_one : (a : ℕ) → a / 2 ^ 0 ≡ a
    divide_one a = omega arith
bit_xor_div (suc k) x y =
    sym (div_pow-suc (bit_xor x y) k)
    ∙ ap (λ (t : ℕ). t / 2 ^ k) (bit_xor_half x y)
    ∙ bit_xor_div k (x / 2) (y / 2)
    ∙ ap₂ bit_xor (div_pow-suc x k) (div_pow-suc y k)
