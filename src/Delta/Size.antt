-- ===== src/Delta/Size.antt =====
-- The sizes at the head of a delta: deltaEncodeSize (diff_delta.go) and decodeLEB128 (patch_delta.go).
-- A Go uint has 64 bits.
use ai_experimental_search.Base.{
  ℕ, zero, suc, ◌+◌, ◌*◌, ◌/◌, ◌%◌, ◌^◌, ◌≤◌, ◌<◌, ◌≡◌, ap, ◌∙◌, bit_and, bit_or, [], ◌∷◌, ◌++◌,
  ◌==◌, true, false, length, if◌then◌else◌, Bytes, arith, Bool-cases, inl, inr,
}
use ai_experimental_search.Base.Bits.{low_seven, bit_or_shifted, bit_and_shifted, bit_and_ones}
use native.Mathlib.Numerals.{towards_suc}
use native.Mathlib.Nat.{mod-eq_of_lt}

abbrev pub uint_mod : ℕ
uint_mod = 2 ^ 64

-- `c` is the group to be written next and `size` what is left; each round divides `size`, so `size`
-- rounds are enough.
size_loop : ℕ → ℕ → ℕ → Bytes
size_loop zero c size = c % 256 ∷ []
size_loop (suc fuel) c size =
    let more = size_loop fuel (bit_and size 0x7f) (size / 2 ^ 7) in
    if size == 0 then c % 256 ∷ [] else (bit_or c 0x80 % 256) ∷ more

unfoldable pub delta_encode_size : ℕ → Bytes
unfolding size_loop
delta_encode_size size = size_loop (size / 2 ^ 7) (bit_and size 0x7f) (size / 2 ^ 7)

-- The number of `sz` groups read so far is `num`. The loop also ends where the input does.
leb_loop : Bytes → ℕ → ℕ → ℕ × Bytes
leb_loop [] sz num = (num, [])
leb_loop (b ∷ input) sz num =
    let num' = bit_or num (bit_and b 0x7f * 2 ^ (sz * 7) % uint_mod) in
    let more = leb_loop input (sz + 1) num' in if bit_and b 0x80 == 0 then (num', input) else more

unfoldable pub decode_leb_128 : Bytes → ℕ × Bytes
unfolding leb_loop
decode_leb_128 input = leb_loop input 0 0

-- The top bit of a byte is its continuation bit, and the rest is its group.
pub top_bit : (b : ℕ) → bit_and b 0x80 ≡ b / 128 % 2 * 128
top_bit b = omega (arith, bit_and_shifted 7 b 1, bit_and_ones 1 (b / 2 ^ 7))

shift_seven : (s : ℕ) → 2 ^ (s + 7) ≡ 128 * 2 ^ s
shift_seven s = simp towards_suc (omega arith)

next_shift : (sz : ℕ) → 2 ^ ((sz + 1) * 7) ≡ 128 * 2 ^ (sz * 7)
next_shift sz = let e : (sz + 1) * 7 ≡ sz * 7 + 7 = omega arith in rw e (shift_seven (sz * 7))

-- A group that lies above what was read so far is added to it.
add_group :
    (c sz num : ℕ)
    → num < 2 ^ (sz * 7)
    → c * 2 ^ (sz * 7) < uint_mod
    → bit_or num (c * 2 ^ (sz * 7) % uint_mod) ≡ num + c * 2 ^ (sz * 7)
add_group c sz num hn fits = rw (mod-eq_of_lt fits) (bit_or_shifted (sz * 7) num c hn)

leb_last :
    (c sz num : ℕ) (rest : Bytes)
    → c < 128
    → num < 2 ^ (sz * 7)
    → c * 2 ^ (sz * 7) < uint_mod
    → leb_loop (c ∷ rest) sz num ≡ (num + c * 2 ^ (sz * 7), rest)
unfolding leb_loop
leb_last c sz num rest hc hn fits = rw (group, add_group c sz num hn fits, stop)
  where
    group : bit_and c 0x7f ≡ c
    group = omega (arith, low_seven c)

    stop : (bit_and c 0x80 == 0) ≡ true
    stop = ground (arith, top_bit c)

leb_more :
    (c sz num : ℕ) (rest : Bytes)
    → c < 128
    → num < 2 ^ (sz * 7)
    → c * 2 ^ (sz * 7) < uint_mod
    → leb_loop ((c + 128) ∷ rest) sz num ≡ leb_loop rest (sz + 1) (num + c * 2 ^ (sz * 7))
unfolding leb_loop
leb_more c sz num rest hc hn fits = rw (group, add_group c sz num hn fits, continues)
  where
    group : bit_and (c + 128) 0x7f ≡ c
    group = omega (arith, low_seven (c + 128))

    continues : (bit_and (c + 128) 0x80 == 0) ≡ false
    continues = ground (arith, top_bit (c + 128))

inner_byte : (c : ℕ) → c < 128 → bit_or c 0x80 % 256 ≡ c + 128
inner_byte c h = omega (arith, bit_or_shifted 7 c 1 h)

group_bound : (num c p : ℕ) → num < p → c < 128 → num + c * p < 128 * p
group_bound num c p h hc = grind arith

leb_loop-size_loop :
    (fuel c size sz num : ℕ) (rest : Bytes)
    → c < 128
    → size ≤ fuel
    → num < 2 ^ (sz * 7)
    → num + (c + 128 * size) * 2 ^ (sz * 7) < uint_mod
    → leb_loop (size_loop fuel c size ++ rest) sz num
      ≡ (num + (c + 128 * size) * 2 ^ (sz * 7), rest)
unfolding size_loop
leb_loop-size_loop zero c size sz num rest hc hf hn fits =
    let e : c % 256 ≡ c = omega arith in
    rw e (
      leb_last c sz num rest hc hn (omega arith)
      ∙ ap (λ (k : ℕ). (num + k * 2 ^ (sz * 7), rest)) (omega arith))
leb_loop-size_loop (suc fuel) c size sz num rest hc hf hn fits = elim (Bool-cases (size == 0)) [
  | inl done ↦
      let e : c % 256 ≡ c = omega arith in
      rw (done, e)
        (leb_last c sz num rest hc hn (omega arith)
          ∙ ap (λ (k : ℕ). (num + k * 2 ^ (sz * 7), rest)) (ground arith))
  | inr more ↦
      let p = 2 ^ (sz * 7) in
      let whole : num + c * p + (size % 128 + 128 * (size / 2 ^ 7)) * 2 ^ ((sz + 1) * 7)
          ≡ num + (c + 128 * size) * p =
        rw (next_shift sz) (omega (arith, ap (λ (t : ℕ). t * p) (split size))) in
      rw (more, inner_byte c hc, low_seven size)
        (leb_more c sz num (size_loop fuel (size % 128) (size / 2 ^ 7) ++ rest) hc hn (omega arith)
          ∙ leb_loop-size_loop fuel (size % 128) (size / 2 ^ 7) (sz + 1) (num + c * p) rest
              (omega arith) (omega arith) (rw (next_shift sz) (group_bound num c p hn hc))
              (rw whole fits)
          ∙ ap (λ (k : ℕ). (k, rest)) whole)
]
  where
    split : (n : ℕ) → n % 128 + 128 * (n / 2 ^ 7) ≡ n
    split n = omega arith

-- A size below 2 ^ 64 is read back from its bytes, and the reader stops behind them.
pub decode_leb_128-delta_encode_size :
    (n : ℕ) (rest : Bytes) → n < uint_mod → decode_leb_128 (delta_encode_size n ++ rest) ≡ (n, rest)
unfolding decode_leb_128 delta_encode_size
decode_leb_128-delta_encode_size n rest h = rw (low_seven n) (
    leb_loop-size_loop (n / 2 ^ 7) (n % 128) (n / 2 ^ 7) 0 0 rest (omega arith) (omega arith)
      (omega arith) (omega arith)
    ∙ ap (λ (k : ℕ). (k, rest)) (omega arith))

pub length-delta_encode_size : (n : ℕ) → 1 ≤ length (delta_encode_size n)
unfolding delta_encode_size
length-delta_encode_size n = length-size_loop (n / 2 ^ 7) (bit_and n 0x7f) (n / 2 ^ 7)
  where
    length-size_loop : (fuel c size : ℕ) → 1 ≤ length (size_loop fuel c size)
    length-size_loop zero c size = omega arith
    length-size_loop (suc fuel) c size = ground arith
