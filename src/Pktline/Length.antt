-- ===== src/Pktline/Length.antt =====
-- plumbing/format/pktline/length.go and the constants of common.go: four hexadecimal digits.
use ai_experimental_search.Base.{
  ℕ, zero, suc, ◌+◌, ◌-◌, ◌*◌, ◌/◌, ◌%◌, ◌^◌, ◌≤◌, ◌<◌, ◌≡◌, bit_and, ◌&&◌, Option, none, some, ap,
  ◌∙◌, ◌≢◌, [], ◌∷◌, ◌++◌, leb, ltb, ◌==◌, length, if◌then◌else◌, Bytes, arith,
}
use ai_experimental_search.Base.Bits.{bit_and_shifted, bit_and_ones}

abbrev pub len_size : ℕ
len_size = 4

abbrev pub max_size : ℕ
max_size = 65520

abbrev pub max_payload_size : ℕ
max_payload_size = max_size - len_size

-- `none` is the error: the byte is no hexadecimal digit.
unfoldable pub ascii_hex_to_byte : ℕ → Option ℕ
ascii_hex_to_byte b =
    if leb b'0' b && leb b b'9'
    then some (b - b'0')
    else if leb b'a' b && leb b b'f'
    then some (b - b'a' + 10)
    else if leb b'A' b && leb b b'F'
    then some (b - b'A' + 10)
    else none

-- The loop over the first LenSize bytes, `n` of them left.
hex_loop : ℕ → Bytes → ℕ → Option ℕ
hex_loop zero buf ret = some ret
hex_loop (suc n) [] ret = none
hex_loop (suc n) (b ∷ buf) ret = elim (ascii_hex_to_byte b) [
  | none ↦ none
  | some d ↦ hex_loop n buf (16 * ret + d)
]

-- `none` is an error that wraps ErrInvalidPktLen.
unfoldable pub hex_decode : Bytes → Option ℕ
unfolding hex_loop ascii_hex_to_byte
hex_decode buf = if ltb (length buf) 4 then none else hex_loop len_size buf 0

-- `none` is an error that wraps ErrInvalidPktLen; `b == nil` is the empty buffer, refused alike.
unfoldable pub parse_length : Bytes → Option ℕ
parse_length b = elim (hex_decode b) [
  | none ↦ none
  | some n ↦ if n == 3 then none else if ltb max_size n then none else some n
]

unfoldable pub byte_to_ascii_hex : ℕ → ℕ
byte_to_ascii_hex n = if ltb n 10 then b'0' + n else b'a' - 10 + n

unfoldable pub ascii_hex_16 : ℕ → Bytes
ascii_hex_16 n =
    byte_to_ascii_hex (bit_and n 0xf000 / 2 ^ 12 % 256)
    ∷ byte_to_ascii_hex (bit_and n 0x0f00 / 2 ^ 8 % 256)
    ∷ byte_to_ascii_hex (bit_and n 0x00f0 / 2 ^ 4 % 256)
    ∷ byte_to_ascii_hex (bit_and n 0x000f % 256)
    ∷ []

-- A digit is read back.
digit_back : (d : ℕ) → d < 16 → ascii_hex_to_byte (byte_to_ascii_hex d) ≡ some d
unfolding ascii_hex_to_byte byte_to_ascii_hex
digit_back d h = ground arith

digit_lt : (b : ℕ) {d : ℕ} → ascii_hex_to_byte b ≡ some d → d < 16
unfolding ascii_hex_to_byte
digit_lt b h = ground arith

abbrev hex_digit : ℕ → ℕ → ℕ
hex_digit n k = byte_to_ascii_hex (n / 2 ^ k % 16)

ascii_hex_16-digits :
    (n : ℕ) → ascii_hex_16 n ≡ hex_digit n 12 ∷ hex_digit n 8 ∷ hex_digit n 4 ∷ hex_digit n 0 ∷ []
unfolding ascii_hex_16
ascii_hex_16-digits n = rw (mask_12, mask_8, mask_4, mask_0)
  where
    mask_12 : bit_and n 0xf000 / 2 ^ 12 % 256 ≡ n / 2 ^ 12 % 16
    mask_12 = omega (arith, bit_and_shifted 12 n 15, bit_and_ones 4 (n / 2 ^ 12))

    mask_8 : bit_and n 0x0f00 / 2 ^ 8 % 256 ≡ n / 2 ^ 8 % 16
    mask_8 = omega (arith, bit_and_shifted 8 n 15, bit_and_ones 4 (n / 2 ^ 8))

    mask_4 : bit_and n 0x00f0 / 2 ^ 4 % 256 ≡ n / 2 ^ 4 % 16
    mask_4 = omega (arith, bit_and_shifted 4 n 15, bit_and_ones 4 (n / 2 ^ 4))

    mask_0 : bit_and n 0x000f % 256 ≡ n / 2 ^ 0 % 16
    mask_0 = omega (arith, bit_and_ones 4 n)

hex_decode-digits :
    (a b c d : ℕ) (rest : Bytes)
    → a < 16
    → b < 16
    → c < 16
    → d < 16
    → hex_decode (
        byte_to_ascii_hex a
        ∷ byte_to_ascii_hex b
        ∷ byte_to_ascii_hex c
        ∷ byte_to_ascii_hex d
        ∷ rest)
      ≡ some (16 * (16 * (16 * a + b) + c) + d)
unfolding hex_decode
hex_decode-digits a b c d rest ha hb hc hd =
    ground (arith, digit_back a ha, digit_back b hb, digit_back c hc, digit_back d hd)

pub length-ascii_hex_16 : (n : ℕ) → length (ascii_hex_16 n) ≡ 4
length-ascii_hex_16 n = rw (ascii_hex_16-digits n)

-- The four digits that are written for `n` are read back as its 16 least significant bits, whatever
-- bytes follow them.
pub hex_decode-ascii_hex_16 :
    (n : ℕ) (rest : Bytes) → hex_decode (ascii_hex_16 n ++ rest) ≡ some (n % 65536)
hex_decode-ascii_hex_16 n rest = rw (ascii_hex_16-digits n) (
    hex_decode-digits (n / 2 ^ 12 % 16) (n / 2 ^ 8 % 16) (n / 2 ^ 4 % 16) (n / 2 ^ 0 % 16) rest
      (omega arith) (omega arith) (omega arith) (omega arith)
    ∙ ap some (omega arith))

-- A length up to MaxSize, other than 3, is read back from its four digits.
pub parse_length-ascii_hex_16 :
    (n : ℕ) (rest : Bytes) → n ≤ max_size → n ≢ 3 → parse_length (ascii_hex_16 n ++ rest) ≡ some n
unfolding parse_length
parse_length-ascii_hex_16 n rest h h3 = ground (arith, hex_decode-ascii_hex_16 n rest)

-- Whatever the buffer holds, a length that is accepted is at most MaxSize and is not 3.
pub parse_length_range : (b : Bytes) {n : ℕ} → parse_length b ≡ some n → (n ≤ max_size) × (n ≢ 3)
unfolding parse_length
parse_length_range b h = ground arith

-- The fixed packets.
pub parse_length_fixed :
    (rest : Bytes)
    → (parse_length (b'0' ∷ b'0' ∷ b'0' ∷ b'0' ∷ rest) ≡ some 0)
      × (parse_length (b'0' ∷ b'0' ∷ b'0' ∷ b'1' ∷ rest) ≡ some 1)
      × (parse_length (b'0' ∷ b'0' ∷ b'0' ∷ b'2' ∷ rest) ≡ some 2)
      × (parse_length (b'0' ∷ b'0' ∷ b'0' ∷ b'4' ∷ rest) ≡ some 4)
unfolding ascii_hex_16 byte_to_ascii_hex
parse_length_fixed rest = (
  parse_length-ascii_hex_16 0 rest (omega arith) (omega arith),
  parse_length-ascii_hex_16 1 rest (omega arith) (omega arith),
  parse_length-ascii_hex_16 2 rest (omega arith) (omega arith),
  parse_length-ascii_hex_16 4 rest (omega arith) (omega arith),
)
