-- ===== src/Varint.antt =====
-- utils/binary/read.go and write.go: variable-width integers, ReadUntil, IsBinary. A non-negative int64 is its value,
-- and the sum and the shift are taken modulo 2 ^ 64; `none` is the error of a read at the end of the stream.
use ai_experimental_search.Base.{
  ℕ, zero, suc, ◌+◌, ◌-◌, ◌*◌, ◌/◌, ◌%◌, ◌^◌, ◌≤◌, ◌<◌, ◌≡◌, bit_and, bit_or, Bytes, true, false,
  sym, ltb, ltb-false, lt→ltb, Option, none, some, [], ◌∷◌, ◌++◌, ◌==◌, if◌then◌else◌, arith, ◌∙◌,
  ap, subst, All, ==_refl, Bool, ◌||◌, length,
}
use ai_experimental_search.Base.Bits.{low_seven, bit_or_continue, bit_and_shifted, bit_and_ones}

abbrev pub mask_continue : ℕ
mask_continue = 128

abbrev pub mask_length : ℕ
mask_length = 127

abbrev pub length_bits : ℕ
length_bits = 7

-- The loop behind a byte with the continuation bit; `v` is the value so far.
unfoldable pub read_more : ℕ → Bytes → Option (ℕ × Bytes)
read_more v [] = none
read_more v (c ∷ r) =
    let v' = ((v + 1) * 2 ^ length_bits + bit_and c mask_length) % 2 ^ 64 in
    let more = read_more v' r in if bit_and c mask_continue == 0 then some (v', r) else more

unfoldable pub read_variable_width_int : Bytes → Option (ℕ × Bytes)
unfolding read_more
read_variable_width_int [] = none
read_variable_width_int (c ∷ r) =
    let v = bit_and c mask_length in
    let more = read_more v r in if bit_and c mask_continue == 0 then some (v, r) else more

-- The loop of the writer, from the last byte to the first; each round divides `n`, so `n` rounds are enough.
unfoldable pub write_bytes_before : ℕ → ℕ → Bytes → Bytes
write_bytes_before zero n buf = buf
write_bytes_before (suc fuel) n buf =
    let m = n - 1 in
    let more = write_bytes_before fuel (m / 2 ^ 7) (bit_or 0x80 (bit_and m 0x7f % 256) ∷ buf) in
    if n == 0 then buf else more

unfoldable pub write_variable_width_int : ℕ → Bytes
unfolding write_bytes_before
write_variable_width_int n = write_bytes_before (n / 2 ^ 7) (n / 2 ^ 7) (bit_and n 0x7f % 256 ∷ [])

continue_bit : (b : ℕ) → bit_and b mask_continue ≡ b / 128 % 2 * 128
continue_bit b = omega (arith, bit_and_shifted 7 b 1, bit_and_ones 1 (b / 2 ^ 7))

-- A byte with the continuation bit, in front and behind such bytes.
first_byte : (c : ℕ) (r : Bytes) → c < 128 → read_variable_width_int ((c + 128) ∷ r) ≡ read_more c r
unfolding read_variable_width_int
first_byte c r h =
    let group : bit_and (c + 128) mask_length ≡ c = omega (arith, low_seven (c + 128)) in
    let continues : (bit_and (c + 128) mask_continue == 0) ≡ false =
      ground (arith, continue_bit (c + 128)) in
    rw (group, continues)

next_byte :
    (v c : ℕ) (r : Bytes)
    → c < 128
    → (v + 1) * 128 + c < 2 ^ 64
    → read_more v ((c + 128) ∷ r) ≡ read_more ((v + 1) * 128 + c) r
unfolding read_more
next_byte v c r h fits =
    let group : bit_and (c + 128) mask_length ≡ c = omega (arith, low_seven (c + 128)) in
    let continues : (bit_and (c + 128) mask_continue == 0) ≡ false =
      ground (arith, continue_bit (c + 128)) in
    let small : ((v + 1) * 128 + c) % 2 ^ 64 ≡ (v + 1) * 128 + c = omega (arith, fits) in
    rw (group, continues, small)

last_byte :
    (v c : ℕ) (r : Bytes)
    → c < 128
    → (v + 1) * 128 + c < 2 ^ 64
    → read_more v (c ∷ r) ≡ some ((v + 1) * 128 + c, r)
unfolding read_more
last_byte v c r h fits =
    let group : bit_and c mask_length ≡ c = omega (arith, low_seven c) in
    let stops : (bit_and c mask_continue == 0) ≡ true = ground (arith, continue_bit c) in
    let small : ((v + 1) * 128 + c) % 2 ^ 64 ≡ (v + 1) * 128 + c = omega (arith, fits) in
    rw (group, stops, small)

-- What the bytes `buf` give behind those that the writer puts before them.
abbrev Reads : ℕ → Bytes → Option (ℕ × Bytes) → Type 0
Reads zero buf result = read_variable_width_int buf ≡ result
Reads (suc m) buf result = read_more m buf ≡ result

Reads-byte :
    (q c : ℕ) (buf : Bytes) (result : Option (ℕ × Bytes))
    → c < 128
    → q * 128 + c < 2 ^ 64
    → read_more (q * 128 + c) buf ≡ result
    → Reads q ((c + 128) ∷ buf) result
Reads-byte zero c buf result h fits e =
    first_byte c buf h ∙ ap (λ (v : ℕ). read_more v buf) (omega arith) ∙ e
Reads-byte (suc q) c buf result h fits e =
    next_byte q c buf h (omega (arith, fits)) ∙ ap (λ (v : ℕ). read_more v buf) (omega arith) ∙ e

written_byte : (m : ℕ) → bit_or 0x80 (bit_and m 0x7f % 256) ≡ m % 128 + 128
written_byte m =
    let group : bit_and m 0x7f % 256 ≡ m % 128 = omega (arith, low_seven m) in
    rw group (bit_or_continue (m % 128) (omega arith))

alone : (c : ℕ) (rest : Bytes) → c < 128 → read_variable_width_int (c ∷ rest) ≡ some (c, rest)
unfolding read_variable_width_int
alone c rest h =
    let group : bit_and c mask_length ≡ c = omega (arith, low_seven c) in
    let stops : (bit_and c mask_continue == 0) ≡ true = ground (arith, continue_bit c) in
    rw (group, stops)

-- The last byte, behind the groups `q`.
Reads-last :
    (q c : ℕ) (rest : Bytes)
    → c < 128
    → q * 128 + c < 2 ^ 64
    → Reads q (c ∷ rest) (some (q * 128 + c, rest))
Reads-last zero c rest h fits = alone c rest h ∙ ap (λ (v : ℕ). some (v, rest)) (omega arith)
Reads-last (suc q) c rest h fits =
    last_byte q c rest h (omega (arith, fits)) ∙ ap (λ (v : ℕ). some (v, rest)) (omega arith)

Reads-write_bytes_before :
    (fuel n : ℕ) (buf rest : Bytes) (result : Option (ℕ × Bytes))
    → n ≤ fuel
    → n < 2 ^ 64
    → Reads n (buf ++ rest) result
    → read_variable_width_int (write_bytes_before fuel n buf ++ rest) ≡ result
unfolding write_bytes_before
Reads-write_bytes_before zero zero buf rest result h fits e = e
Reads-write_bytes_before zero (suc n) buf rest result h fits e = absurd (omega (arith, h))
Reads-write_bytes_before (suc fuel) zero buf rest result h fits e = e
Reads-write_bytes_before (suc fuel) (suc m) buf rest result h fits e =
    let nonzero : (suc m == 0) ≡ false = ground arith in
    let pred : suc m - 1 ≡ m = omega arith in
    let byte : bit_or 0x80 (bit_and m 0x7f % 256) ≡ m % 128 + 128 = written_byte m in
    let whole : m / 2 ^ 7 * 128 + m % 128 ≡ m = omega arith in
    let before : Reads (m / 2 ^ 7) ((m % 128 + 128) ∷ (buf ++ rest)) result =
      Reads-byte (m / 2 ^ 7) (m % 128) (buf ++ rest) result (omega arith) (omega (arith, fits))
        (ap (λ (v : ℕ). read_more v (buf ++ rest)) whole ∙ e) in
    rw (nonzero, pred, byte)
      (Reads-write_bytes_before fuel (m / 2 ^ 7) ((m % 128 + 128) ∷ buf) rest result
        (omega (arith, h)) (omega (arith, fits)) before)

-- An int64 that is not negative is read back from its bytes, and the reader stops behind them.
pub read_variable_width_int-write_variable_width_int :
    (n : ℕ) (rest : Bytes)
    → n < 2 ^ 63
    → read_variable_width_int (write_variable_width_int n ++ rest) ≡ some (n, rest)
unfolding write_variable_width_int
read_variable_width_int-write_variable_width_int n rest h =
    let byte : bit_and n 0x7f % 256 ≡ n % 128 = omega (arith, low_seven n) in
    let whole : n / 2 ^ 7 * 128 + n % 128 ≡ n = omega arith in
    rw byte (
      Reads-write_bytes_before (n / 2 ^ 7) (n / 2 ^ 7) (n % 128 ∷ []) rest (some (n, rest))
        (omega arith) (omega (arith, h))
        (subst (λ (v : ℕ). Reads (n / 2 ^ 7) (n % 128 ∷ rest) (some (v, rest))) whole
          (Reads-last (n / 2 ^ 7) (n % 128) rest (omega arith) (omega (arith, h)))))

-- ReadUntil: the bytes before the delimiter; the delimiter is taken off the stream too.
unfoldable pub read_until : Bytes → ℕ → Option (Bytes × Bytes)
read_until [] delim = none
read_until (b ∷ r) delim =
    let more : Option (Bytes × Bytes) = elim (read_until r delim) [
      | none ↦ none
      | some (value, behind) ↦ some (b ∷ value, behind)
    ] in
    if b == delim then some ([], r) else more

-- ReadUntil gives the bytes before the first delimiter and stops behind it, whatever follows.
pub read_until-append :
    (value rest : Bytes) (delim : ℕ)
    → All (λ b. (b == delim) ≡ false) value
    → read_until (value ++ (delim ∷ rest)) delim ≡ some (value, rest)
unfolding read_until
read_until-append [] rest delim h = rw (==_refl delim)
read_until-append (b ∷ value) rest delim (h, hs) = rw (h, read_until-append value rest delim hs)

abbrev pub sniff_len : ℕ
sniff_len = 8000

-- The loop of IsBinary; `room` is how many bytes it still looks at. A read error other than the end of the
-- stream is left out.
unfoldable pub sniff : ℕ → Bytes → Bool
sniff zero r = false
sniff (suc room) [] = false
sniff (suc room) (b ∷ r) = b == 0 || sniff room r

unfoldable pub is_binary : Bytes → Bool
unfolding sniff
is_binary r = sniff sniff_len r

sniff-append :
    (room : ℕ) (text rest : Bytes)
    → All (λ b. (b == 0) ≡ false) text
    → sniff room (text ++ (0 ∷ rest)) ≡ ltb (length text) room
unfolding sniff
sniff-append zero text rest h = sym (ltb-false (length text) 0 (omega arith))
sniff-append (suc room) [] rest h = sym (lt→ltb 0 (suc room) (omega arith))
sniff-append (suc room) (b ∷ text) rest (h, hs) =
    rw (h, sniff-append room text rest hs) (ground arith)

-- IsBinary of text without a zero byte, then a zero byte and anything: it is found exactly where fewer than
-- 8000 bytes stand before it.
pub is_binary-append :
    (text rest : Bytes)
    → All (λ b. (b == 0) ≡ false) text
    → is_binary (text ++ (0 ∷ rest)) ≡ ltb (length text) sniff_len
unfolding is_binary
is_binary-append text rest h = sniff-append sniff_len text rest h
