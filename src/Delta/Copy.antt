-- ===== src/Delta/Copy.antt =====
-- The copy operation of a delta: encodeCopyOperation (diff_delta.go), decodeOffset and decodeSize
-- (patch_delta.go). One byte says which bytes of the offset and of the length follow.
use ai_experimental_search.Base.{
  ℕ, zero, suc, ◌+◌, ◌*◌, ◌/◌, ◌%◌, ◌^◌, ◌≤◌, ◌<◌, ◌≡◌, refl, sym, ap, ◌∙◌, bit_and, bit_or, Bool,
  true, false, not, ◌&&◌, Option, none, some, List, [], ◌∷◌, ◌++◌, ◌==◌, length, if◌then◌else◌,
  Bytes, arith, Bool-cases, inl, inr, append_assoc, append-nil, length-append,
}
use ai_experimental_search.Base.Bits.{bit_or_shifted, bit_and_shifted, bit_and_ones}
use ai_experimental_search.Delta.Size.{uint_mod}
use native.Mathlib.Nat.{mod-eq_of_lt, one-le-pow, mul-div_cancel, mod-mod}
use mathlib.Core.Bool.{beq}

abbrev pub max_copy_size : ℕ
max_copy_size = 64 * 1024

-- `i` counts up, `rounds` are left; `base` is 0x01 for the offset and 0x10 for the length.
unfoldable pub op_bytes : ℕ → ℕ → ℕ → ℕ → ℕ × Bytes → ℕ × Bytes
op_bytes zero i base v acc = acc
op_bytes (suc rounds) i base v (code, opcodes) =
    let f = 0xff * 2 ^ (i * 8) in
    op_bytes rounds (i + 1) base v (
      if bit_and v f == 0
      then (code, opcodes)
      else (bit_or code (base * 2 ^ i), opcodes ++ (bit_and v f / 2 ^ (i * 8) % 256 ∷ [])))

unfoldable pub encode_copy_operation : ℕ → ℕ → Bytes
encode_copy_operation offset len =
    let (code, opcodes) = op_bytes 3 0 0x10 len (op_bytes 4 0 0x01 offset (0x80, [])) in
    (code % 256) ∷ opcodes

-- A mask and a shift.
abbrev pub offsets : List (ℕ × ℕ)
offsets = (0x01, 0) ∷ (0x02, 8) ∷ (0x04, 16) ∷ (0x08, 24) ∷ []

abbrev pub sizes : List (ℕ × ℕ)
sizes = (0x10, 0) ∷ (0x20, 8) ∷ (0x40, 16) ∷ []

-- The byte of one mask, where the delta goes on.
abbrev take_byte : (ℕ → Bytes → Option (ℕ × Bytes)) → ℕ → ℕ → Bytes → Option (ℕ × Bytes)
take_byte more shift v [] = none
take_byte more shift v (b ∷ delta) = more (bit_or v (b * 2 ^ shift % uint_mod)) delta

-- The loop over the masks; `none` is ErrInvalidDelta.
unfoldable pub decode_parts : List (ℕ × ℕ) → ℕ → ℕ → Bytes → Option (ℕ × Bytes)
decode_parts [] cmd v delta = some (v, delta)
decode_parts ((mask, shift) ∷ os) cmd v delta =
    let more = λ (v' : ℕ) (delta' : Bytes). decode_parts os cmd v' delta' in
    let given = take_byte more shift v delta in
    let absent = decode_parts os cmd v delta in if bit_and cmd mask == 0 then absent else given

unfoldable pub decode_offset : ℕ → Bytes → Option (ℕ × Bytes)
decode_offset cmd delta = decode_parts offsets cmd 0 delta

abbrev default_size : Option (ℕ × Bytes) → Option (ℕ × Bytes)
default_size none = none
default_size (some (sz, delta)) = some (if sz == 0 then max_copy_size else sz, delta)

unfoldable pub decode_size : ℕ → Bytes → Option (ℕ × Bytes)
decode_size cmd delta = default_size (decode_parts sizes cmd 0 delta)

unfoldable pub is_copy_from_src : ℕ → Bool
is_copy_from_src cmd = not (bit_and cmd 0x80 == 0)

unfoldable pub is_copy_from_delta : ℕ → Bool
is_copy_from_delta cmd = bit_and cmd 0x80 == 0 && not (cmd == 0)

-- The digits of a value, and what the encoder does with each.
abbrev digit : ℕ → ℕ → ℕ
digit v i = v / 2 ^ (i * 8) % 256

abbrev opt : ℕ → Bytes
opt d = if d == 0 then [] else d ∷ []

abbrev flagged : ℕ → Bool → ℕ → ℕ
flagged code absent m = if absent then code else bit_or code m

masked : (v i : ℕ) → bit_and v (0xff * 2 ^ (i * 8)) ≡ digit v i * 2 ^ (i * 8)
masked v i =
    bit_and_shifted (i * 8) v 255
    ∙ ap (λ (t : ℕ). t * 2 ^ (i * 8)) (bit_and_ones 8 (v / 2 ^ (i * 8)))

shifted_test : (d p : ℕ) → 1 ≤ p → (d * p == 0) ≡ (d == 0)
shifted_test zero p h = let e : 0 * p ≡ 0 = omega arith in rw e
shifted_test (suc d) p h = ground (arith, pos)
  where
    pos : 1 ≤ suc d * p
    pos = grind arith

op_bytes-step :
    (rounds i base v code : ℕ) (opcodes : Bytes)
    → op_bytes (suc rounds) i base v (code, opcodes)
      ≡ op_bytes rounds
          (i + 1)
          base
          v
          (flagged code (digit v i == 0) (base * 2 ^ i), opcodes ++ opt (digit v i))
unfolding op_bytes
op_bytes-step rounds i base v code opcodes =
    let p = 2 ^ (i * 8) in
    let pos : 1 ≤ p = one-le-pow (i * 8) 2 (omega arith) in
    let back : digit v i * p / p % 256 ≡ digit v i =
      ap (λ (t : ℕ). t % 256) (mul-div_cancel (digit v i) pos) ∙ mod-mod (v / p) 256 in
    rw (masked v i, shifted_test (digit v i) p pos, back)
      (elim (Bool-cases (digit v i == 0)) [
        | inl absent ↦ rw (absent, append-nil opcodes)
        | inr there ↦ rw there
      ])

-- The code byte, from which of the seven digits are zero.
abbrev code_of : Bool → Bool → Bool → Bool → Bool → Bool → Bool → ℕ
code_of a b c d x y z =
    flagged
      (flagged (flagged (flagged (flagged (flagged (flagged 0x80 a 1) b 2) c 4) d 8) x 16) y 32) z
      64
    % 256

all_bool : (Bool → Bool) → Bool
all_bool p = p true && p false

all_bool_sound : (p : Bool → Bool) → all_bool p ≡ true → (b : Bool) → p b ≡ true
unfolding all_bool
all_bool_sound p h true = ground arith
all_bool_sound p h false = ground arith

-- Each mask tests for its digit.
abbrev Tests : Bool → Bool → Bool → Bool → Bool → Bool → Bool → ℕ → Type 0
Tests a b c d x y z code =
    ((bit_and code 0x01 == 0) ≡ a)
    × ((bit_and code 0x02 == 0) ≡ b)
    × ((bit_and code 0x04 == 0) ≡ c)
    × ((bit_and code 0x08 == 0) ≡ d)
    × ((bit_and code 0x10 == 0) ≡ x)
    × ((bit_and code 0x20 == 0) ≡ y)
    × ((bit_and code 0x40 == 0) ≡ z)
    × ((bit_and code 0x80 == 0) ≡ false)

tests_bool : Bool → Bool → Bool → Bool → Bool → Bool → Bool → ℕ → Bool
tests_bool a b c d x y z code =
    beq (bit_and code 0x01 == 0) a
    && (beq (bit_and code 0x02 == 0) b
        && (beq (bit_and code 0x04 == 0) c
            && (beq (bit_and code 0x08 == 0) d
                && (beq (bit_and code 0x10 == 0) x
                    && (beq (bit_and code 0x20 == 0) y
                        && (beq (bit_and code 0x40 == 0) z && not (bit_and code 0x80 == 0)))))))

tests_bool-Tests :
    (a b c d x y z : Bool) (code : ℕ)
    → tests_bool a b c d x y z code ≡ true
    → Tests a b c d x y z code
unfolding tests_bool
tests_bool-Tests a b c d x y z code h =
    let (ha, h) = split _ _ h in
    let (hb, h) = split _ _ h in
    let (hc, h) = split _ _ h in
    let (hd, h) = split _ _ h in
    let (hx, h) = split _ _ h in
    let (hy, h) = split _ _ h in
    let (hz, h) = split _ _ h in
    (
      same _ _ ha,
      same _ _ hb,
      same _ _ hc,
      same _ _ hd,
      same _ _ hx,
      same _ _ hy,
      same _ _ hz,
      off _ h,
    )
  where
    split : (p q : Bool) → (p && q) ≡ true → (p ≡ true) × (q ≡ true)
    split p q h = ground arith

    same : (p q : Bool) → beq p q ≡ true → p ≡ q
    same p q h = ground arith

    off : (p : Bool) → not p ≡ true → p ≡ false
    off p h = ground arith

abbrev each : (Bool → Bool → Bool → Bool → Bool → Bool → Bool → Bool) → Bool
each p = all_bool λ a.
    all_bool
      λ b. all_bool λ c. all_bool λ d. all_bool λ x. all_bool λ y. all_bool λ z. p a b c d x y z

tests_table : each (λ a b c d x y z. tests_bool a b c d x y z (code_of a b c d x y z)) ≡ true
unfolding all_bool tests_bool
tests_table = refl

Tests-code : (a b c d x y z : Bool) → Tests a b c d x y z (code_of a b c d x y z)
Tests-code a b c d x y z = tests_bool-Tests a b c d x y z _ (
    all_bool_sound _
      (all_bool_sound _
        (all_bool_sound _
          (all_bool_sound _
            (all_bool_sound _ (all_bool_sound _ (all_bool_sound _ tests_table a) b) c) d)
          x)
        y)
      z)

-- One mask of the decoder over what the encoder wrote for the digit.
decode_parts-step :
    (mask shift cmd v d : ℕ) (os : List (ℕ × ℕ)) (rest : Bytes)
    → (bit_and cmd mask == 0) ≡ (d == 0)
    → v < 2 ^ shift
    → d * 2 ^ shift < uint_mod
    → decode_parts ((mask, shift) ∷ os) cmd v (opt d ++ rest)
      ≡ decode_parts os cmd (v + d * 2 ^ shift) rest
unfolding decode_parts
decode_parts-step mask shift cmd v zero os rest h hv fits =
    rw h (let e : v + 0 * 2 ^ shift ≡ v = omega arith in rw e)
decode_parts-step mask shift cmd v (suc d) os rest h hv fits =
    let some_bits : (suc d == 0) ≡ false = ground arith in
    rw (h, some_bits) (rw (mod-eq_of_lt fits, bit_or_shifted shift v (suc d) hv))

-- The parts of an encoded copy operation.
abbrev pub copy_code : ℕ → ℕ → ℕ
copy_code o l =
    code_of (digit o 0 == 0) (digit o 1 == 0) (digit o 2 == 0) (digit o 3 == 0) (digit l 0 == 0)
      (digit l 1 == 0) (digit l 2 == 0)

abbrev pub size_bytes : ℕ → Bytes → Bytes
size_bytes l rest = opt (digit l 0) ++ (opt (digit l 1) ++ (opt (digit l 2) ++ rest))

abbrev pub offset_bytes : ℕ → Bytes → Bytes
offset_bytes o rest =
    opt (digit o 0) ++ (opt (digit o 1) ++ (opt (digit o 2) ++ (opt (digit o 3) ++ rest)))

offset_ops :
    (v : ℕ)
    → op_bytes 4 0 0x01 v (0x80, []) ≡ (
      flagged
          (flagged
            (flagged (flagged 0x80 (digit v 0 == 0) 1) (digit v 1 == 0) 2)
            (digit v 2 == 0)
            4)
          (digit v 3 == 0)
          8,
      ((opt (digit v 0) ++ opt (digit v 1)) ++ opt (digit v 2)) ++ opt (digit v 3),
    )
offset_ops v =
    op_bytes-step 3 0 1 v 0x80 []
    ∙ op_bytes-step 2 1 1 v _ _
    ∙ op_bytes-step 1 2 1 v _ _
    ∙ op_bytes-step 0 3 1 v _ _
    ∙ unfold op_bytes in refl

size_ops :
    (v code : ℕ) (ops : Bytes)
    → op_bytes 3 0 0x10 v (code, ops) ≡ (
      flagged (flagged (flagged code (digit v 0 == 0) 16) (digit v 1 == 0) 32) (digit v 2 == 0) 64,
      ((ops ++ opt (digit v 0)) ++ opt (digit v 1)) ++ opt (digit v 2),
    )
size_ops v code ops =
    op_bytes-step 2 0 16 v code ops
    ∙ op_bytes-step 1 1 16 v _ _
    ∙ op_bytes-step 0 2 16 v _ _
    ∙ unfold op_bytes in refl

regroup :
    (a b c d x y z rest : Bytes)
    → ((((((a ++ b) ++ c) ++ d) ++ x) ++ y) ++ z) ++ rest
      ≡ a ++ (b ++ (c ++ (d ++ (x ++ (y ++ (z ++ rest))))))
regroup a b c d x y z rest = simp append_assoc

pub encode_copy_operation-parts :
    (o l : ℕ) (rest : Bytes)
    → encode_copy_operation o l ++ rest ≡ copy_code o l ∷ offset_bytes o (size_bytes l rest)
unfolding encode_copy_operation
encode_copy_operation-parts o l rest =
    rw (offset_ops o, size_ops l)
      (ap (◌∷◌ (copy_code o l)) (
        regroup (opt (digit o 0)) (opt (digit o 1)) (opt (digit o 2)) (opt (digit o 3))
          (opt (digit l 0)) (opt (digit l 1)) (opt (digit l 2)) rest))

-- The code byte of a copy operation, its tests, and that it is a byte with the top bit set.
code-Tests :
    (o l : ℕ)
    → Tests
        (digit o 0 == 0)
        (digit o 1 == 0)
        (digit o 2 == 0)
        (digit o 3 == 0)
        (digit l 0 == 0)
        (digit l 1 == 0)
        (digit l 2 == 0)
        (copy_code o l)
code-Tests o l = Tests-code _ _ _ _ _ _ _

pub is_copy_from_src-copy_code : (o l : ℕ) → is_copy_from_src (copy_code o l) ≡ true
unfolding is_copy_from_src
is_copy_from_src-copy_code o l = rw ((code-Tests o l).7)

some_value :
    (a b : ℕ) (rest : Bytes)
    → a ≡ b
    → ◌≡◌ {A = Option (ℕ × Bytes)} (some (a, rest)) (some (b, rest))
some_value a b rest e = rw e

pub decode_offset-bytes :
    (o l : ℕ) (rest : Bytes)
    → o < 2 ^ 32
    → decode_offset (copy_code o l) (offset_bytes o rest) ≡ some (o, rest)
unfolding decode_offset
decode_offset-bytes o l rest h =
    let cmd = copy_code o l in
    let v1 = 0 + digit o 0 * 2 ^ 0 in
    let v2 = v1 + digit o 1 * 2 ^ 8 in
    let v3 = v2 + digit o 2 * 2 ^ 16 in
    let v4 = v3 + digit o 3 * 2 ^ 24 in
    decode_parts-step 0x01 0 cmd 0 (digit o 0) _ _ (code-Tests o l).0 (omega arith) (omega arith)
    ∙ decode_parts-step 0x02 8 cmd v1 (digit o 1) _ _ (code-Tests o l).1 (omega arith) (omega arith)
    ∙ decode_parts-step 0x04 16 cmd v2 (digit o 2) _ _ (code-Tests o l).2 (omega arith)
        (omega arith)
    ∙ decode_parts-step 0x08 24 cmd v3 (digit o 3) _ _ (code-Tests o l).3 (omega arith)
        (omega arith)
    ∙ unfold decode_parts in some_value v4 o rest (omega arith)

nonzero_test : (l : ℕ) → 0 < l → (l == 0) ≡ false
nonzero_test l h = ground arith

-- A length from 1 on below 2 ^ 24. (A zero length would be read as 0x10000.)
pub decode_size-bytes :
    (o l : ℕ) (rest : Bytes)
    → 0 < l
    → l < 2 ^ 24
    → decode_size (copy_code o l) (size_bytes l rest) ≡ some (l, rest)
unfolding decode_size
decode_size-bytes o l rest pos h =
    let cmd = copy_code o l in
    let v1 = 0 + digit l 0 * 2 ^ 0 in
    let v2 = v1 + digit l 1 * 2 ^ 8 in
    let v3 = v2 + digit l 2 * 2 ^ 16 in
    let parts : decode_parts sizes cmd 0 (size_bytes l rest) ≡ some (l, rest) =
      decode_parts-step 0x10 0 cmd 0 (digit l 0) _ _ (code-Tests o l).4 (omega arith) (omega arith)
      ∙ decode_parts-step 0x20 8 cmd v1 (digit l 1) _ _ (code-Tests o l).5 (omega arith)
          (omega arith)
      ∙ decode_parts-step 0x40 16 cmd v2 (digit l 2) _ _ (code-Tests o l).6 (omega arith)
          (omega arith)
      ∙ unfold decode_parts in some_value v3 l rest (omega arith) in
    rw parts (rw (nonzero_test l pos))

length-opt : (d : ℕ) → d < 256 → d ≤ 255 * length (opt d)
length-opt d h = ground arith

-- A copy operation has its code byte and at least one byte of the length.
pub length-encode_copy_operation :
    (o l : ℕ) → 0 < l → l < 2 ^ 24 → 2 ≤ length (encode_copy_operation o l)
length-encode_copy_operation o l pos h = omega (
  arith,
  ap length (sym (append-nil (encode_copy_operation o l)) ∙ encode_copy_operation-parts o l []),
  length-append (opt (digit o 0))
      (opt (digit o 1) ++ (opt (digit o 2) ++ (opt (digit o 3) ++ size_bytes l []))),
  length-append (opt (digit o 1)) (opt (digit o 2) ++ (opt (digit o 3) ++ size_bytes l [])),
  length-append (opt (digit o 2)) (opt (digit o 3) ++ size_bytes l []),
  length-append (opt (digit o 3)) (size_bytes l []),
  length-append (opt (digit l 0)) (opt (digit l 1) ++ (opt (digit l 2) ++ [])),
  length-append (opt (digit l 1)) (opt (digit l 2) ++ []),
  length-append (opt (digit l 2)) [],
  length-opt (digit l 0) (omega arith),
  length-opt (digit l 1) (omega arith),
  length-opt (digit l 2) (omega arith),
)
