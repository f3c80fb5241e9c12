-- ===== src/Delta/Diff.antt =====
-- diffDelta, encodeInsertOperation (plumbing/format/packfile/diff_delta.go), over the answers of the
-- index's findMatch, which are the argument `find`.
use ai_experimental_search.Base.{
  ℕ, zero, suc, ◌+◌, ◌-◌, ◌%◌, ◌≤◌, ◌<◌, ◌≡◌, ◌⊎◌, [], ◌∷◌, ◌++◌, ltb, leb, ◌==◌, length, take,
  drop, if◌then◌else◌, Bytes,
}
use ai_experimental_search.Delta.Size.{delta_encode_size}
use ai_experimental_search.Delta.Copy.{encode_copy_operation, max_copy_size}

-- The offset and the length that findMatch returns; `short_source` is the length -1.
pub data Match : Type 0 where
  match : ℕ → ℕ → Match
  short_source : Match

abbrev pub block_size : ℕ
block_size = 16

-- What the callers of findMatch rely on: from `block_size` bytes on the match is one in the source, and
-- a shorter one lies in the target.
abbrev pub IsMatch : Bytes → Bytes → ℕ → Match → Type 0
IsMatch src tgt i short_source = Unit
IsMatch src tgt i (match o l) =
    (i + l ≤ length tgt)
    × (l < block_size ⊎ ((o + l ≤ length src) × (take l (drop o src) ≡ take l (drop i tgt))))

-- The loop of encodeInsertOperation over the bytes left; it takes 127 of them in a round.
unfoldable pub insert_loop : ℕ → Bytes → Bytes
insert_loop zero b = (length b % 256) ∷ b
insert_loop (suc fuel) b =
    let more = 127 ∷ (take 127 b ++ insert_loop fuel (drop 127 b)) in
    if leb (length b) 127 then (length b % 256) ∷ b else more

-- What it appends to the output; the insert buffer is empty behind it.
unfoldable pub encode_insert_operation : Bytes → Bytes → Bytes
unfolding insert_loop
encode_insert_operation [] buf = buf
encode_insert_operation (x ∷ xs) buf = buf ++ insert_loop (length (x ∷ xs)) (x ∷ xs)

-- The loop over the length of a match that is left, `rl`.
unfoldable pub copy_loop : ℕ → ℕ → ℕ → Bytes
copy_loop zero offset rl = []
copy_loop (suc fuel) offset rl =
    let more =
      encode_copy_operation offset max_copy_size
      ++ copy_loop fuel (offset + max_copy_size) (rl - max_copy_size) in
    if rl == 0 then [] else if ltb rl max_copy_size then encode_copy_operation offset rl else more

module _ (find : ℕ → Match) (tgt : Bytes) where
  -- One round at `i` with the insert buffer and the output; `more` goes on.
  abbrev pub on_match : (ℕ → Bytes → Bytes → Bytes) → ℕ → Bytes → Bytes → Match → Bytes
  on_match more i ibuf buf short_source = encode_insert_operation (ibuf ++ drop i tgt) buf
  on_match more i ibuf buf (match offset l) =
      if l == 0
      then more (i + 1) (ibuf ++ take 1 (drop i tgt)) buf
      else if ltb l block_size
      then more (i + l) (ibuf ++ take l (drop i tgt)) buf
      else more (i + l) [] (encode_insert_operation ibuf buf ++ copy_loop l offset l)

  -- Each round goes on by a byte at least, so `length tgt` rounds are enough.
  unfoldable pub diff_loop : ℕ → ℕ → Bytes → Bytes → Bytes
  diff_loop zero i ibuf buf = encode_insert_operation ibuf buf
  diff_loop (suc fuel) i ibuf buf =
      let round = on_match (λ i' ibuf' buf'. diff_loop fuel i' ibuf' buf') i ibuf buf (find i) in
      if ltb i (length tgt) then round else encode_insert_operation ibuf buf

unfoldable pub diff_delta : (ℕ → Match) → Bytes → Bytes → Bytes
unfolding diff_loop encode_insert_operation copy_loop
diff_delta find src tgt =
    diff_loop find tgt (length tgt) 0 []
      (delta_encode_size (length src) ++ delta_encode_size (length tgt))
