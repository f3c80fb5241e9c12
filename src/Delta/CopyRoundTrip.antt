-- ===== src/Delta/CopyRoundTrip.antt =====
-- encodeCopyOperation (diff_delta.go) and decodeOffset, decodeSize (patch_delta.go) against each other.
use ai_experimental_search.Base.{ℕ, ◌^◌, ◌<◌, ◌≡◌, Bytes, true, some, ◌∷◌, ◌++◌}
use ai_experimental_search.Delta.Copy.{
  encode_copy_operation, is_copy_from_src, decode_offset, decode_size, copy_code, offset_bytes,
  size_bytes, encode_copy_operation-parts, is_copy_from_src-copy_code, decode_offset-bytes,
  decode_size-bytes,
}

-- The command byte of a copy operation is a copy command, and from the bytes behind it decodeOffset and
-- then decodeSize read the offset and the length back, and stop at its end. The offset is below 2 ^ 32,
-- and the length is from 1 on below 2 ^ 24.
pub decode-encode_copy_operation :
    (o l : ℕ) (rest : Bytes)
    → o < 2 ^ 32
    → 0 < l
    → l < 2 ^ 24
    → (cmd : ℕ) × (operands : Bytes) × (more : Bytes) × (encode_copy_operation o l ++ rest
        ≡ cmd ∷ operands)
      × (is_copy_from_src cmd ≡ true)
      × (decode_offset cmd operands ≡ some (o, more))
      × (decode_size cmd more ≡ some (l, rest))
decode-encode_copy_operation o l rest ho h0 hl = (
  copy_code o l,
  offset_bytes o (size_bytes l rest),
  size_bytes l rest,
  encode_copy_operation-parts o l rest,
  is_copy_from_src-copy_code o l,
  decode_offset-bytes o l (size_bytes l rest) ho,
  decode_size-bytes o l rest h0 hl,
)
