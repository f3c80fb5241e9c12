-- ===== src/Delta/Ops.antt =====
-- The commands of a delta, and what patchDelta does with them.
use ai_experimental_search.Base.{
  ℕ, zero, suc, ◌+◌, ◌-◌, ◌^◌, ◌≤◌, ◌<◌, ◌≡◌, refl, sym, ap, ◌∙◌, true, false, ◌||◌, List, [], ◌∷◌,
  ◌++◌, ◌==◌, ltb-false, length, length-append, length-take, length-drop, take, drop, take-append,
  drop-append, Bytes, All, arith, append_assoc, append-nil,
}
use ai_experimental_search.Delta.Size.{uint_mod, top_bit}
use ai_experimental_search.Delta.Copy.{
  is_copy_from_src, is_copy_from_delta, encode_copy_operation, encode_copy_operation-parts,
  size_bytes, is_copy_from_src-copy_code, decode_offset-bytes, decode_size-bytes,
}
use ai_experimental_search.Delta.Patch.{
  Patched, patched, patch_loop, next, minus, invalid_size, invalid_offset_size,
}

pub data Op : Type 0 where
  copy : ℕ → ℕ → Op
  insert : Bytes → Op

abbrev pub encode_op : Op → Bytes
encode_op (copy o l) = encode_copy_operation o l
encode_op (insert b) = length b ∷ b

abbrev pub encode_ops : List Op → Bytes
encode_ops [] = []
encode_ops (op ∷ ops) = encode_op op ++ encode_ops ops

abbrev pub output : Bytes → Op → Bytes
output src (copy o l) = take l (drop o src)
output src (insert b) = b

abbrev pub outputs : Bytes → List Op → Bytes
outputs src [] = []
outputs src (op ∷ ops) = output src op ++ outputs src ops

-- A command that the encoding can hold, and whose range lies in the source.
abbrev pub IsOp : Bytes → Op → Type 0
IsOp src (copy o l) = (0 < l) × (l < 2 ^ 24) × (o < 2 ^ 32) × (o + l ≤ length src)
IsOp src (insert b) = (0 < length b) × (length b < 128)

pub length-output : (src : Bytes) (o l : ℕ) → o + l ≤ length src → length (take l (drop o src)) ≡ l
length-output src o l h = omega (arith, length-take l (drop o src), length-drop o src)

output_pos : (src : Bytes) (op : Op) → IsOp src op → 0 < length (output src op)
output_pos src (copy o l) (pos, small, off, fits) = omega (arith, length-output src o l fits)
output_pos src (insert b) (pos, small) = pos

range_ok :
    (o l n t : ℕ)
    → o < 2 ^ 32
    → l < 2 ^ 24
    → o + l ≤ n
    → l ≤ t
    → (invalid_size l t || invalid_offset_size o l n) ≡ false
range_ok o l n t ho hl h ht = ground arith

minus_lem : (r n : ℕ) → r < uint_mod → n ≤ r → minus r n ≡ r - n
minus_lem r n h hn = omega arith

nonzero : (n : ℕ) → 0 < n → (n == 0) ≡ false
nonzero n h = ground arith

not_copy : (n : ℕ) → n < 128 → is_copy_from_src n ≡ false
unfolding is_copy_from_src
not_copy n h = ground (arith, top_bit n)

is_insert : (n : ℕ) → 0 < n → n < 128 → is_copy_from_delta n ≡ true
unfolding is_copy_from_delta
is_insert n h0 h = ground (arith, top_bit n)

module _ (src : Bytes) (t : ℕ) where
  abbrev pub loop : ℕ → ℕ → Bytes → Bytes → Patched
  loop fuel = patch_loop fuel src (length src) t

  -- One command.
  loop-op :
      (fuel remaining : ℕ) (op : Op) (rest dst : Bytes)
      → IsOp src op
      → length (output src op) ≤ remaining
      → remaining ≤ t
      → t < uint_mod
      → loop (suc fuel) remaining (encode_op op ++ rest) dst
        ≡ next (loop fuel) (remaining - length (output src op)) rest (dst ++ output src op)
  unfolding patch_loop
  loop-op fuel remaining (copy o l) rest dst (pos, small, off, fits) hr ht hu =
      let size = length-output src o l fits in
      rw (encode_copy_operation-parts o l rest) (
        rw
          (
            is_copy_from_src-copy_code o l,
            decode_offset-bytes o l (size_bytes l rest) off,
            decode_size-bytes o l rest pos small,
            range_ok o l (length src) t off small fits (omega (arith, size)),
          )
          (ap (λ (k : ℕ). next (loop fuel) k rest (dst ++ take l (drop o src)))
            (minus_lem remaining l (omega arith) (omega (arith, size))
              ∙ ap (λ (k : ℕ). remaining - k) (sym size))))
  loop-op fuel remaining (insert b) rest dst (pos, small) hr ht hu =
      rw
        (
          not_copy (length b) small,
          is_insert (length b) pos small,
          ltb-false t (length b) (omega arith),
          ltb-false (length (b ++ rest)) (length b) (omega (arith, length-append b rest)),
        )
        (rw (
          take-append (length b) b rest refl,
          drop-append (length b) b rest refl,
          minus_lem remaining (length b) (omega arith) hr,
        ))

  -- All commands: what remains is what they still put out.
  pub loop-ops :
      (fuel : ℕ) (op : Op) (ops : List Op) (dst : Bytes)
      → All (IsOp src) (op ∷ ops)
      → length ops < fuel
      → length (outputs src (op ∷ ops)) ≤ t
      → t < uint_mod
      → loop fuel (length (outputs src (op ∷ ops))) (encode_ops (op ∷ ops)) dst
        ≡ patched (dst ++ outputs src (op ∷ ops))
  loop-ops zero op ops dst ok hf ht hu = absurd (omega arith)
  loop-ops (suc fuel) op [] dst (ok, oks) hf ht hu =
      let n : length (output src op ++ []) ≡ length (output src op) =
        ap length (append-nil (output src op)) in
      loop-op fuel (length (output src op ++ [])) op [] dst ok (omega (arith, n)) ht hu
      ∙ finish (omega (arith, n))
    where
      finish :
          length (output src op ++ []) - length (output src op) ≡ 0
          → next
              (loop fuel)
              (length (output src op ++ []) - length (output src op))
              []
              (dst ++ output src op)
            ≡ patched (dst ++ (output src op ++ []))
      finish e = rw (e, append-nil (output src op))
  loop-ops (suc fuel) op (op' ∷ ops) dst (ok, (ok', oks)) hf ht hu =
      let more = outputs src (op' ∷ ops) in
      let n : length (output src op ++ more) - length (output src op) ≡ length more =
        omega (arith, length-append (output src op) more) in
      let left : 0 < length more =
        omega (arith, output_pos src op' ok', length-append (output src op') (outputs src ops)) in
      loop-op fuel (length (output src op ++ more)) op (encode_ops (op' ∷ ops)) dst ok
        (omega (arith, length-append (output src op) more)) ht hu
      ∙ rw (n, nonzero (length more) left)
          (loop-ops fuel op' ops (dst ++ output src op) (ok', oks) (omega arith)
              (omega (arith, length-append (output src op) more)) hu
            ∙ ap patched (append_assoc dst (output src op) more))
