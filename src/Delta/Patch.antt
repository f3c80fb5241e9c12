-- ===== src/Delta/Patch.antt =====
-- patchDelta and PatchDelta (plumbing/format/packfile/patch_delta.go).
use ai_experimental_search.Base.{
  ℕ, zero, suc, ◌+◌, ◌-◌, ◌%◌, Bool, ◌||◌, Option, none, some, [], ◌∷◌, ◌++◌, ltb, ◌==◌, length,
  take, drop, if◌then◌else◌, Bytes,
}
use ai_experimental_search.Delta.Size.{uint_mod, decode_leb_128}
use ai_experimental_search.Delta.Copy.{
  decode_offset, decode_size, is_copy_from_src, is_copy_from_delta,
}

-- A target, ErrInvalidDelta or ErrDeltaCmd.
pub data Patched : Type 0 where
  patched : Bytes → Patched
  invalid_delta delta_cmd : Patched

abbrev pub min_delta_size : ℕ
min_delta_size = 4

abbrev pub min_copy_size : ℕ
min_copy_size = 4

abbrev pub invalid_size : ℕ → ℕ → Bool
invalid_size sz target_sz = ltb target_sz sz

abbrev pub sum_overflows : ℕ → ℕ → Bool
sum_overflows a b = ltb ((a + b) % uint_mod) a

abbrev pub invalid_offset_size : ℕ → ℕ → ℕ → Bool
invalid_offset_size offset sz src_sz =
    sum_overflows offset sz || ltb src_sz ((offset + sz) % uint_mod)

-- The state of the loop: `remainingTargetSz`, `delta` and `dst`.
abbrev Loop : Type 0
Loop = ℕ → Bytes → Bytes → Patched

-- `remainingTargetSz -= sz`, on a uint.
abbrev pub minus : ℕ → ℕ → ℕ
minus remaining sz = (remaining + uint_mod - sz) % uint_mod

-- The end of a round.
abbrev pub next : Loop → Loop
next more remaining delta dst = if remaining == 0 then patched dst else more remaining delta dst

-- A copy whose range is invalid leaves the switch by `break`, and the loop goes on.
abbrev copy_range : Loop → Bytes → ℕ → ℕ → ℕ → Bytes → ℕ → Option (ℕ × Bytes) → Patched
copy_range more src target_sz remaining offset dst src_sz none = invalid_delta
copy_range more src target_sz remaining offset dst src_sz (some (sz, delta)) =
    if invalid_size sz target_sz || invalid_offset_size offset sz src_sz
    then next more remaining delta dst
    else next more (minus remaining sz) delta (dst ++ take sz (drop offset src))

abbrev copy_from : Loop → Bytes → ℕ → ℕ → ℕ → Bytes → ℕ → Option (ℕ × Bytes) → Patched
copy_from more src target_sz remaining cmd dst src_sz none = invalid_delta
copy_from more src target_sz remaining cmd dst src_sz (some (offset, delta)) =
    copy_range more src target_sz remaining offset dst src_sz (decode_size cmd delta)

abbrev insert_from : Loop → ℕ → ℕ → ℕ → Bytes → Bytes → Patched
insert_from more target_sz remaining sz delta dst =
    if invalid_size sz target_sz
    then invalid_delta
    else if ltb (length delta) sz
    then invalid_delta
    else next more (minus remaining sz) (drop sz delta) (dst ++ take sz delta)

-- Each round takes a byte of the delta at least, so with as much fuel as the delta has bytes the fuel
-- ends only where the delta does.
unfoldable pub patch_loop : ℕ → Bytes → ℕ → ℕ → Loop
patch_loop zero src src_sz target_sz remaining delta dst = invalid_delta
patch_loop (suc fuel) src src_sz target_sz remaining [] dst = invalid_delta
patch_loop (suc fuel) src src_sz target_sz remaining (cmd ∷ delta) dst =
    let more = λ (remaining' : ℕ) (delta' dst' : Bytes).
      patch_loop fuel src src_sz target_sz remaining' delta' dst' in
    if is_copy_from_src cmd
    then copy_from more src target_sz remaining cmd dst src_sz (decode_offset cmd delta)
    else if is_copy_from_delta cmd
    then insert_from more target_sz remaining cmd delta dst
    else delta_cmd

-- Behind both sizes.
abbrev pub patch_sized : Bytes → ℕ × Bytes → Patched
patch_sized src (src_sz, delta) =
    let (target_sz, delta') = decode_leb_128 delta in
    if src_sz == length src
    then patch_loop (length delta') src src_sz target_sz target_sz delta' []
    else invalid_delta

unfoldable pub patch_delta_into : Bytes → Bytes → Patched
patch_delta_into src delta =
    if ltb (length delta) min_copy_size
    then invalid_delta
    else patch_sized src (decode_leb_128 delta)

unfoldable pub patch_delta : Bytes → Bytes → Patched
unfolding patch_delta_into
patch_delta src delta =
    if length src == 0 || ltb (length delta) min_delta_size
    then invalid_delta
    else patch_delta_into src delta
