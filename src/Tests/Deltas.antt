-- ===== src/Tests/Deltas.antt =====
-- Deltas of small objects.
use ai_experimental_search.Base.{
  ltb, ℕ, zero, suc, ◌<◌, ◌≡◌, refl, inl, inr, Bytes, true, some, [], ◌∷◌, ◌++◌, length, arith,
}
use ai_experimental_search.Varint.{
  read_variable_width_int, write_variable_width_int, read_until,
  read_variable_width_int-write_variable_width_int, read_until-append, is_binary, is_binary-append,
}
use ai_experimental_search.Delta.Size.{
  delta_encode_size, decode_leb_128, decode_leb_128-delta_encode_size,
}
use ai_experimental_search.Delta.Copy.{
  encode_copy_operation, is_copy_from_src, decode_offset, decode_size,
}
use ai_experimental_search.Delta.CopyRoundTrip.{decode-encode_copy_operation}
use ai_experimental_search.Delta.Patch.{patched, patch_delta}
use ai_experimental_search.Delta.Diff.{Match, match, IsMatch, diff_delta}
use ai_experimental_search.Delta.Hash.{hash_step, hash_rest, hash_first, hash_of, hash_block}
use ai_experimental_search.Delta.Index.{
  DeltaIndex, leading_zeros, table_size, scan_block, scan_loop, new_delta_index_scanner, chain_loop,
  count_entries, copy_chain, copy_entries, init, match_length, find_match, diff_delta_of,
}
use ai_experimental_search.Delta.Index.Ready.{IsReady, init-IsReady}
use ai_experimental_search.Delta.Index.Find.{find_match-IsMatch, patch_delta-diff_delta_of}
use ai_experimental_search.Delta.RoundTrip.{patch_delta-diff_delta}

abbrev block : Bytes
block = 1 ∷ 2 ∷ 3 ∷ 4 ∷ 5 ∷ 6 ∷ 7 ∷ 8 ∷ 9 ∷ 10 ∷ 11 ∷ 12 ∷ 13 ∷ 14 ∷ 15 ∷ 16 ∷ []

abbrev old_object : Bytes
old_object = 99 ∷ block

abbrev new_object : Bytes
new_object = block ++ (77 ∷ [])

-- The block at the start, and nothing behind it.
abbrev answers : ℕ → Match
answers zero = match 1 16
answers (suc i) = match 0 0

answers-IsMatch : (i : ℕ) → i < length new_object → IsMatch old_object new_object i (answers i)
answers-IsMatch zero h = (omega arith, inr (omega arith, refl))
answers-IsMatch (suc i) h = (omega arith, inl (omega arith))

patch_delta-diff_delta_run :
    patch_delta old_object (diff_delta answers old_object new_object) ≡ patched new_object
patch_delta-diff_delta_run =
    patch_delta-diff_delta answers old_object new_object answers-IsMatch (omega arith) (omega arith)
      (omega arith) (omega arith)

decode_leb_128-delta_encode_size_run :
    decode_leb_128 (delta_encode_size 300 ++ block) ≡ (300, block)
decode_leb_128-delta_encode_size_run = decode_leb_128-delta_encode_size 300 block (omega arith)

decode-encode_copy_operation_run :
    (cmd : ℕ) × (operands : Bytes) × (more : Bytes) × (encode_copy_operation 70000 300 ++ block
      ≡ cmd ∷ operands)
    × (is_copy_from_src cmd ≡ true)
    × (decode_offset cmd operands ≡ some (70000, more))
    × (decode_size cmd more ≡ some (300, block))
decode-encode_copy_operation_run =
    decode-encode_copy_operation 70000 300 block (omega arith) (omega arith) (omega arith)

read_variable_width_int-write_variable_width_int_example :
    read_variable_width_int (write_variable_width_int 16512 ++ block) ≡ some (16512, block)
read_variable_width_int-write_variable_width_int_example =
    read_variable_width_int-write_variable_width_int 16512 block (omega arith)

read_until-append_run : read_until (block ++ (0 ∷ block)) 0 ≡ some (block, block)
read_until-append_run = read_until-append block block 0 (ground arith)

is_binary-append_run : is_binary (block ++ (0 ∷ block)) ≡ ltb 16 8000
is_binary-append_run = is_binary-append block block (ground arith)

abbrev small_index : DeltaIndex
small_index = record { table = 1 ∷ []; entries = 0 ∷ 0 ∷ []; mask = 0 }

-- The index that init makes of an object of one whole block.
init_small : init old_object ≡ some small_index
unfolding init new_delta_index_scanner table_size leading_zeros scan_block scan_loop chain_loop
    count_entries copy_chain copy_entries hash_step hash_rest hash_first hash_of hash_block
init_small = refl

find_match-IsMatch_example :
    (m : Match) × (find_match small_index old_object new_object 1 ≡ some m)
    × IsMatch old_object new_object 1 m
find_match-IsMatch_example =
    find_match-IsMatch small_index old_object new_object 1 (omega arith)
      (inr (record { mask_fits = omega arith; places = (omega arith, tt) }))

patch_delta-diff_delta_of_example :
    (delta : Bytes) × (diff_delta_of old_object new_object ≡ some delta)
    × (patch_delta old_object delta ≡ patched new_object)
patch_delta-diff_delta_of_example =
    patch_delta-diff_delta_of old_object new_object (omega arith) (omega arith) (omega arith)
      (omega arith)

-- A whole block at the start is found, and the search behind it gives a short match.
found_block : find_match small_index (block ++ (99 ∷ [])) (block ++ (77 ∷ [])) 0 ≡ some (match 0 16)
unfolding find_match match_length hash_step hash_rest hash_first hash_of hash_block
found_block = refl

init-IsReady_example : (idx : DeltaIndex) × (init old_object ≡ some idx) × IsReady idx
init-IsReady_example = init-IsReady old_object (omega arith) (omega arith)
