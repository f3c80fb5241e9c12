-- ===== src/Tests/References.antt =====
-- The theorems about references and iterators at concrete inputs.
use ai_experimental_search.Base.{
  ℕ, ◌+◌, ◌≡◌, ◌↔◌, refl, Bool, List, [], ◌∷◌, Bytes, bytes_eq, if◌then◌else◌, ltb, arith, ◌==◌,
  ◌||◌,
}
use ai_experimental_search.Refs.Reference.{Reference, new_hash_reference, new_symbolic_reference}
use ai_experimental_search.Refs.Storer.{max_resolve_recursion, ok, err, find_reference}
use ai_experimental_search.Refs.Resolve.{
  max_recursion, resolve_from, resolve_reference, Ends, resolve_reference_iff,
  resolve_reference_self,
}
use ai_experimental_search.Refs.Iter.{Answer, go_on, stop, new_slice_iter, for_each}
use ai_experimental_search.Refs.Filter.{
  keep, visit, outcome, result, two_slices, for_each-two_slices,
}
use ai_experimental_search.Storage.Memory.References.{memory_references, reference}

abbrev head : Reference
head = new_symbolic_reference (b'H' ∷ []) (b'm' ∷ [])

abbrev main : Reference
main = new_hash_reference (b'm' ∷ []) 7

abbrev loop : Reference
loop = new_symbolic_reference (b'l' ∷ []) (b'l' ∷ [])

abbrev three : List Reference
three = head ∷ main ∷ loop ∷ []

resolve_reference_iff_example :
    (resolve_reference memory_references three (b'H' ∷ []) ≡ ok main) ↔ (
      (r : Reference) × (reference three (b'H' ∷ []) ≡ ok r)
      × Ends memory_references three (max_recursion + 1) r main)
resolve_reference_iff_example = resolve_reference_iff memory_references three (b'H' ∷ []) main

resolves_head : resolve_reference memory_references three (b'H' ∷ []) ≡ ok main
unfolding resolve_reference resolve_from reference find_reference bytes_eq
resolves_head = refl

resolve_reference_self_run :
    resolve_reference memory_references three (b'l' ∷ []) ≡ err max_resolve_recursion
resolve_reference_self_run =
    resolve_reference_self memory_references three (b'l' ∷ []) {r = loop}
      (unfold reference find_reference bytes_eq in refl) refl refl

-- A callback that notes what it is given, up to 8.
abbrev note : ℕ → List ℕ → List ℕ × Answer Bytes
note n seen = if ltb n 8 then (n ∷ seen, go_on) else (seen, stop)

abbrev is_odd : ℕ → Bool
is_odd n = n == 1 || n == 3 || n == 9

for_each-two_slices_example :
    result (two_slices is_odd 8) (
      for_each
        (two_slices is_odd 8)
        8
        note
        (new_slice_iter (1 ∷ 2 ∷ []) ∷ new_slice_iter (3 ∷ 9 ∷ []) ∷ [])
        [])
    ≡ outcome
        (two_slices is_odd 8)
        (visit (two_slices is_odd 8) note (keep is_odd (1 ∷ 2 ∷ 3 ∷ 9 ∷ [])) [])
for_each-two_slices_example =
    for_each-two_slices is_odd (1 ∷ 2 ∷ []) (3 ∷ 9 ∷ []) note [] 8 (omega arith)
