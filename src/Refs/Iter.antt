-- ===== src/Refs/Iter.antt =====
-- plumbing/storer/reference.go and object.go: iterators and their ForEach loops. The iterators of objects
-- and of references are the same code over two types.
use ai_experimental_search.Base.{
  ℕ, zero, suc, ◌+◌, Option, none, some, List, leb, length, get_elem?, if◌then◌else◌,
}

-- What Next gives: a value, io.EOF, or another error.
pub data Next (A E : Type 0) : Type 0 where
  got : A → Next A E
  ended : Next A E
  failed : E → Next A E

-- What a callback gives back: nil, ErrStop, or another error.
pub data Answer (E : Type 0) : Type 0 where
  go_on : Answer E
  stop : Answer E
  fail : E → Answer E

-- An iterator with the state `I`.
pub record Iterator (I A E : Type 0) : Type 0 where
  pub next : I → I × Next A E
  pub close : I → I

-- ReferenceSliceIter: the slice and the position.
pub record SliceIter (A : Type 0) : Type 0 where
  pub series : List A
  pub pos : ℕ

unfoldable pub new_slice_iter : {A : Type 0} → List A → SliceIter A
new_slice_iter series = record { series = series; pos = 0 }

abbrev slice_next_at : {A E : Type 0} → SliceIter A → Option A → SliceIter A × Next A E
slice_next_at i none = (i, ended)
slice_next_at i (some a) = (record i { pos = i.pos + 1 }, got a)

unfoldable pub slice_next : {A E : Type 0} → SliceIter A → SliceIter A × Next A E
slice_next i =
    if leb (length i.series) i.pos then (i, ended) else slice_next_at i (get_elem? i.series i.pos)

unfoldable pub slice_close : {A : Type 0} → SliceIter A → SliceIter A
slice_close i = record i { pos = length i.series }

abbrev pub slice_iterator : {A E : Type 0} → Iterator (SliceIter A) A E
slice_iterator = record { next = slice_next; close = slice_close }

module _ {I A E S : Type 0} (it : Iterator I A E) where
  -- The loop of forEachReferenceIter with a callback that changes a state; `none` as the outcome: the fuel
  -- ran out. `some none` is the nil error.
  abbrev pub called :
      (I → S → I × S × Option (Option E)) → I → S × Answer E → I × S × Option (Option E)
  called more i (s, go_on) = more i s
  called more i (s, stop) = (i, s, some none)
  called more i (s, fail e) = (i, s, some (some e))

  abbrev pub stepped :
      (I → S → I × S × Option (Option E))
      → (A → S → S × Answer E)
      → S
      → I × Next A E
      → I × S × Option (Option E)
  stepped more cb s (i, ended) = (i, s, some none)
  stepped more cb s (i, failed e) = (i, s, some (some e))
  stepped more cb s (i, got a) = called more i (cb a s)

  unfoldable pub for_each_loop : ℕ → (A → S → S × Answer E) → I → S → I × S × Option (Option E)
  for_each_loop zero cb i s = (i, s, none)
  for_each_loop (suc fuel) cb i s = stepped (λ i' s'. for_each_loop fuel cb i' s') cb s (it.next i)

  abbrev closed : I × S × Option (Option E) → I × S × Option (Option E)
  closed (i, s, e) = (it.close i, s, e)

  -- forEachReferenceIter, ForEachIterator: the iterator is closed at the end.
  unfoldable pub for_each : ℕ → (A → S → S × Answer E) → I → S → I × S × Option (Option E)
  unfolding for_each_loop
  for_each fuel cb i s = closed (for_each_loop fuel cb i s)
