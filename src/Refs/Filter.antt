-- ===== src/Refs/Filter.antt =====
-- plumbing/storer/reference.go: filtered and multiple iterators, and what a ForEach loop visits.
use ai_experimental_search.Base.{
  ℕ, zero, suc, ◌+◌, ◌≤◌, ◌<◌, ◌≡◌, refl, sym, ap, ◌∙◌, Bool, false, Option, none, some, List, [],
  ◌∷◌, ◌++◌, leb, leb-true, length, if◌then◌else◌, arith, Bool-cases, inl, inr, append-nil,
  append_assoc, length-append, get_elem?-append, subst,
}
use ai_experimental_search.Refs.Iter.{
  Next, got, ended, failed, Answer, go_on, stop, fail, Iterator, SliceIter, new_slice_iter,
  slice_next, slice_iterator, for_each_loop, for_each, called, stepped,
}

-- The values with a property, in order.
unfoldable pub keep : {A : Type 0} → (A → Bool) → List A → List A
keep test [] = []
keep test (x ∷ xs) = let rest = keep test xs in if test x then x ∷ rest else rest

module _ {I A E : Type 0} (it : Iterator I A E) where
  abbrev pub filter_got : (A → Bool) → (I → I × Next A E) → I × Next A E → I × Next A E
  filter_got test more (i, ended) = (i, ended)
  filter_got test more (i, failed e) = (i, failed e)
  filter_got test more (i, got a) = let rest = more i in if test a then (i, got a) else rest

  -- referenceFilteredIter.Next; the fuel bounds how many values it passes over.
  unfoldable pub filter_next : (A → Bool) → ℕ → I → I × Next A E
  filter_next test zero i = (i, ended)
  filter_next test (suc fuel) i = filter_got test (λ i'. filter_next test fuel i') (it.next i)

  abbrev pub filter_iterator : (A → Bool) → ℕ → Iterator I A E
  filter_iterator test fuel = record { next = filter_next test fuel; close = it.close }

  abbrev multi_got : List I → (List I × Next A E) → I × Next A E → List I × Next A E
  multi_got is more (i, ended) = more
  multi_got is more (i, failed e) = (i ∷ is, failed e)
  multi_got is more (i, got a) = (i ∷ is, got a)

  -- MultiReferenceIter.Next: an iterator at its end is closed and dropped.
  unfoldable pub multi_next : List I → List I × Next A E
  multi_next [] = ([], ended)
  multi_next (i ∷ is) = multi_got is (multi_next is) (it.next i)

  unfoldable pub multi_close : List I → List I
  multi_close [] = []
  multi_close (i ∷ is) = it.close i ∷ multi_close is

  abbrev pub multi_iterator : Iterator (List I) A E
  multi_iterator = record { next = multi_next; close = multi_close }

  -- From the state `i`, Next gives these values in turn, and then io.EOF.
  abbrev pub Yields : I → List A → Type 0
  Yields i [] = (it.next i).1 ≡ ended
  Yields i (x ∷ xs) = ((it.next i).1 ≡ got x) × Yields (it.next i).0 xs

  -- A callback over a list: it ends at ErrStop with no error and at another error with this error.
  abbrev heeded : {S : Type 0} → (S → S × Option E) → S × Answer E → S × Option E
  heeded more (s, go_on) = more s
  heeded more (s, stop) = (s, none)
  heeded more (s, fail e) = (s, some e)

  unfoldable pub visit : {S : Type 0} → (A → S → S × Answer E) → List A → S → S × Option E
  visit cb [] s = (s, none)
  visit cb (x ∷ xs) s = heeded (λ s'. visit cb xs s') (cb x s)

  abbrev pub outcome : {S : Type 0} → S × Option E → S × Option (Option E)
  outcome (s, e) = (s, some e)

  abbrev pub result : {S : Type 0} → I × S × Option (Option E) → S × Option (Option E)
  result (i, s, e) = (s, e)

  stepped-got :
      {S : Type 0} (more : I → S → I × S × Option (Option E)) (cb : A → S → S × Answer E) (s : S)
      (x : A) (r : I × Next A E)
      → r.1 ≡ got x
      → stepped it more cb s r ≡ called it more r.0 (cb x s)
  stepped-got more cb s x (i, got a) e = let same : a ≡ x = cc in rw same
  stepped-got more cb s x (i, ended) e = cc
  stepped-got more cb s x (i, failed err) e = cc

  called-heeded :
      {S : Type 0} (more : I → S → I × S × Option (Option E)) (v : S → S × Option E) (i : I)
      (a : S × Answer E)
      → ((s : S) → result (more i s) ≡ outcome (v s))
      → result (called it more i a) ≡ outcome (heeded v a)
  called-heeded more v i (s, go_on) h = h s
  called-heeded more v i (s, stop) h = refl
  called-heeded more v i (s, fail e) h = refl

  pub for_each_loop-visit :
      {S : Type 0} (cb : A → S → S × Answer E) (xs : List A) (i : I) (s : S) (fuel : ℕ)
      → Yields i xs
      → length xs < fuel
      → result (for_each_loop it fuel cb i s) ≡ outcome (visit cb xs s)
  unfolding for_each_loop visit
  for_each_loop-visit cb xs i s zero y h = absurd (omega (arith, h))
  for_each_loop-visit cb [] i s (suc fuel) y h = stepped-ended (it.next i) y
    where
      stepped-ended :
          (r : I × Next A E)
          → r.1 ≡ ended
          → result (stepped it (λ i' s'. for_each_loop it fuel cb i' s') cb s r) ≡ (s, some none)
      stepped-ended (i', got a) e = cc
      stepped-ended (i', ended) e = refl
      stepped-ended (i', failed err) e = cc
  for_each_loop-visit cb (x ∷ xs) i s (suc fuel) y h =
      ap result (stepped-got (λ i' s'. for_each_loop it fuel cb i' s') cb s x (it.next i) y.0)
      ∙ called-heeded (λ i' s'. for_each_loop it fuel cb i' s') (visit cb xs) (it.next i).0 (cb x s)
          (λ s'. for_each_loop-visit cb xs (it.next i).0 s' fuel y.1 (omega (arith, h)))

  -- ForEach over an iterator that yields a list calls the callback on its values in order, until an error;
  -- ErrStop ends the loop with no error. More rounds than the list is long are enough.
  pub for_each-visit :
      {S : Type 0} (cb : A → S → S × Answer E) (xs : List A) (i : I) (s : S) (fuel : ℕ)
      → Yields i xs
      → length xs < fuel
      → result (for_each it fuel cb i s) ≡ outcome (visit cb xs s)
  unfolding for_each
  for_each-visit cb xs i s fuel y h = for_each_loop-visit cb xs i s fuel y h

  filter_next-ended :
      (test : A → Bool) (fuel : ℕ) (i : I)
      → (it.next i).1 ≡ ended
      → (filter_next test (suc fuel) i).1 ≡ ended
  unfolding filter_next
  filter_next-ended test fuel i e = filter_got-ended (it.next i) e
    where
      filter_got-ended :
          (r : I × Next A E)
          → r.1 ≡ ended
          → (filter_got test (λ i'. filter_next test fuel i') r).1 ≡ ended
      filter_got-ended (i', got a) h = cc
      filter_got-ended (i', ended) h = refl
      filter_got-ended (i', failed err) h = cc

  filter_got-got :
      (test : A → Bool) (more : I → I × Next A E) (x : A) (r : I × Next A E)
      → r.1 ≡ got x
      → filter_got test more r ≡ (if test x then (r.0, got x) else more r.0)
  filter_got-got test more x (i, got a) e = let same : a ≡ x = cc in rw same
  filter_got-got test more x (i, ended) e = cc
  filter_got-got test more x (i, failed err) e = cc

  -- Two states with the same Next yield the same.
  Yields-same : (i j : I) (xs : List A) → it.next i ≡ it.next j → Yields j xs → Yields i xs
  Yields-same i j [] e y = ap (λ (r : I × Next A E). r.1) e ∙ y
  Yields-same i j (x ∷ xs) e (y, ys) =
      (ap (λ (r : I × Next A E). r.1) e ∙ y, subst (λ (r : I × Next A E). Yields r.0 xs) (sym e) ys)

  multi_got-ended :
      (i : I) (is : List I) → (it.next i).1 ≡ ended → multi_next (i ∷ is) ≡ multi_next is
  unfolding multi_next
  multi_got-ended i is e = go (it.next i) e
    where
      go : (r : I × Next A E) → r.1 ≡ ended → multi_got is (multi_next is) r ≡ multi_next is
      go (i', got a) h = cc
      go (i', ended) h = refl
      go (i', failed err) h = cc

  multi_got-got :
      (x : A) (i : I) (is : List I)
      → (it.next i).1 ≡ got x
      → multi_next (i ∷ is) ≡ ((it.next i).0 ∷ is, got x)
  unfolding multi_next
  multi_got-got x i is e = go (it.next i) e
    where
      go : (r : I × Next A E) → r.1 ≡ got x → multi_got is (multi_next is) r ≡ (r.0 ∷ is, got x)
      go (i', got a) h = let same : a ≡ x = cc in rw same
      go (i', ended) h = cc
      go (i', failed err) h = cc

module _ {I A E : Type 0} (it : Iterator I A E) (test : A → Bool) where
  -- More fuel than there are values left makes no difference.
  filter_next-fuel :
      (xs : List A) (i : I) (f g : ℕ)
      → length xs < f
      → length xs < g
      → Yields it i xs
      → filter_next it test f i ≡ filter_next it test g i
  unfolding filter_next
  filter_next-fuel xs i zero g hf hg y = absurd (omega (arith, hf))
  filter_next-fuel xs i (suc f) zero hf hg y = absurd (omega (arith, hg))
  filter_next-fuel [] i (suc f) (suc g) hf hg y = go (it.next i) y
    where
      go :
          (r : I × Next A E)
          → r.1 ≡ ended
          → filter_got it test (λ i'. filter_next it test f i') r
            ≡ filter_got it test (λ i'. filter_next it test g i') r
      go (i', got a) h = cc
      go (i', ended) h = refl
      go (i', failed err) h = cc
  filter_next-fuel (x ∷ xs) i (suc f) (suc g) hf hg (y, ys) =
      filter_got-got it test (λ i'. filter_next it test f i') x (it.next i) y
      ∙ ap (λ (r : I × Next A E). if test x then ((it.next i).0, got x) else r)
          (filter_next-fuel xs (it.next i).0 f g (omega (arith, hf)) (omega (arith, hg)) ys)
      ∙ sym (filter_got-got it test (λ i'. filter_next it test g i') x (it.next i) y)

  filter_next-step :
      (x : A) (i : I) (fuel : ℕ)
      → (it.next i).1 ≡ got x
      → filter_next it test (suc fuel) i
        ≡ (if test x then ((it.next i).0, got x) else filter_next it test fuel (it.next i).0)
  unfolding filter_next
  filter_next-step x i fuel y =
      filter_got-got it test (λ i'. filter_next it test fuel i') x (it.next i) y

  -- A filtered iterator yields the values with the property, in order.
  pub Yields-keep :
      (xs : List A) (i : I) (fuel : ℕ)
      → length xs < fuel
      → Yields it i xs
      → Yields (filter_iterator it test fuel) i (keep test xs)
  unfolding keep
  Yields-keep xs i zero h y = absurd (omega (arith, h))
  Yields-keep [] i (suc fuel) h y = filter_next-ended it test fuel i y
  Yields-keep (x ∷ xs) i (suc fuel) h (y, ys) = elim (Bool-cases (test x)) [
    | inl e ↦
        let first : filter_next it test (suc fuel) i ≡ ((it.next i).0, got x) =
          filter_next-step x i fuel y ∙ rw e in
        rw (e, first) (refl, Yields-keep xs (it.next i).0 (suc fuel) (omega (arith, h)) ys)
    | inr e ↦
        let passed : filter_next it test (suc fuel) i
            ≡ filter_next it test (suc fuel) (it.next i).0 =
          filter_next-step x i fuel y
          ∙ rw e (
              filter_next-fuel xs (it.next i).0 fuel (suc fuel) (omega (arith, h))
                (omega (arith, h)) ys) in
        rw e (
          Yields-same (filter_iterator it test (suc fuel)) i (it.next i).0 (keep test xs) passed
            (Yields-keep xs (it.next i).0 (suc fuel) (omega (arith, h)) ys))
  ]

module _ {I A E : Type 0} (it : Iterator I A E) where
  -- Several iterators yield the first one's values, and then the others'.
  pub Yields-append :
      (xs ys : List A) (i : I) (is : List I)
      → Yields it i xs
      → Yields (multi_iterator it) is ys
      → Yields (multi_iterator it) (i ∷ is) (xs ++ ys)
  Yields-append [] ys i is y z =
      Yields-same (multi_iterator it) (i ∷ is) is ys (multi_got-ended it i is y) z
  Yields-append (x ∷ xs) ys i is (y, rest) z =
      rw (multi_got-got it x i is y) (refl, Yields-append xs ys (it.next i).0 is rest z)

  pub Yields-multi_nil : Yields (multi_iterator it) [] []
  unfolding multi_next
  Yields-multi_nil = refl

module _ {A : Type 0} (E : Type 0) where
  slice_next-end :
      (xs : List A) → (slice_next {E = E} (record { series = xs ++ []; pos = length xs })).1 ≡ ended
  unfolding slice_next
  slice_next-end xs = rw (append-nil xs, leb-true (length xs) (length xs) (omega arith))

  slice_next-got :
      (before xs : List A) (x : A)
      → slice_next {E = E} (record { series = before ++ (x ∷ xs); pos = length before })
        ≡ (record { series = before ++ (x ∷ xs); pos = length before + 1 }, got x)
  unfolding slice_next
  slice_next-got before xs x =
      let inside : leb (length (before ++ (x ∷ xs))) (length before) ≡ false =
        ground (arith, length-append before (x ∷ xs)) in
      rw (inside, get_elem?-append before xs x)

  Yields-slice_at :
      (xs before : List A)
      → Yields (slice_iterator {E = E}) (record { series = before ++ xs; pos = length before }) xs
  Yields-slice_at [] before = slice_next-end before
  Yields-slice_at (x ∷ xs) before =
      let whole : before ++ (x ∷ xs) ≡ (before ++ (x ∷ [])) ++ xs =
        sym (append_assoc before (x ∷ []) xs) in
      let place : length before + 1 ≡ length (before ++ (x ∷ [])) =
        omega (arith, length-append before (x ∷ [])) in
      rw (slice_next-got before xs x)
        (refl, rw (whole, place) (Yields-slice_at xs (before ++ (x ∷ []))))

  -- A slice iterator yields the slice.
  pub Yields-slice : (xs : List A) → Yields (slice_iterator {E = E}) (new_slice_iter xs) xs
  unfolding new_slice_iter
  Yields-slice xs = Yields-slice_at xs []

pub length-keep : {A : Type 0} (test : A → Bool) (xs : List A) → length (keep test xs) ≤ length xs
unfolding keep
length-keep test [] = omega arith
length-keep test (x ∷ xs) = ground (arith, length-keep test xs)

module _ {A E : Type 0} where
  abbrev slices : Iterator (List (SliceIter A)) A E
  slices = multi_iterator slice_iterator

  -- A filtered iterator over two slices, one behind the other.
  abbrev pub two_slices : (A → Bool) → ℕ → Iterator (List (SliceIter A)) A E
  two_slices test fuel = filter_iterator slices test fuel

  -- ForEach of a filtered iterator over several slice iterators calls the callback on the values of both
  -- slices that have the property, in order, until an error; ErrStop ends it with no error. As many rounds
  -- as there are values, and one more, are enough.
  pub for_each-two_slices :
      {S : Type 0} (test : A → Bool) (xs ys : List A) (cb : A → S → S × Answer E) (s : S) (fuel : ℕ)
      → length xs + length ys < fuel
      → result
          (two_slices test fuel)
          (for_each (two_slices test fuel) fuel cb (new_slice_iter xs ∷ new_slice_iter ys ∷ []) s)
        ≡ outcome (two_slices test fuel) (visit (two_slices test fuel) cb (keep test (xs ++ ys)) s)
  for_each-two_slices test xs ys cb s fuel h =
      let one : Yields slices (new_slice_iter ys ∷ []) (ys ++ []) =
        Yields-append slice_iterator ys [] (new_slice_iter ys) [] (Yields-slice E ys)
          (Yields-multi_nil slice_iterator) in
      let both : Yields slices (new_slice_iter xs ∷ new_slice_iter ys ∷ []) (xs ++ ys) =
        Yields-append slice_iterator xs ys (new_slice_iter xs) (new_slice_iter ys ∷ [])
          (Yields-slice E xs) (rw (append-nil ys) at one) in
      let long : length (xs ++ ys) < fuel = omega (arith, h, length-append xs ys) in
      for_each-visit (two_slices test fuel) cb (keep test (xs ++ ys))
        (new_slice_iter xs ∷ new_slice_iter ys ∷ []) s fuel
        (Yields-keep slices test (xs ++ ys) (new_slice_iter xs ∷ new_slice_iter ys ∷ []) fuel long
          both)
        (omega (arith, long, length-keep test (xs ++ ys)))
