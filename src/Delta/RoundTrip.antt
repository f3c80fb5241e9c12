-- ===== src/Delta/RoundTrip.antt =====
-- PatchDelta applied to the source and to what DiffDelta wrote gives the target.
use ai_experimental_search.Base.{
  ℕ, zero, suc, ◌+◌, ◌-◌, ◌%◌, ◌^◌, ◌≤◌, ◌<◌, ◌≡◌, ◌⊎◌, inl, inr, refl, sym, ap, ap₂, subst, ltb→lt,
  ltb-false, ◌∙◌, false, List, [], ◌∷◌, ◌++◌, ltb, leb, ◌==◌, length, length-append, length-take,
  length-drop, take, drop, take-append-drop, take-add, drop-drop, take_all, Bytes, All, arith,
  append_assoc, append-nil, ==_refl, Bool-cases,
}
use ai_experimental_search.Delta.Size.{
  uint_mod, delta_encode_size, length-delta_encode_size, decode_leb_128-delta_encode_size,
}
use ai_experimental_search.Delta.Copy.{
  encode_copy_operation, length-encode_copy_operation, max_copy_size,
}
use ai_experimental_search.Delta.Patch.{patched, patch_delta}
use ai_experimental_search.Delta.Ops.{
  Op, copy, insert, encode_op, encode_ops, outputs, IsOp, loop-ops,
}
use ai_experimental_search.Delta.Diff.{
  Match, match, short_source, IsMatch, block_size, insert_loop, encode_insert_operation, copy_loop,
  diff_loop, diff_delta, on_match,
}

-- These bytes are commands that put out `out`.
record Emits (src out bytes : Bytes) : Type 0 where
  ops : List Op
  encodes : encode_ops ops ≡ bytes
  gives : outputs src ops ≡ out
  valid : All (IsOp src) ops

encode_ops-append : (xs ys : List Op) → encode_ops (xs ++ ys) ≡ encode_ops xs ++ encode_ops ys
encode_ops-append [] ys = refl
encode_ops-append (insert b ∷ xs) ys =
    ap (λ t. (length b ∷ b) ++ t) (encode_ops-append xs ys)
    ∙ sym (append_assoc (length b ∷ b) (encode_ops xs) (encode_ops ys))
encode_ops-append (copy o l ∷ xs) ys =
    ap (λ t. encode_copy_operation o l ++ t) (encode_ops-append xs ys)
    ∙ sym (append_assoc (encode_copy_operation o l) (encode_ops xs) (encode_ops ys))

module _ (src : Bytes) where
  outputs-append : (xs ys : List Op) → outputs src (xs ++ ys) ≡ outputs src xs ++ outputs src ys
  outputs-append [] ys = refl
  outputs-append (insert b ∷ xs) ys =
      rw (outputs-append xs ys) (sym (append_assoc b (outputs src xs) (outputs src ys)))
  outputs-append (copy o l ∷ xs) ys =
      rw (outputs-append xs ys)
        (sym (append_assoc (take l (drop o src)) (outputs src xs) (outputs src ys)))

  valid-append :
      (xs ys : List Op) → All (IsOp src) xs → All (IsOp src) ys → All (IsOp src) (xs ++ ys)
  valid-append [] ys h k = k
  valid-append (x ∷ xs) ys (h, hs) k = (h, valid-append xs ys hs k)

  Emits-nil : Emits src [] []
  Emits-nil = record { ops = []; encodes = refl; gives = refl; valid = tt }

  Emits-append : {a b p q : Bytes} → Emits src a p → Emits src b q → Emits src (a ++ b) (p ++ q)
  Emits-append e f = record {
    ops = e.ops ++ f.ops;
    encodes = encode_ops-append e.ops f.ops ∙ ap₂ ◌++◌ e.encodes f.encodes;
    gives = outputs-append e.ops f.ops ∙ ap₂ ◌++◌ e.gives f.gives;
    valid = valid-append e.ops f.ops e.valid f.valid;
  }

  Emits-insert : (b : Bytes) → 0 < length b → length b < 128 → Emits src b (length b ∷ b)
  Emits-insert b pos small = record {
    ops = insert b ∷ [];
    encodes = append-nil (length b ∷ b);
    gives = append-nil b;
    valid = ((pos, small), tt);
  }

  Emits-copy :
      (o l : ℕ)
      → 0 < l
      → l < 2 ^ 24
      → o < 2 ^ 32
      → o + l ≤ length src
      → Emits src (take l (drop o src)) (encode_copy_operation o l)
  Emits-copy o l pos small off fits = record {
    ops = copy o l ∷ [];
    encodes = append-nil (encode_copy_operation o l);
    gives = append-nil (take l (drop o src));
    valid = ((pos, small, off, fits), tt);
  }

  Emits-insert_loop :
      (fuel : ℕ) (b : Bytes) → 0 < length b → length b ≤ fuel → Emits src b (insert_loop fuel b)
  unfolding insert_loop
  Emits-insert_loop zero b pos h = absurd (omega arith)
  Emits-insert_loop (suc fuel) b pos h = elim (Bool-cases (leb (length b) 127)) [
    | inl last ↦
        let e : length b % 256 ≡ length b = ground arith in
        rw (last, e) (Emits-insert b pos (ground arith))
    | inr more ↦
        let long : 127 < length b = ground arith in
        let n : length (take 127 b) ≡ 127 = omega (arith, length-take 127 b) in
        let one : Emits src (take 127 b) (127 ∷ take 127 b) =
          subst (λ (k : ℕ). Emits src (take 127 b) (k ∷ take 127 b)) n
            (Emits-insert (take 127 b) (omega arith) (omega arith)) in
        let rest =
          Emits-insert_loop fuel (drop 127 b) (omega (arith, length-drop 127 b))
            (omega (arith, length-drop 127 b)) in
        rw more (
          subst (λ t. Emits src t (127 ∷ (take 127 b ++ insert_loop fuel (drop 127 b))))
            (take-append-drop 127 b) (Emits-append one rest))
  ]

  Emits-copy_loop :
      (fuel o rl : ℕ)
      → rl ≤ fuel
      → o + rl ≤ length src
      → length src < 2 ^ 32
      → Emits src (take rl (drop o src)) (copy_loop fuel o rl)
  unfolding copy_loop
  Emits-copy_loop zero o zero h fits off = Emits-nil
  Emits-copy_loop zero o (suc rl) h fits off = absurd (omega arith)
  Emits-copy_loop (suc fuel) o rl h fits off = elim (Bool-cases (rl == 0)) [
    | inl done ↦ let z : rl ≡ 0 = ground arith in rw z Emits-nil
    | inr some ↦ elim (Bool-cases (ltb rl max_copy_size)) [
      | inl last ↦
          rw (some, last) (Emits-copy o rl (ground arith) (ground arith) (omega arith) fits)
      | inr more ↦
          let long : max_copy_size ≤ rl = ground arith in
          let rest =
            Emits-copy_loop fuel (o + max_copy_size) (rl - max_copy_size) (omega arith)
              (omega arith) off in
          let one =
            Emits-copy o max_copy_size (omega arith) (omega arith) (omega arith) (omega arith) in
          rw (some, more)
            (subst
              (λ t. Emits src t (
                encode_copy_operation o max_copy_size
                ++ copy_loop fuel (o + max_copy_size) (rl - max_copy_size)))
              (whole rl long) (Emits-append one rest))
    ]
  ]
    where
      whole :
          (rl : ℕ)
          → max_copy_size ≤ rl
          → take max_copy_size (drop o src)
              ++ take (rl - max_copy_size) (drop (o + max_copy_size) src)
            ≡ take rl (drop o src)
      whole rl long =
          ap (λ t. take max_copy_size (drop o src) ++ take (rl - max_copy_size) t)
            (sym (drop-drop o max_copy_size src))
          ∙ sym (take-add max_copy_size (rl - max_copy_size) (drop o src))
          ∙ ap (λ (k : ℕ). take k (drop o src)) (omega arith)

-- The output so far: a header and commands that put out `out`.
record Holds (src header out buf : Bytes) : Type 0 where
  bytes : Bytes
  split : buf ≡ header ++ bytes
  emits : Emits src out bytes

module _ (src header : Bytes) where
  Holds-append :
      {out b buf p : Bytes}
      → Holds src header out buf
      → Emits src b p
      → Holds src header (out ++ b) (buf ++ p)
  Holds-append {p = p} h e = record {
    bytes = h.bytes ++ p;
    split = ap (λ t. t ++ p) h.split ∙ append_assoc header h.bytes p;
    emits = Emits-append src h.emits e;
  }

  Holds-insert :
      (ibuf : Bytes) {out buf : Bytes}
      → Holds src header out buf
      → Holds src header (out ++ ibuf) (encode_insert_operation ibuf buf)
  unfolding encode_insert_operation
  Holds-insert [] {out} {buf} h = subst (λ t. Holds src header t buf) (sym (append-nil out)) h
  Holds-insert (x ∷ xs) h =
      Holds-append h (Emits-insert_loop src (length (x ∷ xs)) (x ∷ xs) (omega arith) (omega arith))

  module _ (find : ℕ → Match) (tgt : Bytes)
      (law : (i : ℕ) → i < length tgt → IsMatch src tgt i (find i))
      (off : length src < 2 ^ 32) where
    -- What was put out and what waits in the insert buffer are the target up to `i`.
    grown :
        (i l : ℕ) (out ibuf : Bytes)
        → out ++ ibuf ≡ take i tgt
        → out ++ (ibuf ++ take l (drop i tgt)) ≡ take (i + l) tgt
    grown i l out ibuf h =
        sym (append_assoc out ibuf (take l (drop i tgt)))
        ∙ ap (λ t. t ++ take l (drop i tgt)) h
        ∙ sym (take-add i l tgt)

    Holds-end :
        (i : ℕ) (out ibuf buf : Bytes)
        → length tgt ≤ i
        → Holds src header out buf
        → out ++ ibuf ≡ take i tgt
        → Holds src header tgt (encode_insert_operation ibuf buf)
    Holds-end i out ibuf buf hi h e =
        subst (λ t. Holds src header t (encode_insert_operation ibuf buf)) (e ∙ take_all i tgt hi)
          (Holds-insert ibuf h)

    -- One round, for any continuation that keeps the invariant behind `i`.
    Holds-on_match :
        (more : ℕ → Bytes → Bytes → Bytes) (i : ℕ)
        → ((i' : ℕ) (out ibuf buf : Bytes)
            → i < i'
            → i' ≤ length tgt
            → Holds src header out buf
            → out ++ ibuf ≡ take i' tgt
            → Holds src header tgt (more i' ibuf buf))
        → (out ibuf buf : Bytes) (m : Match) → i < length tgt
        → IsMatch src tgt i m
        → Holds src header out buf
        → out ++ ibuf ≡ take i tgt
        → Holds src header tgt (on_match find tgt more i ibuf buf m)
    Holds-on_match more i go out ibuf buf short_source hi ok h e =
        subst (λ t. Holds src header t (encode_insert_operation (ibuf ++ drop i tgt) buf))
          (sym (append_assoc out ibuf (drop i tgt))
            ∙ ap (λ t. t ++ drop i tgt) e
            ∙ take-append-drop i tgt)
          (Holds-insert (ibuf ++ drop i tgt) h)
    Holds-on_match more i go out ibuf buf (match o l) hi (inside, ok) h e =
        elim (Bool-cases (l == 0)) [
          | inl none_found ↦ rw none_found (
              go (i + 1) out (ibuf ++ take 1 (drop i tgt)) buf (omega arith) (omega arith) h
                (grown i 1 out ibuf e))
          | inr found ↦ elim (Bool-cases (ltb l block_size)) [
            | inl small ↦
                rw (found, small)
                  (go (i + l) out (ibuf ++ take l (drop i tgt)) buf (ground arith) inside h
                    (grown i l out ibuf e))
            | inr large ↦
                let (fits, same) = in_source ok (ground arith) in
                rw (found, large)
                  (go (i + l) ((out ++ ibuf) ++ take l (drop o src)) [] _ (ground arith) inside
                    (Holds-append (Holds-insert ibuf h)
                      (Emits-copy_loop src l o l (omega arith) fits off))
                    (append-nil _
                      ∙ append_assoc out ibuf (take l (drop o src))
                      ∙ ap (λ t. out ++ (ibuf ++ t)) same
                      ∙ grown i l out ibuf e))
          ]
        ]
      where
        in_source :
            (l < block_size ⊎ ((o + l ≤ length src) × (take l (drop o src) ≡ take l (drop i tgt))))
            → block_size ≤ l
            → (o + l ≤ length src) × (take l (drop o src) ≡ take l (drop i tgt))
        in_source (inl small) large = absurd (omega arith)
        in_source (inr both) large = both

    Holds-diff_loop :
        (fuel i : ℕ) (out ibuf buf : Bytes)
        → i ≤ length tgt
        → length tgt ≤ i + fuel
        → Holds src header out buf
        → out ++ ibuf ≡ take i tgt
        → Holds src header tgt (diff_loop find tgt fuel i ibuf buf)
    unfolding diff_loop
    Holds-diff_loop zero i out ibuf buf hi hf h e = Holds-end i out ibuf buf (omega arith) h e
    Holds-diff_loop (suc fuel) i out ibuf buf hi hf h e = elim (Bool-cases (ltb i (length tgt))) [
      | inl more ↦
          let inside : i < length tgt = ltb→lt i (length tgt) more in
          rw more (
            Holds-on_match _ i
              (λ i' out' ibuf' buf' lt le h' e'.
                Holds-diff_loop fuel i' out' ibuf' buf' le (omega arith) h' e')
              out ibuf buf (find i) inside (law i inside) h e)
      | inr done ↦ rw done (Holds-end i out ibuf buf (ground arith) h e)
    ]

nonzero : (n : ℕ) → 0 < n → (n == 0) ≡ false
nonzero n h = ground arith

encode_op-length : (src : Bytes) (op : Op) → IsOp src op → 2 ≤ length (encode_op op)
encode_op-length src (copy o l) (pos, small, off, fits) = length-encode_copy_operation o l pos small
encode_op-length src (insert b) (pos, small) = omega arith

length-encode_ops :
    (src : Bytes) (ops : List Op)
    → All (IsOp src) ops
    → length ops + length ops ≤ length (encode_ops ops)
length-encode_ops src [] h = omega arith
length-encode_ops src (op ∷ ops) (h, hs) = omega (
  arith,
  length-append (encode_op op) (encode_ops ops),
  encode_op-length src op h,
  length-encode_ops src ops hs,
)

-- A delta with the sizes of the source and of what its commands put out is patched to that.
patch_delta-ops :
    (src : Bytes) (op : Op) (ops : List Op)
    → All (IsOp src) (op ∷ ops)
    → 0 < length src
    → length src < uint_mod
    → length (outputs src (op ∷ ops)) < uint_mod
    → patch_delta src (
        (delta_encode_size (length src) ++ delta_encode_size (length (outputs src (op ∷ ops))))
        ++ encode_ops (op ∷ ops))
      ≡ patched (outputs src (op ∷ ops))
unfolding patch_delta
patch_delta-ops src op ops ok pos hs ht =
    rw
      (
        nonzero (length src) pos,
        ltb-false (length ((a ++ b) ++ c)) 4 long,
        append_assoc a b c,
        decode_leb_128-delta_encode_size (length src) (b ++ c) hs,
        decode_leb_128-delta_encode_size (length out) c ht,
        ==_refl (length src),
      )
      (loop-ops src (length out) (length c) op ops [] ok
        (omega (arith, length-encode_ops src (op ∷ ops) ok)) (omega arith) ht)
  where
    out : Bytes
    out = outputs src (op ∷ ops)

    a : Bytes
    a = delta_encode_size (length src)

    b : Bytes
    b = delta_encode_size (length out)

    c : Bytes
    c = encode_ops (op ∷ ops)

    long : 4 ≤ length ((a ++ b) ++ c)
    long = omega (
      arith,
      length-append (a ++ b) c,
      length-append a b,
      length-delta_encode_size (length src),
      length-delta_encode_size (length out),
      length-encode_ops src (op ∷ ops) ok,
    )

-- For any answers of findMatch that are matches: PatchDelta, given the source and the delta that
-- DiffDelta made of the source and the target, returns the target. The source and the target are not
-- empty, the offsets of the source fit the four bytes of a copy operation, and the target's length is
-- a uint.
pub patch_delta-diff_delta :
    (find : ℕ → Match) (src tgt : Bytes)
    → ((i : ℕ) → i < length tgt → IsMatch src tgt i (find i))
    → 0 < length src
    → 0 < length tgt
    → length src < 2 ^ 32
    → length tgt < uint_mod
    → patch_delta src (diff_delta find src tgt) ≡ patched tgt
unfolding diff_delta
patch_delta-diff_delta find src tgt law ps pt off ht =
    rw (h.split) (finish h.emits.ops h.emits.encodes h.emits.gives h.emits.valid)
  where
    header : Bytes
    header = delta_encode_size (length src) ++ delta_encode_size (length tgt)

    h : Holds src header tgt (diff_loop find tgt (length tgt) 0 [] header)
    h =
        Holds-diff_loop src header find tgt law off (length tgt) 0 [] [] header (omega arith)
          (omega arith)
          (record { bytes = []; split = sym (append-nil header); emits = Emits-nil src }) refl

    finish :
        (ops : List Op)
        → encode_ops ops ≡ h.bytes
        → outputs src ops ≡ tgt
        → All (IsOp src) ops
        → patch_delta src (header ++ h.bytes) ≡ patched tgt
    finish [] e g ok = absurd (omega (arith, ap length g))
    finish (op ∷ ops) e g ok =
        ap₂
          (λ t u.
            patch_delta src ((delta_encode_size (length src) ++ delta_encode_size (length t)) ++ u))
          (sym g) (sym e)
        ∙ patch_delta-ops src op ops ok ps (omega arith) (omega (arith, ap length g))
        ∙ ap patched g
