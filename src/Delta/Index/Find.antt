-- ===== src/Delta/Index/Find.antt =====
-- findMatch and DiffDelta (plumbing/format/packfile/delta_index.go, diff_delta.go) with the index that init
-- makes of the source.
use ai_experimental_search.Base.{
  ℕ, zero, suc, ◌+◌, ◌-◌, ◌^◌, ◌≤◌, ◌<◌, ◌≡◌, ◌⊎◌, inl, inr, refl, ap, ◌∙◌, true, false, Option,
  some, [], ◌∷◌, ltb, lt→ltb, ltb→lt, ◌==◌, ==_iff, bit_and, length, get_elem?, take, drop,
  Bool-cases, if◌then◌else◌, ◌>>=◌, Bytes, length-drop, arith,
}
use ai_experimental_search.Base.Bits.{bit_and_le}
use ai_experimental_search.Delta.Size.{uint_mod}
use ai_experimental_search.Delta.Diff.{Match, match, short_source, block_size, IsMatch, diff_delta}
use ai_experimental_search.Delta.Hash.{hash_block, hash_block-total}
use ai_experimental_search.Delta.Patch.{patched, patch_delta}
use ai_experimental_search.Delta.RoundTrip.{patch_delta-diff_delta}
use ai_experimental_search.Delta.Index.{
  DeltaIndex, init, match_length, find_match, found, is_found, all_found, diff_delta_of,
}
use ai_experimental_search.Delta.Index.Arrays.{get_in_range, All-get}
use ai_experimental_search.Delta.Index.Ready.{IsReady, init-IsReady, init_short}

match_length-lem :
    (src tgt : Bytes)
    → (match_length src tgt ≤ length src)
      × (match_length src tgt ≤ length tgt)
      × (take (match_length src tgt) src ≡ take (match_length src tgt) tgt)
unfolding match_length
match_length-lem [] tgt = (omega arith, omega arith, refl)
match_length-lem (b ∷ src) [] = (omega arith, omega arith, refl)
match_length-lem (b ∷ src) (c ∷ tgt) =
    let (l, m, e) = match_length-lem src tgt in
    elim (Bool-cases (b == c)) [
      | inl s ↦ rw s (
        omega (arith, l),
        omega (arith, m),
        ap (λ (x : ℕ). x ∷ take (match_length src tgt) src) ((==_iff b c).0 s) ∙ ap (◌∷◌ c) e,
      )
      | inr s ↦ rw s (omega arith, omega arith, refl)
    ]

-- A match that matchLength gives at two offsets.
matched-IsMatch :
    (src tgt : Bytes) (i o : ℕ)
    → i < length tgt
    → IsMatch src tgt i (match o (match_length (drop o src) (drop i tgt)))
matched-IsMatch src tgt i o h =
    let (l, m, e) = match_length-lem (drop o src) (drop i tgt) in
    (
      omega (arith, h, m, length-drop i tgt),
      long (match_length (drop o src) (drop i tgt)) (omega (arith, l, length-drop o src)) e,
    )
  where
    long :
        (n : ℕ)
        → n ≤ length src - o
        → take n (drop o src) ≡ take n (drop i tgt)
        → (n < block_size) ⊎ ((o + n ≤ length src) × (take n (drop o src) ≡ take n (drop i tgt)))
    long n b e = elim (Bool-cases (ltb n 16)) [
      | inl s ↦ inl (ltb→lt n 16 s)
      | inr s ↦ inr (ground (arith, b, s), e)
    ]

-- A search at a position of the target indexes no array out of range, and what it gives is a match: from a
-- block's length on, the bytes of the source at the offset are those of the target at the position. The index
-- is ready, or the source is shorter than a block.
pub find_match-IsMatch :
    (idx : DeltaIndex) (src tgt : Bytes) (i : ℕ)
    → i < length tgt
    → length src < block_size ⊎ IsReady idx
    → (m : Match) × (find_match idx src tgt i ≡ some m) × IsMatch src tgt i m
unfolding find_match
find_match-IsMatch idx src tgt i h ready = elim (Bool-cases (ltb (length tgt) (i + block_size))) [
  | inl a ↦ rw a (match 0 (length tgt - i), refl, (omega (arith, h), inl (short_target a)))
  | inr a ↦ rw a (elim (Bool-cases (ltb (length src) block_size)) [
    | inl b ↦ rw b (short_source, refl, tt)
    | inr b ↦ rw b (searched ready a b)
  ])
]
  where
    short_target : ltb (length tgt) (i + block_size) ≡ true → length tgt - i < block_size
    short_target a = omega (arith, h, ltb→lt (length tgt) (i + 16) a)

    searched :
        length src < block_size ⊎ IsReady idx
        → ltb (length tgt) (i + block_size) ≡ false
        → ltb (length src) block_size ≡ false
        → (m : Match) × ((hash_block tgt i >>= λ h.
              get_elem? idx.table (bit_and h idx.mask) >>= λ e.
              if e == 0
              then some (match 0 0)
              else (get_elem? idx.entries e >>= λ o.
                  some (match o (match_length (drop o src) (drop i tgt)))))
            ≡ some m)
          × IsMatch src tgt i m
    searched (inl s) a b = cc (lt→ltb (length src) 16 s)
    searched (inr r) a b =
        let (key, e) = hash_block-total tgt i (ground (arith, a)) in
        let (place, f) =
          get_in_range idx.table (bit_and key idx.mask)
            (omega (arith, bit_and_le key idx.mask, r.mask_fits)) in
        let inside =
          All-get (length idx.entries) idx.table (bit_and key idx.mask) place r.places f in
        let (o, g) = get_in_range idx.entries place inside in
        rw (e, f, g)
          (elim (Bool-cases (place == 0)) [
            | inl z ↦ rw z (match 0 0, refl, (omega (arith, h), inl (omega arith)))
            | inr z ↦ rw z (
              match o (match_length (drop o src) (drop i tgt)),
              refl,
              matched-IsMatch src tgt i o h,
            )
          ])

all_found-lem :
    (find : ℕ → Option Match) (n : ℕ)
    → ((i : ℕ) → i < n → is_found (find i) ≡ true)
    → all_found find n ≡ true
unfolding all_found
all_found-lem find zero h = refl
all_found-lem find (suc n) h =
    rw (h n (omega arith), all_found-lem find n (λ i p. h i (omega (arith, p)))) refl

-- The index of any source below 4 GiB.
init-total :
    (src : Bytes)
    → length src < 2 ^ 32
    → (idx : DeltaIndex) × (init src ≡ some idx) × (length src < block_size ⊎ IsReady idx)
init-total src h = elim (Bool-cases (ltb (length src) 16)) [
  | inl s ↦
      let (idx, e) = init_short src (ltb→lt (length src) 16 s) in
      (idx, e, inl (ltb→lt (length src) 16 s))
  | inr s ↦ let (idx, e, r) = init-IsReady src (ground (arith, s)) h in (idx, e, inr r)
]

-- DiffDelta of a source and a target that are not empty makes a delta, with no index out of range, and
-- PatchDelta makes the target of the source and this delta. The source is below 4 GiB, and the target's
-- length is a uint.
pub patch_delta-diff_delta_of :
    (src tgt : Bytes)
    → 0 < length src
    → 0 < length tgt
    → length src < 2 ^ 32
    → length tgt < uint_mod
    → (delta : Bytes) × (diff_delta_of src tgt ≡ some delta) × (patch_delta src delta ≡ patched tgt)
unfolding diff_delta_of
patch_delta-diff_delta_of src tgt ps pt hs ht =
    let (idx, e, ready) = init-total src hs in
    let find : ℕ → Match = λ i. found (find_match idx src tgt i) in
    let all : all_found (λ i. find_match idx src tgt i) (length tgt) ≡ true =
      all_found-lem (λ i. find_match idx src tgt i) (length tgt)
        (λ i p. (let (m, f, law) = find_match-IsMatch idx src tgt i p ready in rw f refl)) in
    rw (e, all)
      (
        diff_delta find src tgt,
        refl,
        patch_delta-diff_delta find src tgt
            (λ i p. (let (m, f, law) = find_match-IsMatch idx src tgt i p ready in rw f law)) ps pt
            hs ht,
      )
