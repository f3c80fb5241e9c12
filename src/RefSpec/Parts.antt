-- ===== src/RefSpec/Parts.antt =====
-- Refspecs by their parts: an optional +, the source, a colon, the destination.
use ai_experimental_search.Base.{
  ℕ, suc, ◌+◌, ◌-◌, ◌≡◌, refl, sym, ap, Bool, true, false, none, some, [], ◌∷◌, ◌++◌, append_assoc,
  leb-true, ◌==◌, ==_refl, length, length-append, take, drop, take-append, drop-append, Bytes,
  bytes_eq_refl, count, index, slice, has_prefix, has_suffix, ◌>>=◌, arith, ◌⊎◌, inl, inr,
  Option-cases,
}
use ai_experimental_search.RefSpec.Spec.{
  wildcard, force, separator, is_force_update, src, is_wildcard, matches, matches_name, behind,
  replace, dst,
}

pub count-append : (s t : Bytes) (c : ℕ) → count (s ++ t) c ≡ count s c + count t c
unfolding count
count-append [] t c = omega arith
count-append (b ∷ s) t c = ground (arith, count-append s t c)

pub index-append : (s t : Bytes) (c : ℕ) → count s c ≡ 0 → index (s ++ c ∷ t) c ≡ some (length s)
unfolding count index
index-append [] t c h = rw (==_refl c)
index-append (b ∷ s) t c h = ground (arith, index-append s t c)

pub index-none : (s : Bytes) (c : ℕ) → count s c ≡ 0 → index s c ≡ none
unfolding count index
index-none [] c h = refl
index-none (b ∷ s) c h = ground (arith, index-none s c)

pub slice-append :
    (s t u : Bytes) (high : ℕ)
    → high ≡ length s + length t
    → slice (s ++ (t ++ u)) (length s) high ≡ some t
unfolding slice
slice-append s t u high e =
    let low = leb-true (length s) high (omega (arith, e)) in
    let inside =
      leb-true high (length (s ++ (t ++ u)))
        (omega (arith, e, length-append s (t ++ u), length-append t u)) in
    rw (
      low,
      inside,
      drop-append (length s) s (t ++ u) refl,
      take-append (high - length s) t u (omega (arith, e)),
    )

pub has_prefix-append : (s t : Bytes) → has_prefix (s ++ t) s ≡ true
unfolding has_prefix
has_prefix-append [] [] = refl
has_prefix-append [] (b ∷ t) = refl
has_prefix-append (b ∷ s) t = rw (==_refl b, has_prefix-append s t)

has_suffix-append : (s t : Bytes) → has_suffix (s ++ t) t ≡ true
has_suffix-append s t =
    let e : length (s ++ t) - length t ≡ length s = omega (arith, length-append s t) in
    let long = leb-true (length t) (length (s ++ t)) (omega (arith, length-append s t)) in
    rw (long, drop-append (length (s ++ t) - length t) s t e, bytes_eq_refl t)

-- The string of a refspec.
abbrev pub spec_of : Bool → Bytes → Bytes → Bytes
spec_of false s d = s ++ separator ∷ d
spec_of true s d = force ∷ s ++ separator ∷ d

-- A source that is not taken for a + and a source.
abbrev pub Unforced : Bytes → Type 0
Unforced [] = Unit
Unforced (b ∷ s) = (b == force) ≡ false

src_empty : (d : Bytes) → src (separator ∷ d) ≡ some []
unfolding src is_force_update index slice
src_empty d = rw (leb-true 0 (suc (length d)) (omega arith))

pub src-spec_of :
    (forced : Bool) (s d : Bytes)
    → count s separator ≡ 0
    → (forced ≡ true) ⊎ Unforced s
    → src (spec_of forced s d) ≡ some s
unfolding src is_force_update index
src-spec_of true s d h u =
    rw (index-append s d separator h)
      (slice-append (force ∷ []) s (separator ∷ d) (suc (length s)) (omega arith))
src-spec_of false [] d h u = src_empty d
src-spec_of false (b ∷ s) d h (inl e) = cc
src-spec_of false (b ∷ s) d h (inr u) =
    rw (u, index-append (b ∷ s) d separator h)
      (slice-append [] (b ∷ s) (separator ∷ d) (suc (length s)) (omega arith))

pub drop_parts : (s d : Bytes) (c : ℕ) → drop (length s + 1) (s ++ c ∷ d) ≡ d
drop_parts [] d c = refl
drop_parts (b ∷ s) d c =
    let e : suc (length s) + 1 ≡ suc (length s + 1) = omega arith in rw e (drop_parts s d c)

pub behind-spec_of :
    (forced : Bool) (s d : Bytes) → count s separator ≡ 0 → behind (spec_of forced s d) ≡ d
unfolding behind index
behind-spec_of true s d h =
    rw (behind, index-append s d separator h) (drop_parts (force ∷ s) d separator)
behind-spec_of false s d h = rw (behind, index-append s d separator h) (drop_parts s d separator)

-- The parts of a source or destination around its wildcard.
abbrev pub around : Bytes → Bytes → Bytes
around p q = p ++ wildcard ∷ q

pub take-around : (p q : Bytes) → take (length p) (around p q) ≡ p
take-around p q = take-append (length p) p (wildcard ∷ q) refl

pub star-around :
    (p q : Bytes) → count p wildcard ≡ 0 → index (around p q) wildcard ≡ some (length p)
star-around p q h = index-append p q wildcard h

star_append : (s t : Bytes) (i c : ℕ) → index s c ≡ some i → index (s ++ t) c ≡ some i
unfolding index
star_append [] t i c h = cc
star_append (b ∷ s) t i c h = elim (Option-cases (index s c)) [
  | inl e ↦ ground (arith, e)
  | inr (j, e) ↦ ground (arith, star_append s t j c e)
]

pub is_wildcard-spec_of :
    (forced : Bool) (p q d : Bytes)
    → count p wildcard ≡ 0
    → is_wildcard (spec_of forced (around p q) d) ≡ true
unfolding is_wildcard index
is_wildcard-spec_of true p q d h =
    rw (
      is_wildcard,
      star_append (around p q) (separator ∷ d) (length p) wildcard (star-around p q h),
    )
is_wildcard-spec_of false p q d h =
    rw (
      is_wildcard,
      star_append (around p q) (separator ∷ d) (length p) wildcard (star-around p q h),
    )

replace-around :
    (p q c d m : Bytes)
    → count p wildcard ≡ 0
    → count c wildcard ≡ 0
    → replace (around p q) (around c d) (p ++ (m ++ q)) ≡ some (c ++ (m ++ d))
replace-around p q c d m hp hc =
    let behind_star : length (around p q) - (length p + 1) ≡ length q =
      omega (arith, length-append p (wildcard ∷ q)) in
    let long =
      leb-true (length q) (length (p ++ (m ++ q)))
        (omega (arith, length-append p (m ++ q), length-append m q)) in
    let e : length (p ++ (m ++ q)) - length q ≡ length p + length m =
      omega (arith, length-append p (m ++ q), length-append m q) in
    rw
      (
        star-around p q hp,
        star-around c d hc,
        behind_star,
        long,
        slice-append p m q (length (p ++ (m ++ q)) - length q) e,
        take-around c d,
        drop_parts c d wildcard,
      )
      (ap some (append_assoc c m d))

matches-around : (p q m : Bytes) → matches p q (p ++ (m ++ q)) ≡ true
matches-around p q m =
    let long =
      leb-true (length p + length q) (length (p ++ (m ++ q)))
        (omega (arith, length-append p (m ++ q), length-append m q)) in
    rw (long, has_prefix-append p (m ++ q), sym (append_assoc p m q)) (has_suffix-append (p ++ m) q)

-- A refspec with a wildcard on each side, given by the parts around them: it matches a name with the
-- source's parts around some text, and maps it to the destination's parts around that text.
pub dst-spec_of :
    (forced : Bool) (p q c d m : Bytes)
    → count p wildcard ≡ 0
    → count c wildcard ≡ 0
    → count (around p q) separator ≡ 0
    → (forced ≡ true) ⊎ Unforced (around p q)
    → (matches_name (spec_of forced (around p q) (around c d)) (p ++ (m ++ q)) ≡ some true)
      × (dst (spec_of forced (around p q) (around c d)) (p ++ (m ++ q)) ≡ some (c ++ (m ++ d)))
unfolding matches_name dst
dst-spec_of forced p q c d m hp hc hs u =
    let glob = is_wildcard-spec_of forced p q (around c d) hp in
    let source = src-spec_of forced (around p q) (around c d) hs u in
    let test : (index (around p q) wildcard >>= λ star.
    some (matches (take star (around p q)) (drop (star + 1) (around p q)) (p ++ (m ++ q))))
        ≡ some true =
      rw (star-around p q hp, take-around p q, drop_parts p q wildcard)
        (ap some (matches-around p q m)) in
    (
      rw (glob, source) test,
      rw (source, glob, behind-spec_of forced (around p q) (around c d) hs)
          (replace-around p q c d m hp hc),
    )
