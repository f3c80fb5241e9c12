-- ===== src/RefSpec/Reverse.antt =====
-- RefSpec.Reverse (config/refspec.go): the refspec of the other direction, without a + and with one.
use ai_experimental_search.Base.{
  ◌≡◌, refl, sym, ap, ap₂, subst, ◌∙◌, bytes_eq, bytes_eq→≡, inl, true, false, none, some, ◌∷◌,
  ◌++◌, length, take-append, Bytes, inr, ◌>>=◌,
}
use ai_experimental_search.Base.{count}
use ai_experimental_search.RefSpec.Spec.{
  wildcard, force, separator, dst, reverse, validate, is_force_update, matches_name,
}
use ai_experimental_search.RefSpec.Valid.{
  Wildcards, validate-parts, one_wildcard, is_force_update-Unforced, exact-spec_of,
  matches_name-around, matches-middle,
}
use ai_experimental_search.RefSpec.Parts.{
  index-append, drop_parts, spec_of, Unforced, around, dst-spec_of,
}

reverse-spec_of :
    (s d : Bytes) → count s separator ≡ 0 → reverse (spec_of false s d) ≡ some (spec_of false d s)
unfolding reverse
reverse-spec_of s d h = rw (
  index-append s d separator h,
  drop_parts s d separator,
  take-append (length s) s (separator ∷ d) refl,
)

-- With a wildcard on both sides and no +, the reversed refspec maps what the refspec maps a name with the source's
-- parts to back to the name.
pub dst-reverse-around :
    (p q c d m : Bytes)
    → count p wildcard ≡ 0
    → count c wildcard ≡ 0
    → count (around p q) separator ≡ 0
    → count (around c d) separator ≡ 0
    → Unforced (around p q)
    → Unforced (around c d)
    → (dst (spec_of false (around p q) (around c d)) (p ++ (m ++ q)) ≡ some (c ++ (m ++ d)))
      × ((reverse (spec_of false (around p q) (around c d)) >>= λ r. dst r (c ++ (m ++ d)))
          ≡ some (p ++ (m ++ q)))
dst-reverse-around p q c d m hp hc hs hd us ud = (
  (dst-spec_of false p q c d m hp hc hs (inr us)).1,
  rw (reverse-spec_of (around p q) (around c d) hs)
      (dst-spec_of false c d p q m hc hp hd (inr ud)).1,
)

-- A valid refspec without a wildcard, by its sides.
dst-reverse_exact :
    (s d name : Bytes)
    → count s separator ≡ 0
    → count d separator ≡ 0
    → count s wildcard ≡ 0
    → count d wildcard ≡ 0
    → Unforced s
    → Unforced d
    → matches_name (spec_of false s d) name ≡ some true
    → (other : Bytes) × (dst (spec_of false s d) name ≡ some other)
      × ((reverse (spec_of false s d) >>= λ r. dst r other) ≡ some name)
dst-reverse_exact s d name zs zd ws wd us ud e =
    let (matched, mapped) = exact-spec_of s d name zs ws wd us in
    let same : bytes_eq s name ≡ true = cc in
    (
      d,
      mapped,
      rw (reverse-spec_of s d zs)
          ((exact-spec_of d s d zd wd ws ud).1 ∙ ap some (bytes_eq→≡ s name same)),
    )

dst-reverse_parts :
    (s d name : Bytes)
    → count s separator ≡ 0
    → count d separator ≡ 0
    → Wildcards s d
    → Unforced s
    → Unforced d
    → matches_name (spec_of false s d) name ≡ some true
    → (other : Bytes) × (dst (spec_of false s d) name ≡ some other)
      × ((reverse (spec_of false s d) >>= λ r. dst r other) ≡ some name)
dst-reverse_parts s d name zs zd (inl (ws, wd)) us ud e =
    dst-reverse_exact s d name zs zd ws wd us ud e
dst-reverse_parts s d name zs zd (inr (ws, wd)) us ud e =
    let (p, q, is_s, hp) = one_wildcard s ws in
    let (c, t, is_d, hc) = one_wildcard d wd in
    let zs' = ap (λ (x : Bytes). count x separator) (sym is_s) ∙ zs in
    let zd' = ap (λ (x : Bytes). count x separator) (sym is_d) ∙ zd in
    let us' = subst Unforced is_s us in
    let ud' = subst Unforced is_d ud in
    let e' =
      ap₂ (λ (x y : Bytes). matches_name (spec_of false x y) name) (sym is_s) (sym is_d) ∙ e in
    let (m, is_name) =
      matches-middle p q name (matches_name-around p q (around c t) name hp zs' us' e') in
    let (there, back) = dst-reverse-around p q c t m hp hc zs' zd' us' ud' in
    let same = ap₂ (λ (x y : Bytes). spec_of false x y) is_s is_d in
    (
      c ++ (m ++ t),
      ap₂ dst same is_name ∙ there,
      ap (λ (x : Bytes). reverse x >>= λ r. dst r (c ++ (m ++ t))) same
          ∙ back
          ∙ ap some (sym is_name),
    )

-- For a valid refspec with no + before its source and none before its destination, with wildcards or without: a
-- name that it matches it maps to a name that the reversed refspec maps back to the first one.
pub dst-reverse :
    (spec name : Bytes)
    → validate spec ≡ none
    → is_force_update spec ≡ some false
    → (reverse spec >>= is_force_update) ≡ some false
    → matches_name spec name ≡ some true
    → (other : Bytes) × (dst spec name ≡ some other)
      × ((reverse spec >>= λ r. dst r other) ≡ some name)
dst-reverse spec name v us ud e =
    let (s, d, is, zs, zd, ws) = validate-parts spec v in
    let us' = is_force_update-Unforced s d (ap is_force_update (sym is) ∙ us) in
    let turned : is_force_update (spec_of false d s) ≡ some false =
      rw (is, reverse-spec_of s d zs) at ud in
    let ud' = is_force_update-Unforced d s turned in
    let e' = ap (λ (x : Bytes). matches_name x name) (sym is) ∙ e in
    rw is (dst-reverse_parts s d name zs zd ws us' ud' e')

-- With a +, which Reverse leaves before the former source, the reversed refspec maps a name that the
-- destination has to the original name with a + before it.
pub dst-reverse_forced :
    (p q c d m : Bytes)
    → count p wildcard ≡ 0
    → count c wildcard ≡ 0
    → count (around p q) separator ≡ 0
    → count (around c d) separator ≡ 0
    → Unforced (around c d)
    → (reverse (spec_of true (around p q) (around c d)) >>= λ r. dst r (c ++ (m ++ d)))
      ≡ some (force ∷ p ++ (m ++ q))
unfolding count
dst-reverse_forced p q c d m hp hc hs hd ud =
    rw (reverse-spec_of (around (force ∷ p) q) (around c d) hs)
      (dst-spec_of false c d (force ∷ p) q m hc hp hd (inr ud)).1
