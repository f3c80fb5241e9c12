-- ===== src/RefSpec/Valid.antt =====
-- Refspecs that Validate accepts, and names that Match accepts, by their parts.
use ai_experimental_search.Base.{
  ℕ, suc, ◌+◌, ◌-◌, ◌≤◌, ◌≡◌, refl, sym, ap, ◌∙◌, Bool, true, false, ◌&&◌, none, some, [], ◌∷◌,
  ◌++◌, leb, ltb, ltb→lt, take-append-drop, ap₂, ◌==◌, ==_iff, length, length-append, take, drop,
  take-append, Bytes, bytes_eq, bytes_eq→≡, count, has_prefix, has_suffix, if◌then◌else◌, arith,
  ◌⊎◌, inl, inr, Bool-cases,
}
use ai_experimental_search.RefSpec.Spec.{
  wildcard, separator, is_force_update, is_wildcard, matches, matches_name, dst, validate,
  malformed_separator, malformed_wildcard,
}
use ai_experimental_search.RefSpec.Parts.{
  count-append, index-append, index-none, drop_parts, spec_of, Unforced, src-spec_of,
  behind-spec_of, around, is_wildcard-spec_of, star-around, take-around,
}

-- A string has no such byte, or it has a first one.
pub count-cases :
    (s : Bytes) (c : ℕ)
    → (count s c ≡ 0) ⊎ ((a : Bytes) × (b : Bytes) × (s ≡ a ++ c ∷ b) × (count a c ≡ 0))
unfolding count
count-cases [] c = inl refl
count-cases (x ∷ s) c = elim (Bool-cases (x == c)) [
  | inl e ↦ inr ([], s, ap (λ (y : ℕ). y ∷ s) ((==_iff x c).0 e), refl)
  | inr e ↦ elim (count-cases s c) [
    | inl z ↦ inl (rw e z)
    | inr (a, b, same, z) ↦ inr (x ∷ a, b, ap (λ (t : Bytes). x ∷ t) same, rw e z)
  ]
]

-- The two sides of a valid refspec have no separator, and both no wildcard or one each.
abbrev pub Wildcards : Bytes → Bytes → Type 0
Wildcards s d =
    ((count s wildcard ≡ 0) × (count d wildcard ≡ 0))
    ⊎ ((count s wildcard ≡ 1) × (count d wildcard ≡ 1))

and_left : (a b : Bool) → (a && b) ≡ true → a ≡ true
and_left a b e = grind arith

and_right : (a b : Bool) → (a && b) ≡ true → b ≡ true
and_right a b e = grind arith

few_wildcards :
    (ws wd : ℕ)
    → (ws == wd && ltb ws 2 && ltb wd 2) ≡ true
    → ((ws ≡ 0) × (wd ≡ 0)) ⊎ ((ws ≡ 1) × (wd ≡ 1))
few_wildcards ws wd e =
    let front = and_left (ws == wd && ltb ws 2) (ltb wd 2) e in
    let same : ws ≡ wd = (==_iff ws wd).0 (and_left (ws == wd) (ltb ws 2) front) in
    let few = ltb→lt ws 2 (and_right (ws == wd) (ltb ws 2) front) in
    elim (Bool-cases (ws == 0)) [
      | inl q ↦ let is = (==_iff ws 0).0 q in inl (is, sym same ∙ is)
      | inr q ↦ let is : ws ≡ 1 = ground (arith, few, q) in inr (is, sym same ∙ is)
    ]

accepted :
    (last few : Bool)
    → (if last then some malformed_separator else if few then none else some malformed_wildcard)
      ≡ none
    → few ≡ true
accepted true few e = cc
accepted false true e = refl
accepted false false e = cc

module _ (s d : Bytes) (z : count s separator ≡ 0) (v : validate (s ++ separator ∷ d) ≡ none) where
  count-sides : count (s ++ separator ∷ d) separator ≡ suc (count d separator)
  unfolding count
  count-sides = omega (arith, z, count-append s (separator ∷ d) separator)

  validate-separator : count d separator ≡ 0
  unfolding validate
  validate-separator = elim (Bool-cases (suc (count d separator) == 1)) [
    | inl q ↦ let one = (==_iff (suc (count d separator)) 1).0 q in omega (arith, one)
    | inr q ↦ cc (rw (count-sides, q) at v)
  ]

  validate-Wildcards : Wildcards s d
  unfolding validate
  validate-Wildcards =
      let one : (suc (count d separator) == 1) ≡ true = rw validate-separator refl in
      let checked =
        rw
          (
            count-sides,
            one,
            index-append s d separator z,
            take-append (length s) s (separator ∷ d) refl,
            drop_parts s d separator,
          )
          at v in
      few_wildcards (count s wildcard) (count d wildcard) (
        accepted (length s == length (s ++ separator ∷ d) - 1)
          (count s wildcard == count d wildcard
            && ltb (count s wildcard) 2
            && ltb (count d wildcard) 2)
          checked)

pub validate-parts :
    (spec : Bytes)
    → validate spec ≡ none
    → (s : Bytes) × (d : Bytes) × (spec ≡ spec_of false s d)
      × (count s separator ≡ 0)
      × (count d separator ≡ 0)
      × Wildcards s d
unfolding validate
validate-parts spec v = elim (count-cases spec separator) [
  | inl z ↦ cc (rw z at v)
  | inr (s, d, same, z) ↦
      let v' = ap validate (sym same) ∙ v in
      (s, d, same, z, validate-separator s d z v', validate-Wildcards s d z v')
]

drop_past : (p r : Bytes) (k : ℕ) → drop (length p + k) (p ++ r) ≡ drop k r
drop_past [] r k = let e : length {A = ℕ} [] + k ≡ k = omega arith in rw e refl
drop_past (x ∷ p) r k =
    let e : length (x ∷ p) + k ≡ suc (length p + k) = omega arith in rw e (drop_past p r k)

has_prefix-rest : (s p : Bytes) → has_prefix s p ≡ true → (r : Bytes) × (s ≡ p ++ r)
unfolding has_prefix
has_prefix-rest s [] e = (s, refl)
has_prefix-rest [] (x ∷ p) e = cc
has_prefix-rest (y ∷ s) (x ∷ p) e = elim (Bool-cases (y == x)) [
  | inl q ↦
      let (r, same) = has_prefix-rest s p (rw q at e) in
      (r, ap₂ (λ (c : ℕ) (t : Bytes). c ∷ t) ((==_iff y x).0 q) same)
  | inr q ↦ let bad : false ≡ true = rw q at e in cc
]

leb→le : (a b : ℕ) → leb a b ≡ true → a ≤ b
leb→le a b h = ground arith

-- A name that has both parts, one behind the other, is these parts around some text.
pub matches-middle :
    (p q name : Bytes) → matches p q name ≡ true → (m : Bytes) × (name ≡ p ++ (m ++ q))
matches-middle p q name e =
    let front =
      and_left (leb (length p + length q) (length name) && has_prefix name p) (has_suffix name q)
        e in
    let long =
      leb→le (length p + length q) (length name)
        (and_left (leb (length p + length q) (length name)) (has_prefix name p) front) in
    let (r, same) =
      has_prefix-rest name p
        (and_right (leb (length p + length q) (length name)) (has_prefix name p) front) in
    let size : length name ≡ length p + length r =
      ap (λ (t : Bytes). length t) same ∙ length-append p r in
    let k = length r - length q in
    let place : length name - length q ≡ length p + k = omega (arith, long, size) in
    let ending : drop (length name - length q) name ≡ q =
      bytes_eq→≡ (drop (length name - length q) name) q (
        and_right (leb (length q) (length name)) (bytes_eq (drop (length name - length q) name) q) (
          and_right (leb (length p + length q) (length name) && has_prefix name p)
            (has_suffix name q) e)) in
    let rest : drop k r ≡ q = sym (drop_past p r k) ∙ ap₂ drop (sym place) (sym same) ∙ ending in
    (
      take k r,
      same
          ∙ ap (λ (t : Bytes). p ++ t)
              (sym (take-append-drop k r) ∙ ap (λ (t : Bytes). take k r ++ t) rest),
    )

-- The text around the one wildcard of a side.
pub one_wildcard :
    (s : Bytes)
    → count s wildcard ≡ 1
    → (p : Bytes) × (q : Bytes) × (s ≡ around p q) × (count p wildcard ≡ 0)
one_wildcard s one = elim (count-cases s wildcard) [
  | inl z ↦ absurd (omega (arith, one, z))
  | inr r ↦ r
]

pub is_force_update-Unforced :
    (s d : Bytes) → is_force_update (s ++ separator ∷ d) ≡ some false → Unforced s
unfolding is_force_update
is_force_update-Unforced [] d e = tt
is_force_update-Unforced (b ∷ s) d e = cc

is_wildcard-none : (s : Bytes) → count s wildcard ≡ 0 → is_wildcard s ≡ false
unfolding is_wildcard
is_wildcard-none s z = rw (is_wildcard, index-none s wildcard z) refl

-- A refspec with no wildcard matches its source, and maps it to its destination.
pub exact-spec_of :
    (s d name : Bytes)
    → count s separator ≡ 0
    → count s wildcard ≡ 0
    → count d wildcard ≡ 0
    → Unforced s
    → (matches_name (spec_of false s d) name ≡ some (bytes_eq s name))
      × (dst (spec_of false s d) name ≡ some d)
unfolding matches_name dst count
exact-spec_of s d name z ws wd u =
    let none_there : count (s ++ separator ∷ d) wildcard ≡ 0 =
      omega (arith, ws, wd, count-append s (separator ∷ d) wildcard) in
    let exact = is_wildcard-none (s ++ separator ∷ d) none_there in
    let source = src-spec_of false s d z (inr u) in
    (rw (exact, source) refl, rw (source, exact, behind-spec_of false s d z) refl)

-- A refspec with wildcards matches only names with the source's parts.
pub matches_name-around :
    (p q d name : Bytes)
    → count p wildcard ≡ 0
    → count (around p q) separator ≡ 0
    → Unforced (around p q)
    → matches_name (spec_of false (around p q) d) name ≡ some true
    → matches p q name ≡ true
unfolding matches_name
matches_name-around p q d name hp hs u e =
    let glob = is_wildcard-spec_of false p q d hp in
    let source = src-spec_of false (around p q) d hs (inr u) in
    let found : some (matches p q name) ≡ some true =
      rw (glob, source, star-around p q hp, take-around p q, drop_parts p q wildcard) at e in
    cc
