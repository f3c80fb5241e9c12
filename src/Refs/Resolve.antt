-- ===== src/Refs/Resolve.antt =====
-- ResolveReference of plumbing/storer/reference.go, which follows symbolic references.
use ai_experimental_search.Base.{
  ℕ, zero, suc, ◌+◌, ◌≤◌, ◌<◌, ◌≡◌, refl, sym, ap, ◌∙◌, true, false, Bytes, if◌then◌else◌, arith,
  Bool-cases, inl, inr, subst, ◌↔◌,
}
use ai_experimental_search.Refs.Reference.{Reference, is_symbolic}
use ai_experimental_search.Refs.Storer.{max_resolve_recursion, Result, ok, err, ReferenceStorer}

abbrev pub max_recursion : ℕ
max_recursion = 1024

abbrev found : (Reference → Result Reference) → Result Reference → Result Reference
found more (ok r) = more r
found more (err e) = err e

module _ {S : Type 0} (o : ReferenceStorer S) (s : S) where
  -- `left` counts down what `recursion` counts up: 1025 less it. `recursion > MaxResolveRecursion` where
  -- nothing is left.
  unfoldable pub resolve_from : ℕ → Reference → Result Reference
  resolve_from zero r = if is_symbolic r.typ then err max_resolve_recursion else ok r
  resolve_from (suc left) r =
      let more = found (λ t. resolve_from left t) (o.reference s r.target) in
      if is_symbolic r.typ then more else ok r

  unfoldable pub resolve_reference : Bytes → Result Reference
  unfolding resolve_from
  resolve_reference n = found (λ r. resolve_from (max_recursion + 1) r) (o.reference s n)

  -- From `r`, that many symbolic references lead to `t`.
  pub data Leads : ℕ → Reference → Reference → Type 0 where
    here : {r : Reference} → Leads 0 r r
    next :
        {k : ℕ} {r t u : Reference}
        → is_symbolic r.typ ≡ true
        → o.reference s r.target ≡ ok t
        → Leads k t u
        → Leads (suc k) r u

  resolve_from-Leads :
      (left : ℕ) {k : ℕ} {r t : Reference}
      → Leads k r t
      → is_symbolic t.typ ≡ false
      → k ≤ left
      → resolve_from left r ≡ ok t
  unfolding resolve_from
  resolve_from-Leads zero here e h = rw e
  resolve_from-Leads (suc left) here e h = rw e
  resolve_from-Leads zero (next b f c) e h = absurd (omega (arith, h))
  resolve_from-Leads (suc left) (next b f c) e h =
      rw (b, f) (resolve_from-Leads left c e (omega (arith, h)))

  resolve_from_long :
      (left : ℕ) {k : ℕ} {r t : Reference}
      → Leads k r t
      → left < k
      → resolve_from left r ≡ err max_resolve_recursion
  unfolding resolve_from
  resolve_from_long left here h = absurd (omega (arith, h))
  resolve_from_long zero (next b f c) h = rw b
  resolve_from_long (suc left) (next b f c) h =
      rw (b, f) (resolve_from_long left c (omega (arith, h)))

  -- A longer chain, and so a cycle as well, ends with ErrMaxResolveRecursion.
  pub resolve_reference_long :
      (n : Bytes) {k : ℕ} {r t : Reference}
      → o.reference s n ≡ ok r
      → Leads k r t
      → max_recursion + 1 < k
      → resolve_reference n ≡ err max_resolve_recursion
  unfolding resolve_reference
  resolve_reference_long n f c h = rw f (resolve_from_long (max_recursion + 1) c h)

  -- A chain of at most so many symbolic references to one that is not symbolic.
  abbrev pub Ends : ℕ → Reference → Reference → Type 0
  Ends left r t = (k : ℕ) × Leads k r t × (is_symbolic t.typ ≡ false) × (k ≤ left)

  Ends-self :
      (left : ℕ) (r t : Reference)
      → is_symbolic r.typ ≡ false
      → ◌≡◌ {A = Result Reference} (ok r) (ok t)
      → Ends left r t
  Ends-self left r t b e =
      let same : r ≡ t = cc in
      (
        0,
        subst (λ u. Leads 0 r u) same here,
        ap (λ (u : Reference). is_symbolic u.typ) (sym same) ∙ b,
        omega arith,
      )

  through :
      (left : ℕ) (r t : Reference)
      → is_symbolic r.typ ≡ true
      → (x : Result Reference) → o.reference s r.target ≡ x
      → found (λ u. resolve_from left u) x ≡ ok t
      → ((u : Reference) → resolve_from left u ≡ ok t → Ends left u t)
      → Ends (suc left) r t
  through left r t b (ok u) f e ih =
      let (k, c, h, le) = ih u e in (suc k, next b f c, h, omega (arith, le))
  through left r t b (err x) f e ih = cc

  resolve_from_sound : (left : ℕ) (r t : Reference) → resolve_from left r ≡ ok t → Ends left r t
  unfolding resolve_from
  resolve_from_sound zero r t e = elim (Bool-cases (is_symbolic r.typ)) [
    | inl b ↦ cc (rw b at e)
    | inr b ↦ Ends-self 0 r t b (rw b at e)
  ]
  resolve_from_sound (suc left) r t e = elim (Bool-cases (is_symbolic r.typ)) [
    | inl b ↦
        through left r t b (o.reference s r.target) refl (rw b at e)
          (λ u. resolve_from_sound left u t)
    | inr b ↦ Ends-self (suc left) r t b (rw b at e)
  ]

  found-ok :
      (n : Bytes) (f : Reference → Result Reference) (t : Reference) (x : Result Reference)
      → o.reference s n ≡ x
      → found f x ≡ ok t
      → (r : Reference) × (o.reference s n ≡ ok r) × (f r ≡ ok t)
  found-ok n f t (ok r) e h = (r, e, h)
  found-ok n f t (err x) e h = cc

  -- A name resolves to `t` exactly where its reference leads over at most 1025 symbolic references to `t`,
  -- which is not symbolic.
  pub resolve_reference_iff :
      (n : Bytes) (t : Reference)
      → (resolve_reference n ≡ ok t)
        ↔ ((r : Reference) × (o.reference s n ≡ ok r) × Ends (max_recursion + 1) r t)
  unfolding resolve_reference
  resolve_reference_iff n t = (
    λ h.
        (let (r, e, f) =
            found-ok n (λ r. resolve_from (max_recursion + 1) r) t (o.reference s n) refl h in
          (r, e, resolve_from_sound (max_recursion + 1) r t f)),
    λ (r, e, (k, c, h, le)). rw e (resolve_from-Leads (max_recursion + 1) c h le),
  )

  Leads-self :
      (k : ℕ) {r : Reference}
      → is_symbolic r.typ ≡ true
      → o.reference s r.target ≡ ok r
      → Leads k r r
  Leads-self zero b f = here
  Leads-self (suc k) b f = next b f (Leads-self k b f)

  -- A symbolic reference to its own name ends with ErrMaxResolveRecursion.
  pub resolve_reference_self :
      (n : Bytes) {r : Reference}
      → o.reference s n ≡ ok r
      → is_symbolic r.typ ≡ true
      → r.target ≡ n
      → resolve_reference n ≡ err max_resolve_recursion
  resolve_reference_self n {r} f b e =
      resolve_reference_long n f (Leads-self (max_recursion + 2) b (ap (o.reference s) e ∙ f))
        (omega arith)
