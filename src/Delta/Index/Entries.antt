-- ===== src/Delta/Index/Entries.antt =====
-- countEntries and copyEntries of delta_index.go: the entries that are copied are at most the ones counted.
use ai_experimental_search.Base.{
  ℕ, zero, suc, ◌+◌, ◌≤◌, ◌<◌, ◌≡◌, ◌⊎◌, inl, inr, refl, ◌∙◌, some, List, [], ◌∷◌, ◌==◌, ==_iff,
  length, get_elem?, set, All, Bool-cases, arith,
}
use ai_experimental_search.Delta.Index.{max_chain_length, chain_loop, count_entries}
use ai_experimental_search.Delta.Index.Arrays.{
  get_in_range, All-get, All-set, length-set, write_in_range, IsCut, IsCut-set, IsCut-trans,
}

-- From `h` the list of next entries comes to 0 in at most so many steps.
abbrev pub Within : List ℕ → ℕ → ℕ → Type 0
Within next h zero = ⊥
Within next h (suc k) = (v : ℕ) × (get_elem? next h ≡ some v) × (v ≡ 0 ⊎ Within next v k)

Within-IsCut : (new old : List ℕ) (h k : ℕ) → IsCut new old → Within old h k → Within new h k
Within-IsCut new old h zero c w = w
Within-IsCut new old h (suc k) c (v, e, w) = elim (c h v e) [
  | inl f ↦ (v, f, elim w [ inl z ↦ inl z | inr w' ↦ inr (Within-IsCut new old v k c w') ])
  | inr f ↦ (0, f, inl refl)
]

-- What countEntries makes of a list of next entries with values in range.
pub record IsCounted (next next2 : List ℕ) : Type 0 where
  pub cut : IsCut next2 next
  pub same_length : length next2 ≡ length next
  pub values : All (λ (x : ℕ). x < length next) next2

chain_loop-lem :
    (left h : ℕ) (next : List ℕ)
    → h < length next
    → All (λ (x : ℕ). x < length next) next
    → (size : ℕ) × (next2 : List ℕ) × (chain_loop left h next ≡ some (size, next2))
      × (size ≤ suc left)
      × Within next2 h size
      × IsCounted next next2
unfolding chain_loop
chain_loop-lem zero h next l a = (
  1,
  set next h 0,
  rw (write_in_range next h 0 l) refl,
  omega arith,
  (0, set-get next h l, inl refl),
  record {
    cut = IsCut-set next h;
    same_length = length-set next h 0;
    values = All-set (length next) next h 0 a (omega (arith, l));
  },
)
  where
    set-get : (l : List ℕ) (i : ℕ) → i < length l → get_elem? (set l i 0) i ≡ some 0
    set-get [] i p = absurd (omega (arith, p))
    set-get (x ∷ l) zero p = refl
    set-get (x ∷ l) (suc i) p = set-get l i (omega (arith, p))
chain_loop-lem (suc left) h next l a =
    let (v, e) = get_in_range next h l in
    rw e (elim (Bool-cases (v == 0)) [
      | inl z ↦ rw z (
        1,
        next,
        refl,
        omega arith,
        (v, e, inl ((==_iff v 0).0 z)),
        record { cut = λ i x f. inl f; same_length = refl; values = a },
      )
      | inr z ↦
          let (size, next2, f, b, w, c) =
            chain_loop-lem left v next (All-get (length next) next h v a e) a in
          rw (z, f) (suc size, next2, refl, omega (arith, b), onward v size next2 e w c.cut, c)
    ])
  where
    onward :
        (v size : ℕ) (next2 : List ℕ)
        → get_elem? next h ≡ some v
        → Within next2 v size
        → IsCut next2 next
        → Within next2 h (suc size)
    onward v size next2 e w c = elim (c h v e) [ inl f ↦ (v, f, inr w) | inr f ↦ (0, f, inl refl) ]

-- The chains from the entries of a table have at most `total` entries together, each at most `max_chain_length`.
abbrev pub Fits : List ℕ → List ℕ → ℕ → Type 0
Fits [] next total = Unit
Fits (h ∷ table) next total =
    ((h ≡ 0) × Fits table next total)
    ⊎ ((k : ℕ) × (rest : ℕ) × (k + rest ≡ total)
        × (k ≤ max_chain_length)
        × Within next h k
        × Fits table next rest)

Fits-IsCut :
    (table new old : List ℕ) (total : ℕ)
    → IsCut new old
    → Fits table old total
    → Fits table new total
Fits-IsCut [] new old total c f = tt
Fits-IsCut (h ∷ table) new old total c (inl (z, f)) = inl (z, Fits-IsCut table new old total c f)
Fits-IsCut (h ∷ table) new old total c (inr (k, rest, e, b, w, f)) =
    inr (k, rest, e, b, Within-IsCut new old h k c w, Fits-IsCut table new old rest c f)

pub count_entries-Fits :
    (table next : List ℕ)
    → All (λ (x : ℕ). x < length next) table
    → All (λ (x : ℕ). x < length next) next
    → (total : ℕ) × (next2 : List ℕ) × (count_entries table next ≡ some (total, next2))
      × Fits table next2 total
      × IsCounted next next2
unfolding count_entries
count_entries-Fits [] next t a =
    (0, next, refl, tt, record { cut = λ i x f. inl f; same_length = refl; values = a })
count_entries-Fits (h ∷ table) next (l, t) a = elim (Bool-cases (h == 0)) [
  | inl z ↦
      let (total, next2, e, f, c) = count_entries-Fits table next t a in
      rw z (total, next2, e, inl ((==_iff h 0).0 z, f), c)
  | inr z ↦
      let (size, next2, e, b, w, c) = chain_loop-lem 63 h next l a in
      let (total, next3, e', f, d) =
        count_entries-Fits table next2 (rw c.same_length t) (rw c.same_length c.values) in
      rw (z, e, e')
        (
          size + total,
          next3,
          refl,
          inr (size, total, refl, b, Within-IsCut next3 next2 h size d.cut w, f),
          record {
            cut = IsCut-trans next3 next2 next d.cut c.cut;
            same_length = d.same_length ∙ c.same_length;
            values = rw c.same_length at d.values;
          },
        )
]
