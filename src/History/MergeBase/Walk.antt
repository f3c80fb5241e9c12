-- ===== src/History/MergeBase/Walk.antt =====
-- plumbing/object/merge_base.go: what a walk of Independents from one candidate does to the candidates.
use ai_experimental_search.Base.{
  ℕ, ◌≡◌, ◌⊎◌, refl, sym, ap, ◌∙◌, Bool, true, false, not, ◌||◌, ◌&&◌, none, List, [], ◌∷◌, ◌==◌,
  ==_iff, ==_refl, arith, Bool-cases, inl, inr, length,
}
use ai_experimental_search.Base.Members.{elem}
use ai_experimental_search.Refs.Filter.{visit}
use ai_experimental_search.History.Graph.{Commit, hashes}
use ai_experimental_search.History.Filtered.{visiting}
use ai_experimental_search.History.MergeBase.KeepBy.{
  keep_by, keep_by_all, keep_by_same, keep_by-keep_by, elem-keep_by,
}
use ai_experimental_search.History.MergeBase.{Candidates, remove, drop_reached, reach_ancestor}

pub remove-keep_by :
    (cs : List Commit) (d : Commit) → remove cs d ≡ keep_by (λ h. not (h == d.hash)) cs
unfolding remove keep_by
remove-keep_by [] d = refl
remove-keep_by (c ∷ cs) d = elim (Bool-cases (c.hash == d.hash)) [
  | inl s ↦ rw (s, remove-keep_by cs d) refl
  | inr s ↦ rw (s, remove-keep_by cs d) refl
]

abbrev pub dropped : Bool → ℕ → ℕ → Bool
dropped reached a h = not (reached && h == a)

pub ==_sym : (a b : ℕ) → (a == b) ≡ (b == a)
==_sym a b = ground arith

dropped_twice :
    (reached : Bool) (a : ℕ) (cs : List Commit) (other : Commit)
    → other.hash ≡ a
    → keep_by (dropped reached a) (remove cs other) ≡ keep_by (dropped true a) cs
dropped_twice reached a cs other is =
    ap (keep_by (dropped reached a)) (remove-keep_by cs other)
    ∙ keep_by-keep_by (dropped reached a) (λ h. not (h == other.hash)) cs
    ∙ keep_by_same (λ h. not (h == other.hash) && dropped reached a h) (dropped true a) cs
        (λ h e. rw is (once_more (h == a) reached))
  where
    once_more : (k r : Bool) → (not k && not (r && k)) ≡ not (true && k)
    once_more k r = grind arith

-- The loop of the callback removes the commit if it is one of the others.
pub drop_reached-keep_by :
    (a : Commit) (range : List Commit) (s : Candidates)
    → drop_reached a range s ≡ record s {
      candidates = keep_by (dropped (elem a.hash (hashes range)) a.hash) s.candidates;
      others = keep_by (dropped (elem a.hash (hashes range)) a.hash) s.others;
    }
unfolding drop_reached elem
drop_reached-keep_by a [] s =
    rw
      (
        keep_by_all (dropped false a.hash) s.candidates (λ h e. refl),
        keep_by_all (dropped false a.hash) s.others (λ h e. refl),
      )
      refl
drop_reached-keep_by a (other ∷ range) s = elim (Bool-cases (a.hash == other.hash)) [
  | inl q ↦
      let back : (other.hash == a.hash) ≡ true = ==_sym other.hash a.hash ∙ q in
      let is : other.hash ≡ a.hash = (==_iff other.hash a.hash).0 back in
      let reached = elem a.hash (hashes range) in
      rw (q, back)
        (drop_reached-keep_by a range
            (record s { candidates = remove s.candidates other; others = remove s.others other })
          ∙ rw
              (
                dropped_twice reached a.hash s.candidates other is,
                dropped_twice reached a.hash s.others other is,
              )
              refl)
  | inr q ↦
      let back : (other.hash == a.hash) ≡ false = ==_sym other.hash a.hash ∙ q in
      rw (q, back) (drop_reached-keep_by a range s)
]

-- What is left of the candidates when the hashes of a walk from one of them are taken out.
abbrev pub spared : ℕ → List ℕ → ℕ → Bool
spared from ks h = h == from || not (elem h ks)

abbrev pub but : ℕ → ℕ → Bool
but from h = not (h == from)

-- The others are the candidates but the one that the walk is from.
abbrev pub IsFrom : ℕ → Candidates → Type 0
IsFrom from s = s.others ≡ keep_by (but from) s.candidates

module _ (from : ℕ) (a : Commit) (s : Candidates) (apart : IsFrom from s) where
  abbrev left : List Commit
  left = keep_by (spared from (a.hash ∷ [])) s.candidates

  dropped_is :
      (h : ℕ)
      → elem h (hashes s.candidates) ≡ true
      → dropped (elem a.hash (hashes s.others)) a.hash h ≡ spared from (a.hash ∷ []) h
  unfolding elem
  dropped_is h e = elim (Bool-cases (h == a.hash)) [
    | inl q ↦
        let same : h ≡ a.hash = (==_iff h a.hash).0 q in
        let inside : elem a.hash (hashes s.others) ≡ not (h == from) =
          ap (λ (cs : List Commit). elem a.hash (hashes cs)) apart
          ∙ elem-keep_by (but from) s.candidates a.hash
          ∙ ap (λ (k : ℕ). elem k (hashes s.candidates) && not (k == from)) (sym same)
          ∙ ap (λ (b : Bool). b && not (h == from)) e in
        equal (elem a.hash (hashes s.others)) (h == from) (h == a.hash) (a.hash == h) inside q
          (==_sym a.hash h ∙ q)
    | inr q ↦
        unequal (elem a.hash (hashes s.others)) (h == from) (h == a.hash) (a.hash == h) q
          (==_sym a.hash h ∙ q)
  ]
    where
      equal :
          (r f k g : Bool)
          → r ≡ not f
          → k ≡ true
          → g ≡ true
          → not (r && k) ≡ (f || not (g || false))
      equal r f k g e i j = grind arith

      unequal : (r f k g : Bool) → k ≡ false → g ≡ false → not (r && k) ≡ (f || not (g || false))
      unequal r f k g i j = grind arith

  pub drop_reached-spared :
      drop_reached a s.others s ≡ record s { candidates = left; others = keep_by (but from) left }
  drop_reached-spared =
      let reached = elem a.hash (hashes s.others) in
      let kept : keep_by (dropped reached a.hash) s.candidates ≡ left =
        keep_by_same (dropped reached a.hash) (spared from (a.hash ∷ [])) s.candidates dropped_is in
      let others_kept : keep_by (dropped reached a.hash) s.others ≡ keep_by (but from) left =
        ap (keep_by (dropped reached a.hash)) apart
        ∙ keep_by-keep_by (dropped reached a.hash) (but from) s.candidates
        ∙ keep_by_same (λ h. but from h && dropped reached a.hash h)
            (λ h. spared from (a.hash ∷ []) h && but from h) s.candidates
            (λ h e.
              ap (λ (b : Bool). but from h && b) (dropped_is h e)
              ∙ and_comm (but from h) (spared from (a.hash ∷ []) h))
        ∙ sym (keep_by-keep_by (but from) (spared from (a.hash ∷ [])) s.candidates) in
      drop_reached-keep_by a s.others s ∙ rw (kept, others_kept) refl
    where
      and_comm : (a b : Bool) → (a && b) ≡ (b && a)
      and_comm a b = grind arith

-- One commit is left, or every commit of the walk is seen.
abbrev pub AllSeen : Candidates → List ℕ → Candidates → Type 0
AllSeen s ks s' =
    (length s'.candidates ≡ 1) ⊎ ((h : ℕ) → elem h s'.seen ≡ (elem h s.seen || elem h ks))

spared_again :
    (from : ℕ) (k : ℕ) (ks : List ℕ) (cs : List Commit)
    → keep_by (spared from ks) (keep_by (spared from (k ∷ [])) cs)
      ≡ keep_by (spared from (k ∷ ks)) cs
unfolding elem
spared_again from k ks cs =
    keep_by-keep_by (spared from ks) (spared from (k ∷ [])) cs
    ∙ keep_by_same (λ h. spared from (k ∷ []) h && spared from ks h) (spared from (k ∷ ks)) cs
        (λ h e. both (h == from) (k == h) (elem h ks))
  where
    both : (f g e : Bool) → ((f || not (g || false)) && (f || not e)) ≡ (f || not (g || e))
    both f g e = grind arith

or_nothing : (b : Bool) → b ≡ (b || false)
or_nothing b = grind arith

or_all : (b : Bool) → (b || true) ≡ true
or_all b = grind arith

-- Only the candidate that the walk is from can be the last one.
spared_last :
    (from : ℕ) (ks : List ℕ) (cs : List Commit)
    → elem from (hashes cs) ≡ true
    → length cs ≡ 1
    → keep_by (spared from ks) cs ≡ cs
unfolding elem keep_by
spared_last from ks [] e l = cc
spared_last from ks (c ∷ d ∷ cs) e l = absurd (omega (arith, l))
spared_last from ks (c ∷ []) e l =
    let is : (c.hash == from) ≡ true = or_nothing (c.hash == from) ∙ e in rw is refl

has_from :
    (from k : ℕ) (cs : List Commit)
    → elem from (hashes cs) ≡ true
    → elem from (hashes (keep_by (spared from (k ∷ [])) cs)) ≡ true
has_from from k cs e = elem-keep_by (spared from (k ∷ [])) cs from ∙ rw (e, ==_refl from) refl

regroup : (a b c : Bool) → ((a || b) || c) ≡ (b || (a || c))
regroup a b c = grind arith

-- The walk over these commits takes their hashes out of the candidates, but for its own start, and ends without
-- an error.
pub visit-spared :
    (store : List Commit) (limit : Commit → Bool) (from : ℕ) (xs : List Commit) (s : Candidates)
    → IsFrom from s
    → elem from (hashes s.candidates) ≡ true
    → (s' : Candidates) × (visit (visiting store limit) reach_ancestor xs s ≡ (s', none))
      × (s'.candidates ≡ keep_by (spared from (hashes xs)) s.candidates)
      × AllSeen s (hashes xs) s'
unfolding visit reach_ancestor elem
visit-spared store limit from [] s apart e = (
  s,
  refl,
  sym (keep_by_all (spared from []) s.candidates (λ h i. or_all (h == from))),
  inr (λ h. or_nothing (elem h s.seen)),
)
visit-spared store limit from (a ∷ xs) s apart e =
    let kept = keep_by (spared from (a.hash ∷ [])) s.candidates in
    let has = has_from from a.hash s.candidates e in
    let s₁ : Candidates = record s { candidates = kept; others = keep_by (but from) kept } in
    elim (Bool-cases (length kept == 1)) [
      | inl q ↦ (
        s₁,
        rw (drop_reached-spared from a s apart, q) refl,
        sym (spared_last from (hashes xs) kept has ((==_iff (length kept) 1).0 q))
            ∙ spared_again from a.hash (hashes xs) s.candidates,
        inl ((==_iff (length kept) 1).0 q),
      )
      | inr q ↦
          let (s', does, is, all) =
            visit-spared store limit from xs (record s₁ { seen = a.hash ∷ s.seen }) refl has in
          (
            s',
            rw (drop_reached-spared from a s apart, q) does,
            is ∙ spared_again from a.hash (hashes xs) s.candidates,
            elim all [
              | inl one ↦ inl one
              | inr f ↦ inr (λ h. f h ∙ regroup (a.hash == h) (elem h s.seen) (elem h (hashes xs)))
            ],
          )
    ]
