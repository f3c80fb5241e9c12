-- ===== src/History/MergeBase/Ranked.antt =====
-- plumbing/object/merge_base.go: a history has no cycles, since a hash is over the hashes of the parents. A rank that
-- falls from a commit to its parents says so of a store.
use ai_experimental_search.Base.{
  ℕ, ◌<◌, ◌≡◌, sym, subst, Bool, true, false, ◌&&◌, some, List, [], ◌∷◌, ◌==◌, ==_iff, ltb, ltb→lt,
  arith, Bool-cases, Option-cases, inl, inr,
}
use ai_experimental_search.Base.Members.{elem}
use ai_experimental_search.History.Graph.{Commit, get_commit, get_commit-hash, parents_of}

unfoldable pub all_below : (ℕ → ℕ) → ℕ → List ℕ → Bool
all_below rank n [] = true
all_below rank n (p ∷ ps) = ltb (rank p) n && all_below rank n ps

-- The rank of every commit is above the ranks of its parents.
unfoldable pub is_ranked : (ℕ → ℕ) → List Commit → Bool
unfolding all_below
is_ranked rank [] = true
is_ranked rank (c ∷ cs) = all_below rank (rank c.hash) c.parents && is_ranked rank cs

both_left : (a b : Bool) → (a && b) ≡ true → a ≡ true
both_left a b e = grind arith

both_right : (a b : Bool) → (a && b) ≡ true → b ≡ true
both_right a b e = grind arith

all_below-elem :
    (rank : ℕ → ℕ) (n : ℕ) (ps : List ℕ) (p : ℕ)
    → all_below rank n ps ≡ true
    → elem p ps ≡ true
    → rank p < n
unfolding all_below elem
all_below-elem rank n [] p a e = cc
all_below-elem rank n (q ∷ ps) p a e = elim (Bool-cases (q == p)) [
  | inl s ↦
      let below = ltb→lt (rank q) n (both_left (ltb (rank q) n) (all_below rank n ps) a) in
      subst (λ (k : ℕ). rank k < n) ((==_iff q p).0 s) below
  | inr s ↦
      all_below-elem rank n ps p (both_right (ltb (rank q) n) (all_below rank n ps) a) (rw s at e)
]

is_ranked-commit :
    (rank : ℕ → ℕ) (store : List Commit) (h : ℕ) (c : Commit)
    → is_ranked rank store ≡ true
    → get_commit store h ≡ some c
    → all_below rank (rank c.hash) c.parents ≡ true
unfolding is_ranked get_commit
is_ranked-commit rank [] h c r e = cc
is_ranked-commit rank (d ∷ ds) h c r e = elim (Bool-cases (d.hash == h)) [
  | inl q ↦
      let same : some d ≡ some c = rw q at e in
      let is : d ≡ c = cc in
      rw (sym is) (both_left (all_below rank (rank d.hash) d.parents) (is_ranked rank ds) r)
  | inr q ↦
      is_ranked-commit rank ds h c
        (both_right (all_below rank (rank d.hash) d.parents) (is_ranked rank ds) r) (rw q at e)
]

-- The rank falls from a commit to its parents.
pub is_ranked-falls :
    (rank : ℕ → ℕ) (store : List Commit)
    → is_ranked rank store ≡ true
    → (h p : ℕ) → elem p (parents_of store h) ≡ true
    → rank p < rank h
unfolding parents_of elem
is_ranked-falls rank store r h p e = elim (Option-cases (get_commit store h)) [
  | inl o ↦ let absent : false ≡ true = rw o at e in cc
  | inr (c, o) ↦
      let below =
        all_below-elem rank (rank c.hash) c.parents p (is_ranked-commit rank store h c r o)
          (rw o at e) in
      subst (λ (k : ℕ). rank p < rank k) (get_commit-hash store h c o) below
]
