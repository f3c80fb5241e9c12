-- ===== src/History/Graph.antt =====
-- plumbing/object/commit.go: commits by their hashes, the lookup in a store, and reachability.
use ai_experimental_search.Base.{
  ℕ, ◌≡◌, refl, sym, ap, ◌∙◌, Bool, true, false, ◌&&◌, Option, none, some, List, [], ◌∷◌, map, ◌==◌,
  ==_iff, if◌then◌else◌, Bool-cases, inl, inr,
}
use ai_experimental_search.Base.Members.{elem}

-- Commit, with what a walk reads of it: Hash, ParentHashes and Committer.When.
pub record Commit : Type 0 where
  pub hash : ℕ
  pub parents : List ℕ
  pub when : ℕ

-- io.EOF, plumbing.ErrObjectNotFound, and errIsReachable of merge_base.go.
pub data WalkError : Type 0 where
  eof : WalkError
  object_not_found : WalkError
  is_reachable : WalkError

-- GetCommit: the commit that the store has under a hash.
unfoldable pub get_commit : List Commit → ℕ → Option Commit
get_commit [] h = none
get_commit (c ∷ cs) h = let rest = get_commit cs h in if c.hash == h then some c else rest

abbrev pub hashes : List Commit → List ℕ
hashes cs = map (λ (c : Commit). c.hash) cs

abbrev parents_in : Option Commit → List ℕ
parents_in none = []
parents_in (some c) = c.parents

-- The parents of the commit with a hash.
unfoldable pub parents_of : List Commit → ℕ → List ℕ
unfolding get_commit
parents_of store h = parents_in (get_commit store h)

unfoldable pub all_elem : List ℕ → List ℕ → Bool
unfolding elem
all_elem [] known = true
all_elem (h ∷ hs) known = elem h known && all_elem hs known

-- Every parent of these commits is one of the known hashes.
unfoldable pub parents_known : List Commit → List ℕ → Bool
unfolding all_elem
parents_known [] known = true
parents_known (c ∷ cs) known = all_elem c.parents known && parents_known cs known

-- No parent of a stored commit is missing.
unfoldable pub is_closed : List Commit → Bool
unfolding parents_known
is_closed store = parents_known store (hashes store)

-- The hashes that a walk can reach from the starts along the successors, over hashes that are not blocked.
pub data Reach (succ : ℕ → List ℕ) (blocked : ℕ → Bool) (starts : List ℕ) : ℕ → Type 0 where
  here : (h : ℕ) → elem h starts ≡ true → blocked h ≡ false → Reach succ blocked starts h
  step :
      (h p : ℕ)
      → Reach succ blocked starts h
      → elem p (succ h) ≡ true
      → blocked p ≡ false
      → Reach succ blocked starts p

pub parents_of-commit :
    (store : List Commit) (c : Commit)
    → get_commit store c.hash ≡ some c
    → parents_of store c.hash ≡ c.parents
unfolding parents_of
parents_of-commit store c e = rw e refl

pub get_commit-hash :
    (store : List Commit) (h : ℕ) (c : Commit) → get_commit store h ≡ some c → c.hash ≡ h
unfolding get_commit
get_commit-hash [] h c e = cc
get_commit-hash (d ∷ ds) h c e = elim (Bool-cases (d.hash == h)) [
  | inl q ↦
      let same : some d ≡ some c = rw q at e in
      let is : d ≡ c = cc in rw (sym is) ((==_iff d.hash h).0 q)
  | inr q ↦ get_commit-hash ds h c (rw q at e)
]

pub get_commit-stored :
    (store : List Commit) (h : ℕ) (c : Commit)
    → get_commit store h ≡ some c
    → get_commit store c.hash ≡ some c
get_commit-stored store h c e = ap (get_commit store) (get_commit-hash store h c e) ∙ e

pub get_commit-elem :
    (store : List Commit) (h : ℕ)
    → elem h (hashes store) ≡ true
    → (c : Commit) × (get_commit store h ≡ some c)
unfolding get_commit elem
get_commit-elem [] h e = cc
get_commit-elem (d ∷ ds) h e = elim (Bool-cases (d.hash == h)) [
  | inl q ↦ (d, rw q refl)
  | inr q ↦ let (c, is) = get_commit-elem ds h (rw q at e) in (c, rw q is)
]

pub elem-get_commit :
    (store : List Commit) (h : ℕ) (c : Commit)
    → get_commit store h ≡ some c
    → elem h (hashes store) ≡ true
unfolding get_commit elem
elem-get_commit [] h c e = cc
elem-get_commit (d ∷ ds) h c e = elim (Bool-cases (d.hash == h)) [
  | inl q ↦ rw q refl
  | inr q ↦ rw q (elem-get_commit ds h c (rw q at e))
]

all-left : (a b : Bool) → (a && b) ≡ true → a ≡ true
all-left true b e = refl
all-left false b e = e

all-right : (a b : Bool) → (a && b) ≡ true → b ≡ true
all-right true b e = e
all-right false b e = cc

pub all_elem-first :
    (h : ℕ) (hs known : List ℕ) → all_elem (h ∷ hs) known ≡ true → elem h known ≡ true
unfolding all_elem
all_elem-first h hs known e = all-left (elem h known) (all_elem hs known) e

pub all_elem-rest :
    (h : ℕ) (hs known : List ℕ) → all_elem (h ∷ hs) known ≡ true → all_elem hs known ≡ true
unfolding all_elem
all_elem-rest h hs known e = all-right (elem h known) (all_elem hs known) e

parents_known-commit :
    (store : List Commit) (known : List ℕ) (h : ℕ) (c : Commit)
    → parents_known store known ≡ true
    → get_commit store h ≡ some c
    → all_elem c.parents known ≡ true
unfolding get_commit parents_known
parents_known-commit [] known h c k e = cc
parents_known-commit (d ∷ ds) known h c k e = elim (Bool-cases (d.hash == h)) [
  | inl q ↦
      let same : some d ≡ some c = rw q at e in
      let is : d ≡ c = cc in
      rw (sym is) (all-left (all_elem d.parents known) (parents_known ds known) k)
  | inr q ↦
      parents_known-commit ds known h c
        (all-right (all_elem d.parents known) (parents_known ds known) k) (rw q at e)
]

-- In a closed store the parents of a stored commit are stored.
pub is_closed-parents :
    (store : List Commit) (h : ℕ) (c : Commit)
    → is_closed store ≡ true
    → get_commit store h ≡ some c
    → all_elem c.parents (hashes store) ≡ true
unfolding is_closed
is_closed-parents store h c k e = parents_known-commit store (hashes store) h c k e
