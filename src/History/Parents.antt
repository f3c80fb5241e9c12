-- ===== src/History/Parents.antt =====
-- plumbing/object: the parents that a walk adds to what is pending.
use ai_experimental_search.Base.{
  ℕ, ◌≡◌, refl, sym, ap, ◌∙◌, Bool, true, false, not, ◌&&◌, ◌||◌, Option, none, some, List, [], ◌∷◌,
  ◌++◌, if◌then◌else◌, ◌==◌, ◌⊎◌, ==_iff, arith, Bool-cases, inl, inr,
}
use ai_experimental_search.Base.Members.{elem}
use ai_experimental_search.History.Graph.{
  Commit, get_commit, hashes, get_commit-elem, get_commit-hash, get_commit-stored, all_elem,
  all_elem-first, all_elem-rest,
}
use ai_experimental_search.History.Worklist.{AllStored}

abbrev with_found : Option Commit → List Commit → List Commit
with_found none rest = rest
with_found (some c) rest = c ∷ rest

-- The stored commits under the hashes that are not in a set.
unfoldable pub new_commits : List Commit → (ℕ → Bool) → List ℕ → List Commit
new_commits store seen [] = []
new_commits store seen (h ∷ hs) =
    let rest = new_commits store seen hs in
    if seen h then rest else with_found (get_commit store h) rest

pub AllStored-append :
    (store xs ys : List Commit)
    → AllStored store xs
    → AllStored store ys
    → AllStored store (xs ++ ys)
AllStored-append store [] ys a b = b
AllStored-append store (x ∷ xs) ys (a, more) b = (a, AllStored-append store xs ys more b)

pub hashes-append :
    (h : ℕ) (xs ys : List Commit)
    → elem h (hashes (xs ++ ys)) ≡ (elem h (hashes xs) || elem h (hashes ys))
unfolding elem
hashes-append h [] ys = refl
hashes-append h (x ∷ xs) ys = ground (arith, hashes-append h xs ys)

pub new_commits-AllStored :
    (store : List Commit) (seen : ℕ → Bool) (hs : List ℕ)
    → AllStored store (new_commits store seen hs)
unfolding new_commits
new_commits-AllStored store seen [] = tt
new_commits-AllStored store seen (h ∷ hs) = elim (Bool-cases (seen h)) [
  | inl s ↦ rw s (new_commits-AllStored store seen hs)
  | inr s ↦
      rw s (with_found-AllStored (new_commits-AllStored store seen hs) (get_commit store h) refl)
]
  where
    with_found-AllStored :
        AllStored store (new_commits store seen hs)
        → (o : Option Commit) → get_commit store h ≡ o
        → AllStored store (with_found o (new_commits store seen hs))
    with_found-AllStored rest none e = rest
    with_found-AllStored rest (some c) e = (get_commit-stored store h c e, rest)

and_false : (b : Bool) → (b && false) ≡ false
and_false true = refl
and_false false = refl

-- When all the hashes are stored, these are the hashes that are not in the set.
pub new_commits-elem :
    (store : List Commit) (seen : ℕ → Bool) (hs : List ℕ)
    → all_elem hs (hashes store) ≡ true
    → (h : ℕ) → elem h (hashes (new_commits store seen hs)) ≡ (elem h hs && not (seen h))
unfolding new_commits elem
new_commits-elem store seen [] a h = refl
new_commits-elem store seen (k ∷ hs) a h = elim (Bool-cases (seen k)) [
  | inl s ↦ rw s (
      new_commits-elem store seen hs (all_elem-rest k hs (hashes store) a) h
      ∙ passed_over (Bool-cases (k == h)) s)
  | inr s ↦
      let (c, is) = get_commit-elem store k (all_elem-first k hs (hashes store) a) in
      let key = get_commit-hash store k c is in
      rw (s, is, key)
        (ap (λ (b : Bool). k == h || b)
            (new_commits-elem store seen hs (all_elem-rest k hs (hashes store) a) h)
          ∙ taken (Bool-cases (k == h)) s)
]
  where
    passed_over :
        ((k == h) ≡ true) ⊎ ((k == h) ≡ false)
        → seen k ≡ true
        → (elem h hs && not (seen h)) ≡ ((k == h || elem h hs) && not (seen h))
    passed_over (inl q) s =
        let gone : seen h ≡ true = ap seen (sym ((==_iff k h).0 q)) ∙ s in
        rw (gone, q) (and_false (elem h hs))
    passed_over (inr q) s = rw q refl

    taken :
        ((k == h) ≡ true) ⊎ ((k == h) ≡ false)
        → seen k ≡ false
        → (k == h || (elem h hs && not (seen h))) ≡ ((k == h || elem h hs) && not (seen h))
    taken (inl q) s =
        let kept : seen h ≡ false = ap seen (sym ((==_iff k h).0 q)) ∙ s in rw (kept, q) refl
    taken (inr q) s = rw q refl
