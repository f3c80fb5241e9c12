-- ===== src/History/MergeBase/Sorted.antt =====
-- plumbing/object/merge_base.go: Independents sorts the commits and removes repeated ones. Of sort.Slice it takes
-- that the slice is permuted.
use ai_experimental_search.Base.{
  ℕ, ◌<◌, ◌≡◌, refl, sym, ap, ◌∙◌, Bool, true, false, not, ◌||◌, ◌&&◌, List, [], ◌∷◌, ◌==◌, ==_iff,
  ==_refl, ltb-false, arith, Bool-cases, inl, inr, length,
}
use ai_experimental_search.Base.Members.{elem, NoRepeats}
use ai_experimental_search.History.Graph.{Commit, hashes, is_closed}
use ai_experimental_search.History.Worklist.{AllStored}
use ai_experimental_search.History.MergeBase.{
  commits, remove_duplicates, remove_duplicated, sort_by_commit_date_desc, is_after, independents,
  independents_of,
}
use ai_experimental_search.History.MergeBase.Ancestry.{HasAncestor-refl}
use ai_experimental_search.History.MergeBase.Independent.{IsKept, IsIndependent, IsIndependent-one}
use ai_experimental_search.History.MergeBase.Rounds.{independents_loop-IsIndependent}
use ai_experimental_search.History.MergeBase.Ranked.{is_ranked, is_ranked-falls}
use mathlib.Core.List.{Permᴰ}
use mathlib.Core.List.Permᴰ.{nil, cons, swap, trans}

elem-Permᴰ : (xs ys : List Commit) (h : ℕ) → Permᴰ xs ys → elem h (hashes xs) ≡ elem h (hashes ys)
unfolding elem
elem-Permᴰ xs ys h nil = refl
elem-Permᴰ xs ys h (cons {a = a} {b = b} {l₁ = l} {l₂ = m} e p) =
    rw e (ap (λ (t : Bool). b.hash == h || t) (elem-Permᴰ l m h p))
elem-Permᴰ xs ys h (swap {a = a} {b = b} {a' = c} {b' = d} {l = l} e f) =
    rw (e, f) (exchange (d.hash == h) (c.hash == h) (elem h (hashes l)))
  where
    exchange : (s t r : Bool) → (s || (t || r)) ≡ (t || (s || r))
    exchange s t r = grind arith
elem-Permᴰ xs ys h (trans {l₂ = l} p q) = elem-Permᴰ xs l h p ∙ elem-Permᴰ l ys h q

AllStored-Permᴰ :
    (store xs ys : List Commit) → Permᴰ xs ys → AllStored store ys → AllStored store xs
AllStored-Permᴰ store xs ys nil s = tt
AllStored-Permᴰ store xs ys (cons {l₁ = l} {l₂ = m} e p) (s, more) =
    (rw e s, AllStored-Permᴰ store l m p more)
AllStored-Permᴰ store xs ys (swap e f) (s, (t, more)) = (rw e t, (rw f s, more))
AllStored-Permᴰ store xs ys (trans {l₂ = l} p q) s =
    AllStored-Permᴰ store xs l p (AllStored-Permᴰ store l ys q s)

elem-remove_duplicates :
    (seen : List ℕ) (cs : List Commit) (h : ℕ)
    → elem h (hashes (remove_duplicates seen cs)) ≡ (elem h (hashes cs) && not (elem h seen))
unfolding remove_duplicates elem
elem-remove_duplicates seen [] h = refl
elem-remove_duplicates seen (c ∷ cs) h = elim (Bool-cases (elem c.hash seen)) [
  | inl s ↦ rw s (
      elem-remove_duplicates seen cs h
      ∙ again (c.hash == h) (elem h (hashes cs)) (elem h seen)
          (λ q. ap (λ (k : ℕ). elem k seen) (sym ((==_iff c.hash h).0 q)) ∙ s))
  | inr s ↦ rw s (
      ap (λ (b : Bool). c.hash == h || b) (elem-remove_duplicates (c.hash ∷ seen) cs h)
      ∙ first (c.hash == h) (elem h (hashes cs)) (elem h seen)
          (λ q. ap (λ (k : ℕ). elem k seen) (sym ((==_iff c.hash h).0 q)) ∙ s))
]
  where
    again : (k e s : Bool) → (k ≡ true → s ≡ true) → (e && not s) ≡ ((k || e) && not s)
    again k e s i = grind arith

    first :
        (k e s : Bool) → (k ≡ true → s ≡ false) → (k || (e && not (k || s))) ≡ ((k || e) && not s)
    first k e s i = grind arith

remove_duplicates-NoRepeats :
    (seen : List ℕ) (cs : List Commit) → NoRepeats (hashes (remove_duplicates seen cs))
unfolding remove_duplicates elem
remove_duplicates-NoRepeats seen [] = tt
remove_duplicates-NoRepeats seen (c ∷ cs) = elim (Bool-cases (elem c.hash seen)) [
  | inl s ↦ rw s (remove_duplicates-NoRepeats seen cs)
  | inr s ↦ rw s (
    elem-remove_duplicates (c.hash ∷ seen) cs c.hash
        ∙ gone (c.hash == c.hash) (elem c.hash (hashes cs)) (elem c.hash seen) (==_refl c.hash),
    remove_duplicates-NoRepeats (c.hash ∷ seen) cs,
  )
]
  where
    gone : (k e s : Bool) → k ≡ true → (e && not (k || s)) ≡ false
    gone k e s q = grind arith

remove_duplicates-AllStored :
    (store : List Commit) (seen : List ℕ) (cs : List Commit)
    → AllStored store cs
    → AllStored store (remove_duplicates seen cs)
unfolding remove_duplicates
remove_duplicates-AllStored store seen [] a = tt
remove_duplicates-AllStored store seen (c ∷ cs) (a, more) = elim (Bool-cases (elem c.hash seen)) [
  | inl s ↦ rw s (remove_duplicates-AllStored store seen cs more)
  | inr s ↦ rw s (a, remove_duplicates-AllStored store (c.hash ∷ seen) cs more)
]

module _ (sort_slice : (Commit → Commit → Bool) → List Commit → List Commit)
    (permutes : (less : Commit → Commit → Bool) (cs : List Commit)
      → Permᴰ (sort_slice less cs) cs) where
  sorted_elem :
      (cs : List Commit) (h : ℕ)
      → elem h (hashes (remove_duplicated (sort_by_commit_date_desc sort_slice cs)))
        ≡ elem h (hashes cs)
  unfolding remove_duplicated sort_by_commit_date_desc elem
  sorted_elem cs h =
      elem-remove_duplicates [] (sort_slice is_after cs) h
      ∙ and_true (elem h (hashes (sort_slice is_after cs)))
      ∙ elem-Permᴰ (sort_slice is_after cs) cs h (permutes is_after cs)
    where
      and_true : (b : Bool) → (b && true) ≡ b
      and_true b = grind arith

  sorted_IsKept :
      (store cs : List Commit)
      → AllStored store cs
      → IsKept store cs (remove_duplicated (sort_by_commit_date_desc sort_slice cs))
  unfolding remove_duplicated sort_by_commit_date_desc
  sorted_IsKept store cs stored = record {
    stored =
        remove_duplicates-AllStored store [] (sort_slice is_after cs)
          (AllStored-Permᴰ store (sort_slice is_after cs) cs (permutes is_after cs) stored);
    once = remove_duplicates-NoRepeats [] (sort_slice is_after cs);
    within = λ h e. sym (sorted_elem cs h) ∙ e;
    covers = λ h e. (h, sorted_elem cs h ∙ e, HasAncestor-refl store h);
  }

  nothing : (h : ℕ) → elem h [] ≡ true → ⊥
  unfolding elem
  nothing h e = cc

  -- Independents of stored commits, over a closed store without cycles, returns commits of the list, none twice
  -- and none an ancestor of another one, such that every commit of the list is one of them or an ancestor of
  -- one. More rounds than there are commits are enough for each walk.
  pub independents-IsIndependent :
      (store : List Commit) (rank : ℕ → ℕ) (fuel : ℕ) (cs : List Commit)
      → is_closed store ≡ true
      → is_ranked rank store ≡ true
      → length store < fuel
      → AllStored store cs
      → (res : List Commit) × (independents sort_slice store fuel cs ≡ commits res)
        × IsIndependent store cs res
  unfolding independents
  independents-IsIndependent store rank fuel cs whole ranked enough stored =
      found (remove_duplicated (sort_by_commit_date_desc sort_slice cs))
        (sorted_IsKept store cs stored)
    where
      found :
          (ds : List Commit)
          → IsKept store cs ds
          → (res : List Commit) × (independents_of store fuel ds ≡ commits res)
            × IsIndependent store cs res
      found [] k = ([], refl, record { kept = k; apart = λ x y ex. absurd (nothing x ex) })
      found (c ∷ []) k = (c ∷ [], refl, IsIndependent-one store cs (c ∷ []) k refl)
      found (c ∷ d ∷ ds) k = rw (ltb-false (length (c ∷ d ∷ ds)) 2 (omega arith)) (
          independents_loop-IsIndependent store whole rank (is_ranked-falls rank store ranked) cs
            (length (c ∷ d ∷ ds)) fuel [] (d ∷ ds) c [] enough (omega arith)
            (record {
              kept = k;
              walked = λ h e. absurd (nothing h e);
              alone = λ s y e. absurd (nothing s e);
            }))
