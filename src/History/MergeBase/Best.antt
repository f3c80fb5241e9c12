-- ===== src/History/MergeBase/Best.antt =====
-- plumbing/object/merge_base.go: MergeBase returns the best common ancestors.
use ai_experimental_search.Base.{
  ℕ, ◌<◌, ◌≡◌, ◌⊎◌, refl, sym, ap, subst, ◌∙◌, Bool, true, false, ◌&&◌, Option, none, some, List,
  [], ◌∷◌, ◌++◌, ◌==◌, ==_refl, arith, Bool-cases, inl, inr, length, append_assoc, append-nil,
}
use ai_experimental_search.Base.Members.{elem, NoRepeats, or_left}
use ai_experimental_search.Refs.Filter.{keep, Yields-keep, visit, for_each_loop-visit, length-keep}
use ai_experimental_search.Refs.Iter.{Iterator}
use ai_experimental_search.History.Graph.{Commit, WalkError, hashes, get_commit, is_closed}
use ai_experimental_search.History.Worklist.{Visits}
use ai_experimental_search.History.Filtered.{
  FilterCommitIter, visiting, visiting-Visits, parents_within, new_filter_commit_iter,
  filter_commit_iterator,
}
use ai_experimental_search.History.Ancestor.{ancestors_index, ancestors_index_lem}
use ai_experimental_search.History.MergeBase.{
  commits, is_limit, is_in_index_commit_filter, is_after, border, appended, merge_base, merge_in,
  sort_by_commit_date_desc,
}
use ai_experimental_search.History.MergeBase.KeepBy.{keep_by, elem-keep_by}
use ai_experimental_search.History.MergeBase.Ancestry.{
  HasAncestor, HasAncestor-refl, HasAncestor-trans, visited-HasAncestor, HasAncestor-visited,
  only_start,
}
use ai_experimental_search.History.MergeBase.KeepBy.{keep_by-AllStored}
use ai_experimental_search.History.MergeBase.Ranked.{is_ranked}
use ai_experimental_search.History.MergeBase.Sorted.{independents-IsIndependent}
use mathlib.Core.List.{Permᴰ}
use mathlib.Core.List.Permᴰ.{nil, cons, swap, trans}

-- The best common ancestors of two commits: each is one of both, none is an ancestor of another one, and every
-- common ancestor is one of them or an ancestor of one.
pub record IsBest (store : List Commit) (a b : ℕ) (res : List Commit) : Type 0 where
  pub once : NoRepeats (hashes res)
  pub common : (h : ℕ) → elem h (hashes res) ≡ true → HasAncestor store a h × HasAncestor store b h
  pub apart :
      (x y : ℕ)
      → elem x (hashes res) ≡ true
      → elem y (hashes res) ≡ true
      → HasAncestor store x y
      → x ≡ y
  pub best :
      (h : ℕ)
      → HasAncestor store a h
      → HasAncestor store b h
      → (x : ℕ) × (elem x (hashes res) ≡ true) × HasAncestor store x h

IsBest-sym :
    (store : List Commit) (a b : ℕ) (res : List Commit)
    → IsBest store a b res
    → IsBest store b a res
IsBest-sym store a b res r = record {
  once = r.once;
  common = λ h e. let (p, q) = r.common h e in (q, p);
  apart = r.apart;
  best = λ h p q. r.best h q p;
}

keep-keep_by : (test : ℕ → Bool) (xs : List Commit) → keep (λ c. test c.hash) xs ≡ keep_by test xs
unfolding keep keep_by
keep-keep_by test [] = refl
keep-keep_by test (x ∷ xs) = elim (Bool-cases (test x.hash)) [
  | inl s ↦ rw (s, keep-keep_by test xs) refl
  | inr s ↦ rw (s, keep-keep_by test xs) refl
]

visit-appended :
    (sort_slice : (Commit → Commit → Bool) → List Commit → List Commit)
    (it : Iterator FilterCommitIter Commit WalkError) (xs acc : List Commit)
    → visit it (appended sort_slice) xs acc ≡ (acc ++ xs, none)
unfolding visit
visit-appended sort_slice it [] acc = rw (append-nil acc) refl
visit-appended sort_slice it (x ∷ xs) acc =
    visit-appended sort_slice it xs (acc ++ (x ∷ [])) ∙ rw (append_assoc acc (x ∷ []) xs) refl

perm_nil : (xs ys : List Commit) → Permᴰ xs ys → ys ≡ [] → xs ≡ []
perm_nil xs ys nil e = refl
perm_nil xs ys (cons q p) e = cc
perm_nil xs ys (swap q r) e = cc
perm_nil xs ys (trans {l₂ = l} p q) e = perm_nil xs l p (perm_nil l ys q e)

perm_one : (b : Commit) (xs ys : List Commit) → Permᴰ xs ys → ys ≡ b ∷ [] → xs ≡ b ∷ []
perm_one b xs ys nil e = cc
perm_one b xs ys (cons {a = c} {b = d} {l₁ = l} {l₂ = m} q p) e =
    let first : d ≡ b = cc in let last : m ≡ [] = cc in rw (q, first, perm_nil l m p last) refl
perm_one b xs ys (swap q r) e = cc
perm_one b xs ys (trans {l₂ = l} p q) e = perm_one b xs l p (perm_one b l ys q e)

-- Two commits in some order.
perm_two :
    (a b : Commit) (xs ys : List Commit)
    → Permᴰ xs ys
    → ys ≡ a ∷ b ∷ []
    → (xs ≡ a ∷ b ∷ []) ⊎ (xs ≡ b ∷ a ∷ [])
perm_two a b xs ys nil e = cc
perm_two a b xs ys (cons {a = c} {b = d} {l₁ = l} {l₂ = m} q p) e =
    let first : d ≡ a = cc in
    let rest : m ≡ b ∷ [] = cc in inl (rw (q, first, perm_one b l m p rest) refl)
perm_two a b xs ys (swap {a = c} {b = d} {a' = c'} {b' = d'} {l = l} q r) e =
    let first : c' ≡ a = cc in
    let second : d' ≡ b = cc in let rest : l ≡ [] = cc in inr (rw (q, r, first, second, rest) refl)
perm_two a b xs ys (trans {l₂ = l} p q) e = elim (perm_two a b l ys q e) [
  | inl s ↦ perm_two a b xs l p s
  | inr s ↦ elim (perm_two b a xs l p s) [ inl t ↦ inr t | inr t ↦ inl t ]
]

module _ (sort_slice : (Commit → Commit → Bool) → List Commit → List Commit)
    (permutes : (less : Commit → Commit → Bool) (cs : List Commit) → Permᴰ (sort_slice less cs) cs)
    (store : List Commit) (rank : ℕ → ℕ) (fuel : ℕ) (whole : is_closed store ≡ true)
    (ranked : is_ranked rank store ≡ true) (enough : length store < fuel) where
  -- The walk from the older commit gives the commits of the history that it visits.
  border-keep_by :
      (older : Commit) (history : List ℕ) (xs : List Commit)
      → Visits
          (visiting store (is_limit history))
          store
          (parents_within store (is_limit history))
          (λ h. false)
          (older.hash ∷ [])
          (new_filter_commit_iter older)
          xs
      → border sort_slice store fuel older history ≡ keep_by (λ h. elem h history) xs
  unfolding border is_in_index_commit_filter is_limit
  border-keep_by older history xs v =
      let test : Commit → Bool = λ c. elem c.hash history in
      let it = filter_commit_iterator store test test fuel in
      let y =
        Yields-keep (visiting store test) test xs (new_filter_commit_iter older) fuel
          (omega (arith, v.few, enough)) v.yields in
      let shorter = length-keep test xs in
      let ran =
        for_each_loop-visit it (appended sort_slice) (keep test xs) (new_filter_commit_iter older)
          [] fuel y (omega (arith, v.few, enough, shorter)) in
      ap (λ (r : List Commit × Option (Option WalkError)). r.0) ran
      ∙ ap (λ (r : List Commit × Option WalkError). r.0)
          (visit-appended sort_slice it (keep test xs) [])
      ∙ keep-keep_by (λ h. elem h history) xs

  merge_in-IsBest :
      (newer older : Commit)
      → get_commit store newer.hash ≡ some newer
      → get_commit store older.hash ≡ some older
      → (res : List Commit) × (merge_in sort_slice store fuel older
            (ancestors_index fuel store older newer)
          ≡ commits res)
        × IsBest store newer.hash older.hash res
  unfolding is_limit elem
  merge_in-IsBest newer older known_newer known_older =
      elim (ancestors_index_lem fuel store older newer whole known_newer enough) [
        | inl (r, e) ↦ (
          older ∷ [],
          rw e refl,
          record {
            once = (refl, tt);
            common = λ h m.
                let is = only_start store older.hash h m in
                (
                  subst (HasAncestor store newer.hash) is r,
                  subst (HasAncestor store older.hash) is (HasAncestor-refl store older.hash),
                );
            apart = λ x y m n q.
                sym (only_start store older.hash x m) ∙ only_start store older.hash y n;
            best = λ h p q. (older.hash, self older.hash, q);
          },
        )
        | inr (history, e, out, has) ↦
            let (xs, v) = visiting-Visits store whole (is_limit history) older known_older in
            let test : ℕ → Bool = λ h. elem h history in
            let at_border = keep_by test xs in
            let stored = keep_by-AllStored store test xs v.stored in
            let (res, does, ind) =
              independents-IsIndependent sort_slice permutes store rank fuel at_border whole ranked
                enough stored in
            let inside : (h : ℕ)
                → elem h (hashes xs) ≡ true
                → elem h history ≡ true
                → elem h (hashes at_border) ≡ true =
              λ h m n. elem-keep_by test xs h ∙ rw (m, n) refl in
            (
              res,
              rw (e, border-keep_by older history xs v) does,
              record {
                once = ind.kept.once;
                common = λ h m.
                    let both : (elem h (hashes xs) && elem h history) ≡ true =
                      sym (elem-keep_by test xs h) ∙ ind.kept.within h m in
                    (
                      (has h).0 (right_of (elem h (hashes xs)) (elem h history) both),
                      visited-HasAncestor store history older xs v h
                          (left_of (elem h (hashes xs)) (elem h history) both),
                    );
                apart = ind.apart;
                best = λ h p q. elim (HasAncestor-visited store history older xs v h q) [
                  | inl m ↦ ind.kept.covers h (inside h m ((has h).1 p))
                  | inr (s, m, n, t) ↦
                      let (x, k, u) = ind.kept.covers s (inside s m n) in
                      (x, k, HasAncestor-trans store x s h u t)
                ];
              },
            )
      ]
    where
      left_of : (a b : Bool) → (a && b) ≡ true → a ≡ true
      left_of a b e = grind arith

      right_of : (a b : Bool) → (a && b) ≡ true → b ≡ true
      right_of a b e = grind arith

      self : (h : ℕ) → elem h (h ∷ []) ≡ true
      self h = or_left (h == h) false (==_refl h)

  -- MergeBase of two stored commits, over a closed store without cycles, returns the best common ancestors: each
  -- is an ancestor of both, or one of them, none is an ancestor of another one, and every common ancestor is one
  -- of them or an ancestor of one. Of sort.Slice it takes that the slice is permuted.
  pub merge_base-IsBest :
      (c other : Commit)
      → get_commit store c.hash ≡ some c
      → get_commit store other.hash ≡ some other
      → (res : List Commit) × (merge_base sort_slice store fuel c other ≡ commits res)
        × IsBest store c.hash other.hash res
  unfolding merge_base sort_by_commit_date_desc
  merge_base-IsBest c other known_c known_other =
      elim (perm_two c other (sort_slice is_after (c ∷ other ∷ [])) (c ∷ other ∷ [])
        (permutes is_after (c ∷ other ∷ [])) refl) [
          | inl s ↦
              let (res, does, b) = merge_in-IsBest c other known_c known_other in
              (res, rw s does, b)
          | inr s ↦
              let (res, does, b) = merge_in-IsBest other c known_other known_c in
              (res, rw s does, IsBest-sym store other.hash c.hash res b)
        ]
