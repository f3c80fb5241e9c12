-- ===== src/History/All/Laws.antt =====
-- plumbing/object/commit_walker.go: what the path over all references has.
use ai_experimental_search.Base.{
  ℕ, zero, suc, ◌≡◌, refl, sym, ap, ◌∙◌, Bool, true, false, ◌||◌, Option, none, some, List, [], ◌∷◌,
  ◌++◌, if◌then◌else◌, ◌==◌, ==_iff, ==_refl, arith, Bool-cases, ◌<◌, ◌⊎◌, subst, length,
  Option-cases, inl, inr,
}
use ai_experimental_search.Base.Members.{elem, NoRepeats, or-cases, or_left, or_right, or_assoc}
use ai_experimental_search.Refs.Iter.{Next, got, ended, failed, Iterator}
use ai_experimental_search.Refs.Filter.{Yields}
use ai_experimental_search.History.Graph.{Commit, WalkError, get_commit, get_commit-stored, hashes}
use ai_experimental_search.History.Parents.{hashes-append}
use ai_experimental_search.History.Graph.{parents_of, get_commit-hash}
use ai_experimental_search.History.Worklist.{Visits}
use ai_experimental_search.History.MergeBase.Ancestry.{HasAncestor}
use ai_experimental_search.History.All.{
  insert_before, inserted, collected, collect, add_reference, new_commit_all_iter,
}

-- A list of other commits than those of the path, and the one of the path that they go in front of.
pub record IsNew (path : List ℕ) (r : List Commit × Option ℕ) : Type 0 where
  pub once : NoRepeats (hashes r.0)
  pub apart : (h : ℕ) → elem h (hashes r.0) ≡ true → elem h path ≡ false
  pub parent : (p : ℕ) → r.1 ≡ some p → elem p path ≡ true

or_comm_elem :
    (h : ℕ) (new path : List Commit)
    → elem h (hashes (new ++ path)) ≡ (elem h (hashes path) || elem h (hashes new))
or_comm_elem h new path =
    hashes-append h new path ∙ or_comm (elem h (hashes new)) (elem h (hashes path))
  where
    or_comm : (a b : Bool) → (a || b) ≡ (b || a)
    or_comm a b = grind arith

elem-insert_before :
    (path new : List Commit) (p h : ℕ)
    → elem p (hashes path) ≡ true
    → elem h (hashes (insert_before path new p)) ≡ (elem h (hashes path) || elem h (hashes new))
unfolding insert_before elem
elem-insert_before [] new p h e = cc
elem-insert_before (c ∷ path) new p h e = elim (Bool-cases (c.hash == p)) [
  | inl s ↦ rw s (or_comm_elem h new (c ∷ path))
  | inr s ↦ rw s (
      ap (λ (b : Bool). c.hash == h || b) (elem-insert_before path new p h (rw s at e))
      ∙ sym (or_assoc (c.hash == h) (elem h (hashes path)) (elem h (hashes new))))
]

append-NoRepeats :
    (xs ys : List Commit)
    → NoRepeats (hashes xs)
    → NoRepeats (hashes ys)
    → ((h : ℕ) → elem h (hashes xs) ≡ true → elem h (hashes ys) ≡ false)
    → NoRepeats (hashes (xs ++ ys))
unfolding elem
append-NoRepeats [] ys n m d = m
append-NoRepeats (x ∷ xs) ys (n, ns) m d = (
  hashes-append x.hash xs ys
      ∙ rw (n, d x.hash (or_left (x.hash == x.hash) (elem x.hash (hashes xs)) (==_refl x.hash)))
          refl,
  append-NoRepeats xs ys ns m (λ h e. d h (or_right (x.hash == h) (elem h (hashes xs)) e)),
)

insert_before-NoRepeats :
    (path new : List Commit) (p : ℕ)
    → NoRepeats (hashes path)
    → NoRepeats (hashes new)
    → elem p (hashes path) ≡ true
    → ((h : ℕ) → elem h (hashes new) ≡ true → elem h (hashes path) ≡ false)
    → NoRepeats (hashes (insert_before path new p))
unfolding insert_before elem
insert_before-NoRepeats [] new p n m e d = cc
insert_before-NoRepeats (c ∷ path) new p (n, ns) m e d = elim (Bool-cases (c.hash == p)) [
  | inl s ↦ rw s (append-NoRepeats new (c ∷ path) m (n, ns) d)
  | inr s ↦ rw s (
    elem-insert_before path new p c.hash (rw s at e)
        ∙ rw n (no_again (elem c.hash (hashes new)) refl),
    insert_before-NoRepeats path new p ns m (rw s at e)
        (λ h q. right_of (c.hash == h) (elem h (hashes path)) (d h q)),
  )
]
  where
    right_of : (a b : Bool) → (a || b) ≡ false → b ≡ false
    right_of a b e = grind arith

    no_again : (b : Bool) → elem c.hash (hashes new) ≡ b → b ≡ false
    no_again false q = refl
    no_again true q =
        let bad : ((c.hash == c.hash) || elem c.hash (hashes path)) ≡ false = d c.hash q in
        sym (or_left (c.hash == c.hash) (elem c.hash (hashes path)) (==_refl c.hash)) ∙ bad

module _ {I : Type 0} (it : Iterator I Commit WalkError) (start : Commit → I) where
  abbrev first_of : List ℕ → Commit → List Commit × Option ℕ → List Commit × Option ℕ
  first_of path x r = if elem x.hash path then ([], some x.hash) else (x ∷ r.0, r.1)

  collected-got :
      (path : List ℕ) (more : I → List Commit × Option ℕ) (x : Commit)
      (r : I × Next Commit WalkError)
      → r.1 ≡ got x
      → collected it start path more r ≡ first_of path x (more r.0)
  collected-got path more x (i, got c) e = let is : c ≡ x = cc in rw is refl
  collected-got path more x (i, ended) e = cc
  collected-got path more x (i, failed y) e = cc

  collected-ended :
      (path : List ℕ) (more : I → List Commit × Option ℕ) (r : I × Next Commit WalkError)
      → r.1 ≡ ended
      → collected it start path more r ≡ ([], none)
  collected-ended path more (i, got c) e = cc
  collected-ended path more (i, ended) e = refl
  collected-ended path more (i, failed y) e = cc

  IsNew-nil : (path : List ℕ) → IsNew path ([], none)
  unfolding elem
  IsNew-nil path = record { once = tt; apart = λ h e. cc; parent = λ p e. cc }

  first_of-IsNew :
      (path : List ℕ) (x : Commit) (xs : List Commit) (r : List Commit × Option ℕ)
      → elem x.hash (hashes xs) ≡ false
      → IsNew path r
      → ((h : ℕ) → elem h (hashes r.0) ≡ true → elem h (hashes xs) ≡ true)
      → IsNew path (first_of path x r)
        × ((h : ℕ) → elem h (hashes (first_of path x r).0) ≡ true → elem h (hashes (x ∷ xs)) ≡ true)
  unfolding elem
  first_of-IsNew path x xs r n w sub = elim (Bool-cases (elem x.hash path)) [
    | inl s ↦ rw s (
      record {
        once = tt;
        apart = λ h e. cc;
        parent = λ p e. let is : x.hash ≡ p = cc in ap (λ (k : ℕ). elem k path) (sym is) ∙ s;
      },
      λ h e. cc,
    )
    | inr s ↦ rw s (
      record {
        once = (not_in (elem x.hash (hashes r.0)) refl, w.once);
        apart = λ h e. elim (or-cases (x.hash == h) (elem h (hashes r.0)) e) [
          | inl q ↦ ap (λ (k : ℕ). elem k path) (sym ((==_iff x.hash h).0 q)) ∙ s
          | inr q ↦ w.apart h q
        ];
        parent = w.parent;
      },
      λ h e. elim (or-cases (x.hash == h) (elem h (hashes r.0)) e) [
        | inl q ↦ or_left (x.hash == h) (elem h (hashes xs)) q
        | inr q ↦ or_right (x.hash == h) (elem h (hashes xs)) (sub h q)
      ],
    )
  ]
    where
      not_in : (b : Bool) → elem x.hash (hashes r.0) ≡ b → b ≡ false
      not_in false q = refl
      not_in true q = let there = sub x.hash q in cc

  collect-IsNew :
      (path : List ℕ) (fuel : ℕ) (xs : List Commit) (i : I)
      → Yields it i xs
      → NoRepeats (hashes xs)
      → IsNew path (collect it start path fuel i)
        × ((h : ℕ)
            → elem h (hashes (collect it start path fuel i).0) ≡ true
            → elem h (hashes xs) ≡ true)
  unfolding collect elem
  collect-IsNew path zero xs i y n = (IsNew-nil path, λ h e. cc)
  collect-IsNew path (suc fuel) [] i y n =
      rw (collected-ended path (λ i'. collect it start path fuel i') (it.next i) y)
        (IsNew-nil path, λ h e. cc)
  collect-IsNew path (suc fuel) (x ∷ xs) i (y, ys) (n, ns) =
      let (w, sub) = collect-IsNew path fuel xs (it.next i).0 ys ns in
      rw (collected-got path (λ i'. collect it start path fuel i') x (it.next i) y)
        (first_of-IsNew path x xs (collect it start path fuel (it.next i).0) n w sub)

  inserted-NoRepeats :
      (path : List Commit) (r : List Commit × Option ℕ)
      → NoRepeats (hashes path)
      → IsNew (hashes path) r
      → NoRepeats (hashes (inserted path r))
  inserted-NoRepeats path (new, none) n w =
      append-NoRepeats path new n w.once (λ h e. not_in h e (elem h (hashes new)) refl)
    where
      not_in :
          (h : ℕ) → elem h (hashes path) ≡ true → (b : Bool) → elem h (hashes new) ≡ b → b ≡ false
      not_in h e false q = refl
      not_in h e true q = let gone = w.apart h q in cc
  inserted-NoRepeats path (new, some p) n w =
      insert_before-NoRepeats path new p n w.once (w.parent p refl) w.apart

  -- A commit that the walk begins with, and the path has not, is collected.
  collect_first :
      (path : List ℕ) (fuel : ℕ) (c : Commit) (i : I)
      → length {A = ℕ} [] < fuel
      → (it.next i).1 ≡ got c
      → elem c.hash path ≡ false
      → elem c.hash (hashes (collect it start path fuel i).0) ≡ true
  unfolding collect elem
  collect_first path zero c i l y n = absurd (omega (arith, l))
  collect_first path (suc fuel) c i l y n =
      rw (collected-got path (λ i'. collect it start path fuel i') c (it.next i) y, n)
        (or_left (c.hash == c.hash)
          (elem c.hash (hashes (collect it start path fuel (it.next i).0).0)) (==_refl c.hash))

  -- Without a path the whole walk is collected.
  collect_whole :
      (fuel : ℕ) (xs : List Commit) (i : I)
      → length xs < fuel
      → Yields it i xs
      → collect it start [] fuel i ≡ (xs, none)
  unfolding collect elem
  collect_whole zero xs i l y = absurd (omega (arith, l))
  collect_whole (suc fuel) [] i l y =
      collected-ended [] (λ i'. collect it start [] fuel i') (it.next i) y
  collect_whole (suc fuel) (x ∷ xs) i l (y, ys) =
      collected-got [] (λ i'. collect it start [] fuel i') x (it.next i) y
      ∙ rw (collect_whole fuel xs (it.next i).0 (omega (arith, l)) ys) refl

elem-inserted :
    (path : List Commit) (r : List Commit × Option ℕ) (h : ℕ)
    → IsNew (hashes path) r
    → elem h (hashes (inserted path r)) ≡ (elem h (hashes path) || elem h (hashes r.0))
elem-inserted path (new, none) h w = hashes-append h path new
elem-inserted path (new, some p) h w = elem-insert_before path new p h (w.parent p refl)

-- What the references add to a path: no commit twice, the old path, every stored commit that is referenced, and
-- else commits that can be reached from the references only.
pub record IsExtended (store path : List Commit) (refs : List ℕ) (path' : List Commit)
    : Type 0 where
  pub once : NoRepeats (hashes path')
  pub kept : (h : ℕ) → elem h (hashes path) ≡ true → elem h (hashes path') ≡ true
  pub referenced :
      (r : ℕ) (c : Commit)
      → elem r refs ≡ true
      → get_commit store r ≡ some c
      → elem r (hashes path') ≡ true
  pub reached :
      (h : ℕ)
      → elem h (hashes path') ≡ true
      → (elem h (hashes path) ≡ true) ⊎ ((r : ℕ) × (elem r refs ≡ true) × HasAncestor store r h)

-- The path of a first reference and others: every commit once, with every stored commit that is referenced, the
-- whole history of the first one, and only commits that can be reached from the references.
pub record IsPathOf (store : List Commit) (head : ℕ) (refs : List ℕ) (path : List Commit)
    : Type 0 where
  pub once : NoRepeats (hashes path)
  pub referenced :
      (r : ℕ) (c : Commit)
      → elem r (head ∷ refs) ≡ true
      → get_commit store r ≡ some c
      → elem r (hashes path) ≡ true
  pub reached :
      (h : ℕ)
      → elem h (hashes path) ≡ true
      → (r : ℕ) × (elem r (head ∷ refs) ≡ true) × HasAncestor store r h
  pub whole : (h : ℕ) → HasAncestor store head h → elem h (hashes path) ≡ true

module _ {I : Type 0} (it : Iterator I Commit WalkError) (start : Commit → I) (store : List Commit)
    (fuel : ℕ) (enough : length store < fuel)
    (walks : (c : Commit)
      → get_commit store c.hash ≡ some c
      → (xs : List Commit) × Visits it store
          (parents_of store)
          (λ h. false)
          (c.hash ∷ [])
          (start c)
          xs)
    (begins : (c : Commit) → get_commit store c.hash ≡ some c → (it.next (start c)).1 ≡ got c) where
  only : (k h : ℕ) → elem h (k ∷ []) ≡ true → k ≡ h
  unfolding elem
  only k h e = ground (arith, e)

  self : (h : ℕ) → elem h (h ∷ []) ≡ true
  unfolding elem
  self h = or_left (h == h) false (==_refl h)

  inserted-IsExtended :
      (path : List Commit) (h : ℕ) (c : Commit)
      → NoRepeats (hashes path)
      → elem h (hashes path) ≡ false
      → get_commit store h ≡ some c
      → IsExtended store path
          (h ∷ [])
          (inserted path (collect it start (hashes path) fuel (start c)))
  inserted-IsExtended path h c n absent o =
      let known = get_commit-stored store h c o in
      let key = get_commit-hash store h c o in
      let (xs, v) = walks c known in
      let r = collect it start (hashes path) fuel (start c) in
      let (w, sub) = collect-IsNew it start (hashes path) fuel xs (start c) v.yields v.once in
      let absent' = ap (λ (k : ℕ). elem k (hashes path)) key ∙ absent in
      let first =
        collect_first it start (hashes path) fuel c (start c) (omega (arith, enough))
          (begins c known) absent' in
      record {
        once = inserted-NoRepeats it start path r n w;
        kept = λ k e.
            elem-inserted path r k w ∙ or_left (elem k (hashes path)) (elem k (hashes r.0)) e;
        referenced = λ k d e q.
            ap (λ (x : ℕ). elem x (hashes (inserted path r))) (sym (only h k e) ∙ sym key)
            ∙ elem-inserted path r c.hash w
            ∙ or_right (elem c.hash (hashes path)) (elem c.hash (hashes r.0)) first;
        reached = λ k e.
            elim (or-cases (elem k (hashes path)) (elem k (hashes r.0))
              (sym (elem-inserted path r k w) ∙ e)) [
                | inl m ↦ inl m
                | inr m ↦ inr (
                  h,
                  self h,
                  subst (λ (x : ℕ). HasAncestor store x k) key (v.reached k (sub k m)),
                )
              ];
      }

  add_reference-IsExtended :
      (path : List Commit) (h : ℕ)
      → NoRepeats (hashes path)
      → IsExtended store path (h ∷ []) (add_reference it start store fuel path h)
  unfolding add_reference
  add_reference-IsExtended path h n = elim (Bool-cases (elem h (hashes path))) [
    | inl s ↦ rw s (record {
      once = n;
      kept = λ k e. e;
      referenced = λ k c e o. ap (λ (x : ℕ). elem x (hashes path)) (sym (only h k e)) ∙ s;
      reached = λ k e. inl e;
    })
    | inr s ↦ elim (Option-cases (get_commit store h)) [
      | inl o ↦
          rw (s, o)
            (record {
              once = n;
              kept = λ k e. e;
              referenced = λ k c e q.
                  let none_there : none ≡ some c = sym o ∙ ap (get_commit store) (only h k e) ∙ q in
                  cc;
              reached = λ k e. inl e;
            })
      | inr (c, o) ↦ rw (s, o) (inserted-IsExtended path h c n s o)
    ]
  ]

  new_commit_all_iter-IsExtended :
      (path : List Commit) (refs : List ℕ)
      → NoRepeats (hashes path)
      → IsExtended store path refs (new_commit_all_iter it start store fuel path refs)
  unfolding new_commit_all_iter elem
  new_commit_all_iter-IsExtended path [] n = record {
    once = n;
    kept = λ h e. e;
    referenced = λ r c e. cc;
    reached = λ h e. inl e;
  }
  new_commit_all_iter-IsExtended path (h ∷ refs) n =
      let one = add_reference-IsExtended path h n in
      let rest =
        new_commit_all_iter-IsExtended (add_reference it start store fuel path h) refs one.once in
      record {
        once = rest.once;
        kept = λ k e. rest.kept k (one.kept k e);
        referenced = λ r c e o. elim (or-cases (h == r) (elem r refs) e) [
          | inl q ↦ rest.kept r (one.referenced r c (or_left (h == r) false q) o)
          | inr q ↦ rest.referenced r c q o
        ];
        reached = λ k e. elim (rest.reached k e) [
          | inl m ↦ elim (one.reached k m) [
            | inl old ↦ inl old
            | inr (r, q, a) ↦ inr (
              r,
              or_left (h == r) (elem r refs)
                  (ap (λ (x : ℕ). h == x) (sym (only h r q)) ∙ ==_refl h),
              a,
            )
          ]
          | inr (r, q, a) ↦ inr (r, or_right (h == r) (elem r refs) q, a)
        ];
      }

  -- The path of NewCommitAllIter for a first reference, to a stored commit, and others: it has no commit twice, it
  -- has every stored commit that a reference is to and the whole history of the first one, and every commit of it
  -- is one that a reference is to or an ancestor of one. The iterator of a commit is taken to begin with it and to
  -- give it and its ancestors, each one once. More rounds than there are commits are enough for each walk.
  pub new_commit_all_iter-IsPathOf :
      (head : ℕ) (c : Commit) (refs : List ℕ)
      → get_commit store head ≡ some c
      → IsPathOf store head refs (new_commit_all_iter it start store fuel [] (head ∷ refs))
  unfolding new_commit_all_iter elem add_reference
  new_commit_all_iter-IsPathOf head c refs o =
      let known = get_commit-stored store head c o in
      let key = get_commit-hash store head c o in
      let (xs, v) = walks c known in
      let all = new_commit_all_iter-IsExtended [] (head ∷ refs) tt in
      let first : add_reference it start store fuel [] head ≡ xs =
        rw (o, collect_whole it start fuel xs (start c) (omega (arith, enough, v.few)) v.yields)
          refl in
      let rest =
        new_commit_all_iter-IsExtended (add_reference it start store fuel [] head) refs
          (add_reference-IsExtended [] head tt).once in
      record {
        once = all.once;
        referenced = all.referenced;
        reached = λ h e. elim (all.reached h e) [ inl m ↦ cc | inr r ↦ r ];
        whole = λ h a. rest.kept h (
            ap (λ (p : List Commit). elem h (hashes p)) first
            ∙ v.complete h (subst (λ (x : ℕ). HasAncestor store x h) (sym key) a));
      }
