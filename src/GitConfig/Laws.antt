-- ===== src/GitConfig/Laws.antt =====
-- What the operations of plumbing/format/config/option.go do to the values of a key. EqualFold compares
-- runes up to a fixed folding, so it is an equivalence of strings.
use ai_experimental_search.Base.{
  Bytes, ◌≡◌, ◌⊎◌, refl, sym, ap, ◌∙◌, Bool, true, false, none, some, List, [], ◌∷◌, ◌++◌, arith,
  bytes_eq, bytes_eq_refl, bytes_eq→≡, if◌then◌else◌, Bool-cases, inl, inr, append_assoc,
  append-nil, subst,
}
use ai_experimental_search.GitConfig.Options.{
  Entry, last_match, contains, get, has, get_all, without_option, with_added_option, keep_values,
  add_values, with_setted_option,
}

pub record IsFold (fold_eq : Bytes → Bytes → Bool) : Type 0 where
  pub reflexive : (a : Bytes) → fold_eq a a ≡ true
  pub symmetric : (a b : Bytes) → fold_eq a b ≡ true → fold_eq b a ≡ true
  pub transitive : (a b c : Bytes) → fold_eq a b ≡ true → fold_eq b c ≡ true → fold_eq a c ≡ true

-- The values of `old` that stand in `values`.
unfoldable pub only : List Bytes → List Bytes → List Bytes
only values [] = []
only values (v ∷ old) = let rest = only values old in if contains values v then v ∷ rest else rest

-- The values that do not stand in `added`.
unfoldable pub missing : List Bytes → List Bytes → List Bytes
missing added [] = []
missing added (v ∷ values) =
    let rest = missing added values in if contains added v then rest else v ∷ rest

abbrev pub last_of : List Bytes → Bytes
last_of [] = []
last_of (v ∷ []) = v
last_of (v ∷ w ∷ vs) = last_of (w ∷ vs)

last_of-cons_only : (v : Bytes) (old : List Bytes) → last_of (v ∷ only (v ∷ []) old) ≡ v
unfolding only contains
last_of-cons_only v [] = refl
last_of-cons_only v (w ∷ old) = elim (Bool-cases (bytes_eq v w)) [
  | inl e ↦ rw e (
      subst (λ u. last_of (u ∷ only (v ∷ []) old) ≡ v) (bytes_eq→≡ v w e) (last_of-cons_only v old))
  | inr e ↦ rw e (last_of-cons_only v old)
]

last_of-only :
    (v : Bytes) (old : List Bytes)
    → last_of (only (v ∷ []) old ++ missing (only (v ∷ []) old) (v ∷ [])) ≡ v
unfolding only missing contains
last_of-only v [] = refl
last_of-only v (w ∷ old) = elim (Bool-cases (bytes_eq v w)) [
  | inl e ↦
      let back : bytes_eq w v ≡ true =
        ap (λ (u : Bytes). bytes_eq u v) (sym (bytes_eq→≡ v w e)) ∙ bytes_eq_refl v in
      rw (e, back, append-nil (only (v ∷ []) old))
        (subst (λ u. last_of (u ∷ only (v ∷ []) old) ≡ v) (bytes_eq→≡ v w e)
          (last_of-cons_only v old))
  | inr e ↦ rw e (last_of-only v old)
]

module _ (fold_eq : Bytes → Bytes → Bool) (fold : IsFold fold_eq) where
  get_all-append :
      (xs ys : List Entry) (key : Bytes)
      → get_all fold_eq (xs ++ ys) key ≡ get_all fold_eq xs key ++ get_all fold_eq ys key
  unfolding get_all
  get_all-append [] ys key = refl
  get_all-append (x ∷ xs) ys key = ground (arith, get_all-append xs ys key)

  get_all-keep_values :
      (key : Bytes) (values : List Bytes) (opts : List Entry)
      → (get_all fold_eq (keep_values fold_eq key values opts).0 key
          ≡ only values (get_all fold_eq opts key))
        × ((keep_values fold_eq key values opts).1 ≡ only values (get_all fold_eq opts key))
  unfolding get_all keep_values only
  get_all-keep_values key values [] = (refl, refl)
  get_all-keep_values key values (o ∷ opts) = ground (arith, get_all-keep_values key values opts)

  get_all-add_values :
      (key : Bytes) (added : List Bytes) (result : List Entry) (values : List Bytes)
      → get_all fold_eq (add_values fold_eq key added result values) key
        ≡ get_all fold_eq result key ++ missing added values
  unfolding get_all add_values missing
  get_all-add_values key added result [] = sym (append-nil (get_all fold_eq result key))
  get_all-add_values key added result (v ∷ values) = elim (Bool-cases (contains added v)) [
    | inl e ↦ rw e (get_all-add_values key added result values)
    | inr e ↦
        rw
          (
            e,
            get_all-add_values key added (with_added_option fold_eq result key v) values,
            get_all-append result (record { key = key; value = v } ∷ []) key,
            fold.reflexive key,
          )
          (append_assoc (get_all fold_eq result key) (v ∷ []) (missing added values))
  ]

  -- After withSettedOption a key has those of its former values that are among the new ones, in their
  -- former order, and then the new ones that it did not have.
  pub get_all-with_setted_option :
      (opts : List Entry) (key : Bytes) (values : List Bytes)
      → get_all fold_eq (with_setted_option fold_eq opts key values) key
        ≡ only values (get_all fold_eq opts key)
          ++ missing (only values (get_all fold_eq opts key)) values
  unfolding with_setted_option
  get_all-with_setted_option opts key values =
      let kept = get_all-keep_values key values opts in
      rw (
        get_all-add_values key (keep_values fold_eq key values opts).1
            (keep_values fold_eq key values opts).0 values,
        kept.0,
        kept.1,
      )

  -- An option from the end that has the key, and the last of the key's values: both or neither.
  abbrev Last : List Entry → Bytes → Type 0
  Last opts key =
      ((last_match (λ o. fold_eq o.key key) opts ≡ none) × (get_all fold_eq opts key ≡ []))
      ⊎ ((o : Entry) × (last_match (λ o. fold_eq o.key key) opts ≡ some o)
          × (w : Bytes) × (ws : List Bytes) × (get_all fold_eq opts key ≡ w ∷ ws)
          × (last_of (w ∷ ws) ≡ o.value))

  Last-match-get_all : (opts : List Entry) (key : Bytes) → Last opts key
  unfolding last_match get_all
  Last-match-get_all [] key = inl (refl, refl)
  Last-match-get_all (o ∷ opts) key = elim (Bool-cases (fold_eq o.key key)) [
    | inl e ↦ elim (Last-match-get_all opts key) [
      | inl (m, g) ↦ inr (o, rw (m, e), o.value, [], rw (e, g), refl)
      | inr (p, m, w, ws, g, l) ↦ inr (p, rw m, o.value, w ∷ ws, rw (e, g), l)
    ]
    | inr e ↦ elim (Last-match-get_all opts key) [
      | inl (m, g) ↦ inl (rw (m, e), rw (e, g))
      | inr (p, m, w, ws, g, l) ↦ inr (p, rw m, w, ws, rw (e, g), l)
    ]
  ]

  -- Get gives the last of the values that GetAll gives, and the empty string where there are none.
  pub get-get_all :
      (opts : List Entry) (key : Bytes) → get fold_eq opts key ≡ last_of (get_all fold_eq opts key)
  unfolding get
  get-get_all opts key = elim (Last-match-get_all opts key) [
    | inl (m, g) ↦ rw (m, g)
    | inr (p, m, w, ws, g, l) ↦ rw (m, g) (sym l)
  ]

  -- After withSettedOption with one value, Get gives this value.
  pub get-with_setted_option :
      (opts : List Entry) (key value : Bytes)
      → get fold_eq (with_setted_option fold_eq opts key (value ∷ [])) key ≡ value
  get-with_setted_option opts key value =
      get-get_all (with_setted_option fold_eq opts key (value ∷ [])) key
      ∙ (ap last_of (get_all-with_setted_option opts key (value ∷ []))
          ∙ last_of-only value (get_all fold_eq opts key))

  -- After withoutOption the key is not there.
  pub has-without_option :
      (opts : List Entry) (key : Bytes) → has fold_eq (without_option fold_eq opts key) key ≡ false
  unfolding has without_option
  has-without_option [] key = refl
  has-without_option (o ∷ opts) key = ground (arith, has-without_option opts key)

  pub apart :
      (a key other : Bytes)
      → fold_eq key other ≡ false
      → fold_eq a key ≡ true
      → fold_eq a other ≡ false
  apart a key other h e = elim (Bool-cases (fold_eq a other)) [
    | inl same ↦ cc (fold.transitive key a other (fold.symmetric a key e) same)
    | inr different ↦ different
  ]

  get_all-keep_values_other :
      (key other : Bytes) (values : List Bytes) (opts : List Entry)
      → fold_eq key other ≡ false
      → get_all fold_eq (keep_values fold_eq key values opts).0 other ≡ get_all fold_eq opts other
  unfolding get_all keep_values
  get_all-keep_values_other key other values [] h = refl
  get_all-keep_values_other key other values (o ∷ opts) h =
      ground (arith, get_all-keep_values_other key other values opts h, apart o.key key other h)

  get_all-add_values_other :
      (key other : Bytes) (added : List Bytes) (result : List Entry) (values : List Bytes)
      → fold_eq key other ≡ false
      → get_all fold_eq (add_values fold_eq key added result values) other
        ≡ get_all fold_eq result other
  unfolding get_all add_values
  get_all-add_values_other key other added result [] h = refl
  get_all-add_values_other key other added result (v ∷ values) h =
      elim (Bool-cases (contains added v)) [
        | inl e ↦ rw e (get_all-add_values_other key other added result values h)
        | inr e ↦
            rw
              (
                e,
                get_all-add_values_other key other added (with_added_option fold_eq result key v)
                    values h,
                get_all-append result (record { key = key; value = v } ∷ []) other,
                h,
              )
              (append-nil (get_all fold_eq result other))
      ]

  get_all-without_option :
      (opts : List Entry) (key other : Bytes)
      → fold_eq key other ≡ false
      → get_all fold_eq (without_option fold_eq opts key) other ≡ get_all fold_eq opts other
  unfolding get_all without_option
  get_all-without_option [] key other h = refl
  get_all-without_option (o ∷ opts) key other h =
      ground (arith, get_all-without_option opts key other h, apart o.key key other h)

  -- Setting a key, and removing it, leaves the values of every key that does not fold to it.
  pub get_all_other :
      (opts : List Entry) (key other : Bytes) (values : List Bytes)
      → fold_eq key other ≡ false
      → (get_all fold_eq (with_setted_option fold_eq opts key values) other
          ≡ get_all fold_eq opts other)
        × (get_all fold_eq (without_option fold_eq opts key) other ≡ get_all fold_eq opts other)
  unfolding with_setted_option
  get_all_other opts key other values h = (
    get_all-add_values_other key other _ _ values h
        ∙ get_all-keep_values_other key other values opts h,
    get_all-without_option opts key other h,
  )
