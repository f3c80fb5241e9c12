-- ===== src/Capability/Laws.antt =====
-- What the operations of a list of capabilities keep and what they give (capability/list.go).
use ai_experimental_search.Base.{
  ◌≡◌, refl, sym, ap, ◌∙◌, Bool, true, false, not, ◌&&◌, ◌||◌, Option, none, some, List, [], ◌∷◌,
  ◌++◌, Bytes, bytes_eq, bytes_eq_refl, bytes_eq→≡, bytes_eq_cong, bytes_eq_sym, bytes_eq_apart,
  ltb, ◌==◌, length, Bool-cases, inl, inr, arith,
}
use ai_experimental_search.Capability.{
  CapabilityError, is_among, Capabilities, has_entry, supports, values_of, get, update, validate,
  is_known, allows_multiple, with_entry, add_values, add_valid, add, cleared, set, delete_entry,
  delete_first, delete,
}

abbrev pub Distinct : List Bytes → Type 0
Distinct [] = Unit
Distinct (n ∷ ns) = (is_among n ns ≡ false) × Distinct ns

-- The map has an entry for exactly the names in order, and these are distinct.
pub record IsValid (l : Capabilities) : Type 0 where
  pub agree : (c : Bytes) → supports l c ≡ is_among c l.order
  pub distinct : Distinct l.order

has_entry-update :
    (c d : Bytes) (new : List Bytes) (m : List (Bytes × List Bytes))
    → has_entry d (update c new m) ≡ has_entry d m
unfolding has_entry update
has_entry-update c d new [] = refl
has_entry-update c d new ((n, vs) ∷ m) = ground (arith, has_entry-update c d new m)

is_among-append :
    (d c : Bytes) (ns : List Bytes) → is_among d (ns ++ (c ∷ [])) ≡ (bytes_eq c d || is_among d ns)
unfolding is_among
is_among-append d c [] = refl
is_among-append d c (n ∷ ns) = ground (arith, is_among-append d c ns)

Distinct-append :
    (c : Bytes) (ns : List Bytes) → is_among c ns ≡ false → Distinct ns → Distinct (ns ++ (c ∷ []))
unfolding is_among
Distinct-append c [] h d = (refl, tt)
Distinct-append c (n ∷ ns) h (e, d) = elim (Bool-cases (bytes_eq n c)) [
  | inl q ↦ cc (rw q at h)
  | inr q ↦
      (is_among-append n c ns ∙ rw (bytes_eq_sym c n, q) e, Distinct-append c ns (rw q at h) d)
]

has_entry-delete :
    (c d : Bytes) (m : List (Bytes × List Bytes))
    → has_entry d (delete_entry c m) ≡ (not (bytes_eq c d) && has_entry d m)
unfolding has_entry delete_entry
has_entry-delete c d [] = ground arith
has_entry-delete c d ((n, vs) ∷ m) = elim (Bool-cases (bytes_eq n c)) [
  | inl q ↦ ground (arith, has_entry-delete c d m, bytes_eq_cong n c d q)
  | inr q ↦ elim (Bool-cases (bytes_eq n d)) [
    | inl r ↦ ground (arith, has_entry-delete c d m, bytes_eq_apart n c d q r)
    | inr r ↦ ground (arith, has_entry-delete c d m)
  ]
]

is_among-delete :
    (c d : Bytes) (ns : List Bytes)
    → Distinct ns
    → is_among d (delete_first c ns) ≡ (not (bytes_eq c d) && is_among d ns)
unfolding is_among delete_first
is_among-delete c d [] h = ground arith
is_among-delete c d (n ∷ ns) (e, h) = elim (Bool-cases (bytes_eq n c)) [
  | inl q ↦ elim (Bool-cases (bytes_eq c d)) [
    | inl r ↦
        rw (q, r)
          (ap (λ (x : Bytes). is_among x ns) (sym (bytes_eq→≡ n c q ∙ bytes_eq→≡ c d r)) ∙ e)
    | inr r ↦ rw (q, r, bytes_eq_cong n c d q) (rw r refl)
  ]
  | inr q ↦ elim (Bool-cases (bytes_eq n d)) [
    | inl r ↦ ground (arith, bytes_eq_apart n c d q r)
    | inr r ↦ ground (arith, is_among-delete c d ns h)
  ]
]

Distinct-delete : (c : Bytes) (ns : List Bytes) → Distinct ns → Distinct (delete_first c ns)
unfolding delete_first
Distinct-delete c [] h = tt
Distinct-delete c (n ∷ ns) (e, h) = elim (Bool-cases (bytes_eq n c)) [
  | inl q ↦ rw q h
  | inr q ↦ rw q (is_among-delete c n ns h ∙ ground (arith, e), Distinct-delete c ns h)
]

update-IsValid :
    (c : Bytes) (new : List Bytes) (l : Capabilities)
    → IsValid l
    → IsValid (record l { m = update c new l.m })
unfolding supports
update-IsValid c new l v = record {
  agree = λ d. has_entry-update c d new l.m ∙ v.agree d;
  distinct = v.distinct;
}

with_entry-IsValid : (c : Bytes) (l : Capabilities) → IsValid l → IsValid (with_entry c l)
unfolding with_entry supports has_entry
with_entry-IsValid c l v = elim (Bool-cases (has_entry c l.m)) [
  | inl h ↦ rw h v
  | inr h ↦ rw h (record {
    agree =
        λ d. ap (λ (x : Bool). bytes_eq c d || x) (v.agree d) ∙ sym (is_among-append d c l.order);
    distinct = Distinct-append c l.order (sym (v.agree c) ∙ h) v.distinct;
  })
]

add_values-IsValid :
    (c : Bytes) (values : List Bytes) (l : Capabilities)
    → IsValid l
    → IsValid (add_values c values l).0
unfolding add_values
add_values-IsValid c values l v = elim (Bool-cases (length values == 0)) [
  | inl h ↦ rw h v
  | inr h ↦
      rw h (elim (Bool-cases (is_known c && not (allows_multiple c) && ltb 0 (length (get l c)))) [
        | inl k ↦ rw k v
        | inr k ↦ rw k (update-IsValid c (get l c ++ values) l v)
      ])
]

add_valid-IsValid :
    (c : Bytes) (values : List Bytes) (l : Capabilities) (e : Option CapabilityError)
    → IsValid l
    → IsValid (add_valid c values l e).0
unfolding add_valid
add_valid-IsValid c values l (some e) v = v
add_valid-IsValid c values l none v =
    add_values-IsValid c values (with_entry c l) (with_entry-IsValid c l v)

cleared-IsValid : (c : Bytes) (l : Capabilities) → IsValid l → IsValid (cleared c l)
unfolding cleared
cleared-IsValid c l v = elim (Bool-cases (supports l c)) [
  | inl h ↦ rw h (update-IsValid c [] l v)
  | inr h ↦ rw h v
]

delete-IsValid : (c : Bytes) (l : Capabilities) → IsValid l → IsValid (delete c l)
unfolding delete supports
delete-IsValid c l v = elim (Bool-cases (has_entry c l.m)) [
  | inl h ↦ rw h (record {
    agree = λ d.
        has_entry-delete c d l.m
        ∙ ap (λ (x : Bool). not (bytes_eq c d) && x) (v.agree d)
        ∙ sym (is_among-delete c d l.order v.distinct);
    distinct = Distinct-delete c l.order v.distinct;
  })
  | inr h ↦ rw h v
]

-- Add, Set and Delete, with an error or without, keep a list valid: the map has an entry for exactly the
-- names in order, and these are distinct.
pub add-set-delete-IsValid :
    (c : Bytes) (values : List Bytes) (l : Capabilities)
    → IsValid l
    → IsValid (add c values l).0 × IsValid (set c values l).0 × IsValid (delete c l)
unfolding add set
add-set-delete-IsValid c values l v = (
  add_valid-IsValid c values l (validate c values) v,
  add_valid-IsValid c values (cleared c l) (validate c values) (cleared-IsValid c l v),
  delete-IsValid c l v,
)

values_of-update :
    (c : Bytes) (new : List Bytes) (m : List (Bytes × List Bytes))
    → has_entry c m ≡ true
    → values_of c (update c new m) ≡ new
unfolding values_of update has_entry
values_of-update c new [] h = cc
values_of-update c new ((n, vs) ∷ m) h = ground (arith, values_of-update c new m)

values_of_missing :
    (c : Bytes) (m : List (Bytes × List Bytes)) → has_entry c m ≡ false → values_of c m ≡ []
unfolding values_of has_entry
values_of_missing c [] h = refl
values_of_missing c ((n, vs) ∷ m) h = ground (arith, values_of_missing c m)

get-cleared : (c : Bytes) (l : Capabilities) → get (cleared c l) c ≡ []
unfolding cleared get supports
get-cleared c l = elim (Bool-cases (has_entry c l.m)) [
  | inl h ↦ rw h (values_of-update c [] l.m h)
  | inr h ↦ rw h (values_of_missing c l.m h)
]

get-with_entry : (c : Bytes) (l : Capabilities) → get (with_entry c l) c ≡ get l c
unfolding with_entry get supports values_of
get-with_entry c l = elim (Bool-cases (has_entry c l.m)) [
  | inl h ↦ rw h refl
  | inr h ↦ rw (h, bytes_eq_refl c) (sym (values_of_missing c l.m h))
]

with_entry-has : (c : Bytes) (l : Capabilities) → has_entry c (with_entry c l).m ≡ true
unfolding with_entry supports has_entry
with_entry-has c l = elim (Bool-cases (has_entry c l.m)) [
  | inl h ↦ rw h h
  | inr h ↦ rw (h, bytes_eq_refl c) refl
]

never : (a b : Bool) → (a && b && false) ≡ false
never a b = ground arith

-- Values for an entry that has none.
add_values-fresh :
    (c : Bytes) (values : List Bytes) (l : Capabilities)
    → get l c ≡ []
    → has_entry c l.m ≡ true
    → ((add_values c values l).1 ≡ none) × (get (add_values c values l).0 c ≡ values)
unfolding add_values
add_values-fresh c [] l h k = (refl, h)
add_values-fresh c (w ∷ vs) l h k =
    let some_values : (length (w ∷ vs) == 0) ≡ false = ground arith in
    rw (some_values, h, never (is_known c) (not (allows_multiple c)))
      (refl, unfold get in values_of-update c (w ∷ vs) l.m k)

abbrev pub accepted : List Bytes → Option CapabilityError → List Bytes
accepted values none = values
accepted values (some e) = []

-- Set gives the error of the validation, and then the capability has the new values where there is none; where
-- there is one it has no values at all any more, so that a refused Set loses those that it had.
pub get-set :
    (c : Bytes) (values : List Bytes) (l : Capabilities)
    → ((set c values l).1 ≡ validate c values)
      × (get (set c values l).0 c ≡ accepted values (validate c values))
unfolding set add add_valid
get-set c values l = outcome (validate c values)
  where
    nothing_yet : get (with_entry c (cleared c l)) c ≡ []
    nothing_yet = get-with_entry c (cleared c l) ∙ get-cleared c l

    outcome :
        (e : Option CapabilityError)
        → ((add_valid c values (cleared c l) e).1 ≡ e)
          × (get (add_valid c values (cleared c l) e).0 c ≡ accepted values e)
    outcome (some e) = (refl, get-cleared c l)
    outcome none =
        add_values-fresh c values (with_entry c (cleared c l)) nothing_yet
          (with_entry-has c (cleared c l))
