-- ===== src/GitConfig/Writes.antt =====
-- What a read of the configuration gives after a write, through the sections and subsections that
-- plumbing/format/config/common.go makes on the way.
use ai_experimental_search.Base.{
  Bytes, ◌≡◌, refl, ap, ◌∙◌, Bool, true, false, ◌&&◌, some, List, [], ◌∷◌, ◌++◌, arith, bytes_eq,
  bytes_eq_refl, Bool-cases, Option-cases, inl, inr,
}
use ai_experimental_search.GitConfig.Options.{last_match}
use ai_experimental_search.GitConfig.Laws.{IsFold, get-with_setted_option}
use ai_experimental_search.GitConfig.Sections.{
  Section, Subsection, Config, or_new, change_last, at_last, any, remove, is_subsection, is_section,
  new_section, new_subsection, at_subsection, subsection, has_subsection, section_remove_subsection,
  section_option, section_set_option, subsection_option, subsection_set_option,
}
use ai_experimental_search.GitConfig.Config.{
  at_section, section, has_section, remove_section, remove_subsection, remove_subsections,
  set_option, option,
}

module _ {A : Type 0} (p : A → Bool) where
  any-remove : (xs : List A) → any p (remove p xs) ≡ false
  unfolding any remove
  any-remove [] = refl
  any-remove (x ∷ xs) = ground (arith, any-remove xs)

  last_match-append : (xs : List A) (y : A) → p y ≡ true → last_match p (xs ++ (y ∷ [])) ≡ some y
  unfolding last_match
  last_match-append [] y h = rw h
  last_match-append (x ∷ xs) y h = rw (last_match-append xs y h)

  module _ (f : A → A) (kept : (x : A) → p x ≡ true → p (f x) ≡ true) where
    last_match-change_last :
        (xs : List A) (y : A)
        → last_match p xs ≡ some y
        → last_match p (change_last p f xs) ≡ some (f y)
    unfolding last_match change_last
    last_match-change_last [] y h = cc
    last_match-change_last (x ∷ xs) y h = elim (Option-cases (last_match p xs)) [
      | inl e ↦ elim (Bool-cases (p x)) [
        | inl px ↦ ground (arith, kept x px)
        | inr px ↦ ground arith
      ]
      | inr (z, e) ↦ ground (arith, last_match-change_last xs z e)
    ]

    or_new-at_last :
        (new : A) (xs : List A)
        → p (f new) ≡ true
        → or_new new (last_match p (at_last p f new xs)) ≡ f (or_new new (last_match p xs))
    unfolding at_last
    or_new-at_last new xs h = elim (Option-cases (last_match p xs)) [
      | inl e ↦ ground (arith, last_match-append xs (f new) h)
      | inr (z, e) ↦ ground (arith, last_match-change_last xs z e)
    ]

module _ (fold_eq : Bytes → Bytes → Bool) (fold : IsFold fold_eq) where
  section-at_section :
      (c : Config) (name : Bytes) (f : Section → Section)
      → ((s : Section) → (f s).name ≡ s.name)
      → section fold_eq (at_section fold_eq name f c) name ≡ f (section fold_eq c name)
  unfolding section at_section
  section-at_section c name f same =
      or_new-at_last (is_section fold_eq name) f (λ x h. ap (λ n. fold_eq n name) (same x) ∙ h)
        (new_section name) c.sections
        (ap (λ n. fold_eq n name) (same (new_section name)) ∙ fold.reflexive name)

  subsection-at_subsection :
      (s : Section) (name : Bytes) (f : Subsection → Subsection)
      → ((t : Subsection) → (f t).name ≡ t.name)
      → subsection (at_subsection name f s) name ≡ f (subsection s name)
  unfolding subsection at_subsection
  subsection-at_subsection s name f same =
      or_new-at_last (is_subsection name) f (λ x h. ap (λ n. bytes_eq n name) (same x) ∙ h)
        (new_subsection name) s.subsections
        (ap (λ n. bytes_eq n name) (same (new_subsection name)) ∙ bytes_eq_refl name)

  -- After SetOption at a section and a subsection, which need not exist, the key has the value there.
  pub option-set_option :
      (c : Config) (name sub key value : Bytes)
      → option fold_eq (set_option fold_eq name sub key value c) name sub key ≡ value
  unfolding option set_option at_subsection section_option section_set_option subsection_option
      subsection_set_option
  option-set_option c name [] key value =
      rw (section-at_section c name (section_set_option fold_eq key value) (λ s. refl))
        (get-with_setted_option fold_eq fold (section fold_eq c name).options key value)
  option-set_option c name (b ∷ bs) key value =
      let set = subsection_set_option fold_eq key (value ∷ []) in
      rw
        (
          section-at_section c name (at_subsection (b ∷ bs) set) (λ s. refl),
          subsection-at_subsection (section fold_eq c name) (b ∷ bs) set (λ t. refl),
        )
        (get-with_setted_option fold_eq fold (subsection (section fold_eq c name) (b ∷ bs)).options
          key value)

  -- After RemoveSection no section has the name.
  pub has_section-remove_section :
      (c : Config) (name : Bytes) → has_section fold_eq (remove_section fold_eq name c) name ≡ false
  unfolding has_section remove_section
  has_section-remove_section c name = any-remove (is_section fold_eq name) c.sections

  any-remove_subsections :
      (name sub : Bytes) (ss : List Section)
      → any
          (λ s. fold_eq s.name name && has_subsection s sub)
          (remove_subsections fold_eq name sub ss)
        ≡ false
  unfolding any remove_subsections section_remove_subsection has_subsection
  any-remove_subsections name sub [] = refl
  any-remove_subsections name sub (s ∷ ss) = elim (Bool-cases (fold_eq s.name name)) [
    | inl e ↦
        rw (e, e, any-remove (is_subsection sub) s.subsections, any-remove_subsections name sub ss)
    | inr e ↦ rw (e, e, any-remove_subsections name sub ss)
  ]

  -- After RemoveSubsection no section of the name has the subsection.
  pub has_subsection-remove_subsection :
      (c : Config) (name sub : Bytes)
      → any
          (λ s. fold_eq s.name name && has_subsection s sub)
          (remove_subsection fold_eq name sub c).sections
        ≡ false
  unfolding remove_subsection
  has_subsection-remove_subsection c name sub = any-remove_subsections name sub c.sections
