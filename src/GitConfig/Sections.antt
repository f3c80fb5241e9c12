-- ===== src/GitConfig/Sections.antt =====
-- plumbing/format/config/section.go and common.go: sections, subsections and the configuration. The
-- slices hold pointers to distinct elements; a change through the pointer that Section or Subsection
-- returns is a change of the element it points to. Comment and Includes, which no operation reads, are left
-- out. `fold_eq` is strings.EqualFold.
use ai_experimental_search.Base.{
  Bytes, Bool, false, not, ◌||◌, Option, none, some, List, [], ◌∷◌, ◌++◌, bytes_eq, if◌then◌else◌,
}
use ai_experimental_search.GitConfig.Options.{
  Entry, last_match, get, has, get_all, without_option, with_added_option, with_setted_option,
}

pub record Subsection : Type 0 where
  pub name : Bytes
  pub options : List Entry

pub record Section : Type 0 where
  pub name : Bytes
  pub options : List Entry
  pub subsections : List Subsection

pub record Config : Type 0 where
  pub sections : List Section

abbrev pub or_new : {A : Type 0} → A → Option A → A
or_new x none = x
or_new x (some y) = y

-- The last element with a property, changed.
unfoldable pub change_last : {A : Type 0} → (A → Bool) → (A → A) → List A → List A
change_last p f [] = []
change_last p f (x ∷ xs) =
    let rest = change_last p f xs in
    elim (last_match p xs) [ none ↦ (if p x then f x else x) ∷ xs | some y ↦ x ∷ rest ]

-- The last element with a property, made first where there is none, and then changed.
unfoldable pub at_last : {A : Type 0} → (A → Bool) → (A → A) → A → List A → List A
at_last p f new xs = elim (last_match p xs) [
  | none ↦ xs ++ (f new ∷ [])
  | some y ↦ change_last p f xs
]

unfoldable pub any : {A : Type 0} → (A → Bool) → List A → Bool
any p [] = false
any p (x ∷ xs) = p x || any p xs

-- A loop that collects the elements without a property.
unfoldable pub remove : {A : Type 0} → (A → Bool) → List A → List A
remove p [] = []
remove p (x ∷ xs) = let rest = remove p xs in if not (p x) then x ∷ rest else rest

-- Subsection.IsName.
abbrev pub is_subsection : Bytes → Subsection → Bool
is_subsection name s = bytes_eq s.name name

abbrev pub new_subsection : Bytes → Subsection
new_subsection name = record { name = name; options = [] }

abbrev pub new_section : Bytes → Section
new_section name = record { name = name; options = []; subsections = [] }

-- Section.Subsection, followed by a method of the subsection that it returns.
unfoldable pub at_subsection : Bytes → (Subsection → Subsection) → Section → Section
at_subsection name f s = record s {
  subsections = at_last (is_subsection name) f (new_subsection name) s.subsections;
}

-- What Section.Subsection points to.
unfoldable pub subsection : Section → Bytes → Subsection
subsection s name = or_new (new_subsection name) (last_match (is_subsection name) s.subsections)

unfoldable pub has_subsection : Section → Bytes → Bool
has_subsection s name = any (is_subsection name) s.subsections

unfoldable pub section_remove_subsection : Bytes → Section → Section
section_remove_subsection name s = record s {
  subsections = remove (is_subsection name) s.subsections;
}

module _ (fold_eq : Bytes → Bytes → Bool) where
  -- Section.IsName.
  abbrev pub is_section : Bytes → Section → Bool
  is_section name s = fold_eq s.name name

  unfoldable pub section_option : Section → Bytes → Bytes
  section_option s key = get fold_eq s.options key

  unfoldable pub section_option_all : Section → Bytes → List Bytes
  section_option_all s key = get_all fold_eq s.options key

  unfoldable pub section_has_option : Section → Bytes → Bool
  section_has_option s key = has fold_eq s.options key

  unfoldable pub section_add_option : Bytes → Bytes → Section → Section
  section_add_option key value s = record s {
    options = with_added_option fold_eq s.options key value;
  }

  unfoldable pub section_set_option : Bytes → Bytes → Section → Section
  section_set_option key value s = record s {
    options = with_setted_option fold_eq s.options key (value ∷ []);
  }

  unfoldable pub section_remove_option : Bytes → Section → Section
  section_remove_option key s = record s { options = without_option fold_eq s.options key }

  unfoldable pub subsection_option : Subsection → Bytes → Bytes
  subsection_option s key = get fold_eq s.options key

  unfoldable pub subsection_option_all : Subsection → Bytes → List Bytes
  subsection_option_all s key = get_all fold_eq s.options key

  unfoldable pub subsection_has_option : Subsection → Bytes → Bool
  subsection_has_option s key = has fold_eq s.options key

  unfoldable pub subsection_add_option : Bytes → Bytes → Subsection → Subsection
  subsection_add_option key value s = record s {
    options = with_added_option fold_eq s.options key value;
  }

  unfoldable pub subsection_set_option : Bytes → List Bytes → Subsection → Subsection
  subsection_set_option key values s = record s {
    options = with_setted_option fold_eq s.options key values;
  }

  unfoldable pub subsection_remove_option : Bytes → Subsection → Subsection
  subsection_remove_option key s = record s { options = without_option fold_eq s.options key }
