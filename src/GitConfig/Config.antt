-- ===== src/GitConfig/Config.antt =====
-- plumbing/format/config/common.go: the operations of Config, and what they promise.
use ai_experimental_search.Base.{Bytes, Bool, List, [], ◌∷◌, if◌then◌else◌}
use ai_experimental_search.GitConfig.Options.{last_match}
use ai_experimental_search.GitConfig.Sections.{
  Section, Config, or_new, at_last, any, remove, is_section, new_section, at_subsection, subsection,
  section_remove_subsection, section_option, section_add_option, section_set_option,
  subsection_option, subsection_add_option, subsection_set_option,
}

module _ (fold_eq : Bytes → Bytes → Bool) where
  -- Config.Section, followed by a method of the section that it returns.
  unfoldable pub at_section : Bytes → (Section → Section) → Config → Config
  at_section name f c = record c {
    sections = at_last (is_section fold_eq name) f (new_section name) c.sections;
  }

  -- What Config.Section points to.
  unfoldable pub section : Config → Bytes → Section
  section c name = or_new (new_section name) (last_match (is_section fold_eq name) c.sections)

  unfoldable pub has_section : Config → Bytes → Bool
  has_section c name = any (is_section fold_eq name) c.sections

  unfoldable pub remove_section : Bytes → Config → Config
  remove_section name c = record c { sections = remove (is_section fold_eq name) c.sections }

  -- The loop of RemoveSubsection: every section of the name, not the last alone.
  unfoldable pub remove_subsections : Bytes → Bytes → List Section → List Section
  remove_subsections section name [] = []
  remove_subsections section name (s ∷ ss) =
      (if fold_eq s.name section then section_remove_subsection name s else s)
      ∷ remove_subsections section name ss

  unfoldable pub remove_subsection : Bytes → Bytes → Config → Config
  remove_subsection section name c = record c {
    sections = remove_subsections section name c.sections;
  }

  unfoldable pub add_option : Bytes → Bytes → Bytes → Bytes → Config → Config
  add_option section [] key value c = at_section section (section_add_option fold_eq key value) c
  add_option section (b ∷ bs) key value c =
      at_section section (at_subsection (b ∷ bs) (subsection_add_option fold_eq key value)) c

  unfoldable pub set_option : Bytes → Bytes → Bytes → Bytes → Config → Config
  set_option section [] key value c = at_section section (section_set_option fold_eq key value) c
  set_option section (b ∷ bs) key value c =
      at_section section (at_subsection (b ∷ bs) (subsection_set_option fold_eq key (value ∷ []))) c

  -- The value of a key at a section and a subsection, as the callers read it.
  unfoldable pub option : Config → Bytes → Bytes → Bytes → Bytes
  option c name [] key = section_option fold_eq (section c name) key
  option c name (b ∷ bs) key = subsection_option fold_eq (subsection (section c name) (b ∷ bs)) key
