-- ===== src/Tests/Configs.antt =====
-- Configurations and refspecs on small strings. Equality of bytes stands for strings.EqualFold.
use ai_experimental_search.Base.{
  ◌≡◌, refl, ap, sym, ◌∙◌, true, false, ◌&&◌, Bytes, bytes_eq, bytes_eq_refl, bytes_eq→≡, List,
  count, some, [], ◌∷◌, ◌++◌, inl, ◌>>=◌,
}
use ai_experimental_search.GitConfig.Options.{
  Entry, get, get_all, with_setted_option, without_option,
}
use ai_experimental_search.GitConfig.Laws.{
  IsFold, only, missing, last_of, get_all-with_setted_option, get-get_all, get-with_setted_option,
  get_all_other,
}
use ai_experimental_search.GitConfig.Sections.{Config, any, has_subsection}
use ai_experimental_search.GitConfig.Config.{
  has_section, remove_section, remove_subsection, set_option, option,
}
use ai_experimental_search.GitConfig.Writes.{
  option-set_option, has_section-remove_section, has_subsection-remove_subsection,
}
use ai_experimental_search.Base.{none, count, index, slice, has_prefix, bytes_eq}
use ai_experimental_search.RefSpec.Spec.{
  dst, reverse, matches_name, force, validate, is_force_update, src, is_wildcard,
}
use ai_experimental_search.RefSpec.Parts.{spec_of, around, dst-spec_of}
use ai_experimental_search.RefSpec.Reverse.{dst-reverse, dst-reverse_forced}

fold : IsFold bytes_eq
fold = record {
  reflexive = bytes_eq_refl;
  symmetric = λ a b h. ap (λ (c : Bytes). bytes_eq c a) (sym (bytes_eq→≡ a b h)) ∙ bytes_eq_refl a;
  transitive = λ a b c h k. ap (λ (d : Bytes). bytes_eq a d) (sym (bytes_eq→≡ b c k)) ∙ h;
}

abbrev name : Bytes
name = b'a' ∷ []

abbrev url : Bytes
url = b'u' ∷ []

abbrev entries : List Entry
entries =
    record { key = name; value = b'1' ∷ [] }
    ∷ record { key = url; value = b'2' ∷ [] }
    ∷ record { key = name; value = b'3' ∷ [] }
    ∷ []

different : bytes_eq name url ≡ false
unfolding bytes_eq
different = refl

get_all-with_setted_option_run :
    get_all bytes_eq (with_setted_option bytes_eq entries name (url ∷ [])) name
    ≡ only (url ∷ []) (get_all bytes_eq entries name)
      ++ missing (only (url ∷ []) (get_all bytes_eq entries name)) (url ∷ [])
get_all-with_setted_option_run = get_all-with_setted_option bytes_eq fold entries name (url ∷ [])

get-get_all_run : get bytes_eq entries name ≡ last_of (get_all bytes_eq entries name)
get-get_all_run = get-get_all bytes_eq fold entries name

get-with_setted_option_run :
    get bytes_eq (with_setted_option bytes_eq entries name (url ∷ [])) name ≡ url
get-with_setted_option_run = get-with_setted_option bytes_eq fold entries name url

get_all_other_run :
    (get_all bytes_eq (with_setted_option bytes_eq entries name (url ∷ [])) url
      ≡ get_all bytes_eq entries url)
    × (get_all bytes_eq (without_option bytes_eq entries name) url ≡ get_all bytes_eq entries url)
get_all_other_run = get_all_other bytes_eq fold entries name url (url ∷ []) different

abbrev config : Config
config = record {
  sections =
      record {
        name = name;
        options = entries;
        subsections = record { name = url; options = [] } ∷ [];
      }
      ∷ [];
}

option-set_option_example :
    option bytes_eq (set_option bytes_eq name url name name config) name url name ≡ name
option-set_option_example = option-set_option bytes_eq fold config name url name name

has_section-remove_section_run :
    has_section bytes_eq (remove_section bytes_eq name config) name ≡ false
has_section-remove_section_run = has_section-remove_section bytes_eq fold config name

has_subsection-remove_subsection_run :
    any
      (λ s. bytes_eq s.name name && has_subsection s url)
      (remove_subsection bytes_eq name url config).sections
    ≡ false
has_subsection-remove_subsection_run =
    has_subsection-remove_subsection bytes_eq fold config name url

-- r/*:o/*
abbrev remote : Bytes
remote = b'r' ∷ b'/' ∷ []

abbrev local : Bytes
local = b'o' ∷ b'/' ∷ []

dst-spec_of_run :
    (matches_name (spec_of true (around remote []) (around local [])) (remote ++ (name ++ []))
      ≡ some true)
    × (dst (spec_of true (around remote []) (around local [])) (remote ++ (name ++ []))
        ≡ some (local ++ (name ++ [])))
unfolding count
dst-spec_of_run = dst-spec_of true remote [] local [] name refl refl refl (inl refl)

abbrev fetch_spec : Bytes
fetch_spec = spec_of false (around remote []) (around local [])

fetch_spec_valid : validate fetch_spec ≡ none
unfolding validate count index
fetch_spec_valid = refl

fetch_spec_plain : is_force_update fetch_spec ≡ some false
unfolding is_force_update
fetch_spec_plain = refl

fetch_spec_back_plain : (reverse fetch_spec >>= is_force_update) ≡ some false
unfolding is_force_update reverse index
fetch_spec_back_plain = refl

fetch_spec_matches : matches_name fetch_spec (remote ++ (name ++ [])) ≡ some true
unfolding matches_name src is_force_update is_wildcard index slice has_prefix bytes_eq
fetch_spec_matches = refl

dst-reverse_example :
    (other : Bytes) × (dst fetch_spec (remote ++ (name ++ [])) ≡ some other)
    × ((reverse fetch_spec >>= λ r. dst r other) ≡ some (remote ++ (name ++ [])))
dst-reverse_example =
    dst-reverse fetch_spec (remote ++ (name ++ [])) fetch_spec_valid fetch_spec_plain
      fetch_spec_back_plain fetch_spec_matches

dst-reverse_forced_run :
    (reverse (spec_of true (around remote []) (around local [])) >>= λ r.
    dst r (local ++ (name ++ [])))
    ≡ some (force ∷ remote ++ (name ++ []))
unfolding count
dst-reverse_forced_run = dst-reverse_forced remote [] local [] name refl refl refl refl refl
