-- ===== src/Tests/Ignores.antt =====
-- The theorems about ignore patterns at concrete inputs, with equality for filepath.Match.
use ai_experimental_search.Base.{
  ◌≡◌, refl, Bool, true, false, Option, some, [], ◌∷◌, Bytes, bytes_eq,
}
use ai_experimental_search.Refs.Reference.{contains_pair}
use ai_experimental_search.Ignore.{
  Pattern, zero_to_many_dirs, behind_domain, simple_name_match, glob_match, match_pattern,
  matcher_match,
}
use ai_experimental_search.Ignore.Laws.{
  matcher_match-append, match_each, glob_match-match_each, glob_match-no_second_try,
  match_pattern-domain,
}

abbrev equal : Bytes → Bytes → Option Bool
unfolding bytes_eq
equal s name = some (bytes_eq s name)

abbrev a : Bytes
a = b'a' ∷ []

abbrev b : Bytes
b = b'b' ∷ []

abbrev c : Bytes
c = b'c' ∷ []

abbrev ignore_a : Pattern
ignore_a = record {
  domain = [];
  segments = a ∷ [];
  inclusion = false;
  dir_only = false;
  is_glob = false;
}

abbrev keep_b : Pattern
keep_b = record {
  domain = a ∷ [];
  segments = b ∷ [];
  inclusion = true;
  dir_only = false;
  is_glob = false;
}

-- The file b of the directory a is not ignored, though a is.
matcher_match-append_run : matcher_match equal (ignore_a ∷ keep_b ∷ []) (a ∷ b ∷ []) false ≡ false
unfolding match_pattern behind_domain simple_name_match bytes_eq
matcher_match-append_run =
    matcher_match-append equal (ignore_a ∷ []) keep_b [] (a ∷ b ∷ []) false tt

glob_match-match_each_example : glob_match equal (a ∷ b ∷ []) true (a ∷ b ∷ []) false ≡ false
unfolding match_each bytes_eq
glob_match-match_each_example =
    glob_match-match_each equal a (b ∷ []) (a ∷ b ∷ []) true false
      (unfold contains_pair in ((refl, refl, refl), ((refl, refl, refl), tt)))

glob_match-no_second_try_example :
    glob_match equal (a ∷ zero_to_many_dirs ∷ b ∷ c ∷ []) false (a ∷ b ∷ a ∷ b ∷ c ∷ []) false
    ≡ false
unfolding bytes_eq
glob_match-no_second_try_example =
    glob_match-no_second_try equal a b c a b a (b ∷ c ∷ []) false false
      (unfold contains_pair in ((refl, refl, refl), ((refl, refl, refl), ((refl, refl, refl), tt))))
      refl refl refl

match_pattern-domain_run :
    match_pattern equal keep_b (a ∷ b ∷ []) false
    ≡ match_pattern equal (record keep_b { domain = [] }) (b ∷ []) false
match_pattern-domain_run = match_pattern-domain equal keep_b b [] false
