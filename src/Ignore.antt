-- ===== src/Ignore.antt =====
-- plumbing/format/gitignore: pattern.go and matcher.go. `glob` is filepath.Match of a pattern and a name, with
-- ErrBadPattern as none.
use ai_experimental_search.Base.{
  ℕ, suc, ◌+◌, ◌-◌, Bool, true, false, not, ◌&&◌, ◌||◌, Option, none, some, List, [], ◌∷◌, ◌==◌,
  leb, length, take, drop, Bytes, bytes_eq, has_prefix, has_suffix, count, if◌then◌else◌,
}
use ai_experimental_search.Refs.Reference.{split, contains_pair}
pub mod Laws

pub data MatchResult : Type 0 where
  no_match exclude include : MatchResult

pub record Pattern : Type 0 where
  pub domain : List Bytes
  pub segments : List Bytes
  pub inclusion : Bool
  pub dir_only : Bool
  pub is_glob : Bool

-- strings.TrimRight of spaces.
unfoldable pub trim_spaces : Bytes → Bytes
trim_spaces [] = []
trim_spaces (b ∷ s) = elim (trim_spaces s) [
  | [] ↦ (if b == b' ' then [] else b ∷ [])
  | c ∷ r ↦ b ∷ c ∷ r
]

abbrev all_segments : Bytes × List Bytes → List Bytes
all_segments (s, ss) = s ∷ ss

abbrev trimmed : Bytes → Bytes
trimmed p = if not (has_suffix p (b'\\' ∷ b' ' ∷ [])) then trim_spaces p else p

-- The text behind the marks of a pattern.
abbrev with_text : List Bytes → Bool → Bool → Bytes → Pattern
with_text domain inclusion dir_only p = record {
  domain = domain;
  segments = all_segments (split b'/' p);
  inclusion = inclusion;
  dir_only = dir_only;
  is_glob = not (count p b'/' == 0);
}

abbrev with_suffix : List Bytes → Bool → Bytes → Pattern
with_suffix domain inclusion p =
    if has_suffix p (b'/' ∷ [])
    then with_text domain inclusion true (take (length p - 1) p)
    else with_text domain inclusion false p

unfoldable pub parse_pattern : Bytes → List Bytes → Pattern
unfolding trim_spaces split count bytes_eq has_prefix
parse_pattern p domain =
    if has_prefix p (b'!' ∷ [])
    then with_suffix domain true (trimmed (drop 1 p))
    else with_suffix domain false (trimmed p)

abbrev pub is_nil : {A : Type 0} → List A → Bool
is_nil [] = true
is_nil (x ∷ xs) = false

abbrev pub zero_to_many_dirs : Bytes
zero_to_many_dirs = b'*' ∷ b'*' ∷ []

-- What is left of a path behind the domain, where this is a proper prefix.
unfoldable pub behind_domain : List Bytes → List Bytes → Option (List Bytes)
behind_domain [] [] = none
behind_domain [] (e ∷ path) = some (e ∷ path)
behind_domain (d ∷ domain) [] = none
behind_domain (d ∷ domain) (e ∷ path) =
    let rest = behind_domain domain path in if bytes_eq e d then rest else none

module _ (glob : Bytes → Bytes → Option Bool) where
  abbrev on_name : Bool → Bool → Option Bool → Bool
  on_name hit rest none = false
  on_name hit rest (some true) = hit
  on_name hit rest (some false) = rest

  unfoldable pub simple_name_match : Bytes → Bool → List Bytes → Bool → Bool
  simple_name_match s dir_only [] is_dir = false
  simple_name_match s dir_only (name ∷ path) is_dir =
      on_name (not (dir_only && not is_dir && is_nil path))
        (simple_name_match s dir_only path is_dir) (glob s name)

  abbrev traversed :
      List Bytes × Bool → Option (List Bytes × Bool) → Option Bool → Option (List Bytes × Bool)
  traversed hit rest none = none
  traversed hit rest (some true) = some hit
  traversed hit rest (some false) = rest

  -- The loop behind a `**`: the path left and whether it matches; `none` is a return of false.
  unfoldable pub traverse : Bytes → List Bytes → Bool → Option (List Bytes × Bool)
  traverse s [] matched = some ([], matched)
  traverse s (e ∷ path) matched =
      traversed (path, true) (traverse s path (not (is_nil path) && matched)) (glob s e)

  abbrev pub entered : Option (List Bytes × Bool) → Option Bool → Option (List Bytes × Bool)
  entered rest none = none
  entered rest (some true) = rest
  entered rest (some false) = none

  abbrev pub behind :
      (List Bytes → Bool → Option (List Bytes × Bool))
      → Option (List Bytes × Bool)
      → Option (List Bytes × Bool)
  behind more none = none
  behind more (some (path, matched)) = more path matched

  abbrev next_segment :
      (List Bytes → Bool → Option (List Bytes × Bool))
      → Bool
      → Bytes
      → List Bytes
      → Bool
      → Bool
      → Option (List Bytes × Bool)
  next_segment more last s [] matched can_traverse = none
  next_segment more last s (e ∷ path) matched true = behind more (traverse s (e ∷ path) matched)
  next_segment more last s (e ∷ path) matched false =
      entered (more path (not (is_nil path && not last))) (glob s e)

  -- The loop of globMatch; it breaks at a `**` at the end, where it is over as well.
  unfoldable pub glob_loop : List Bytes → List Bytes → Bool → Bool → Option (List Bytes × Bool)
  unfolding traverse contains_pair
  glob_loop [] path matched can_traverse = some (path, matched)
  glob_loop (s ∷ ss) path matched can_traverse =
      let plain = glob_loop ss path matched false in
      let any = glob_loop ss path matched true in
      let next =
        next_segment (λ path' m. glob_loop ss path' m false) (is_nil ss) s path matched
          can_traverse in
      if bytes_eq s []
      then plain
      else if bytes_eq s zero_to_many_dirs
      then any
      else if contains_pair b'*' b'*' s
      then none
      else next

  abbrev pub glob_result : Bool → Bool → Option (List Bytes × Bool) → Bool
  glob_result dir_only is_dir none = false
  glob_result dir_only is_dir (some (path, matched)) =
      not (matched && dir_only && not is_dir && is_nil path) && matched

  unfoldable pub glob_match : List Bytes → Bool → List Bytes → Bool → Bool
  unfolding glob_loop
  glob_match segments dir_only path is_dir =
      glob_result dir_only is_dir (glob_loop segments path false false)

  abbrev pub first_segment : List Bytes → Bytes
  first_segment [] = []
  first_segment (s ∷ ss) = s

  abbrev pub on_path : Pattern → Bool → Option (List Bytes) → MatchResult
  on_path p is_dir none = no_match
  on_path p is_dir (some path) =
      let hit =
        if p.is_glob
        then glob_match p.segments p.dir_only path is_dir
        else simple_name_match (first_segment p.segments) p.dir_only path is_dir in
      if not hit then no_match else if p.inclusion then include else exclude

  unfoldable pub match_pattern : Pattern → List Bytes → Bool → MatchResult
  unfolding behind_domain glob_match simple_name_match
  match_pattern p path is_dir = on_path p is_dir (behind_domain p.domain path)

  abbrev pub decided : Bool → MatchResult → Bool
  decided rest no_match = rest
  decided rest exclude = true
  decided rest include = false

  -- Matcher.Match over the patterns from the last one.
  unfoldable pub match_from_last : List Pattern → List Bytes → Bool → Bool
  unfolding match_pattern
  match_from_last [] path is_dir = false
  match_from_last (p ∷ ps) path is_dir =
      decided (match_from_last ps path is_dir) (match_pattern p path is_dir)

-- A list from its end.
unfoldable pub reversed_onto : {A : Type 0} → List A → List A → List A
reversed_onto [] acc = acc
reversed_onto (x ∷ xs) acc = reversed_onto xs (x ∷ acc)

unfoldable pub matcher_match :
    (Bytes → Bytes → Option Bool) → List Pattern → List Bytes → Bool → Bool
unfolding match_from_last reversed_onto
matcher_match glob ps path is_dir = match_from_last glob (reversed_onto ps []) path is_dir
