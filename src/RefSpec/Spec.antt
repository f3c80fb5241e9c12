-- ===== src/RefSpec/Spec.antt =====
-- config/refspec.go: a refspec is its string. `none` is a panic: an index of -1 or an empty string.
use ai_experimental_search.Base.{
  ℕ, ◌+◌, ◌-◌, Bool, true, false, ◌&&◌, Option, none, some, List, [], ◌∷◌, ◌++◌, ltb, leb, ◌==◌,
  length, take, drop, Bytes, bytes_eq, count, index, slice, has_prefix, has_suffix, if◌then◌else◌,
  ◌>>=◌,
}

abbrev pub wildcard : ℕ
wildcard = 42

abbrev pub force : ℕ
force = 43

abbrev pub separator : ℕ
separator = 58

pub data RefSpecError : Type 0 where
  malformed_separator : RefSpecError
  malformed_wildcard : RefSpecError

-- The rest of Validate behind its search for the separator at `sep`.
abbrev validate_at : Bytes → Option ℕ → Option RefSpecError
validate_at spec none = some malformed_separator
validate_at spec (some sep) =
    let ws = count (take sep spec) wildcard in
    let wd = count (drop (sep + 1) spec) wildcard in
    if sep == length spec - 1
    then some malformed_separator
    else if ws == wd && ltb ws 2 && ltb wd 2
    then none
    else some malformed_wildcard

-- `none` is the nil error. A count of 1 means that there is a separator.
unfoldable pub validate : Bytes → Option RefSpecError
validate spec =
    let rest = validate_at spec (index spec separator) in
    if count spec separator == 1 then rest else some malformed_separator

unfoldable pub is_force_update : Bytes → Option Bool
is_force_update [] = none
is_force_update (b ∷ s) = some (b == force)

unfoldable pub src : Bytes → Option Bytes
src spec = do
  forced ← is_force_update spec
  end ← index spec separator
  slice spec (if forced then 1 else 0) end

unfoldable pub is_wildcard : Bytes → Bool
is_wildcard spec = elim (index spec wildcard) [ none ↦ false | some i ↦ true ]

abbrev match_exact : Bytes → Bytes → Option Bool
match_exact spec name = do s ← src spec; some (bytes_eq s name)

-- The test of matchGlob with the source's parts around its wildcard.
abbrev pub matches : Bytes → Bytes → Bytes → Bool
matches prefix suffix name =
    leb (length prefix + length suffix) (length name)
    && has_prefix name prefix
    && has_suffix name suffix

abbrev match_glob : Bytes → Bytes → Option Bool
match_glob spec name = do
  s ← src spec
  star ← index s wildcard
  some (matches (take star s) (drop (star + 1) s) name)

-- Match.
unfoldable pub matches_name : Bytes → Bytes → Option Bool
matches_name spec name =
    let exact = match_exact spec name in
    let glob = match_glob spec name in if is_wildcard spec then glob else exact

-- The string behind the separator; from the start where there is none.
unfoldable pub behind : Bytes → Bytes
behind spec = elim (index spec separator) [ none ↦ spec | some i ↦ drop (i + 1) spec ]

abbrev pub replace : Bytes → Bytes → Bytes → Option Bytes
replace s d name = do
  ws ← index s wildcard
  wd ← index d wildcard
  found ←
      if leb (length s - (ws + 1)) (length name)
      then slice name ws (length name - (length s - (ws + 1)))
      else none
  some (take wd d ++ found ++ drop (wd + 1) d)

unfoldable pub dst : Bytes → Bytes → Option Bytes
dst spec name = do
  s ← src spec
  if is_wildcard spec then replace s (behind spec) name else some (behind spec)

unfoldable pub reverse : Bytes → Option Bytes
reverse spec = do i ← index spec separator; some (drop (i + 1) spec ++ separator ∷ take i spec)

-- MatchAny.
unfoldable pub match_any : List Bytes → Bytes → Option Bool
match_any [] name = some false
match_any (r ∷ l) name =
    let rest = match_any l name in do m ← matches_name r name; if m then some true else rest

unfoldable pub is_delete : Bytes → Option Bool
is_delete [] = none
is_delete (b ∷ s) = some (b == separator)
