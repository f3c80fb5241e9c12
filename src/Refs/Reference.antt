-- ===== src/Refs/Reference.antt =====
-- plumbing/reference.go. A hash is a number; a name is its string.
use ai_experimental_search.Base.{
  ℕ, ◌+◌, Bool, true, false, ◌&&◌, ◌||◌, List, [], ◌∷◌, ◌++◌, ltb, leb, ◌==◌, length, Bytes,
  bytes_eq, has_prefix, has_suffix, if◌then◌else◌,
}

pub data ReferenceType : Type 0 where
  invalid_reference hash_reference symbolic_reference : ReferenceType

pub record Reference : Type 0 where
  pub typ : ReferenceType
  pub name : Bytes
  pub hash : ℕ
  pub target : Bytes

-- NewHashReference; the zero hash is 0.
abbrev pub new_hash_reference : Bytes → ℕ → Reference
new_hash_reference n h = record { typ = hash_reference; name = n; hash = h; target = [] }

abbrev pub new_symbolic_reference : Bytes → Bytes → Reference
new_symbolic_reference n target = record {
  typ = symbolic_reference;
  name = n;
  hash = 0;
  target = target;
}

abbrev pub is_symbolic : ReferenceType → Bool
is_symbolic symbolic_reference = true
is_symbolic _ = false

abbrev pub ref_prefix : Bytes
ref_prefix = b'r' ∷ b'e' ∷ b'f' ∷ b's' ∷ b'/' ∷ []

abbrev pub ref_head_prefix : Bytes
ref_head_prefix = ref_prefix ++ (b'h' ∷ b'e' ∷ b'a' ∷ b'd' ∷ b's' ∷ b'/' ∷ [])

abbrev pub ref_tag_prefix : Bytes
ref_tag_prefix = ref_prefix ++ (b't' ∷ b'a' ∷ b'g' ∷ b's' ∷ b'/' ∷ [])

abbrev pub ref_remote_prefix : Bytes
ref_remote_prefix = ref_prefix ++ (b'r' ∷ b'e' ∷ b'm' ∷ b'o' ∷ b't' ∷ b'e' ∷ b's' ∷ b'/' ∷ [])

abbrev pub ref_note_prefix : Bytes
ref_note_prefix = ref_prefix ++ (b'n' ∷ b'o' ∷ b't' ∷ b'e' ∷ b's' ∷ b'/' ∷ [])

-- The name HEAD.
abbrev pub head_name : Bytes
head_name = b'H' ∷ b'E' ∷ b'A' ∷ b'D' ∷ []

unfoldable pub new_branch_reference_name : Bytes → Bytes
new_branch_reference_name name = ref_head_prefix ++ name

unfoldable pub new_note_reference_name : Bytes → Bytes
new_note_reference_name name = ref_note_prefix ++ name

unfoldable pub new_remote_reference_name : Bytes → Bytes → Bytes
new_remote_reference_name remote name = ref_remote_prefix ++ (remote ++ (b'/' ∷ name))

unfoldable pub new_remote_head_reference_name : Bytes → Bytes
new_remote_head_reference_name remote = ref_remote_prefix ++ (remote ++ (b'/' ∷ head_name))

unfoldable pub new_tag_reference_name : Bytes → Bytes
new_tag_reference_name name = ref_tag_prefix ++ name

unfoldable pub is_branch : Bytes → Bool
is_branch r = has_prefix r ref_head_prefix

unfoldable pub is_note : Bytes → Bool
is_note r = has_prefix r ref_note_prefix

unfoldable pub is_remote : Bytes → Bool
is_remote r = has_prefix r ref_remote_prefix

unfoldable pub is_tag : Bytes → Bool
is_tag r = has_prefix r ref_tag_prefix

-- strings.Split by one byte: the first component, and the others.
unfoldable pub split : ℕ → Bytes → Bytes × List Bytes
split sep [] = ([], [])
split sep (b ∷ s) =
    let (part, parts) = split sep s in if b == sep then ([], part ∷ parts) else (b ∷ part, parts)

-- strings.Contains of two bytes.
unfoldable pub contains_pair : ℕ → ℕ → Bytes → Bool
contains_pair a b [] = false
contains_pair a b (x ∷ []) = false
contains_pair a b (x ∷ y ∷ s) = x == a && y == b || contains_pair a b (y ∷ s)

-- strings.ContainsAny and a search for a class of bytes.
unfoldable pub contains_any : (ℕ → Bool) → Bytes → Bool
contains_any test [] = false
contains_any test (b ∷ s) = test b || contains_any test s

-- ctrlSeqs: the bytes 0 to 31 (octal 37) and 127 (octal 177).
abbrev pub is_control : ℕ → Bool
is_control b = ltb b 32 || b == 127

-- The bytes of "~^:?*[ \t\n".
abbrev pub is_forbidden : ℕ → Bool
is_forbidden b =
    b == 126 || b == 94 || b == 58 || b == 63 || b == 42 || b == 91 || b == 32 || b == 9 || b == 10

abbrev pub lock_suffix : Bytes
lock_suffix = b'.' ∷ b'l' ∷ b'o' ∷ b'c' ∷ b'k' ∷ []

-- What Validate refuses in a component.
unfoldable pub is_bad_part : Bytes → Bool
unfolding contains_pair contains_any
is_bad_part part =
    has_prefix part (46 ∷ [])
    || contains_pair 46 46 part
    || contains_any is_control part
    || contains_any is_forbidden part
    || contains_pair 64 123 part
    || bytes_eq part (64 ∷ [])
    || contains_any (λ b. b == 92) part
    || has_suffix part lock_suffix

-- The loop of Validate from the component `i` on; `true` is no error.
unfoldable pub validate_parts : Bool → ℕ → List Bytes → Bool
validate_parts dashes i [] = true
validate_parts dashes i (part ∷ parts) =
    let rest = validate_parts dashes (i + 1) parts in
    if length part == 0
    then false
    else if is_bad_part part
    then false
    else if dashes && has_prefix part (45 ∷ []) && i == 2
    then false
    else rest

-- The checks of Validate behind the one for HEAD.
unfoldable pub validate_split : Bytes → Bytes × List Bytes → Bool
unfolding validate_parts is_branch is_tag
validate_split r (part, parts) =
    if has_suffix r (46 ∷ [])
    then false
    else if leb (length parts) 0
    then false
    else validate_parts (is_branch r || is_tag r) 0 (part ∷ parts)

-- Validate: `false` is ErrInvalidReferenceName.
unfoldable pub validate_name : Bytes → Bool
unfolding validate_split split
validate_name r =
    if length r == 0
    then false
    else if bytes_eq r head_name
    then true
    else validate_split r (split b'/' r)
