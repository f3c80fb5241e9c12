-- ===== src/Capability.antt =====
-- plumbing/protocol/packp/capability: the list of capabilities of list.go, with the tables of capability.go.
-- The map of a list is an association list; a capability is its name. Set cuts the values to length 0 and
-- appends to them, which also changes slices that Get gave before; these are copies here.
use ai_experimental_search.Base.{
  ℕ, Bool, true, false, not, ◌&&◌, ◌||◌, Option, none, some, List, [], ◌∷◌, ◌++◌, Bytes, bytes_eq,
  ltb, leb, ◌==◌, length, if◌then◌else◌,
}
pub mod Laws

abbrev pub known_names : List Bytes
known_names =
    (b'm' ∷ b'u' ∷ b'l' ∷ b't' ∷ b'i' ∷ b'_' ∷ b'a' ∷ b'c' ∷ b'k' ∷ [])
    ∷ (b'm' ∷ b'u' ∷ b'l' ∷ b't' ∷ b'i' ∷ b'_' ∷ b'a' ∷ b'c' ∷ b'k' ∷ b'_' ∷ b'd' ∷ b'e' ∷ b't'
        ∷ b'a' ∷ b'i' ∷ b'l' ∷ b'e' ∷ b'd' ∷ [])
    ∷ (b'n' ∷ b'o' ∷ b'-' ∷ b'd' ∷ b'o' ∷ b'n' ∷ b'e' ∷ [])
    ∷ (b't' ∷ b'h' ∷ b'i' ∷ b'n' ∷ b'-' ∷ b'p' ∷ b'a' ∷ b'c' ∷ b'k' ∷ [])
    ∷ (b's' ∷ b'i' ∷ b'd' ∷ b'e' ∷ b'-' ∷ b'b' ∷ b'a' ∷ b'n' ∷ b'd' ∷ [])
    ∷ (b's' ∷ b'i' ∷ b'd' ∷ b'e' ∷ b'-' ∷ b'b' ∷ b'a' ∷ b'n' ∷ b'd' ∷ b'-' ∷ b'6' ∷ b'4' ∷ b'k'
        ∷ [])
    ∷ (b'o' ∷ b'f' ∷ b's' ∷ b'-' ∷ b'd' ∷ b'e' ∷ b'l' ∷ b't' ∷ b'a' ∷ [])
    ∷ (b'a' ∷ b'g' ∷ b'e' ∷ b'n' ∷ b't' ∷ [])
    ∷ (b's' ∷ b'h' ∷ b'a' ∷ b'l' ∷ b'l' ∷ b'o' ∷ b'w' ∷ [])
    ∷ (b'd' ∷ b'e' ∷ b'e' ∷ b'p' ∷ b'e' ∷ b'n' ∷ b'-' ∷ b's' ∷ b'i' ∷ b'n' ∷ b'c' ∷ b'e' ∷ [])
    ∷ (b'd' ∷ b'e' ∷ b'e' ∷ b'p' ∷ b'e' ∷ b'n' ∷ b'-' ∷ b'n' ∷ b'o' ∷ b't' ∷ [])
    ∷ (b'd' ∷ b'e' ∷ b'e' ∷ b'p' ∷ b'e' ∷ b'n' ∷ b'-' ∷ b'r' ∷ b'e' ∷ b'l' ∷ b'a' ∷ b't' ∷ b'i'
        ∷ b'v' ∷ b'e' ∷ [])
    ∷ (b'n' ∷ b'o' ∷ b'-' ∷ b'p' ∷ b'r' ∷ b'o' ∷ b'g' ∷ b'r' ∷ b'e' ∷ b's' ∷ b's' ∷ [])
    ∷ (b'i' ∷ b'n' ∷ b'c' ∷ b'l' ∷ b'u' ∷ b'd' ∷ b'e' ∷ b'-' ∷ b't' ∷ b'a' ∷ b'g' ∷ [])
    ∷ (b'r' ∷ b'e' ∷ b'p' ∷ b'o' ∷ b'r' ∷ b't' ∷ b'-' ∷ b's' ∷ b't' ∷ b'a' ∷ b't' ∷ b'u' ∷ b's'
        ∷ [])
    ∷ (b'd' ∷ b'e' ∷ b'l' ∷ b'e' ∷ b't' ∷ b'e' ∷ b'-' ∷ b'r' ∷ b'e' ∷ b'f' ∷ b's' ∷ [])
    ∷ (b'q' ∷ b'u' ∷ b'i' ∷ b'e' ∷ b't' ∷ [])
    ∷ (b'a' ∷ b't' ∷ b'o' ∷ b'm' ∷ b'i' ∷ b'c' ∷ [])
    ∷ (b'p' ∷ b'u' ∷ b's' ∷ b'h' ∷ b'-' ∷ b'o' ∷ b'p' ∷ b't' ∷ b'i' ∷ b'o' ∷ b'n' ∷ b's' ∷ [])
    ∷ (b'a' ∷ b'l' ∷ b'l' ∷ b'o' ∷ b'w' ∷ b'-' ∷ b't' ∷ b'i' ∷ b'p' ∷ b'-' ∷ b's' ∷ b'h' ∷ b'a'
        ∷ b'1' ∷ b'-' ∷ b'i' ∷ b'n' ∷ b'-' ∷ b'w' ∷ b'a' ∷ b'n' ∷ b't' ∷ [])
    ∷ (b'a' ∷ b'l' ∷ b'l' ∷ b'o' ∷ b'w' ∷ b'-' ∷ b'r' ∷ b'e' ∷ b'a' ∷ b'c' ∷ b'h' ∷ b'a' ∷ b'b'
        ∷ b'l' ∷ b'e' ∷ b'-' ∷ b's' ∷ b'h' ∷ b'a' ∷ b'1' ∷ b'-' ∷ b'i' ∷ b'n' ∷ b'-' ∷ b'w' ∷ b'a'
        ∷ b'n' ∷ b't' ∷ [])
    ∷ (b'p' ∷ b'u' ∷ b's' ∷ b'h' ∷ b'-' ∷ b'c' ∷ b'e' ∷ b'r' ∷ b't' ∷ [])
    ∷ (b's' ∷ b'y' ∷ b'm' ∷ b'r' ∷ b'e' ∷ b'f' ∷ [])
    ∷ (b'o' ∷ b'b' ∷ b'j' ∷ b'e' ∷ b'c' ∷ b't' ∷ b'-' ∷ b'f' ∷ b'o' ∷ b'r' ∷ b'm' ∷ b'a' ∷ b't'
        ∷ [])
    ∷ (b'f' ∷ b'i' ∷ b'l' ∷ b't' ∷ b'e' ∷ b'r' ∷ [])
    ∷ []

abbrev pub argument_names : List Bytes
argument_names =
    (b'a' ∷ b'g' ∷ b'e' ∷ b'n' ∷ b't' ∷ [])
    ∷ (b'p' ∷ b'u' ∷ b's' ∷ b'h' ∷ b'-' ∷ b'c' ∷ b'e' ∷ b'r' ∷ b't' ∷ [])
    ∷ (b's' ∷ b'y' ∷ b'm' ∷ b'r' ∷ b'e' ∷ b'f' ∷ [])
    ∷ (b'o' ∷ b'b' ∷ b'j' ∷ b'e' ∷ b'c' ∷ b't' ∷ b'-' ∷ b'f' ∷ b'o' ∷ b'r' ∷ b'm' ∷ b'a' ∷ b't'
        ∷ [])
    ∷ []

abbrev pub multiple_names : List Bytes
multiple_names = (b's' ∷ b'y' ∷ b'm' ∷ b'r' ∷ b'e' ∷ b'f' ∷ []) ∷ []

pub data CapabilityError : Type 0 where
  arguments_required arguments_not_allowed empty_argument multiple_arguments : CapabilityError

unfoldable pub is_among : Bytes → List Bytes → Bool
is_among c [] = false
is_among c (n ∷ ns) = bytes_eq n c || is_among c ns

pub record Capabilities : Type 0 where
  pub m : List (Bytes × List Bytes)
  pub order : List Bytes

abbrev pub new_list : Capabilities
new_list = record { m = []; order = [] }

unfoldable pub is_empty : Capabilities → Bool
is_empty l = length l.order == 0

unfoldable pub has_entry : Bytes → List (Bytes × List Bytes) → Bool
has_entry c [] = false
has_entry c ((n, vs) ∷ m) = bytes_eq n c || has_entry c m

unfoldable pub supports : Capabilities → Bytes → Bool
unfolding has_entry
supports l c = has_entry c l.m

-- The values of an entry, nil where there is none.
unfoldable pub values_of : Bytes → List (Bytes × List Bytes) → List Bytes
values_of c [] = []
values_of c ((n, vs) ∷ m) = if bytes_eq n c then vs else values_of c m

unfoldable pub get : Capabilities → Bytes → List Bytes
unfolding values_of
get l c = values_of c l.m

-- A write to the values of an entry that is there.
unfoldable pub update : Bytes → List Bytes → List (Bytes × List Bytes) → List (Bytes × List Bytes)
update c new [] = []
update c new ((n, vs) ∷ m) = if bytes_eq n c then (n, new) ∷ m else (n, vs) ∷ update c new m

unfoldable pub validate_no_empty_args : List Bytes → Option CapabilityError
validate_no_empty_args [] = none
validate_no_empty_args (v ∷ vs) =
    let rest = validate_no_empty_args vs in if length v == 0 then some empty_argument else rest

unfoldable pub is_known : Bytes → Bool
unfolding is_among bytes_eq
is_known c = is_among c known_names

unfoldable pub requires_argument : Bytes → Bool
unfolding is_among bytes_eq
requires_argument c = is_among c argument_names

unfoldable pub allows_multiple : Bytes → Bool
unfolding is_among bytes_eq
allows_multiple c = is_among c multiple_names

unfoldable pub validate : Bytes → List Bytes → Option CapabilityError
unfolding validate_no_empty_args
validate c values =
    if not (is_known c)
    then validate_no_empty_args values
    else if requires_argument c && length values == 0
    then some arguments_required
    else if not (requires_argument c) && not (length values == 0)
    then some arguments_not_allowed
    else if not (allows_multiple c) && ltb 1 (length values)
    then some multiple_arguments
    else validate_no_empty_args values

-- The entry is made where it is missing.
unfoldable pub with_entry : Bytes → Capabilities → Capabilities
unfolding supports
with_entry c l =
    if not (supports l c) then record { m = (c, []) ∷ l.m; order = l.order ++ (c ∷ []) } else l

unfoldable pub add_values :
    Bytes → List Bytes → Capabilities → Capabilities × Option CapabilityError
unfolding get update
add_values c values l =
    if length values == 0
    then (l, none)
    else if is_known c && not (allows_multiple c) && ltb 0 (length (get l c))
    then (l, some multiple_arguments)
    else (record l { m = update c (get l c ++ values) l.m }, none)

unfoldable pub add_valid :
    Bytes
    → List Bytes
    → Capabilities
    → Option CapabilityError
    → Capabilities × Option CapabilityError
unfolding with_entry
add_valid c values l (some e) = (l, some e)
add_valid c values l none = add_values c values (with_entry c l)

unfoldable pub add : Bytes → List Bytes → Capabilities → Capabilities × Option CapabilityError
unfolding validate
add c values l = add_valid c values l (validate c values)

unfoldable pub cleared : Bytes → Capabilities → Capabilities
unfolding supports update
cleared c l = if supports l c then record l { m = update c [] l.m } else l

unfoldable pub set : Bytes → List Bytes → Capabilities → Capabilities × Option CapabilityError
unfolding add cleared
set c values l = add c values (cleared c l)

unfoldable pub delete_entry : Bytes → List (Bytes × List Bytes) → List (Bytes × List Bytes)
delete_entry c [] = []
delete_entry c ((n, vs) ∷ m) =
    let rest = delete_entry c m in if bytes_eq n c then rest else (n, vs) ∷ rest

-- The first occurrence is cut out.
unfoldable pub delete_first : Bytes → List Bytes → List Bytes
delete_first c [] = []
delete_first c (n ∷ ns) = if bytes_eq n c then ns else n ∷ delete_first c ns

unfoldable pub delete : Bytes → Capabilities → Capabilities
unfolding supports delete_entry delete_first
delete c l =
    if not (supports l c)
    then l
    else record { m = delete_entry c l.m; order = delete_first c l.order }
