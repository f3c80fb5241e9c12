-- ===== src/Object.antt =====
-- plumbing/object.go: the types of objects and their names, and objects as values.
use ai_experimental_search.Base.{
  ℕ, ◌≡◌, refl, Bool, true, false, ◌&&◌, ◌||◌, Option, none, some, [], ◌∷◌, Bytes, bytes_eq, leb,
  ◌==◌, length, if◌then◌else◌,
}

pub data ObjectType : Type 0 where
  invalid_object commit_object tree_object blob_object tag_object : ObjectType
  ofs_delta_object ref_delta_object any_object : ObjectType

-- The int8 of a type; AnyObject is -127, here as a byte.
abbrev pub code : ObjectType → ℕ
code invalid_object = 0
code commit_object = 1
code tree_object = 2
code blob_object = 3
code tag_object = 4
code ofs_delta_object = 6
code ref_delta_object = 7
code any_object = 129

abbrev pub type_eq : ObjectType → ObjectType → Bool
type_eq t u = code t == code u

-- The int8 of AnyObject is negative.
unfoldable pub is_valid : ObjectType → Bool
is_valid t = leb 1 (code t) && leb (code t) 7

unfoldable pub is_delta : ObjectType → Bool
is_delta t = type_eq t ref_delta_object || type_eq t ofs_delta_object

unfoldable pub type_name : ObjectType → Bytes
type_name commit_object = b'c' ∷ b'o' ∷ b'm' ∷ b'm' ∷ b'i' ∷ b't' ∷ []
type_name tree_object = b't' ∷ b'r' ∷ b'e' ∷ b'e' ∷ []
type_name blob_object = b'b' ∷ b'l' ∷ b'o' ∷ b'b' ∷ []
type_name tag_object = b't' ∷ b'a' ∷ b'g' ∷ []
type_name ofs_delta_object = b'o' ∷ b'f' ∷ b's' ∷ b'-' ∷ b'd' ∷ b'e' ∷ b'l' ∷ b't' ∷ b'a' ∷ []
type_name ref_delta_object = b'r' ∷ b'e' ∷ b'f' ∷ b'-' ∷ b'd' ∷ b'e' ∷ b'l' ∷ b't' ∷ b'a' ∷ []
type_name any_object = b'a' ∷ b'n' ∷ b'y' ∷ []
type_name invalid_object = b'u' ∷ b'n' ∷ b'k' ∷ b'n' ∷ b'o' ∷ b'w' ∷ b'n' ∷ []

-- ParseObjectType; `none` is ErrInvalidType.
unfoldable pub parse_object_type : Bytes → Option ObjectType
unfolding type_name bytes_eq
parse_object_type value =
    if bytes_eq value (type_name commit_object)
    then some commit_object
    else if bytes_eq value (type_name tree_object)
    then some tree_object
    else if bytes_eq value (type_name blob_object)
    then some blob_object
    else if bytes_eq value (type_name tag_object)
    then some tag_object
    else if bytes_eq value (type_name ofs_delta_object)
    then some ofs_delta_object
    else if bytes_eq value (type_name ref_delta_object)
    then some ref_delta_object
    else none

-- The name of a type parses back to it exactly when the type is valid: the names of the invalid type and of
-- AnyObject are refused.
pub parse_object_type-type_name :
    (t : ObjectType) → parse_object_type (type_name t) ≡ (if is_valid t then some t else none)
unfolding parse_object_type type_name is_valid bytes_eq
parse_object_type-type_name invalid_object = refl
parse_object_type-type_name commit_object = refl
parse_object_type-type_name tree_object = refl
parse_object_type-type_name blob_object = refl
parse_object_type-type_name tag_object = refl
parse_object_type-type_name ofs_delta_object = refl
parse_object_type-type_name ref_delta_object = refl
parse_object_type-type_name any_object = refl

pub record EncodedObject : Type 0 where
  pub typ : ObjectType
  pub content : Bytes

abbrev pub size : EncodedObject → ℕ
size x = length x.content

-- The types that a storage keeps.
abbrev pub is_supported : ObjectType → Bool
is_supported commit_object = true
is_supported tree_object = true
is_supported blob_object = true
is_supported tag_object = true
is_supported _ = false

-- What a hash function is taken to be: no two objects have the same hash.
abbrev pub IsCollisionFree : (EncodedObject → ℕ) → Type 0
IsCollisionFree object_hash = (x y : EncodedObject) → object_hash x ≡ object_hash y → x ≡ y
