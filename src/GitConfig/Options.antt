-- ===== src/GitConfig/Options.antt =====
-- plumbing/format/config/option.go: the options of a section, in the order of the file. `fold_eq` is
-- strings.EqualFold.
use ai_experimental_search.Base.{
  Bytes, Bool, false, not, ◌||◌, Option, none, some, List, [], ◌∷◌, ◌++◌, bytes_eq, if◌then◌else◌,
}

-- The struct Option.
pub record Entry : Type 0 where
  pub key : Bytes
  pub value : Bytes

-- The last element with a property: a loop from the end of a slice.
unfoldable pub last_match : {A : Type 0} → (A → Bool) → List A → Option A
last_match p [] = none
last_match p (x ∷ xs) = elim (last_match p xs) [
  | none ↦ if p x then some x else none
  | some y ↦ some y
]

unfoldable pub contains : List Bytes → Bytes → Bool
contains [] needle = false
contains (s ∷ haystack) needle = bytes_eq s needle || contains haystack needle

module _ (fold_eq : Bytes → Bytes → Bool) where
  abbrev pub is_key : Entry → Bytes → Bool
  is_key o key = fold_eq o.key key

  abbrev value_of : Option Entry → Bytes
  value_of none = []
  value_of (some o) = o.value

  unfoldable pub get : List Entry → Bytes → Bytes
  get opts key = value_of (last_match (λ o. is_key o key) opts)

  unfoldable pub has : List Entry → Bytes → Bool
  has [] key = false
  has (o ∷ opts) key = is_key o key || has opts key

  unfoldable pub get_all : List Entry → Bytes → List Bytes
  get_all [] key = []
  get_all (o ∷ opts) key =
      let rest = get_all opts key in if is_key o key then o.value ∷ rest else rest

  unfoldable pub without_option : List Entry → Bytes → List Entry
  without_option [] key = []
  without_option (o ∷ opts) key =
      let rest = without_option opts key in if is_key o key then rest else o ∷ rest

  abbrev pub with_added_option : List Entry → Bytes → Bytes → List Entry
  with_added_option opts key value = opts ++ (record { key = key; value = value } ∷ [])

  -- The first loop of withSettedOption: `result` and `added` after it.
  unfoldable pub keep_values : Bytes → List Bytes → List Entry → List Entry × List Bytes
  keep_values key values [] = ([], [])
  keep_values key values (o ∷ opts) =
      let (result, added) = keep_values key values opts in
      if not (is_key o key)
      then (o ∷ result, added)
      else if contains values o.value
      then (o ∷ result, o.value ∷ added)
      else (result, added)

  -- The second loop.
  unfoldable pub add_values : Bytes → List Bytes → List Entry → List Bytes → List Entry
  add_values key added result [] = result
  add_values key added result (value ∷ values) =
      add_values key added
        (if contains added value then result else with_added_option result key value) values

  unfoldable pub with_setted_option : List Entry → Bytes → List Bytes → List Entry
  with_setted_option opts key values =
      let (result, added) = keep_values key values opts in add_values key added result values
