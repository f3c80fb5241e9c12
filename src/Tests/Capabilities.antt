-- ===== src/Tests/Capabilities.antt =====
-- The theorems about capabilities at concrete inputs.
use ai_experimental_search.Base.{◌≡◌, refl, some, [], ◌∷◌, Bytes, bytes_eq}
use ai_experimental_search.Capability.{
  multiple_arguments, is_among, Capabilities, has_entry, supports, get, set, add, delete, validate,
  validate_no_empty_args, is_known, requires_argument, allows_multiple,
}
use ai_experimental_search.Capability.Laws.{IsValid, add-set-delete-IsValid, get-set}

abbrev agent : Bytes
agent = b'a' ∷ b'g' ∷ b'e' ∷ b'n' ∷ b't' ∷ []

abbrev one : Bytes
one = b'1' ∷ []

abbrev with_agent : Capabilities
with_agent = record { m = (agent, one ∷ []) ∷ []; order = agent ∷ [] }

with_agent-IsValid : IsValid with_agent
unfolding supports has_entry is_among
with_agent-IsValid = record { agree = λ c. refl; distinct = (refl, tt) }

add-set-delete-IsValid_example :
    IsValid (add agent (one ∷ []) with_agent).0
    × IsValid (set agent (one ∷ []) with_agent).0
    × IsValid (delete agent with_agent)
add-set-delete-IsValid_example =
    add-set-delete-IsValid agent (one ∷ []) with_agent with_agent-IsValid

-- Two agents are refused, and the one that was there is gone.
get-set_example :
    ((set agent (one ∷ one ∷ []) with_agent).1 ≡ some multiple_arguments)
    × (get (set agent (one ∷ one ∷ []) with_agent).0 agent ≡ [])
unfolding validate validate_no_empty_args is_known requires_argument allows_multiple is_among
    bytes_eq
get-set_example = get-set agent (one ∷ one ∷ []) with_agent
