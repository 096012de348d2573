-- ===== src/Calls/Events/Lookup.antt =====
-- `_find_call`: the call that a message of a provider is about.
use circle_core.Prelude.{
  ℕ, Bool, true, false, not, Option, none, some, List, if◌then◌else◌, find, take,
}
use circle_core.Text.{Text, text_eq, is_empty}
use circle_core.Value.{Value, get, get_in, object_of, text_of}
use circle_core.Calls.{Call, row}

abbrev pub max_transcript_chars : ℕ
max_transcript_chars = 50000

abbrev pub max_reason_chars : ℕ
max_reason_chars = 120

-- `value[:limit] if isinstance(value, str) else None`
unfoldable pub bounded : Value → ℕ → Option Text
bounded v limit = elim (text_of v) [ none ↦ none | some t ↦ some (take limit t) ]

-- The column of a call equals a text.
unfoldable pub holds_id : Option Text → Text → Bool
holds_id none t = false
holds_id (some v) t = text_eq v t

-- `call.get("vapiCallId") not in (None, provider_id)`
unfoldable pub bound_elsewhere : Option Text → Value → Bool
bound_elsewhere none p = false
bound_elsewhere (some v) p = elim (text_of p) [ none ↦ true | some t ↦ not (text_eq v t) ]

-- `_metadata_call_id`, of one holder and of the two.
unfoldable pub id_in : Value → Option Text
id_in holder = text_of (get_in "screeningCallId" (get_in "metadata" holder))

unfoldable pub metadata_call_id : Value → Option Text
unfolding id_in
metadata_call_id call = elim (id_in call) [
  | some id ↦ some id
  | none ↦ id_in (get_in "assistant" call)
]

-- The oldest row with the provider's identifier.
unfoldable pub find_by_provider : Value → List Call → Option Call
find_by_provider p calls = elim (text_of p) [
  | none ↦ none
  | some t ↦ if is_empty t then none else find (λ c. holds_id c.vapi_call_id t) calls
]

unfoldable pub find_by_metadata : Value → List Call → Option Call
unfolding metadata_call_id bound_elsewhere
find_by_metadata call calls = elim (metadata_call_id call) [
  | none ↦ none
  | some id ↦ if is_empty id then none else elim (row id calls) [
    | none ↦ none
    | some c ↦ if bound_elsewhere c.vapi_call_id (get_in "id" call) then none else some c
  ]
]

-- `_find_call`
unfoldable pub find_call : Value → List Call → Option Call
unfolding find_by_provider find_by_metadata
find_call call calls = elim (object_of call) [
  | none ↦ none
  | some d ↦ elim (find_by_provider (get "id" d) calls) [
    | some c ↦ some c
    | none ↦ find_by_metadata call calls
  ]
]
