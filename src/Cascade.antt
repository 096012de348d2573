-- ===== src/Cascade.antt =====
-- app/api/routes/candidate_delete.py: deleting a candidate with what hangs off them. The calendar and
-- the stored files are left out.
pub mod Gone
mod Examples
use circle_core.Prelude.{
  Bool, true, false, ◌&&◌, String, Option, none, some, List, [], ◌∷◌, if◌then◌else◌,
}
use circle_core.Text.{Text, text_eq, is_empty}
use circle_core.Value.{Value, Fields, get, text_of, is_text}
use circle_core.Dict.{insert}
use circle_core.Resources.{Table, remove}
use circle_core.Routes.{Tables, table_of}

-- `_CHILD_BY_FIELD` and `_CHILD_BY_KEY`, by the tables' names.
abbrev pub child_by_field : List String
child_by_field =
    "schedules" ∷ "test_invites" ∷ "doc_requests" ∷ "interviews" ∷ "iq_tests" ∷ "assignments"
    ∷ "screening_calls" ∷ []

abbrev pub child_by_key : List String
child_by_key = "bgvs" ∷ "onboarding" ∷ "candidate_handoffs" ∷ []

-- `value == t`
unfoldable pub is_value : Text → Value → Bool
unfolding text_of
is_value t v = elim (text_of v) [ none ↦ false | some s ↦ text_eq s t ]

-- What the two searches match.
unfoldable pub refers : Text → Fields → Bool
unfolding is_value
refers candidate_id d = is_value candidate_id (get "candidateId" d)

unfoldable pub is_document_of : Text → Fields → Bool
unfolding is_value
is_document_of candidate_id d =
    is_text "candidate" (get "entityType" d) && is_value candidate_id (get "entityId" d)

-- The identifiers of the rows that match, those that have one.
unfoldable pub ids_of : (Fields → Bool) → Table → List Text
unfolding text_of
ids_of p [] = []
ids_of p ((key, d) ∷ rows) =
    let rest = ids_of p rows in
    let ids : List Text = elim (text_of (get "id" d)) [
      | none ↦ rest
      | some id ↦ if is_empty id then rest else id ∷ rest
    ] in
    if p d then ids else rest

unfoldable pub remove_all : List Text → Table → Table
unfolding remove
remove_all [] rows = rows
remove_all (id ∷ ids) rows = remove_all ids (remove id rows)

-- One table searched, and what was found deleted.
unfoldable pub sweep : (Fields → Bool) → Table → Table
unfolding ids_of remove_all
sweep p rows = remove_all (ids_of p rows) rows

unfoldable pub sweep_tables : Text → List String → Tables → Tables
unfolding sweep refers insert table_of
sweep_tables candidate_id [] tables = tables
sweep_tables candidate_id (name ∷ names) tables =
    sweep_tables candidate_id names
      (insert name (sweep (refers candidate_id) (table_of name tables)) tables)

unfoldable pub remove_keyed : Text → List String → Tables → Tables
unfolding insert table_of remove
remove_keyed candidate_id [] tables = tables
remove_keyed candidate_id (name ∷ names) tables =
    remove_keyed candidate_id names
      (insert name (remove candidate_id (table_of name tables)) tables)

unfoldable pub delete_candidate : Text → Tables → Tables
unfolding sweep_tables remove_keyed sweep is_document_of
delete_candidate candidate_id tables =
    let swept =
      remove_keyed candidate_id child_by_key (sweep_tables candidate_id child_by_field tables) in
    let cleared =
      insert "documents" (sweep (is_document_of candidate_id) (table_of "documents" swept)) swept in
    remove_keyed candidate_id ("candidates" ∷ []) cleared
