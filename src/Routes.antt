-- ===== src/Routes.antt =====
-- app/api/routes/resources.py with app/domain/registry.py: the routes that all resources share, and
-- who may use which. Audit entries are left out.
pub mod Guarded
mod Examples
use circle_core.Prelude.{
  ℕ, Bool, true, false, ◌&&◌, ◌||◌, not, String, Option, none, some, List, [], ◌∷◌, ◌++◌,
  if◌then◌else◌, any, all, str_eq,
}
use circle_core.Text.{Text, codes, text_eq}
use circle_core.Value.{Fields, closed, field}
use circle_core.Builtins.{Builtins}
use circle_core.Dict.{Dict, lookup, insert}
use circle_core.Resources.{Rows, Table, list, find, Saved}
use circle_core.Resources

-- `_DEFS`: the resources by their slugs, with the field that is the identifier.
abbrev pub resource_defs : Dict String
resource_defs =
    ("auth-users", "id")
    ∷ ("schedules", "id")
    ∷ ("jobs", "id")
    ∷ ("candidates", "id")
    ∷ ("test-invites", "id")
    ∷ ("doc-requests", "id")
    ∷ ("interviews", "id")
    ∷ ("iq-tests", "id")
    ∷ ("assignments", "id")
    ∷ ("bgvs", "candidateId")
    ∷ ("onboarding", "candidateId")
    ∷ ("employees", "id")
    ∷ ("assets", "id")
    ∷ ("email-templates", "id")
    ∷ ("email-template-overrides", "id")
    ∷ ("sent-emails", "id")
    ∷ ("offboarding", "employeeId")
    ∷ ("exit-handovers", "employeeId")
    ∷ ("candidate-handoffs", "candidateId")
    ∷ ("google-oauth", "id")
    ∷ ("calendar-links", "id")
    ∷ ("assessment-banks", "id")
    ∷ ("interview-banks", "id")
    ∷ ("screening-banks", "id")
    ∷ ("iq-bank", "id")
    ∷ ("assignment-banks", "id")
    ∷ ("interview-sheets", "id")
    ∷ ("joining-confirmations", "id")
    ∷ []

-- The table of a resource; each resource has its own.
abbrev pub Tables : Type 0
Tables = Dict Table

unfoldable pub table_of : String → Tables → Table
unfolding lookup
table_of slug tables = elim (lookup slug tables) [ none ↦ [] | some rows ↦ rows ]

-- The tables, and what was queued for the identity service: employees, and whether they were removed.
pub record Site : Type 0 where
  pub tables : Tables
  pub queued : List (Fields × Bool)

-- What a request asks for; an identifier that `create` may draw comes with it.
pub data Request : Type 0 where
  list_all : Option ℕ → ℕ → Request
  get_one : Text → Request
  create : Text → Fields → Request
  replace : Text → Fields → Request
  patch : Text → Fields → Request
  remove : Text → Request

pub data Answer : Type 0 where
  found : Fields → Answer
  listed : List Fields → Answer
  removed : Answer
  refused : ℕ → Answer

pub record Step : Type 0 where
  pub answer : Answer
  pub site : Site

abbrev pub refuse : ℕ → Site → Step
refuse status site = record { answer = refused status; site = site }

-- `slug in slugs`
unfoldable pub is_among : String → List String → Bool
is_among slug slugs = any (λ s. str_eq s slug) slugs

abbrev pub public_list : List String
public_list = "jobs" ∷ []

abbrev pub public_get_by_id : List String
public_get_by_id = "jobs" ∷ "test-invites" ∷ "doc-requests" ∷ "joining-confirmations" ∷ []

abbrev pub public_patch_by_id : List String
public_patch_by_id = "doc-requests" ∷ []

-- `_is_public_generic`
unfoldable pub is_public_generic : String → Request → Bool
unfolding is_among
is_public_generic slug (list_all limit offset) = is_among slug public_list
is_public_generic slug (get_one id) = is_among slug public_get_by_id
is_public_generic slug (create fresh payload) = false
is_public_generic slug (replace id payload) = false
is_public_generic slug (patch id changes) = is_among slug public_patch_by_id
is_public_generic slug (remove id) = false

-- `_PUBLIC_PATCH_FIELDS`
abbrev pub public_patch_fields : List String
public_patch_fields =
    "bankDetails" ∷ "consent" ∷ "references" ∷ "uan" ∷ "education" ∷ "employment"
    ∷ "permanentAddress" ∷ "isFresher" ∷ []

unfoldable pub is_public_field : String → String → Bool
unfolding is_among
is_public_field slug key = str_eq slug "doc-requests" && is_among key public_patch_fields

-- `_reject_non_public_fields`: whether every key that changes is public.
unfoldable pub has_public_keys : String → Fields → Bool
unfolding is_public_field
has_public_keys slug closed = true
has_public_keys slug (field k v changes) = is_public_field slug k && has_public_keys slug changes

-- The table of a resource written, and an employee queued if the identity service is configured.
unfoldable pub sync_employee :
    Bool → String → Fields → Bool → List (Fields × Bool) → List (Fields × Bool)
sync_employee configured slug document is_removed queued =
    if configured && str_eq slug "employees"
    then queued ++ ((document, is_removed) ∷ [])
    else queued

unfoldable pub saved : Bool → String → Saved → Site → Step
unfolding sync_employee insert
saved configured slug s site = record {
  answer = found s.document;
  site = record {
    tables = insert slug s.table site.tables;
    queued = sync_employee configured slug s.document false site.queued;
  };
}

unfoldable pub patched : Bool → String → Option Saved → Site → Step
unfolding saved
patched configured slug none site = refuse 404 site
patched configured slug (some s) site = saved configured slug s site

-- `remove` of the routes: the employee is read before it is deleted.
unfoldable pub removed_from : Bool → String → Text → Option Table → Site → Step
unfolding sync_employee insert find table_of
removed_from configured slug id none site = refuse 404 site
removed_from configured slug id (some left) site =
    let old : Fields = elim (find id (table_of slug site.tables)) [ none ↦ closed | some d ↦ d ] in
    record {
      answer = removed;
      site = record {
        tables = insert slug left site.tables;
        queued = sync_employee configured slug old true site.queued;
      };
    }

-- The routes behind the guard, for a resource that is known.
unfoldable pub route : Builtins → Bool → Bool → String → String → Request → Site → Step
unfolding table_of saved patched removed_from has_public_keys list find
route o configured has_session slug id_field (list_all limit offset) site = record {
  answer = listed (list limit offset (table_of slug site.tables));
  site = site;
}
route o configured has_session slug id_field (get_one id) site =
    elim (find id (table_of slug site.tables)) [
      | none ↦ refuse 404 site
      | some d ↦ record { answer = found d; site = site }
    ]
route o configured has_session slug id_field (create fresh payload) site =
    saved configured slug (Resources.create o id_field fresh payload (table_of slug site.tables))
      site
route o configured has_session slug id_field (replace id payload) site =
    saved configured slug (Resources.replace id_field id payload (table_of slug site.tables)) site
route o configured has_session slug id_field (patch id changes) site =
    let done =
      patched configured slug (Resources.patch id changes (table_of slug site.tables)) site in
    if has_session || has_public_keys slug changes then done else refuse 403 site
route o configured has_session slug id_field (remove id) site =
    removed_from configured slug id (Resources.delete id (table_of slug site.tables)) site

-- `guard_resources`, then `get_resource`, then the route.
unfoldable pub serve : Builtins → Bool → Bool → String → Request → Site → Step
unfolding is_public_generic route lookup
serve o configured has_session slug request site =
    let answer : Step = elim (lookup slug resource_defs) [
      | none ↦ refuse 404 site
      | some id_field ↦ route o configured has_session slug id_field request site
    ] in
    if str_eq slug "auth-users"
    then refuse 404 site
    else if is_public_generic slug request || has_session
    then answer
    else refuse 401 site
