-- ===== src/BgvChecks/Outcomes.antt =====
-- The requests that are sent to OnGrid, and the outcome of a check.
use circle_core.Prelude.{
  ℕ, Bool, true, false, String, Option, none, some, List, if◌then◌else◌, ◌⊎◌, inl, inr,
}
use circle_core.Dict.{Dict}
use circle_core.Text.{Text}
use circle_core.Value.{Fields, get, is_falsy}
use circle_core.Builtins.{Builtins, str, str_or_empty}
use circle_core.BgvRecords.{Sent}

-- `DocumentFile`
pub record File : Type 0 where
  pub content : Text
  pub content_type : Option Text
  pub file_name : Option Text

-- `CandidateData`; a missing dictionary is the empty one, as the source treats them alike.
pub record CandidateData : Type 0 where
  pub uan : Text
  pub education : Fields
  pub employment : Fields
  pub permanent_address : Fields
  pub references : List Fields
  pub is_fresher : Bool
  pub education_file : Option File
  pub employment_files : List (String × File)
  pub prc_schema_id : Option ℕ

-- A call of the client. An upload is kept with its image, without the file's name and type.
pub data Request : Type 0 where
  check : String → List Sent → Request
  extract : String → Text → Request
  add_education : List Sent → File → Request
  add_employment : List Sent → List (String × File) → Request
  add_address : List Sent → Request

-- The client: `OnGridError` with its message, or the answer, by what was sent before. `prepare` is
-- `to_image`, which fails on a file that cannot be read; `to_int` is `int`, which raises.
pub record Client : Type 0 where
  pub answer : List Request → Request → Text ⊎ Fields
  pub prepare : File → Option Text
  pub to_int : Text → Option ℕ
  pub upper : String → String

pub data Reason : Type 0 where
  first_job : Reason
  no_uan : Reason
  no_document : Reason
  unreadable : Reason
  not_registered : Reason
  no_details : Reason
  no_certificate : Reason
  no_proof : Reason
  no_questionnaire : Reason
  incomplete : List String → Reason
  provider_said : Text → Reason
  unsupported : Reason

pub record CheckOutcome : Type 0 where
  pub code : String
  pub ok : Bool
  pub request_id : Option Text
  pub document_id : Option Text
  pub reason : Option Reason

-- What one run of several checks keeps: the requests, and the cache of registered documents.
pub record Run : Type 0 where
  pub sent : List Request
  pub document_ids : Dict Text

-- `_missing`
unfoldable pub missing : String → Reason → CheckOutcome
missing code reason = record {
  code = code;
  ok = false;
  request_id = none;
  document_id = none;
  reason = some reason;
}

-- `str(result.get("requestId") or result.get("state") or "")`
unfoldable pub request_id_of : Builtins → Fields → Text
request_id_of o result =
    if is_falsy (get "requestId" result)
    then str_or_empty o (get "state" result)
    else str o (get "requestId" result)

-- `_start`, after the answer.
unfoldable pub started : Builtins → String → Option Text → Text ⊎ Fields → CheckOutcome
unfolding request_id_of
started o code document_id (inl message) = record {
  code = code;
  ok = false;
  request_id = none;
  document_id = document_id;
  reason = some (provider_said message);
}
started o code document_id (inr result) = record {
  code = code;
  ok = true;
  request_id = some (request_id_of o result);
  document_id = document_id;
  reason = none;
}
