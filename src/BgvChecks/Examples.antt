-- ===== src/BgvChecks/Examples.antt =====
-- A check of a PAN card, with an OnGrid that takes everything.
use circle_core.Prelude.{◌≡◌, refl, true, none, some, List, [], ◌∷◌, inr}
use circle_core.Text.{codes, is_empty}
use circle_core.Value.{text, field, closed, get, is_falsy, text_of}
use circle_core.Dict.{lookup, insert}
use circle_core.Builtins.{simple, str_or_empty}
use circle_core.BgvRecords.Examples.{letters}
use circle_core.BgvChecks.{
  File, CandidateData, Client, Run, run_check, run_document_check, upload, extracted, start_with,
  start, started, record_id, cache, send,
}
use circle_core.BgvChecks.Footprint.{registrations}
use circle_core.BgvChecks.Uploads.{Asked, run_all, new_run}
use circle_core.BgvChecks.Started.{IsHonest, run_check-IsHonest}

abbrev client : Client
client = record {
  answer =
      λ sent q. inr (field "id" (text (codes "7")) (field "requestId" (text (codes "9")) closed));
  prepare = λ f. some f.content;
  to_int = λ t. some 7;
  upper = λ s. s;
}

abbrev scan : File
scan = record { content = codes "%PDF-"; content_type = none; file_name = none }

abbrev nobody : CandidateData
nobody = record {
  uan = [];
  education = closed;
  employment = closed;
  permanent_address = closed;
  references = [];
  is_fresher = true;
  education_file = none;
  employment_files = [];
  prc_schema_id = none;
}

abbrev fresh_run : Run
fresh_run = record { sent = []; document_ids = [] }

cached :
    (run_check simple letters client 1 "PANV" (some scan) nobody fresh_run).1.document_ids
    ≡ ("PAN card", codes "7") ∷ []
unfolding run_check run_document_check upload extracted start_with start started record_id cache
    send lookup insert str_or_empty get is_falsy is_empty text_of
cached = refl

run_check-IsHonest_example :
    IsHonest simple client "PANV"
      (run_check simple letters client 1 "PANV" (some scan) nobody fresh_run)
run_check-IsHonest_example =
    run_check-IsHonest simple letters client 1 "PANV" (some scan) nobody fresh_run

-- The check twice, with one upload.
abbrev twice : List Asked
twice =
    let asked : Asked = record { code = "PANV"; document = some scan; candidate = nobody } in
    asked ∷ asked ∷ []

registered_once :
    registrations simple client (run_all simple letters client 1 twice new_run).sent ≡ 1
unfolding registrations run_all run_check run_document_check upload extracted start_with start
    started record_id cache send lookup insert str_or_empty get is_falsy is_empty text_of
registered_once = refl
