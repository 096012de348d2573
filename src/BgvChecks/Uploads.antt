-- ===== src/BgvChecks/Uploads.antt =====
-- The uploads of a run of checks, and the identifiers that it keeps.
use circle_core.Prelude.{ℕ, ◌≤◌, ◌≡◌, String, Option, none, some, List, [], ◌∷◌}
use circle_core.Text.{Text}
use circle_core.Dict.{lookup}
use circle_core.Builtins.{Builtins}
use circle_core.BgvRecords.{Letters}
use circle_core.BgvChecks.{File, CandidateData, Client, Run, Result, run_check}
use circle_core.BgvChecks.Footprint.{Footprint, footprint}

-- At most one upload was registered, and none while no identifier is kept.
data IsOnce (f : Footprint) : Type 0 where
  unregistered : lookup "PAN card" f.registered_ids ≡ none → f.count ≡ 0 → IsOnce f
  kept : (id : Text) → lookup "PAN card" f.registered_ids ≡ some id → f.count ≤ 1 → IsOnce f

data Keeps (o : Builtins) (c : Client) : Result → Type 0 where
  keeps : (result : Result) → IsOnce (footprint o c result.1) → Keeps o c result

-- A check that is asked for, with the file that is there then.
pub record Asked : Type 0 where
  pub code : String
  pub document : Option File
  pub candidate : CandidateData

-- The checks of a run, one after the other.
unfoldable pub run_all : Builtins → Letters → Client → ℕ → List Asked → Run → Run
unfolding run_check
run_all o l c individual_id [] r = r
run_all o l c individual_id (a ∷ asked) r =
    run_all o l c individual_id asked
      (run_check o l c individual_id a.code a.document a.candidate r).1

-- The run that begins.
abbrev pub new_run : Run
new_run = record { sent = []; document_ids = [] }
