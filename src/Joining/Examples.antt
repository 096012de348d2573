-- ===== src/Joining/Examples.antt =====
-- A candidate who answers, tries to set the date of joining, and comes back after the link has expired.
use circle_core.Prelude.{◌≡◌, refl, length, some, List, [], ◌∷◌}
use circle_core.Text.{Text, codes, is_empty, text_eq}
use circle_core.Text.Ops.{ends_with}
use circle_core.Value.{text, text_of, Fields, field, closed, get, is_falsy}
use circle_core.Value.Update.{set, update, has_key}
use circle_core.Builtins.{simple}
use circle_core.Resources.{find, upsert}
use circle_core.Resources.Laws.{field_of, value_in}
use circle_core.DocRequests.{Upload, is_in, or_else}
use circle_core.Joining.{
  Site, Outside, is_expired, with_record, is_candidate_writable, allowed_of, is_no_change,
  update_joining_confirmation, is_photo, upload_joining_photo,
}
use circle_core.Joining.Owned.{is_written, Act, answers, sends_photo, act, act_all, act_all-IsKept}

abbrev at : Text → Outside
at time = record {
  builtins = simple;
  now = length time;
  now_text = time;
  doc_id = codes "d1";
  parse_time = λ t. some (length t);
}

abbrev confirmation : Fields
confirmation = field "candidateId" (text (codes "c1")) (
    field "proposedDate" (text (codes "2026-02-02"))
      (field "expiresAt" (text (codes "1111")) closed))

abbrev site : Site
site = record { confirmations = (codes "t1", confirmation) ∷ []; documents = [] }

abbrev portrait : Upload
portrait = record { filename = codes "me.png"; content_type = codes "image/png"; size = 9 }

abbrev acts : List Act
acts =
    answers (at (codes "1")) (codes "t1")
      (field "meal" (text (codes "dosa")) (field "proposedDate" (text (codes "2027-01-01")) closed))
    ∷ sends_photo (at (codes "11")) (codes "t1") portrait
    ∷ answers (at (codes "11111")) (codes "t1") (field "meal" (text (codes "idli")) closed)
    ∷ []

meal_kept :
    field_of "meal" (codes "t1") (act_all acts site).confirmations ≡ some (text (codes "dosa"))
unfolding act_all act update_joining_confirmation upload_joining_photo with_record is_expired
    is_falsy text_of get is_empty allowed_of is_candidate_writable is_no_change set update has_key
    find upsert field_of value_in is_photo is_in ends_with or_else text_eq
meal_kept = refl

act_all-IsKept_example :
    field_of "proposedDate" (codes "t1") (act_all acts site).confirmations
    ≡ field_of "proposedDate" (codes "t1") site.confirmations
act_all-IsKept_example =
    act_all-IsKept "proposedDate" (unfold is_written in refl) (codes "t1") acts site
