-- ===== src/Handoff/Examples.antt =====
-- A document that was approved twice, and handed in once more.
use circle_core.Prelude.{◌≡◌, refl, none, some, List, [], ◌∷◌}
use circle_core.Text.{Text, codes, text_eq, is_empty}
use circle_core.Resources.{find, upsert}
use circle_core.DocRequests.{Submission, is_verified, or_else}
use circle_core.Handoff.{text_le, key_of, stamp_of, replaces, best_of}
use circle_core.Handoff.Latest.{IsLatest, approved_of, best_of-IsLatest}

abbrev handed_in : Text → Text → Text → Submission
handed_in document_id status reviewed_at = record {
  doc_type = codes "PAN";
  document_id = document_id;
  file_name = codes "pan.pdf";
  size = 3;
  uploaded_at = codes "2026-01-01";
  status = status;
  extraction = none;
  reviewed_at = reviewed_at;
  review_reason = [];
}

abbrev thrice : List Submission
thrice =
    handed_in (codes "d2") (codes "Verified") (codes "2026-03-02")
    ∷ handed_in (codes "d1") (codes "Verified") (codes "2026-02-01")
    ∷ handed_in (codes "d3") (codes "Submitted") []
    ∷ []

second_one :
    find (codes "PAN") (best_of thrice [])
    ≡ some (handed_in (codes "d2") (codes "Verified") (codes "2026-03-02"))
unfolding find best_of is_verified replaces key_of stamp_of or_else text_le upsert text_eq is_empty
second_one = refl

best_of-IsLatest_example :
    IsLatest (find (codes "PAN") (best_of thrice [])) (approved_of (codes "PAN") thrice)
best_of-IsLatest_example = best_of-IsLatest (codes "PAN") thrice
