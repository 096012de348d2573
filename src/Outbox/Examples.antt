-- ===== src/Outbox/Examples.antt =====
-- A short history: a change is queued and claimed; then it is sent.
use circle_core.Prelude.{ℕ, ◌≡◌, refl, true, false, none, some, [], ◌∷◌, arith}
use circle_core.Dict.{lookup, insert, erase}
use circle_core.Text.{codes}
use circle_core.Outbox.{
  Row, OutboxItem, enqueue, is_current, delete_version, fail_version, release_newer, claim_due, due,
  mark_delivered, mark_failed, retry_delay_seconds, deliver_due,
}
use circle_core.Outbox.System.{System, sent, queue, claim, delete, start, Reach, here, next, IsSafe}
use circle_core.Outbox.Safety.{Reach-IsSafe}
use circle_core.Outbox.Lost.{Explained, Step-Explained}
use circle_core.Outbox.Stale.{mark_delivered_stale}
use circle_core.Outbox.Race.{newer, first_claim, second_claim, mark_failed_race}

program : Unit {0}
unfolding enqueue claim_due due mark_delivered lookup insert erase
program = tt

abbrev row : Row ℕ
row = record {
  payload = 7;
  version = 1;
  attempts = 0;
  in_flight = true;
  next_attempt_at = 700;
  last_error = none;
  updated_at = 100;
}

abbrev item : OutboxItem ℕ
item = record { employee_id = "EMP-1"; payload = 7; version = 1; attempts = 0 }

abbrev claimed : System ℕ
claimed = record { table = ("EMP-1", row) ∷ []; held = (item, 700) ∷ []; failing = []; now = 100 }

claimed_reached : Reach ℕ (start 100) claimed
unfolding program
claimed_reached =
    next (next here (queue (start 100) "EMP-1" 7)) (claim _ 10 600 (λ id. false) (omega arith) tt)

Reach-IsSafe_example : IsSafe ℕ claimed
Reach-IsSafe_example = Reach-IsSafe 100 claimed_reached

abbrev after_delivery : System ℕ
after_delivery = record {
  table = delete_version item (("EMP-1", row) ∷ []);
  held = [];
  failing = [];
  now = 100;
}

Step-Explained_example : Explained ℕ "EMP-1" row after_delivery.table (sent item)
unfolding lookup
Step-Explained_example =
    Step-Explained 100 "EMP-1" row claimed_reached
      (delete claimed [] item 700 [] refl (unfold is_current in refl)) refl

mark_delivered_stale_example :
    lookup "EMP-1" (
      mark_delivered item 720
        (enqueue "EMP-1" 8 710 (mark_delivered item 705 (("EMP-1", row) ∷ []))))
    ≡ none
unfolding lookup
mark_delivered_stale_example =
    mark_delivered_stale item row 8 705 710 720 (("EMP-1", row) ∷ []) refl refl refl

delivered_batch :
    (deliver_due {P = ℕ} (λ i. (130, none)) 120 (λ id. false) (enqueue "EMP-1" 7 100 [])).0 ≡ 1
unfolding program deliver_due mark_delivered delete_version is_current
delivered_batch = refl

failed_batch :
    lookup "EMP-1"
      (deliver_due {P = ℕ}
        (λ i. (130, some (codes "down")))
        120
        (λ id. false)
        (enqueue "EMP-1" 7 100 [])).1
    ≡ some (record row {
      attempts = 1;
      in_flight = false;
      next_attempt_at = 160;
      last_error = some (codes "down");
      updated_at = 130;
    })
unfolding program deliver_due mark_failed fail_version release_newer retry_delay_seconds
failed_batch = refl

mark_failed_race_example :
    ((first_claim "EMP-1" row (codes "down") 30 130 8).0
      ≡ newer "EMP-1" row (codes "down") 30 130 8 ∷ [])
    × ((second_claim "EMP-1" row (codes "down") 30 130 8).0
        ≡ newer "EMP-1" row (codes "down") 30 130 8 ∷ [])
mark_failed_race_example = mark_failed_race "EMP-1" row (codes "down") 30 130 8
