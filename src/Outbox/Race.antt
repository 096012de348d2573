-- ===== src/Outbox/Race.antt =====
-- What may come between the two statements of a failed report.
use circle_core.Prelude.{
  ℕ, ◌+◌, ◌≡◌, ◌≤◌, refl, ap, ◌∙◌, String, List, Bool, true, false, [], ◌∷◌, arith, eq_iff, ◌==◌,
  ==_iff, leb,
}
use circle_core.Dict.{lookup, insert}
use circle_core.Text.{Text}
use circle_core.Outbox.{
  Row, Table, OutboxItem, enqueue, claim_due, due, by_next_attempt, place, leased, lease_all,
  fail_version, release_newer, replaced, released, failed_row, item_of, claim_batch_size,
  claim_lease_seconds,
}

-- No row is locked.
abbrev pub free : String → Bool
free id = false

-- The statements on a table of one row.
module _ {P : Type 0} (id : String) (r : Row P) where
  fail_version_one :
      (error : Text) (delay now : ℕ)
      → fail_version (item_of (id, r)) error delay now ((id, r) ∷ [])
        ≡ (id, failed_row error delay now r) ∷ []
  unfolding fail_version item_of lookup insert
  fail_version_one error delay now =
      let here = (eq_iff id id).1 refl in
      let same = (==_iff r.version r.version).1 refl in
      rw (fail_version, lookup, here, same, insert, here) refl

  enqueue_one :
      (payload : P) (now : ℕ)
      → enqueue id payload now ((id, r) ∷ []) ≡ (id, replaced payload now r) ∷ []
  unfolding enqueue lookup insert
  enqueue_one payload now = let here = (eq_iff id id).1 refl in rw here refl

  claim_due_one :
      (now : ℕ)
      → r.next_attempt_at ≤ now
      → claim_due claim_batch_size claim_lease_seconds now free ((id, r) ∷ [])
        ≡ (item_of (id, r) ∷ [], (id, leased (now + claim_lease_seconds) r) ∷ [])
  unfolding claim_due due by_next_attempt place lease_all insert
  claim_due_one now h =
      let early : leb r.next_attempt_at now ≡ true = ground arith in
      let here = (eq_iff id id).1 refl in rw early (rw here refl)

  release_newer_one :
      (old : Row P) (now : ℕ)
      → (r.version == old.version) ≡ false
      → r.in_flight ≡ true
      → release_newer (item_of (id, old)) now ((id, r) ∷ []) ≡ (id, released now r) ∷ []
  unfolding release_newer lookup insert item_of
  release_newer_one old now other marked =
      let here = (eq_iff id id).1 refl in
      rw (release_newer, lookup, here, other, marked, insert, here) refl

module _ {P : Type 0} (id : String) (r : Row P) (error : Text) (delay now : ℕ) (payload : P) where
  -- The change that is queued after the failure.
  abbrev pub newer : OutboxItem P
  newer = record { employee_id = id; payload = payload; version = r.version + 1; attempts = 0 }

  -- The row when it has been claimed.
  abbrev claimed : Row P
  claimed = leased (now + claim_lease_seconds) (replaced payload now (failed_row error delay now r))

  abbrev pub first_claim : List (OutboxItem P) × Table P
  first_claim =
      claim_due claim_batch_size claim_lease_seconds now free
        (enqueue id payload now (fail_version (item_of (id, r)) error delay now ((id, r) ∷ [])))

  abbrev pub second_claim : List (OutboxItem P) × Table P
  second_claim =
      claim_due claim_batch_size claim_lease_seconds now free
        (release_newer (item_of (id, r)) now first_claim.1)

  first_claim_lem : first_claim ≡ (newer ∷ [], (id, claimed) ∷ [])
  unfolding item_of replaced failed_row
  first_claim_lem =
      ap (claim_due claim_batch_size claim_lease_seconds now free) (
        ap (enqueue id payload now) (fail_version_one id r error delay now)
        ∙ enqueue_one id (failed_row error delay now r) payload now)
      ∙ claim_due_one id (replaced payload now (failed_row error delay now r)) now (omega arith)

  second_claim_lem : second_claim.0 ≡ newer ∷ []
  unfolding item_of replaced failed_row leased released
  second_claim_lem =
      let other : (r.version + 1 == r.version) ≡ false = ground arith in
      ap (λ t. (claim_due claim_batch_size claim_lease_seconds now free t).0)
        (ap (λ c. release_newer (item_of (id, r)) now c.1) first_claim_lem
          ∙ release_newer_one id claimed r now other refl)
      ∙ ap (λ c. c.0) (claim_due_one id (released now claimed) now (omega arith))

  -- Take a table of one row whose change could not be sent, and let the employee be changed again and
  -- the row be claimed after the first UPDATE of the report. Then the second UPDATE makes the claimed
  -- row due, and a claim at the same moment takes the same item once more: two workers have it.
  pub mark_failed_race : (first_claim.0 ≡ newer ∷ []) × (second_claim.0 ≡ newer ∷ [])
  mark_failed_race = (ap (λ c. c.0) first_claim_lem, second_claim_lem)
