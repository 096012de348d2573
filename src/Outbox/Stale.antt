-- ===== src/Outbox/Stale.antt =====
-- What the version cannot tell apart: a row that was deleted and queued again begins at version 1.
use circle_core.Prelude.{ℕ, ◌≡◌, none, some, arith, eq_iff, ◌==◌, true, ==_iff}
use circle_core.Dict.{lookup, lookup-insert, lookup-erase}
use circle_core.Outbox.{
  Row, Table, OutboxItem, enqueue, is_current, delete_version, mark_delivered, fresh_row,
}

module _ {P : Type 0} (item : OutboxItem P) where
  lookup-mark_delivered :
      (r : Row P) (now : ℕ) (table : Table P)
      → lookup item.employee_id table ≡ some r
      → r.version ≡ item.version
      → lookup item.employee_id (mark_delivered item now table) ≡ none
  unfolding mark_delivered delete_version is_current
  lookup-mark_delivered r now table h e =
      let same : (r.version == item.version) ≡ true = (==_iff r.version item.version).1 e in
      rw (mark_delivered, delete_version, is_current, h, same)
        (ground (
          arith,
          lookup-erase item.employee_id item.employee_id table,
          eq_iff item.employee_id item.employee_id,
        ))

  lookup-enqueue_new :
      (q : P) (now : ℕ) (table : Table P)
      → lookup item.employee_id table ≡ none
      → lookup item.employee_id (enqueue item.employee_id q now table) ≡ some (fresh_row q now)
  unfolding enqueue
  lookup-enqueue_new q now table h = rw h (
      ground (
        arith,
        lookup-insert item.employee_id item.employee_id (fresh_row q now) table,
        eq_iff item.employee_id item.employee_id,
      ))

  -- If two workers hold the same item of version 1, as after a lease that ran out while it was
  -- being sent, and a new change is queued between their reports, then the second report deletes
  -- that change, which nobody has sent.
  pub mark_delivered_stale :
      (r : Row P) (q : P) (first then_queued second : ℕ) (table : Table P)
      → lookup item.employee_id table ≡ some r
      → r.version ≡ 1
      → item.version ≡ 1
      → lookup item.employee_id (
          mark_delivered item second
            (enqueue item.employee_id q then_queued (mark_delivered item first table)))
        ≡ none
  mark_delivered_stale r q first then_queued second table h rv iv =
      lookup-mark_delivered (fresh_row q then_queued) second _
        (lookup-enqueue_new q then_queued _
          (lookup-mark_delivered r first table h (omega (arith, rv, iv))))
        (unfold fresh_row in omega (arith, iv))
