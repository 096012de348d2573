-- ===== src/Outbox/Lost.antt =====
-- When a queued change leaves the outbox.
use mathlib.Core.Path.{subst}
use circle_core.Prelude.{
  ℕ, ◌+◌, ◌≡◌, refl, sym, ◌∙◌, String, some, List, [], ◌∷◌, ◌++◌, All, arith, str_eq, eq_iff,
  Bool-cases, inl, inr, Option-cases, ◌==◌, ==_iff, not, ◌&&◌,
}
use circle_core.Dict.{lookup, insert, lookup-insert, lookup-erase}
use circle_core.Dict.Distinct.{Found}
use circle_core.Text.{Text}
use circle_core.Outbox.{
  Row, Table, OutboxItem, enqueue, claim_due, is_current, delete_version, release, fail_version,
  release_newer, due, leased, lease_all, replaced, released, failed_row,
}
use circle_core.Prelude.Every.{All-remove, All-map}
use circle_core.Outbox.Due.{due-IsDue}
use circle_core.Outbox.Marks.{branches}
use circle_core.Outbox.System.{
  Held, System, Event, enqueued, sent, Step, queue, claim, delete, delete_none, release_sent, fail,
  fail_none, release_held, release_failing, crash_failing, crash, tick, start, Reach, Tracks,
  IsSafe,
}
use circle_core.Outbox.Safety.{Reach-IsSafe}

-- The row of an employee after a step, from the one before it.
pub data Explained (P : Type 0) (id : String) (row : Row P) (table : Table P)
    : Event P → Type 0 where
  kept :
      {e : Event P} (after : Row P)
      → lookup id table ≡ some after
      → after.payload ≡ row.payload
      → Explained P id row table e
  overwritten :
      (j : String) (payload : P) (after : Row P)
      → j ≡ id
      → lookup id table ≡ some after
      → after.payload ≡ payload
      → Explained P id row table (enqueued j payload)
  gone :
      (item : OutboxItem P)
      → item.employee_id ≡ id
      → item.payload ≡ row.payload
      → Explained P id row table (sent item)

module _ {P : Type 0} (id : String) (row : Row P) where
  kept_frame :
      {e : Event P} (table table' : Table P)
      → lookup id table ≡ some row
      → lookup id table' ≡ lookup id table
      → Explained P id row table' e
  kept_frame table table' h e = kept row (e ∙ h) refl

  kept_insert :
      {e : Event P} (j : String) (r : Row P) (table : Table P)
      → lookup id table ≡ some row
      → (j ≡ id → r.payload ≡ row.payload)
      → Explained P id row (insert j r table) e
  kept_insert j r table h same = elim (Bool-cases (str_eq j id)) [
    | inl e ↦ kept r (ground (arith, lookup-insert j id r table)) (same ((eq_iff j id).0 e))
    | inr e ↦ kept_frame table _ h (ground (arith, lookup-insert j id r table))
  ]

  Explained-queue :
      (j : String) (payload : P) (now : ℕ) (table : Table P)
      → lookup id table ≡ some row
      → Explained P id row (enqueue j payload now table) (enqueued j payload)
  unfolding enqueue
  Explained-queue j payload now table h = elim (Bool-cases (str_eq j id)) [
    | inl e ↦
        let same_id = (eq_iff j id).0 e in
        let found : lookup j table ≡ some row = rw same_id h in
        overwritten j payload (replaced payload now row) same_id
          (rw found (ground (arith, lookup-insert j id (replaced payload now row) table)))
          (unfold replaced in refl)
    | inr e ↦ kept_insert j _ table h (λ p. absurd (ground (arith, eq_iff j id)))
  ]

  Explained-lease_all :
      (until : ℕ) (chosen table : Table P)
      → All (Found table) chosen
      → lookup id table ≡ some row
      → (after : Row P) × (lookup id (lease_all until chosen table) ≡ some after)
        × (after.payload ≡ row.payload)
  unfolding lease_all
  Explained-lease_all until [] table f h = (row, h, refl)
  Explained-lease_all until ((j, r) ∷ chosen) table f h =
      let (after, found, same) = Explained-lease_all until chosen table f.1 h in
      elim (Bool-cases (str_eq j id)) [
        | inl e ↦
            let same_id = (eq_iff j id).0 e in
            (
              leased until r,
              ground (arith, lookup-insert j id (leased until r) (lease_all until chosen table)),
              unfold leased in cc (f.0, h, same_id),
            )
        | inr e ↦ (
          after,
          ground (arith, lookup-insert j id (leased until r) (lease_all until chosen table)),
          same,
        )
      ]

  Explained-delete_version :
      (item : OutboxItem P) (table : Table P)
      → ((r : Row P)
          → lookup item.employee_id table ≡ some r
          → item.version ≡ r.version
          → item.payload ≡ r.payload)
      → lookup id table ≡ some row
      → Explained P id row (delete_version item table) (sent item)
  unfolding delete_version is_current
  Explained-delete_version item table t h = elim (Option-cases (lookup item.employee_id table)) [
    | inl e ↦ rw (delete_version, is_current, e) (kept row h refl)
    | inr (r, e) ↦ elim (Bool-cases (r.version == item.version)) [
      | inl same ↦
          rw (delete_version, is_current, e, same)
            (elim (Bool-cases (str_eq item.employee_id id)) [
              | inl q ↦
                  let same_id = (eq_iff item.employee_id id).0 q in
                  let same_row : r ≡ row = cc (e, h, same_id) in
                  gone item same_id (
                    t row (rw same_id h)
                      (rw (← same_row) (sym ((==_iff r.version item.version).0 same))))
              | inr q ↦
                  kept_frame table _ h (ground (arith, lookup-erase item.employee_id id table))
            ])
      | inr newer ↦ rw (delete_version, is_current, e, newer) (kept row h refl)
    ]
  ]

  -- A row that is written keeps the payload of the row before.
  Explained-written :
      {ev : Event P} (item : OutboxItem P) (f : Row P → Row P) (r : Row P) (table : Table P)
      → ((q : Row P) → (f q).payload ≡ q.payload)
      → lookup item.employee_id table ≡ some r
      → lookup id table ≡ some row
      → Explained P id row (insert item.employee_id (f r) table) ev
  Explained-written item f r table same e h =
      kept_insert item.employee_id (f r) table h (λ same_id. cc (same r, e, h, same_id))

  Explained-release :
      {ev : Event P} (item : OutboxItem P) (now : ℕ) (table : Table P)
      → lookup id table ≡ some row
      → Explained P id row (release item now table) ev
  unfolding release
  Explained-release item now table h = elim (Option-cases (lookup item.employee_id table)) [
    | inl e ↦ rw (e, release) (kept row h refl)
    | inr (r, e) ↦
        rw (e, release)
          (Explained-written item (released now) r table (λ q. unfold released in refl) e h)
  ]

  Explained-fail_version :
      {ev : Event P} (item : OutboxItem P) (error : Text) (delay now : ℕ) (table : Table P)
      → lookup id table ≡ some row
      → Explained P id row (fail_version item error delay now table) ev
  unfolding fail_version
  Explained-fail_version {ev} item error delay now table h =
      elim (Option-cases (lookup item.employee_id table)) [
        | inl e ↦ rw (e, fail_version) (kept row h refl)
        | inr (r, e) ↦
            rw (e, fail_version)
              (branches (λ m. Explained P id row m ev) (r.version == item.version)
                (Explained-written item (failed_row error delay now) r table
                  (λ q. unfold failed_row in refl) e h)
                (kept row h refl))
      ]

  Explained-release_newer :
      {ev : Event P} (item : OutboxItem P) (now : ℕ) (table : Table P)
      → lookup id table ≡ some row
      → Explained P id row (release_newer item now table) ev
  unfolding release_newer
  Explained-release_newer {ev} item now table h =
      elim (Option-cases (lookup item.employee_id table)) [
        | inl e ↦ rw (e, release_newer) (kept row h refl)
        | inr (r, e) ↦
            rw (e, release_newer)
              (branches (λ m. Explained P id row m ev)
                (not (r.version == item.version) && r.in_flight)
                (Explained-written item (released now) r table (λ q. unfold released in refl) e h)
                (kept row h refl))
      ]

-- In a safe state, a held item of the row's version has its payload.
sent_payload :
    {P : Type 0} {s : System P}
    → IsSafe P s
    → (pre : List (Held P)) (item : OutboxItem P) (until : ℕ) (post : List (Held P))
    → s.held ≡ pre ++ (item, until) ∷ post
    → (r : Row P) → lookup item.employee_id s.table ≡ some r
    → item.version ≡ r.version
    → item.payload ≡ r.payload
sent_payload {s = s} v pre item until post e r found same =
    let tracked =
      (All-remove (Tracks _ s.table) pre (item, until) post
        (subst (All (Tracks _ s.table)) e v.tracked)).1 in
    let same_row : r ≡ tracked.row = cc (found, tracked.found) in
    rw same_row (tracked.same (rw (← same_row) same))

-- If leases do not run out while their items are held, and no claim takes a row between the two
-- UPDATEs of a failed report on it, then from a reachable state a step leaves the row of an employee there with the payload it has,
-- or overwrites it with a newer payload that the step queues, or deletes it because just this
-- payload was sent. So no queued change is lost.
pub Step-Explained :
    {P : Type 0} (began : ℕ) {s t : System P} {e : Event P} (id : String) (row : Row P)
    → Reach P (start began) s
    → Step P s e t
    → lookup id s.table ≡ some row
    → Explained P id row t.table e
Step-Explained began id row r (queue s j payload) h =
    Explained-queue id row j payload s.now s.table h
Step-Explained began id row r (claim s limit lease locked positive taken) h =
    let v = Reach-IsSafe began r in
    unfold claim_due in
    let (after, found, same) =
      Explained-lease_all id row (s.now + lease) (due limit s.now locked s.table) s.table
        (All-map _ _ (λ e d. d.0) _ (due-IsDue limit s.now locked s.table v.distinct)) h in
    kept after found same
Step-Explained began id row r (delete s pre item until post e found) h =
    Explained-delete_version id row item s.table
      (sent_payload (Reach-IsSafe began r) pre item until post e) h
Step-Explained began id row r (delete_none s pre item until post e found) h =
    Explained-delete_version id row item s.table
      (sent_payload (Reach-IsSafe began r) pre item until post e) h
Step-Explained began id row r (release_sent s pre item until post e) h =
    Explained-release id row item s.now s.table h
Step-Explained began id row r (fail s pre item until post error delay e found) h =
    Explained-fail_version id row item error delay s.now s.table h
Step-Explained began id row r (fail_none s pre item until post error delay e found) h =
    Explained-fail_version id row item error delay s.now s.table h
Step-Explained began id row r (release_held s pre item until post e) h =
    Explained-release_newer id row item s.now s.table h
Step-Explained began id row r (release_failing s pre item post e) h =
    Explained-release_newer id row item s.now s.table h
Step-Explained began id row r (crash_failing s pre item post e) h = kept row h refl
Step-Explained began id row r (crash s pre item until post e) h = kept row h refl
Step-Explained began id row r (tick s later p u) h = kept row h refl
