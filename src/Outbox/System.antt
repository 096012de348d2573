-- ===== src/Outbox/System.antt =====
-- The outbox among its workers: requests queue changes, workers claim batches, send them and
-- report, statement by statement, crash, and time passes.
use circle_core.Prelude.{
  ℕ, ◌+◌, ◌≤◌, ◌<◌, ◌≡◌, Bool, true, false, String, some, List, [], ◌∷◌, ◌++◌, map, All,
}
use circle_core.Dict.{lookup}
use circle_core.Dict.Distinct.{Distinct}
use circle_core.Text.{Text}
use circle_core.Outbox.{
  Row, Table, OutboxItem, enqueue, claim_due, is_current, delete_version, release, fail_version,
  release_newer,
}

-- An item that a worker holds, with the moment at which its lease ends.
abbrev pub Held : Type 0 → Type 0
Held P = OutboxItem P × ℕ

pub record System (P : Type 0) : Type 0 where
  pub table : Table P
  pub held : List (Held P)
  pub failing : List (OutboxItem P)
  pub now : ℕ

pub data Event (P : Type 0) : Type 0 where
  enqueued : String → P → Event P
  sent : OutboxItem P → Event P
  quiet : Event P

abbrev pub hold : {P : Type 0} → ℕ → List (OutboxItem P) → List (Held P)
hold until = map (λ i. (i, until))

-- Every SQL statement is a step of its own, since each commits by itself; between the two of a
-- report anything else may come, but for two premises. A worker that holds an item acts on it before
-- its lease ends, or crashes: the premise of `tick`, which is what the length of the lease is chosen
-- for. And between the two UPDATEs of a failed report no claim takes the row, as if the first still
-- locked it: the premise of `claim`. `failing` has the items whose first UPDATE found its row; a
-- report whose first statement found none keeps its item in `held` until its second. A holder may
-- run a second statement without the first here, which only makes for more runs.
pub data Step (P : Type 0) : System P → Event P → System P → Type 0 where
  queue :
      (s : System P) (id : String) (payload : P)
      → Step P s (enqueued id payload) (record s { table = enqueue id payload s.now s.table })
  claim :
      (s : System P) (limit lease : ℕ) (locked : String → Bool)
      → 0 < lease
      → All (λ i. locked i.employee_id ≡ true) s.failing
      → Step P s quiet (record s {
        table = (claim_due limit lease s.now locked s.table).1;
        held = hold (s.now + lease) (claim_due limit lease s.now locked s.table).0 ++ s.held;
      })
  delete :
      (s : System P) (pre : List (Held P)) (item : OutboxItem P) (until : ℕ) (post : List (Held P))
      → s.held ≡ pre ++ (item, until) ∷ post
      → is_current item s.table ≡ true
      → Step P s (sent item) (record s { table = delete_version item s.table; held = pre ++ post })
  delete_none :
      (s : System P) (pre : List (Held P)) (item : OutboxItem P) (until : ℕ) (post : List (Held P))
      → s.held ≡ pre ++ (item, until) ∷ post
      → is_current item s.table ≡ false
      → Step P s (sent item) (record s { table = delete_version item s.table })
  release_sent :
      (s : System P) (pre : List (Held P)) (item : OutboxItem P) (until : ℕ) (post : List (Held P))
      → s.held ≡ pre ++ (item, until) ∷ post
      → Step P s quiet (record s { table = release item s.now s.table; held = pre ++ post })
  fail :
      (s : System P) (pre : List (Held P)) (item : OutboxItem P) (until : ℕ) (post : List (Held P))
      (error : Text) (delay : ℕ)
      → s.held ≡ pre ++ (item, until) ∷ post
      → is_current item s.table ≡ true
      → Step P s quiet (record s {
        table = fail_version item error delay s.now s.table;
        held = pre ++ post;
        failing = item ∷ s.failing;
      })
  fail_none :
      (s : System P) (pre : List (Held P)) (item : OutboxItem P) (until : ℕ) (post : List (Held P))
      (error : Text) (delay : ℕ)
      → s.held ≡ pre ++ (item, until) ∷ post
      → is_current item s.table ≡ false
      → Step P s quiet (record s { table = fail_version item error delay s.now s.table })
  release_held :
      (s : System P) (pre : List (Held P)) (item : OutboxItem P) (until : ℕ) (post : List (Held P))
      → s.held ≡ pre ++ (item, until) ∷ post
      → Step P s quiet (record s { table = release_newer item s.now s.table; held = pre ++ post })
  release_failing :
      (s : System P) (pre : List (OutboxItem P)) (item : OutboxItem P) (post : List (OutboxItem P))
      → s.failing ≡ pre ++ item ∷ post
      → Step P s quiet
          (record s { table = release_newer item s.now s.table; failing = pre ++ post })
  crash_failing :
      (s : System P) (pre : List (OutboxItem P)) (item : OutboxItem P) (post : List (OutboxItem P))
      → s.failing ≡ pre ++ item ∷ post
      → Step P s quiet (record s { failing = pre ++ post })
  crash :
      (s : System P) (pre : List (Held P)) (item : OutboxItem P) (until : ℕ) (post : List (Held P))
      → s.held ≡ pre ++ (item, until) ∷ post
      → Step P s quiet (record s { held = pre ++ post })
  tick :
      (s : System P) (later : ℕ)
      → s.now ≤ later
      → All (λ h. later < h.1) s.held
      → Step P s quiet (record s { now = later })

abbrev pub start : {P : Type 0} → ℕ → System P
start now = record { table = []; held = []; failing = []; now = now }

pub data Reach (P : Type 0) (s : System P) : System P → Type 0 where
  here : Reach P s s
  next : {t u : System P} {e : Event P} → Reach P s t → Step P t e u → Reach P s u

-- The row of a held item is there, on lease; it has the item's payload or a later version.
pub record Tracks (P : Type 0) (table : Table P) (h : Held P) : Type 0 where
  pub row : Row P
  pub found : lookup h.0.employee_id table ≡ some row
  pub newer : h.0.version ≤ row.version
  pub same : h.0.version ≡ row.version → h.0.payload ≡ row.payload
  pub leased : row.next_attempt_at ≡ h.1
  pub marked : row.in_flight ≡ true

-- No employee has two held items.
abbrev pub Unshared : {P : Type 0} → String → List (Held P) → Type 0
Unshared id = All (λ h. h.0.employee_id ≡ id → ⊥)

abbrev pub Apart : {P : Type 0} → List (Held P) → Type 0
Apart [] = Unit
Apart (h ∷ held) = Unshared h.0.employee_id held × Apart held

pub record IsSafe (P : Type 0) (s : System P) : Type 0 where
  pub distinct : Distinct s.table
  pub tracked : All (Tracks P s.table) s.held
  pub unexpired : All (λ h. s.now < h.1) s.held
  pub apart : Apart s.held
  pub released : All (λ i. Unshared i.employee_id s.held) s.failing
