-- ===== src/Outbox.antt =====
-- app/repositories/identity_outbox_repository.py and the delivery of app/services/identity_sync.py:
-- the queue of employee changes. Each SQL statement of the repository is one function on the table,
-- and a method of two statements, which commit one by one, is their composition; `now()` is an
-- argument, in seconds. `P` is the type of payloads.
pub mod Retry
pub mod System
mod Due
mod Marks
mod Claims
pub mod Safety
pub mod Lost
pub mod Stale
pub mod Race
mod Examples
use circle_core.Prelude.{
  ℕ, suc, ◌+◌, ◌*◌, ◌^◌, Bool, true, false, ◌&&◌, not, String, Option, none, some, List, [], ◌∷◌,
  map, leb, ltb, ◌==◌, if◌then◌else◌, keep_if, take, any, str_eq,
}
use circle_core.Dict.{Dict, lookup, insert, erase}
use circle_core.Text.{Text}

pub record Row (P : Type 0) : Type 0 where
  pub payload : P
  pub version : ℕ
  pub attempts : ℕ
  pub in_flight : Bool
  pub next_attempt_at : ℕ
  pub last_error : Option Text
  pub updated_at : ℕ

abbrev pub Table : Type 0 → Type 0
Table P = Dict (Row P)

pub record OutboxItem (P : Type 0) : Type 0 where
  pub employee_id : String
  pub payload : P
  pub version : ℕ
  pub attempts : ℕ

abbrev pub max_error_chars : ℕ
max_error_chars = 500

abbrev pub claim_batch_size : ℕ
claim_batch_size = 10

abbrev pub claim_lease_seconds : ℕ
claim_lease_seconds = 600

module _ {P : Type 0} where
  -- The row that `enqueue` writes over an older one: an older version that is being sent keeps
  -- its lease.
  replaced : P → ℕ → Row P → Row P
  replaced payload now r = record {
    payload = payload;
    version = r.version + 1;
    attempts = 0;
    in_flight = r.in_flight;
    next_attempt_at = if r.in_flight then r.next_attempt_at else now;
    last_error = none;
    updated_at = now;
  }

  fresh_row : P → ℕ → Row P
  fresh_row payload now = record {
    payload = payload;
    version = 1;
    attempts = 0;
    in_flight = false;
    next_attempt_at = now;
    last_error = none;
    updated_at = now;
  }

  -- INSERT ... ON CONFLICT (employee_id) DO UPDATE
  unfoldable pub enqueue : String → P → ℕ → Table P → Table P
  unfolding replaced fresh_row
  enqueue id payload now table =
      insert id
        (elim (lookup id table) [ none ↦ fresh_row payload now | some r ↦ replaced payload now r ])
        table

  -- ORDER BY next_attempt_at
  place : String × Row P → List (String × Row P) → List (String × Row P)
  place e [] = e ∷ []
  place e (f ∷ rows) =
      if leb e.1.next_attempt_at f.1.next_attempt_at then e ∷ f ∷ rows else f ∷ place e rows

  by_next_attempt : List (String × Row P) → List (String × Row P)
  unfolding place
  by_next_attempt [] = []
  by_next_attempt (e ∷ rows) = place e (by_next_attempt rows)

  -- The rows that the inner SELECT takes; a row that another claim has locked is skipped.
  pub due : ℕ → ℕ → (String → Bool) → Table P → List (String × Row P)
  unfolding by_next_attempt
  due limit now locked table =
      take limit
        (by_next_attempt (keep_if (λ e. leb e.1.next_attempt_at now && not (locked e.0)) table))

  pub leased : ℕ → Row P → Row P
  leased until r = record r { next_attempt_at = until; in_flight = true }

  pub item_of : String × Row P → OutboxItem P
  item_of e = record {
    employee_id = e.0;
    payload = e.1.payload;
    version = e.1.version;
    attempts = e.1.attempts;
  }

  -- UPDATE ... WHERE employee_id IN (...): each chosen row gets the lease.
  pub lease_all : ℕ → List (String × Row P) → Table P → Table P
  unfolding leased
  lease_all until [] table = table
  lease_all until ((id, r) ∷ chosen) table =
      insert id (leased until r) (lease_all until chosen table)

  -- `claim_due`: the items returned, and the table after.
  pub claim_due : ℕ → ℕ → ℕ → (String → Bool) → Table P → List (OutboxItem P) × Table P
  unfolding item_of lease_all
  claim_due limit lease now locked table =
      let chosen = due limit now locked table in
      (map item_of chosen, lease_all (now + lease) chosen table)

  released : ℕ → Row P → Row P
  released now r = record r { in_flight = false; next_attempt_at = now }

  -- WHERE employee_id = :id AND version = :version: whether a statement finds such a row.
  unfoldable pub is_current : OutboxItem P → Table P → Bool
  is_current item table = elim (lookup item.employee_id table) [
    | none ↦ false
    | some r ↦ r.version == item.version
  ]

  -- The DELETE of `mark_delivered`, whose `rowcount` is one if `is_current`.
  unfoldable pub delete_version : OutboxItem P → Table P → Table P
  unfolding is_current
  delete_version item table = if is_current item table then erase item.employee_id table else table

  -- Its UPDATE.
  unfoldable pub release : OutboxItem P → ℕ → Table P → Table P
  unfolding released
  release item now table = elim (lookup item.employee_id table) [
    | none ↦ table
    | some r ↦ insert item.employee_id (released now r) table
  ]

  -- The method, when nothing comes between its statements: DELETE the version that was sent; if
  -- that deletes nothing, let a newer one go now.
  unfoldable pub mark_delivered : OutboxItem P → ℕ → Table P → Table P
  unfolding is_current delete_version release
  mark_delivered item now table =
      let rest = delete_version item table in
      if is_current item table then rest else release item now rest

  failed_row : Text → ℕ → ℕ → Row P → Row P
  failed_row error delay now r = record r {
    attempts = r.attempts + 1;
    in_flight = false;
    next_attempt_at = now + delay;
    last_error = some (take max_error_chars error);
    updated_at = now;
  }

  -- The first UPDATE of `mark_failed`, on the version that failed.
  unfoldable pub fail_version : OutboxItem P → Text → ℕ → ℕ → Table P → Table P
  unfolding failed_row
  fail_version item error delay now table = elim (lookup item.employee_id table) [
    | none ↦ table
    | some r ↦
        if r.version == item.version
        then insert item.employee_id (failed_row error delay now r) table
        else table
  ]

  -- The second UPDATE, on another version that is marked.
  unfoldable pub release_newer : OutboxItem P → ℕ → Table P → Table P
  unfolding released
  release_newer item now table = elim (lookup item.employee_id table) [
    | none ↦ table
    | some r ↦
        if not (r.version == item.version) && r.in_flight
        then insert item.employee_id (released now r) table
        else table
  ]

  -- The method, when nothing comes between them.
  unfoldable pub mark_failed : OutboxItem P → Text → ℕ → ℕ → Table P → Table P
  unfolding fail_version release_newer
  mark_failed item error delay now table =
      release_newer item now (fail_version item error delay now table)

-- `min`
smaller : ℕ → ℕ → ℕ
smaller a b = if ltb b a then b else a

pub retry_delay_seconds : ℕ → ℕ
unfolding smaller
retry_delay_seconds attempts = smaller (30 * 2 ^ smaller attempts 16) 3600

-- `send` stands for the client: the moment at which it answers, and `none` or the text of the
-- `IdentitySyncError` that it raises.
module _ {P : Type 0} (send : OutboxItem P → ℕ × Option Text) where
  -- `_deliver`
  settle : OutboxItem P → ℕ × Option Text → Table P → Bool × Table P
  settle item (now, none) table = (true, mark_delivered item now table)
  settle item (now, some error) table =
      (false, mark_failed item error (retry_delay_seconds item.attempts) now table)

  deliver : OutboxItem P → Table P → Bool × Table P
  unfolding settle
  deliver item table = settle item (send item) table

  deliver_all : List (OutboxItem P) → Table P → ℕ × Table P
  unfolding deliver
  deliver_all [] table = (0, table)
  deliver_all (item ∷ items) table =
      let (ok, table') = deliver item table in
      let (count, table'') = deliver_all items table' in ((if ok then 1 else 0) + count, table'')

  -- `deliver_due`, with a client: one batch, and how many were delivered.
  pub deliver_due : ℕ → (String → Bool) → Table P → ℕ × Table P
  unfolding deliver_all
  deliver_due now locked table =
      let (items, table') = claim_due claim_batch_size claim_lease_seconds now locked table in
      deliver_all items table'
