-- ===== src/Outbox/Safety.antt =====
-- Every reachable state is safe.
use circle_core.Prelude.{ℕ, ◌+◌, ◌<◌, ◌≡◌, sym, true, Bool, String, List, ◌∷◌, ◌++◌, All}
use circle_core.Outbox.{Table, OutboxItem, claim_due, due}
use circle_core.Prelude.Every.{All-append, All-remove, All-map, All-both}
use circle_core.Outbox.Due.{
  due-IsDue, due-Lacks, due-Distinct, lease_all-Distinct, lookup-lease_all,
}
use circle_core.Outbox.Marks.{
  enqueue-Tracks, enqueue-Distinct, Touches, nothing, Touches-Distinct, Touches-Tracks,
  delete_version-Touches, release-Touches, fail_version-Touches, release_newer-Touches,
  delete_version_none, fail_version_none, Apart-remove, Tracks-removed,
}
use circle_core.Outbox.Claims.{
  leased-Tracks, leased_unexpired, Unshared-leased, Apart-leased, held-Tracks, chosen-Unshared,
}
use mathlib.Core.Path.{subst}
use circle_core.Outbox.System.{
  Held, System, Event, hold, Step, queue, claim, delete, delete_none, release_sent, fail, fail_none,
  release_held, release_failing, crash_failing, crash, tick, start, Reach, here, next, Tracks,
  Unshared, Apart, IsSafe,
}

module _ {P : Type 0} where
  start-IsSafe : (now : ℕ) → IsSafe P (start now)
  start-IsSafe now = record {
    distinct = tt;
    tracked = tt;
    unexpired = tt;
    apart = tt;
    released = tt;
  }

  claim-IsSafe :
      (s : System P) (limit lease : ℕ) (locked : String → Bool)
      → 0 < lease
      → All (λ i. locked i.employee_id ≡ true) s.failing
      → IsSafe P s
      → IsSafe P (record s {
        table = (claim_due limit lease s.now locked s.table).1;
        held = hold (s.now + lease) (claim_due limit lease s.now locked s.table).0 ++ s.held;
      })
  unfolding claim_due
  claim-IsSafe s limit lease locked positive taken v =
      let chosen = due limit s.now locked s.table in
      let distinct = due-Distinct limit s.now locked s.table v.distinct in
      let unshared =
        chosen-Unshared s.now s.table chosen s.held
          (due-IsDue limit s.now locked s.table v.distinct) v.tracked v.unexpired in
      record {
        distinct = lease_all-Distinct (s.now + lease) chosen s.table v.distinct;
        tracked =
            All-append _ _ s.held
              (leased-Tracks s.now lease positive s.table chosen chosen
                (lookup-lease_all (s.now + lease) chosen s.table distinct))
              (held-Tracks s.now lease positive s.table chosen s.held unshared v.tracked);
        unexpired =
            All-append _ _ s.held (leased_unexpired s.now lease positive s.table chosen chosen)
              v.unexpired;
        apart =
            Apart-leased s.now lease positive s.table chosen chosen s.held distinct unshared
              v.apart;
        released =
            All-map _ _
              (λ i h.
                All-append _ _ s.held
                  (Unshared-leased s.now lease positive s.table chosen i.employee_id chosen
                    (due-Lacks limit s.now locked s.table i.employee_id h.0))
                  h.1)
              s.failing (All-both _ _ s.failing taken v.released);
      }

  Unshared-removed :
      (pre : List (Held P)) (x : Held P) (post : List (Held P)) (failing : List (OutboxItem P))
      → All (λ i. Unshared i.employee_id (pre ++ x ∷ post)) failing
      → All (λ i. Unshared i.employee_id (pre ++ post)) failing
  Unshared-removed pre x post failing h =
      All-map _ _ (λ i u. (All-remove _ pre x post u).0) failing h

  -- Whatever is done to the row of an item that is no longer held.
  removed-IsSafe :
      (s : System P) (table' : Table P) (pre : List (Held P)) (item : OutboxItem P) (until : ℕ)
      (post : List (Held P))
      → s.held ≡ pre ++ (item, until) ∷ post
      → Touches item s.table table'
      → IsSafe P s
      → IsSafe P (record s { table = table'; held = pre ++ post })
  removed-IsSafe s table' pre item until post e d v =
      let (apart, others) = Apart-remove pre item until post (subst Apart e v.apart) in
      record {
        distinct = Touches-Distinct d v.distinct;
        tracked =
            Tracks-removed table' s.table item.employee_id _ (Touches-Tracks d) others
              (All-remove _ pre (item, until) post (subst (All (Tracks P s.table)) e v.tracked)).0;
        unexpired =
            (All-remove _ pre (item, until) post (subst (All (λ h. s.now < h.1)) e v.unexpired)).0;
        apart = apart;
        released =
            Unshared-removed pre (item, until) post s.failing
              (subst (λ held. All (λ i. Unshared i.employee_id held) s.failing) e v.released);
      }

  -- The item's first UPDATE found its row: it is nobody's until the second.
  failing-IsSafe :
      (s : System P) (table' : Table P) (pre : List (Held P)) (item : OutboxItem P) (until : ℕ)
      (post : List (Held P))
      → s.held ≡ pre ++ (item, until) ∷ post
      → Touches item s.table table'
      → IsSafe P s
      → IsSafe P (record s { table = table'; held = pre ++ post; failing = item ∷ s.failing })
  failing-IsSafe s table' pre item until post e d v =
      let w = removed-IsSafe s table' pre item until post e d v in
      let others = (Apart-remove pre item until post (subst Apart e v.apart)).1 in
      record {
        distinct = w.distinct;
        tracked = w.tracked;
        unexpired = w.unexpired;
        apart = w.apart;
        released = (All-map _ _ (λ h n p. n (sym p)) _ others, w.released);
      }

  -- A statement that changed nothing.
  unchanged-IsSafe :
      (s : System P) (table' : Table P)
      → table' ≡ s.table
      → IsSafe P s
      → IsSafe P (record s { table = table' })
  unchanged-IsSafe s table' e v = subst (λ t. IsSafe P (record s { table = t })) (sym e) v

  finished-IsSafe :
      (s : System P) (table' : Table P) (pre : List (OutboxItem P)) (item : OutboxItem P)
      (post : List (OutboxItem P))
      → s.failing ≡ pre ++ item ∷ post
      → Touches item s.table table'
      → IsSafe P s
      → IsSafe P (record s { table = table'; failing = pre ++ post })
  finished-IsSafe s table' pre item post e d v =
      let (left, unshared) =
        All-remove (λ i. Unshared i.employee_id s.held) pre item post
          (subst (All (λ i. Unshared i.employee_id s.held)) e v.released) in
      record {
        distinct = Touches-Distinct d v.distinct;
        tracked =
            Tracks-removed table' s.table item.employee_id s.held (Touches-Tracks d)
              (All-map _ _ (λ h n p. n (sym p)) s.held unshared) v.tracked;
        unexpired = v.unexpired;
        apart = v.apart;
        released = left;
      }

  Step-IsSafe : {s t : System P} {e : Event P} → Step P s e t → IsSafe P s → IsSafe P t
  Step-IsSafe (queue s id payload) v = record {
    distinct = enqueue-Distinct id payload s.now s.table v.distinct;
    tracked = All-map _ _ (enqueue-Tracks id payload s.now s.table) s.held v.tracked;
    unexpired = v.unexpired;
    apart = v.apart;
    released = v.released;
  }
  Step-IsSafe (claim s limit lease locked positive taken) v =
      claim-IsSafe s limit lease locked positive taken v
  Step-IsSafe (delete s pre item until post e found) v =
      removed-IsSafe s _ pre item until post e (delete_version-Touches item s.table) v
  Step-IsSafe (delete_none s pre item until post e none_found) v =
      unchanged-IsSafe s _ (delete_version_none item s.table none_found) v
  Step-IsSafe (release_sent s pre item until post e) v =
      removed-IsSafe s _ pre item until post e (release-Touches item s.now s.table) v
  Step-IsSafe (fail s pre item until post error delay e found) v =
      failing-IsSafe s _ pre item until post e (fail_version-Touches item error delay s.now s.table)
        v
  Step-IsSafe (fail_none s pre item until post error delay e none_found) v =
      unchanged-IsSafe s _ (fail_version_none item error delay s.now s.table none_found) v
  Step-IsSafe (release_held s pre item until post e) v =
      removed-IsSafe s _ pre item until post e (release_newer-Touches item s.now s.table) v
  Step-IsSafe (release_failing s pre item post e) v =
      finished-IsSafe s _ pre item post e (release_newer-Touches item s.now s.table) v
  Step-IsSafe (crash_failing s pre item post e) v = finished-IsSafe s _ pre item post e nothing v
  Step-IsSafe (crash s pre item until post e) v = removed-IsSafe s _ pre item until post e nothing v
  Step-IsSafe (tick s later p u) v = record {
    distinct = v.distinct;
    tracked = v.tracked;
    unexpired = u;
    apart = v.apart;
    released = v.released;
  }

  -- If leases do not run out while their items are held, and no claim takes a row between the two
  -- UPDATEs of a failed report on it, then in every state that is reached from an empty outbox no
  -- employee has two items out for delivery, and the row of each item that is out is on an unexpired
  -- lease and holds the item's payload or a later version.
  pub Reach-IsSafe : (now : ℕ) {s : System P} → Reach P (start now) s → IsSafe P s
  Reach-IsSafe now here = start-IsSafe now
  Reach-IsSafe now (next r st) = Step-IsSafe st (Reach-IsSafe now r)
