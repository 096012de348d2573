-- ===== src/Outbox/Marks.antt =====
-- What the statements of the repository leave tracked and distinct.
use circle_core.Prelude.{
  ℕ, ◌≡◌, ◌≢◌, refl, sym, not, ◌&&◌, ◌∙◌, Bool, true, false, String, List, [], ◌∷◌, ◌++◌, All,
  arith, str_eq, eq_iff, if◌then◌else◌, Bool-cases, inl, inr, Option-cases, ◌==◌,
}
use circle_core.Dict.{lookup, insert, erase, lookup-insert, lookup-erase}
use circle_core.Dict.Distinct.{Distinct, insert-Distinct, erase-Distinct}
use circle_core.Text.{Text}
use circle_core.Outbox.{
  Row, Table, OutboxItem, enqueue, is_current, delete_version, release, fail_version, release_newer,
  replaced,
}
use circle_core.Prelude.Every.{All-remove, All-map}
use circle_core.Outbox.System.{Held, Tracks, Apart}

-- What holds on each branch of a test.
pub branches {ℓ κ} :
    {A : Type ℓ} (Q : A → Type κ) (b : Bool) {x y : A} → Q x → Q y → Q (if b then x else y)
branches Q true hx hy = hx
branches Q false hx hy = hy

module _ {P : Type 0} where
  -- A held item is tracked as before where its row is as before.
  pub Tracks-frame :
      (table table' : Table P) (h : Held P)
      → lookup h.0.employee_id table' ≡ lookup h.0.employee_id table
      → Tracks P table h
      → Tracks P table' h
  Tracks-frame table table' h e t = record {
    row = t.row;
    found = e ∙ t.found;
    newer = t.newer;
    same = t.same;
    leased = t.leased;
    marked = t.marked;
  }

  pub insert-Tracks :
      (id : String) (r : Row P) (table : Table P) (h : Held P)
      → id ≢ h.0.employee_id
      → Tracks P table h
      → Tracks P (insert id r table) h
  insert-Tracks id r table h n =
      Tracks-frame table _ h
        (ground (arith, lookup-insert id h.0.employee_id r table, eq_iff id h.0.employee_id))

  pub erase-Tracks :
      (id : String) (table : Table P) (h : Held P)
      → id ≢ h.0.employee_id
      → Tracks P table h
      → Tracks P (erase id table) h
  erase-Tracks id table h n =
      Tracks-frame table _ h
        (ground (arith, lookup-erase id h.0.employee_id table, eq_iff id h.0.employee_id))

  pub enqueue-Tracks :
      (id : String) (payload : P) (now : ℕ) (table : Table P) (h : Held P)
      → Tracks P table h
      → Tracks P (enqueue id payload now table) h
  unfolding enqueue
  enqueue-Tracks id payload now table h t = elim (Bool-cases (str_eq id h.0.employee_id)) [
    | inl e ↦
        let same_id = (eq_iff id h.0.employee_id).0 e in
        record {
          row = replaced payload now t.row;
          found =
              ground (
                arith,
                lookup-insert id h.0.employee_id (replaced payload now t.row) table,
                t.found,
              );
          newer = unfold replaced in omega (arith, t.newer);
          same = λ p. unfold replaced in absurd (omega (arith, t.newer));
          leased = unfold replaced in rw t.marked t.leased;
          marked = t.marked;
        }
    | inr e ↦ insert-Tracks id _ table h (λ p. ground (arith, eq_iff id h.0.employee_id)) t
  ]

  pub enqueue-Distinct :
      (id : String) (payload : P) (now : ℕ) (table : Table P)
      → Distinct table
      → Distinct (enqueue id payload now table)
  unfolding enqueue
  enqueue-Distinct id payload now table h = insert-Distinct id _ table h

  -- A statement of a report leaves the table as it was, or deletes the row of the item or writes it.
  pub data Touches (item : OutboxItem P) (table : Table P) : Table P → Type 0 where
    nothing : Touches item table table
    deletes : Touches item table (erase item.employee_id table)
    writes : (r : Row P) → Touches item table (insert item.employee_id r table)

  pub Touches-Distinct :
      {item : OutboxItem P} {table table' : Table P}
      → Touches item table table'
      → Distinct table
      → Distinct table'
  Touches-Distinct nothing h = h
  Touches-Distinct {item} {table} deletes h = erase-Distinct item.employee_id table h
  Touches-Distinct {item} {table} (writes r) h = insert-Distinct item.employee_id r table h

  pub Touches-Tracks :
      {item : OutboxItem P} {table table' : Table P}
      → Touches item table table'
      → (h : Held P) → item.employee_id ≢ h.0.employee_id
      → Tracks P table h
      → Tracks P table' h
  Touches-Tracks nothing h n t = t
  Touches-Tracks {item} {table} deletes h n t = erase-Tracks item.employee_id table h n t
  Touches-Tracks {item} {table} (writes r) h n t = insert-Tracks item.employee_id r table h n t

  pub delete_version-Touches :
      (item : OutboxItem P) (table : Table P) → Touches item table (delete_version item table)
  unfolding delete_version
  delete_version-Touches item table =
      branches (Touches item table) (is_current item table) deletes nothing

  pub release-Touches :
      (item : OutboxItem P) (now : ℕ) (table : Table P)
      → Touches item table (release item now table)
  unfolding release
  release-Touches item now table = elim (Option-cases (lookup item.employee_id table)) [
    | inl e ↦ rw (e, release) nothing
    | inr (r, e) ↦ rw (e, release) (writes _)
  ]

  pub fail_version-Touches :
      (item : OutboxItem P) (error : Text) (delay now : ℕ) (table : Table P)
      → Touches item table (fail_version item error delay now table)
  unfolding fail_version
  fail_version-Touches item error delay now table =
      elim (Option-cases (lookup item.employee_id table)) [
        | inl e ↦ rw (e, fail_version) nothing
        | inr (r, e) ↦
            rw (e, fail_version)
              (branches (Touches item table) (r.version == item.version) (writes _) nothing)
      ]

  pub release_newer-Touches :
      (item : OutboxItem P) (now : ℕ) (table : Table P)
      → Touches item table (release_newer item now table)
  unfolding release_newer
  release_newer-Touches item now table = elim (Option-cases (lookup item.employee_id table)) [
    | inl e ↦ rw (e, release_newer) nothing
    | inr (r, e) ↦
        rw (e, release_newer)
          (branches (Touches item table) (not (r.version == item.version) && r.in_flight) (writes _)
            nothing)
  ]

  -- A statement that finds no row of its version changes nothing.
  pub delete_version_none :
      (item : OutboxItem P) (table : Table P)
      → is_current item table ≡ false
      → delete_version item table ≡ table
  unfolding delete_version
  delete_version_none item table h = rw h refl

  pub fail_version_none :
      (item : OutboxItem P) (error : Text) (delay now : ℕ) (table : Table P)
      → is_current item table ≡ false
      → fail_version item error delay now table ≡ table
  unfolding fail_version is_current
  fail_version_none item error delay now table h =
      elim (Option-cases (lookup item.employee_id table)) [
        | inl e ↦ rw (e, fail_version) refl
        | inr (r, e) ↦
            let other : (r.version == item.version) ≡ false = rw (is_current, e) at h in
            rw (e, fail_version, other) refl
      ]

  -- Taking one item out of those held.
  pub Apart-remove :
      (pre : List (Held P)) (item : OutboxItem P) (until : ℕ) (post : List (Held P))
      → Apart (pre ++ (item, until) ∷ post)
      → Apart (pre ++ post) × All (λ h. item.employee_id ≢ h.0.employee_id) (pre ++ post)
  Apart-remove [] item until post a = (a.1, All-map _ _ (λ h n p. n (sym p)) post a.0)
  Apart-remove (g ∷ pre) item until post a =
      let (apart, others) = Apart-remove pre item until post a.1 in
      let (unshared, other) =
        All-remove (λ h. h.0.employee_id ≡ g.0.employee_id → ⊥) pre (item, until) post a.0 in
      ((unshared, apart), (other, others))

  pub Tracks-removed :
      (table' table : Table P) (id : String) (held : List (Held P))
      → ((h : Held P) → id ≢ h.0.employee_id → Tracks P table h → Tracks P table' h)
      → All (λ h. id ≢ h.0.employee_id) held
      → All (Tracks P table) held
      → All (Tracks P table') held
  Tracks-removed table' table id [] f n t = tt
  Tracks-removed table' table id (h ∷ held) f n t =
      (f h n.0 t.0, Tracks-removed table' table id held f n.1 t.1)
