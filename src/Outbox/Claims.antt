-- ===== src/Outbox/Claims.antt =====
-- A claim: what it returns is tracked, and nobody else's.
use circle_core.Prelude.{
  ℕ, ◌+◌, ◌≤◌, ◌<◌, ◌≡◌, refl, sym, ap, String, some, List, [], ◌∷◌, ◌++◌, map, All, arith,
}
use circle_core.Dict.{lookup}
use circle_core.Dict.Distinct.{Lacks, Distinct, Found}
use circle_core.Outbox.{Row, Table, leased, item_of, lease_all}
use circle_core.Prelude.Every.{All-append, All-map}
use circle_core.Outbox.Due.{lookup-lease_all_ne}
use circle_core.Outbox.Marks.{Tracks-frame}
use circle_core.Outbox.System.{Held, hold, Tracks, Unshared, Apart}

module _ {P : Type 0} where
  module _ (now lease : ℕ) (positive : 0 < lease) (table : Table P) (chosen : Table P) where
    pub leased-Tracks :
        (rest : Table P)
        → All
            (λ e.
              lookup e.0 (lease_all (now + lease) chosen table) ≡ some (leased (now + lease) e.1))
            rest
        → All
            (Tracks P (lease_all (now + lease) chosen table))
            (hold (now + lease) (map item_of rest))
    unfolding item_of
    leased-Tracks [] h = tt
    leased-Tracks ((id, r) ∷ rest) h = (
      record {
        row = leased (now + lease) r;
        found = h.0;
        newer = unfold leased in omega arith;
        same = λ p. unfold leased in refl;
        leased = unfold leased in refl;
        marked = unfold leased in refl;
      },
      leased-Tracks rest h.1,
    )

    pub leased_unexpired :
        (rest : Table P) → All (λ h. now < h.1) (hold (now + lease) (map item_of rest))
    leased_unexpired [] = tt
    leased_unexpired (e ∷ rest) = (omega arith, leased_unexpired rest)

    pub Unshared-leased :
        (k : String) (rest : Table P)
        → Lacks k rest
        → Unshared k (hold (now + lease) (map item_of rest))
    unfolding item_of
    Unshared-leased k [] h = tt
    Unshared-leased k (e ∷ rest) h = (h.0, Unshared-leased k rest h.1)

    pub Apart-leased :
        (rest : Table P) (held : List (Held P))
        → Distinct rest
        → All (λ e. Unshared e.0 held) rest
        → Apart held
        → Apart (hold (now + lease) (map item_of rest) ++ held)
    unfolding item_of
    Apart-leased [] held d u a = a
    Apart-leased (e ∷ rest) held d u a = (
      All-append (λ h. h.0.employee_id ≡ e.0 → ⊥) _ held (Unshared-leased e.0 rest d.0) u.0,
      Apart-leased rest held d.1 u.1 a,
    )

    -- A row that is due is nobody's: what is held is on lease.
    pub due-Unshared :
        (e : String × Row P) (held : List (Held P))
        → Found table e
        → e.1.next_attempt_at ≤ now
        → All (Tracks P table) held
        → All (λ h. now < h.1) held
        → Unshared e.0 held
    due-Unshared e [] f d t u = tt
    due-Unshared e (h ∷ held) f d t u = (
      (λ p.
          let tracked = t.0 in
          let here_too : lookup e.0 table ≡ some tracked.row = rw (← p) tracked.found in
          let same_row : e.1 ≡ tracked.row = cc (f, here_too) in
          let late = ap (λ (r : Row P). r.next_attempt_at) same_row in
          absurd (omega (arith, late, tracked.leased, u.0))),
      due-Unshared e held f d t.1 u.1,
    )

    pub Lacks-Unshared :
        (h : Held P) (held : List (Held P)) (rest : Table P)
        → All (λ e. Unshared e.0 (h ∷ held)) rest
        → Lacks h.0.employee_id rest
    Lacks-Unshared h held [] v = tt
    Lacks-Unshared h held (e ∷ rest) v = ((λ p. v.0.0 (sym p)), Lacks-Unshared h held rest v.1)

    pub held-Tracks :
        (held : List (Held P))
        → All (λ e. Unshared e.0 held) chosen
        → All (Tracks P table) held
        → All (Tracks P (lease_all (now + lease) chosen table)) held
    held-Tracks [] u t = tt
    held-Tracks (h ∷ held) u t = (
      Tracks-frame table _ h
          (lookup-lease_all_ne h.0.employee_id (now + lease) chosen table
            (Lacks-Unshared h held chosen u))
          t.0,
      held-Tracks held (All-map _ _ (λ e v. v.1) chosen u) t.1,
    )

  pub chosen-Unshared :
      (now : ℕ) (table chosen : Table P) (held : List (Held P))
      → All (λ e. Found table e × (e.1.next_attempt_at ≤ now)) chosen
      → All (Tracks P table) held
      → All (λ h. now < h.1) held
      → All (λ e. Unshared e.0 held) chosen
  chosen-Unshared now table [] held d t u = tt
  chosen-Unshared now table (e ∷ chosen) held d t u = (
    due-Unshared now 1 (omega arith) table [] e held d.0.0 d.0.1 t u,
    chosen-Unshared now table chosen held d.1 t u,
  )
