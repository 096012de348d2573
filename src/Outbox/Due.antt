-- ===== src/Outbox/Due.antt =====
-- The rows that a claim takes, and the table after it.
use circle_core.Prelude.{
  ℕ, ◌≤◌, ◌≡◌, ◌≢◌, refl, sym, ap, Bool, true, false, ◌&&◌, not, String, some, List, [], ◌∷◌, All,
  arith, eq_iff, leb, Bool-cases, inl, inr,
}
use circle_core.Prelude.Every.{All-keep_if, All-take, All-keep_if_test, All-map, All-both}
use circle_core.Dict.{lookup, lookup-insert}
use circle_core.Dict.Distinct.{
  Lacks, Distinct, insert-Distinct, keep_if-Distinct, take-Distinct, Found, Distinct-Found,
}
use circle_core.Outbox.{Row, Table, place, by_next_attempt, due, leased, lease_all}

free_test : (early taken : Bool) → (early && not taken) ≡ true → taken ≡ false
free_test early taken h = ground arith

module _ {P : Type 0} where
  module _ (Q : String × Row P → Type 0) where
    All-place : (e : String × Row P) (l : List (String × Row P)) → Q e → All Q l → All Q (place e l)
    unfolding place
    All-place e [] q h = (q, tt)
    All-place e (f ∷ l) q h = elim (Bool-cases (leb e.1.next_attempt_at f.1.next_attempt_at)) [
      | inl c ↦ rw c (q, h)
      | inr c ↦ rw c (h.0, All-place e l q h.1)
    ]

    All-by_next_attempt : (l : List (String × Row P)) → All Q l → All Q (by_next_attempt l)
    unfolding by_next_attempt
    All-by_next_attempt [] h = tt
    All-by_next_attempt (e ∷ l) h = All-place e (by_next_attempt l) h.0 (All-by_next_attempt l h.1)

  Lacks-place :
      (k : String) (e : String × Row P) (l : Table P) → e.0 ≢ k → Lacks k l → Lacks k (place e l)
  unfolding place
  Lacks-place k e [] n h = (n, tt)
  Lacks-place k e ((j, r) ∷ l) n h = elim (Bool-cases (leb e.1.next_attempt_at r.next_attempt_at)) [
    | inl c ↦ rw c (n, h)
    | inr c ↦ rw c (h.0, Lacks-place k e l n h.1)
  ]

  Lacks-by_next_attempt : (k : String) (l : Table P) → Lacks k l → Lacks k (by_next_attempt l)
  unfolding by_next_attempt
  Lacks-by_next_attempt k [] h = tt
  Lacks-by_next_attempt k ((j, r) ∷ l) h =
      Lacks-place k (j, r) (by_next_attempt l) h.0 (Lacks-by_next_attempt k l h.1)

  Distinct-place :
      (e : String × Row P) (l : Table P) → Lacks e.0 l → Distinct l → Distinct (place e l)
  unfolding place
  Distinct-place e [] n h = (tt, tt)
  Distinct-place e ((j, r) ∷ l) n h =
      elim (Bool-cases (leb e.1.next_attempt_at r.next_attempt_at)) [
        | inl c ↦ rw c (n, h)
        | inr c ↦ rw c (Lacks-place j e l (λ p. n.0 (sym p)) h.0, Distinct-place e l n.1 h.1)
      ]

  Distinct-by_next_attempt : (l : Table P) → Distinct l → Distinct (by_next_attempt l)
  unfolding by_next_attempt
  Distinct-by_next_attempt [] h = tt
  Distinct-by_next_attempt ((k, r) ∷ l) h =
      Distinct-place (k, r) (by_next_attempt l) (Lacks-by_next_attempt k l h.0)
        (Distinct-by_next_attempt l h.1)

  due_test :
      (now : ℕ) (free : Bool) (r : Row P)
      → (leb r.next_attempt_at now && free) ≡ true
      → r.next_attempt_at ≤ now
  due_test now free r h = ground arith

  -- The chosen rows are in the table and due, and no two of them are one employee's.
  pub due-IsDue :
      (limit now : ℕ) (locked : String → Bool) (table : Table P)
      → Distinct table
      → All (λ e. Found table e × (e.1.next_attempt_at ≤ now)) (due limit now locked table)
  unfolding due
  due-IsDue limit now locked table h = All-take _ limit _ (
      All-by_next_attempt _ _ (
        All-both _ _ _ (All-keep_if _ _ table (Distinct-Found table h)) (
          All-map _ _ (λ e. due_test now (not (locked e.0)) e.1) _
            (All-keep_if_test (λ e. leb e.1.next_attempt_at now && not (locked e.0)) table))))

  All-Lacks :
      (locked : String → Bool) (k : String) (rows : Table P)
      → locked k ≡ true
      → All (λ e. locked e.0 ≡ false) rows
      → Lacks k rows
  All-Lacks locked k [] taken h = tt
  All-Lacks locked k ((j, r) ∷ rows) taken h =
      ((λ p. ground (arith, ap locked p, taken, h.0)), All-Lacks locked k rows taken h.1)

  -- A row that is locked is not chosen.
  pub due-Lacks :
      (limit now : ℕ) (locked : String → Bool) (table : Table P) (k : String)
      → locked k ≡ true
      → Lacks k (due limit now locked table)
  unfolding due
  due-Lacks limit now locked table k taken = All-Lacks locked k _ taken (
      All-take _ limit _ (
        All-by_next_attempt _ _ (
          All-map _ _ (λ e. free_test (leb e.1.next_attempt_at now) (locked e.0)) _
            (All-keep_if_test (λ e. leb e.1.next_attempt_at now && not (locked e.0)) table))))

  pub due-Distinct :
      (limit now : ℕ) (locked : String → Bool) (table : Table P)
      → Distinct table
      → Distinct (due limit now locked table)
  unfolding due
  due-Distinct limit now locked table h =
      take-Distinct limit _ (Distinct-by_next_attempt _ (keep_if-Distinct _ table h))

  pub lookup-lease_all_ne :
      (k : String) (until : ℕ) (chosen table : Table P)
      → Lacks k chosen
      → lookup k (lease_all until chosen table) ≡ lookup k table
  unfolding lease_all
  lookup-lease_all_ne k until [] table h = refl
  lookup-lease_all_ne k until ((j, r) ∷ chosen) table h = ground (
    arith,
    lookup-insert j k (leased until r) (lease_all until chosen table),
    eq_iff j k,
    lookup-lease_all_ne k until chosen table h.1,
  )

  pub lease_all-Distinct :
      (until : ℕ) (chosen table : Table P)
      → Distinct table
      → Distinct (lease_all until chosen table)
  unfolding lease_all
  lease_all-Distinct until [] table h = h
  lease_all-Distinct until ((j, r) ∷ chosen) table h =
      insert-Distinct j (leased until r) _ (lease_all-Distinct until chosen table h)

  Leased-cons :
      (until : ℕ) (j : String) (r : Row P) (chosen rest table : Table P)
      → Lacks j rest
      → All (λ e. lookup e.0 (lease_all until chosen table) ≡ some (leased until e.1)) rest
      → All
          (λ e. lookup e.0 (lease_all until ((j, r) ∷ chosen) table) ≡ some (leased until e.1))
          rest
  unfolding lease_all
  Leased-cons until j r chosen [] table n h = tt
  Leased-cons until j r chosen ((k, q) ∷ rest) table n h = (
    ground (arith, lookup-insert j k (leased until r) (lease_all until chosen table), eq_iff j k),
    Leased-cons until j r chosen rest table n.1 h.1,
  )

  pub lookup-lease_all :
      (until : ℕ) (chosen table : Table P)
      → Distinct chosen
      → All (λ e. lookup e.0 (lease_all until chosen table) ≡ some (leased until e.1)) chosen
  lookup-lease_all until [] table h = tt
  lookup-lease_all until ((j, r) ∷ chosen) table h = (
    (unfold lease_all in
        ground
          (arith, lookup-insert j j (leased until r) (lease_all until chosen table), eq_iff j j)),
    Leased-cons until j r chosen chosen table h.0 (lookup-lease_all until chosen table h.1),
  )
