-- ===== src/Cascade/Gone.antt =====
-- About the rows that are left of a candidate who was deleted.
use circle_core.Prelude.{
  ◌≡◌, refl, sym, subst, ◌∙◌, Bool, true, false, String, List, [], ◌∷◌, any, arith, str_eq, eq_iff,
  All, Bool-cases, inl, inr,
}
use circle_core.Text.{Text, text_eq, text_eq_refl, is_empty}
use circle_core.Value.{text, text_of, Fields, get}
use circle_core.Dict.{insert}
use circle_core.Resources.{Table, remove}
use circle_core.Routes.{Tables, table_of, is_among}
use circle_core.Routes.Guarded.{table_of-insert}
use circle_core.Cascade.{
  child_by_field, child_by_key, refers, is_document_of, ids_of, remove_all, sweep, sweep_tables,
  remove_keyed, delete_candidate,
}

-- Every row that matches has its key, not empty, as its identifier.
abbrev pub IsKeyed : (Fields → Bool) → Table → Type 0
IsKeyed p rows =
    All (λ row. p row.1 ≡ true → (get "id" row.1 ≡ text row.0) × (is_empty row.0 ≡ false)) rows

module _ (P : Text × Fields → Type 0) where
  All-remove : (id : Text) (rows : Table) → All P rows → All P (remove id rows)
  unfolding remove
  All-remove id [] h = tt
  All-remove id ((key, d) ∷ rows) h = elim (Bool-cases (text_eq key id)) [
    | inl e ↦ rw e (All-remove id rows h.1)
    | inr e ↦ rw e (h.0, All-remove id rows h.1)
  ]

  All-remove_all : (ids : List Text) (rows : Table) → All P rows → All P (remove_all ids rows)
  unfolding remove_all
  All-remove_all [] rows h = h
  All-remove_all (id ∷ ids) rows h = All-remove_all ids (remove id rows) (All-remove id rows h)

  All-sweep : (p : Fields → Bool) (rows : Table) → All P rows → All P (sweep p rows)
  unfolding sweep
  All-sweep p rows h = All-remove_all (ids_of p rows) rows h

-- The keys that were removed are gone.
abbrev Lacks : Text → Text × Fields → Type 0
Lacks id row = text_eq row.0 id ≡ false

remove-Lacks : (id : Text) (rows : Table) → All (Lacks id) (remove id rows)
unfolding remove
remove-Lacks id [] = tt
remove-Lacks id ((key, d) ∷ rows) = elim (Bool-cases (text_eq key id)) [
  | inl e ↦ rw e (remove-Lacks id rows)
  | inr e ↦ rw e (e, remove-Lacks id rows)
]

abbrev LacksAll : List Text → Text × Fields → Type 0
LacksAll ids row = any (text_eq row.0) ids ≡ false

All-or :
    (id : Text) (ids : List Text) (rows : Table)
    → All (Lacks id) rows
    → All (LacksAll ids) rows
    → All (LacksAll (id ∷ ids)) rows
All-or id ids [] h k = tt
All-or id ids (row ∷ rows) h k = (ground (arith, h.0, k.0), All-or id ids rows h.1 k.1)

All-LacksAll : (rows : Table) → All (LacksAll []) rows
All-LacksAll [] = tt
All-LacksAll (row ∷ rows) = (refl, All-LacksAll rows)

remove_all-LacksAll : (ids : List Text) (rows : Table) → All (LacksAll ids) (remove_all ids rows)
unfolding remove_all
remove_all-LacksAll [] rows = All-LacksAll rows
remove_all-LacksAll (id ∷ ids) rows =
    let left = remove_all ids (remove id rows) in
    All-or id ids left (All-remove_all (Lacks id) ids (remove id rows) (remove-Lacks id rows))
      (remove_all-LacksAll ids (remove id rows))

-- A row that matches has its key among some identifiers.
abbrev IsCovered : (Fields → Bool) → List Text → Text × Fields → Type 0
IsCovered p ids row = p row.1 ≡ true → any (text_eq row.0) ids ≡ true

All-IsCovered :
    (p : Fields → Bool) (id : Text) (ids : List Text) (rows : Table)
    → All (IsCovered p ids) rows
    → All (IsCovered p (id ∷ ids)) rows
All-IsCovered p id ids [] h = tt
All-IsCovered p id ids (row ∷ rows) h =
    ((λ m. ground (arith, h.0 m)), All-IsCovered p id ids rows h.1)

ids_of_match :
    (p : Fields → Bool) (key : Text) (d : Fields) (rows : Table)
    → p d ≡ true
    → get "id" d ≡ text key
    → is_empty key ≡ false
    → ids_of p ((key, d) ∷ rows) ≡ key ∷ ids_of p rows
unfolding ids_of text_of
ids_of_match p key d rows e id full = rw (e, id) (rw full refl)

ids_of_other :
    (p : Fields → Bool) (key : Text) (d : Fields) (rows : Table)
    → p d ≡ false
    → ids_of p ((key, d) ∷ rows) ≡ ids_of p rows
unfolding ids_of
ids_of_other p key d rows e = rw e refl

ids_of-IsCovered :
    (p : Fields → Bool) (rows : Table) → IsKeyed p rows → All (IsCovered p (ids_of p rows)) rows
ids_of-IsCovered p [] h = tt
ids_of-IsCovered p ((key, d) ∷ rows) h =
    let rest = ids_of-IsCovered p rows h.1 in
    elim (Bool-cases (p d)) [
      | inr e ↦
          subst (λ ids. All (IsCovered p ids) ((key, d) ∷ rows)) (sym (ids_of_other p key d rows e))
            ((λ m. ground (arith, m, e)), rest)
      | inl e ↦
          subst (λ ids. All (IsCovered p ids) ((key, d) ∷ rows))
            (sym (ids_of_match p key d rows e (h.0 e).0 (h.0 e).1))
            ((λ m. ground (arith, text_eq_refl key)), All-IsCovered p key (ids_of p rows) rows rest)
    ]

left_one :
    (p : Fields → Bool) (ids : List Text) (key : Text) (d : Fields)
    → IsCovered p ids (key, d)
    → LacksAll ids (key, d)
    → p d ≡ false
left_one p ids key d h k = elim (Bool-cases (p d)) [ inl e ↦ ground (arith, h e, k) | inr e ↦ e ]

-- What is covered and not removed does not match.
left_over :
    (p : Fields → Bool) (ids : List Text) (rows : Table)
    → All (IsCovered p ids) rows
    → All (LacksAll ids) rows
    → All (λ row. p row.1 ≡ false) rows
left_over p ids [] h k = tt
left_over p ids ((key, d) ∷ rows) h k = (left_one p ids key d h.0 k.0, left_over p ids rows h.1 k.1)

sweep_clears :
    (p : Fields → Bool) (rows : Table)
    → IsKeyed p rows
    → All (λ row. p row.1 ≡ false) (sweep p rows)
unfolding sweep
sweep_clears p rows h =
    let ids = ids_of p rows in
    left_over p ids (remove_all ids rows)
      (All-remove_all (IsCovered p ids) ids rows (ids_of-IsCovered p rows h))
      (remove_all-LacksAll ids rows)

-- A table that is written, here with what is left of it, keeps what holds of all its rows.
All-insert :
    (P : Text × Fields → Type 0) (name n : String) (t : Table) (tables : Tables)
    → All P (table_of name tables)
    → (str_eq n name ≡ true → All P t)
    → All P (table_of name (insert n t tables))
All-insert P name n t tables h k =
    subst (All P) (sym (table_of-insert name n t tables))
      (elim (Bool-cases (str_eq n name)) [ inl e ↦ rw e (k e) | inr e ↦ rw e h ])

-- All rows of a table, named again.
renamed :
    (P : Text × Fields → Type 0) (name n : String) (tables : Tables)
    → All P (table_of name tables)
    → str_eq n name ≡ true
    → All P (table_of n tables)
renamed P name n tables h e = subst (λ m. All P (table_of m tables)) (sym ((eq_iff n name).0 e)) h

module _ (P : Text × Fields → Type 0) (candidate_id : Text) (name : String) where
  All-sweep_tables :
      (names : List String) (tables : Tables)
      → All P (table_of name tables)
      → All P (table_of name (sweep_tables candidate_id names tables))
  unfolding sweep_tables
  All-sweep_tables [] tables h = h
  All-sweep_tables (n ∷ names) tables h = All-sweep_tables names _ (
      All-insert P name n (sweep (refers candidate_id) (table_of n tables)) tables h
        (λ e. All-sweep P (refers candidate_id) (table_of n tables) (renamed P name n tables h e)))

  All-remove_keyed :
      (names : List String) (tables : Tables)
      → All P (table_of name tables)
      → All P (table_of name (remove_keyed candidate_id names tables))
  unfolding remove_keyed
  All-remove_keyed [] tables h = h
  All-remove_keyed (n ∷ names) tables h = All-remove_keyed names _ (
      All-insert P name n (remove candidate_id (table_of n tables)) tables h
        (λ e. All-remove P candidate_id (table_of n tables) (renamed P name n tables h e)))

-- No row refers to the candidate.
abbrev pub IsClear : Text → Table → Type 0
IsClear candidate_id rows = All (λ row. refers candidate_id row.1 ≡ false) rows

sweep_tables-IsClear :
    (candidate_id : Text) (name : String) (names : List String) (tables : Tables)
    → is_among name names ≡ true
    → IsKeyed (refers candidate_id) (table_of name tables)
    → IsClear candidate_id (table_of name (sweep_tables candidate_id names tables))
unfolding sweep_tables is_among
sweep_tables-IsClear candidate_id name [] tables h keyed = ground (arith, h)
sweep_tables-IsClear candidate_id name (n ∷ names) tables h keyed =
    let p = refers candidate_id in
    let swept = insert n (sweep p (table_of n tables)) tables in
    let found = table_of-insert name n (sweep p (table_of n tables)) tables in
    elim (Bool-cases (str_eq n name)) [
      | inl e ↦
          let here : table_of name swept ≡ sweep p (table_of n tables) = found ∙ rw e refl in
          let keyed_n : IsKeyed p (table_of n tables) =
            renamed
              (λ row. p row.1 ≡ true → (get "id" row.1 ≡ text row.0) × (is_empty row.0 ≡ false))
              name n tables keyed e in
          All-sweep_tables (λ row. p row.1 ≡ false) candidate_id name names swept
            (subst (IsClear candidate_id) (sym here) (sweep_clears p (table_of n tables) keyed_n))
      | inr e ↦
          let there : table_of name swept ≡ table_of name tables = found ∙ rw e refl in
          sweep_tables-IsClear candidate_id name names swept (ground (arith, h, e))
            (subst (IsKeyed p) (sym there) keyed)
    ]

-- After a candidate is deleted, no row of a table that is searched refers to them, if the rows that
-- did had their key as their identifier.
pub delete_candidate-IsClear :
    (candidate_id : Text) (name : String) (tables : Tables)
    → is_among name child_by_field ≡ true
    → IsKeyed (refers candidate_id) (table_of name tables)
    → IsClear candidate_id (table_of name (delete_candidate candidate_id tables))
unfolding delete_candidate
delete_candidate-IsClear candidate_id name tables h keyed =
    let P : Text × Fields → Type 0 = λ row. refers candidate_id row.1 ≡ false in
    let swept =
      remove_keyed candidate_id child_by_key (sweep_tables candidate_id child_by_field tables) in
    let first : All P (table_of name swept) =
      All-remove_keyed P candidate_id name child_by_key
        (sweep_tables candidate_id child_by_field tables)
        (sweep_tables-IsClear candidate_id name child_by_field tables h keyed) in
    All-remove_keyed P candidate_id name ("candidates" ∷ []) _ (
      All-insert P name "documents"
        (sweep (is_document_of candidate_id) (table_of "documents" swept)) swept first
        (λ e.
          All-sweep P (is_document_of candidate_id) (table_of "documents" swept)
            (renamed P name "documents" swept first e)))
