-- ===== src/Calls/Table.antt =====
-- The table of calls: what is read after a write, and that a row has one identifier.
use circle_core.Prelude.{
  ◌≡◌, refl, Bool, none, some, List, [], ◌∷◌, if◌then◌else◌, find, arith, Bool-cases, inl, inr,
}
use circle_core.Text.{Text, text_eq, text_eq_iff, text_eq_refl}
use circle_core.Calls.{Call, row, upsert}

pub row-upsert :
    (c : Call) (cs : List Call) (id : Text)
    → row id (upsert c cs) ≡ (if text_eq c.id id then some c else row id cs)
unfolding row upsert
row-upsert c [] id = refl
row-upsert c (d ∷ cs) id =
    ground
      (arith, row-upsert c cs id, text_eq_iff d.id c.id, text_eq_iff d.id id, text_eq_iff c.id id)

-- No two rows have one identifier.
abbrev pub Distinct : List Call → Type 0
Distinct [] = Unit
Distinct (c ∷ cs) = (row c.id cs ≡ none) × Distinct cs

pub row-id : (id : Text) (cs : List Call) (c : Call) → row id cs ≡ some c → c.id ≡ id
unfolding row
row-id id [] c h = ground arith
row-id id (d ∷ cs) c h = ground (arith, row-id id cs c, text_eq_iff d.id id)

pub upsert-Distinct : (c : Call) (cs : List Call) → Distinct cs → Distinct (upsert c cs)
unfolding row upsert
upsert-Distinct c [] h = (refl, tt)
upsert-Distinct c (d ∷ cs) h = elim (Bool-cases (text_eq d.id c.id)) [
  | inl e ↦ rw e (ground (arith, h, text_eq_iff d.id c.id), h.1)
  | inr e ↦ rw e (
    ground (arith, h, row-upsert c cs d.id, text_eq_iff d.id c.id, text_eq_iff c.id d.id),
    upsert-Distinct c cs h.1,
  )
]

-- What is found by any test is what is read by its identifier.
pub find-row :
    (p : Call → Bool) (cs : List Call) (c : Call)
    → Distinct cs
    → find p cs ≡ some c
    → row c.id cs ≡ some c
unfolding row
find-row p [] c d h = ground arith
find-row p (x ∷ cs) c d h =
    ground (arith, d, find-row p cs c d.1, text_eq_iff x.id c.id, text_eq_refl x.id)
