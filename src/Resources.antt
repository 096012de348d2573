-- ===== src/Resources.antt =====
-- app/services/resource_service.py over app/repositories/document_repository.py: a table of documents
-- under their ids, in the order in which they were made. The database is taken to answer; a document
-- comes back from it as it was saved.
pub mod Laws
use circle_core.Prelude.{
  ℕ, Bool, true, false, Option, none, some, List, [], ◌∷◌, if◌then◌else◌, map, take, drop, String,
}
use circle_core.Text.{Text, text_eq}
use circle_core.Value.{Fields, text, get, is_falsy}
use circle_core.Value.Update.{set, update}
use circle_core.Builtins.{Builtins, str}

-- Rows of documents of some type, and those of JSON documents.
abbrev pub Rows {ℓ} : Type ℓ → Type ℓ
Rows D = List (Text × D)

abbrev pub Table : Type 0
Table = Rows Fields

module _ {ℓ} {D : Type ℓ} where
  -- The repository's `list`, with the limit and the offset that it may be given.
  unfoldable pub list : Option ℕ → ℕ → Rows D → List D
  list none offset rows = map (λ row. row.1) rows
  list (some limit) offset rows = take limit (drop offset (map (λ row. row.1) rows))

  -- The repository's `get`, `upsert` and `delete`; the last tells whether the document was there.
  unfoldable pub find : Text → Rows D → Option D
  find id [] = none
  find id ((key, d) ∷ rows) = let rest = find id rows in if text_eq key id then some d else rest

  unfoldable pub upsert : Text → D → Rows D → Rows D
  upsert id d [] = (id, d) ∷ []
  upsert id d ((key, old) ∷ rows) =
      let rest = upsert id d rows in if text_eq key id then (key, d) ∷ rows else (key, old) ∷ rest

  unfoldable pub remove : Text → Rows D → Rows D
  remove id [] = []
  remove id ((key, d) ∷ rows) =
      let rest = remove id rows in if text_eq key id then rest else (key, d) ∷ rest

  unfoldable pub is_stored : Text → Rows D → Bool
  unfolding find
  is_stored id rows = elim (find id rows) [ none ↦ false | some d ↦ true ]

-- A document that the service has saved, and the table with it.
pub record Saved : Type 0 where
  pub document : Fields
  pub table : Table

-- The id under which `create` saves; `fresh` is what `uuid4` gives.
unfoldable pub id_of : Builtins → String → Text → Fields → Text
unfolding str
id_of o id_field fresh payload =
    if is_falsy (get id_field payload) then fresh else str o (get id_field payload)

unfoldable pub replace : String → Text → Fields → Table → Saved
unfolding upsert set
replace id_field id payload rows =
    let document = set id_field (text id) payload in
    record { document = document; table = upsert id document rows }

unfoldable pub create : Builtins → String → Text → Fields → Table → Saved
unfolding id_of replace
create o id_field fresh payload rows =
    replace id_field (id_of o id_field fresh payload) payload rows

-- `none` is the `NotFoundError`.
unfoldable pub patch : Text → Fields → Table → Option Saved
unfolding find update upsert
patch id changes rows = elim (find id rows) [
  | none ↦ none
  | some existing ↦ some record {
    document = update existing changes;
    table = upsert id (update existing changes) rows;
  }
]

unfoldable pub delete : Text → Table → Option Table
unfolding is_stored remove
delete id rows = if is_stored id rows then some (remove id rows) else none
