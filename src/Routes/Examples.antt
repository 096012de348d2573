-- ===== src/Routes/Examples.antt =====
-- A candidate who tries to approve documents, and one who gives consent.
use circle_core.Prelude.{◌≡◌, refl, some, [], ◌∷◌, true, false}
use circle_core.Text.{codes, text_eq}
use circle_core.Value.{text, boolean, Fields, field, closed, get}
use circle_core.Value.Update.{set, update}
use circle_core.Builtins.{simple}
use circle_core.Dict.{lookup, insert}
use circle_core.Resources.{find, upsert}
use circle_core.Resources
use circle_core.Resources.Laws.{field_of, value_in}
use circle_core.Routes.{
  table_of, Site, patch, refused, is_among, is_public_generic, is_public_field, has_public_keys,
  saved, patched, route, serve,
}
use circle_core.Routes.Guarded.{field_in, serve-field_in}

abbrev asked : Fields
asked = field "id" (text (codes "t1")) (field "status" (text (codes "Pending")) closed)

abbrev site : Site
site = record { tables = ("doc-requests", (codes "t1", asked) ∷ []) ∷ []; queued = [] }

abbrev approval : Fields
approval = field "status" (text (codes "Verified")) closed

refused_approval :
    (serve simple true false "doc-requests" (patch (codes "t1") approval) site).answer ≡ refused 403
unfolding serve route lookup is_public_generic is_among has_public_keys is_public_field
refused_approval = refl

abbrev consent : Fields
consent = field "consent" (boolean true) closed

given_consent :
    field_in "doc-requests" "consent"
      (codes "t1")
      (serve simple true false "doc-requests" (patch (codes "t1") consent) site).site.tables
    ≡ some (boolean true)
unfolding serve route lookup insert is_public_generic is_among has_public_keys is_public_field
    table_of patched saved field_in field_of value_in find upsert get set update text_eq
    Resources.patch
given_consent = refl

serve-field_in_example :
    (field_in "doc-requests" "status"
        (codes "t1")
        (serve simple true false "doc-requests" (patch (codes "t1") approval) site).site.tables
      ≡ field_in "doc-requests" "status" (codes "t1") site.tables)
    × ((serve simple true false "doc-requests" (patch (codes "t1") approval) site).site.queued
        ≡ site.queued)
unfolding is_public_field is_among
serve-field_in_example =
    serve-field_in simple true "doc-requests" "doc-requests" "status" (codes "t1")
      (patch (codes "t1") approval) site refl
