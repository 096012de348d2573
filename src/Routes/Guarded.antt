-- ===== src/Routes/Guarded.antt =====
-- What requests without a session can change.
use circle_core.Prelude.{
  ◌≡◌, refl, subst, ◌∙◌, ap, Bool, true, false, String, Option, some, if◌then◌else◌, arith, str_eq,
  eq_iff, Bool-cases, Option-cases, inl, inr,
}
use circle_core.Text.{Text}
use circle_core.Value.{Value, Fields, closed, field}
use circle_core.Value.Update.{update, has_key, get-update}
use circle_core.Builtins.{Builtins}
use circle_core.Dict.{lookup, insert, lookup-insert}
use circle_core.Resources.{Table, find, Saved}
use circle_core.Resources
use circle_core.Resources.Laws.{field_of, field_of-upsert}
use circle_core.Routes.{
  resource_defs, Tables, table_of, Site, Request, list_all, get_one, create, replace, patch, remove,
  is_among, is_public_generic, is_public_field, has_public_keys, sync_employee, saved, patched,
  route, serve,
}

pub table_of-insert :
    (j k : String) (t : Table) (tables : Tables)
    → table_of j (insert k t tables) ≡ (if str_eq k j then t else table_of j tables)
unfolding table_of
table_of-insert j k t tables = ground (arith, lookup-insert k j t tables)

lacks_key :
    (slug key : String) (changes : Fields)
    → has_public_keys slug changes ≡ true
    → is_public_field slug key ≡ false
    → has_key key changes ≡ false
unfolding has_public_keys has_key
lacks_key slug key closed h k = refl
lacks_key slug key (field j v changes) h k = elim (Bool-cases (str_eq j key)) [
  | inl e ↦
      let same : is_public_field slug j ≡ is_public_field slug key =
        ap (is_public_field slug) ((eq_iff j key).0 e) in
      ground (arith, h, k, same)
  | inr e ↦ rw e (lacks_key slug key changes (ground (arith, h)) k)
]

-- A field of a document of a resource.
unfoldable pub field_in : String → String → Text → Tables → Option Value
unfolding table_of field_of
field_in slug key id tables = field_of key id (table_of slug tables)

patch_rows :
    (key : String) (j id : Text) (changes : Fields) (rows : Table) (s : Saved)
    → Resources.patch id changes rows ≡ some s
    → has_key key changes ≡ false
    → field_of key j s.table ≡ field_of key j rows
unfolding Resources.patch
patch_rows key j id changes rows s h lacks = elim (Option-cases (find id rows)) [
  | inl e ↦ ground (arith, h, e)
  | inr (existing, e) ↦
      let same =
        field_of-upsert key j id existing (update existing changes) rows e
          (get-update key existing changes lacks) in
      ground (arith, h, e, same)
]

-- A step changes no field but those that are public, and queues nothing.
abbrev IsGuarded : Site → Site → Type 0
IsGuarded site after =
    ((slug key : String) (id : Text)
      → is_public_field slug key ≡ false
      → field_in slug key id after.tables ≡ field_in slug key id site.tables)
    × (after.queued ≡ site.queued)

patched-IsGuarded :
    (configured : Bool) (slug : String) (id : Text) (changes : Fields) (site : Site)
    → has_public_keys slug changes ≡ true
    → str_eq slug "employees" ≡ false
    → IsGuarded site
        (patched configured slug (Resources.patch id changes (table_of slug site.tables)) site).site
unfolding patched saved sync_employee field_in
patched-IsGuarded configured slug id changes site h other =
    elim (Option-cases (Resources.patch id changes (table_of slug site.tables))) [
      | inl e ↦ rw e ((λ s k i n. refl), refl)
      | inr (s, e) ↦ rw e (
        (λ slug2 key j n.
            ap (field_of key j) (table_of-insert slug2 slug s.table site.tables)
            ∙ elim (Bool-cases (str_eq slug slug2)) [
              | inl d ↦
                  let one : slug ≡ slug2 = (eq_iff slug slug2).0 d in
                  let public_slug : has_public_keys slug2 changes ≡ true = rw one at h in
                  rw d (
                    patch_rows key j id changes (table_of slug site.tables) s e
                      (lacks_key slug2 key changes public_slug n)
                    ∙ ap (λ t. field_of key j (table_of t site.tables)) one)
              | inr d ↦ rw d refl
            ]),
        ground (arith, other),
      )
    ]

route-patch-IsGuarded :
    (o : Builtins) (configured : Bool) (slug id_field : String) (id : Text) (changes : Fields)
    (site : Site)
    → str_eq slug "employees" ≡ false
    → IsGuarded site (route o configured false slug id_field (patch id changes) site).site
unfolding route
route-patch-IsGuarded o configured slug id_field id changes site other =
    elim (Bool-cases (has_public_keys slug changes)) [
      | inl h ↦ rw (h, route) (patched-IsGuarded configured slug id changes site h other)
      | inr h ↦ rw (h, route) ((λ s k i n. refl), refl)
    ]

unchanged-IsGuarded : (site after : Site) → after ≡ site → IsGuarded site after
unchanged-IsGuarded site after same =
    ((λ slug key id n. ap (λ s. field_in slug key id s.tables) same), ap (λ s. s.queued) same)

serve-IsGuarded :
    (o : Builtins) (configured : Bool) (slug : String) (request : Request) (site : Site)
    → IsGuarded site (serve o configured false slug request site).site
unfolding serve is_public_generic is_among
serve-IsGuarded o configured slug (list_all limit offset) site =
    elim (Option-cases (lookup slug resource_defs)) [
      | inl e ↦ unchanged-IsGuarded site _ (ground (arith, e))
      | inr (f, e) ↦ unchanged-IsGuarded site _ (unfold route in ground (arith, e))
    ]
serve-IsGuarded o configured slug (get_one id) site =
    elim (Option-cases (lookup slug resource_defs)) [
      | inl e ↦ unchanged-IsGuarded site _ (ground (arith, e))
      | inr (f, e) ↦ unchanged-IsGuarded site _ (unfold route in ground (arith, e))
    ]
serve-IsGuarded o configured slug (create fresh payload) site =
    unchanged-IsGuarded site _ (ground arith)
serve-IsGuarded o configured slug (replace id payload) site =
    unchanged-IsGuarded site _ (ground arith)
serve-IsGuarded o configured slug (remove id) site = unchanged-IsGuarded site _ (ground arith)
serve-IsGuarded o configured slug (patch id changes) site =
    elim (Bool-cases (str_eq "doc-requests" slug)) [
      | inl e ↦
          subst (λ s. IsGuarded site (serve o configured false s (patch id changes) site).site)
            ((eq_iff "doc-requests" slug).0 e)
            (unfold lookup in
              route-patch-IsGuarded o configured "doc-requests" "id" id changes site refl)
      | inr e ↦ unchanged-IsGuarded site _ (ground (arith, e))
    ]

-- Whatever is asked for without a session, through the routes that all resources share: a field of a
-- document, if it is none of those of a request for documents that the candidate fills in, stays as
-- it is, there or not, and no employee is queued for the identity service.
pub serve-field_in :
    (o : Builtins) (configured : Bool) (slug other key : String) (id : Text) (request : Request)
    (site : Site)
    → is_public_field other key ≡ false
    → (field_in other key id (serve o configured false slug request site).site.tables
        ≡ field_in other key id site.tables)
      × ((serve o configured false slug request site).site.queued ≡ site.queued)
serve-field_in o configured slug other key id request site h =
    let guarded = serve-IsGuarded o configured slug request site in
    (guarded.0 other key id h, guarded.1)
