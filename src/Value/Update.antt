-- ===== src/Value/Update.antt =====
-- Dictionaries that change, and what `get` finds in them afterwards.
use circle_core.Prelude.{◌≡◌, refl, Bool, true, false, String, arith, str_eq, eq_iff, if◌then◌else◌}
use circle_core.Value.{Value, Fields, closed, field, get}

-- `d[key] = value`, or `{**d, key: value}`.
unfoldable pub set : String → Value → Fields → Fields
set key v closed = field key v closed
set key v (field k w d) =
    let rest = set key v d in if str_eq k key then field k v d else field k w rest

-- `d.update(changes)`
unfoldable pub update : Fields → Fields → Fields
unfolding set
update d closed = d
update d (field k v changes) = update (set k v d) changes

-- `d.pop(key, None)`
unfoldable pub pop : String → Fields → Fields
pop key closed = closed
pop key (field k w d) = let rest = pop key d in if str_eq k key then rest else field k w rest

-- `key in d`
unfoldable pub has_key : String → Fields → Bool
has_key key closed = false
has_key key (field k v d) = let rest = has_key key d in if str_eq k key then true else rest

-- `d.get(key, default)`
unfoldable pub get_or : String → Value → Fields → Value
unfolding get has_key
get_or key default d = if has_key key d then get key d else default

pub get-set :
    (key k : String) (v : Value) (d : Fields)
    → get key (set k v d) ≡ (if str_eq k key then v else get key d)
unfolding get set
get-set key k v closed = ground arith
get-set key k v (field j w d) =
    ground (arith, get-set key k v d, eq_iff j k, eq_iff j key, eq_iff k key)

pub has_key-set :
    (key k : String) (v : Value) (d : Fields)
    → has_key key (set k v d) ≡ (if str_eq k key then true else has_key key d)
unfolding has_key set
has_key-set key k v closed = ground arith
has_key-set key k v (field j w d) =
    ground (arith, has_key-set key k v d, eq_iff j k, eq_iff j key, eq_iff k key)

-- An update by a dictionary without the key leaves the key as it was.
pub get-update :
    (key : String) (d changes : Fields)
    → has_key key changes ≡ false
    → get key (update d changes) ≡ get key d
unfolding update has_key
get-update key d closed h = refl
get-update key d (field k v changes) h =
    ground (arith, h, get-update key (set k v d) changes, get-set key k v d)

pub has_key-update :
    (key : String) (d changes : Fields)
    → has_key key changes ≡ false
    → has_key key (update d changes) ≡ has_key key d
unfolding update has_key
has_key-update key d closed h = refl
has_key-update key d (field k v changes) h =
    ground (arith, h, has_key-update key (set k v d) changes, has_key-set key k v d)
