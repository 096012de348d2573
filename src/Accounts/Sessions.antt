-- ===== src/Accounts/Sessions.antt =====
-- Logging in, and what a user does with the own profile.
use circle_core.Prelude.{
  Bool, true, false, ◌&&◌, ◌||◌, Option, none, some, List, [], ◌∷◌, if◌then◌else◌, ltb, length, any,
  String,
}
use circle_core.Text.{Text, text_eq, strip, is_empty}
use circle_core.Value.{text, boolean, text_of, Fields, field, closed, object, get, is_falsy}
use circle_core.Value.Update.{has_key, get_or}
use circle_core.Builtins.{Builtins, str}
use circle_core.Password.{hash_password, looks_hashed, verify_password}
use circle_core.Resources.{Table, find, Saved, patch}
use circle_core.Accounts.{
  Outside, Drawn, success, Step, refuse, email_in, address, text_at, public_user,
}

abbrev pub reply : Fields → Table → Step
reply body accounts = record { answer = success body; accounts = accounts }

abbrev pub ok_body : Fields
ok_body = field "ok" (boolean true) closed

-- What follows a `service.patch`, whose `NotFoundError` is a 404.
unfoldable pub after_patch : Option Saved → (Fields → Fields) → Table → Step
after_patch none body accounts = refuse 404 accounts
after_patch (some saved) body accounts = reply (body saved.document) saved.table

-- The password stored for the account found, checked; a plain one is hashed now that it is known.
unfoldable pub check_login : Outside → Drawn → Text → Text → Fields → Table → Step
unfolding text_at looks_hashed verify_password hash_password patch after_patch public_user
check_login w r email password account accounts =
    let stored = text_at w.builtins "password" account in
    let upgrade = field "password" (text (hash_password w.crypto r.salt password)) closed in
    if looks_hashed stored
    then (if verify_password w.crypto password stored
        then reply (public_user account) accounts
        else refuse 401 accounts)
    else if text_eq stored password
    then after_patch (patch email upgrade accounts) (λ d. public_user account) accounts
    else refuse 401 accounts

unfoldable pub login : Outside → Drawn → Fields → Table → Step
unfolding email_in text_at find check_login
login w r payload accounts =
    let email = email_in w.builtins "email" payload in
    let password = text_at w.builtins "password" payload in
    let answer : Step = elim (find email accounts) [
      | none ↦ refuse 401 accounts
      | some account ↦ check_login w r email password account accounts
    ] in
    if is_empty email || is_empty password then refuse 400 accounts else answer

unfoldable pub me : Outside → Fields → Table → Step
unfolding str find public_user get_or
me w user accounts =
    let session_only =
      field "email" (get "email" user)
        (field "role" (get "role" user) (field "name" (get_or "name" (text []) user) closed)) in
    elim (find (w.builtins.lower (strip (str w.builtins (get "email" user)))) accounts) [
      | none ↦ reply (public_user session_only) accounts
      | some account ↦ reply (public_user account) accounts
    ]

-- `{k: ... for k in keys if k in payload}`, each value a stripped string, and cut.
unfoldable pub taken_from : Builtins → (Text → Text) → List String → Fields → Fields
unfolding has_key str
taken_from o cut [] payload = closed
taken_from o cut (key ∷ keys) payload =
    let rest = taken_from o cut keys payload in
    if has_key key payload
    then field key (text (cut (strip (str o (get key payload))))) rest
    else rest

abbrev pub profile_writable : List String
profile_writable = "name" ∷ "title" ∷ "phone" ∷ []

-- `len(changes.get(field, "")) > 120`
unfoldable pub is_too_long : Fields → String → Bool
is_too_long changes key = elim (text_of (get key changes)) [
  | none ↦ false
  | some t ↦ ltb 120 (length t)
]

unfoldable pub update_my_profile : Outside → Fields → Fields → Table → Step
unfolding taken_from is_too_long after_patch public_user address
update_my_profile w payload user accounts =
    let email = address w.builtins (str w.builtins (get "email" user)) in
    let changes = taken_from w.builtins (λ t. t) profile_writable payload in
    let done = after_patch (patch email changes accounts) public_user accounts in
    if is_falsy (object changes) || (has_key "name" changes && is_falsy (get "name" changes))
    then refuse 400 accounts
    else if any (is_too_long changes) profile_writable
    then refuse 400 accounts
    else done
