-- ===== src/Accounts/Admin.antt =====
-- What administrators do with accounts, and the account that is made at the start.
use circle_core.Prelude.{◌||◌, none, some, [], if◌then◌else◌, ltb, length, map}
use circle_core.Text.{Text, codes, text_eq, strip, is_empty, starts_with}
use circle_core.Value.{Value, text, Fields, field, closed}
use circle_core.Value.Update.{set, update, get_or}
use circle_core.Builtins.{Builtins}
use circle_core.Password.{hash_password}
use circle_core.Resources.{Table, list, find, is_stored, Saved, create, patch, delete}
use circle_core.Accounts.{
  Outside, Drawn, listed, Step, refuse, email_in, address, text_at, public_user, is_bad_email,
  is_bad_role,
}
use circle_core.Accounts.Sessions.{reply, after_patch, ok_body}

unfoldable pub list_users : Table → Step
unfolding list public_user
list_users accounts = record {
  answer = listed (map public_user (list none 0 accounts));
  accounts = accounts;
}

-- A new account as it is saved; `extra` are the fields that follow.
unfoldable pub new_account : Text → Value → Text → Text → Fields → Fields
new_account email role name password extra = field "id" (text email) (
    field "email" (text email)
      (field "role" role (field "name" (text name) (field "password" (text password) extra))))

-- `service.create` of an account that has its address as its id; no id is drawn.
unfoldable pub save_account : Builtins → Fields → Table → Saved
save_account o account accounts = create o "id" [] account accounts

-- `payload.get("role", "hr")`
unfoldable pub role_in : Fields → Value
role_in payload = get_or "role" (text (codes "hr")) payload

unfoldable pub create_user : Outside → Drawn → Fields → Table → Step
unfolding text_at email_in role_in new_account save_account public_user
create_user w r payload accounts =
    let email = email_in w.builtins "email" payload in
    let password = text_at w.builtins "password" payload in
    let role = role_in payload in
    let account =
      new_account email role (strip (text_at w.builtins "name" payload))
        (hash_password w.crypto r.salt password) closed in
    let saved = save_account w.builtins account accounts in
    if is_bad_email email || ltb (length password) 6
    then refuse 400 accounts
    else if is_bad_role role
    then refuse 400 accounts
    else reply (public_user saved.document) saved.table

unfoldable pub change_password : Outside → Drawn → Text → Fields → Table → Step
unfolding text_at address after_patch
change_password w r email payload accounts =
    let password = text_at w.builtins "password" payload in
    let hashed = field "password" (text (hash_password w.crypto r.salt password)) closed in
    let done =
      after_patch (patch (address w.builtins email) hashed accounts) (λ d. ok_body) accounts in
    if ltb (length password) 6 then refuse 400 accounts else done

-- The end of `change_email`: the account is saved under the new address, then deleted under the old.
unfoldable pub move_account : Builtins → Text → Text → Fields → Table → Step
unfolding set save_account delete public_user
move_account o old new account accounts =
    let moved = set "email" (text new) (set "id" (text new) account) in
    let saved = save_account o moved accounts in
    elim (delete old saved.table) [
      | none ↦ refuse 404 saved.table
      | some left ↦ reply (public_user saved.document) left
    ]

unfoldable pub change_email : Outside → Text → Fields → Table → Step
unfolding address email_in is_stored find move_account
change_email w email payload accounts =
    let old = address w.builtins email in
    let new = email_in w.builtins "newEmail" payload in
    let done : Step = elim (find old accounts) [
      | none ↦ refuse 404 accounts
      | some account ↦ move_account w.builtins old new account accounts
    ] in
    if is_bad_email new || text_eq old new
    then refuse 400 accounts
    else if is_stored new accounts
    then refuse 409 accounts
    else done

unfoldable pub delete_user : Outside → Text → Table → Step
unfolding delete address
delete_user w email accounts = elim (delete (address w.builtins email) accounts) [
  | none ↦ refuse 404 accounts
  | some left ↦ reply closed left
]

-- `seed_admin_accounts` with the three settings.
unfoldable pub seed_admin_accounts : Outside → Drawn → Text → Text → Text → Table → Table
unfolding address is_stored new_account save_account hash_password
seed_admin_accounts w r seed_email password seed_name accounts =
    let email = address w.builtins seed_email in
    let name = if is_empty seed_name then codes "Admin" else seed_name in
    let account =
      new_account email (text (codes "admin")) name (hash_password w.crypto r.salt password)
        closed in
    let saved = save_account w.builtins account accounts in
    if is_empty email || is_empty password
    then accounts
    else if is_stored email accounts
    then accounts
    else saved.table

-- `changes` of an account that is invited again.
unfoldable pub invited_again : Fields → Text → Value → Fields
unfolding update set
invited_again invite name role =
    let named = if is_empty name then invite else set "name" (text name) invite in
    set "role" role named

unfoldable pub invite_user : Outside → Drawn → Fields → Table → Step
unfolding email_in text_at role_in is_bad_email is_bad_role invited_again patch new_account
    save_account public_user
invite_user w r payload accounts =
    let email = email_in w.builtins "email" payload in
    let name = strip (text_at w.builtins "name" payload) in
    let role = role_in payload in
    let origin = strip (text_at w.builtins "appOrigin" payload) in
    let invite =
      field "setupToken" (text r.token)
        (field "setupTokenExpiresAt" (text w.setup_expiry) closed) in
    let saved = save_account w.builtins (new_account email role name [] invite) accounts in
    let done : Step = elim (patch email (invited_again invite name role) accounts) [
      | none ↦ reply (public_user saved.document) saved.table
      | some again ↦ reply (public_user again.document) again.table
    ] in
    if is_bad_email email || is_bad_role role
    then refuse 400 accounts
    else if starts_with origin (codes "http")
    then done
    else refuse 400 accounts
