-- ===== src/Accounts.antt =====
-- app/api/routes/auth.py: dashboard accounts, logging in, and the links by which a password is set.
-- An account's row in the table of accounts has its address as its id.
pub mod Sessions
pub mod Admin
pub mod Links
pub mod Requests
pub mod Kept
mod Spent
mod Visits
pub mod SingleUse
pub mod Login
mod Examples
use circle_core.Prelude.{
  ℕ, Bool, true, false, ◌&&◌, ◌||◌, not, Option, none, some, List, [], ◌∷◌, ◌++◌, if◌then◌else◌,
  leb, ltb, length, take, String,
}
use circle_core.Text.{Text, codes, text_eq, strip, is_empty, starts_with}
use circle_core.Text.Ops.{contains}
use circle_core.Value.{Value, null, text, Fields, field, closed, object, get, is_falsy, is_text}
use circle_core.Value.Update.{set, update, has_key, get_or}
use circle_core.Builtins.{Builtins, str, str_or_empty}
use circle_core.Password.{Crypto}
use circle_core.Resources.{Table}

-- What the code takes from outside: the built-ins, the hash library, the clock's reading and the
-- reading of ISO times as numbers (`none` is a ValueError), and the text of the time at which a link
-- made now expires.
pub record Outside : Type 0 where
  pub builtins : Builtins
  pub crypto : Crypto
  pub now : ℕ
  pub parse_time : Text → Option ℕ
  pub setup_expiry : Text

-- What a request draws at random, if it does: a salt, and the token of a link.
pub record Drawn : Type 0 where
  pub salt : List ℕ
  pub token : Text

-- The answer to a request: a body, a list, or the status of an error.
pub data Answer : Type 0 where
  success : Fields → Answer
  listed : List Fields → Answer
  refused : ℕ → Answer

pub record Step : Type 0 where
  pub answer : Answer
  pub accounts : Table

abbrev pub refuse : ℕ → Table → Step
refuse status accounts = record { answer = refused status; accounts = accounts }

-- `str(payload.get("email", "")).strip().lower()`
unfoldable pub email_in : Builtins → String → Fields → Text
unfolding str get_or
email_in o key payload = o.lower (strip (str o (get_or key (text []) payload)))

unfoldable pub address : Builtins → Text → Text
address o email = o.lower (strip email)

-- `str(d.get(key, ""))`
unfoldable pub text_at : Builtins → String → Fields → Text
unfolding str get_or
text_at o key d = str o (get_or key (text []) d)

-- `_public_user`
unfoldable pub public_user : Fields → Fields
unfolding get_or
public_user account =
    let email = if is_falsy (get "email" account) then get "id" account else get "email" account in
    let id = if is_falsy (get "id" account) then email else get "id" account in
    field "id" id (
      field "email" email (
        field "role" (get_or "role" (text (codes "hr")) account) (
          field "name" (get_or "name" (text []) account) (
            field "title" (get_or "title" (text []) account)
              (field "phone" (get_or "phone" (text []) account) closed)))))

-- `require_user` and `require_admin`: what they let through, or the status they refuse with.
unfoldable pub require_user : Option Fields → (Fields → Step) → Table → Step
require_user none handler accounts = refuse 401 accounts
require_user (some user) handler accounts =
    let answer = handler user in if is_falsy (object user) then refuse 401 accounts else answer

unfoldable pub require_admin : Option Fields → (Fields → Step) → Table → Step
unfolding require_user
require_admin session handler accounts =
    require_user session
      (λ user.
        let answer = handler user in
        if is_text "admin" (get "role" user) then answer else refuse 403 accounts)
      accounts

-- `len(email) < EMAIL_MIN or "@" not in email`
unfoldable pub is_bad_email : Text → Bool
is_bad_email email = ltb (length email) 3 || not (contains (codes "@") email)

-- `role not in ("admin", "hr")`
unfoldable pub is_bad_role : Value → Bool
is_bad_role role = not (is_text "admin" role || is_text "hr" role)

-- `_setup_is_live`
unfoldable pub setup_is_live : Outside → Fields → Bool
unfolding str_or_empty
setup_is_live w account =
    let raw = str_or_empty w.builtins (get "setupTokenExpiresAt" account) in
    if is_empty raw
    then false
    else elim (w.parse_time raw) [ none ↦ false | some expires ↦ leb w.now expires ]

-- `_find_by_setup_token`
unfoldable pub has_setup_token : Builtins → Text → Fields → Bool
unfolding str_or_empty
has_setup_token o token account =
    let stored = str_or_empty o (get "setupToken" account) in
    not (is_empty stored) && text_eq stored token

unfoldable pub find_by_setup_token : Builtins → Text → Table → Option Fields
unfolding has_setup_token
find_by_setup_token o token [] = none
find_by_setup_token o token ((id, account) ∷ rows) =
    let rest = find_by_setup_token o token rows in
    if is_empty token then none else if has_setup_token o token account then some account else rest
