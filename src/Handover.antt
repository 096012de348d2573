-- ===== src/Handover.antt =====
-- app/api/routes/exit_handover.py with app/services/crypto.py: the credentials that an employee who
-- leaves hands in through a link. Files and the list of documents are left out.
pub mod Credentials
mod Examples
use circle_core.Prelude.{
  ℕ, Bool, true, false, ◌||◌, Option, none, some, List, [], ◌∷◌, if◌then◌else◌, ltb,
}
use circle_core.Text.{Text, codes, text_eq, is_empty, strip}
use circle_core.Value.{
  Value, null, boolean, number, text, array, object, text_of, object_of, Values, end, item, Fields,
  field, closed, get, is_falsy,
}
use circle_core.Value.Update.{set, pop, get_or}
use circle_core.Resources.{Table, find, upsert}

infixl 5 ◌>>=◌
abbrev pub ◌>>=◌ : {A B : Type 0} → Option A → (A → Option B) → Option B
none >>= f = none
some a >>= f = f a

-- The settings that a key is derived from, and Fernet under such a secret; `none` is an invalid token.
pub record Cipher : Type 0 where
  pub credentials_key : Text
  pub smtp_password : Text
  pub aws_secret_access_key : Text
  pub encrypt : Text → Text → Text
  pub decrypt : Text → Text → Option Text

-- The secret of `_fernet`.
unfoldable pub secret_of : Cipher → Text
secret_of x =
    if is_empty x.credentials_key
    then (if is_empty x.smtp_password
        then (if is_empty x.aws_secret_access_key
            then codes "curcle-credentials-fallback-key"
            else x.aws_secret_access_key)
        else x.smtp_password)
    else x.credentials_key

unfoldable pub encrypt_secret : Cipher → Text → Text
encrypt_secret x plaintext = x.encrypt (secret_of x) plaintext

unfoldable pub decrypt_secret : Cipher → Text → Text
decrypt_secret x token =
    if is_empty token then [] else elim (x.decrypt (secret_of x) token) [ none ↦ [] | some t ↦ t ]

-- The clock, and reading ISO times as numbers (`none` is an error).
pub record Clock : Type 0 where
  pub now : ℕ
  pub now_text : Text
  pub parse_time : Text → Option ℕ

-- `_is_expired` with `_parse_iso`.
unfoldable pub is_expired : Clock → Fields → Bool
unfolding text_of
is_expired w request = elim (text_of (get "expiresAt" request)) [
  | none ↦ false
  | some t ↦ elim (w.parse_time t) [ none ↦ false | some expires ↦ ltb expires w.now ]
]

unfoldable pub by_token : Text → Table → Option Fields
unfolding text_of
by_token token [] = none
by_token token ((key, d) ∷ rows) =
    let rest = by_token token rows in
    elim (text_of (get "token" d)) [
      | none ↦ rest
      | some t ↦ if text_eq t token then some d else rest
    ]

-- `CredentialsIn`, the extras with their keys.
pub record CredentialsIn : Type 0 where
  pub work_email : Text
  pub password : Text
  pub extras : List (Text × Text)

-- What HR is shown.
pub record Revealed : Type 0 where
  pub work_email : Value
  pub password : Text
  pub extras : List (Value × Text)
  pub submitted_at : Value
  pub status : Value

-- 404, 422, an exception of another kind, `{"ok": True}`, and what HR is shown.
pub data Answer : Type 0 where
  not_found : Answer
  invalid : Answer
  failed : Answer
  ok : Answer
  shown : Revealed → Answer

pub record Step : Type 0 where
  pub answer : Answer
  pub rows : Table

abbrev pub fail : Answer → Table → Step
fail answer rows = record { answer = answer; rows = rows }

-- The extras as they are stored, those with a blank key left out.
unfoldable pub sealed_extras : Cipher → List (Text × Text) → Values
unfolding encrypt_secret
sealed_extras x [] = end
sealed_extras x ((key, value) ∷ extras) =
    let rest = sealed_extras x extras in
    let sealed =
      object (field "key" (text key) (field "value" (text (encrypt_secret x value)) closed)) in
    if is_empty (strip key) then rest else item sealed rest

unfoldable pub sealed_credentials : Cipher → Clock → CredentialsIn → Value
unfolding encrypt_secret sealed_extras
sealed_credentials x w body = object (
    field "workEmail" (text body.work_email) (
      field "password" (text (encrypt_secret x body.password)) (
        field "extras" (array (sealed_extras x body.extras))
          (field "submittedAt" (text w.now_text) closed))))

-- `status in (None, "", "Sent")`
unfoldable pub is_unanswered : Value → Bool
is_unanswered null = true
is_unanswered (boolean b) = false
is_unanswered (number n) = false
is_unanswered (text t) = is_empty t || text_eq t (codes "Sent")
is_unanswered (array vs) = false
is_unanswered (object d) = false

unfoldable pub with_credentials : Cipher → Clock → CredentialsIn → Fields → Fields
unfolding set is_unanswered sealed_credentials
with_credentials x w body request =
    let sealed = set "credentials" (sealed_credentials x w body) request in
    let answered =
      if is_unanswered (get "status" sealed)
      then set "status" (text (codes "Credentials Submitted")) sealed
      else sealed in
    set "updatedAt" (text w.now_text) answered

unfoldable pub submit_credentials : Cipher → Clock → Text → CredentialsIn → Table → Step
unfolding by_token is_expired with_credentials text_of upsert
submit_credentials x w token body rows = elim (by_token token rows) [
  | none ↦ fail not_found rows
  | some request ↦
      let stored : Step = elim (text_of (get "employeeId" request)) [
        | none ↦ fail failed rows
        | some id ↦ record {
          answer = ok;
          rows = upsert id (with_credentials x w body request) rows;
        }
      ] in
      if is_expired w request then fail invalid rows else stored
]

-- `decrypt_secret` of a value: what is falsy is empty, and what has no `encode` is an error.
unfoldable pub opened : Cipher → Value → Option Text
unfolding text_of decrypt_secret
opened x v =
    let read : Option Text = elim (text_of v) [
      | none ↦ none
      | some t ↦ some (decrypt_secret x t)
    ] in
    if is_falsy v then some [] else read

unfoldable pub opened_extras : Cipher → Values → Option (List (Value × Text))
unfolding object_of opened get_or
opened_extras x end = some []
opened_extras x (item v vs) =
    let rest = opened_extras x vs in
    do
      d ← object_of v
      value ← opened x (get_or "value" (text []) d)
      others ← rest
      some ((get_or "key" (text []) d, value) ∷ others)

-- The elements of a list; what is falsy is the empty one.
unfoldable pub values_of : Value → Option Values
values_of null = some end
values_of (boolean b) = if b then none else some end
values_of (number n) = if is_falsy (number n) then some end else none
values_of (text t) = if is_empty t then some end else none
values_of (array vs) = some vs
values_of (object closed) = some end
values_of (object (field k v d)) = none

unfoldable pub revealed_of : Cipher → Fields → Option Revealed
unfolding object_of opened opened_extras values_of get_or
revealed_of x request = do
  credentials ←
      if is_falsy (get "credentials" request)
      then some closed
      else object_of (get "credentials" request)
  password ← opened x (get_or "password" (text []) credentials)
  sealed ← values_of (get "extras" credentials)
  extras ← opened_extras x sealed
  some record {
    work_email = get_or "workEmail" (text []) credentials;
    password = password;
    extras = extras;
    submitted_at = get "submittedAt" credentials;
    status = get_or "status" (text []) request;
  }

unfoldable pub reveal : Cipher → Text → Table → Answer
unfolding find revealed_of
reveal x employee_id rows = elim (find employee_id rows) [
  | none ↦ not_found
  | some request ↦ elim (revealed_of x request) [ none ↦ failed | some r ↦ shown r ]
]

unfoldable pub purge : Clock → Text → Table → Step
unfolding find set pop upsert
purge w employee_id rows = elim (find employee_id rows) [
  | none ↦ fail not_found rows
  | some request ↦
      let purged =
        set "updatedAt" (text w.now_text)
          (set "status" (text (codes "Completed")) (pop "credentials" request)) in
      record { answer = ok; rows = upsert employee_id purged rows }
]
