-- ===== src/Handover/Credentials.antt =====
-- About credentials that are handed in and shown again.
use circle_core.Prelude.{
  ◌≡◌, refl, ap, ◌∙◌, true, false, not, String, some, List, [], ◌∷◌, if◌then◌else◌, arith, keep_if,
  map, Bool-cases, inl, inr,
}
use circle_core.Text.{Text, codes, text_eq_refl, is_empty, strip}
use circle_core.Value.{Value, null, text, text_of, object_of, Fields, field, closed, get, is_falsy}
use circle_core.Value.Update.{set, has_key, get_or, get-set, has_key-set}
use circle_core.Resources.{Table, find, upsert}
use circle_core.Resources.Laws.{find-upsert}
use circle_core.Handover.{
  Cipher, secret_of, encrypt_secret, decrypt_secret, Clock, is_expired, by_token, CredentialsIn,
  shown, sealed_extras, sealed_credentials, is_unanswered, with_credentials, submit_credentials,
  opened, opened_extras, values_of, revealed_of, reveal,
}

-- Fernet decrypts what it has encrypted, which is never empty.
abbrev pub IsSound : Cipher → Type 0
IsSound x =
    (secret plaintext : Text)
    → (x.decrypt secret (x.encrypt secret plaintext) ≡ some plaintext)
      × (is_empty (x.encrypt secret plaintext) ≡ false)

-- The extras whose key is not blank.
abbrev pub kept_extras : List (Text × Text) → List (Value × Text)
kept_extras extras = map (λ e. (text e.0, e.1)) (keep_if (λ e. not (is_empty (strip e.0))) extras)

-- The status after the credentials were handed in.
unfoldable pub status_after : Fields → Value
unfolding is_unanswered get_or
status_after request =
    if is_unanswered (get "status" request)
    then text (codes "Credentials Submitted")
    else get "status" request

get-lacking : (key : String) (d : Fields) → has_key key d ≡ false → get key d ≡ null
unfolding get has_key
get-lacking key closed h = refl
get-lacking key (field k v d) h = ground (arith, h, get-lacking key d)

-- A status that is one is there.
has_key-answered :
    (request : Fields)
    → is_unanswered (get "status" request) ≡ false
    → has_key "status" request ≡ true
unfolding is_unanswered
has_key-answered request h = elim (Bool-cases (has_key "status" request)) [
  | inl e ↦ e
  | inr e ↦ ground (arith, ap is_unanswered (get-lacking "status" request e), h)
]

module _ (x : Cipher) (sound : IsSound x) where
  opened-encrypt_secret : (t : Text) → opened x (text (encrypt_secret x t)) ≡ some t
  unfolding opened encrypt_secret decrypt_secret is_falsy text_of
  opened-encrypt_secret t = rw ((sound (secret_of x) t).1, (sound (secret_of x) t).0) refl

  opened_extras-sealed_extras :
      (extras : List (Text × Text))
      → opened_extras x (sealed_extras x extras) ≡ some (kept_extras extras)
  unfolding opened_extras sealed_extras object_of get_or has_key get
  opened_extras-sealed_extras [] = refl
  opened_extras-sealed_extras ((key, value) ∷ extras) =
      let rest = opened_extras-sealed_extras extras in
      let this = opened-encrypt_secret value in
      elim (Bool-cases (is_empty (strip key))) [
        | inl e ↦ rw e rest
        | inr e ↦ rw (e, this, rest) refl
      ]

  module _ (w : Clock) (body : CredentialsIn) (request : Fields) where
    credentials_after :
        get "credentials" (with_credentials x w body request) ≡ sealed_credentials x w body
    unfolding with_credentials
    credentials_after =
        let sealed = set "credentials" (sealed_credentials x w body) request in
        let first = get-set "credentials" "credentials" (sealed_credentials x w body) request in
        elim (Bool-cases (is_unanswered (get "status" sealed))) [
          | inl e ↦ rw e (
              get-set "credentials" "updatedAt" (text w.now_text)
                (set "status" (text (codes "Credentials Submitted")) sealed)
              ∙ (get-set "credentials" "status" (text (codes "Credentials Submitted")) sealed
                  ∙ first))
          | inr e ↦ rw e (get-set "credentials" "updatedAt" (text w.now_text) sealed ∙ first)
        ]

    status_after_lem :
        get_or "status" (text []) (with_credentials x w body request) ≡ status_after request
    unfolding with_credentials get_or status_after
    status_after_lem =
        let sealed = set "credentials" (sealed_credentials x w body) request in
        let answered = set "status" (text (codes "Credentials Submitted")) sealed in
        let same : get "status" sealed ≡ get "status" request =
          get-set "status" "credentials" (sealed_credentials x w body) request in
        let had = has_key-set "status" "credentials" (sealed_credentials x w body) request in
        elim (Bool-cases (is_unanswered (get "status" request))) [
          | inl e ↦
              rw
                (
                  same,
                  e,
                  has_key-set "status" "updatedAt" (text w.now_text) answered,
                  has_key-set "status" "status" (text (codes "Credentials Submitted")) sealed,
                )
                (get-set "status" "updatedAt" (text w.now_text) answered
                  ∙ get-set "status" "status" (text (codes "Credentials Submitted")) sealed)
          | inr e ↦
              rw
                (
                  same,
                  e,
                  has_key-set "status" "updatedAt" (text w.now_text) sealed,
                  had,
                  has_key-answered request e,
                )
                (get-set "status" "updatedAt" (text w.now_text) sealed ∙ same)
        ]

  revealed_of-with_credentials :
      (w : Clock) (body : CredentialsIn) (request : Fields)
      → revealed_of x (with_credentials x w body request)
        ≡ some record {
          work_email = text body.work_email;
          password = body.password;
          extras = kept_extras body.extras;
          submitted_at = text w.now_text;
          status = status_after request;
        }
  unfolding revealed_of sealed_credentials get get_or has_key object_of is_falsy values_of
  revealed_of-with_credentials w body request =
      rw
        (
          credentials_after w body request,
          opened-encrypt_secret body.password,
          opened_extras-sealed_extras body.extras,
          status_after_lem w body request,
        )
        refl

submit_credentials_rows :
    (x : Cipher) (w : Clock) (token id : Text) (body : CredentialsIn) (request : Fields)
    (rows : Table)
    → by_token token rows ≡ some request
    → is_expired w request ≡ false
    → get "employeeId" request ≡ text id
    → (submit_credentials x w token body rows).rows
      ≡ upsert id (with_credentials x w body request) rows
unfolding submit_credentials text_of
submit_credentials_rows x w token id body request rows h live here =
    rw (submit_credentials, h, live, here) refl

-- Credentials that are handed in through a link that is valid and not expired are shown to HR as they
-- were, under the employee's id, less the extras with a blank key, with the time; a status that was
-- empty or `Sent` is `Credentials Submitted` then. Fernet is taken to decrypt what it encrypts.
pub reveal-submit_credentials :
    (x : Cipher)
    → IsSound x
    → (w : Clock) (token id : Text) (body : CredentialsIn) (request : Fields) (rows : Table)
    → by_token token rows ≡ some request
    → is_expired w request ≡ false
    → get "employeeId" request ≡ text id
    → reveal x id (submit_credentials x w token body rows).rows
      ≡ shown record {
        work_email = text body.work_email;
        password = body.password;
        extras = kept_extras body.extras;
        submitted_at = text w.now_text;
        status = status_after request;
      }
unfolding reveal
reveal-submit_credentials x sound w token id body request rows h live here =
    let after = with_credentials x w body request in
    let found : find id (upsert id after rows) ≡ some after =
      find-upsert id id after rows ∙ rw (text_eq_refl id) refl in
    ap (reveal x id) (submit_credentials_rows x w token id body request rows h live here)
    ∙ rw (reveal, found, revealed_of-with_credentials x sound w body request) refl
