-- ===== src/Accounts/Login.antt =====
-- Logging in to an account that an administrator made.
use circle_core.Prelude.{
  ◌≡◌, refl, ◌∙◌, ap, true, false, some, [], ◌∷◌, if◌then◌else◌, arith, Bool-cases, inl, inr,
}
use circle_core.Text.{Text, text_eq, text_eq_refl, strip, is_empty}
use circle_core.Value.{Value, text_of, Fields, closed, get, is_falsy}
use circle_core.Value.Update.{set, has_key, get_or}
use circle_core.Builtins.{Builtins, str}
use circle_core.Password.{iterations, hash_password, looks_hashed, verify_password}
use circle_core.Password.Stored.{IsCodec, verify_password-hash_password, hash_password-looks_hashed}
use circle_core.Resources.{Table, find, upsert, create, id_of, replace}
use circle_core.Resources.Laws.{find-upsert}
use circle_core.Accounts.{
  Outside, Drawn, success, refuse, email_in, text_at, public_user, is_bad_email,
}
use circle_core.Accounts.Sessions.{reply, check_login, login}
use circle_core.Accounts.Admin.{new_account, save_account, role_in, create_user}

not_empty : (email : Text) → is_bad_email email ≡ false → is_empty email ≡ false
unfolding is_bad_email is_empty
not_empty [] h = ground (arith, h)
not_empty (c ∷ email) h = refl

-- A new account is saved as it is, under its address.
save_account-new_account :
    (o : Builtins) (email : Text) (role : Value) (name password : Text) (accounts : Table)
    → is_bad_email email ≡ false
    → save_account o (new_account email role name password closed) accounts ≡ record {
      document = new_account email role name password closed;
      table = upsert email (new_account email role name password closed) accounts;
    }
unfolding save_account create id_of replace new_account get set is_falsy str text_of
save_account-new_account o email role name password accounts h = rw (not_empty email h) refl

-- The check of a password against an account whose stored one is a hash.
check_login-looks_hashed :
    (w : Outside) (r : Drawn) (email q stored : Text) (account : Fields) (accounts : Table)
    → text_at w.builtins "password" account ≡ stored
    → looks_hashed stored ≡ true
    → check_login w r email q account accounts ≡ (
        if verify_password w.crypto q stored
        then reply (public_user account) accounts
        else refuse 401 accounts)
unfolding check_login
check_login-looks_hashed w r email q stored account accounts h k = rw (h, k) refl

password_of-new_account :
    (o : Builtins) (email name password : Text) (role : Value)
    → text_at o "password" (new_account email role name password closed) ≡ password
unfolding text_at new_account get_or get has_key str text_of
password_of-new_account o email name password role = refl

check_login-hash_password :
    (w : Outside) (c : IsCodec w.crypto) (r r2 : Drawn) (email password q name : Text)
    (role : Value) (accounts : Table)
    → check_login w r2 email q
        (new_account email role name (hash_password w.crypto r.salt password) closed)
        accounts
      ≡ (if text_eq
            (w.crypto.pbkdf2 q r.salt iterations)
            (w.crypto.pbkdf2 password r.salt iterations)
          then reply
              (public_user
                (new_account email role name (hash_password w.crypto r.salt password) closed))
              accounts
          else refuse 401 accounts)
check_login-hash_password w c r r2 email password q name role accounts =
    let account = new_account email role name (hash_password w.crypto r.salt password) closed in
    check_login-looks_hashed w r2 email q (hash_password w.crypto r.salt password) account accounts
      (password_of-new_account w.builtins email name _ role)
      (hash_password-looks_hashed w.crypto r.salt password)
    ∙ ap (λ b. if b then reply (public_user account) accounts else refuse 401 accounts)
        (verify_password-hash_password w.crypto c r.salt password q)

login_found :
    (w : Outside) (r : Drawn) (payload account : Fields) (accounts : Table)
    → is_empty (email_in w.builtins "email" payload) ≡ false
    → is_empty (text_at w.builtins "password" payload) ≡ false
    → find (email_in w.builtins "email" payload) accounts ≡ some account
    → login w r payload accounts
      ≡ check_login w r
          (email_in w.builtins "email" payload)
          (text_at w.builtins "password" payload)
          account
          accounts
unfolding login
login_found w r payload account accounts h k found = rw (h, k, found) refl

-- The account that a request makes.
abbrev account_of : Outside → Drawn → Fields → Fields
account_of w r payload =
    new_account (email_in w.builtins "email" payload) (role_in payload)
      (strip (text_at w.builtins "name" payload))
      (hash_password w.crypto r.salt (text_at w.builtins "password" payload)) closed

-- What a request that makes an account has done.
created :
    (w : Outside) (r : Drawn) (payload body : Fields) (accounts : Table)
    → (create_user w r payload accounts).answer ≡ success body
    → (is_bad_email (email_in w.builtins "email" payload) ≡ false)
      × ((create_user w r payload accounts).accounts
          ≡ upsert (email_in w.builtins "email" payload) (account_of w r payload) accounts)
      × (body ≡ public_user (account_of w r payload))
unfolding create_user
created w r payload body accounts h =
    let o = w.builtins in
    let email = email_in o "email" payload in
    let password = hash_password w.crypto r.salt (text_at o "password" payload) in
    elim (Bool-cases (is_bad_email email)) [
      | inl e ↦ ground (arith, h, e)
      | inr e ↦
          let saved =
            save_account-new_account o email (role_in payload) (strip (text_at o "name" payload))
              password accounts e in
          ground (arith, h, e, saved)
    ]

-- Once an account is made, logging in at its address is answered with the account exactly if the
-- password given has the hash of the account's, so above all with the account's own password; else
-- it is refused with 401. The accounts stay as they are. The library of codes is the documented one.
pub login-create_user :
    (w : Outside) (c : IsCodec w.crypto) (r r2 : Drawn) (payload body credentials : Fields)
    (accounts : Table)
    → (create_user w r payload accounts).answer ≡ success body
    → email_in w.builtins "email" credentials ≡ email_in w.builtins "email" payload
    → is_empty (text_at w.builtins "password" credentials) ≡ false
    → login w r2 credentials (create_user w r payload accounts).accounts ≡ (
        if text_eq
          (w.crypto.pbkdf2 (text_at w.builtins "password" credentials) r.salt iterations)
          (w.crypto.pbkdf2 (text_at w.builtins "password" payload) r.salt iterations)
        then reply body (create_user w r payload accounts).accounts
        else refuse 401 (create_user w r payload accounts).accounts)
login-create_user w c r r2 payload body credentials accounts h same given =
    let o = w.builtins in
    let email = email_in o "email" payload in
    let password = text_at o "password" payload in
    let q = text_at o "password" credentials in
    let name = strip (text_at o "name" payload) in
    let account =
      new_account email (role_in payload) name (hash_password w.crypto r.salt password) closed in
    let (fits, step, told) = created w r payload body accounts h in
    let left = upsert email account accounts in
    let address = not_empty email fits in
    let found : find (email_in o "email" credentials) left ≡ some account =
      ap (λ e. find e left) same
      ∙ find-upsert email email account accounts
      ∙ ap (λ b. if b then some account else find email accounts) (text_eq_refl email) in
    let tried =
      login_found w r2 credentials account left (ap is_empty same ∙ address) given found in
    let checked =
      ap (λ e. check_login w r2 e q account left) same
      ∙ check_login-hash_password w c r r2 email password q name (role_in payload) left in
    rw (step, told) (tried ∙ checked)
