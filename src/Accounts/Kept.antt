-- ===== src/Accounts/Kept.antt =====
-- What requests without an administrator's session leave as it was.
use circle_core.Prelude.{
  ◌≡◌, refl, Bool, false, Option, none, some, List, [], ◌∷◌, any, take, String, arith, str_eq,
  Option-cases, inl, inr,
}
use circle_core.Text.{Text}
use circle_core.Password.{hash_password}
use circle_core.Value.{text, Fields, field, closed, get, is_text}
use circle_core.Value.Update.{update, has_key, get-update}
use circle_core.Builtins.{Builtins, str}
use circle_core.Resources.{Table, find, patch}
use circle_core.Resources.Laws.{field_of, field_of-upsert}
use circle_core.Accounts.{
  Outside, public_user, email_in, text_at, address, Drawn, Step, require_user, require_admin,
  find_by_setup_token,
}
use circle_core.Accounts.Sessions.{
  after_patch, check_login, login, me, taken_from, profile_writable, update_my_profile, ok_body,
}
use circle_core.Accounts.Links.{row_of, with_link, setup_details, setup_changes, setup_complete}
use circle_core.Accounts.Requests.{
  Request, post_login, get_me, patch_me, get_users, post_users, patch_password, patch_email,
  delete_users, post_invite, get_setup, post_setup, handle,
}

-- The fields that a user may write: those of the profile, and the password with its link.
abbrev pub writable : List String
writable = "password" ∷ "setupToken" ∷ "setupTokenExpiresAt" ∷ "name" ∷ "title" ∷ "phone" ∷ []

unfoldable pub is_writable : String → Bool
is_writable key = any (λ k. str_eq k key) writable

after_patch_field :
    (key : String) (j id : Text) (changes : Fields) (body : Fields → Fields) (accounts : Table)
    → has_key key changes ≡ false
    → field_of key j (after_patch (patch id changes accounts) body accounts).accounts
      ≡ field_of key j accounts
unfolding after_patch patch
after_patch_field key j id changes body accounts h = elim (Option-cases (find id accounts)) [
  | inl e ↦ rw (e, after_patch, patch) refl
  | inr (existing, e) ↦
      rw (e, after_patch, patch)
        (field_of-upsert key j id existing (update existing changes) accounts e
          (get-update key existing changes h))
]

pub taken_from_lacks :
    (o : Builtins) (cut : Text → Text) (keys : List String) (payload : Fields) (key : String)
    → any (λ k. str_eq k key) keys ≡ false
    → has_key key (taken_from o cut keys payload) ≡ false
unfolding taken_from has_key
taken_from_lacks o cut [] payload key h = refl
taken_from_lacks o cut (k ∷ keys) payload key h =
    ground (arith, h, taken_from_lacks o cut keys payload key)

unfoldable pub is_admin : Option Fields → Bool
is_admin none = false
is_admin (some user) = is_text "admin" (get "role" user)

module _ (w : Outside) (r : Drawn) (key : String) (j : Text) (h : is_writable key ≡ false)
    (accounts : Table) where
  -- A step leaves the field as it was.
  abbrev IsKept : Step → Type 0
  IsKept step = field_of key j step.accounts ≡ field_of key j accounts

  check_login-IsKept :
      (email password : Text) (account : Fields)
      → IsKept (check_login w r email password account accounts)
  unfolding check_login is_writable has_key
  check_login-IsKept email password account =
      let upgraded =
        after_patch_field key j email
          (field "password" (text (hash_password w.crypto r.salt password)) closed)
          (λ d. public_user account) accounts (ground (arith, h)) in
      ground (arith, upgraded)

  login-IsKept : (payload : Fields) → IsKept (login w r payload accounts)
  unfolding login
  login-IsKept payload =
      let email = email_in w.builtins "email" payload in
      let password = text_at w.builtins "password" payload in
      elim (Option-cases (find email accounts)) [
        | inl e ↦ ground (arith, e)
        | inr (account, e) ↦ ground (arith, e, check_login-IsKept email password account)
      ]

  profile-IsKept : (payload user : Fields) → IsKept (update_my_profile w payload user accounts)
  unfolding update_my_profile is_writable
  profile-IsKept payload user =
      let o = w.builtins in
      let changes = taken_from o (λ t. t) profile_writable payload in
      let lacks = taken_from_lacks o (λ t. t) profile_writable payload key (ground (arith, h)) in
      let patched =
        after_patch_field key j (address o (str o (get "email" user))) changes public_user accounts
          lacks in
      ground (arith, patched)

  me-IsKept : (user : Fields) → IsKept (me w user accounts)
  unfolding me
  me-IsKept user = ground arith

  setup_details-IsKept : (token : Text) → IsKept (setup_details w token accounts)
  unfolding setup_details with_link
  setup_details-IsKept token = ground arith

  setup_complete-IsKept :
      (token : Text) (payload : Fields) → IsKept (setup_complete w r token payload accounts)
  unfolding setup_complete with_link setup_changes is_writable has_key
  setup_complete-IsKept token payload =
      elim (Option-cases (find_by_setup_token w.builtins token accounts)) [
        | inl e ↦ ground (arith, e)
        | inr (account, e) ↦
            let o = w.builtins in
            let password = text_at o "password" payload in
            let lacks =
              taken_from_lacks o (take 120) profile_writable payload key (ground (arith, h)) in
            let patched =
              after_patch_field key j (row_of o account) (setup_changes w r password payload)
                (λ d. ok_body) accounts (ground (arith, h, lacks)) in
            ground (arith, e, patched)
      ]

  require_user-IsKept :
      (session : Option Fields) (handler : Fields → Step)
      → ((user : Fields) → IsKept (handler user))
      → IsKept (require_user session handler accounts)
  unfolding require_user
  require_user-IsKept none handler k = refl
  require_user-IsKept (some user) handler k = ground (arith, k user)

  require_admin-IsKept :
      (session : Option Fields) (handler : Fields → Step)
      → is_admin session ≡ false
      → IsKept (require_admin session handler accounts)
  unfolding require_admin require_user is_admin
  require_admin-IsKept none handler k = refl
  require_admin-IsKept (some user) handler k = ground (arith, k)

  -- Without the session of an administrator no request changes a field of an account, other than the
  -- password, the link for setting it, the name, the title and the phone number: so nobody gives
  -- themselves a role or another address, and no account comes or goes.
  pub handle-IsKept :
      (session : Option Fields) (request : Request)
      → is_admin session ≡ false
      → IsKept (handle w r session request accounts)
  unfolding handle
  handle-IsKept session (post_login payload) n = login-IsKept payload
  handle-IsKept session get_me n = require_user-IsKept session _ (λ user. me-IsKept user)
  handle-IsKept session (patch_me payload) n =
      require_user-IsKept session _ (λ user. profile-IsKept payload user)
  handle-IsKept session get_users n = require_admin-IsKept session _ n
  handle-IsKept session (post_users payload) n = require_admin-IsKept session _ n
  handle-IsKept session (patch_password email payload) n = require_admin-IsKept session _ n
  handle-IsKept session (patch_email email payload) n = require_admin-IsKept session _ n
  handle-IsKept session (delete_users email) n = require_admin-IsKept session _ n
  handle-IsKept session (post_invite payload) n = require_admin-IsKept session _ n
  handle-IsKept session (get_setup token) n = setup_details-IsKept token
  handle-IsKept session (post_setup token payload) n = setup_complete-IsKept token payload
