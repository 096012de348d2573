-- ===== src/Accounts/Visits.antt =====
-- Requests that are not an administrator's, and the token of a link that was used.
use mathlib.Core.Path.{subst}
use circle_core.Prelude.{
  ℕ, Bool, sym, if◌then◌else◌, ◌≡◌, refl, true, false, Option, none, some, List, [], ◌∷◌, All,
  Option-cases, inl, inr,
}
use circle_core.Text.{Text, strip}
use circle_core.Value.{text, Fields, field, get, closed}
use circle_core.Value.Update.{has_key}
use circle_core.Builtins.{Builtins, str}
use circle_core.Password.{hash_password}
use circle_core.Resources.{Table, find, patch}
use circle_core.Accounts.{
  Outside, Drawn, Step, refuse, find_by_setup_token, require_user, require_admin, address, email_in,
  text_at, public_user,
}
use circle_core.Accounts.Sessions.{
  reply, after_patch, check_login, login, me, taken_from, profile_writable, update_my_profile,
  ok_body,
}
use circle_core.Accounts.Links.{row_of, with_link, setup_details, setup_changes, setup_complete}
use circle_core.Accounts.Requests.{
  Request, post_login, get_me, patch_me, get_users, post_users, patch_password, patch_email,
  delete_users, post_invite, get_setup, post_setup, handle,
}
use circle_core.Accounts.Kept.{taken_from_lacks, is_admin}
use circle_core.Accounts.Spent.{no_token_left, IsSpent, patch-StaysSpent, changed-StaysSpent}

-- A step after which no account has the token.
data Stays (o : Builtins) (token : Text) : Step → Type 0 where
  stays : (step : Step) → IsSpent o token step.accounts → Stays o token step

stayed :
    {o : Builtins} {token : Text} {step : Step} → Stays o token step → IsSpent o token step.accounts
stayed (stays step h) = h

if-Stays :
    (o : Builtins) (token : Text) (b : Bool) (x y : Step)
    → Stays o token x
    → Stays o token y
    → Stays o token (if b then x else y)
if-Stays o token true x y h k = h
if-Stays o token false x y h k = k

module _ (w : Outside) (r : Drawn) (token : Text) (accounts : Table)
    (spent : IsSpent w.builtins token accounts) where
  refuse-Stays : (code : ℕ) → Stays w.builtins token (refuse code accounts)
  refuse-Stays code = stays (refuse code accounts) spent

  reply-Stays : (body : Fields) → Stays w.builtins token (reply body accounts)
  reply-Stays body = stays (reply body accounts) spent

  changed-Stays :
      (id : Text) (changes : Fields) (body : Fields → Fields)
      → has_key "setupToken" changes ≡ false
      → Stays w.builtins token (after_patch (patch id changes accounts) body accounts)
  changed-Stays id changes body lacks =
      stays (after_patch (patch id changes accounts) body accounts)
        (changed-StaysSpent w.builtins token accounts spent id changes body lacks)

  check_login-Stays :
      (email password : Text) (account : Fields)
      → Stays w.builtins token (check_login w r email password account accounts)
  unfolding check_login has_key
  check_login-Stays email password account =
      if-Stays _ _ _ _ _ (if-Stays _ _ _ _ _ (reply-Stays (public_user account)) (refuse-Stays 401))
        (if-Stays _ _ _ _ _
          (changed-Stays email
            (field "password" (text (hash_password w.crypto r.salt password)) closed)
            (λ d. public_user account) refl)
          (refuse-Stays 401))

  login-Stays : (payload : Fields) → Stays w.builtins token (login w r payload accounts)
  unfolding login
  login-Stays payload =
      let email = email_in w.builtins "email" payload in
      elim (Option-cases (find email accounts)) [
        | inl e ↦ rw (login, e) (if-Stays _ _ _ _ _ (refuse-Stays 400) (refuse-Stays 401))
        | inr (account, e) ↦
            rw (login, e)
              (if-Stays _ _ _ _ _ (refuse-Stays 400)
                (check_login-Stays email (text_at w.builtins "password" payload) account))
      ]

  profile-Stays :
      (payload user : Fields) → Stays w.builtins token (update_my_profile w payload user accounts)
  unfolding update_my_profile
  profile-Stays payload user =
      let o = w.builtins in
      let changes = taken_from o (λ t. t) profile_writable payload in
      let lacks = taken_from_lacks o (λ t. t) profile_writable payload "setupToken" refl in
      if-Stays _ _ _ _ _ (refuse-Stays 400) (
        if-Stays _ _ _ _ _ (refuse-Stays 400)
          (changed-Stays (address o (str o (get "email" user))) changes public_user lacks))

  me-Stays : (user : Fields) → Stays w.builtins token (me w user accounts)
  unfolding me
  me-Stays user =
      let o = w.builtins in
      elim (Option-cases (find (o.lower (strip (str o (get "email" user)))) accounts)) [
        | inl e ↦ rw (me, e) (reply-Stays _)
        | inr (account, e) ↦ rw (me, e) (reply-Stays _)
      ]

  with_link-Stays :
      (link : Text) (handler : Fields → Step)
      → ((account : Fields) → Stays w.builtins token (handler account))
      → Stays w.builtins token (with_link w link handler accounts)
  unfolding with_link
  with_link-Stays link handler k =
      elim (Option-cases (find_by_setup_token w.builtins link accounts)) [
        | inl e ↦ rw (with_link, e) (refuse-Stays 404)
        | inr (account, e) ↦ rw (with_link, e) (if-Stays _ _ _ _ _ (k account) (refuse-Stays 404))
      ]

  setup_complete-Stays :
      (link : Text) (payload : Fields)
      → Stays w.builtins token (setup_complete w r link payload accounts)
  unfolding setup_complete
  setup_complete-Stays link payload =
      let o = w.builtins in
      let password = text_at o "password" payload in
      let changes = setup_changes w r password payload in
      with_link-Stays link _ (λ account. if-Stays _ _ _ _ _ (refuse-Stays 400) (
        stays (after_patch (patch (row_of o account) changes accounts) (λ d. ok_body) accounts) (
          patch-StaysSpent o token accounts spent (row_of o account) changes (λ d. ok_body)
            (λ d e. no_token_left w r password token payload d))))

  require_user-Stays :
      (session : Option Fields) (handler : Fields → Step)
      → ((user : Fields) → Stays w.builtins token (handler user))
      → Stays w.builtins token (require_user session handler accounts)
  unfolding require_user
  require_user-Stays none handler k = refuse-Stays 401
  require_user-Stays (some user) handler k = if-Stays _ _ _ _ _ (refuse-Stays 401) (k user)

  require_admin-Stays :
      (session : Option Fields) (handler : Fields → Step)
      → is_admin session ≡ false
      → Stays w.builtins token (require_admin session handler accounts)
  unfolding require_admin require_user is_admin
  require_admin-Stays none handler n = refuse-Stays 401
  require_admin-Stays (some user) handler n =
      rw n (if-Stays _ _ _ _ _ (refuse-Stays 401) (refuse-Stays 403))

  handle-Stays :
      (session : Option Fields) (request : Request)
      → is_admin session ≡ false
      → Stays w.builtins token (handle w r session request accounts)
  unfolding handle setup_details
  handle-Stays session (post_login payload) n = login-Stays payload
  handle-Stays session get_me n = require_user-Stays session _ (λ user. me-Stays user)
  handle-Stays session (patch_me payload) n =
      require_user-Stays session _ (λ user. profile-Stays payload user)
  handle-Stays session get_users n = require_admin-Stays session _ n
  handle-Stays session (post_users payload) n = require_admin-Stays session _ n
  handle-Stays session (patch_password email payload) n = require_admin-Stays session _ n
  handle-Stays session (patch_email email payload) n = require_admin-Stays session _ n
  handle-Stays session (delete_users email) n = require_admin-Stays session _ n
  handle-Stays session (post_invite payload) n = require_admin-Stays session _ n
  handle-Stays session (get_setup link) n = with_link-Stays link _ (λ account. reply-Stays _)
  handle-Stays session (post_setup link payload) n = setup_complete-Stays link payload

-- A request, with what it finds outside, what is drawn for it, and its session.
pub record Visit : Type 0 where
  pub world : Outside
  pub drawn : Drawn
  pub session : Option Fields
  pub request : Request

-- It is not an administrator's.
abbrev pub IsVisitor : Builtins → Visit → Type 0
IsVisitor o v = (v.world.builtins ≡ o) × (is_admin v.session ≡ false)

unfoldable pub handle_all : List Visit → Table → Table
unfolding handle
handle_all [] accounts = accounts
handle_all (v ∷ visits) accounts =
    handle_all visits (handle v.world v.drawn v.session v.request accounts).accounts

pub handle_all-IsSpent :
    (o : Builtins) (token : Text) (visits : List Visit) (accounts : Table)
    → All (IsVisitor o) visits
    → IsSpent o token accounts
    → IsSpent o token (handle_all visits accounts)
unfolding handle_all
handle_all-IsSpent o token [] accounts visitors spent = spent
handle_all-IsSpent o token (v ∷ visits) accounts visitors spent =
    let own : IsSpent v.world.builtins token accounts =
      subst (λ p. IsSpent p token accounts) (sym visitors.0.0) spent in
    let after = (handle v.world v.drawn v.session v.request accounts).accounts in
    handle_all-IsSpent o token visits after visitors.1 (
      subst (λ p. IsSpent p token after) visitors.0.0
        (stayed (handle-Stays v.world v.drawn token accounts own v.session v.request visitors.0.1)))
