-- ===== src/Accounts/Requests.antt =====
-- The routes under /api/auth as one function of a request.
use circle_core.Prelude.{Option}
use circle_core.Text.{Text}
use circle_core.Value.{Fields}
use circle_core.Resources.{Table}
use circle_core.Accounts.{Outside, Drawn, Step, require_user, require_admin}
use circle_core.Accounts.Sessions.{login, me, update_my_profile}
use circle_core.Accounts.Admin.{
  list_users, create_user, change_password, change_email, delete_user, invite_user,
}
use circle_core.Accounts.Links.{setup_details, setup_complete}

-- The requests that the routes take.
pub data Request : Type 0 where
  post_login : Fields → Request
  get_me : Request
  patch_me : Fields → Request
  get_users : Request
  post_users : Fields → Request
  patch_password : Text → Fields → Request
  patch_email : Text → Fields → Request
  delete_users : Text → Request
  post_invite : Fields → Request
  get_setup : Text → Request
  post_setup : Text → Fields → Request

unfoldable pub handle : Outside → Drawn → Option Fields → Request → Table → Step
unfolding login me update_my_profile list_users create_user change_password change_email delete_user
    invite_user setup_details setup_complete require_user require_admin
handle w r session (post_login payload) accounts = login w r payload accounts
handle w r session get_me accounts = require_user session (λ user. me w user accounts) accounts
handle w r session (patch_me payload) accounts =
    require_user session (λ user. update_my_profile w payload user accounts) accounts
handle w r session get_users accounts = require_admin session (λ user. list_users accounts) accounts
handle w r session (post_users payload) accounts =
    require_admin session (λ user. create_user w r payload accounts) accounts
handle w r session (patch_password email payload) accounts =
    require_admin session (λ user. change_password w r email payload accounts) accounts
handle w r session (patch_email email payload) accounts =
    require_admin session (λ user. change_email w email payload accounts) accounts
handle w r session (delete_users email) accounts =
    require_admin session (λ user. delete_user w email accounts) accounts
handle w r session (post_invite payload) accounts =
    require_admin session (λ user. invite_user w r payload accounts) accounts
handle w r session (get_setup token) accounts = setup_details w token accounts
handle w r session (post_setup token payload) accounts = setup_complete w r token payload accounts
