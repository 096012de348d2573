-- ===== src/Accounts/Links.antt =====
-- The links by which an invited user sets a password.
use circle_core.Prelude.{none, some, [], if◌then◌else◌, ltb, length, take}
use circle_core.Text.{Text}
use circle_core.Value.{null, text, Fields, field, closed, get, is_falsy}
use circle_core.Value.Update.{get_or}
use circle_core.Builtins.{Builtins, str}
use circle_core.Password.{hash_password}
use circle_core.Resources.{Table, patch}
use circle_core.Accounts.{Outside, Drawn, Step, refuse, text_at, setup_is_live, find_by_setup_token}
use circle_core.Accounts.Sessions.{reply, after_patch, taken_from, profile_writable, ok_body}

-- What stands behind the two routes of a link: the account whose link it is, if the link is live.
unfoldable pub with_link : Outside → Text → (Fields → Step) → Table → Step
unfolding find_by_setup_token setup_is_live
with_link w token handler accounts = elim (find_by_setup_token w.builtins token accounts) [
  | none ↦ refuse 404 accounts
  | some account ↦
      let answer = handler account in
      if setup_is_live w account then answer else refuse 404 accounts
]

unfoldable pub setup_details : Outside → Text → Table → Step
unfolding with_link get_or
setup_details w token accounts =
    with_link w token
      (λ account.
        reply
          (field "email" (get "email" account) (
            field "name" (get_or "name" (text []) account)
              (field "title" (get_or "title" (text []) account) closed)))
          accounts)
      accounts

-- The row that is changed: `str(account.get("email") or account.get("id"))`.
unfoldable pub row_of : Builtins → Fields → Text
row_of o account =
    str o (if is_falsy (get "email" account) then get "id" account else get "email" account)

-- The changes that set the password and burn the link.
unfoldable pub setup_changes : Outside → Drawn → Text → Fields → Fields
unfolding taken_from
setup_changes w r password payload =
    field "password" (text (hash_password w.crypto r.salt password)) (
      field "setupToken" null (
        field "setupTokenExpiresAt" null
          (taken_from w.builtins (take 120) profile_writable payload)))

unfoldable pub setup_complete : Outside → Drawn → Text → Fields → Table → Step
unfolding with_link text_at setup_changes after_patch row_of
setup_complete w r token payload accounts =
    let password = text_at w.builtins "password" payload in
    with_link w token
      (λ account.
        let done =
          after_patch
            (patch (row_of w.builtins account) (setup_changes w r password payload) accounts)
            (λ d. ok_body) accounts in
        if ltb (length password) 8 then refuse 400 accounts else done)
      accounts
