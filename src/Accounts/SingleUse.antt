-- ===== src/Accounts/SingleUse.antt =====
-- About a link for setting a password, once it was used.
use circle_core.Prelude.{
  ◌≤◌, ◌≡◌, refl, ◌∙◌, ap, true, false, none, some, List, [], ◌∷◌, arith, All, count_if, Bool-cases,
  Option-cases, inl, inr,
}
use circle_core.Text.{Text, text_eq, text_eq_iff, is_empty}
use circle_core.Value.{Fields}
use circle_core.Value.Update.{update}
use circle_core.Builtins.{Builtins}
use circle_core.Resources.{Table, find, upsert, patch}
use circle_core.Accounts.{
  Outside, Drawn, success, refused, text_at, has_setup_token, find_by_setup_token,
}
use circle_core.Accounts.Sessions.{after_patch, ok_body}
use circle_core.Accounts.Links.{with_link, row_of, setup_changes, setup_complete}
use circle_core.Accounts.Spent.{no_token_left, IsSpent, none-IsSpent, IsSpent-none}
use circle_core.Accounts.Visits.{Visit, IsVisitor, handle_all, handle_all-IsSpent}

-- The rows with the token are the one row under an id, and that is the row its account names.
abbrev pub IsOwned : Builtins → Text → Text → Table → Type 0
IsOwned o token id accounts =
    All (λ row. has_setup_token o token row.1 ≡ true → (row.0 ≡ id) × (row_of o row.1 ≡ id))
      accounts
    × (count_if (λ row. text_eq row.0 id) accounts ≤ 1)

find_by_setup_token-none :
    (o : Builtins) (token id : Text) (rows : Table)
    → All (λ row. has_setup_token o token row.1 ≡ true → (row.0 ≡ id) × (row_of o row.1 ≡ id)) rows
    → count_if (λ row. text_eq row.0 id) rows ≤ 0
    → find_by_setup_token o token rows ≡ none
unfolding find_by_setup_token
find_by_setup_token-none o token id [] owned h = refl
find_by_setup_token-none o token id ((key, d) ∷ rows) owned h =
    let rest = find_by_setup_token-none o token id rows owned.1 in
    ground (arith, h, rest, owned.0, text_eq_iff key id)

burnt :
    (o : Builtins) (token id : Text) (d : Fields) (rows : Table)
    → IsOwned o token id rows
    → has_setup_token o token d ≡ false
    → find_by_setup_token o token (upsert id d rows) ≡ none
unfolding find_by_setup_token upsert
burnt o token id d [] owned h = ground (arith, h)
burnt o token id d ((key, old) ∷ rows) owned h = elim (Bool-cases (text_eq key id)) [
  | inl e ↦
      let rest = find_by_setup_token-none o token id rows owned.0.1 (ground (arith, e, owned.1)) in
      ground (arith, e, h, rest)
  | inr e ↦
      let rest = burnt o token id d rows (owned.0.1, ground (arith, e, owned.1)) h in
      ground (arith, e, h, rest, owned.0.0, text_eq_iff key id)
]

-- Where a token is found, the account has it.
found_has_token :
    (o : Builtins) (token : Text) (rows : Table) (account : Fields)
    → find_by_setup_token o token rows ≡ some account
    → has_setup_token o token account ≡ true
unfolding find_by_setup_token
found_has_token o token [] account h = ground (arith, h)
found_has_token o token ((key, d) ∷ rows) account h =
    elim (Bool-cases (has_setup_token o token d)) [
      | inl e ↦ ground (arith, h, e)
      | inr e ↦ ground (arith, h, e, found_has_token o token rows account)
    ]

-- The row that the account found names, and so the row that is changed, is the owner's.
found_row :
    (o : Builtins) (token id : Text) (rows : Table) (account : Fields)
    → All (λ row. has_setup_token o token row.1 ≡ true → (row.0 ≡ id) × (row_of o row.1 ≡ id)) rows
    → find_by_setup_token o token rows ≡ some account
    → row_of o account ≡ id
unfolding find_by_setup_token
found_row o token id [] account owned h = ground (arith, h)
found_row o token id ((key, d) ∷ rows) account owned h =
    elim (Bool-cases (has_setup_token o token d)) [
      | inl e ↦ elim (Bool-cases (is_empty token)) [
        | inl t ↦ ground (arith, h, t)
        | inr t ↦
            let found : some d ≡ some account = rw (t, e) at h in
            let one : account ≡ d = cc in rw one (owned.0 e).1
      ]
      | inr e ↦ ground (arith, h, e, found_row o token id rows account owned.1)
    ]

-- A use of the link that succeeds leaves no account with the token.
setup_complete_burns :
    (w : Outside) (r : Drawn) (token id : Text) (payload : Fields) (accounts : Table)
    → IsOwned w.builtins token id accounts
    → (setup_complete w r token payload accounts).answer ≡ success ok_body
    → find_by_setup_token w.builtins token (setup_complete w r token payload accounts).accounts
      ≡ none
unfolding setup_complete with_link after_patch patch
setup_complete_burns w r token id payload accounts owned h =
    let o = w.builtins in
    let password = text_at o "password" payload in
    let changes = setup_changes w r password payload in
    elim (Option-cases (find_by_setup_token o token accounts)) [
      | inl e ↦ ground (arith, h, e)
      | inr (account, e) ↦ elim (Option-cases (find (row_of o account) accounts)) [
        | inl e2 ↦ ground (arith, h, e, e2)
        | inr (existing, e2) ↦
            let gone =
              burnt o token id (update existing changes) accounts owned
                (no_token_left w r password token payload existing) in
            ground (arith, h, e, e2, gone, found_row o token id accounts account owned.0 e)
      ]
    ]

no_link :
    (w : Outside) (r : Drawn) (token : Text) (payload : Fields) (accounts : Table)
    → find_by_setup_token w.builtins token accounts ≡ none
    → (setup_complete w r token payload accounts).answer ≡ refused 404
unfolding setup_complete with_link
no_link w r token payload accounts h = ground (arith, h)

not_empty :
    (o : Builtins) (token : Text) (rows : Table) (account : Fields)
    → find_by_setup_token o token rows ≡ some account
    → is_empty token ≡ false
unfolding find_by_setup_token
not_empty o token [] account h = ground (arith, h)
not_empty o token ((key, d) ∷ rows) account h = ground (arith, h, not_empty o token rows account)

success-not_empty :
    (w : Outside) (r : Drawn) (token : Text) (payload : Fields) (accounts : Table)
    → (setup_complete w r token payload accounts).answer ≡ success ok_body
    → is_empty token ≡ false
unfolding setup_complete with_link
success-not_empty w r token payload accounts h =
    elim (Option-cases (find_by_setup_token w.builtins token accounts)) [
      | inl e ↦ ground (arith, h, e)
      | inr (account, e) ↦ not_empty w.builtins token accounts account e
    ]

-- A link that has set a password is refused from then on, whatever requests that are not an
-- administrator's come between, if its token and the row it names belong to no other account.
pub setup_complete_once :
    (w w2 : Outside) (r r2 : Drawn) (token id : Text) (payload payload2 : Fields) (accounts : Table)
    (visits : List Visit)
    → IsOwned w.builtins token id accounts
    → w2.builtins ≡ w.builtins
    → All (IsVisitor w.builtins) visits
    → (setup_complete w r token payload accounts).answer ≡ success ok_body
    → (setup_complete w2 r2 token payload2
        (handle_all visits (setup_complete w r token payload accounts).accounts)).answer
      ≡ refused 404
setup_complete_once w w2 r r2 token id payload payload2 accounts visits owned same visitors h =
    let left = (setup_complete w r token payload accounts).accounts in
    let spent : IsSpent w.builtins token left =
      none-IsSpent w.builtins token left (success-not_empty w r token payload accounts h)
        (setup_complete_burns w r token id payload accounts owned h) in
    let still = handle_all-IsSpent w.builtins token visits left visitors spent in
    no_link w2 r2 token payload2 (handle_all visits left) (
      ap (λ o. find_by_setup_token o token (handle_all visits left)) same
      ∙ IsSpent-none w.builtins token (handle_all visits left) still)
