-- ===== src/Accounts/Spent.antt =====
-- Accounts none of which has some token, and what leaves it so.
use circle_core.Prelude.{
  ◌≡◌, refl, ◌∙◌, false, none, some, [], ◌∷◌, arith, All, take, Bool-cases, Option-cases, inl, inr,
}
use circle_core.Text.{Text, text_eq, is_empty}
use circle_core.Value.{Value, null, text, Fields, field, get, is_falsy}
use circle_core.Value.Update.{set, update, has_key, get-set, get-update}
use circle_core.Builtins.{Builtins, str_or_empty}
use circle_core.Password.{hash_password}
use circle_core.Resources.{Table, find, upsert, patch}
use circle_core.Accounts.{Outside, Drawn, Step, has_setup_token, find_by_setup_token}
use circle_core.Accounts.Sessions.{after_patch, taken_from, profile_writable}
use circle_core.Accounts.Links.{setup_changes}
use circle_core.Accounts.Kept.{taken_from_lacks}

token_cleared :
    (hashed : Value) (taken existing : Fields)
    → has_key "setupToken" taken ≡ false
    → get "setupToken" (
        update existing (
          field "password" hashed
            (field "setupToken" null (field "setupTokenExpiresAt" null taken))))
      ≡ null
unfolding update
token_cleared hashed taken existing lacks =
    let with_password = set "password" hashed existing in
    let with_token = set "setupToken" null with_password in
    get-update "setupToken" (set "setupTokenExpiresAt" null with_token) taken lacks
    ∙ get-set "setupToken" "setupTokenExpiresAt" null with_token
    ∙ get-set "setupToken" "setupToken" null with_password

pub no_token_left :
    (w : Outside) (r : Drawn) (password token : Text) (payload existing : Fields)
    → has_setup_token w.builtins token (update existing (setup_changes w r password payload))
      ≡ false
unfolding has_setup_token setup_changes str_or_empty is_falsy is_empty
no_token_left w r password token payload existing =
    let lacks = taken_from_lacks w.builtins (take 120) profile_writable payload "setupToken" refl in
    rw
      (token_cleared (text (hash_password w.crypto r.salt password))
        (taken_from w.builtins (take 120) profile_writable payload) existing lacks)
      refl

-- No account has the token.
abbrev pub IsSpent : Builtins → Text → Table → Type 0
IsSpent o token = All (λ row. has_setup_token o token row.1 ≡ false)

pub none-IsSpent :
    (o : Builtins) (token : Text) (rows : Table)
    → is_empty token ≡ false
    → find_by_setup_token o token rows ≡ none
    → IsSpent o token rows
unfolding find_by_setup_token
none-IsSpent o token [] given h = tt
none-IsSpent o token ((key, d) ∷ rows) given h =
    (ground (arith, h, given), none-IsSpent o token rows given (ground (arith, h, given)))

pub IsSpent-none :
    (o : Builtins) (token : Text) (rows : Table)
    → IsSpent o token rows
    → find_by_setup_token o token rows ≡ none
unfolding find_by_setup_token
IsSpent-none o token [] h = refl
IsSpent-none o token ((key, d) ∷ rows) h = ground (arith, h.0, IsSpent-none o token rows h.1)

upsert-IsSpent :
    (o : Builtins) (token id : Text) (d : Fields) (rows : Table)
    → has_setup_token o token d ≡ false
    → IsSpent o token rows
    → IsSpent o token (upsert id d rows)
unfolding upsert
upsert-IsSpent o token id d [] e h = (e, tt)
upsert-IsSpent o token id d ((key, old) ∷ rows) e h = elim (Bool-cases (text_eq key id)) [
  | inl same ↦ rw same (e, h.1)
  | inr other ↦ rw other (h.0, upsert-IsSpent o token id d rows e h.1)
]

find-IsSpent :
    (o : Builtins) (token id : Text) (d : Fields) (rows : Table)
    → IsSpent o token rows
    → find id rows ≡ some d
    → has_setup_token o token d ≡ false
unfolding find
find-IsSpent o token id d [] h e = ground (arith, e)
find-IsSpent o token id d ((key, old) ∷ rows) h e = elim (Bool-cases (text_eq key id)) [
  | inl same ↦ let found : some old ≡ some d = rw same at e in let one : d ≡ old = cc in rw one h.0
  | inr other ↦ find-IsSpent o token id d rows h.1 (rw other at e)
]

-- The token is as before where its field is.
same_token :
    (o : Builtins) (token : Text) (d e : Fields)
    → get "setupToken" d ≡ get "setupToken" e
    → has_setup_token o token d ≡ has_setup_token o token e
unfolding has_setup_token
same_token o token d e h = rw h refl

module _ (o : Builtins) (token : Text) (accounts : Table) (spent : IsSpent o token accounts) where
  abbrev pub StaysSpent : Step → Type 0
  StaysSpent step = IsSpent o token step.accounts

  -- A change of an account after which it has not the token.
  pub patch-StaysSpent :
      (id : Text) (changes : Fields) (body : Fields → Fields)
      → ((d : Fields)
          → has_setup_token o token d ≡ false
          → has_setup_token o token (update d changes) ≡ false)
      → StaysSpent (after_patch (patch id changes accounts) body accounts)
  unfolding after_patch patch
  patch-StaysSpent id changes body k = elim (Option-cases (find id accounts)) [
    | inl e ↦ rw (e, after_patch, patch) spent
    | inr (d, e) ↦
        rw (e, after_patch, patch)
          (upsert-IsSpent o token id (update d changes) accounts
            (k d (find-IsSpent o token id d accounts spent e)) spent)
  ]

  pub changed-StaysSpent :
      (id : Text) (changes : Fields) (body : Fields → Fields)
      → has_key "setupToken" changes ≡ false
      → StaysSpent (after_patch (patch id changes accounts) body accounts)
  changed-StaysSpent id changes body lacks =
      patch-StaysSpent id changes body (λ d e.
        same_token o token (update d changes) d (get-update "setupToken" d changes lacks) ∙ e)
