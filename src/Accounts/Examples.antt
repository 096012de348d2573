-- ===== src/Accounts/Examples.antt =====
-- An account that is made, logged in to, and one that is invited; with codes in which every byte is
-- one character, and passwords that are their own hash.
use circle_core.Prelude.{
  ℕ, ◌+◌, ◌-◌, ◌≡◌, refl, ap, true, not, Option, none, some, List, [], ◌∷◌, if◌then◌else◌, ◌==◌,
  all, arith,
}
use circle_core.Text.{Text, codes, text_eq, lstrip, rstrip, strip, is_space, is_empty, starts_with}
use circle_core.Text.Ops.{contains}
use circle_core.Value.{text, Fields, field, closed, get, text_of, is_falsy, is_text}
use circle_core.Value.Update.{set, update, has_key, get_or}
use circle_core.Builtins.{str, str_or_empty, simple}
use circle_core.Password.{Crypto, iterations, hash_password}
use circle_core.Password.Stored.{IsCodec}
use circle_core.Resources.{Table, find, upsert, patch, create, replace, id_of}
use circle_core.Accounts.{
  Outside, Drawn, success, refused, email_in, text_at, public_user, refuse, setup_is_live,
  has_setup_token, find_by_setup_token, is_bad_email, is_bad_role,
}
use circle_core.Accounts.Sessions.{reply, login, taken_from, after_patch, ok_body}
use circle_core.Accounts.Admin.{new_account, save_account, role_in, create_user}
use circle_core.Accounts.Links.{with_link, row_of, setup_changes, setup_complete}
use circle_core.Accounts.Requests.{patch_me, post_setup, handle}
use circle_core.Resources.Laws.{field_of}
use circle_core.Accounts.Kept.{is_admin, is_writable, handle-IsKept}
use circle_core.Accounts.Visits.{Visit, handle_all}
use circle_core.Accounts.SingleUse.{setup_complete_once}
use circle_core.Accounts.Login.{login-create_user}

abbrev encode : List ℕ → Text
encode [] = []
encode (b ∷ bytes) = (b + 37) ∷ encode bytes

abbrev decode : Text → List ℕ
decode [] = []
decode (c ∷ t) = (c - 37) ∷ decode t

abbrev plain_crypto : Crypto
plain_crypto = record {
  pbkdf2 = λ plaintext salt n. plaintext;
  b64e = encode;
  b64d = λ t. some (decode t);
  rounds = λ t. if text_eq t (codes "240000") then some iterations else none;
}

decode-encode : (bytes : List ℕ) → decode (encode bytes) ≡ bytes
decode-encode [] = refl
decode-encode (b ∷ bytes) =
    let byte : b + 37 - 37 ≡ b = omega arith in rw (byte, decode-encode bytes) refl

encode_no_dollar : (bytes : List ℕ) → all (λ x. not (x == b'$')) (encode bytes) ≡ true
encode_no_dollar [] = refl
encode_no_dollar (b ∷ bytes) = ground (arith, encode_no_dollar bytes)

plain_crypto-IsCodec : IsCodec plain_crypto
plain_crypto-IsCodec = record {
  decodes = λ bytes. ap some (decode-encode bytes);
  no_dollar = encode_no_dollar;
  reads_rounds = unfold text_eq in refl;
}

abbrev world : Outside
world = record {
  builtins = simple;
  crypto = plain_crypto;
  now = 5;
  parse_time = λ t. some 10;
  setup_expiry = codes "later";
}

abbrev drawn : Drawn
drawn = record { salt = 1 ∷ 2 ∷ []; token = codes "tok" }

abbrev asha_payload : Fields
asha_payload =
    field "email" (text (codes " asha@corp.in ")) (field "password" (text (codes "secret")) closed)

abbrev asha : Fields
asha = public_user (
    new_account (codes "asha@corp.in") (text (codes "hr")) []
      (hash_password plain_crypto (1 ∷ 2 ∷ []) (codes "secret")) closed)

abbrev wrong_password : Fields
wrong_password =
    field "email" (text (codes "asha@corp.in")) (field "password" (text (codes "secrets")) closed)

made : (create_user world drawn asha_payload []).answer ≡ success asha
unfolding create_user email_in text_at role_in new_account save_account create replace id_of upsert
    set get get_or has_key str text_of is_falsy is_text is_empty is_bad_email is_bad_role contains
    starts_with text_eq strip lstrip rstrip is_space public_user hash_password
made = refl

same_address : email_in simple "email" wrong_password ≡ email_in simple "email" asha_payload
unfolding email_in get_or get has_key str text_of strip lstrip rstrip is_space
same_address = refl

login-create_user_example :
    login world drawn wrong_password (create_user world drawn asha_payload []).accounts ≡ (
      if text_eq (codes "secrets") (codes "secret")
      then reply asha (create_user world drawn asha_payload []).accounts
      else refuse 401 (create_user world drawn asha_payload []).accounts)
unfolding text_at text_of get_or get has_key str
login-create_user_example =
    login-create_user world plain_crypto-IsCodec drawn drawn asha_payload asha wrong_password []
      made same_address (unfold text_at get_or get has_key str text_of is_empty in refl)

abbrev invited : Table
invited =
    (
      codes "ravi@corp.in",
      new_account (codes "ravi@corp.in") (text (codes "hr")) [] [] (
          field "setupToken" (text (codes "tok"))
            (field "setupTokenExpiresAt" (text (codes "later")) closed)),
    )
    ∷ []

abbrev chosen : Fields
chosen = field "password" (text (codes "longer secret")) closed

first_use : (setup_complete world drawn (codes "tok") chosen invited).answer ≡ success ok_body
unfolding setup_complete with_link find_by_setup_token has_setup_token setup_is_live new_account
    row_of setup_changes taken_from after_patch patch find upsert update set get get_or has_key str
    str_or_empty text_at text_of is_falsy is_empty text_eq hash_password
first_use = refl

-- Somebody without a session tries the link in between.
abbrev visits : List Visit
visits =
    record {
      world = world;
      drawn = drawn;
      session = none;
      request = post_setup (codes "tok") chosen;
    }
    ∷ []

setup_complete_once_example :
    (setup_complete world drawn
      (codes "tok")
      chosen
      (handle_all visits (setup_complete world drawn (codes "tok") chosen invited).accounts)).answer
    ≡ refused 404
unfolding row_of new_account get text_of str is_falsy is_empty is_admin
setup_complete_once_example =
    setup_complete_once world world drawn drawn (codes "tok") (codes "ravi@corp.in") chosen chosen
      invited visits (((λ h. (refl, refl)), tt), (unfold text_eq in omega arith)) refl
      ((refl, refl), tt) first_use

abbrev promoted : Fields
promoted = field "name" (text (codes "ravi")) (field "role" (text (codes "admin")) closed)

abbrev ravi_session : Option Fields
ravi_session =
    some (field "email" (text (codes "ravi@corp.in")) (field "role" (text (codes "hr")) closed))

handle-IsKept_example :
    field_of "role"
      (codes "ravi@corp.in")
      (handle world drawn ravi_session (patch_me promoted) invited).accounts
    ≡ field_of "role" (codes "ravi@corp.in") invited
handle-IsKept_example =
    handle-IsKept world drawn "role" (codes "ravi@corp.in") (unfold is_writable in refl) invited
      ravi_session (patch_me promoted) (unfold is_admin is_text get text_of text_eq in refl)
