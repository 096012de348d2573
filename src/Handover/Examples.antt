-- ===== src/Handover/Examples.antt =====
-- An employee who hands in an address, a password and two extras, one with a blank key.
use circle_core.Prelude.{◌≡◌, refl, Option, none, some, [], ◌∷◌}
use circle_core.Text.{Text, codes, is_empty, text_eq}
use circle_core.Value.{text, text_of, Fields, field, closed, get}
use circle_core.Resources.{Table}
use circle_core.Handover.{
  Cipher, Clock, CredentialsIn, is_expired, by_token, submit_credentials, reveal, shown,
}
use circle_core.Handover.Credentials.{IsSound, kept_extras, status_after, reveal-submit_credentials}

abbrev opening : Text → Option Text
opening [] = none
opening (c ∷ t) = some t

-- A cipher that puts a byte before the text.
abbrev prefixed : Cipher
prefixed = record {
  credentials_key = [];
  smtp_password = codes "s";
  aws_secret_access_key = [];
  encrypt = λ secret t. 0 ∷ t;
  decrypt = λ secret t. opening t;
}

prefixed-IsSound : IsSound prefixed
unfolding is_empty
prefixed-IsSound secret t = (refl, refl)

abbrev clock : Clock
clock = record { now = 5; now_text = codes "5"; parse_time = λ t. some 9 }

abbrev given : CredentialsIn
given = record {
  work_email = codes "a@corp.in";
  password = codes "pw";
  extras = (codes "vpn", codes "x1") ∷ (codes " ", codes "x2") ∷ [];
}

abbrev request : Fields
request = field "token" (text (codes "t1")) (
    field "employeeId" (text (codes "e1"))
      (field "expiresAt" (text (codes "9")) (field "status" (text (codes "Sent")) closed)))

abbrev rows : Table
rows = (codes "e1", request) ∷ []

reveal-submit_credentials_example :
    reveal prefixed (codes "e1") (submit_credentials prefixed clock (codes "t1") given rows).rows
    ≡ shown record {
      work_email = text (codes "a@corp.in");
      password = codes "pw";
      extras = kept_extras given.extras;
      submitted_at = text (codes "5");
      status = status_after request;
    }
reveal-submit_credentials_example =
    reveal-submit_credentials prefixed prefixed-IsSound clock (codes "t1") (codes "e1") given
      request rows (unfold by_token text_of get text_eq in refl)
      (unfold is_expired text_of get in refl) (unfold get in refl)
