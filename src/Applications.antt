-- ===== src/Applications.antt =====
-- app/api/routes/public.py: the codes by which applicants show that an address is theirs. A time is a
-- number of microseconds; one that was printed reads back as itself.
pub mod Forms
pub mod Apply
pub mod Guesses
pub mod Single
mod Examples
use circle_core.Prelude.{
  ℕ, Bool, true, false, Option, none, some, List, [], ◌∷◌, ◌++◌, ◌+◌, ◌*◌, ◌&&◌, if◌then◌else◌, leb,
  ltb, length, keep_if,
}
use circle_core.Text.{Text, text_eq, strip}
use circle_core.Resources.{Rows, find, upsert, remove}

-- A row of the table of codes.
pub record Otp : Type 0 where
  pub code : Text
  pub issued_times : List ℕ
  pub expires_at : ℕ
  pub attempts : ℕ
  pub verified : Bool
  pub verified_at : Option ℕ

-- What is taken from outside: the case map, and the settings.
pub record Outside : Type 0 where
  pub lower : Text → Text
  pub max_per_email_per_hour : ℕ
  pub resend_cooldown : ℕ

abbrev pub minutes : ℕ → ℕ
minutes n = n * 60000000

abbrev pub otp_ttl : ℕ
otp_ttl = minutes 10

abbrev pub verified_ttl : ℕ
verified_ttl = minutes 30

abbrev pub max_attempts : ℕ
max_attempts = 5

abbrev pub issue_window : ℕ
issue_window = minutes 60

unfoldable pub norm_email : Outside → Text → Text
norm_email w email = w.lower (strip email)

-- The answers of the two routes; `issued` mails the code, `swallowed` looks the same from outside.
pub data Answer : Type 0 where
  issued : Text → Answer
  swallowed : Answer
  rate_limited : Answer
  verified : Answer
  not_requested : Answer
  expired : Answer
  too_many : Answer
  incorrect : Answer

pub record Step : Type 0 where
  pub answer : Answer
  pub otps : Rows Otp

abbrev pub say : Answer → Rows Otp → Step
say answer otps = record { answer = answer; otps = otps }

-- The times of issue that are still in the window.
unfoldable pub recent_issues : ℕ → Option Otp → List ℕ
recent_issues now none = []
recent_issues now (some otp) = keep_if (λ t. ltb now (t + issue_window)) otp.issued_times

-- `max(times, default=None)`
unfoldable pub last_of : List ℕ → Option ℕ
last_of [] = none
last_of (t ∷ ts) = elim (last_of ts) [ none ↦ some t | some u ↦ if leb t u then some u else some t ]

unfoldable pub in_cooldown : Outside → ℕ → List ℕ → Bool
unfolding last_of
in_cooldown w now times = elim (last_of times) [
  | none ↦ false
  | some t ↦ ltb now (t + w.resend_cooldown)
]

unfoldable pub new_otp : ℕ → Text → List ℕ → Otp
new_otp now code times = record {
  code = code;
  issued_times = times ++ (now ∷ []);
  expires_at = now + otp_ttl;
  attempts = 0;
  verified = false;
  verified_at = none;
}

-- `otp_request` with the code that is drawn.
unfoldable pub otp_request : Outside → ℕ → Text → Text → Rows Otp → Step
unfolding norm_email recent_issues in_cooldown new_otp find upsert
otp_request w now code email otps =
    let key = norm_email w email in
    let times = recent_issues now (find key otps) in
    if leb w.max_per_email_per_hour (length times)
    then say rate_limited otps
    else if in_cooldown w now times
    then say swallowed otps
    else say (issued code) (upsert key (new_otp now code times) otps)

-- The check of a code against the row, and the row afterwards.
unfoldable pub check_code : ℕ → Text → Text → Otp → Rows Otp → Step
unfolding upsert
check_code now key code otp otps =
    if ltb otp.expires_at now
    then say expired otps
    else if leb max_attempts otp.attempts
    then say too_many otps
    else if text_eq otp.code code
    then say verified (upsert key (record otp { verified = true; verified_at = some now }) otps)
    else say incorrect (upsert key (record otp { attempts = otp.attempts + 1 }) otps)

unfoldable pub otp_verify : Outside → ℕ → Text → Text → Rows Otp → Step
unfolding norm_email find check_code
otp_verify w now code email otps = elim (find (norm_email w email) otps) [
  | none ↦ say not_requested otps
  | some otp ↦ check_code now (norm_email w email) code otp otps
]

-- `_email_is_verified`
unfoldable pub email_is_verified : Outside → ℕ → Text → Rows Otp → Bool
unfolding norm_email find
email_is_verified w now email otps = elim (find (norm_email w email) otps) [
  | none ↦ false
  | some otp ↦ elim otp.verified_at [
    | none ↦ false
    | some t ↦ otp.verified && leb now (t + verified_ttl)
  ]
]

-- The end of `apply`: the verification is used up.
unfoldable pub consume : Outside → Text → Rows Otp → Rows Otp
unfolding norm_email remove
consume w email otps = remove (norm_email w email) otps
