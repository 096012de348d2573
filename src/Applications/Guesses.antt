-- ===== src/Applications/Guesses.antt =====
-- How many wrong codes are compared with the one that was mailed.
use circle_core.Prelude.{
  ℕ, ◌+◌, ◌-◌, ◌*◌, ◌≤◌, ◌≡◌, refl, ◌∙◌, ap, Bool, true, false, Option, none, some, List, [], ◌∷◌,
  if◌then◌else◌, arith, leb, ltb, length, Bool-cases, Option-cases, inl, inr,
}
use circle_core.Text.{Text, text_eq, text_eq_iff, text_eq_refl}
use circle_core.Resources.{Rows, find, upsert, remove}
use circle_core.Resources.Laws.{find-upsert, find-remove}
use circle_core.Applications.{
  Otp, Outside, max_attempts, norm_email, Answer, issued, swallowed, incorrect, Step, say,
  recent_issues, in_cooldown, new_otp, otp_request, check_code, otp_verify, consume,
}

-- What may happen to the table: the two routes, for any address, and an application that is stored.
pub data Event : Type 0 where
  request : ℕ → Text → Text → Event
  verify : ℕ → Text → Text → Event
  applied : Text → Event

-- What an event for the address under a key adds: to the codes that were mailed, and to the wrong
-- codes that were compared.
unfoldable pub mailed : Answer → ℕ
mailed (issued code) = 1
mailed _ = 0

unfoldable pub missed : Answer → ℕ
missed incorrect = 1
missed _ = 0

unfoldable pub handle : Outside → Event → Rows Otp → Step
unfolding otp_request otp_verify consume
handle w (request now code email) otps = otp_request w now code email otps
handle w (verify now code email) otps = otp_verify w now code email otps
handle w (applied email) otps = say swallowed (consume w email otps)

abbrev pub address_of : Event → Text
address_of (request now code email) = email
address_of (verify now code email) = email
address_of (applied email) = email

unfoldable pub is_for : Outside → Text → Event → Bool
unfolding norm_email
is_for w key e = text_eq (norm_email w (address_of e)) key

-- The codes mailed to the address under a key, and the wrong codes compared for it, in the course of
-- events.
unfoldable pub mails : Outside → Text → List Event → Rows Otp → ℕ
unfolding handle mailed is_for
mails w key [] otps = 0
mails w key (e ∷ es) otps =
    let rest = mails w key es (handle w e otps).otps in
    if is_for w key e then mailed (handle w e otps).answer + rest else rest

unfoldable pub misses : Outside → Text → List Event → Rows Otp → ℕ
unfolding handle missed is_for
misses w key [] otps = 0
misses w key (e ∷ es) otps =
    let rest = misses w key es (handle w e otps).otps in
    if is_for w key e then missed (handle w e otps).answer + rest else rest

-- The wrong codes that may still be compared.
unfoldable pub room : Option Otp → ℕ
room none = 0
room (some otp) = max_attempts - otp.attempts

-- The row of the address that a handler writes.
row-upsert : (key : Text) (otp : Otp) (otps : Rows Otp) → find key (upsert key otp otps) ≡ some otp
row-upsert key otp otps =
    find-upsert key key otp otps
    ∙ ap (λ b. if b then some otp else find key otps) (text_eq_refl key)

-- One event: what it uses of the room it leaves, unless a new code is mailed.
abbrev IsCounted : Text → Rows Otp → Step → Type 0
IsCounted key otps step =
    missed step.answer + room (find key step.otps) ≤ room (find key otps) + 5 * mailed step.answer

request-IsCounted :
    (w : Outside) (now : ℕ) (code email : Text) (otps : Rows Otp)
    → IsCounted (norm_email w email) otps (otp_request w now code email otps)
unfolding otp_request missed mailed room new_otp
request-IsCounted w now code email otps =
    let key = norm_email w email in
    let times = recent_issues now (find key otps) in
    elim (Bool-cases (leb w.max_per_email_per_hour (length times))) [
      | inl a ↦ rw (a, otp_request) (omega arith)
      | inr a ↦ elim (Bool-cases (in_cooldown w now times)) [
        | inl b ↦ rw (a, otp_request) (rw b (omega arith))
        | inr b ↦
            rw (a, otp_request)
              (rw b (rw (row-upsert key (new_otp now code times) otps) (omega arith)))
      ]
    ]

check-IsCounted :
    (now : ℕ) (key code : Text) (otp : Otp) (otps : Rows Otp)
    → find key otps ≡ some otp
    → IsCounted key otps (check_code now key code otp otps)
unfolding check_code missed mailed room
check-IsCounted now key code otp otps h = elim (Bool-cases (ltb otp.expires_at now)) [
  | inl a ↦ rw (a, check_code) (omega arith)
  | inr a ↦ elim (Bool-cases (leb max_attempts otp.attempts)) [
    | inl b ↦ rw (a, check_code) (rw b (omega arith))
    | inr b ↦ elim (Bool-cases (text_eq otp.code code)) [
      | inl c ↦ rw (a, check_code) (rw (b, c) (rw (row-upsert key _ otps, h) (omega arith)))
      | inr c ↦ rw (a, check_code) (rw (b, c) (rw (row-upsert key _ otps, h) (ground (arith, b))))
    ]
  ]
]

verify-IsCounted :
    (w : Outside) (now : ℕ) (code email : Text) (otps : Rows Otp)
    → IsCounted (norm_email w email) otps (otp_verify w now code email otps)
unfolding otp_verify missed mailed room
verify-IsCounted w now code email otps = elim (Option-cases (find (norm_email w email) otps)) [
  | inl e ↦ ground (arith, e)
  | inr (otp, e) ↦
      rw (e, otp_verify) (rw e at (check-IsCounted now (norm_email w email) code otp otps e))
]

handle-IsCounted :
    (w : Outside) (e : Event) (otps : Rows Otp)
    → IsCounted (norm_email w (address_of e)) otps (handle w e otps)
unfolding handle consume missed mailed room
handle-IsCounted w (request now code email) otps = request-IsCounted w now code email otps
handle-IsCounted w (verify now code email) otps = verify-IsCounted w now code email otps
handle-IsCounted w (applied email) otps =
    let key = norm_email w email in
    let gone : find key (remove key otps) ≡ none =
      find-remove key key otps ∙ ap (λ b. if b then none else find key otps) (text_eq_refl key) in
    omega (arith, ap room gone)

check_code_other :
    (now : ℕ) (own code key : Text) (otp : Otp) (otps : Rows Otp)
    → text_eq own key ≡ false
    → find key (check_code now own code otp otps).otps ≡ find key otps
unfolding check_code
check_code_other now own code key otp otps h = ground (
  arith,
  h,
  find-upsert key own (record otp { verified = true; verified_at = some now }) otps,
  find-upsert key own (record otp { attempts = otp.attempts + 1 }) otps,
)

-- An event for another address leaves the row as it is.
handle_other :
    (w : Outside) (e : Event) (key : Text) (otps : Rows Otp)
    → is_for w key e ≡ false
    → find key (handle w e otps).otps ≡ find key otps
unfolding handle is_for otp_request otp_verify check_code consume
handle_other w (request now code email) key otps h =
    let own = norm_email w email in
    ground
      (arith, h, find-upsert key own (new_otp now code (recent_issues now (find own otps))) otps)
handle_other w (verify now code email) key otps h =
    elim (Option-cases (find (norm_email w email) otps)) [
      | inl e ↦ rw (e, otp_verify) refl
      | inr (otp, e) ↦
          rw (e, otp_verify) (check_code_other now (norm_email w email) code key otp otps h)
    ]
handle_other w (applied email) key otps h =
    find-remove key (norm_email w email) otps ∙ ap (λ b. if b then none else find key otps) h

misses_from :
    (w : Outside) (key : Text) (es : List Event) (otps : Rows Otp)
    → misses w key es otps ≤ room (find key otps) + 5 * mails w key es otps
unfolding misses mails is_for
misses_from w key [] otps = omega arith
misses_from w key (e ∷ es) otps =
    let rest = misses_from w key es (handle w e otps).otps in
    elim (Bool-cases (is_for w key e)) [
      | inl own ↦
          let same : norm_email w (address_of e) ≡ key = (text_eq_iff _ _).0 own in
          let counted : IsCounted key otps (handle w e otps) =
            rw same at (handle-IsCounted w e otps) in
          rw own (omega (arith, rest, counted))
      | inr other ↦ rw other (omega (arith, rest, ap room (handle_other w e key otps other)))
    ]

-- Whatever is requested, guessed and applied for, for whatever addresses and at whatever times: for
-- each address at most five wrong codes are compared for each code that was mailed to it.
pub misses-le-mails :
    (w : Outside) (key : Text) (es : List Event) → misses w key es [] ≤ 5 * mails w key es []
unfolding find room
misses-le-mails w key es = omega (arith, misses_from w key es [])
