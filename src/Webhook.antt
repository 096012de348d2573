-- ===== src/Webhook.antt =====
-- app/services/webhook_auth.py and the Vapi endpoint of app/api/routes/vapi_webhook.py. Times are
-- ticks, `unit` of them to the second, and a timestamp header is read to that precision.
pub mod Seen
pub mod Signatures
pub mod Replay
mod Examples
use circle_core.Prelude.{
  ℕ, ◌+◌, ◌-◌, ◌*◌, ◌/◌, ◌<◌, Bool, true, false, ◌&&◌, ◌||◌, not, Option, none, some, List, [], ◌∷◌,
  ◌++◌, leb, ltb, ◌==◌, if◌then◌else◌, keep_if, any,
}
use circle_core.Text.{Text, codes, text_eq, is_empty, strip}

-- `float(timestamp)`: text that is no number, NaN and the infinities, or a number of ticks.
pub data Stamp : Type 0 where
  not_number : Stamp
  not_finite : Stamp
  before_epoch : ℕ → Stamp
  at_time : ℕ → Stamp

-- What comes from the standard library: HMAC-SHA256 in hexadecimal, UTF-8, `float`, `str.lower`.
pub record Crypto : Type 0 where
  pub hmac : Text → List ℕ → Text
  pub encode : Text → List ℕ
  pub parse_float : Text → Stamp
  pub lower : Text → Text
  pub unit : ℕ

pub data Reason : Type 0 where
  bad_number : Reason
  bad_value : Reason
  out_of_date : ℕ → Reason
  no_secret : Reason
  no_signature : Reason
  no_timestamp : Reason
  no_match : Reason

pub data SignatureCheck : Type 0 where
  accepted : SignatureCheck
  refused : Reason → SignatureCheck

-- `if timestamp`, `signature or ""`: absent and empty are alike.
abbrev pub unwrap : Option Text → Text
unwrap none = []
unwrap (some s) = s

-- `abs(a - b)`
abbrev pub distance : ℕ → ℕ → ℕ
distance a b = (a - b) + (b - a)

module _ (x : Crypto) where
  signed_payload : List ℕ → Option Text → List ℕ
  signed_payload body none = body
  signed_payload body (some timestamp) =
      if is_empty timestamp then body else x.encode timestamp ++ b'.' ∷ body

  expected_signature : List ℕ → Option Text → Text → Text
  unfolding signed_payload
  expected_signature body timestamp secret = x.hmac secret (signed_payload body timestamp)

  -- Past the limit the number is in milliseconds; both sides of the comparison are then taken
  -- a thousand times, where the source divides.
  pub stamp_fresh : Stamp → ℕ → ℕ → SignatureCheck
  stamp_fresh not_number now tolerance = refused bad_number
  stamp_fresh not_finite now tolerance = refused bad_value
  stamp_fresh (before_epoch sent) now tolerance =
      if ltb (tolerance * x.unit) (now + sent)
      then refused (out_of_date ((now + sent) / x.unit))
      else accepted
  stamp_fresh (at_time sent) now tolerance =
      if ltb (10000000000 * x.unit) sent
      then (if ltb (1000 * (tolerance * x.unit)) (distance (1000 * now) sent)
          then refused (out_of_date (distance (1000 * now) sent / (1000 * x.unit)))
          else accepted)
      else if ltb (tolerance * x.unit) (distance now sent)
      then refused (out_of_date (distance now sent / x.unit))
      else accepted

  timestamp_fresh : Text → ℕ → ℕ → SignatureCheck
  timestamp_fresh timestamp = stamp_fresh (x.parse_float timestamp)

  -- `provided.split("=", 1)`: what stands before the first "=", and what after it.
  before_equals : Text → Text
  before_equals [] = []
  before_equals (c ∷ s) = if c == b'=' then [] else c ∷ before_equals s

  after_equals : Text → Text
  after_equals [] = []
  after_equals (c ∷ s) = let rest = after_equals s in if c == b'=' then s else rest

  -- The signature with a `sha256=` prefix taken off.
  pub provided_digest : Text → Text
  unfolding before_equals after_equals
  provided_digest signature =
      let provided = strip signature in
      let scheme = x.lower (before_equals provided) in
      if any (λ c. c == b'=') provided
        && (text_eq scheme (codes "sha256") || text_eq scheme (codes "sha-256"))
      then after_equals provided
      else provided

  -- The last step of `verify_signature`, the comparison of digests.
  digest_check : List ℕ → Text → Option Text → Text → SignatureCheck
  digest_check body signature timestamp secret =
      if text_eq (x.lower (provided_digest signature)) (expected_signature body timestamp secret)
      then accepted
      else refused no_match

  both : SignatureCheck → SignatureCheck → SignatureCheck
  both accepted c = c
  both (refused r) c = refused r

  pub verify_signature : List ℕ → Option Text → Option Text → Text → Bool → ℕ → ℕ → SignatureCheck
  unfolding both
  verify_signature body signature timestamp secret require_timestamp tolerance now =
      if is_empty secret
      then refused no_secret
      else if is_empty (unwrap signature)
      then refused no_signature
      else if require_timestamp
      then (if is_empty (unwrap timestamp)
          then refused no_timestamp
          else both (timestamp_fresh (unwrap timestamp) now tolerance)
              (digest_check body (unwrap signature) timestamp secret))
      else digest_check body (unwrap signature) none secret

-- `SeenSignatures._seen`: each signature with the time at which it was remembered.
abbrev pub Seen : Type 0
Seen = List (Text × ℕ)

-- `_evict`: an entry goes once it is older than the time to live.
pub evict : ℕ → ℕ → Seen → Seen
evict ttl moment = keep_if (λ e. leb moment (e.1 + ttl))

pub is_seen : Text → Seen → Bool
is_seen signature = any (λ e. text_eq e.0 signature)

-- `self._seen[signature] = moment`
pub record_seen : Text → ℕ → Seen → Seen
record_seen signature moment [] = (signature, moment) ∷ []
record_seen signature moment ((s, at) ∷ seen) =
    if text_eq s signature
    then (signature, moment) ∷ seen
    else (s, at) ∷ record_seen signature moment seen

-- The methods of `SeenSignatures`; each begins by evicting.
pub was_used : ℕ → Text → ℕ → Seen → Bool × Seen
unfolding is_seen
was_used ttl signature moment seen =
    (is_seen signature (evict ttl moment seen), evict ttl moment seen)

pub remember : ℕ → Text → ℕ → Seen → Seen
unfolding record_seen
remember ttl signature moment seen = record_seen signature moment (evict ttl moment seen)

pub check_and_remember : ℕ → Text → ℕ → Seen → Bool × Seen
check_and_remember ttl signature moment seen =
    let kept = evict ttl moment seen in
    if is_seen signature kept then (false, kept) else (true, record_seen signature moment kept)

abbrev pub default_tolerance : ℕ
default_tolerance = 300

-- The part of the settings that the endpoint reads: with no signing secret, the shared secret
-- decides.
pub record Settings : Type 0 where
  pub signing_secret : Text
  pub shared_secret : Text
  pub timestamp_header : Bool

-- The headers and the bytes of one delivery.
pub record Delivery : Type 0 where
  pub body : List ℕ
  pub shared : Option Text
  pub signature : Option Text
  pub timestamp : Option Text

pub data Answer : Type 0 where
  not_configured : Answer
  unauthorized : Answer
  conflict : Answer
  handled : Answer

-- `check_vapi_secret`; `none` lets the request through.
check_vapi_secret : Option Text → Text → Option Answer
check_vapi_secret provided expected =
    if is_empty expected then some not_configured else elim provided [
      | none ↦ some unauthorized
      | some p ↦
          if is_empty p
          then some unauthorized
          else if text_eq p expected
          then none
          else some unauthorized
    ]

module _ (x : Crypto) (settings : Settings) where
  -- `require_vapi_auth`: the answer that ends the request, or `none`.
  authenticate : Delivery → ℕ → Seen → Option Answer × Seen
  authenticate d now seen =
      if is_empty (strip settings.signing_secret)
      then (check_vapi_secret d.shared settings.shared_secret, seen)
      else elim (verify_signature x d.body d.signature
          (if settings.timestamp_header then d.timestamp else none) (strip settings.signing_secret)
          settings.timestamp_header default_tolerance now) [
            | refused r ↦ (some unauthorized, seen)
            | accepted ↦
                let (used, kept) =
                  was_used (default_tolerance * x.unit) (unwrap d.signature) now seen in
                (if used then some conflict else none, kept)
          ]

  -- The signature is kept for the route only if the signing secret is set, and remembered after
  -- the event has been applied.
  finish : Delivery → ℕ → Option Answer × Seen → Answer × Seen
  finish d now (some answer, seen) = (answer, seen)
  finish d now (none, seen) =
      if is_empty (strip settings.signing_secret) || is_empty (unwrap d.signature)
      then (handled, seen)
      else (handled, remember (default_tolerance * x.unit) (unwrap d.signature) now seen)

  pub vapi_webhook : Delivery → ℕ → Seen → Answer × Seen
  unfolding authenticate finish
  vapi_webhook d now seen = finish d now (authenticate d now seen)

  -- Deliveries in order, each with its time.
  pub serve : List (Delivery × ℕ) → Seen → Seen
  serve [] seen = seen
  serve ((d, now) ∷ rest) seen = serve rest (vapi_webhook d now seen).1
