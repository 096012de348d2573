-- ===== src/Webhook/Replay.antt =====
-- A captured delivery sent again: when it is refused, and when it is not.
use circle_core.Prelude.{
  ℕ, ◌+◌, ◌*◌, ◌≤◌, ◌<◌, ◌≡◌, ◌≢◌, Bool, true, false, Option, none, List, [], ◌∷◌, leb, ltb,
  if◌then◌else◌, arith, Bool-cases, inl, inr, leb→le,
}
use circle_core.Text.{Text, is_empty, strip}
use circle_core.Webhook.{
  Seen, Stamp, not_number, not_finite, before_epoch, at_time, evict, was_used, remember, Crypto,
  Settings, Delivery, vapi_webhook, unwrap, verify_signature, accepted, serve, default_tolerance,
  handled, stamp_fresh, timestamp_fresh,
}
use circle_core.Webhook.Seen.{holds, holds-record_seen_self, was_used_of_holds, holds-vapi_webhook}

-- The sender's clock was not ahead of `now`.
unfoldable pub IsPast : Crypto → Stamp → ℕ → Type 0
IsPast x (at_time sent) now =
    if ltb (10000000000 * x.unit) sent then sent ≤ 1000 * now else sent ≤ now
IsPast x _ now = Unit

-- The moments of deliveries that all lie between two moments.
unfoldable pub Within : ℕ → ℕ → List (Delivery × ℕ) → Type 0
Within from to [] = Unit
Within from to ((d, now) ∷ rest) = (from ≤ now) × (now ≤ to) × Within from to rest

module _ (x : Crypto) where
  -- A timestamp that was not ahead is stale once the tolerance has gone by.
  stale :
      (s : Stamp) (t now tolerance : ℕ)
      → IsPast x s t
      → t + tolerance * x.unit < now
      → stamp_fresh x s now tolerance ≢ accepted
  unfolding stamp_fresh IsPast
  stale not_number t now tolerance p q = λ e. cc e
  stale not_finite t now tolerance p q = λ e. cc e
  stale (before_epoch sent) t now tolerance p q = λ e. ground arith
  stale (at_time sent) t now tolerance p q = λ e. ground arith

  module _ (settings : Settings) (signed : is_empty (strip settings.signing_secret) ≡ false)
      (d : Delivery) where
    -- What a handled delivery has passed.
    pub verify_of_handled :
        (now : ℕ) (seen : Seen)
        → (vapi_webhook x settings d now seen).0 ≡ handled
        → verify_signature x d.body d.signature
            (if settings.timestamp_header then d.timestamp else none)
            (strip settings.signing_secret)
            settings.timestamp_header
            default_tolerance
            now
          ≡ accepted
    unfolding vapi_webhook
    verify_of_handled now seen h = ground arith

    conflict_of_used :
        (now : ℕ) (seen : Seen)
        → (was_used (default_tolerance * x.unit) (unwrap d.signature) now seen).0 ≡ true
        → (vapi_webhook x settings d now seen).0 ≢ handled
    unfolding vapi_webhook
    conflict_of_used now seen used h = ground arith

    remembered_of_handled :
        (now : ℕ) (seen : Seen)
        → is_empty (unwrap d.signature) ≡ false
        → (vapi_webhook x settings d now seen).0 ≡ handled
        → holds (unwrap d.signature) now (vapi_webhook x settings d now seen).1 ≡ true
    unfolding vapi_webhook was_used remember
    remembered_of_handled now seen e h = ground (
      arith,
      holds-record_seen_self (unwrap d.signature) now
          (evict (default_tolerance * x.unit) now (evict (default_tolerance * x.unit) now seen)),
    )

  pub signature_of_verify :
      (body : List ℕ) (signature timestamp : Option Text) (secret : Text) (require : Bool)
      (tolerance now : ℕ)
      → verify_signature x body signature timestamp secret require tolerance now ≡ accepted
      → is_empty (unwrap signature) ≡ false
  unfolding verify_signature
  signature_of_verify body signature timestamp secret require tolerance now h = ground arith

  fresh_of_verify :
      (body : List ℕ) (signature timestamp : Option Text) (secret : Text) (tolerance now : ℕ)
      → verify_signature x body signature timestamp secret true tolerance now ≡ accepted
      → stamp_fresh x (x.parse_float (unwrap timestamp)) now tolerance ≡ accepted
  unfolding verify_signature timestamp_fresh
  fresh_of_verify body signature timestamp secret tolerance now h = ground arith

  module _ (settings : Settings) (signed : is_empty (strip settings.signing_secret) ≡ false)
      (d : Delivery) where
    holds-serve :
        (signature : Text) (t to : ℕ) (rest : List (Delivery × ℕ)) (seen : Seen)
        → to ≤ t + default_tolerance * x.unit
        → Within t to rest
        → holds signature t seen ≡ true
        → holds signature t (serve x settings rest seen) ≡ true
    unfolding serve Within
    holds-serve signature t to [] seen p w h = h
    holds-serve signature t to ((other, now) ∷ rest) seen p w h =
        holds-serve signature t to rest (vapi_webhook x settings other now seen).1 p w.2
          (holds-vapi_webhook signature t x settings other now seen w.0 (omega arith) h)

    -- With a signing secret and a timestamp header configured, a delivery that is handled, and
    -- whose timestamp was not ahead of the clock then, is not handled a second time: not at any
    -- later moment, whatever deliveries come in between.
    pub vapi_webhook_once :
        (t now : ℕ) (seen : Seen) (between : List (Delivery × ℕ))
        → settings.timestamp_header ≡ true
        → IsPast x (x.parse_float (unwrap d.timestamp)) t
        → (vapi_webhook x settings d t seen).0 ≡ handled
        → Within t now between
        → (vapi_webhook x settings d now
            (serve x settings between (vapi_webhook x settings d t seen).1)).0
          ≢ handled
    vapi_webhook_once t now seen between e past first within =
        elim (Bool-cases (leb now (t + default_tolerance * x.unit))) [
          | inl soon ↦
              conflict_of_used settings signed d now _
                (was_used_of_holds (unwrap d.signature) t (default_tolerance * x.unit) now _
                  (leb→le _ _ soon)
                  (holds-serve (unwrap d.signature) t now between _ (leb→le _ _ soon) within
                    (remembered_of_handled settings signed d t seen nonempty first))).0
          | inr late ↦ λ again.
              stale (x.parse_float (unwrap d.timestamp)) t now default_tolerance past (ground arith)
                (fresh_of_verify _ _ d.timestamp _ default_tolerance now
                  (rw e at (verify_of_handled settings signed d now _ again)))
        ]
      where
        nonempty : is_empty (unwrap d.signature) ≡ false
        nonempty =
            signature_of_verify _ _ _ _ _ _ _ (verify_of_handled settings signed d t seen first)
