-- ===== src/Webhook/Signatures.antt =====
-- Deliveries that get past the store of signatures although they were handled before.
use circle_core.Prelude.{
  ℕ, ◌+◌, ◌*◌, ◌≤◌, ◌<◌, ◌≡◌, ◌≢◌, refl, Bool, true, false, Option, none, some, List, [], ◌∷◌, leb,
  if◌then◌else◌, arith, Bool-cases, inl, inr,
}
use circle_core.Text.{Text, text_eq, text_eq_iff, is_empty, strip}
use circle_core.Webhook.Replay.{verify_of_handled, signature_of_verify}
use circle_core.Webhook.{
  Seen, evict, is_seen, record_seen, was_used, remember, Crypto, Settings, Delivery, vapi_webhook,
  unwrap, verify_signature, accepted, default_tolerance, handled, stamp_fresh, timestamp_fresh,
  digest_check, provided_digest,
}

-- Every signature was remembered at `t` or before.
unfoldable pub IsBefore : ℕ → Seen → Type 0
IsBefore t [] = Unit
IsBefore t ((s, at) ∷ seen) = (at ≤ t) × IsBefore t seen

evict-IsBefore :
    (ttl moment t : ℕ) (seen : Seen) → IsBefore t seen → IsBefore t (evict ttl moment seen)
unfolding IsBefore evict
evict-IsBefore ttl moment t [] h = tt
evict-IsBefore ttl moment t ((s, at) ∷ seen) h = elim (Bool-cases (leb moment (at + ttl))) [
  | inl e ↦ rw e (h.0, evict-IsBefore ttl moment t seen h.1)
  | inr e ↦ rw e (evict-IsBefore ttl moment t seen h.1)
]

record_seen-IsBefore :
    (s : Text) (t : ℕ) (seen : Seen) → IsBefore t seen → IsBefore t (record_seen s t seen)
unfolding IsBefore record_seen
record_seen-IsBefore s t [] h = (omega arith, tt)
record_seen-IsBefore s t ((r, at) ∷ seen) h = elim (Bool-cases (text_eq r s)) [
  | inl e ↦ rw e (omega arith, h.1)
  | inr e ↦ rw e (h.0, record_seen-IsBefore s t seen h.1)
]

evict_late :
    (ttl moment t : ℕ) (seen : Seen)
    → IsBefore t seen
    → t + ttl < moment
    → evict ttl moment seen ≡ []
unfolding IsBefore evict
evict_late ttl moment t [] h p = refl
evict_late ttl moment t ((s, at) ∷ seen) h p = ground (arith, evict_late ttl moment t seen h.1 p)

is_seen-record_seen_ne :
    (s r : Text) (t : ℕ) (seen : Seen)
    → r ≢ s
    → is_seen s seen ≡ false
    → is_seen s (record_seen r t seen) ≡ false
unfolding is_seen record_seen
is_seen-record_seen_ne s r t [] n h = ground (arith, text_eq_iff r s)
is_seen-record_seen_ne s r t ((q, at) ∷ seen) n h =
    ground (arith, text_eq_iff r s, is_seen-record_seen_ne s r t seen n)

is_seen-evict :
    (s : Text) (ttl t : ℕ) (seen : Seen)
    → is_seen s seen ≡ false
    → is_seen s (evict ttl t seen) ≡ false
unfolding is_seen evict
is_seen-evict s ttl t [] h = refl
is_seen-evict s ttl t ((q, at) ∷ seen) h = ground (arith, is_seen-evict s ttl t seen)

module _ (x : Crypto) where
  -- Only the freshness of the timestamp depends on the clock.
  verify_later :
      (body : List ℕ) (signature timestamp : Option Text) (secret : Text) (tolerance t now : ℕ)
      → verify_signature x body signature timestamp secret true tolerance t ≡ accepted
      → stamp_fresh x (x.parse_float (unwrap timestamp)) now tolerance ≡ accepted
      → verify_signature x body signature timestamp secret true tolerance now ≡ accepted
  unfolding verify_signature timestamp_fresh
  verify_later body signature timestamp secret tolerance t now h f = ground arith

  -- The signature stands in the verification by its digest alone.
  digest_check_respelled :
      (body : List ℕ) (s s' : Text) (timestamp : Option Text) (secret : Text)
      → x.lower (provided_digest x s') ≡ x.lower (provided_digest x s)
      → digest_check x body s' timestamp secret ≡ digest_check x body s timestamp secret
  unfolding digest_check
  digest_check_respelled body s s' timestamp secret e = rw e

  verify_respelled :
      (body : List ℕ) (signature : Option Text) (s' : Text) (timestamp : Option Text)
      (secret : Text) (require : Bool) (tolerance t : ℕ)
      → x.lower (provided_digest x s') ≡ x.lower (provided_digest x (unwrap signature))
      → is_empty s' ≡ false
      → verify_signature x body signature timestamp secret require tolerance t ≡ accepted
      → verify_signature x body (some s') timestamp secret require tolerance t ≡ accepted
  unfolding verify_signature
  verify_respelled body signature s' timestamp secret require tolerance t e n h = ground (
    arith,
    digest_check_respelled body (unwrap signature) s' timestamp secret e,
    digest_check_respelled body (unwrap signature) s' none secret e,
  )

  module _ (settings : Settings) (signed : is_empty (strip settings.signing_secret) ≡ false)
      (d : Delivery) where
    handled_of_verify :
        (t : ℕ) (seen : Seen)
        → verify_signature x d.body d.signature
            (if settings.timestamp_header then d.timestamp else none)
            (strip settings.signing_secret)
            settings.timestamp_header
            default_tolerance
            t
          ≡ accepted
        → is_seen (unwrap d.signature) (evict (default_tolerance * x.unit) t seen) ≡ false
        → (vapi_webhook x settings d t seen).0 ≡ handled
    unfolding vapi_webhook was_used
    handled_of_verify t seen v fresh = ground arith

    seen_of_handled :
        (t : ℕ) (seen : Seen)
        → is_empty (unwrap d.signature) ≡ false
        → (vapi_webhook x settings d t seen).0 ≡ handled
        → (vapi_webhook x settings d t seen).1
          ≡ remember
              (default_tolerance * x.unit)
              (unwrap d.signature)
              t
              (evict (default_tolerance * x.unit) t seen)
    unfolding vapi_webhook was_used
    seen_of_handled t seen n h = ground arith

  module _ (settings : Settings) (signed : is_empty (strip settings.signing_secret) ≡ false)
      (d : Delivery) where
    -- The same delivery is handled a second time if, once its signature has been forgotten, its
    -- timestamp is still fresh: a timestamp ahead of the clock outlives the store's memory of it.
    pub vapi_webhook_ahead :
        (t now : ℕ) (seen : Seen)
        → settings.timestamp_header ≡ true
        → IsBefore t seen
        → (vapi_webhook x settings d t seen).0 ≡ handled
        → t + default_tolerance * x.unit < now
        → stamp_fresh x (x.parse_float (unwrap d.timestamp)) now default_tolerance ≡ accepted
        → (vapi_webhook x settings d now (vapi_webhook x settings d t seen).1).0 ≡ handled
    vapi_webhook_ahead t now seen e before first late fresh =
        let verified = rw e at (verify_of_handled x settings signed d t seen first) in
        let nonempty = signature_of_verify x _ _ _ _ _ _ _ verified in
        let ttl = default_tolerance * x.unit in
        let kept : IsBefore t (remember ttl (unwrap d.signature) t (evict ttl t seen)) =
          unfold remember in
          record_seen-IsBefore _ t _
            (evict-IsBefore ttl t t _ (evict-IsBefore ttl t t seen before)) in
        handled_of_verify settings signed d now _
          (rw e (
            verify_later d.body d.signature d.timestamp (strip settings.signing_secret)
              default_tolerance t now verified fresh))
          (rw
            (
              seen_of_handled settings signed d t seen nonempty first,
              evict_late ttl now t _ kept late,
            )
            (unfold is_seen in refl))

    -- A delivery that was handled is handled again at once with its signature written another way,
    -- one of the same digest that the store has not seen: the store compares the header as it came,
    -- the verification what is left of it without white space, a `sha256=` prefix and case.
    pub vapi_webhook_respelled :
        (s' : Text) (t : ℕ) (seen : Seen)
        → (vapi_webhook x settings d t seen).0 ≡ handled
        → x.lower (provided_digest x s') ≡ x.lower (provided_digest x (unwrap d.signature))
        → is_empty s' ≡ false
        → unwrap d.signature ≢ s'
        → is_seen s' seen ≡ false
        → (vapi_webhook x settings
            (record d { signature = some s' })
            t
            (vapi_webhook x settings d t seen).1).0
          ≡ handled
    vapi_webhook_respelled s' t seen first e n ne fresh =
        let verified = verify_of_handled x settings signed d t seen first in
        let nonempty = signature_of_verify x _ _ _ _ _ _ _ verified in
        let ttl = default_tolerance * x.unit in
        handled_of_verify settings signed (record d { signature = some s' }) t _
          (verify_respelled d.body d.signature s' _ _ _ default_tolerance t e n verified)
          (rw (seen_of_handled settings signed d t seen nonempty first) (
            is_seen-evict s' ttl t _ (
              unfold remember in
              is_seen-record_seen_ne s' (unwrap d.signature) t _ ne
                (is_seen-evict s' ttl t _ (is_seen-evict s' ttl t seen fresh)))))
