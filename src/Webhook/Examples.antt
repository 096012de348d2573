-- ===== src/Webhook/Examples.antt =====
-- Deliveries against a stand-in for the cryptography: a fixed digest, and a clock of whole seconds.
use circle_core.Prelude.{ℕ, ◌≡◌, ◌≢◌, refl, true, none, some, [], ◌∷◌, arith}
use circle_core.Text.{codes, text_eq, strip, is_empty}
use circle_core.Webhook.{
  at_time, Crypto, Settings, Delivery, vapi_webhook, verify_signature, handled, serve, was_used,
  remember, evict, check_and_remember, stamp_fresh, timestamp_fresh, digest_check, provided_digest,
  expected_signature,
}
use circle_core.Webhook.Replay.{IsPast, Within, vapi_webhook_once}
use circle_core.Webhook.Signatures.{IsBefore, vapi_webhook_ahead, vapi_webhook_respelled}

program : Unit {0}
unfolding vapi_webhook verify_signature was_used remember evict check_and_remember timestamp_fresh
    stamp_fresh digest_check provided_digest expected_signature text_eq strip is_empty serve
program = tt

-- The sender's clock says `sent`.
abbrev sent_at : ℕ → Crypto
sent_at sent = record {
  hmac = λ secret body. codes "d1ce";
  encode = λ s. s;
  parse_float = λ s. at_time sent;
  lower = λ s. s;
  unit = 1;
}

abbrev settings : Settings
settings = record { signing_secret = codes "s3"; shared_secret = []; timestamp_header = true }

abbrev event : Delivery
event = record {
  body = codes "{}";
  shared = none;
  signature = some (codes "d1ce");
  timestamp = some (codes "1000");
}

first_time : (vapi_webhook (sent_at 1000) settings event 1100 []).0 ≡ handled
unfolding program
first_time = refl

vapi_webhook_once_example :
    (vapi_webhook (sent_at 1000) settings event 1150 (
      serve
        (sent_at 1000)
        settings
        ((event, 1120) ∷ [])
        (vapi_webhook (sent_at 1000) settings event 1100 []).1)).0
    ≢ handled
unfolding IsPast Within is_empty strip
vapi_webhook_once_example =
    vapi_webhook_once (sent_at 1000) settings refl event 1100 1150 [] ((event, 1120) ∷ []) refl
      (omega arith) first_time (omega arith)

first_time_ahead : (vapi_webhook (sent_at 1200) settings event 1000 []).0 ≡ handled
unfolding program
first_time_ahead = refl

vapi_webhook_ahead_example :
    (vapi_webhook
      (sent_at 1200)
      settings
      event
      1400
      (vapi_webhook (sent_at 1200) settings event 1000 []).1).0
    ≡ handled
unfolding IsBefore is_empty strip stamp_fresh
vapi_webhook_ahead_example =
    vapi_webhook_ahead (sent_at 1200) settings refl event 1000 1400 [] refl tt first_time_ahead
      (omega arith) refl

vapi_webhook_respelled_example :
    (vapi_webhook
      (sent_at 1000)
      settings
      (record event { signature = some (codes "sha256=d1ce") })
      1100
      (vapi_webhook (sent_at 1000) settings event 1100 []).1).0
    ≡ handled
unfolding program
vapi_webhook_respelled_example =
    vapi_webhook_respelled (sent_at 1000) settings refl event (codes "sha256=d1ce") 1100 []
      first_time refl refl (λ p. cc p) refl
