-- ===== src/Webhook/Seen.antt =====
-- What the store of signatures remembers, and for how long.
use circle_core.Prelude.{ℕ, ◌+◌, ◌*◌, ◌≤◌, ◌≡◌, Bool, true, false, ◌&&◌, [], ◌∷◌, leb, any, arith}
use circle_core.Text.{Text, text_eq, text_eq_iff, text_eq_refl}
use circle_core.Webhook.{
  Seen, evict, is_seen, record_seen, was_used, remember, check_and_remember, Crypto, Settings,
  Delivery, vapi_webhook, unwrap, default_tolerance,
}

-- The signature is there, remembered at `t` or later.
unfoldable pub holds : Text → ℕ → Seen → Bool
holds signature t = any (λ e. text_eq e.0 signature && leb t e.1)

module _ (signature : Text) (t : ℕ) where
  holds-evict :
      (ttl moment : ℕ) (seen : Seen)
      → moment ≤ t + ttl
      → holds signature t seen ≡ true
      → holds signature t (evict ttl moment seen) ≡ true
  unfolding holds evict
  holds-evict ttl moment [] p h = cc
  holds-evict ttl moment ((s, at) ∷ seen) p h = ground (arith, holds-evict ttl moment seen p)

  holds-record_seen :
      (s : Text) (moment : ℕ) (seen : Seen)
      → t ≤ moment
      → holds signature t seen ≡ true
      → holds signature t (record_seen s moment seen) ≡ true
  unfolding holds record_seen
  holds-record_seen s moment [] p h = cc
  holds-record_seen s moment ((r, at) ∷ seen) p h =
      ground (arith, text_eq_iff r s, holds-record_seen s moment seen p)

  pub holds-record_seen_self :
      (seen : Seen) → holds signature t (record_seen signature t seen) ≡ true
  unfolding holds record_seen
  holds-record_seen_self [] = ground (arith, text_eq_refl signature)
  holds-record_seen_self ((r, at) ∷ seen) =
      ground (arith, text_eq_refl signature, holds-record_seen_self seen)

  is_seen_of_holds : (seen : Seen) → holds signature t seen ≡ true → is_seen signature seen ≡ true
  unfolding holds is_seen
  is_seen_of_holds [] h = cc
  is_seen_of_holds ((r, at) ∷ seen) h = ground (arith, is_seen_of_holds seen)

  -- The operations of the store, at any moments up to the time to live later, keep it.
  holds-remember :
      (ttl : ℕ) (s : Text) (moment : ℕ) (seen : Seen)
      → t ≤ moment
      → moment ≤ t + ttl
      → holds signature t seen ≡ true
      → holds signature t (remember ttl s moment seen) ≡ true
  unfolding remember
  holds-remember ttl s moment seen p q h =
      holds-record_seen s moment (evict ttl moment seen) p (holds-evict ttl moment seen q h)

  -- A remembered signature is reported as used at every moment up to the time to live later, and
  -- `check_and_remember` then refuses it.
  pub was_used_of_holds :
      (ttl moment : ℕ) (seen : Seen)
      → moment ≤ t + ttl
      → holds signature t seen ≡ true
      → ((was_used ttl signature moment seen).0 ≡ true)
        × ((check_and_remember ttl signature moment seen).0 ≡ false)
  unfolding was_used check_and_remember
  was_used_of_holds ttl moment seen p h =
      let used = is_seen_of_holds (evict ttl moment seen) (holds-evict ttl moment seen p h) in
      (used, rw used)

  module _ (x : Crypto) (settings : Settings) (d : Delivery) (moment : ℕ) (seen : Seen) where
    -- A delivery of any kind keeps it too.
    pub holds-vapi_webhook :
        t ≤ moment
        → moment ≤ t + default_tolerance * x.unit
        → holds signature t seen ≡ true
        → holds signature t (vapi_webhook x settings d moment seen).1 ≡ true
    unfolding vapi_webhook was_used
    holds-vapi_webhook p q h = ground (
      arith,
      holds-evict (default_tolerance * x.unit) moment seen q,
      holds-remember (default_tolerance * x.unit) (unwrap d.signature) moment seen p q,
      holds-evict (default_tolerance * x.unit) moment
          (evict (default_tolerance * x.unit) moment seen) q,
      holds-remember (default_tolerance * x.unit) (unwrap d.signature) moment
          (evict (default_tolerance * x.unit) moment seen) p q,
    )
