-- ===== src/Verification/Service/Sending.antt =====
-- Send (internal/verification/service.go).
pub mod Laws
pub mod Messages
pub mod Walk
use aera_cloud.Verification.Service.Limits.{
  safe_log_characters, safe_log_token, safe_delivery_failure_metadata, valid_send_metadata,
  shares_cooldown, or_unavailable, latest_for_send_cooldown, Scope, limit_key, allow_scopes,
  request_scopes, allow_request, allow_unified_phone_cooldown, check_captcha,
}
use aera_cloud.Prelude.{
  ℕ, ◌+◌, ◌-◌, ◌*◌, ◌/◌, ◌%◌, ◌≡◌, Bool, true, false, ◌&&◌, ◌||◌, not, Option, none, some, List, [],
  ◌∷◌, ◌++◌, map, String, str_eq, Text, codes, is_blank, utf8, byte_length, Bytes, length, is_some,
  Result, ok, err, ltb, leb, ◌==◌, if◌then◌else◌,
}
use aera_cloud.Postgres.{Faults}
use aera_cloud.Verification.Model.{
  Purpose, registration, login, purpose_text, valid_purpose, IdentityKind, phone, kind_text, Error,
  invalid_request, resend_too_soon, rate_limited, captcha_required, delivery_unavailable,
  temporarily_unavailable, request_in_progress, invalid_verification, Challenge, SendRequest,
  VerifyRequest,
}
use aera_cloud.Verification.Limiter.{
  Policy, Decision, ScopePolicies, Counters, Leases, allow, acquire, release,
}
use aera_cloud.Verification.Repository.{
  Rows, RepositoryError, challenge_not_found, code_mismatch, store_failed, exists_by_idempotency,
  latest, keep_later, save_after_delivery, consume,
}
use aera_cloud.Verification.Service.{
  LookupIndex, DeliveryFailure, Delivery, Receipt, Service, Message, World, Around,
  challenge_lifetime, resend_delay, delivery_lease_ttl, unified_phone_cooldown_policy, hex_digit,
  hex, request_hmac, code_hmac, six_digits, Target, prepare_target, lookup_hmacs, lookup_key,
  delivered, failed, is_digit,
}

unfoldable pub idempotency_hash : Service → SendRequest → Target → Bytes
idempotency_hash s r t = request_hmac s (
    codes "idempotency"
    ∷ utf8 (codes (purpose_text r.purpose))
    ∷ utf8 (codes (kind_text r.kind))
    ∷ utf8 t.normalized
    ∷ utf8 r.idempotency_key
    ∷ [])

-- A Go map yields nil for a missing key.
abbrev pub or_nil : Option Bytes → Bytes
or_nil none = []
or_nil (some v) = v

unfoldable pub new_challenge : Service → SendRequest → Target → Bytes → ℕ → ℕ → Bytes → Challenge
new_challenge s r t idempotency now id code = record {
  id = id;
  purpose = r.purpose;
  identity_kind = r.kind;
  target_lookup_key_id = t.active.key_id;
  target_lookup_hmac = t.active.hmac;
  code_key_id = s.active_code_key_id;
  code_hmac =
      code_hmac s (or_nil (lookup_key s.active_code_key_id s.code_keys)) r.purpose t.active.hmac
        code;
  idempotency_key_hash = idempotency;
  expires_at = now + challenge_lifetime;
  resend_after = now + resend_delay;
  failed_attempts = 0;
  consumed_at = none;
  invalidated_at = none;
  created_at = now;
}

delivery_error : Option DeliveryFailure → Error
delivery_error none = delivery_unavailable
delivery_error (some m) = if m.rate_limited then rate_limited else delivery_unavailable

unfoldable pub stored :
    World → Result RepositoryError (Unit {0}) × Rows → Result Error (Unit {0}) × World
stored w (r, rows) = (or_unavailable r, record w { challenges = rows })

abbrev pub with_message : Text → Bytes → Purpose → World → World
with_message destination code purpose w = record w {
  outbox = record { destination = destination; code = code; purpose = purpose } ∷ w.outbox;
}

-- The provider's call, and SaveAfterDelivery. The outbox has the messages that the provider accepted.
unfoldable pub deliver_and_save :
    Service → Around → Text → Bytes → Challenge → World → Result Error (Unit {0}) × World
unfolding delivery_error stored safe_delivery_failure_metadata
deliver_and_save s io destination code c w = elim (s.deliver destination code c.purpose) [
  | failed accepted m ↦ (
    err (delivery_error (safe_delivery_failure_metadata m)),
    if accepted then with_message destination code c.purpose w else w,
  )
  | delivered ↦
      stored (with_message destination code c.purpose w)
        (save_after_delivery io.save c w.challenges)
]

unfoldable pub identified :
    Service
    → Around
    → SendRequest
    → Target
    → Bytes
    → World
    → ℕ
    → Option ℕ
    → Result Error (Unit {0}) × World
identified s io r t idempotency w draw none = (err temporarily_unavailable, w)
identified s io r t idempotency w draw (some id) =
    deliver_and_save s io t.normalized (six_digits draw)
      (new_challenge s r t idempotency io.now id (six_digits draw)) w

unfoldable pub drawn :
    Service
    → Around
    → SendRequest
    → Target
    → Bytes
    → World
    → Option ℕ
    → Result Error (Unit {0}) × World
unfolding identified
drawn s io r t idempotency w none = (err temporarily_unavailable, w)
drawn s io r t idempotency w (some draw) = identified s io r t idempotency w draw io.challenge_id

abbrev pub cooling : Option Challenge → ℕ → Bool
cooling none now = false
cooling (some c) now = ltb now c.resend_after

unfoldable pub cooled :
    Service
    → Around
    → SendRequest
    → Target
    → Bytes
    → World
    → Result Error (Unit {0}) × Counters
    → Result Error (Unit {0}) × World
unfolding drawn
cooled s io r t idempotency w (err e, counters) = (err e, record w { counters = counters })
cooled s io r t idempotency w (ok _, counters) =
    drawn s io r t idempotency (record w { counters = counters }) io.code_draw

unfoldable pub unchallenged :
    Service
    → Around
    → SendRequest
    → Target
    → Bytes
    → World
    → Counters
    → Result Error (Unit {0})
    → Result Error (Unit {0}) × World
unfolding cooled
unchallenged s io r t idempotency w counters (err e) = (err e, record w { counters = counters })
unchallenged s io r t idempotency w counters (ok _) =
    cooled s io r t idempotency w (allow_unified_phone_cooldown s io r t.active.hmac counters)

unfoldable pub limited :
    Service
    → Around
    → SendRequest
    → Target
    → Bytes
    → World
    → Result Error Bool × Counters
    → Result Error (Unit {0}) × World
unfolding unchallenged
limited s io r t idempotency w (err e, counters) = (err e, record w { counters = counters })
limited s io r t idempotency w (ok required, counters) =
    unchallenged s io r t idempotency w counters (check_captcha s r required)

-- The resend delay, the limits and the rest.
unfoldable pub waited :
    Service
    → Around
    → SendRequest
    → Target
    → Bytes
    → World
    → Result RepositoryError (Option Challenge)
    → Result Error (Unit {0}) × World
unfolding limited
waited s io r t idempotency w (err e) = (err temporarily_unavailable, w)
waited s io r t idempotency w (ok last) =
    if cooling last io.now
    then (err resend_too_soon, w)
    else limited s io r t idempotency w (allow_request s io r t.active.hmac w.counters)

unfoldable pub seen_again :
    Service
    → Around
    → SendRequest
    → Target
    → Bytes
    → World
    → Result RepositoryError Bool
    → Result Error (Unit {0}) × World
unfolding waited
seen_again s io r t idempotency w (err e) = (err temporarily_unavailable, w)
seen_again s io r t idempotency w (ok true) = (ok tt, w)
seen_again s io r t idempotency w (ok false) =
    waited s io r t idempotency w
      (latest_for_send_cooldown io.latest_fails r (lookup_hmacs t) w.challenges)

-- What runs under the delivery lease.
unfoldable pub send_leased :
    Service → Around → SendRequest → Target → Bytes → World → Result Error (Unit {0}) × World
unfolding seen_again
send_leased s io r t idempotency w =
    seen_again s io r t idempotency w
      (exists_by_idempotency io.exists_again_fails idempotency w.challenges)

unfoldable pub release_lease :
    Around → Bytes → Bytes → Result Error (Unit {0}) × World → Result Error (Unit {0}) × World
release_lease io key owner (r, w) =
    (r, record w { leases = (release io.release_fails io.redis_now key owner w.leases).1 })

unfoldable pub acquired :
    Service
    → Around
    → SendRequest
    → Target
    → Bytes
    → Bytes
    → World
    → Option Bool × Leases
    → Result Error (Unit {0}) × World
acquired s io r t idempotency owner w (none, leases) = (err temporarily_unavailable, w)
acquired s io r t idempotency owner w (some false, leases) = (err request_in_progress, w)
acquired s io r t idempotency owner w (some true, leases) =
    release_lease io (hex idempotency) owner
      (send_leased s io r t idempotency (record w { leases = leases }))

unfoldable pub send_owned :
    Service
    → Around
    → SendRequest
    → Target
    → Bytes
    → World
    → Option Bytes
    → Result Error (Unit {0}) × World
unfolding acquired
send_owned s io r t idempotency w none = (err temporarily_unavailable, w)
send_owned s io r t idempotency w (some owner) =
    acquired s io r t idempotency owner w
      (acquire io.acquire_fails io.redis_now (hex idempotency) owner delivery_lease_ttl w.leases)

unfoldable pub seen :
    Service
    → Around
    → SendRequest
    → Target
    → Bytes
    → World
    → Result RepositoryError Bool
    → Result Error (Unit {0}) × World
unfolding send_owned
seen s io r t idempotency w (err e) = (err temporarily_unavailable, w)
seen s io r t idempotency w (ok true) = (ok tt, w)
seen s io r t idempotency w (ok false) = send_owned s io r t idempotency (io.meanwhile w) io.owner

unfoldable pub prepared :
    Service → Around → SendRequest → World → Result Error Target → Result Error (Unit {0}) × World
unfolding seen
prepared s io r w (err e) = (err invalid_request, w)
prepared s io r w (ok t) =
    if not (valid_send_metadata r)
    then (err invalid_request, w)
    else seen s io r t (idempotency_hash s r t) w
        (exists_by_idempotency io.exists_fails (idempotency_hash s r t) w.challenges)

unfoldable pub send : Service → Around → SendRequest → World → Result Error (Unit {0}) × World
unfolding prepared
send s io r w = prepared s io r w (prepare_target s r.kind r.destination r.purpose)
