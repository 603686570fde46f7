-- ===== src/Verification/Service/Limits.antt =====
-- The cooldowns, the limits and the CAPTCHA of Send (internal/verification/service.go).
use aera_cloud.Prelude.{
  ℕ, Bool, true, false, ◌&&◌, ◌||◌, not, Option, none, some, List, [], ◌∷◌, String, str_eq, Text,
  codes, is_blank, utf8, byte_length, Bytes, length, Result, ok, err, leb, ◌==◌, if◌then◌else◌,
}
use aera_cloud.Verification.Model.{
  Purpose, registration, login, IdentityKind, phone, Error, resend_too_soon, rate_limited,
  captcha_required, temporarily_unavailable, Challenge, SendRequest,
}
use aera_cloud.Verification.Limiter.{Policy, Decision, Counters, allow}
use aera_cloud.Verification.Repository.{Rows, RepositoryError, latest, keep_later}
use aera_cloud.Verification.Service.{
  DeliveryFailure, Service, Around, unified_phone_cooldown_policy, hex, request_hmac, is_digit,
}

unfoldable pub safe_log_characters : Text → Bool
safe_log_characters [] = true
safe_log_characters (c ∷ cs) =
    (leb b'a' c && leb c b'z'
      || leb b'A' c && leb c b'Z'
      || is_digit c
      || c == b'.'
      || c == b'_'
      || c == b'-')
    && safe_log_characters cs

unfoldable pub safe_log_token : Text → ℕ → Bool
unfolding safe_log_characters
safe_log_token value maximum_length =
    not (length value == 0) && leb (byte_length value) maximum_length && safe_log_characters value

unfoldable pub safe_delivery_failure_metadata : Option DeliveryFailure → Option DeliveryFailure
unfolding safe_log_token
safe_delivery_failure_metadata none = none
safe_delivery_failure_metadata (some m) =
    if not (str_eq m.provider "aliyun")
      || not (safe_log_token m.code 128)
      || not (length m.request_id == 0) && not (safe_log_token m.request_id 128)
    then none
    else some m

unfoldable pub valid_send_metadata : SendRequest → Bool
valid_send_metadata r =
    leb 8 (byte_length r.idempotency_key)
    && leb (byte_length r.idempotency_key) 200
    && not (is_blank r.ip_address)
    && leb (byte_length r.ip_address) 128
    && not (is_blank r.device_id)
    && leb (byte_length r.device_id) 200

-- request.Kind is phone and the purpose registration or login.
abbrev pub shares_cooldown : IdentityKind → Purpose → Bool
shares_cooldown phone registration = true
shares_cooldown phone login = true
shares_cooldown _ _ = false

abbrev pub or_unavailable {ℓ} : {A : Type ℓ} → Result RepositoryError A → Result Error A
or_unavailable (ok a) = ok a
or_unavailable (err e) = err temporarily_unavailable

later_of :
    Result RepositoryError (Option Challenge)
    → Result RepositoryError (Option Challenge)
    → Result RepositoryError (Option Challenge)
later_of (ok a) (ok b) = ok (keep_later (keep_later none a) b)
later_of (ok a) (err e) = err e
later_of (err e) b = err e

unfoldable pub latest_for_send_cooldown :
    Bool → SendRequest → List Bytes → Rows → Result RepositoryError (Option Challenge)
unfolding later_of
latest_for_send_cooldown fails r targets rows =
    if shares_cooldown r.kind r.purpose
    then later_of (latest fails targets registration rows) (latest fails targets login rows)
    else latest fails targets r.purpose rows

pub record Scope : Type 0 where
  pub name : String
  pub value : Bytes
  pub policy : Policy

abbrev pub limit_key : Service → Scope → Bytes
limit_key s scope = hex (request_hmac s (codes "limit" ∷ codes scope.name ∷ scope.value ∷ []))

-- One round of allowRequest's loop, and the rounds after it.
check_decision : Option Decision → Bool → Result Error Bool
check_decision none required = err temporarily_unavailable
check_decision (some d) required =
    if not d.allowed then err rate_limited else ok (required || d.captcha_required)

unfoldable pub allow_scopes :
    Service → Around → List Scope → Bool → Counters → Result Error Bool × Counters
unfolding check_decision
allow_scopes s io [] required counters = (ok required, counters)
allow_scopes s io (scope ∷ scopes) required counters =
    let (d, counters') =
      allow io.limiter_fails io.redis_now (limit_key s scope) scope.policy counters in
    let next = λ (required' : Bool). allow_scopes s io scopes required' counters' in
    elim (check_decision d required) [ err e ↦ (err e, counters') | ok required' ↦ next required' ]

unfoldable pub request_scopes : Service → SendRequest → Bytes → List Scope
request_scopes s r target =
    record { name = "identity"; value = target; policy = s.policies.identity }
    ∷ record { name = "ip"; value = utf8 r.ip_address; policy = s.policies.ip }
    ∷ record { name = "device"; value = utf8 r.device_id; policy = s.policies.device }
    ∷ []

unfoldable pub allow_request :
    Service → Around → SendRequest → Bytes → Counters → Result Error Bool × Counters
unfolding allow_scopes request_scopes
allow_request s io r target counters = allow_scopes s io (request_scopes s r target) false counters

cooldown_answer : Option Decision → Result Error (Unit {0})
cooldown_answer none = err temporarily_unavailable
cooldown_answer (some d) = if not d.allowed then err resend_too_soon else ok tt

unfoldable pub allow_unified_phone_cooldown :
    Service → Around → SendRequest → Bytes → Counters → Result Error (Unit {0}) × Counters
unfolding cooldown_answer
allow_unified_phone_cooldown s io r target counters =
    if not (shares_cooldown r.kind r.purpose)
    then (ok tt, counters)
    else let (d, counters') =
        allow io.cooldown_fails io.redis_now
          (hex (request_hmac s (codes "cooldown" ∷ codes "phone" ∷ target ∷ [])))
          unified_phone_cooldown_policy counters in
      (cooldown_answer d, counters')

unfoldable pub check_captcha : Service → SendRequest → Bool → Result Error (Unit {0})
check_captcha s r required =
    if not required
    then ok tt
    else if is_blank r.captcha_token
    then err captcha_required
    else elim (s.captcha r.captcha_token r.ip_address) [
      | none ↦ err temporarily_unavailable
      | some valid ↦ if valid then ok tt else err captcha_required
    ]
