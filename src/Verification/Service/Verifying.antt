-- ===== src/Verification/Service/Verifying.antt =====
-- Verify (internal/verification/service.go).
pub mod Laws
use aera_cloud.Prelude.{
  ℕ, ◌+◌, ◌-◌, ◌*◌, ◌/◌, ◌%◌, ◌≡◌, Bool, true, false, ◌&&◌, ◌||◌, not, Option, none, some, List, [],
  ◌∷◌, ◌++◌, map, String, str_eq, Text, codes, is_blank, utf8, byte_length, Bytes, length, is_some,
  Result, ok, err, ltb, leb, ◌==◌, if◌then◌else◌,
}
use aera_cloud.Postgres.{Faults}
use aera_cloud.Verification.Model.{
  Purpose, registration, login, purpose_text, valid_purpose, IdentityKind, phone, kind_text, Error,
  invalid_request, resend_too_soon, rate_limited, captcha_required, delivery_unavailable,
  temporarily_unavailable, request_in_progress, invalid_verification, Challenge, SendRequest,
  VerifyRequest,
}
use aera_cloud.Verification.Limiter.{
  Policy, Decision, ScopePolicies, Counters, Leases, allow, acquire, release,
}
use aera_cloud.Verification.Repository.{
  Rows, RepositoryError, challenge_not_found, code_mismatch, store_failed, exists_by_idempotency,
  latest, keep_later, save_after_delivery, consume,
}
use aera_cloud.Verification.Service.{
  LookupIndex, DeliveryFailure, Delivery, Receipt, Service, Message, World, Around,
  challenge_lifetime, resend_delay, delivery_lease_ttl, unified_phone_cooldown_policy, hex_digit,
  hex, request_hmac, code_hmac, six_digits, Target, prepare_target, lookup_hmacs, lookup_key,
  delivered, is_digit, failed,
}

unfoldable pub all_digits : Text → Bool
all_digits [] = true
all_digits (c ∷ cs) = is_digit c && all_digits cs

unfoldable pub valid_code : Text → Bool
unfolding all_digits
valid_code code = byte_length code == 6 && all_digits code

abbrev pub consume_error : RepositoryError → Error
consume_error challenge_not_found = invalid_verification
consume_error code_mismatch = invalid_verification
consume_error store_failed = temporarily_unavailable

unfoldable pub is_verifiable : ℕ → Challenge → Bool
is_verifiable now c =
    not (is_some c.consumed_at) && not (is_some c.invalidated_at) && ltb now c.expires_at

unfoldable pub receipt_for :
    Service
    → Challenge
    → Text
    → Result RepositoryError (Unit {0}) × Rows
    → Result Error Receipt × Rows
receipt_for s c normalized (err e, rows) = (err (consume_error e), rows)
receipt_for s c normalized (ok u, rows) = elim (s.issue_receipt c normalized) [
  | none ↦ (err temporarily_unavailable, rows)
  | some receipt ↦ (ok receipt, rows)
]

unfoldable pub verify_keyed :
    Service
    → Faults
    → ℕ
    → VerifyRequest
    → Target
    → Challenge
    → Option Bytes
    → Rows
    → Result Error Receipt × Rows
unfolding receipt_for
verify_keyed s db now r t c none rows = (err temporarily_unavailable, rows)
verify_keyed s db now r t c (some key) rows = receipt_for s c t.normalized (
    consume db c.target_lookup_hmac r.purpose
      (code_hmac s key r.purpose c.target_lookup_hmac (utf8 r.code)) now rows)

unfoldable pub verify_found :
    Service
    → Faults
    → ℕ
    → VerifyRequest
    → Target
    → Option Challenge
    → Rows
    → Result Error Receipt × Rows
unfolding verify_keyed
verify_found s db now r t none rows = (err invalid_verification, rows)
verify_found s db now r t (some c) rows =
    if not (is_verifiable now c)
    then (err invalid_verification, rows)
    else verify_keyed s db now r t c (lookup_key c.code_key_id s.code_keys) rows

unfoldable pub verify_latest :
    Service
    → Faults
    → ℕ
    → VerifyRequest
    → Target
    → Result RepositoryError (Option Challenge)
    → Rows
    → Result Error Receipt × Rows
unfolding verify_found
verify_latest s db now r t (err e) rows = (err temporarily_unavailable, rows)
verify_latest s db now r t (ok found) rows = verify_found s db now r t found rows

unfoldable pub verify_prepared :
    Service
    → Bool
    → Faults
    → ℕ
    → VerifyRequest
    → Result Error Target
    → Rows
    → Result Error Receipt × Rows
unfolding verify_latest
verify_prepared s latest_fails db now r (err e) rows = (err invalid_verification, rows)
verify_prepared s latest_fails db now r (ok t) rows =
    if not (valid_code r.code)
    then (err invalid_verification, rows)
    else verify_latest s db now r t (latest latest_fails (lookup_hmacs t) r.purpose rows) rows

-- `latest_fails` is about the query before Consume.
unfoldable pub verify :
    Service → Bool → Faults → ℕ → VerifyRequest → Rows → Result Error Receipt × Rows
unfolding verify_prepared
verify s latest_fails db now r rows =
    verify_prepared s latest_fails db now r (prepare_target s r.kind r.destination r.purpose) rows
