-- ===== src/Verification/Service.antt =====
-- What Send and Verify of internal/verification/service.go share. The hash functions, the identity
-- indexer, the CAPTCHA provider, the message provider and the receipt codec are parameters behind
-- the interfaces that the service has for them; so are the random draws, the clock and which calls
-- fail.
pub mod Limits
pub mod Sending
pub mod Verifying
use aera_cloud.Prelude.{
  ℕ, ◌+◌, ◌-◌, ◌*◌, ◌/◌, ◌%◌, ◌≡◌, Bool, true, false, ◌&&◌, ◌||◌, not, Option, none, some, List, [],
  ◌∷◌, ◌++◌, map, String, str_eq, Text, codes, is_blank, utf8, byte_length, Bytes, length, is_some,
  Result, ok, err, ltb, leb, ◌==◌, if◌then◌else◌,
}
use aera_cloud.Postgres.{Faults}
use aera_cloud.Verification.Model.{
  Purpose, registration, login, purpose_text, valid_purpose, IdentityKind, phone, kind_text, Error,
  invalid_request, resend_too_soon, rate_limited, captcha_required, delivery_unavailable,
  temporarily_unavailable, request_in_progress, invalid_verification, Challenge, SendRequest,
  VerifyRequest,
}
use aera_cloud.Verification.Limiter.{
  Policy, Decision, ScopePolicies, Counters, Leases, allow, acquire, release,
}
use aera_cloud.Verification.Repository.{
  Rows, RepositoryError, challenge_not_found, code_mismatch, store_failed, exists_by_idempotency,
  latest, keep_later, save_after_delivery, consume,
}

pub record LookupIndex : Type 0 where
  pub key_id : String
  pub hmac : Bytes

pub record DeliveryFailure : Type 0 where
  pub provider : String
  pub code : Text
  pub request_id : Text
  pub rate_limited : Bool

-- What Sender.SendVerification returns: an error may carry the provider's metadata. It says nothing of
-- the message: `failed true` is a provider that had accepted the message before the error (SMTP, where
-- Quit fails), `failed false` one that had not.
pub data Delivery : Type 0 where
  delivered : Delivery
  failed : Bool → Option DeliveryFailure → Delivery

pub record Receipt : Type 0 where
  pub serialized : Bytes
  pub expires_at : ℕ

pub record Service : Type 0 where
  pub normalize : IdentityKind → Text → Option Text
  pub lookup_candidates : IdentityKind → Text → List LookupIndex
  pub hmac : Bytes → Bytes → Bytes
  pub request_hmac_key : Bytes
  pub active_code_key_id : String
  pub code_keys : List (String × Bytes)
  pub policies : ScopePolicies
  pub captcha : Text → Text → Option Bool
  pub deliver : Text → Bytes → Purpose → Delivery
  pub issue_receipt : Challenge → Text → Option Receipt

pub record Message : Type 0 where
  pub destination : Text
  pub code : Bytes
  pub purpose : Purpose

pub record World : Type 0 where
  pub challenges : Rows
  pub counters : Counters
  pub leases : Leases
  pub outbox : List Message

-- One request's surroundings. `meanwhile` is what other requests do between the first look at the
-- table and the lease.
pub record Around : Type 0 where
  pub now : ℕ
  pub redis_now : ℕ
  pub owner : Option Bytes
  pub code_draw : Option ℕ
  pub challenge_id : Option ℕ
  pub exists_fails : Bool
  pub acquire_fails : Bool
  pub exists_again_fails : Bool
  pub latest_fails : Bool
  pub limiter_fails : Bool
  pub cooldown_fails : Bool
  pub release_fails : Bool
  pub save : Faults
  pub meanwhile : World → World

abbrev pub challenge_lifetime : ℕ
challenge_lifetime = 300000

abbrev pub resend_delay : ℕ
resend_delay = 60000

abbrev pub delivery_lease_ttl : ℕ
delivery_lease_ttl = 30000

abbrev pub unified_phone_cooldown_policy : Policy
unified_phone_cooldown_policy = record { limit = 1; captcha_after = 1; window = resend_delay }

unfoldable pub hex_digit : ℕ → ℕ
hex_digit n = if ltb n 10 then n + b'0' else n - 10 + b'a'

-- hex.EncodeToString.
unfoldable pub hex : Bytes → Bytes
unfolding hex_digit
hex [] = []
hex (b ∷ bs) = hex_digit (b / 16) ∷ hex_digit (b % 16) ∷ hex bs

terminated : List Bytes → Bytes
terminated [] = []
terminated (part ∷ parts) = part ++ (0 ∷ terminated parts)

unfoldable pub request_hmac : Service → List Bytes → Bytes
unfolding terminated
request_hmac s parts = s.hmac s.request_hmac_key (terminated parts)

unfoldable pub code_hmac : Service → Bytes → Purpose → Bytes → Bytes → Bytes
code_hmac s key purpose target code =
    s.hmac key (utf8 (codes (purpose_text purpose)) ++ (0 ∷ (target ++ (0 ∷ code))))

abbrev pub digit : ℕ → ℕ
digit n = n % 10 + b'0'

-- fmt.Sprintf("%06d", value) of a value below 1,000,000.
unfoldable pub six_digits : ℕ → Bytes
six_digits n =
    digit (n / 100000)
    ∷ digit (n / 10000)
    ∷ digit (n / 1000)
    ∷ digit (n / 100)
    ∷ digit (n / 10)
    ∷ digit n
    ∷ []

abbrev pub is_digit : ℕ → Bool
is_digit c = leb b'0' c && leb c b'9'

pub record Target : Type 0 where
  pub normalized : Text
  pub active : LookupIndex
  pub others : List LookupIndex

with_candidates : Text → List LookupIndex → Result Error Target
with_candidates n [] = err temporarily_unavailable
with_candidates n (c ∷ cs) = ok (record { normalized = n; active = c; others = cs })

normalized_target : Service → IdentityKind → Option Text → Result Error Target
unfolding with_candidates
normalized_target s kind none = err invalid_request
normalized_target s kind (some n) = with_candidates n (s.lookup_candidates kind n)

-- prepareTarget; the candidates are not empty.
unfoldable pub prepare_target : Service → IdentityKind → Text → Purpose → Result Error Target
unfolding normalized_target
prepare_target s kind destination purpose =
    if not (valid_purpose purpose)
    then err invalid_request
    else normalized_target s kind (s.normalize kind destination)

abbrev pub lookup_hmacs : Target → List Bytes
lookup_hmacs t = t.active.hmac ∷ map (λ (c : LookupIndex). c.hmac) t.others

abbrev pub lookup_key : String → List (String × Bytes) → Option Bytes
lookup_key k [] = none
lookup_key k ((j, v) ∷ m) = if str_eq j k then some v else lookup_key k m
