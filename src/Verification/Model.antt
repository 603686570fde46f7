-- ===== src/Verification/Model.antt =====
-- internal/verification/model.go. A purpose is its text in Go; `other` is any text that is none
-- of the six. Times are milliseconds, a UUID is a number.
use aera_cloud.Prelude.{ℕ, Bool, true, false, Option, String, str_eq, Bytes, Text}

pub data Purpose : Type 0 where
  registration login password_reset bind_identity account_deletion deletion_recovery : Purpose
  other : String → Purpose

pub data IdentityKind : Type 0 where
  email phone : IdentityKind
  other_kind : String → IdentityKind

pub data Error : Type 0 where
  invalid_request resend_too_soon rate_limited captcha_required : Error
  delivery_unavailable temporarily_unavailable request_in_progress invalid_verification : Error

abbrev pub purpose_text : Purpose → String
purpose_text registration = "registration"
purpose_text login = "login"
purpose_text password_reset = "password_reset"
purpose_text bind_identity = "bind_identity"
purpose_text account_deletion = "account_deletion"
purpose_text deletion_recovery = "deletion_recovery"
purpose_text (other s) = s

abbrev pub kind_text : IdentityKind → String
kind_text email = "email"
kind_text phone = "phone"
kind_text (other_kind s) = s

abbrev pub purpose_eq : Purpose → Purpose → Bool
purpose_eq p q = str_eq (purpose_text p) (purpose_text q)

unfoldable pub valid_purpose : Purpose → Bool
valid_purpose (other s) = false
valid_purpose registration = true
valid_purpose _ = true

pub record Challenge : Type 0 where
  pub id : ℕ
  pub purpose : Purpose
  pub identity_kind : IdentityKind
  pub target_lookup_key_id : String
  pub target_lookup_hmac : Bytes
  pub code_key_id : String
  pub code_hmac : Bytes
  pub idempotency_key_hash : Bytes
  pub expires_at : ℕ
  pub resend_after : ℕ
  pub failed_attempts : ℕ
  pub consumed_at : Option ℕ
  pub invalidated_at : Option ℕ
  pub created_at : ℕ

pub record SendRequest : Type 0 where
  pub kind : IdentityKind
  pub destination : Text
  pub purpose : Purpose
  pub idempotency_key : Text
  pub ip_address : Text
  pub device_id : Text
  pub captcha_token : Text

pub record VerifyRequest : Type 0 where
  pub kind : IdentityKind
  pub destination : Text
  pub purpose : Purpose
  pub code : Text
