-- ===== src/Oauth/Service.antt =====
-- Begin, Approve and Exchange of internal/oauth/service.go. The random draws and the clock are
-- arguments, and `D` is what the devices and the sessions write.
pub mod Laws
pub mod Stored
use aera_cloud.Oauth.Platform.{
  Platform, Service, authorization_request_lifetime, authorization_code_lifetime,
  authorization_code_hash, device_proof_digest, state_hash, encrypt_state, decrypt_state,
}
use aera_cloud.Prelude.{
  ℕ, ◌+◌, Bool, true, false, ◌&&◌, ◌||◌, not, Option, none, some, List, [], ◌∷◌, ◌++◌, String,
  str_eq, Text, codes, utf8, Bytes, bytes_eq, length, Result, ok, err, ◌==◌, if◌then◌else◌,
}
use aera_cloud.Postgres.{Faults}
use aera_cloud.Secure.Base64.{encode, decode_canonical}
use aera_cloud.Session.Table.{Binding, Error as SessionError}
use aera_cloud.Device.Model.{DeviceError, limit_reached, conflict, unavailable as no_device}
use aera_cloud.Oauth.Model.{
  OauthError, invalid_request, invalid_authorization, device_limit_reached, device_conflict,
  unavailable, session_not_started, BeginRequest, BeginResponse, ExchangeRequest,
  AuthorizationRecord, ApprovalRecord, Grant, Url, valid_begin_request, valid_redirect_uri,
  valid_opaque_state, valid_verifier, matches_challenge, trim_space,
}
use aera_cloud.Oauth.Repository.{Tables, Spaces, save, approve, exchange}

module _ {D T : Type 0} (s : Service D T) where
  unfoldable pub authorization_record : BeginRequest → ℕ → ℕ → Bytes → Bytes → AuthorizationRecord
  authorization_record r now id nonce ciphertext = record {
    id = id;
    client_id = r.client_id;
    redirect_uri = r.redirect_uri;
    code_challenge = r.code_challenge;
    code_challenge_method = r.code_challenge_method;
    state_encryption_key_id = s.active_state_key_id;
    state_nonce = nonce;
    state_ciphertext = ciphertext;
    state_hash = state_hash s r.state;
    installation_id = r.installation_id;
    device_public_key = r.device_public_key;
    device_key_digest = s.platform.sha256 r.device_public_key;
    device_display_name = trim_space r.device_display_name;
    device_platform = r.device_platform;
    app_version = r.app_version;
    expires_at = now + authorization_request_lifetime;
    created_at = now;
  }

  begun : ℕ → ℕ → Result OauthError (Unit {0}) × Tables → Result OauthError BeginResponse × Tables
  begun now id (err e, t) = (err unavailable, t)
  begun now id (ok _, t) =
      (ok (record { request_id = id; expires_at = now + authorization_request_lifetime }), t)

  begin_sealed :
      Faults
      → BeginRequest
      → ℕ
      → ℕ
      → Tables
      → Option (Bytes × Bytes)
      → Result OauthError BeginResponse × Tables
  unfolding begun
  begin_sealed db r now id t none = (err unavailable, t)
  begin_sealed db r now id t (some (nonce, ciphertext)) =
      begun now id (save db s.platform.parse_url (authorization_record r now id nonce ciphertext) t)

  unfoldable pub begin_drawn :
      Faults
      → BeginRequest
      → ℕ
      → Option Bytes
      → Tables
      → Option ℕ
      → Result OauthError BeginResponse × Tables
  unfolding begin_sealed
  begin_drawn db r now draw t none = (err unavailable, t)
  begin_drawn db r now draw t (some id) =
      begin_sealed db r now id t (encrypt_state s draw id r.state)

  -- The draws are the request's id and the nonce.
  unfoldable pub begin :
      Faults
      → BeginRequest
      → ℕ
      → Option ℕ
      → Option Bytes
      → Tables
      → Result OauthError BeginResponse × Tables
  unfolding begin_drawn
  begin db r now id nonce t =
      if not (valid_begin_request s.platform.parse_url r)
      then (err invalid_request, t)
      else begin_drawn db r now nonce t id

  redirect : Bytes → AuthorizationRecord → Option Text → Result OauthError Text
  redirect secret a none = err unavailable
  redirect secret a (some state) =
      if not (valid_redirect_uri s.platform.parse_url a.redirect_uri)
      then err unavailable
      else ok (s.platform.with_query a.redirect_uri (encode secret) state)

  approved :
      Bytes → Result OauthError AuthorizationRecord × Tables → Result OauthError Text × Tables
  unfolding redirect
  approved secret (err e, t) = (err e, t)
  approved secret (ok a, t) = (redirect secret a (decrypt_state s a), t)

  approve_drawn :
      Faults → Spaces → ℕ → ℕ → ℕ → Tables → Bytes → Option ℕ → Result OauthError Text × Tables
  unfolding approved
  approve_drawn db spaces request_id user_id now t secret none = (err unavailable, t)
  approve_drawn db spaces request_id user_id now t secret (some code_id) = approved secret (
      approve db spaces
        (record {
          request_id = request_id;
          user_id = user_id;
          code_id = code_id;
          code_hash = authorization_code_hash s.platform secret;
          code_expires_at = now + authorization_code_lifetime;
          approved_at = now;
        })
        t)

  approve_secret :
      Faults
      → Spaces
      → ℕ
      → ℕ
      → ℕ
      → Tables
      → Option ℕ
      → Option Bytes
      → Result OauthError Text × Tables
  unfolding approve_drawn
  approve_secret db spaces request_id user_id now t code_id none = (err unavailable, t)
  approve_secret db spaces request_id user_id now t code_id (some secret) =
      approve_drawn db spaces request_id user_id now t secret code_id

  -- Approve; the answer is the redirect.
  unfoldable pub approve_request :
      Faults
      → Spaces
      → ℕ
      → ℕ
      → ℕ
      → Option Bytes
      → Option ℕ
      → Tables
      → Result OauthError Text × Tables
  unfolding approve_secret
  approve_request db spaces request_id user_id now secret code_id t =
      if request_id == 0 || user_id == 0
      then (err invalid_request, t)
      else approve_secret db spaces request_id user_id now t code_id secret

  abbrev device_error : DeviceError → OauthError
  device_error limit_reached = device_limit_reached
  device_error conflict = device_conflict
  device_error no_device = unavailable
  device_error _ = invalid_authorization

  unfoldable pub started : Result SessionError T × D → Result OauthError T × D
  started (err e, d) = (err (session_not_started e), d)
  started (ok tokens, d) = (ok tokens, d)

  unfoldable pub authorized : Grant → Result DeviceError ℕ × D → Result OauthError T × D
  unfolding started
  authorized g (err e, d) = (err (device_error e), d)
  authorized g (ok device, d) = started (
      s.start_in_tx
        (record {
          user_id = g.user_id;
          device_id = device;
          installation_id = g.authorization.installation_id;
          personal_space_id = g.personal_space_id;
        })
        d)

  -- The proofs that the caller of Exchange is the one who began.
  unfoldable pub is_proven : ExchangeRequest → AuthorizationRecord → Bool
  is_proven r a =
      valid_verifier r.code_verifier
      && str_eq a.code_challenge_method "S256"
      && r.installation_id == a.installation_id
      && matches_challenge s.platform.sha256 r.code_verifier a.code_challenge
      && length a.device_public_key == 32
      && length r.device_proof == 64
      && s.platform.verify a.device_public_key
          (device_proof_digest s.platform r.authorization_code r.code_verifier r.installation_id)
          r.device_proof

  unfoldable pub finalize : ExchangeRequest → Grant → D → Result OauthError T × D
  unfolding authorized
  finalize r g d =
      if not (is_proven r g.authorization)
      then (err invalid_authorization, d)
      else authorized g (
          s.authorize
            (record {
              user_id = g.user_id;
              installation_id = g.authorization.installation_id;
              public_key = g.authorization.device_public_key;
              display_name = g.authorization.device_display_name;
              platform = g.authorization.device_platform;
              app_version = g.authorization.app_version;
            })
            d)

  unfoldable pub exchange_decoded :
      Faults
      → Spaces
      → ℕ
      → ExchangeRequest
      → Tables × D
      → Option Bytes
      → Result OauthError T × (Tables × D)
  exchange_decoded db spaces now r td none = (err invalid_authorization, td)
  exchange_decoded db spaces now r td (some secret) =
      if not (length secret == 32) || r.installation_id == 0
      then (err invalid_authorization, td)
      else exchange db spaces (authorization_code_hash s.platform secret) now (finalize r) td

  unfoldable pub exchange_request :
      Faults → Spaces → ℕ → ExchangeRequest → Tables × D → Result OauthError T × (Tables × D)
  unfolding exchange_decoded
  exchange_request db spaces now r td =
      exchange_decoded db spaces now r td (decode_canonical (utf8 r.authorization_code))
