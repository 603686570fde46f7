-- ===== src/Oauth/Platform.antt =====
-- What internal/oauth/service.go takes from outside, and the encryption of the state. The
-- cryptography, the url package and the text of a UUID are parameters. Devices and sessions stand
-- behind the two interfaces that the service has for them; `D` is what these write.
use aera_cloud.Prelude.{
  ℕ, Bool, ◌||◌, not, Option, none, some, List, [], ◌∷◌, ◌++◌, String, str_eq, Text, codes, utf8,
  Bytes, bytes_eq, length, Result, ◌==◌, if◌then◌else◌,
}
use aera_cloud.Session.Table.{Binding, Error as SessionError}
use aera_cloud.Device.Model.{DeviceError, AuthorizeCommand}
use aera_cloud.Oauth.Model.{AuthorizationRecord, Url, valid_opaque_state}

-- crypto/sha256, crypto/hmac, crypto/ed25519, net/url and AES-GCM by cipher.AEAD: `none` where a
-- key has a wrong length or the text was not sealed so. A sealed text is meant as its bytes.
pub record Platform : Type 0 where
  pub sha256 : Bytes → Bytes
  pub hmac : Bytes → Bytes → Bytes
  pub verify : Bytes → Bytes → Bytes → Bool
  pub seal : Bytes → Bytes → Text → Bytes → Option Bytes
  pub open_sealed : Bytes → Bytes → Bytes → Bytes → Option Text
  pub nonce_size : ℕ
  pub parse_url : Text → Option Url
  pub with_query : Text → Bytes → Text → Text
  pub uuid_text : ℕ → Bytes

pub record Service (D T : Type 0) : Type 0 where
  pub platform : Platform
  pub authorize : AuthorizeCommand → D → Result DeviceError ℕ × D
  pub start_in_tx : Binding → D → Result SessionError T × D
  pub active_state_key_id : String
  pub state_keys : List (String × Bytes)
  pub state_hmac_key : Bytes

abbrev pub authorization_request_lifetime : ℕ
authorization_request_lifetime = 600000

abbrev pub authorization_code_lifetime : ℕ
authorization_code_lifetime = 120000

abbrev pub lookup_key : String → List (String × Bytes) → Option Bytes
lookup_key k [] = none
lookup_key k ((j, v) ∷ m) = if str_eq j k then some v else lookup_key k m

-- A Go map yields nil for a missing key.
abbrev pub or_nil : Option Bytes → Bytes
or_nil none = []
or_nil (some v) = v

unfoldable pub authorization_code_hash : Platform → Bytes → Bytes
authorization_code_hash p code = p.sha256 (codes "agentera.authorization-code.v1" ++ (0 ∷ code))

unfoldable pub device_proof_digest : Platform → Text → Text → ℕ → Bytes
device_proof_digest p code verifier installation_id =
    p.sha256 (utf8 code ++ (0 ∷ (utf8 verifier ++ (0 ∷ p.uuid_text installation_id))))

unfoldable pub state_aad : Platform → ℕ → Bytes
state_aad p request_id = codes "agentera.oauth-state.v1" ++ (0 ∷ p.uuid_text request_id)

module _ {D T : Type 0} (s : Service D T) where
  unfoldable pub state_hash : Text → Bytes
  state_hash state =
      s.platform.hmac s.state_hmac_key (codes "agentera.oauth-state.v1" ++ (0 ∷ utf8 state))

  -- encryptState with the nonce drawn; `none` if the draw fails or the key is not one of AES.
  unfoldable pub sealed_state : ℕ → Text → Option Bytes → Option (Bytes × Bytes)
  sealed_state request_id state none = none
  sealed_state request_id state (some nonce) =
      elim (s.platform.seal (or_nil (lookup_key s.active_state_key_id s.state_keys)) nonce state
        (state_aad s.platform request_id)) [
          | none ↦ none
          | some ciphertext ↦ some (nonce, ciphertext)
        ]

  unfoldable pub encrypt_state : Option Bytes → ℕ → Text → Option (Bytes × Bytes)
  unfolding sealed_state
  encrypt_state nonce request_id state = sealed_state request_id state nonce

  unfoldable pub accept_state : AuthorizationRecord → Option Text → Option Text
  accept_state r none = none
  accept_state r (some state) =
      if not (valid_opaque_state state) || not (bytes_eq (state_hash state) r.state_hash)
      then none
      else some state

  unfoldable pub open_state : AuthorizationRecord → Option Bytes → Option Text
  unfolding accept_state
  open_state r none = none
  open_state r (some key) =
      if not (length r.state_nonce == s.platform.nonce_size)
      then none
      else accept_state r
          (s.platform.open_sealed key r.state_nonce r.state_ciphertext (state_aad s.platform r.id))

  unfoldable pub decrypt_state : AuthorizationRecord → Option Text
  unfolding open_state
  decrypt_state r = open_state r (lookup_key r.state_encryption_key_id s.state_keys)
