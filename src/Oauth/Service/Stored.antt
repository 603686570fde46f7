-- ===== src/Oauth/Service/Stored.antt =====
-- What Begin stores passes the repository's checks (internal/oauth/service.go, repository.go).
use aera_cloud.Prelude.{
  ℕ, ◌≡◌, ◌<◌, true, false, inl, inr, Bytes, String, str_eq, eq_iff, length, ◌||◌, arith,
  Bool-cases, ◌==◌,
}
use aera_cloud.Oauth.Model.{
  BeginRequest, valid_begin_request, valid_device_metadata, valid_authorization_record,
}
use aera_cloud.Oauth.Service.{authorization_record}
use aera_cloud.Oauth.Platform.{Service, state_hash}

known_platform :
    (p : String)
    → (str_eq p "darwin" || str_eq p "windows" || str_eq p "linux") ≡ true
    → str_eq p "" ≡ false
known_platform p h = elim (Bool-cases (str_eq p "")) [
  | inr e ↦ e
  | inl e ↦ let same : p ≡ "" = (eq_iff p "").0 e in absurd (ground (arith, rw same at h))
]

-- Every request that Begin accepts makes a record that the repository accepts, if the request's id
-- and the active key's id are not empty, the hashes have 32 bytes, the nonce 12 and the sealed
-- state more than the 16 of its tag.
pub valid_authorization_record-begin :
    {D T : Type 0} (s : Service D T) (r : BeginRequest) (now id : ℕ) (nonce ciphertext : Bytes)
    → valid_begin_request s.platform.parse_url r ≡ true
    → (id == 0) ≡ false
    → str_eq s.active_state_key_id "" ≡ false
    → length (state_hash s r.state) ≡ 32
    → length (s.platform.sha256 r.device_public_key) ≡ 32
    → length nonce ≡ 12
    → 16 < length ciphertext
    → valid_authorization_record s.platform.parse_url
        (authorization_record s r now id nonce ciphertext)
      ≡ true
unfolding valid_begin_request valid_device_metadata valid_authorization_record authorization_record
valid_authorization_record-begin s r now id nonce ciphertext v i k h d n c =
    ground (arith, v, i, k, h, d, n, c, known_platform r.device_platform)
