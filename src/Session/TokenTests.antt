-- ===== src/Session/TokenTests.antt =====
-- Concrete access tokens (internal/session/access.go) and who is let in with them
-- (internal/session/revocation.go).
use aera_cloud.Prelude.{
  ℕ, ◌%◌, ◌<◌, ◌≤◌, ◌≡◌, refl, true, false, none, some, [], ◌∷◌, Bytes, replicate, length-replicate,
  replicate-All, length, bytes_eq, bytes_eq_refl, ok, arith, Result,
}
use aera_cloud.Postgres.{healthy}
use aera_cloud.Secure.Base64.{encode}
use aera_cloud.Secure.Base64.Canonical.{
  IsBytes, decode_canonical-encode, decode_canonical-injective,
}
use aera_cloud.Secure.Compact.{Ed25519}
use aera_cloud.Session.Table.{Error, Directory, Session, UserStatus, DeviceStatus, SpaceStatus}
use aera_cloud.Session.Repository.{
  AccessBinding, access_active, access_row_active, valid_access_binding,
}
use aera_cloud.Session.Access.{
  AccessSigner, AccessJson, AccessClaims, IssuedAccessToken, access_header, access_payload, issue,
  issued_token, verify,
}
use aera_cloud.Session.Access.Laws.{issued_claims, verify-issue, verify-IsGenuine, IsGenuine}
use aera_cloud.Session.Authenticator.{
  Cache, holds_active, holds_revoked, authenticate, check_status, check_database, write_back,
  write_status, read_status, parse_entry, entry_of, write_entry, status_of, answer,
}
use aera_cloud.Session.Authenticator.Laws.{authenticate-active}

decode_canonical-injective_example : encode (104 ∷ []) ≡ encode (104 ∷ [])
decode_canonical-injective_example =
    decode_canonical-injective (encode (104 ∷ [])) (encode (104 ∷ [])) (104 ∷ [])
      (decode_canonical-encode (104 ∷ []) (omega arith))
      (decode_canonical-encode (104 ∷ []) (omega arith))

-- A toy scheme: the public key is the private one, and a signature is 64 times its first byte.
head_byte : Bytes → ℕ
head_byte [] = 0
head_byte (b ∷ bs) = b % 256

toy_signature : Bytes → Bytes → Bytes
unfolding head_byte
toy_signature key message = replicate 64 (head_byte key)

head_byte_lt : (key : Bytes) → head_byte key < 256
unfolding head_byte
head_byte_lt [] = omega arith
head_byte_lt (b ∷ bs) = omega arith

toy_verify-sign :
    (key message : Bytes) → bytes_eq (toy_signature key message) (toy_signature key message) ≡ true
toy_verify-sign key message = bytes_eq_refl (toy_signature key message)

toy_length : (key message : Bytes) → length (toy_signature key message) ≡ 64
unfolding toy_signature
toy_length key message = length-replicate 64 (head_byte key)

toy_bytes : (key message : Bytes) → IsBytes (toy_signature key message)
unfolding toy_signature
toy_bytes key message = replicate-All (λ b. b < 256) 64 (head_byte key) (head_byte_lt key)

abbrev toy : Ed25519
toy = record {
  public = λ key. key;
  sign = toy_signature;
  verify = λ key message signature. bytes_eq (toy_signature key message) signature;
  verify-sign = toy_verify-sign;
  length-sign = toy_length;
  sign-IsBytes = toy_bytes;
}

abbrev sample_signer : AccessSigner
sample_signer = record {
  issuer = "https://aera.example";
  audience = "aera-desktop";
  active_key_id = "k1";
  signing_key = 7 ∷ [];
  verification = ("k1", 7 ∷ []) ∷ [];
}

abbrev sample_access : AccessBinding
sample_access = record { user_id = 1; session_id = 10; device_id = 2; personal_space_id = 4 }

-- A codec for the one header and payload in use.
abbrev sample_json : AccessJson
sample_json = record {
  header = λ h. 123 ∷ 125 ∷ [];
  parse_header = λ v. some (access_header sample_signer);
  header-IsBytes = λ h. omega arith;
  payload = λ p. 123 ∷ 32 ∷ 125 ∷ [];
  parse_payload = λ v. some (access_payload sample_signer sample_access 5000);
  payload-IsBytes = λ p. omega arith;
}

abbrev sample_issued : IssuedAccessToken
sample_issued = issued_token toy sample_json sample_signer sample_access 5000

issued : issue toy sample_json sample_signer sample_access 5000 ≡ ok sample_issued
unfolding issue valid_access_binding
issued = refl

issued_short : length sample_issued.serialized ≤ 8192
unfolding issued_token encode toy_signature
issued_short = omega arith

issued_late : 6000 < sample_issued.expires_at
unfolding issued_token
issued_late = omega arith

verify-issue_example :
    verify toy sample_json sample_signer 6000 sample_issued.serialized
    ≡ ok (issued_claims toy sample_json sample_access 5000)
verify-issue_example =
    verify-issue toy sample_json sample_signer sample_access 5000 6000 sample_issued issued refl
      refl refl issued_short (omega arith) issued_late

verify-IsGenuine_example :
    IsGenuine toy sample_json sample_signer 6000 sample_issued.serialized
      (issued_claims toy sample_json sample_access 5000)
verify-IsGenuine_example =
    verify-IsGenuine toy sample_json sample_signer 6000 sample_issued.serialized
      (issued_claims toy sample_json sample_access 5000) verify-issue_example

abbrev sample_claims : AccessClaims
sample_claims = record { binding = sample_access; issued_at = 5000; expires_at = 905000 }

abbrev live_row : Session
live_row = record {
  id = 10;
  user_id = 1;
  device_id = 2;
  family_id = 20;
  refresh_token_hash = replicate 32 1;
  rotated_from = none;
  issued_at = 1000;
  expires_at = 900000;
  replaced_at = none;
  revoked_at = none;
  revoked_reason = none;
  replay_detected_at = none;
}

abbrev sample_users : Directory
sample_users = record {
  users = record { id = 1; status = UserStatus.active } ∷ [];
  devices = record { id = 2; user_id = 1; installation_id = 3; status = DeviceStatus.active } ∷ [];
  spaces = record { id = 4; owner_user_id = 1; status = SpaceStatus.active } ∷ [];
}

abbrev cached_active : Cache
cached_active = record { entry = some holds_active; get_fails = false; set_fails = false }

let_in :
    (authenticate healthy sample_users (live_row ∷ []) cached_active 6000 (ok sample_claims)).0
    ≡ ok sample_claims
unfolding authenticate check_status check_database write_back write_status read_status parse_entry
    entry_of write_entry status_of answer access_active access_row_active valid_access_binding
let_in = refl

authenticate-active_example :
    (◌≡◌ {A = Result Error AccessClaims} (ok sample_claims) (ok sample_claims))
    × (6000 < sample_claims.expires_at)
    × (access_row_active sample_users (live_row ∷ []) sample_access 6000 ≡ true)
authenticate-active_example =
    authenticate-active healthy sample_users (live_row ∷ []) cached_active 6000 (ok sample_claims)
      sample_claims let_in

abbrev revoked_row : Session
revoked_row = record live_row { revoked_at = some 5500 }

abbrev cached_revoked : Cache
cached_revoked = record { entry = some holds_revoked; get_fails = false; set_fails = false }
