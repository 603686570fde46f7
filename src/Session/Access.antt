-- ===== src/Session/Access.antt =====
-- internal/session/access.go: access tokens, signed with Ed25519. encoding/json is a parameter:
-- Marshal of the two structs, and the strict decoder (`decodeAccessJSON`). Unix times are numbers
-- of seconds, the clock counts milliseconds.
pub mod Laws
use aera_cloud.Prelude.{
  ℕ, ◌+◌, ◌*◌, ◌/◌, ◌<◌, ◌≡◌, Bool, true, false, ◌&&◌, ◌||◌, not, Option, none, some, List, [], ◌∷◌,
  ◌++◌, String, str_eq, Bytes, length, Result, ok, err, ◌>>=◌, ◌==◌, ltb, if◌then◌else◌,
}
use aera_cloud.Secure.Base64.{encode, decode_canonical}
use aera_cloud.Secure.Base64.Canonical.{IsBytes}
use aera_cloud.Secure.Compact.{Ed25519, count_dots, split_dots, join_dots, signing_input}
use aera_cloud.Session.Table.{Error, invalid_access_token}
use aera_cloud.Session.Repository.{AccessBinding, valid_access_binding}

pub record AccessHeader : Type 0 where
  pub algorithm : String
  pub key_id : String
  pub type : String

pub record AccessPayload : Type 0 where
  pub issuer : String
  pub audience : String
  pub user_id : ℕ
  pub session_id : ℕ
  pub device_id : ℕ
  pub personal_space_id : ℕ
  pub issued_at_unix : ℕ
  pub expires_at_unix : ℕ

pub record AccessJson : Type 0 where
  pub header : AccessHeader → Bytes
  pub parse_header : Bytes → Option AccessHeader
  pub header-IsBytes : (h : AccessHeader) → IsBytes (header h)
  pub payload : AccessPayload → Bytes
  pub parse_payload : Bytes → Option AccessPayload
  pub payload-IsBytes : (p : AccessPayload) → IsBytes (payload p)

pub record AccessClaims : Type 0 where
  pub binding : AccessBinding
  pub issued_at : ℕ
  pub expires_at : ℕ

pub record IssuedAccessToken : Type 0 where
  pub serialized : Bytes
  pub expires_at : ℕ

-- The maps of keys as association lists. `verification` holds public keys.
pub record AccessSigner : Type 0 where
  pub issuer : String
  pub audience : String
  pub active_key_id : String
  pub signing_key : Bytes
  pub verification : List (String × Bytes)

abbrev pub lookup {ℓ} : {A : Type ℓ} → String → List (String × A) → Option A
lookup k [] = none
lookup k ((j, v) ∷ m) = if str_eq j k then some v else lookup k m

-- accessTokenLifetime and the tolerated clock skew, in seconds.
abbrev pub access_token_lifetime : ℕ
access_token_lifetime = 900

abbrev pub clock_skew : ℕ
clock_skew = 60

abbrev pub maximum_access_token_length : ℕ
maximum_access_token_length = 8192

abbrev seconds : ℕ → ℕ
seconds t = t * 1000

abbrev pub access_header : AccessSigner → AccessHeader
access_header s = record { algorithm = "EdDSA"; key_id = s.active_key_id; type = "at+jwt" }

abbrev pub access_payload : AccessSigner → AccessBinding → ℕ → AccessPayload
access_payload s b now = record {
  issuer = s.issuer;
  audience = s.audience;
  user_id = b.user_id;
  session_id = b.session_id;
  device_id = b.device_id;
  personal_space_id = b.personal_space_id;
  issued_at_unix = now / 1000;
  expires_at_unix = now / 1000 + access_token_lifetime;
}

abbrev pub payload_binding : AccessPayload → AccessBinding
payload_binding p = record {
  user_id = p.user_id;
  session_id = p.session_id;
  device_id = p.device_id;
  personal_space_id = p.personal_space_id;
}

abbrev pub or_invalid {ℓ} : {A : Type ℓ} → Option A → Result Error A
or_invalid none = err invalid_access_token
or_invalid (some a) = ok a

abbrev pub guard : Bool → Result Error (Unit {0})
guard true = ok tt
guard false = err invalid_access_token

infixl 5 ◌>>◌
abbrev pub ◌>>◌ {ℓ} : {B : Type ℓ} → Result Error (Unit {0}) → Result Error B → Result Error B
m >> k = m >>= λ _. k

module _ (ed : Ed25519) (json : AccessJson) where
  unfoldable pub issued_token : AccessSigner → AccessBinding → ℕ → IssuedAccessToken
  issued_token s b now = record {
    serialized =
        join_dots header payload (encode (ed.sign s.signing_key (signing_input header payload)));
    expires_at = seconds (now / 1000 + access_token_lifetime);
  }
    where
      header : Bytes
      header = encode (json.header (access_header s))

      payload : Bytes
      payload = encode (json.payload (access_payload s b now))

  unfoldable pub issue : AccessSigner → AccessBinding → ℕ → Result Error IssuedAccessToken
  issue s b now =
      if not (valid_access_binding b) then err invalid_access_token else ok (issued_token s b now)

  -- The checks of the payload's claims.
  unfoldable pub accept_payload : AccessSigner → ℕ → AccessPayload → Result Error AccessClaims
  accept_payload s now p =
      if not (str_eq p.issuer s.issuer)
        || not (str_eq p.audience s.audience)
        || not (valid_access_binding (payload_binding p))
        || not (p.expires_at_unix == p.issued_at_unix + access_token_lifetime)
        || ltb (now + seconds clock_skew) (seconds p.issued_at_unix)
        || not (ltb now (seconds p.expires_at_unix))
      then err invalid_access_token
      else ok (record {
        binding = payload_binding p;
        issued_at = seconds p.issued_at_unix;
        expires_at = seconds p.expires_at_unix;
      })

  unfoldable pub verify_parts : AccessSigner → ℕ → List Bytes → Result Error AccessClaims
  verify_parts s now (first ∷ second ∷ third ∷ []) = do
    header_json ← or_invalid (decode_canonical first)
    header ← or_invalid (json.parse_header header_json)
    guard (str_eq header.algorithm "EdDSA" && str_eq header.type "at+jwt")
    public_key ← or_invalid (lookup header.key_id s.verification)
    signature ← or_invalid (decode_canonical third)
    guard (length signature == 64 && ed.verify public_key (signing_input first second) signature)
    payload_json ← or_invalid (decode_canonical second)
    payload ← or_invalid (json.parse_payload payload_json)
    accept_payload s now payload
  verify_parts s now _ = err invalid_access_token

  -- Two dots make three parts, so the last clause above is not reached from here.
  unfoldable pub verify : AccessSigner → ℕ → Bytes → Result Error AccessClaims
  verify s now serialized =
      if length serialized == 0
        || ltb maximum_access_token_length (length serialized)
        || not (count_dots serialized == 2)
      then err invalid_access_token
      else verify_parts s now (split_dots serialized)
