-- ===== src/Oauth/Model.antt =====
-- internal/oauth/model.go, and the checks of a request in internal/oauth/service.go. A UUID is a
-- number, 0 the nil one; times are milliseconds. url.Parse is the parameter `parse_url`.
use aera_cloud.Prelude.{
  ℕ, ◌+◌, ◌/◌, ◌%◌, Bool, false, ◌&&◌, ◌||◌, not, Option, none, some, [], ◌∷◌, ◌++◌, String, str_eq,
  Text, codes, is_space, is_blank, utf8, byte_length, Bytes, bytes_eq, length, any, ltb, leb, ◌==◌,
  if◌then◌else◌,
}
use aera_cloud.Session.Table.{Error as SessionError}
use aera_cloud.Secure.Base64.{encode, decode_canonical}

pub data OauthError : Type 0 where
  invalid_request invalid_authorization authorization_replayed : OauthError
  device_limit_reached device_conflict unavailable : OauthError
  session_not_started : SessionError → OauthError

pub record BeginRequest : Type 0 where
  pub client_id : String
  pub redirect_uri : Text
  pub code_challenge : Text
  pub code_challenge_method : String
  pub state : Text
  pub installation_id : ℕ
  pub device_public_key : Bytes
  pub device_display_name : Text
  pub device_platform : String
  pub app_version : Text

pub record BeginResponse : Type 0 where
  pub request_id : ℕ
  pub expires_at : ℕ

pub record ExchangeRequest : Type 0 where
  pub authorization_code : Text
  pub code_verifier : Text
  pub installation_id : ℕ
  pub device_proof : Bytes

pub record AuthorizationRecord : Type 0 where
  pub id : ℕ
  pub client_id : String
  pub redirect_uri : Text
  pub code_challenge : Text
  pub code_challenge_method : String
  pub state_encryption_key_id : String
  pub state_nonce : Bytes
  pub state_ciphertext : Bytes
  pub state_hash : Bytes
  pub installation_id : ℕ
  pub device_public_key : Bytes
  pub device_key_digest : Bytes
  pub device_display_name : Text
  pub device_platform : String
  pub app_version : Text
  pub expires_at : ℕ
  pub created_at : ℕ

pub record ApprovalRecord : Type 0 where
  pub request_id : ℕ
  pub user_id : ℕ
  pub code_id : ℕ
  pub code_hash : Bytes
  pub code_expires_at : ℕ
  pub approved_at : ℕ

pub record Grant : Type 0 where
  pub authorization : AuthorizationRecord
  pub user_id : ℕ
  pub personal_space_id : ℕ

abbrev pub desktop_client_id : String
desktop_client_id = "agentera-studio"

-- What the code reads of a *url.URL; `port` is strconv.Atoi of Port().
pub record Url : Type 0 where
  pub scheme : String
  pub host : Text
  pub hostname : String
  pub port : Option ℕ
  pub path : String
  pub raw_query : Text
  pub fragment : Text
  pub has_user : Bool

abbrev decimal_digit : ℕ → ℕ
decimal_digit n = n % 10 + b'0'

-- strconv.Itoa, below 100,000.
unfoldable pub decimal : ℕ → Text
decimal n =
    if ltb n 10
    then decimal_digit n ∷ []
    else if ltb n 100
    then decimal_digit (n / 10) ∷ decimal_digit n ∷ []
    else if ltb n 1000
    then decimal_digit (n / 100) ∷ decimal_digit (n / 10) ∷ decimal_digit n ∷ []
    else if ltb n 10000
    then decimal_digit (n / 1000)
      ∷ decimal_digit (n / 100)
      ∷ decimal_digit (n / 10)
      ∷ decimal_digit n
      ∷ []
    else decimal_digit (n / 10000)
      ∷ decimal_digit (n / 1000)
      ∷ decimal_digit (n / 100)
      ∷ decimal_digit (n / 10)
      ∷ decimal_digit n
      ∷ []

valid_port : Text → Option ℕ → Bool
unfolding decimal
valid_port host none = false
valid_port host (some port) =
    ltb 0 port && leb port 65535 && bytes_eq host (codes "127.0.0.1:" ++ decimal port)

valid_redirect_url : Option Url → Bool
unfolding valid_port
valid_redirect_url none = false
valid_redirect_url (some u) =
    str_eq u.scheme "http"
    && str_eq u.hostname "127.0.0.1"
    && str_eq u.path "/agentera/oauth/callback"
    && length u.raw_query == 0
    && length u.fragment == 0
    && not u.has_user
    && valid_port u.host u.port

-- net.ParseIP accepts 127.0.0.1, which the hostname is by then.
unfoldable pub valid_redirect_uri : (Text → Option Url) → Text → Bool
unfolding valid_redirect_url
valid_redirect_uri parse_url raw = valid_redirect_url (parse_url raw)

-- unicode.IsControl.
abbrev pub is_control : ℕ → Bool
is_control c = leb c 0x1f || leb 0x7f c && leb c 0x9f

unfoldable pub valid_opaque_state : Text → Bool
valid_opaque_state state =
    leb 16 (byte_length state) && leb (byte_length state) 1024 && not (any is_control state)

has_length : ℕ → Option Bytes → Bool
has_length n none = false
has_length n (some bs) = length bs == n

unfoldable pub valid_code_challenge : Text → Bool
unfolding has_length
valid_code_challenge challenge = has_length 32 (decode_canonical (utf8 challenge))

abbrev pub is_unreserved : ℕ → Bool
is_unreserved c =
    leb b'A' c && leb c b'Z'
    || leb b'a' c && leb c b'z'
    || leb b'0' c && leb c b'9'
    || c == b'-'
    || c == b'.'
    || c == b'_'
    || c == b'~'

unfoldable pub valid_verifier : Text → Bool
valid_verifier verifier =
    leb 43 (byte_length verifier)
    && leb (byte_length verifier) 128
    && not (any (λ c. not (is_unreserved c)) verifier)

unfoldable pub matches_challenge : (Bytes → Bytes) → Text → Text → Bool
matches_challenge sha256 verifier challenge =
    bytes_eq (encode (sha256 (utf8 verifier))) (utf8 challenge)

unfoldable pub trim_left : Text → Text
trim_left [] = []
trim_left (c ∷ cs) = let rest = trim_left cs in if is_space c then rest else c ∷ cs

unfoldable pub trim_right : Text → Text
trim_right [] = []
trim_right (c ∷ cs) = let rest = trim_right cs in if is_blank (c ∷ cs) then [] else c ∷ rest

-- strings.TrimSpace.
unfoldable pub trim_space : Text → Text
unfolding trim_left trim_right
trim_space s = trim_right (trim_left s)

unfoldable pub valid_device_metadata : Text → String → Text → Bool
valid_device_metadata display_name platform app_version =
    let name = trim_space display_name in
    not (length name == 0)
    && leb (length name) 100
    && (str_eq platform "darwin" || str_eq platform "windows" || str_eq platform "linux")
    && not (length app_version == 0)
    && leb (byte_length app_version) 64
    && not (any is_control (name ++ app_version))

unfoldable pub valid_begin_request : (Text → Option Url) → BeginRequest → Bool
valid_begin_request parse_url r =
    str_eq r.client_id desktop_client_id
    && str_eq r.code_challenge_method "S256"
    && valid_redirect_uri parse_url r.redirect_uri
    && not (r.installation_id == 0)
    && length r.device_public_key == 32
    && valid_opaque_state r.state
    && valid_code_challenge r.code_challenge
    && valid_device_metadata r.device_display_name r.device_platform r.app_version

unfoldable pub valid_authorization_record : (Text → Option Url) → AuthorizationRecord → Bool
valid_authorization_record parse_url r =
    not (r.id == 0)
    && str_eq r.client_id desktop_client_id
    && valid_redirect_uri parse_url r.redirect_uri
    && str_eq r.code_challenge_method "S256"
    && valid_code_challenge r.code_challenge
    && length r.state_hash == 32
    && length r.state_nonce == 12
    && ltb 16 (length r.state_ciphertext)
    && not (str_eq r.state_encryption_key_id "")
    && not (r.installation_id == 0)
    && length r.device_public_key == 32
    && length r.device_key_digest == 32
    && not (length r.device_display_name == 0)
    && not (str_eq r.device_platform "")
    && not (length r.app_version == 0)
    && ltb r.created_at r.expires_at
