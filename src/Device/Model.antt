-- ===== src/Device/Model.antt =====
-- The types of internal/device/service.go and its checks of a request. A UUID is a number, 0 the
-- nil one; times are milliseconds.
use aera_cloud.Prelude.{
  ℕ, Bool, false, ◌&&◌, ◌||◌, not, Option, none, some, [], ◌∷◌, String, str_eq, Text, Bytes, length,
  any, ltb, leb, ◌==◌, if◌then◌else◌,
}
use aera_cloud.Session.Table.{DeviceStatus}
use aera_cloud.Oauth.Model.{is_control, trim_space}

pub data DeviceError : Type 0 where
  invalid_device limit_reached conflict not_found account_unavailable : DeviceError
  unavailable self_revoke_replay : DeviceError

-- A row of `devices`; `revoked_at` is of the row only.
pub record Device : Type 0 where
  pub id : ℕ
  pub user_id : ℕ
  pub installation_id : ℕ
  pub public_key : Bytes
  pub display_name : Text
  pub platform : String
  pub app_version : Text
  pub status : DeviceStatus
  pub last_seen_at : ℕ
  pub revoked_at : Option ℕ

pub record PublicDevice : Type 0 where
  pub id : ℕ
  pub display_name : Text
  pub platform : String
  pub app_version : Text
  pub status : DeviceStatus
  pub last_seen_at : ℕ
  pub current : Bool

-- `timestamp` is an int64 of seconds; one below 0 is refused as 0 is.
pub record SelfRevokeCommand : Type 0 where
  pub device_id : ℕ
  pub installation_id : ℕ
  pub timestamp : ℕ
  pub nonce : Bytes
  pub signature : Bytes

pub record SelfRevocationRecord : Type 0 where
  pub user_id : ℕ
  pub device_id : ℕ
  pub installation_id : ℕ
  pub nonce_hash : Bytes
  pub audit_event_id : ℕ
  pub revoked_at : ℕ

pub record AuthorizeCommand : Type 0 where
  pub user_id : ℕ
  pub installation_id : ℕ
  pub public_key : Bytes
  pub display_name : Text
  pub platform : String
  pub app_version : Text

pub record AuthorizationRecord : Type 0 where
  pub device_id : ℕ
  pub audit_event_id : ℕ
  pub user_id : ℕ
  pub installation_id : ℕ
  pub public_key : Bytes
  pub display_name : Text
  pub platform : String
  pub app_version : Text
  pub authorized_at : ℕ

unfoldable pub clean_display_name : Text → Option Text
clean_display_name raw =
    let value = trim_space raw in
    if length value == 0 || ltb 100 (length value) || any is_control value then none else some value

unfoldable pub valid_platform : String → Bool
valid_platform platform =
    str_eq platform "darwin" || str_eq platform "windows" || str_eq platform "linux"

abbrev is_alphanumeric : ℕ → Bool
is_alphanumeric c = leb b'A' c && leb c b'Z' || leb b'a' c && leb c b'z' || leb b'0' c && leb c b'9'

abbrev is_version_rune : ℕ → Bool
is_version_rune c = is_alphanumeric c || c == b'.' || c == b'_' || c == b'+' || c == b'-'

-- ^[A-Za-z0-9][A-Za-z0-9._+-]{0,63}$
unfoldable pub valid_version : Text → Bool
valid_version [] = false
valid_version (c ∷ cs) =
    is_alphanumeric c && leb (length cs) 63 && not (any (λ r. not (is_version_rune r)) cs)
