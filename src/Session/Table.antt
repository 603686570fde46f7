-- ===== src/Session/Table.antt =====
-- The rows that internal/session/repository.go reads and writes: `sessions`, and of `users`,
-- `devices` and `personal_spaces` what its joins need (migrations/000001_auth_schema.sql).
-- A UUID is a number, and uuid.Nil is 0. Times are milliseconds.
use aera_cloud.Prelude.{
  ℕ, Bool, true, false, ◌&&◌, ◌||◌, Option, some, List, String, Bytes, bytes_eq, any, is_some,
  coalesce, ◌==◌, if◌then◌else◌, not,
}

pub data Error : Type 0 where
  session_revoked account_pending_deletion account_disabled unavailable invalid_access_token : Error

pub data UserStatus : Type 0 where
  active pending_deletion disabled : UserStatus

pub data DeviceStatus : Type 0 where
  active inactive revoked : DeviceStatus

pub data SpaceStatus : Type 0 where
  active disabled : SpaceStatus

pub record User : Type 0 where
  pub id : ℕ
  pub status : UserStatus

pub record Device : Type 0 where
  pub id : ℕ
  pub user_id : ℕ
  pub installation_id : ℕ
  pub status : DeviceStatus

pub record Space : Type 0 where
  pub id : ℕ
  pub owner_user_id : ℕ
  pub status : SpaceStatus

pub record Directory : Type 0 where
  pub users : List User
  pub devices : List Device
  pub spaces : List Space

pub record Binding : Type 0 where
  pub user_id : ℕ
  pub device_id : ℕ
  pub installation_id : ℕ
  pub personal_space_id : ℕ

pub record Session : Type 0 where
  pub id : ℕ
  pub user_id : ℕ
  pub device_id : ℕ
  pub family_id : ℕ
  pub refresh_token_hash : Bytes
  pub rotated_from : Option ℕ
  pub issued_at : ℕ
  pub expires_at : ℕ
  pub replaced_at : Option ℕ
  pub revoked_at : Option ℕ
  pub revoked_reason : Option String
  pub replay_detected_at : Option ℕ

abbrev pub Rows : Type 0
Rows = List Session

abbrev pub user_is_active : UserStatus → Bool
user_is_active active = true
user_is_active _ = false

abbrev pub device_is_active : DeviceStatus → Bool
device_is_active active = true
device_is_active _ = false

abbrev pub space_is_active : SpaceStatus → Bool
space_is_active active = true
space_is_active _ = false

unfoldable pub valid_binding : Binding → Bool
valid_binding b =
    not (b.user_id == 0)
    && not (b.device_id == 0)
    && not (b.installation_id == 0)
    && not (b.personal_space_id == 0)

-- A refresh token that `rotate` may still accept, as far as its own row says.
abbrev pub is_live : Session → Bool
is_live s = not (is_some s.replaced_at) && not (is_some s.revoked_at)

abbrev pub in_family : ℕ → Session → Bool
in_family f s = s.family_id == f

abbrev pub has_hash : Bytes → Session → Bool
has_hash h s = bytes_eq s.refresh_token_hash h

abbrev pub has_id : ℕ → Session → Bool
has_id i s = s.id == i

-- The primary key and the unique refresh_token_hash of `sessions`.
unfoldable pub insert_conflicts : Session → Rows → Bool
insert_conflicts s rows = any (λ r. has_id s.id r || has_hash s.refresh_token_hash r) rows

-- SET revoked_at = COALESCE(revoked_at, now), revoked_reason = COALESCE(revoked_reason, reason)
unfoldable pub revoke : ℕ → String → Session → Session
revoke now reason s = record s {
  revoked_at = coalesce s.revoked_at now;
  revoked_reason = coalesce s.revoked_reason reason;
}

-- SET revoked_at = COALESCE(revoked_at, now), revoked_reason = 'refresh_replay',
-- replay_detected_at = now on the replayed row.
unfoldable pub revoke_replayed : ℕ → ℕ → Session → Session
revoke_replayed now source s = record s {
  revoked_at = coalesce s.revoked_at now;
  revoked_reason = some "refresh_replay";
  replay_detected_at = if has_id source s then some now else s.replay_detected_at;
}

unfoldable pub replace : ℕ → Session → Session
replace now s = record s { replaced_at = some now }
