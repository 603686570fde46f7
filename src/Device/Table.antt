-- ===== src/Device/Table.antt =====
-- The rows that internal/device/repository.go reads and writes, and its own statements on them.
use aera_cloud.Prelude.{
  ℕ, Bool, true, false, ◌&&◌, ◌||◌, Option, none, some, List, [], ◌∷◌, String, Bytes, bytes_eq, any,
  find, count_where, map, coalesce, ◌==◌, ltb, if◌then◌else◌,
}
use aera_cloud.Postgres.{Commit, committed}
use aera_cloud.Session.Table.{
  User, Space, Directory, DeviceStatus, active, revoked, user_is_active, device_is_active, Rows,
  Session, Device as SessionDevice,
}
use aera_cloud.Device.Model.{Device, AuthorizationRecord}

-- offline_entitlement_issuances, as far as a revocation writes it.
pub record Issuance : Type 0 where
  pub id : ℕ
  pub device_id : ℕ
  pub revoked_at : Option ℕ

-- device_self_revocation_nonces.
pub record Nonce : Type 0 where
  pub device_id : ℕ
  pub nonce_hash : Bytes
  pub used_at : ℕ

pub record AuditEvent : Type 0 where
  pub id : ℕ
  pub event_type : String
  pub actor_user_id : ℕ
  pub device_id : ℕ
  pub created_at : ℕ

-- Of the two desktop_control tables, the device_id of each row.
pub record World : Type 0 where
  pub devices : List Device
  pub sessions : Rows
  pub issuances : List Issuance
  pub nonces : List Nonce
  pub control_commands : List ℕ
  pub control_instances : List ℕ
  pub audit_events : List AuditEvent

-- What the transactions only read: `users`, `personal_spaces`, and whether a device has a row in
-- backup_devices or is the source of one in encrypted_profile_backups.
pub record Accounts : Type 0 where
  pub users : List User
  pub spaces : List Space
  pub has_backup : ℕ → Bool

-- `true` where the call returns an error, in the order of the source.
pub record Faults : Type 0 where
  pub begin : Bool
  pub lock : Bool
  pub account : Bool
  pub read : Bool
  pub count : Bool
  pub backup : Bool
  pub clear_commands : Bool
  pub clear_instances : Bool
  pub nonce : Bool
  pub write : Bool
  pub sessions : Bool
  pub issuances : Bool
  pub audit : Bool
  pub commit : Commit

abbrev pub healthy : Faults
healthy = record {
  begin = false;
  lock = false;
  account = false;
  read = false;
  count = false;
  backup = false;
  clear_commands = false;
  clear_instances = false;
  nonce = false;
  write = false;
  sessions = false;
  issuances = false;
  audit = false;
  commit = committed;
}

abbrev pub device_key : Device → ℕ
device_key d = d.id

abbrev pub has_id : ℕ → Device → Bool
has_id i d = d.id == i

abbrev pub has_installation : ℕ → Device → Bool
has_installation i d = d.installation_id == i

-- status <> 'revoked'
abbrev pub is_unrevoked : DeviceStatus → Bool
is_unrevoked revoked = false
is_unrevoked _ = true

abbrev pub is_active_of : ℕ → Device → Bool
is_active_of user d = d.user_id == user && device_is_active d.status

abbrev pub selected_status : Option User → Bool
selected_status none = false
selected_status (some u) = user_is_active u.status

-- SELECT status FROM users WHERE id: no row and another status than 'active' are the same.
unfoldable pub account_active : ℕ → List User → Bool
account_active user users = selected_status (find (λ (u : User). u.id == user) users)

unfoldable pub has_capacity : ℕ → ℕ → List Device → Bool
has_capacity user limit ds = ltb (count_where (is_active_of user) ds) limit

-- DELETE FROM t WHERE device_id = d.
unfoldable pub delete_device : ℕ → List ℕ → List ℕ
delete_device d [] = []
delete_device d (x ∷ xs) = let rest = delete_device d xs in if x == d then rest else x ∷ rest

unfoldable pub clear_desktop_control : ℕ → World → World
clear_desktop_control d w = record w {
  control_commands = delete_device d w.control_commands;
  control_instances = delete_device d w.control_instances;
}

-- SET user_id, display_name, platform, app_version, status = 'active', last_seen_at,
-- revoked_at = NULL.
unfoldable pub reauthorize : AuthorizationRecord → Device → Device
reauthorize r d = record d {
  user_id = r.user_id;
  display_name = r.display_name;
  platform = r.platform;
  app_version = r.app_version;
  status = active;
  last_seen_at = r.authorized_at;
  revoked_at = none;
}

unfoldable pub new_device : AuthorizationRecord → Device
new_device r = record {
  id = r.device_id;
  user_id = r.user_id;
  installation_id = r.installation_id;
  public_key = r.public_key;
  display_name = r.display_name;
  platform = r.platform;
  app_version = r.app_version;
  status = active;
  last_seen_at = r.authorized_at;
  revoked_at = none;
}

-- devices_installation_id_key and devices_public_key_key.
unfoldable pub identity_taken : AuthorizationRecord → List Device → Bool
identity_taken r ds =
    any (λ d. has_installation r.installation_id d || bytes_eq d.public_key r.public_key) ds

-- SET status = 'revoked', revoked_at = now.
unfoldable pub revoke_device : ℕ → Device → Device
revoke_device now d = record d { status = revoked; revoked_at = some now }

abbrev pub of_device : ℕ → Session → Bool
of_device d s = s.device_id == d

-- SET revoked_at = now, revoked_reason = 'device_revoked', of an unrevoked row.
unfoldable pub end_session : ℕ → Session → Session
end_session now s = record s { revoked_at = some now; revoked_reason = some "device_revoked" }

unfoldable pub revoke_issuance : ℕ → Issuance → Issuance
revoke_issuance now i = record i { revoked_at = coalesce i.revoked_at now }

abbrev pub is_nonce : ℕ → Bytes → Nonce → Bool
is_nonce d h n = n.device_id == d && bytes_eq n.nonce_hash h

unfoldable pub add_audit : AuditEvent → World → World
add_audit a w = record w { audit_events = a ∷ w.audit_events }

-- What the joins of internal/session see of the devices.
abbrev pub session_device : Device → SessionDevice
session_device d = record {
  id = d.id;
  user_id = d.user_id;
  installation_id = d.installation_id;
  status = d.status;
}

unfoldable pub directory : Accounts → List Device → Directory
directory a ds = record { users = a.users; devices = map session_device ds; spaces = a.spaces }
