-- ===== src/Desktop/Table.antt =====
-- The rows that internal/desktopcontrol/repository.go reads and writes, and its statements on them.
use aera_cloud.Prelude.{
  ℕ, ◌+◌, ◌-◌, Bool, true, false, ◌&&◌, Option, none, some, List, [], ◌∷◌, ◌++◌, String, Text,
  Bytes, bytes_eq, any, find, update_where, is_some, ◌==◌, ltb, leb, if◌then◌else◌,
}
use aera_cloud.Postgres.{Commit, committed}
use aera_cloud.Session.Table.{User, Device, UserStatus, DeviceStatus, Directory}
use aera_cloud.Desktop.Model.{
  DevicePrincipal, Heartbeat, HealthCode, HealthSummary, InstanceRow, Instance, CommandState,
  queued, claimed, running, succeeded, failed, expired, is_state, CommandResult, Command,
  QueueHealthCheckCommand, EffectiveStatus, pending, revoked, disabled, online, offline,
  health_status_for,
}

-- audit_events, as far as this package writes it.
pub record AuditEvent : Type 0 where
  pub event_type : String
  pub device_id : ℕ
  pub command_id : ℕ
  pub request_id : Text
  pub operator : Text
  pub admin_id : ℕ
  pub state : CommandState
  pub result_code : Option HealthCode
  pub created_at : ℕ

pub record Tables : Type 0 where
  pub commands : List Command
  pub instances : List InstanceRow
  pub audit_events : List AuditEvent

-- `true` where the call returns an error, in the order of the source; `missed` where the first query
-- for a key does not see the row, since another transaction commits it after the query.
pub record Faults : Type 0 where
  pub begin : Bool
  pub device : Bool
  pub expire : Bool
  pub find : Bool
  pub read : Bool
  pub select : Bool
  pub write : Bool
  pub health : Bool
  pub audit : Bool
  pub reread : Bool
  pub missed : Bool
  pub commit : Commit

abbrev pub healthy_database : Faults
healthy_database = record {
  begin = false;
  device = false;
  expire = false;
  find = false;
  read = false;
  select = false;
  write = false;
  health = false;
  audit = false;
  reread = false;
  missed = false;
  commit = committed;
}

abbrev pub heartbeat_expiry : ℕ
heartbeat_expiry = 150000

abbrev pub command_lifetime : ℕ
command_lifetime = 600000

abbrev pub command_key : Command → ℕ
command_key c = c.id

abbrev pub is_command : ℕ → Command → Bool
is_command i c = c.id == i

abbrev pub is_instance : ℕ → InstanceRow → Bool
is_instance d i = i.device_id == d

-- The two columns of UNIQUE (device_id, idempotency_key_hash).
abbrev pub has_idempotency : ℕ → Bytes → Command → Bool
has_idempotency d k c = c.device_id == d && bytes_eq c.idempotency_key_hash k

-- state IN ('queued', 'claimed', 'running')
abbrev pub is_open : CommandState → Bool
is_open queued = true
is_open claimed = true
is_open running = true
is_open _ = false

abbrev pub is_terminal : CommandState → Bool
is_terminal succeeded = true
is_terminal failed = true
is_terminal expired = true
is_terminal _ = false

-- `AND device_id = $2`, where a device is given.
abbrev on_device : Option ℕ → Command → Bool
on_device none c = true
on_device (some d) c = c.device_id == d

unfoldable pub is_overdue : ℕ → Option ℕ → Command → Bool
is_overdue now device c = is_open c.state && leb c.expires_at now && on_device device c

-- SET state = 'expired', completed_at = now.
unfoldable pub expire : ℕ → Command → Command
expire now c = record c { state = expired; completed_at = some now; updated_at = now }

abbrev pub completed_event :
    Text → String → Option HealthCode → ℕ → CommandState → Command → AuditEvent
completed_event operator type code now state c = record {
  event_type = type;
  device_id = c.device_id;
  command_id = c.id;
  request_id = c.request_id;
  operator = operator;
  admin_id = c.created_by_admin_id;
  state = state;
  result_code = code;
  created_at = now;
}

unfoldable pub expiry_events : Text → ℕ → Option ℕ → List Command → List AuditEvent
expiry_events operator now device [] = []
expiry_events operator now device (c ∷ cs) =
    let rest = expiry_events operator now device cs in
    if is_overdue now device c
    then completed_event operator "desktop_health_check_completed" none now expired c ∷ rest
    else rest

-- What expireOverdueCommands leaves.
unfoldable pub expired_tables : Text → ℕ → Option ℕ → Tables → Tables
expired_tables operator now device t = record t {
  commands = update_where (is_overdue now device) (expire now) t.commands;
  audit_events = expiry_events operator now device t.commands ++ t.audit_events;
}

-- SET state = 'claimed', claimed_at = now.
unfoldable pub claim : ℕ → Command → Command
claim now c = record c { state = claimed; claimed_at = some now; updated_at = now }

-- SET state = 'running', started_at = now.
unfoldable pub run : ℕ → Command → Command
run now c = record c { state = running; started_at = some now; updated_at = now }

-- SET state, completed_at = now, result_code, result_summary.
unfoldable pub complete : ℕ → CommandResult → Command → Command
complete now r c = record c {
  state = r.state;
  completed_at = some now;
  result_code = some r.code;
  result_summary = r.summary;
  updated_at = now;
}

unfoldable pub advance : ℕ → CommandResult → Command → Command
advance now r c = if is_state r.state running then run now c else complete now r c

unfoldable pub new_command : ℕ → ℕ → QueueHealthCheckCommand → Command
new_command id now q = record {
  id = id;
  device_id = q.device_id;
  idempotency_key_hash = q.idempotency_key_hash;
  state = queued;
  expires_at = now + command_lifetime;
  claimed_at = none;
  started_at = none;
  completed_at = none;
  result_code = none;
  result_summary = none;
  created_by_admin_id = q.actor.admin_id;
  request_id = q.actor.request_id;
  created_at = now;
  updated_at = now;
}

-- The VALUES of AcceptHeartbeat.
unfoldable pub heartbeat_row : DevicePrincipal → Heartbeat → ℕ → InstanceRow
heartbeat_row p h now = record {
  device_id = p.device_id;
  user_id = p.user_id;
  organization_id = p.organization_id;
  workspace_id = p.workspace_id;
  display_name = h.display_name;
  client_version = h.client_version;
  platform = h.platform;
  arch = h.arch;
  capabilities = h.capabilities;
  last_heartbeat_at = some now;
  health_status = health_status_for h.health;
  health_summary = h.health;
  created_at = now;
  updated_at = now;
}

-- ON CONFLICT (device_id) DO UPDATE: the health stays where the heartbeat brings none.
unfoldable pub refresh_row : InstanceRow → InstanceRow → InstanceRow
refresh_row new old = record new {
  health_status = if is_some new.health_summary then new.health_status else old.health_status;
  health_summary = if is_some new.health_summary then new.health_summary else old.health_summary;
  created_at = old.created_at;
}

unfoldable pub upsert : InstanceRow → List InstanceRow → List InstanceRow
upsert new rows =
    if any (is_instance new.device_id) rows
    then update_where (is_instance new.device_id) (refresh_row new) rows
    else new ∷ rows

unfoldable pub record_health : ℕ → Option HealthSummary → InstanceRow → InstanceRow
record_health now s i = record i {
  health_status = health_status_for s;
  health_summary = s;
  updated_at = now;
}

infixl 5 ◌>>=◌
abbrev ◌>>=◌ {ℓ κ} : {A : Type ℓ} {B : Type κ} → Option A → (A → Option B) → Option B
none >>= k = none
some a >>= k = k a

-- The join of the users and the devices that requireActiveDevice reads.
unfoldable pub select_statuses : Directory → ℕ → ℕ → Option (UserStatus × DeviceStatus)
select_statuses dir user device = do
  u ← find (λ (u : User). u.id == user) dir.users
  d ← find (λ (d : Device). d.user_id == user && d.id == device) dir.devices
  some (u.status, d.status)

abbrev joined : InstanceRow → Option (UserStatus × DeviceStatus) → Option Instance
joined i none = none
joined i (some (u, d)) = some (record { row = i; user_status = u; device_status = d })

-- The instance with the statuses of its user and its device.
unfoldable pub join_instance : Directory → InstanceRow → Option Instance
join_instance dir i = joined i (select_statuses dir i.user_id i.device_id)

abbrev join_found : Directory → Option InstanceRow → Option Instance
join_found dir none = none
join_found dir (some i) = join_instance dir i

unfoldable pub select_instance : Directory → ℕ → Tables → Option Instance
select_instance dir device t = join_found dir (find (is_instance device) t.instances)

-- The CASE of ListInstances.
unfoldable pub sql_effective_status : ℕ → Instance → EffectiveStatus
sql_effective_status now i =
    if is_disabled i.user_status
    then disabled
    else if is_pending_deletion i.user_status
    then pending
    else if is_revoked i.device_status
    then revoked
    else if is_inactive i.device_status
    then pending
    else if is_late now i.row.last_heartbeat_at
    then offline
    else online
  where
    is_disabled : UserStatus → Bool
    is_disabled UserStatus.disabled = true
    is_disabled _ = false

    is_pending_deletion : UserStatus → Bool
    is_pending_deletion UserStatus.pending_deletion = true
    is_pending_deletion _ = false

    is_revoked : DeviceStatus → Bool
    is_revoked DeviceStatus.revoked = true
    is_revoked _ = false

    is_inactive : DeviceStatus → Bool
    is_inactive DeviceStatus.inactive = true
    is_inactive _ = false

    is_late : ℕ → Option ℕ → Bool
    is_late now none = true
    is_late now (some at) = ltb at (now - heartbeat_expiry)
