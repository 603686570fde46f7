-- ===== src/Desktop/Model.antt =====
-- internal/desktopcontrol/model.go. A UUID is a number, 0 the nil one; times are milliseconds.
use aera_cloud.Prelude.{
  ℕ, ◌-◌, ◌*◌, Bool, true, false, ◌&&◌, ◌||◌, not, Option, none, some, List, [], ◌∷◌, String,
  str_eq, Text, Bytes, bytes_eq, byte_length, length, any, ltb, leb, ◌==◌, if◌then◌else◌,
}
use aera_cloud.Session.Table.{UserStatus, DeviceStatus}
use aera_cloud.Oauth.Model.{trim_space}

-- An int64 that may be negative: `negsuc n` is -(n + 1).
pub data ℤ : Type 0 where
  pos negsuc : ℕ → ℤ

-- What a client sends may be none of the six: `other_state`.
pub data CommandState : Type 0 where
  queued claimed running succeeded failed expired other_state : CommandState

abbrev state_index : CommandState → ℕ
state_index queued = 0
state_index claimed = 1
state_index running = 2
state_index succeeded = 3
state_index failed = 4
state_index expired = 5
state_index other_state = 6

abbrev pub is_state : CommandState → CommandState → Bool
is_state a b = state_index a == state_index b

pub data HealthStatus : Type 0 where
  unknown healthy degraded unhealthy : HealthStatus

-- `no_code` is the empty text, `other_code` any other text than the six.
pub data HealthCode : Type 0 where
  code_healthy desktop_unhealthy runtime_unavailable gateway_unavailable timeout : HealthCode
  client_interrupted no_code other_code : HealthCode

abbrev code_index : HealthCode → ℕ
code_index code_healthy = 0
code_index desktop_unhealthy = 1
code_index runtime_unavailable = 2
code_index gateway_unavailable = 3
code_index timeout = 4
code_index client_interrupted = 5
code_index no_code = 6
code_index other_code = 7

abbrev pub is_code : HealthCode → HealthCode → Bool
is_code a b = code_index a == code_index b

pub data EffectiveStatus : Type 0 where
  pending revoked disabled online offline : EffectiveStatus

abbrev pub status_index : EffectiveStatus → ℕ
status_index pending = 0
status_index revoked = 1
status_index disabled = 2
status_index online = 3
status_index offline = 4

abbrev pub is_status : EffectiveStatus → EffectiveStatus → Bool
is_status a b = status_index a == status_index b

pub data DesktopError : Type 0 where
  invalid_input not_found conflict invalid_transition rate_limited unavailable : DesktopError

pub record DevicePrincipal : Type 0 where
  pub user_id : ℕ
  pub device_id : ℕ
  pub organization_id : Option ℕ
  pub workspace_id : Option ℕ

pub record HealthSummary : Type 0 where
  pub desktop_status : String
  pub runtime_status : String
  pub gateway_status : String
  pub code : HealthCode
  pub duration_ms : ℤ

pub record Heartbeat : Type 0 where
  pub display_name : Text
  pub client_version : Text
  pub platform : String
  pub arch : String
  pub capabilities : List String
  pub uptime_seconds : ℤ
  pub health : Option HealthSummary

-- A row of desktop_control_instances.
pub record InstanceRow : Type 0 where
  pub device_id : ℕ
  pub user_id : ℕ
  pub organization_id : Option ℕ
  pub workspace_id : Option ℕ
  pub display_name : Text
  pub client_version : Text
  pub platform : String
  pub arch : String
  pub capabilities : List String
  pub last_heartbeat_at : Option ℕ
  pub health_status : HealthStatus
  pub health_summary : Option HealthSummary
  pub created_at : ℕ
  pub updated_at : ℕ

pub record Instance : Type 0 where
  pub row : InstanceRow
  pub user_status : UserStatus
  pub device_status : DeviceStatus

pub record AdminActor : Type 0 where
  pub admin_id : ℕ
  pub service_subject : Text
  pub request_id : Text

pub record QueueHealthCheckCommand : Type 0 where
  pub device_id : ℕ
  pub idempotency_key_hash : Bytes
  pub actor : AdminActor

pub record CommandResult : Type 0 where
  pub state : CommandState
  pub code : HealthCode
  pub summary : Option HealthSummary

-- A row of desktop_control_commands; `type` and `required_capability` have one value each.
pub record Command : Type 0 where
  pub id : ℕ
  pub device_id : ℕ
  pub idempotency_key_hash : Bytes
  pub state : CommandState
  pub expires_at : ℕ
  pub claimed_at : Option ℕ
  pub started_at : Option ℕ
  pub completed_at : Option ℕ
  pub result_code : Option HealthCode
  pub result_summary : Option HealthSummary
  pub created_by_admin_id : ℕ
  pub request_id : Text
  pub created_at : ℕ
  pub updated_at : ℕ

abbrev pub capability_health_read : String
capability_health_read = "diagnostics.health.read"

abbrev stale : ℕ → Option ℕ → Bool
stale now none = true
stale now (some at) = ltb 150000 (now - at)

effective_of_device : DeviceStatus → Bool → EffectiveStatus
effective_of_device DeviceStatus.revoked late = revoked
effective_of_device DeviceStatus.inactive late = pending
effective_of_device DeviceStatus.active late = if late then offline else online

effective_of_user : UserStatus → DeviceStatus → Bool → EffectiveStatus
unfolding effective_of_device
effective_of_user UserStatus.disabled d late = disabled
effective_of_user UserStatus.pending_deletion d late = pending
effective_of_user UserStatus.active d late = effective_of_device d late

-- Instance.EffectiveStatus.
unfoldable pub effective_status : ℕ → Instance → EffectiveStatus
unfolding effective_of_user
effective_status now i =
    effective_of_user i.user_status i.device_status (stale now i.row.last_heartbeat_at)

unfoldable pub can_transition : CommandState → CommandState → Bool
can_transition queued to = is_state to claimed || is_state to expired
can_transition claimed to = is_state to running || is_state to expired
can_transition running to = is_state to succeeded || is_state to failed || is_state to expired
can_transition _ to = false

unfoldable pub valid_principal : DevicePrincipal → Bool
valid_principal p = not (p.user_id == 0) && not (p.device_id == 0)

abbrev in_range : ℤ → ℕ → Bool
in_range (negsuc n) limit = false
in_range (pos n) limit = leb n limit

abbrev is_break : ℕ → Bool
is_break c = c == b'\n' || c == b'\r' || c == 0

unfoldable pub bounded_text : Text → ℕ → Bool
bounded_text value limit =
    bytes_eq value (trim_space value)
    && not (length value == 0)
    && leb (byte_length value) limit
    && not (any is_break value)

unfoldable pub valid_health_code : HealthCode → Bool
valid_health_code no_code = false
valid_health_code other_code = false
valid_health_code _ = true

abbrev valid_health : String → Bool
valid_health s =
    str_eq s "unknown" || str_eq s "healthy" || str_eq s "degraded" || str_eq s "unhealthy"

unfoldable pub valid_health_summary : HealthSummary → Bool
valid_health_summary s =
    in_range s.duration_ms 120000
    && valid_health_code s.code
    && valid_health s.desktop_status
    && valid_health s.runtime_status
    && valid_health s.gateway_status

-- The loop over the capabilities: only the one capability, at most once.
valid_capabilities : Bool → List String → Bool
valid_capabilities seen [] = true
valid_capabilities seen (c ∷ cs) =
    let rest = valid_capabilities true cs in str_eq c capability_health_read && not seen && rest

abbrev valid_optional_summary : Option HealthSummary → Bool
valid_optional_summary none = true
valid_optional_summary (some s) = valid_health_summary s

unfoldable pub valid_heartbeat : Heartbeat → Bool
unfolding valid_capabilities
valid_heartbeat h =
    bounded_text h.display_name 100
    && bounded_text h.client_version 64
    && in_range h.uptime_seconds (7 * 24 * 60 * 60)
    && leb (length h.capabilities) 8
    && (str_eq h.platform "darwin" || str_eq h.platform "windows" || str_eq h.platform "linux")
    && (str_eq h.arch "arm64" || str_eq h.arch "x64")
    && valid_capabilities false h.capabilities
    && valid_optional_summary h.health

abbrev is_lower : ℕ → Bool
is_lower c = leb b'a' c && leb c b'z'

abbrev is_subject_rune : ℕ → Bool
is_subject_rune c = is_lower c || leb b'0' c && leb c b'9' || c == b'.' || c == b'_' || c == b'-'

-- ^[a-z][a-z0-9._-]{2,63}$
unfoldable pub valid_service_subject : Text → Bool
valid_service_subject [] = false
valid_service_subject (c ∷ cs) =
    is_lower c
    && leb 2 (length cs)
    && leb (length cs) 63
    && not (any (λ r. not (is_subject_rune r)) cs)

unfoldable pub valid_queue : QueueHealthCheckCommand → Bool
valid_queue q =
    not (q.device_id == 0)
    && not (q.actor.admin_id == 0)
    && length q.idempotency_key_hash == 32
    && valid_service_subject q.actor.service_subject
    && bounded_text q.actor.request_id 128

valid_completed : CommandState → HealthCode → Option HealthSummary → Bool
valid_completed state code none = false
valid_completed state code (some s) =
    valid_health_summary s
    && is_code code s.code
    && not (is_state state succeeded && not (is_code code code_healthy))
    && not (is_state state failed && is_code code code_healthy)

abbrev is_absent : Option HealthSummary → Bool
is_absent none = true
is_absent (some s) = false

-- validateResult.
valid_result_of : CommandState → HealthCode → Option HealthSummary → Bool
unfolding valid_completed
valid_result_of running code summary = is_code code no_code && is_absent summary
valid_result_of succeeded code summary = valid_completed succeeded code summary
valid_result_of failed code summary = valid_completed failed code summary
valid_result_of _ code summary = false

unfoldable pub valid_result : CommandResult → Bool
unfolding valid_result_of
valid_result r = valid_result_of r.state r.code r.summary

health_status_of_code : HealthCode → HealthStatus
health_status_of_code code_healthy = healthy
health_status_of_code desktop_unhealthy = degraded
health_status_of_code _ = unhealthy

unfoldable pub health_status_for : Option HealthSummary → HealthStatus
unfolding health_status_of_code
health_status_for none = unknown
health_status_for (some s) = health_status_of_code s.code
