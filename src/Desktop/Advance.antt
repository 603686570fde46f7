-- ===== src/Desktop/Advance.antt =====
-- AdvanceCommand and GetCommand of internal/desktopcontrol/repository.go.
use aera_cloud.Prelude.{
  ℕ, Bool, true, false, ◌&&◌, ◌||◌, not, Option, none, some, ◌∷◌, str_eq, any, find, update_where,
  Result, ok, err, ◌==◌, if◌then◌else◌,
}
use aera_cloud.Postgres.{settle}
use aera_cloud.Session.Table.{Directory, Device}
use aera_cloud.Desktop.Model.{
  ℤ, pos, negsuc, DesktopError, invalid_input, conflict, invalid_transition, unavailable,
  DevicePrincipal, HealthCode, is_code, HealthSummary, CommandState, succeeded, failed, is_state,
  CommandResult, Command, can_transition, valid_principal, valid_result,
}
use aera_cloud.Desktop.Table.{
  Tables, Faults, is_command, is_instance, completed_event, expired_tables, advance, record_health,
}
use aera_cloud.Desktop.Repository.{
  operator, require_active_device, command_found, read_command, finish,
}

abbrev int_eq : ℤ → ℤ → Bool
int_eq (pos m) (pos n) = m == n
int_eq (negsuc m) (negsuc n) = m == n
int_eq _ _ = false

-- The JSON of two summaries is the same text if their fields are.
abbrev summary_eq : HealthSummary → HealthSummary → Bool
summary_eq s t =
    str_eq s.desktop_status t.desktop_status
    && str_eq s.runtime_status t.runtime_status
    && str_eq s.gateway_status t.gateway_status
    && is_code s.code t.code
    && int_eq s.duration_ms t.duration_ms

abbrev same_summary : Option HealthSummary → Option HealthSummary → Bool
same_summary none none = true
same_summary (some s) (some t) = summary_eq s t
same_summary _ _ = false

abbrev same_code : Option HealthCode → HealthCode → Bool
same_code none code = false
same_code (some c) code = is_code c code

unfoldable pub same_command_result : Command → CommandResult → Bool
same_command_result c r =
    is_state c.state r.state
    && same_code c.result_code r.code
    && same_summary c.result_summary r.summary

abbrev pub is_completed : CommandState → Bool
is_completed succeeded = true
is_completed failed = true
is_completed _ = false

-- readCommandForDevice: the command is of the device, and the device is the user's.
unfoldable pub select_owned : Directory → ℕ → DevicePrincipal → Tables → Option Command
select_owned dir id p t =
    if any (λ (d : Device). d.id == p.device_id && d.user_id == p.user_id) dir.devices
    then find (λ c. is_command id c && c.device_id == p.device_id) t.commands
    else none

unfoldable pub read_owned :
    Bool → Directory → ℕ → DevicePrincipal → Tables → Result DesktopError Command
read_owned fails dir id p t =
    if fails then err unavailable else command_found (select_owned dir id p t)

-- What a completed command writes beside its own row.
unfoldable pub report : ℕ → DevicePrincipal → CommandResult → Command → Tables → Tables
report now p r c t = record t {
  instances = update_where (is_instance p.device_id) (record_health now r.summary) t.instances;
  audit_events =
      completed_event operator "desktop_health_check_completed" (some r.code) now r.state c
      ∷ t.audit_events;
}

unfoldable pub advanced_tables : ℕ → DevicePrincipal → ℕ → CommandResult → Command → Tables → Tables
advanced_tables now p id r c t =
    let t2 = record t { commands = update_where (is_command id) (advance now r) t.commands } in
    if is_completed r.state then report now p r c t2 else t2

abbrev fresh_answer : Result DesktopError Command → Result DesktopError (Command × Bool)
fresh_answer (err e) = (err e)
fresh_answer (ok c) = ok (c, false)

unfoldable pub advance_read :
    Faults
    → ℕ
    → DevicePrincipal
    → ℕ
    → CommandResult
    → Tables
    → Tables
    → Result DesktopError Command
    → Result DesktopError (Command × Bool) × Tables
advance_read db now p id r t t1 (err e) = (err e, t)
advance_read db now p id r t t1 (ok c) =
    if is_completed c.state
    then if same_command_result c r
      then settle db.commit unavailable t t1 (ok (c, true))
      else (err conflict, t)
    else if not (can_transition c.state r.state)
    then (err invalid_transition, t)
    else if not (valid_result r)
    then (err invalid_input, t)
    else if db.write || is_completed r.state && (db.health || db.audit)
    then (err unavailable, t)
    else finish db t (advanced_tables now p id r c t1)
        (fresh_answer (read_command db.reread id (advanced_tables now p id r c t1)))

unfoldable pub advance_checked :
    Faults
    → Directory
    → ℕ
    → DevicePrincipal
    → ℕ
    → CommandResult
    → Tables
    → Result DesktopError (Unit {0})
    → Result DesktopError (Command × Bool) × Tables
advance_checked db dir now p id r t (err e) = (err e, t)
advance_checked db dir now p id r t (ok u) =
    if db.expire
    then (err unavailable, t)
    else advance_read db now p id r t t1 (read_owned db.read dir id p t1)
  where
    t1 : Tables
    t1 = expired_tables operator now (some p.device_id) t

unfoldable pub advance_command :
    Faults
    → Directory
    → ℕ
    → DevicePrincipal
    → ℕ
    → CommandResult
    → Tables
    → Result DesktopError (Command × Bool) × Tables
unfolding advance_checked
advance_command db dir now p id r t =
    if not (valid_principal p) || id == 0
    then (err invalid_input, t)
    else if db.begin
    then (err unavailable, t)
    else advance_checked db dir now p id r t (require_active_device db dir p)

-- GetCommand: where the command is missing, the expiry is rolled back.
unfoldable pub get_command : Faults → ℕ → ℕ → Tables → Result DesktopError Command × Tables
get_command db now id t =
    if id == 0
    then (err invalid_input, t)
    else if db.begin || db.expire
    then (err unavailable, t)
    else finish db t t1 (read_command db.read id t1)
  where
    t1 : Tables
    t1 = expired_tables operator now none t
