-- ===== src/Desktop/Repository.antt =====
-- The transactions of internal/desktopcontrol/repository.go, each a step from the tables to the
-- answer and the new tables. `FOR UPDATE` on the rows that it decides on makes each one step, but for
-- QueueHealthCheck, whose first query may miss a row (`missed`). A Command's `Replayed` stands beside
-- the row.
use aera_cloud.Prelude.{
  ℕ, Bool, true, false, ◌&&◌, ◌||◌, not, Option, none, some, List, [], ◌∷◌, String, str_eq, Text,
  codes, any, find, update_where, Result, ok, err, ◌==◌, ltb, if◌then◌else◌,
}
use aera_cloud.Postgres.{settle}
use aera_cloud.Session.Table.{Directory, UserStatus, DeviceStatus, user_is_active, device_is_active}
use aera_cloud.Desktop.Model.{
  DesktopError, invalid_input, not_found, conflict, unavailable, DevicePrincipal, Heartbeat,
  Instance, queued, is_state, Command, QueueHealthCheckCommand, online, is_status, effective_status,
  valid_principal, valid_heartbeat, valid_queue, capability_health_read,
}
use aera_cloud.Desktop.Table.{
  Tables, Faults, is_command, has_idempotency, completed_event, expired_tables, claim, new_command,
  heartbeat_row, upsert, select_statuses, select_instance,
}

abbrev pub operator : Text
operator = codes "aera-cloud-desktop-control"

-- requireActiveDevice, after its query.
unfoldable pub active_device : Option (UserStatus × DeviceStatus) → Result DesktopError (Unit {0})
active_device none = err not_found
active_device (some (u, d)) =
    if not (user_is_active u) || not (device_is_active d) then err conflict else ok tt

unfoldable pub require_active_device :
    Faults → Directory → DevicePrincipal → Result DesktopError (Unit {0})
unfolding active_device
require_active_device db dir p =
    if db.device then err unavailable else active_device (select_statuses dir p.user_id p.device_id)

abbrev instance_found : Option Instance → Result DesktopError Instance
instance_found none = err not_found
instance_found (some i) = ok i

unfoldable pub read_instance : Bool → Directory → ℕ → Tables → Result DesktopError Instance
read_instance fails dir device t =
    if fails then err unavailable else instance_found (select_instance dir device t)

abbrev pub command_found : Option Command → Result DesktopError Command
command_found none = err not_found
command_found (some c) = ok c

unfoldable pub read_command : Bool → ℕ → Tables → Result DesktopError Command
read_command fails id t =
    if fails then err unavailable else command_found (find (is_command id) t.commands)

-- An error rolls back; an answer is committed with the new tables.
unfoldable pub finish {ℓ} :
    {A : Type ℓ} → Faults → Tables → Tables → Result DesktopError A → Result DesktopError A × Tables
finish db old new (err e) = (err e, old)
finish db old new (ok a) = settle db.commit unavailable old new (ok a)

unfoldable pub heartbeat_checked :
    Faults
    → Directory
    → ℕ
    → DevicePrincipal
    → Heartbeat
    → Tables
    → Result DesktopError (Unit {0})
    → Result DesktopError Instance × Tables
heartbeat_checked db dir now p h t (err e) = (err e, t)
heartbeat_checked db dir now p h t (ok u) =
    if db.write
    then (err unavailable, t)
    else finish db t t' (read_instance db.reread dir p.device_id t')
  where
    t' : Tables
    t' = record t { instances = upsert (heartbeat_row p h now) t.instances }

unfoldable pub accept_heartbeat :
    Faults
    → Directory
    → ℕ
    → DevicePrincipal
    → Heartbeat
    → Tables
    → Result DesktopError Instance × Tables
unfolding heartbeat_checked
accept_heartbeat db dir now p h t =
    if not (valid_principal p) || not (valid_heartbeat h)
    then (err invalid_input, t)
    else if db.begin
    then (err unavailable, t)
    else heartbeat_checked db dir now p h t (require_active_device db dir p)

unfoldable pub has_capability : List String → String → Bool
has_capability capabilities target = any (λ c. str_eq c target) capabilities

-- The desktop may be asked for its health.
unfoldable pub is_ready : ℕ → Instance → Bool
is_ready now i =
    user_is_active i.user_status
    && device_is_active i.device_status
    && is_status (effective_status now i) online
    && has_capability i.row.capabilities capability_health_read

unfoldable pub queued_tables : ℕ → ℕ → QueueHealthCheckCommand → Tables → Tables
queued_tables id now q t = record t {
  commands = new_command id now q ∷ t.commands;
  audit_events =
      completed_event q.actor.service_subject "desktop_health_check_requested" none now queued
        (new_command id now q)
      ∷ t.audit_events;
}

-- The INSERT and the audit event. Its ON CONFLICT answers nothing here, since the key was looked
-- for in the same step; the primary key may be taken.
-- What the INSERT returned: a row of the same key stops it (ON CONFLICT DO NOTHING), and is read.
unfoldable pub queue_inserted :
    Faults
    → ℕ
    → ℕ
    → QueueHealthCheckCommand
    → Tables
    → Tables
    → Option Command
    → Result DesktopError (Command × Bool) × Tables
queue_inserted db id now q t t1 (some c) =
    if db.reread then (err unavailable, t) else settle db.commit unavailable t t1 (ok (c, true))
queue_inserted db id now q t t1 none =
    if any (is_command id) t1.commands || db.audit
    then (err unavailable, t)
    else settle db.commit unavailable t (queued_tables id now q t1)
        (ok (new_command id now q, false))

unfoldable pub queue_new :
    Faults
    → ℕ
    → ℕ
    → QueueHealthCheckCommand
    → Tables
    → Tables
    → Result DesktopError (Command × Bool) × Tables
queue_new db id now q t t1 =
    if db.write
    then (err unavailable, t)
    else queue_inserted db id now q t t1
        (find (has_idempotency q.device_id q.idempotency_key_hash) t1.commands)

unfoldable pub queue_read :
    Faults
    → ℕ
    → ℕ
    → QueueHealthCheckCommand
    → Tables
    → Tables
    → Result DesktopError Instance
    → Result DesktopError (Command × Bool) × Tables
queue_read db id now q t t1 (err e) = (err e, t)
queue_read db id now q t t1 (ok i) =
    if not (is_ready now i) then (err conflict, t) else queue_new db id now q t t1

unfoldable pub queue_found :
    Faults
    → Directory
    → ℕ
    → ℕ
    → QueueHealthCheckCommand
    → Tables
    → Tables
    → Option Command
    → Result DesktopError (Command × Bool) × Tables
unfolding queue_read
queue_found db dir id now q t t1 (some c) = settle db.commit unavailable t t1 (ok (c, true))
queue_found db dir id now q t t1 none =
    queue_read db id now q t t1 (read_instance db.read dir q.device_id t1)

-- QueueHealthCheck; `id` is the uuid.New of the command. No lock is held from the first query for
-- the key to the INSERT, so that the query misses a row that another transaction commits meanwhile.
unfoldable pub queue_health_check :
    Faults
    → Directory
    → ℕ
    → ℕ
    → QueueHealthCheckCommand
    → Tables
    → Result DesktopError (Command × Bool) × Tables
queue_health_check db dir id now q t =
    if not (valid_queue q)
    then (err invalid_input, t)
    else if db.begin || db.expire || db.find
    then (err unavailable, t)
    else queue_found db dir id now q t t1 (
        if db.missed
        then none
        else find (has_idempotency q.device_id q.idempotency_key_hash) t1.commands)
  where
    t1 : Tables
    t1 = expired_tables operator now none t

-- state = 'queued' AND expires_at > now, of the device.
unfoldable pub is_claimable : ℕ → ℕ → Command → Bool
is_claimable now device c = c.device_id == device && is_state c.state queued && ltb now c.expires_at

-- ORDER BY created_at, id.
abbrev pub is_earlier : Command → Command → Bool
is_earlier c d =
    ltb c.created_at d.created_at || c.created_at == d.created_at && not (ltb d.id c.id)

abbrev earlier : Command → Option Command → Option Command
earlier c none = some c
earlier c (some d) = if is_earlier c d then some c else some d

-- The first row of the order, LIMIT 1.
unfoldable pub select_next : ℕ → ℕ → List Command → Option Command
select_next now device [] = none
select_next now device (c ∷ cs) =
    let rest = select_next now device cs in
    if is_claimable now device c then earlier c rest else rest

abbrev pub some_command : Result DesktopError Command → Result DesktopError (Option Command)
some_command (err e) = err e
some_command (ok c) = ok (some c)

unfoldable pub claim_selected :
    Faults → ℕ → Tables → Tables → Option Command → Result DesktopError (Option Command) × Tables
claim_selected db now t t1 none = settle db.commit unavailable t t1 (ok none)
claim_selected db now t t1 (some c) =
    if db.write
    then (err unavailable, t)
    else finish db t t2 (some_command (read_command db.reread c.id t2))
  where
    t2 : Tables
    t2 = record t1 { commands = update_where (is_command c.id) (claim now) t1.commands }

unfoldable pub claim_read :
    Faults
    → ℕ
    → DevicePrincipal
    → Tables
    → Result DesktopError Instance
    → Result DesktopError (Option Command) × Tables
claim_read db now p t (err e) = (err e, t)
claim_read db now p t (ok i) =
    if not (has_capability i.row.capabilities capability_health_read)
    then settle db.commit unavailable t t (ok none)
    else if db.expire || db.select
    then (err unavailable, t)
    else claim_selected db now t t1 (select_next now p.device_id t1.commands)
  where
    t1 : Tables
    t1 = expired_tables operator now (some p.device_id) t

unfoldable pub claim_checked :
    Faults
    → Directory
    → ℕ
    → DevicePrincipal
    → Tables
    → Result DesktopError (Unit {0})
    → Result DesktopError (Option Command) × Tables
unfolding claim_read
claim_checked db dir now p t (err e) = (err e, t)
claim_checked db dir now p t (ok u) =
    claim_read db now p t (read_instance db.read dir p.device_id t)

unfoldable pub claim_next_command :
    Faults
    → Directory
    → ℕ
    → DevicePrincipal
    → Tables
    → Result DesktopError (Option Command) × Tables
unfolding claim_checked
claim_next_command db dir now p t =
    if not (valid_principal p)
    then (err invalid_input, t)
    else if db.begin
    then (err unavailable, t)
    else claim_checked db dir now p t (require_active_device db dir p)
