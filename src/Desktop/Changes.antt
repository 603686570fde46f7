-- ===== src/Desktop/Changes.antt =====
-- What the transactions of internal/desktopcontrol/repository.go may do to the commands, whatever
-- fails.
use aera_cloud.Prelude.{
  ℕ, ◌≡◌, refl, Bool, true, false, ◌&&◌, ◌||◌, not, Option, none, some, List, ◌∷◌, arith, inl, inr,
  any, find, update_where, Result, ok, err, ◌==◌, if-cases, Option-cases,
}
use aera_cloud.Postgres.{settle-keeps}
use aera_cloud.Session.Table.{Directory}
use aera_cloud.Desktop.Model.{
  DesktopError, unavailable, DevicePrincipal, Heartbeat, Instance, CommandResult, Command,
  QueueHealthCheckCommand, can_transition, valid_principal, valid_heartbeat, valid_queue,
  valid_result, capability_health_read,
}
use aera_cloud.Desktop.Table.{
  Tables, Faults, is_command, has_idempotency, is_overdue, expire, expired_tables, claim, advance,
  new_command,
}
use aera_cloud.Desktop.Repository.{
  operator, require_active_device, read_instance, finish, heartbeat_checked, accept_heartbeat,
  has_capability, is_ready, queued_tables, queue_inserted, queue_new, queue_read, queue_found,
  queue_health_check, select_next, claim_selected, claim_read, claim_checked, claim_next_command,
}
use aera_cloud.Desktop.Advance.{
  is_completed, select_owned, read_owned, report, advanced_tables, same_command_result,
  advance_read, advance_checked, advance_command, get_command,
}

abbrev pub expired_commands : ℕ → Option ℕ → List Command → List Command
expired_commands now device cs = update_where (is_overdue now device) (expire now) cs

pub data Change (now : ℕ) (cs : List Command) : List Command → Type 0 where
  unchanged : Change now cs cs
  expires : (device : Option ℕ) → Change now cs (expired_commands now device cs)
  queues :
      (id : ℕ) (q : QueueHealthCheckCommand)
      → any (is_command id) (expired_commands now none cs) ≡ false
      → find (has_idempotency q.device_id q.idempotency_key_hash) (expired_commands now none cs)
        ≡ none
      → Change now cs (new_command id now q ∷ expired_commands now none cs)
  claims :
      (device : ℕ) (c : Command)
      → select_next now device (expired_commands now (some device) cs) ≡ some c
      → Change now cs
          (update_where (is_command c.id) (claim now) (expired_commands now (some device) cs))
  advances :
      (device id : ℕ) (r : CommandResult) (c : Command)
      → find (λ x. is_command id x && x.device_id == device) (expired_commands now (some device) cs)
        ≡ some c
      → can_transition c.state r.state ≡ true
      → valid_result r ≡ true
      → Change now cs
          (update_where (is_command id) (advance now r) (expired_commands now (some device) cs))

read_owned_ok :
    (fails : Bool) (dir : Directory) (id : ℕ) (p : DevicePrincipal) (t : Tables) (c : Command)
    → read_owned fails dir id p t ≡ ok c
    → find (λ x. is_command id x && x.device_id == p.device_id) t.commands ≡ some c
unfolding read_owned select_owned
read_owned_ok fails dir id p t c e =
    elim (Option-cases (find (λ x. is_command id x && x.device_id == p.device_id) t.commands)) [
      | inl f ↦ ground (arith, e, f)
      | inr (d, f) ↦ ground (arith, e, f)
    ]

module _ (now : ℕ) (t : Tables) where
  -- The commands that an operation leaves.
  abbrev Left {ℓ} : {A : Type ℓ} → A × Tables → Type 0
  Left o = Change now t.commands o.1.commands

  abbrev Kept : Tables → Type 0
  Kept v = Change now t.commands v.commands

  finish-Change {ℓ} :
      {A : Type ℓ} (db : Faults) (new : Tables) (r : Result DesktopError A)
      → Kept new
      → Left (finish db t new r)
  unfolding finish
  finish-Change db new (err e) h = unchanged
  finish-Change db new (ok a) h = settle-keeps Kept db.commit unavailable (ok a) unchanged h

  pub accept_heartbeat-Change :
      (db : Faults) (dir : Directory) (p : DevicePrincipal) (h : Heartbeat)
      → Left (accept_heartbeat db dir now p h t)
  unfolding accept_heartbeat heartbeat_checked
  accept_heartbeat-Change db dir p h =
      if-cases Left (not (valid_principal p) || not (valid_heartbeat h)) (λ _. unchanged)
        (λ _.
          if-cases Left db.begin (λ _. unchanged) (λ _. checked (require_active_device db dir p)))
    where
      checked : (x : Result DesktopError (Unit {0})) → Left (heartbeat_checked db dir now p h t x)
      checked (err e) = unchanged
      checked (ok u) = if-cases Left db.write (λ _. unchanged) (λ _. finish-Change db _ _ unchanged)

  pub queue_health_check-Change :
      (db : Faults) (dir : Directory) (id : ℕ) (q : QueueHealthCheckCommand)
      → Left (queue_health_check db dir id now q t)
  unfolding queue_health_check queue_found queue_read queue_new queue_inserted queued_tables
      expired_tables
  queue_health_check-Change db dir id q =
      if-cases Left (not (valid_queue q)) (λ _. unchanged)
        (λ _. if-cases Left (db.begin || db.expire || db.find) (λ _. unchanged) (λ _. found _))
    where
      t1 : Tables
      t1 = expired_tables operator now none t

      inserted :
          (x : Option Command)
          → find (has_idempotency q.device_id q.idempotency_key_hash) t1.commands ≡ x
          → Left (queue_inserted db id now q t t1 x)
      inserted (some c) e =
          if-cases Left db.reread (λ _. unchanged)
            (λ _. settle-keeps Kept db.commit unavailable _ unchanged (expires none))
      inserted none free =
          if-cases Left (any (is_command id) t1.commands || db.audit) (λ _. unchanged)
            (λ key.
              settle-keeps Kept db.commit unavailable _ unchanged
                (queues id q (ground (arith, key)) free))

      read : (x : Result DesktopError Instance) → Left (queue_read db id now q t t1 x)
      read (err e) = unchanged
      read (ok i) =
          if-cases Left (not (is_ready now i)) (λ _. unchanged)
            (λ _. if-cases Left db.write (λ _. unchanged) (λ _. inserted _ refl))

      found : (x : Option Command) → Left (queue_found db dir id now q t t1 x)
      found (some c) = settle-keeps Kept db.commit unavailable _ unchanged (expires none)
      found none = read (read_instance db.read dir q.device_id t1)

  pub claim_next_command-Change :
      (db : Faults) (dir : Directory) (p : DevicePrincipal)
      → Left (claim_next_command db dir now p t)
  unfolding claim_next_command claim_checked claim_read claim_selected expired_tables
  claim_next_command-Change db dir p =
      if-cases Left (not (valid_principal p)) (λ _. unchanged)
        (λ _.
          if-cases Left db.begin (λ _. unchanged) (λ _. checked (require_active_device db dir p)))
    where
      t1 : Tables
      t1 = expired_tables operator now (some p.device_id) t

      selected :
          (x : Option Command)
          → select_next now p.device_id t1.commands ≡ x
          → Left (claim_selected db now t t1 x)
      selected none e =
          settle-keeps Kept db.commit unavailable _ unchanged (expires (some p.device_id))
      selected (some c) e =
          if-cases Left db.write (λ _. unchanged)
            (λ _. finish-Change db _ _ (claims p.device_id c e))

      read : (x : Result DesktopError Instance) → Left (claim_read db now p t x)
      read (err e) = unchanged
      read (ok i) =
          if-cases Left (not (has_capability i.row.capabilities capability_health_read))
            (λ _. settle-keeps Kept db.commit unavailable _ unchanged unchanged)
            (λ _. if-cases Left (db.expire || db.select) (λ _. unchanged) (λ _. selected _ refl))

      checked : (x : Result DesktopError (Unit {0})) → Left (claim_checked db dir now p t x)
      checked (err e) = unchanged
      checked (ok u) = read (read_instance db.read dir p.device_id t)

  pub advance_command-Change :
      (db : Faults) (dir : Directory) (p : DevicePrincipal) (id : ℕ) (r : CommandResult)
      → Left (advance_command db dir now p id r t)
  unfolding advance_command advance_checked advance_read read_owned select_owned advanced_tables
      report expired_tables
  advance_command-Change db dir p id r =
      if-cases Left (not (valid_principal p) || id == 0) (λ _. unchanged)
        (λ _.
          if-cases Left db.begin (λ _. unchanged) (λ _. checked (require_active_device db dir p)))
    where
      t1 : Tables
      t1 = expired_tables operator now (some p.device_id) t

      Owned : Command → Type 0
      Owned c = find (λ x. is_command id x && x.device_id == p.device_id) t1.commands ≡ some c

      advanced :
          (c : Command)
          → Owned c
          → can_transition c.state r.state ≡ true
          → valid_result r ≡ true
          → Kept (advanced_tables now p id r c t1)
      advanced c own step valid =
          if-cases Kept (is_completed r.state) (λ _. advances p.device_id id r c own step valid)
            (λ _. advances p.device_id id r c own step valid)

      read :
          (x : Result DesktopError Command)
          → ((c : Command) → x ≡ ok c → Owned c)
          → Left (advance_read db now p id r t t1 x)
      read (err e) own = unchanged
      read (ok c) own =
          if-cases Left (is_completed c.state)
            (λ _.
              if-cases Left (same_command_result c r)
                (λ _.
                  settle-keeps Kept db.commit unavailable _ unchanged (expires (some p.device_id)))
                (λ _. unchanged))
            (λ _.
              if-cases Left (not (can_transition c.state r.state)) (λ _. unchanged)
                (λ step.
                  if-cases Left (not (valid_result r)) (λ _. unchanged)
                    (λ valid.
                      if-cases Left (db.write || is_completed r.state && (db.health || db.audit))
                        (λ _. unchanged)
                        (λ _. finish-Change db _ _ (
                          advanced c (own c refl) (ground (arith, step))
                            (ground (arith, valid)))))))

      checked : (x : Result DesktopError (Unit {0})) → Left (advance_checked db dir now p id r t x)
      checked (err e) = unchanged
      checked (ok u) =
          if-cases Left db.expire (λ _. unchanged)
            (λ _. read (read_owned db.read dir id p t1) (read_owned_ok db.read dir id p t1))

  pub get_command-Change : (db : Faults) (id : ℕ) → Left (get_command db now id t)
  unfolding get_command expired_tables
  get_command-Change db id =
      if-cases Left (id == 0) (λ _. unchanged)
        (λ _.
          if-cases Left (db.begin || db.expire) (λ _. unchanged)
            (λ _. finish-Change db _ _ (expires none)))
