-- ===== src/Desktop/Trace.antt =====
-- Any interleaving of the transactions of internal/desktopcontrol/repository.go, by any number of
-- administrators and desktops, under any faults. A takeover of a device, which deletes its commands
-- (internal/device/repository.go), is none of them.
use aera_cloud.Prelude.{ℕ, ◌≡◌, Bool, some, find, IsKeyed}
use aera_cloud.Session.Table.{Directory}
use aera_cloud.Desktop.Model.{
  DevicePrincipal, Heartbeat, CommandResult, Command, QueueHealthCheckCommand,
}
use aera_cloud.Desktop.Table.{Tables, Faults, command_key, is_command}
use aera_cloud.Desktop.Repository.{accept_heartbeat, queue_health_check, claim_next_command}
use aera_cloud.Desktop.Advance.{advance_command, get_command}
use aera_cloud.Desktop.Lifecycle.{Follows, Follows-refl, Follows-trans}
use aera_cloud.Desktop.Changes.{
  Change, accept_heartbeat-Change, queue_health_check-Change, claim_next_command-Change,
  advance_command-Change, get_command-Change,
}
use aera_cloud.Desktop.History.{Change-IsKeyed, Change-Later, IsStable, is_command-IsStable}

-- `id` is what uuid.New gives; ListInstances and GetInstance change nothing.
pub data Step (t : Tables) : Tables → Type 0 where
  beats :
      (db : Faults) (dir : Directory) (now : ℕ) (p : DevicePrincipal) (h : Heartbeat)
      → Step t (accept_heartbeat db dir now p h t).1
  queues :
      (db : Faults) (dir : Directory) (id now : ℕ) (q : QueueHealthCheckCommand)
      → Step t (queue_health_check db dir id now q t).1
  claims :
      (db : Faults) (dir : Directory) (now : ℕ) (p : DevicePrincipal)
      → Step t (claim_next_command db dir now p t).1
  advances :
      (db : Faults) (dir : Directory) (now : ℕ) (p : DevicePrincipal) (id : ℕ) (r : CommandResult)
      → Step t (advance_command db dir now p id r t).1
  gets : (db : Faults) (now id : ℕ) → Step t (get_command db now id t).1

pub data Steps (t : Tables) : Tables → Type 0 where
  here : Steps t t
  next : {u v : Tables} → Steps t u → Step u v → Steps t v

Step-Change : {t u : Tables} → Step t u → (now : ℕ) × Change now t.commands u.commands
Step-Change {t} (beats db dir now p h) = (now, accept_heartbeat-Change now t db dir p h)
Step-Change {t} (queues db dir id now q) = (now, queue_health_check-Change now t db dir id q)
Step-Change {t} (claims db dir now p) = (now, claim_next_command-Change now t db dir p)
Step-Change {t} (advances db dir now p id r) = (now, advance_command-Change now t db dir p id r)
Step-Change {t} (gets db now id) = (now, get_command-Change now t db id)

abbrev pub IsKeyedTable : Tables → Type 0
IsKeyedTable t = IsKeyed command_key t.commands

pub Steps-IsKeyed : {t u : Tables} → Steps t u → IsKeyedTable t → IsKeyedTable u
Steps-IsKeyed here k = k
Steps-IsKeyed (next s st) k = Change-IsKeyed (Step-Change st).1 (Steps-IsKeyed s k)

pub Steps-Later :
    (p : Command → Bool) (stable : IsStable p) {t u : Tables} (c : Command)
    → IsKeyedTable t
    → Steps t u
    → find p t.commands ≡ some c
    → (d : Command) × (find p u.commands ≡ some d) × Follows c d
Steps-Later p stable c k here e = (c, e, Follows-refl c)
Steps-Later p stable {t} c k (next {u} {v} s st) e =
    let (d, f, a) = Steps-Later p stable c k s e in
    let (now, change) = Step-Change st in
    let (x, g, b) = Change-Later p stable now u.commands (Steps-IsKeyed s k) d f change in
    (x, g, Follows-trans c d x a b)

-- The life of a command, over any transactions of desktop control: the row stays in the table under
-- its id, with its device, idempotency key and expiry; its state moves only along transitions that
-- CanTransition allows; and a row that succeeded, failed or expired never changes again. A takeover
-- of the device by another account, which deletes its commands, is not among these transactions.
pub command-Follows :
    (i : ℕ) {t u : Tables} (c : Command)
    → IsKeyedTable t
    → Steps t u
    → find (is_command i) t.commands ≡ some c
    → (d : Command) × (find (is_command i) u.commands ≡ some d) × Follows c d
command-Follows i = Steps-Later (is_command i) (is_command-IsStable i)
