-- ===== src/Desktop/Queueing.antt =====
-- A command is queued once for a key: QueueHealthCheck of internal/desktopcontrol/repository.go.
use aera_cloud.Prelude.{
  ℕ, ◌≡◌, refl, sym, ap, ◌∙◌, subst, Bool, true, false, ◌||◌, not, Option, none, some, arith, any,
  find, ok, err, Result, if-cases, if◌then◌else◌, bytes_eq_refl,
}
use aera_cloud.Postgres.{Commit, settle}
use aera_cloud.Session.Table.{Directory}
use aera_cloud.Desktop.Model.{
  DesktopError, unavailable, Instance, Command, QueueHealthCheckCommand, valid_queue,
}
use aera_cloud.Desktop.Table.{
  Tables, Faults, is_command, has_idempotency, expired_tables, new_command,
}
use aera_cloud.Desktop.Repository.{
  operator, read_instance, is_ready, queued_tables, queue_inserted, queue_new, queue_read,
  queue_found, queue_health_check,
}
use aera_cloud.Desktop.Lifecycle.{Follows, Follows-trans}
use aera_cloud.Desktop.Changes.{expires, queue_health_check-Change}
use aera_cloud.Desktop.History.{Change-Later, Change-IsKeyed, has_idempotency-IsStable}
use aera_cloud.Desktop.Trace.{Steps, IsKeyedTable, Steps-IsKeyed, Steps-Later}

settle_pair :
    (c : Commit) (old new : Tables) (y a : Command × Bool)
    → (settle c unavailable old new (ok y)).0 ≡ ok a
    → (y.0 ≡ a.0) × (y.1 ≡ a.1) × ((settle c unavailable old new (ok y)).1 ≡ new)
settle_pair c old new y a e = ground (arith, e)

maybe_missed :
    (missed : Bool) (x : Option Command) (d : Command)
    → (if missed then none else x) ≡ some d
    → x ≡ some d
maybe_missed missed x d e = ground (arith, e)

-- A queued health check: the row of its key after the commit.
module _ (db : Faults) (dir : Directory) (id now : ℕ) (q : QueueHealthCheckCommand) (t : Tables)
    (c : Command) (b : Bool) where
  abbrev is_ours : Command → Bool
  is_ours = has_idempotency q.device_id q.idempotency_key_hash

  abbrev Queued : Result DesktopError (Command × Bool) × Tables → Type 0
  Queued o = o.0 ≡ ok (c, b) → find is_ours o.1.commands ≡ some c

  t0 : Tables
  t0 = expired_tables operator now none t

  inserted-Queued :
      (x : Option Command)
      → find is_ours t0.commands ≡ x
      → Queued (queue_inserted db id now q t t0 x)
  unfolding queue_inserted t0
  inserted-Queued (some d) found =
      if-cases Queued db.reread (λ _ e. absurd (cc e))
        (λ _ e.
          let (same, flag, new) = settle_pair db.commit t t0 (d, true) (c, b) e in
          subst (λ (v : Tables). find is_ours v.commands ≡ some c) (sym new) (found ∙ ap some same))
  inserted-Queued none found =
      if-cases Queued (any (is_command id) t0.commands || db.audit) (λ _ e. absurd (cc e))
        (λ _ e.
          let (same, flag, new) =
            settle_pair db.commit t (queued_tables id now q t0) (new_command id now q, false) (c, b)
              e in
          subst (λ (v : Tables). find is_ours v.commands ≡ some c) (sym new)
            (unfold new_command queued_tables in
              ground (arith, bytes_eq_refl q.idempotency_key_hash, same)))

  found-Queued :
      (x : Option Command)
      → ((d : Command) → x ≡ some d → find is_ours t0.commands ≡ some d)
      → Queued (queue_found db dir id now q t t0 x)
  unfolding queue_found queue_read queue_new t0
  found-Queued (some d) found = λ e.
      let (same, flag, new) = settle_pair db.commit t t0 (d, true) (c, b) e in
      subst (λ (v : Tables). find is_ours v.commands ≡ some c) (sym new)
        (found d refl ∙ ap some same)
  found-Queued none found = read (read_instance db.read dir q.device_id t0)
    where
      read : (x : Result DesktopError Instance) → Queued (queue_read db id now q t t0 x)
      read (err x) = λ e. absurd (cc e)
      read (ok i) =
          if-cases Queued (not (is_ready now i)) (λ _ e. absurd (cc e))
            (λ _. if-cases Queued db.write (λ _ e. absurd (cc e)) (λ _. inserted-Queued _ refl))

  queue-Queued : Queued (queue_health_check db dir id now q t)
  unfolding queue_health_check t0
  queue-Queued =
      if-cases Queued (not (valid_queue q)) (λ _ e. absurd (cc e))
        (λ _.
          if-cases Queued (db.begin || db.expire || db.find) (λ _ e. absurd (cc e))
            (λ _. found-Queued _ (λ d. maybe_missed db.missed (find is_ours t0.commands) d)))

  abbrev Answer : Command → Result DesktopError (Command × Bool) × Tables → Type 0
  Answer d o = o.0 ≡ ok (c, b) → (d ≡ c) × (true ≡ b)

  -- Where the key is known already, the answer is its row, whether or not the first query sees it.
  found-replayed :
      (d : Command) (x : Option Command)
      → find is_ours t0.commands ≡ some d
      → ((y : Command) → x ≡ some y → find is_ours t0.commands ≡ some y)
      → Answer d (queue_found db dir id now q t t0 x)
  unfolding queue_found queue_read queue_new queue_inserted t0
  found-replayed d (some y) found seen = λ e.
      let (same, flag, new) = settle_pair db.commit t t0 (y, true) (c, b) e in
      (ground (arith, found, seen y refl, same), flag)
  found-replayed d none found seen = read (read_instance db.read dir q.device_id t0)
    where
      read : (x : Result DesktopError Instance) → Answer d (queue_read db id now q t t0 x)
      read (err x) = λ e. absurd (cc e)
      read (ok i) =
          if-cases (Answer d) (not (is_ready now i)) (λ _ e. absurd (cc e))
            (λ _.
              if-cases (Answer d) db.write (λ _ e. absurd (cc e))
                (λ _. rw found (
                  if-cases (Answer d) db.reread (λ _ e. absurd (cc e))
                    (λ _ e.
                      let (same, flag, new) = settle_pair db.commit t t0 (d, true) (c, b) e in
                      (same, flag)))))

  queue-replayed :
      (d : Command)
      → find is_ours t0.commands ≡ some d
      → Answer d (queue_health_check db dir id now q t)
  unfolding queue_health_check t0
  queue-replayed d found =
      if-cases (Answer d) (not (valid_queue q)) (λ _ e. absurd (cc e))
        (λ _.
          if-cases (Answer d) (db.begin || db.expire || db.find) (λ _ e. absurd (cc e))
            (λ _.
              found-replayed d _ found (λ y. maybe_missed db.missed (find is_ours t0.commands) y)))

-- QueueHealthCheck is idempotent: after it answered for a device and an idempotency key, every
-- later call for that device and key that answers, whatever transactions of desktop control ran in
-- between, and whether or not its first query misses the row, answers as a replay with the same
-- command, in the state that it has reached by then. A takeover of the device by another account,
-- which deletes its commands, is not among these transactions.
pub queue_once :
    (db db' : Faults) (dir dir' : Directory) (id id' now now' : ℕ) (q q' : QueueHealthCheckCommand)
    (t : Tables) {u : Tables} (c c' : Command) (b b' : Bool)
    → IsKeyedTable t
    → q'.device_id ≡ q.device_id
    → q'.idempotency_key_hash ≡ q.idempotency_key_hash
    → (queue_health_check db dir id now q t).0 ≡ ok (c, b)
    → Steps (queue_health_check db dir id now q t).1 u
    → (queue_health_check db' dir' id' now' q' u).0 ≡ ok (c', b')
    → (b' ≡ true) × Follows c c'
unfolding t0 expired_tables
queue_once db db' dir dir' id id' now now' q q' t {u} c c' b b' k device hash e steps e' =
    let p = has_idempotency q.device_id q.idempotency_key_hash in
    let stable = has_idempotency-IsStable q.device_id q.idempotency_key_hash in
    let key = Change-IsKeyed (queue_health_check-Change now t db dir id q) k in
    let first = queue-Queued db dir id now q t c b e in
    let (d, found, later) = Steps-Later p stable c key steps first in
    let (x, again, after) =
      Change-Later p stable now' u.commands (Steps-IsKeyed steps key) d found (expires none) in
    let (same, replay) =
      queue-replayed db' dir' id' now' q' u c' b' x (rw (device, hash) again) e' in
    (sym replay, subst (Follows c) same (Follows-trans c d x later after))
