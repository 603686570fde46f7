-- ===== src/Device/Trace.antt =====
-- Any interleaving of the transactions of internal/device/repository.go and
-- internal/session/repository.go, by any number of requests, under any faults.
use aera_cloud.Prelude.{ℕ, ◌≡◌, ◌≤◌, false, [], Bytes, String, arith, count_where}
use aera_cloud.Postgres.{Faults as SessionFaults}
use aera_cloud.Session.Table.{Rows, Directory}
use aera_cloud.Session.Repository.{
  CreateRecord, SuccessorRecord, create_session, rotate, revoke_family, revoke_by_token,
}
use aera_cloud.Device.Model.{AuthorizationRecord, SelfRevocationRecord}
use aera_cloud.Device.Table.{World, Accounts, Faults, is_active_of, directory}
use aera_cloud.Device.Repository.{authorize, revoke, self_revoke}
use aera_cloud.Device.Repository.Cases.{authorize-Change, revoke-Change, self_revoke-Change}
use aera_cloud.Device.Capacity.{IsWithin, Change-IsWithin}
use aera_cloud.Device.Bound.{
  create_session-AllBound, rotate-AllBound, revoke_family-AllBound, revoke_by_token-AllBound,
}
use aera_cloud.Device.Sound.{IsSound, Change-IsSound}

abbrev pub with_sessions : World → Rows → World
with_sessions w rows = record w { sessions = rows }

-- `limit` is the active limit of the one service; users, spaces and backups may change at will. The
-- tables that a session is started on may be out of date, as they may be for Create. Deletions of
-- accounts (internal/account) and the purges of internal/jobs are not among the steps.
pub data Step (limit : ℕ) (w : World) : World → Type 0 where
  authorizes :
      (db : Faults) (a : Accounts) (r : AuthorizationRecord)
      → Step limit w (authorize db a r limit w).1
  revokes :
      (db : Faults) (a : Accounts) (user device audit_id now : ℕ)
      → Step limit w (revoke db a user device audit_id now w).1
  self_revokes : (db : Faults) (r : SelfRevocationRecord) → Step limit w (self_revoke db r w).1
  starts_session :
      (db : SessionFaults) (dir : Directory) (c : CreateRecord)
      → Step limit w (with_sessions w (create_session db dir c w.sessions).1)
  rotates :
      (db : SessionFaults) (dir : Directory) (h : Bytes) (n : SuccessorRecord) (now : ℕ)
      → Step limit w (with_sessions w (rotate db dir h n now w.sessions).1)
  revokes_family :
      (db : SessionFaults) (family : ℕ) (reason : String) (now : ℕ)
      → Step limit w (with_sessions w (revoke_family db family reason now w.sessions).1)
  revokes_token :
      (db : SessionFaults) (h : Bytes) (now : ℕ)
      → Step limit w (with_sessions w (revoke_by_token db h now w.sessions).1)

pub data Steps (limit : ℕ) (w : World) : World → Type 0 where
  here : Steps limit w w
  next : {v x : World} → Steps limit w v → Step limit v x → Steps limit w x

abbrev pub empty_world : World
empty_world = record {
  devices = [];
  sessions = [];
  issuances = [];
  nonces = [];
  control_commands = [];
  control_instances = [];
  audit_events = [];
}

abbrev pub no_backup : Accounts
no_backup = record { users = []; spaces = []; has_backup = λ d. false }

Step-IsWithin : {limit : ℕ} {w v : World} → Step limit w v → IsWithin limit w → IsWithin limit v
Step-IsWithin {limit} {w} (authorizes db a r) h =
    Change-IsWithin (authorize-Change db a limit w r) h
Step-IsWithin {limit} {w} (revokes db a user device audit_id now) h =
    Change-IsWithin (revoke-Change db a limit w user device audit_id now) h
Step-IsWithin {limit} {w} (self_revokes db r) h =
    Change-IsWithin (self_revoke-Change db no_backup limit w r) h
Step-IsWithin (starts_session db dir c) h = record { keyed = h.keyed; within = h.within }
Step-IsWithin (rotates db dir k n now) h = record { keyed = h.keyed; within = h.within }
Step-IsWithin (revokes_family db family reason now) h = record {
  keyed = h.keyed;
  within = h.within;
}
Step-IsWithin (revokes_token db k now) h = record { keyed = h.keyed; within = h.within }

Steps-IsWithin : {limit : ℕ} {w v : World} → Steps limit w v → IsWithin limit w → IsWithin limit v
Steps-IsWithin here h = h
Steps-IsWithin (next t st) h = Step-IsWithin st (Steps-IsWithin t h)

-- From empty tables, no account ever has more active devices than the active limit.
pub capacity_holds :
    (limit user : ℕ) {w : World}
    → Steps limit empty_world w
    → count_where (is_active_of user) w.devices ≤ limit
capacity_holds limit user t =
    (Steps-IsWithin t (record { keyed = tt; within = λ u. omega arith })).within user

-- A session is started on the devices as they are: StartInTx runs in the transaction of a login,
-- which holds the locks of the user's and the device's rows from Authorize on, and Revoke and
-- SelfRevoke wait for them.
abbrev pub IsInTx : {limit : ℕ} {w v : World} → Step limit w v → Type 0
IsInTx (authorizes db a r) = Unit {0}
IsInTx (revokes db a user device audit_id now) = Unit {0}
IsInTx (self_revokes db r) = Unit {0}
IsInTx {limit} {w} (starts_session db dir c) = (a : Accounts) × (dir ≡ directory a w.devices)
IsInTx (rotates db dir k n now) = Unit {0}
IsInTx (revokes_family db family reason now) = Unit {0}
IsInTx (revokes_token db k now) = Unit {0}

abbrev pub AllInTx : {limit : ℕ} {w v : World} → Steps limit w v → Type 0
AllInTx here = Unit {0}
AllInTx (next t st) = AllInTx t × IsInTx st

Step-IsSound : {limit : ℕ} {w v : World} (st : Step limit w v) → IsInTx st → IsSound w → IsSound v
Step-IsSound {limit} {w} (authorizes db a r) _ h =
    Change-IsSound (authorize-Change db a limit w r) h
Step-IsSound {limit} {w} (revokes db a user device audit_id now) _ h =
    Change-IsSound (revoke-Change db a limit w user device audit_id now) h
Step-IsSound {limit} {w} (self_revokes db r) _ h =
    Change-IsSound (self_revoke-Change db no_backup limit w r) h
Step-IsSound {limit} {w} (starts_session db dir c) (a, same) h = record {
  keyed = h.keyed;
  bound = rw same (create_session-AllBound a w.devices h.keyed db w.sessions h.bound c);
}
Step-IsSound {limit} {w} (rotates db dir k n now) _ h = record {
  keyed = h.keyed;
  bound = rotate-AllBound no_backup w.devices h.keyed db w.sessions h.bound dir k n now;
}
Step-IsSound {limit} {w} (revokes_family db family reason now) _ h = record {
  keyed = h.keyed;
  bound =
      revoke_family-AllBound no_backup w.devices h.keyed db w.sessions h.bound family reason now;
}
Step-IsSound {limit} {w} (revokes_token db k now) _ h = record {
  keyed = h.keyed;
  bound = revoke_by_token-AllBound no_backup w.devices h.keyed db w.sessions h.bound k now;
}

-- From empty tables, over steps that start sessions only in the transaction of a login (StartInTx,
-- not Start, whose check and INSERT are two transactions), device ids stay unique, and every session
-- that is not revoked is of a device that is not revoked and belongs to the session's user.
pub Steps-IsSound : (limit : ℕ) {w : World} (t : Steps limit empty_world w) → AllInTx t → IsSound w
Steps-IsSound limit here _ = record { keyed = tt; bound = tt }
Steps-IsSound limit (next t st) (before, this) = Step-IsSound st this (Steps-IsSound limit t before)
