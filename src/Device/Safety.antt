-- ===== src/Device/Safety.antt =====
-- What a revocation of a device ends for good, over any interleaving of the transactions of
-- internal/device/repository.go and internal/session/repository.go.
use aera_cloud.Prelude.{
  ℕ, ◌≡◌, true, false, none, some, Bytes, arith, any, find, is_ok, ok, Option, Option-cases, inl,
  inr, bytes_eq_refl,
}
use aera_cloud.Session.Table.{Directory, has_id as has_session_id}
use aera_cloud.Session.Repository.{AccessBinding, access_row_active}
use aera_cloud.Device.Model.{Device, SelfRevocationRecord}
use aera_cloud.Device.Table.{World, Accounts, Faults, has_id, is_nonce, add_audit}
use aera_cloud.Device.Repository.{
  revoke, self_revoke, self_revoke_found, revoked_world, self_revoked_world,
}
use aera_cloud.Device.Repository.Cases.{authorize-Change, revoke-Change, self_revoke-Change}
use aera_cloud.Device.Ended.{
  IsEnded, create_session-IsEnded, rotate-IsEnded, revoke_family-IsEnded, revoke_by_token-IsEnded,
  IsEnded-refused,
}
use aera_cloud.Device.Lasting.{
  Change-IsEnded, revoked_world-IsEnded, self_revoked_world-IsEnded, Change-used, IsInstalled,
  Change-IsInstalled,
}
use aera_cloud.Device.Trace.{
  Step, authorizes, revokes, self_revokes, starts_session, rotates, revokes_family, revokes_token,
  Steps, here, next, no_backup,
}

Step-IsEnded :
    (i device : ℕ) {limit : ℕ} {w v : World}
    → Step limit w v
    → IsEnded i device w.sessions
    → IsEnded i device v.sessions
Step-IsEnded i device {limit} {w} (authorizes db a r) h =
    Change-IsEnded i device (authorize-Change db a limit w r) h
Step-IsEnded i device {limit} {w} (revokes db a user d audit_id now) h =
    Change-IsEnded i device (revoke-Change db a limit w user d audit_id now) h
Step-IsEnded i device {limit} {w} (self_revokes db r) h =
    Change-IsEnded i device (self_revoke-Change db no_backup limit w r) h
Step-IsEnded i device {limit} {w} (starts_session db dir c) h =
    create_session-IsEnded i device db w.sessions h dir c
Step-IsEnded i device {limit} {w} (rotates db dir k n now) h =
    rotate-IsEnded i device db w.sessions h dir k n now
Step-IsEnded i device {limit} {w} (revokes_family db family reason now) h =
    revoke_family-IsEnded i device db w.sessions h family reason now
Step-IsEnded i device {limit} {w} (revokes_token db k now) h =
    revoke_by_token-IsEnded i device db w.sessions h k now

Steps-IsEnded :
    (i device : ℕ) {limit : ℕ} {w v : World}
    → Steps limit w v
    → IsEnded i device w.sessions
    → IsEnded i device v.sessions
Steps-IsEnded i device here h = h
Steps-IsEnded i device (next t st) h = Step-IsEnded i device st (Steps-IsEnded i device t h)

revoke_ok :
    (db : Faults) (a : Accounts) (user device audit_id now : ℕ) (w : World)
    → (revoke db a user device audit_id now w).0 ≡ ok tt
    → (revoke db a user device audit_id now w).1 ≡ revoked_world user device audit_id now w
unfolding revoke
revoke_ok db a user device audit_id now w o = ground (arith, o)

-- A revocation of a device that answers ok ends the access of every session of that device for
-- good: after any steps, a new authorization of the device included, the access token of a session
-- that was in the table at the revocation does not pass AccessActive.
pub revoke_ends_access :
    (db : Faults) (a : Accounts) (user audit_id now later limit : ℕ) (dir : Directory)
    (b : AccessBinding) (w : World) {v : World}
    → any (has_session_id b.session_id) w.sessions ≡ true
    → (revoke db a user b.device_id audit_id now w).0 ≡ ok tt
    → Steps limit (revoke db a user b.device_id audit_id now w).1 v
    → access_row_active dir v.sessions b later ≡ false
revoke_ends_access db a user audit_id now later limit dir b w {v} there o t =
    IsEnded-refused dir v.sessions b later (
      Steps-IsEnded b.session_id b.device_id t (
        rw (revoke_ok db a user b.device_id audit_id now w o)
          (revoked_world-IsEnded b.session_id w there user b.device_id audit_id now)))

self_revoke_found-ok :
    (db : Faults) (r : SelfRevocationRecord) (d : Option Device) (w : World)
    → (self_revoke_found db r d w).0 ≡ ok tt
    → (self_revoke_found db r d w).1 ≡ self_revoked_world r w
unfolding self_revoke_found
self_revoke_found-ok db r none w o = ground (arith, o)
self_revoke_found-ok db r (some d) w o = ground (arith, o)

self_revoke_ok :
    (db : Faults) (r : SelfRevocationRecord) (w : World)
    → (self_revoke db r w).0 ≡ ok tt
    → (self_revoke db r w).1 ≡ self_revoked_world r w
unfolding self_revoke
self_revoke_ok db r w o =
    ground (arith, o, self_revoke_found-ok db r (find (has_id r.device_id) w.devices) w)

-- A self-revocation that answers ok ends the access of every session of the device in the same
-- way, for good.
pub self_revoke_ends_access :
    (db : Faults) (r : SelfRevocationRecord) (later limit : ℕ) (dir : Directory) (b : AccessBinding)
    (w : World) {v : World}
    → any (has_session_id b.session_id) w.sessions ≡ true
    → b.device_id ≡ r.device_id
    → (self_revoke db r w).0 ≡ ok tt
    → Steps limit (self_revoke db r w).1 v
    → access_row_active dir v.sessions b later ≡ false
self_revoke_ends_access db r later limit dir b w {v} there own o t =
    IsEnded-refused dir v.sessions b later (
      rw own (
        Steps-IsEnded b.session_id r.device_id t
          (rw (self_revoke_ok db r w o) (self_revoked_world-IsEnded b.session_id w there r))))

Step-used :
    (device : ℕ) (nonce : Bytes) {limit : ℕ} {w v : World}
    → Step limit w v
    → any (is_nonce device nonce) w.nonces ≡ true
    → any (is_nonce device nonce) v.nonces ≡ true
Step-used device nonce {limit} {w} (authorizes db a r) h =
    Change-used device nonce (authorize-Change db a limit w r) h
Step-used device nonce {limit} {w} (revokes db a user d audit_id now) h =
    Change-used device nonce (revoke-Change db a limit w user d audit_id now) h
Step-used device nonce {limit} {w} (self_revokes db r) h =
    Change-used device nonce (self_revoke-Change db no_backup limit w r) h
Step-used device nonce (starts_session db dir c) h = h
Step-used device nonce (rotates db dir k n now) h = h
Step-used device nonce (revokes_family db family reason now) h = h
Step-used device nonce (revokes_token db k now) h = h

Steps-used :
    (device : ℕ) (nonce : Bytes) {limit : ℕ} {w v : World}
    → Steps limit w v
    → any (is_nonce device nonce) w.nonces ≡ true
    → any (is_nonce device nonce) v.nonces ≡ true
Steps-used device nonce here h = h
Steps-used device nonce (next t st) h = Step-used device nonce st (Steps-used device nonce t h)

self_revoke_used :
    (db : Faults) (r : SelfRevocationRecord) (w : World)
    → any (is_nonce r.device_id r.nonce_hash) w.nonces ≡ true
    → is_ok (self_revoke db r w).0 ≡ false
unfolding self_revoke self_revoke_found
self_revoke_used db r w h = elim (Option-cases (find (has_id r.device_id) w.devices)) [
  | inl e ↦ ground (arith, e, h)
  | inr (d, e) ↦ ground (arith, e, h)
]

-- A signed self-revocation is accepted at most once: after a SelfRevoke that answers ok, no
-- SelfRevoke of the same device with the same nonce hash succeeds, whatever transactions on devices
-- and sessions run in between (the device may have been authorized again), as long as the nonce is
-- kept: the purge of nonces past their retention is not among the steps.
pub self_revoke_once :
    (db later : Faults) (r r' : SelfRevocationRecord) (limit : ℕ) (w : World) {v : World}
    → r'.device_id ≡ r.device_id
    → r'.nonce_hash ≡ r.nonce_hash
    → (self_revoke db r w).0 ≡ ok tt
    → Steps limit (self_revoke db r w).1 v
    → is_ok (self_revoke later r' v).0 ≡ false
self_revoke_once db later r r' limit w {v} device nonce o t = self_revoke_used later r' v (
    rw (device, nonce)
      (Steps-used r.device_id r.nonce_hash t (rw (self_revoke_ok db r w o) (used r))))
  where
    used :
        (r : SelfRevocationRecord)
        → any (is_nonce r.device_id r.nonce_hash) (self_revoked_world r w).nonces ≡ true
    used r = unfold self_revoked_world add_audit in ground (arith, bytes_eq_refl r.nonce_hash)

Step-IsInstalled :
    (installation i : ℕ) (key : Bytes) {limit : ℕ} {w v : World}
    → Step limit w v
    → IsInstalled installation i key w
    → IsInstalled installation i key v
Step-IsInstalled n i key {limit} {w} (authorizes db a r) h =
    Change-IsInstalled n i key (authorize-Change db a limit w r) h
Step-IsInstalled n i key {limit} {w} (revokes db a user d audit_id now) h =
    Change-IsInstalled n i key (revoke-Change db a limit w user d audit_id now) h
Step-IsInstalled n i key {limit} {w} (self_revokes db r) h =
    Change-IsInstalled n i key (self_revoke-Change db no_backup limit w r) h
Step-IsInstalled n i key (starts_session db dir c) h = h
Step-IsInstalled n i key (rotates db dir k m now) h = h
Step-IsInstalled n i key (revokes_family db family reason now) h = h
Step-IsInstalled n i key (revokes_token db k now) h = h

-- The identity of an installation is fixed by its row: the device id and the public key that are
-- stored for it stay the same over any transactions on devices and sessions, also when the device
-- passes to another account. The deletion of an account, which deletes its devices, is not among
-- these steps.
pub Steps-IsInstalled :
    (installation i : ℕ) (key : Bytes) {limit : ℕ} {w v : World}
    → Steps limit w v
    → IsInstalled installation i key w
    → IsInstalled installation i key v
Steps-IsInstalled n i key here h = h
Steps-IsInstalled n i key (next t st) h =
    Step-IsInstalled n i key st (Steps-IsInstalled n i key t h)
