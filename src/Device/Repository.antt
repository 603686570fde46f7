-- ===== src/Device/Repository.antt =====
-- The transactions of internal/device/repository.go, each a step from the rows to the answer and
-- the new rows. The advisory lock and `FOR UPDATE` make each of them one step.
pub mod Cases
use aera_cloud.Prelude.{
  ℕ, Bool, true, false, ◌&&◌, ◌||◌, not, Option, none, some, List, [], ◌∷◌, Bytes, bytes_eq, length,
  any, find, update_where, count_where, is_some, Result, ok, err, ◌==◌, ltb, if◌then◌else◌,
}
use aera_cloud.Postgres.{settle, is_uncommitted}
use aera_cloud.Session.Table.{device_is_active, revoke as revoke_session}
use aera_cloud.Device.Model.{
  DeviceError, invalid_device, limit_reached, conflict, not_found, account_unavailable, unavailable,
  self_revoke_replay, Device, AuthorizationRecord, SelfRevocationRecord,
}
use aera_cloud.Device.Table.{
  World, AuditEvent, Accounts, Faults, has_id, has_installation, is_unrevoked, is_active_of,
  account_active, has_capacity, clear_desktop_control, reauthorize, new_device, identity_taken,
  revoke_device, of_device, end_session, revoke_issuance, is_nonce, add_audit,
}

abbrev pub has_taken_id : AuthorizationRecord → List Device → Bool
has_taken_id r ds = any (has_id r.device_id) ds

abbrev authorized_event : AuthorizationRecord → ℕ → AuditEvent
authorized_event r device = record {
  id = r.audit_event_id;
  event_type = "device_authorized";
  actor_user_id = r.user_id;
  device_id = device;
  created_at = r.authorized_at;
}

unfoldable pub reauthorized_world : AuthorizationRecord → Device → World → World
reauthorized_world r e w =
    add_audit (authorized_event r e.id)
      (record w { devices = update_where (has_id e.id) (reauthorize r) w.devices })

unfoldable pub new_world : AuthorizationRecord → World → World
new_world r w =
    add_audit (authorized_event r r.device_id) (record w { devices = new_device r ∷ w.devices })

-- The UPDATE and the audit event of an installation that is known.
unfoldable pub reauthorized :
    Faults → AuthorizationRecord → Device → World → Result DeviceError Device × World
reauthorized db r e w =
    if db.write || db.audit
    then (err unavailable, w)
    else (ok (reauthorize r e), reauthorized_world r e w)

-- A known installation that was another account's.
unfoldable pub take_over :
    Faults → Accounts → AuthorizationRecord → Device → World → Result DeviceError Device × World
take_over db a r e w =
    if db.backup
    then (err unavailable, w)
    else if a.has_backup e.id
    then (err conflict, w)
    else if db.clear_commands || db.clear_instances
    then (err unavailable, w)
    else reauthorized db r e (clear_desktop_control e.id w)

unfoldable pub authorize_known :
    Faults → Accounts → AuthorizationRecord → ℕ → Device → World → Result DeviceError Device × World
authorize_known db a r limit e w =
    if not (bytes_eq e.public_key r.public_key)
    then (err conflict, w)
    else if not (e.user_id == r.user_id) && is_unrevoked e.status
    then (err conflict, w)
    else if not (device_is_active e.status) && db.count
    then (err unavailable, w)
    else if not (device_is_active e.status) && not (has_capacity r.user_id limit w.devices)
    then (err limit_reached, w)
    else if not (e.user_id == r.user_id)
    then take_over db a r e w
    else reauthorized db r e w

-- The primary key is checked first: its violation is no conflict of the identity.
unfoldable pub authorize_new :
    Faults → AuthorizationRecord → ℕ → World → Result DeviceError Device × World
authorize_new db r limit w =
    if db.count
    then (err unavailable, w)
    else if not (has_capacity r.user_id limit w.devices)
    then (err limit_reached, w)
    else if db.write || has_taken_id r w.devices
    then (err unavailable, w)
    else if identity_taken r w.devices
    then (err conflict, w)
    else if db.audit
    then (err unavailable, w)
    else (ok (new_device r), new_world r w)

unfoldable pub authorize_found :
    Faults
    → Accounts
    → AuthorizationRecord
    → ℕ
    → Option Device
    → World
    → Result DeviceError Device × World
authorize_found db a r limit none w = authorize_new db r limit w
authorize_found db a r limit (some e) w = authorize_known db a r limit e w

-- AuthorizeInTx: what it wrote before an error is left to the rollback of its caller.
unfoldable pub authorize_in_tx :
    Faults → Accounts → AuthorizationRecord → ℕ → World → Result DeviceError Device × World
authorize_in_tx db a r limit w =
    if db.lock || db.account
    then (err unavailable, w)
    else if not (account_active r.user_id a.users)
    then (err account_unavailable, w)
    else if db.read
    then (err unavailable, w)
    else authorize_found db a r limit (find (has_installation r.installation_id) w.devices) w

abbrev pub commit_authorized :
    Faults → World → Result DeviceError Device × World → Result DeviceError Device × World
commit_authorized db old (err e, w) = (err e, old)
commit_authorized db old (ok d, w) = settle db.commit unavailable old w (ok d)

unfoldable pub authorize :
    Faults → Accounts → AuthorizationRecord → ℕ → World → Result DeviceError Device × World
authorize db a r limit w =
    if db.begin
    then (err unavailable, w)
    else commit_authorized db w (authorize_in_tx db a r limit w)

-- id = $1 AND user_id = $2 AND status <> 'revoked'
abbrev pub is_revocable : ℕ → ℕ → Device → Bool
is_revocable user device d = has_id device d && d.user_id == user && is_unrevoked d.status

unfoldable pub revoked_world : ℕ → ℕ → ℕ → ℕ → World → World
revoked_world user device audit_id now w =
    add_audit
      (record {
        id = audit_id;
        event_type = "device_revoked";
        actor_user_id = user;
        device_id = device;
        created_at = now;
      })
      (record w {
        devices = update_where (is_revocable user device) (revoke_device now) w.devices;
        sessions =
            update_where (λ s. of_device device s && not (is_some s.revoked_at)) (end_session now)
              w.sessions;
        issuances = update_where (λ i. i.device_id == device) (revoke_issuance now) w.issuances;
      })

-- Revoke.
unfoldable pub revoke :
    Faults → Accounts → ℕ → ℕ → ℕ → ℕ → World → Result DeviceError (Unit {0}) × World
revoke db a user device audit_id now w =
    if db.begin || db.lock || db.account
    then (err unavailable, w)
    else if not (account_active user a.users)
    then (err account_unavailable, w)
    else if db.write
    then (err unavailable, w)
    else if not (count_where (is_revocable user device) w.devices == 1)
    then (err not_found, w)
    else if db.sessions || db.issuances || db.audit
    then (err unavailable, w)
    else settle db.commit unavailable w (revoked_world user device audit_id now w) (ok tt)

-- ORDER BY last_seen_at DESC, id.
abbrev pub is_before : Device → Device → Bool
is_before d e =
    ltb e.last_seen_at d.last_seen_at || d.last_seen_at == e.last_seen_at && not (ltb e.id d.id)

unfoldable pub insert_ordered : Device → List Device → List Device
insert_ordered d [] = d ∷ []
insert_ordered d (e ∷ es) =
    let rest = insert_ordered d es in if is_before d e then d ∷ e ∷ es else e ∷ rest

-- The SELECT of the user's active devices.
unfoldable pub select_active : ℕ → List Device → List Device
select_active user [] = []
select_active user (d ∷ ds) =
    let rest = select_active user ds in if is_active_of user d then insert_ordered d rest else rest

unfoldable pub list : Faults → Accounts → ℕ → World → Result DeviceError (List Device)
list db a user w =
    if user == 0
    then err invalid_device
    else if db.begin || db.account
    then err unavailable
    else if not (account_active user a.users)
    then err account_unavailable
    else if db.read || is_uncommitted db.commit
    then err unavailable
    else ok (select_active user w.devices)

unfoldable pub found_for_self_revoke : Option Device → Result DeviceError Device
found_for_self_revoke none = err not_found
found_for_self_revoke (some d) = ok d

unfoldable pub find_for_self_revoke : Faults → ℕ → World → Result DeviceError Device
unfolding found_for_self_revoke
find_for_self_revoke db device w =
    if device == 0
    then err invalid_device
    else if db.read
    then err unavailable
    else found_for_self_revoke (find (has_id device) w.devices)

unfoldable pub valid_self_revocation : SelfRevocationRecord → Bool
valid_self_revocation r =
    not (r.user_id == 0)
    && not (r.device_id == 0)
    && not (r.installation_id == 0)
    && length r.nonce_hash == 32
    && not (r.audit_event_id == 0)
    && not (r.revoked_at == 0)

unfoldable pub self_revoked_world : SelfRevocationRecord → World → World
self_revoked_world r w =
    add_audit
      (record {
        id = r.audit_event_id;
        event_type = "device_self_revoked";
        actor_user_id = r.user_id;
        device_id = r.device_id;
        created_at = r.revoked_at;
      })
      (record w {
        nonces =
            record { device_id = r.device_id; nonce_hash = r.nonce_hash; used_at = r.revoked_at }
            ∷ w.nonces;
        devices = update_where (has_id r.device_id) (revoke_device r.revoked_at) w.devices;
        sessions =
            update_where (of_device r.device_id) (revoke_session r.revoked_at "device_self_revoked")
              w.sessions;
        issuances =
            update_where (λ i. i.device_id == r.device_id) (revoke_issuance r.revoked_at)
              w.issuances;
      })

unfoldable pub self_revoke_found :
    Faults → SelfRevocationRecord → Option Device → World → Result DeviceError (Unit {0}) × World
self_revoke_found db r none w = (err not_found, w)
self_revoke_found db r (some d) w =
    if db.nonce
    then (err unavailable, w)
    else if any (is_nonce r.device_id r.nonce_hash) w.nonces
    then (err self_revoke_replay, w)
    else if not (d.user_id == r.user_id)
        || not (d.installation_id == r.installation_id)
        || not (device_is_active d.status)
    then (err not_found, w)
    else if db.write || db.sessions || db.issuances || db.audit
    then (err unavailable, w)
    else settle db.commit unavailable w (self_revoked_world r w) (ok tt)

-- SelfRevoke.
unfoldable pub self_revoke :
    Faults → SelfRevocationRecord → World → Result DeviceError (Unit {0}) × World
self_revoke db r w =
    if not (valid_self_revocation r)
    then (err invalid_device, w)
    else if db.begin || db.read
    then (err unavailable, w)
    else self_revoke_found db r (find (has_id r.device_id) w.devices) w
