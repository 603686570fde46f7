-- ===== src/Device/Repository/Cases.antt =====
-- What the transactions of internal/device/repository.go may leave behind, whatever fails.
use aera_cloud.Prelude.{
  ℕ, ◌≡◌, refl, true, false, ◌&&◌, not, Option, none, some, arith, any, find, count_where, Result,
  ok, err, bytes_eq, if-cases, ◌||◌, ◌==◌,
}
use aera_cloud.Postgres.{settle-keeps}
use aera_cloud.Session.Table.{device_is_active}
use aera_cloud.Device.Model.{
  DeviceError, unavailable, Device, AuthorizationRecord, SelfRevocationRecord,
}
use aera_cloud.Device.Table.{
  World, Accounts, Faults, has_id, has_installation, is_unrevoked, has_capacity, identity_taken,
  account_active, reauthorize, new_device, clear_desktop_control, is_nonce,
}
use aera_cloud.Device.Repository.{
  has_taken_id, reauthorized_world, new_world, reauthorized, take_over, authorize_known,
  authorize_new, authorize_found, authorize_in_tx, commit_authorized, authorize, is_revocable,
  revoked_world, revoke, valid_self_revocation, self_revoked_world, self_revoke_found, self_revoke,
}

-- When a known installation may be authorized: its key is the same, it changes hands only from
-- `revoked`, and it becomes active only within the limit.
pub record IsReturn (r : AuthorizationRecord) (limit : ℕ) (e : Device) (w : World) : Type 0 where
  pub found : find (has_installation r.installation_id) w.devices ≡ some e
  pub same_key : bytes_eq e.public_key r.public_key ≡ true
  pub released : (e.user_id == r.user_id) ≡ false → is_unrevoked e.status ≡ false
  pub within : device_is_active e.status ≡ false → has_capacity r.user_id limit w.devices ≡ true

pub record IsNew (r : AuthorizationRecord) (limit : ℕ) (w : World) : Type 0 where
  pub unknown : find (has_installation r.installation_id) w.devices ≡ none
  pub within : has_capacity r.user_id limit w.devices ≡ true
  pub fresh_id : has_taken_id r w.devices ≡ false
  pub fresh_identity : identity_taken r w.devices ≡ false

-- What AuthorizeInTx may answer and leave.
pub data Authorized (a : Accounts) (r : AuthorizationRecord) (limit : ℕ) (w : World)
    : Result DeviceError Device × World → Type 0 where
  refused : (x : DeviceError) (v : World) → Authorized a r limit w (err x, v)
  returned :
      (e : Device)
      → IsReturn r limit e w
      → (e.user_id == r.user_id) ≡ true
      → Authorized a r limit w (ok (reauthorize r e), reauthorized_world r e w)
  taken_over :
      (e : Device)
      → IsReturn r limit e w
      → (e.user_id == r.user_id) ≡ false
      → a.has_backup e.id ≡ false
      → Authorized a r limit w
          (ok (reauthorize r e), reauthorized_world r e (clear_desktop_control e.id w))
  created : IsNew r limit w → Authorized a r limit w (ok (new_device r), new_world r w)

module _ (db : Faults) (a : Accounts) (r : AuthorizationRecord) (limit : ℕ) (w : World) where
  abbrev Fine : Result DeviceError Device × World → Type 0
  Fine = Authorized a r limit w

  reauthorized-Authorized :
      (e : Device)
      → IsReturn r limit e w
      → (e.user_id == r.user_id) ≡ true
      → Fine (reauthorized db r e w)
  unfolding reauthorized
  reauthorized-Authorized e h own =
      if-cases Fine (db.write || db.audit) (λ _. refused _ _) (λ _. returned e h own)

  take_over-Authorized :
      (e : Device)
      → IsReturn r limit e w
      → (e.user_id == r.user_id) ≡ false
      → Fine (take_over db a r e w)
  unfolding take_over reauthorized
  take_over-Authorized e h other =
      if-cases Fine db.backup (λ _. refused _ _)
        (λ _.
          if-cases Fine (a.has_backup e.id) (λ _. refused _ _)
            (λ free.
              if-cases Fine (db.clear_commands || db.clear_instances) (λ _. refused _ _)
                (λ _.
                  if-cases Fine (db.write || db.audit) (λ _. refused _ _)
                    (λ _. taken_over e h other free))))

  authorize_known-Authorized :
      (e : Device)
      → find (has_installation r.installation_id) w.devices ≡ some e
      → Fine (authorize_known db a r limit e w)
  unfolding authorize_known
  authorize_known-Authorized e found =
      if-cases Fine (not (bytes_eq e.public_key r.public_key)) (λ _. refused _ _)
        (λ key.
          if-cases Fine (not (e.user_id == r.user_id) && is_unrevoked e.status) (λ _. refused _ _)
            (λ own.
              if-cases Fine (not (device_is_active e.status) && db.count) (λ _. refused _ _)
                (λ _.
                  if-cases Fine
                    (not (device_is_active e.status)
                      && not (has_capacity r.user_id limit w.devices))
                    (λ _. refused _ _)
                    (λ room.
                      let h : IsReturn r limit e w = record {
                        found = found;
                        same_key = ground (arith, key);
                        released = λ o. ground (arith, own, o);
                        within = λ i. ground (arith, room, i);
                      } in
                      if-cases Fine (not (e.user_id == r.user_id))
                        (λ o. take_over-Authorized e h (ground (arith, o)))
                        (λ o. reauthorized-Authorized e h (ground (arith, o)))))))

  authorize_new-Authorized :
      find (has_installation r.installation_id) w.devices ≡ none → Fine (authorize_new db r limit w)
  unfolding authorize_new
  authorize_new-Authorized unknown =
      if-cases Fine db.count (λ _. refused _ _)
        (λ _.
          if-cases Fine (not (has_capacity r.user_id limit w.devices)) (λ _. refused _ _)
            (λ room.
              if-cases Fine (db.write || has_taken_id r w.devices) (λ _. refused _ _)
                (λ id.
                  if-cases Fine (identity_taken r w.devices) (λ _. refused _ _)
                    (λ key.
                      if-cases Fine db.audit (λ _. refused _ _)
                        (λ _. created (record {
                          unknown = unknown;
                          within = ground (arith, room);
                          fresh_id = ground (arith, id);
                          fresh_identity = key;
                        }))))))

  authorize_found-Authorized :
      (e : Option Device)
      → find (has_installation r.installation_id) w.devices ≡ e
      → Fine (authorize_found db a r limit e w)
  unfolding authorize_found
  authorize_found-Authorized none h = authorize_new-Authorized h
  authorize_found-Authorized (some e) h = authorize_known-Authorized e h

  -- AuthorizeInTx does what `Authorized` allows, under any faults.
  pub authorize_in_tx-Authorized : Fine (authorize_in_tx db a r limit w)
  unfolding authorize_in_tx
  authorize_in_tx-Authorized =
      if-cases Fine (db.lock || db.account) (λ _. refused _ _)
        (λ _.
          if-cases Fine (not (account_active r.user_id a.users)) (λ _. refused _ _)
            (λ _.
              if-cases Fine db.read (λ _. refused _ _) (λ _. authorize_found-Authorized _ refl)))

-- What a committed transaction may do to the rows.
pub data Change (a : Accounts) (limit : ℕ) (w : World) : World → Type 0 where
  unchanged : Change a limit w w
  returns :
      (r : AuthorizationRecord) (e : Device)
      → IsReturn r limit e w
      → (e.user_id == r.user_id) ≡ true
      → Change a limit w (reauthorized_world r e w)
  takes_over :
      (r : AuthorizationRecord) (e : Device)
      → IsReturn r limit e w
      → (e.user_id == r.user_id) ≡ false
      → a.has_backup e.id ≡ false
      → Change a limit w (reauthorized_world r e (clear_desktop_control e.id w))
  creates : (r : AuthorizationRecord) → IsNew r limit w → Change a limit w (new_world r w)
  revokes :
      (user device audit_id now : ℕ)
      → count_where (is_revocable user device) w.devices ≡ 1
      → Change a limit w (revoked_world user device audit_id now w)
  self_revokes :
      (r : SelfRevocationRecord) (d : Device)
      → find (has_id r.device_id) w.devices ≡ some d
      → device_is_active d.status ≡ true
      → any (is_nonce r.device_id r.nonce_hash) w.nonces ≡ false
      → Change a limit w (self_revoked_world r w)

module _ (db : Faults) (a : Accounts) (limit : ℕ) (w : World) where
  committed-Change :
      (r : AuthorizationRecord) {out : Result DeviceError Device × World}
      → Authorized a r limit w out
      → Change a limit w (commit_authorized db w out).1
  committed-Change r (refused x v) = unchanged
  committed-Change r (returned e h own) =
      settle-keeps (Change a limit w) db.commit unavailable (ok (reauthorize r e)) unchanged
        (returns r e h own)
  committed-Change r (taken_over e h other free) =
      settle-keeps (Change a limit w) db.commit unavailable (ok (reauthorize r e)) unchanged
        (takes_over r e h other free)
  committed-Change r (created h) =
      settle-keeps (Change a limit w) db.commit unavailable (ok (new_device r)) unchanged
        (creates r h)

  pub authorize-Change : (r : AuthorizationRecord) → Change a limit w (authorize db a r limit w).1
  unfolding authorize
  authorize-Change r =
      if-cases (λ (o : Result DeviceError Device × World). Change a limit w o.1) db.begin
        (λ _. unchanged) (λ _. committed-Change r (authorize_in_tx-Authorized db a r limit w))

  abbrev Left : Result DeviceError (Unit {0}) × World → Type 0
  Left o = Change a limit w o.1

  pub revoke-Change :
      (user device audit_id now : ℕ) → Change a limit w (revoke db a user device audit_id now w).1
  unfolding revoke
  revoke-Change user device audit_id now =
      if-cases Left (db.begin || db.lock || db.account) (λ _. unchanged)
        (λ _.
          if-cases Left (not (account_active user a.users)) (λ _. unchanged)
            (λ _.
              if-cases Left db.write (λ _. unchanged)
                (λ _.
                  if-cases Left (not (count_where (is_revocable user device) w.devices == 1))
                    (λ _. unchanged)
                    (λ one.
                      if-cases Left (db.sessions || db.issuances || db.audit) (λ _. unchanged)
                        (λ _.
                          settle-keeps (Change a limit w) db.commit unavailable (ok tt) unchanged
                            (revokes user device audit_id now (ground (arith, one))))))))

  self_revoke_found-Change :
      (r : SelfRevocationRecord) (d : Option Device)
      → find (has_id r.device_id) w.devices ≡ d
      → Change a limit w (self_revoke_found db r d w).1
  unfolding self_revoke_found
  self_revoke_found-Change r none found = unchanged
  self_revoke_found-Change r (some d) found =
      if-cases Left db.nonce (λ _. unchanged)
        (λ _.
          if-cases Left (any (is_nonce r.device_id r.nonce_hash) w.nonces) (λ _. unchanged)
            (λ new.
              if-cases Left
                (not (d.user_id == r.user_id)
                  || not (d.installation_id == r.installation_id)
                  || not (device_is_active d.status))
                (λ _. unchanged)
                (λ mine.
                  if-cases Left (db.write || db.sessions || db.issuances || db.audit)
                    (λ _. unchanged)
                    (λ _.
                      settle-keeps (Change a limit w) db.commit unavailable (ok tt) unchanged
                        (self_revokes r d found (ground (arith, mine)) new)))))

  pub self_revoke-Change : (r : SelfRevocationRecord) → Change a limit w (self_revoke db r w).1
  unfolding self_revoke
  self_revoke-Change r =
      if-cases Left (not (valid_self_revocation r)) (λ _. unchanged)
        (λ _.
          if-cases Left (db.begin || db.read) (λ _. unchanged)
            (λ _. self_revoke_found-Change r _ refl))
