-- ===== src/Device/Authorizing.antt =====
-- What a successful Authorize needs and writes (internal/device/repository.go).
use aera_cloud.Prelude.{
  ℕ, ◌≡◌, ◌≢◌, ◌<◌, ◌⊎◌, ◌||◌, refl, subst, sym, true, false, ◌&&◌, none, some, List, [], ◌∷◌,
  arith, inl, inr, any, find, count_where, update_where, Result, ok, err, is_ok, bytes_eq, ◌==◌,
  Bool-cases, if-cases,
}
use aera_cloud.Postgres.{Commit, committed, aborted, unacknowledged}
use aera_cloud.Session.Table.{DeviceStatus, device_is_active}
use aera_cloud.Device.Model.{DeviceError, Device, AuthorizationRecord}
use aera_cloud.Device.Table.{
  World, Accounts, Faults, is_unrevoked, account_active, has_capacity, reauthorize, new_device,
  clear_desktop_control, delete_device, add_audit, identity_taken,
}
use aera_cloud.Device.Repository.{
  reauthorized_world, new_world, authorize, authorize_in_tx, commit_authorized,
}
use aera_cloud.Device.Repository.Cases.{
  IsReturn, Authorized, refused, returned, taken_over, created, authorize_in_tx-Authorized,
}

abbrev active_count : ℕ → World → ℕ
active_count user w =
    count_where (λ (d : Device). d.user_id == user && device_is_active d.status) w.devices

-- A device `e` of the installation is there, and passes to the user or stays with it.
pub record IsKnown (a : Accounts) (r : AuthorizationRecord) (limit : ℕ) (w : World)
    (o : Result DeviceError Device × World) : Type 0 where
  pub e : Device
  pub found : find (λ (d : Device). d.installation_id == r.installation_id) w.devices ≡ some e
  pub same_key : bytes_eq e.public_key r.public_key ≡ true
  pub owner :
      (e.user_id ≡ r.user_id) ⊎ ((e.status ≡ DeviceStatus.revoked) × (a.has_backup e.id ≡ false))
  pub room : (e.status ≡ DeviceStatus.active) ⊎ (active_count r.user_id w < limit)
  pub answer :
      o.0
      ≡ ok (record e {
        user_id = r.user_id;
        display_name = r.display_name;
        platform = r.platform;
        app_version = r.app_version;
        status = DeviceStatus.active;
        last_seen_at = r.authorized_at;
        revoked_at = none;
      })
  pub devices :
      o.1.devices
      ≡ update_where
          (λ (d : Device). d.id == e.id)
          (λ d. record d {
            user_id = r.user_id;
            display_name = r.display_name;
            platform = r.platform;
            app_version = r.app_version;
            status = DeviceStatus.active;
            last_seen_at = r.authorized_at;
            revoked_at = none;
          })
          w.devices
  pub cleared :
      e.user_id ≢ r.user_id
      → (any (λ d. d == e.id) o.1.control_commands ≡ false)
        × (any (λ d. d == e.id) o.1.control_instances ≡ false)
  pub sessions : o.1.sessions ≡ w.sessions

-- A device of a new installation is added.
pub record IsAdded (r : AuthorizationRecord) (limit : ℕ) (w : World)
    (o : Result DeviceError Device × World) : Type 0 where
  pub fresh :
      any
        (λ (d : Device).
          d.installation_id == r.installation_id || bytes_eq d.public_key r.public_key)
        w.devices
      ≡ false
  pub fresh_id : any (λ (d : Device). d.id == r.device_id) w.devices ≡ false
  pub room : active_count r.user_id w < limit
  pub d : Device
  pub own : d ≡ record {
    id = r.device_id;
    user_id = r.user_id;
    installation_id = r.installation_id;
    public_key = r.public_key;
    display_name = r.display_name;
    platform = r.platform;
    app_version = r.app_version;
    status = DeviceStatus.active;
    last_seen_at = r.authorized_at;
    revoked_at = none;
  }
  pub answer : o.0 ≡ ok d
  pub devices : o.1.devices ≡ d ∷ w.devices
  pub sessions : o.1.sessions ≡ w.sessions

unrevoked-false : (s : DeviceStatus) → is_unrevoked s ≡ false → s ≡ DeviceStatus.revoked
unrevoked-false DeviceStatus.active e = absurd (cc e)
unrevoked-false DeviceStatus.inactive e = absurd (cc e)
unrevoked-false DeviceStatus.revoked e = refl

is_active-true : (s : DeviceStatus) → device_is_active s ≡ true → s ≡ DeviceStatus.active
is_active-true DeviceStatus.active e = refl
is_active-true DeviceStatus.inactive e = absurd (cc e)
is_active-true DeviceStatus.revoked e = absurd (cc e)

any-delete_device : (d : ℕ) (ds : List ℕ) → any (λ x. x == d) (delete_device d ds) ≡ false
unfolding delete_device
any-delete_device d [] = refl
any-delete_device d (x ∷ xs) = ground (arith, any-delete_device d xs)

returned-room :
    (r : AuthorizationRecord) (limit : ℕ) (e : Device) (w : World)
    → IsReturn r limit e w
    → (e.status ≡ DeviceStatus.active) ⊎ (active_count r.user_id w < limit)
unfolding has_capacity
returned-room r limit e w h = elim (Bool-cases (device_is_active e.status)) [
  | inl on ↦ inl (is_active-true e.status on)
  | inr off ↦ inr (ground (arith, h.within off))
]

Authorized-ok :
    (a : Accounts) (r : AuthorizationRecord) (limit : ℕ) (w : World)
    (o : Result DeviceError Device × World)
    → Authorized a r limit w o
    → is_ok o.0 ≡ true
    → IsKnown a r limit w o ⊎ IsAdded r limit w o
unfolding reauthorize reauthorized_world new_world new_device add_audit clear_desktop_control
    has_capacity identity_taken
Authorized-ok a r limit w o (refused x v) k = absurd (cc k)
Authorized-ok a r limit w o (returned e h own) k =
    let same : e.user_id ≡ r.user_id = ground (arith, own) in
    inl (record {
      e = e;
      found = h.found;
      same_key = h.same_key;
      owner = inl same;
      room = returned-room r limit e w h;
      answer = refl;
      devices = refl;
      cleared = λ other. absurd (other same);
      sessions = refl;
    })
Authorized-ok a r limit w o (taken_over e h other free) k = inl (record {
  e = e;
  found = h.found;
  same_key = h.same_key;
  owner = inr (unrevoked-false e.status (h.released other), free);
  room = returned-room r limit e w h;
  answer = refl;
  devices = refl;
  cleared =
      λ _. (any-delete_device e.id w.control_commands, any-delete_device e.id w.control_instances);
  sessions = refl;
})
Authorized-ok a r limit w o (created h) k = inr (record {
  fresh = h.fresh_identity;
  fresh_id = h.fresh_id;
  room = ground (arith, h.within);
  d = new_device r;
  own = refl;
  answer = refl;
  devices = refl;
  sessions = refl;
})

commit_authorized-ok :
    (db : Faults) (old : World) (o : Result DeviceError Device × World)
    → is_ok (commit_authorized db old o).0 ≡ true
    → commit_authorized db old o ≡ o
commit_authorized-ok db old (err e, w) k = absurd (cc k)
commit_authorized-ok db old (ok d, w) k = by_commit db.commit refl
  where
    by_commit : (c : Commit) → db.commit ≡ c → commit_authorized db old (ok d, w) ≡ (ok d, w)
    by_commit committed e = rw e refl
    by_commit aborted e = absurd (ground (arith, e, k))
    by_commit unacknowledged e = absurd (ground (arith, e, k))

in_tx-account :
    (db : Faults) (a : Accounts) (r : AuthorizationRecord) (limit : ℕ) (w : World)
    → is_ok (authorize_in_tx db a r limit w).0 ≡ true
    → account_active r.user_id a.users ≡ true
unfolding authorize_in_tx
in_tx-account db a r limit w o = ground (arith, o)

-- An Authorize that answers ok, under any faults, is for an active account, and leaves the sessions
-- as they are. The installation has a device with the same key, which is the account's, or was
-- revoked and has no backup, and which is active or finds room within the limit: that row, and no
-- other, is made active and the account's, and a device that changes hands loses the commands and
-- instances of desktop control. Or the installation, the key and the id are new and there is room
-- within the limit: then one active device of the account is added.
pub authorize_ok_effect :
    (db : Faults) (a : Accounts) (r : AuthorizationRecord) (limit : ℕ) (w : World)
    → is_ok (authorize db a r limit w).0 ≡ true
    → (account_active r.user_id a.users ≡ true)
      × (IsKnown a r limit w (authorize db a r limit w)
          ⊎ IsAdded r limit w (authorize db a r limit w))
unfolding authorize
authorize_ok_effect db a r limit w =
    if-cases (λ y. is_ok y.0 ≡ true → (account_active r.user_id a.users ≡ true) × Case y) db.begin
      (λ _ k. absurd (cc k))
      (λ _ k.
        let x = authorize_in_tx db a r limit w in
        let done = commit_authorized-ok db w x k in
        let fine = subst (λ (y : Result DeviceError Device × World). is_ok y.0 ≡ true) done k in
        (
          in_tx-account db a r limit w fine,
          subst Case (sym done)
              (Authorized-ok a r limit w x (authorize_in_tx-Authorized db a r limit w) fine),
        ))
  where
    Case : Result DeviceError Device × World → Type 0
    Case y = IsKnown a r limit w y ⊎ IsAdded r limit w y
