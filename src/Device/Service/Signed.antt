-- ===== src/Device/Service/Signed.antt =====
-- Who may revoke a device without a session: SelfRevoke of internal/device/service.go.
use aera_cloud.Prelude.{
  ℕ, ◌≡◌, ◌≤◌, ◌+◌, ◌*◌, refl, sym, subst, true, false, ◌||◌, not, Option, none, some, arith, find,
  any, length, is_ok, ok, err, Result, ◌==◌, if-cases, inl, inr, Option-cases,
}
use aera_cloud.Session.Table.{device_is_active}
use aera_cloud.Device.Model.{Device, DeviceError, SelfRevokeCommand}
use aera_cloud.Device.Table.{World, Faults, has_id, is_nonce}
use aera_cloud.Device.Repository
use aera_cloud.Device.Repository.{find_for_self_revoke, found_for_self_revoke, self_revoke_found}
use aera_cloud.Device.Service.{
  Service, Draws, self_revoke, self_revoke_selected, self_revoke_drawn, self_revocation,
  self_revoke_digest, nonce_hash, is_signed, is_stale,
}

-- What a SelfRevoke that answered ok had.
pub record IsSigned (s : Service) (c : SelfRevokeCommand) (now : ℕ) (w : World) : Type 0 where
  pub device : Device
  pub found : find (has_id c.device_id) w.devices ≡ some device
  pub installation : device.installation_id ≡ c.installation_id
  pub status : device_is_active device.status ≡ true
  pub signed : s.verify device.public_key (self_revoke_digest s c) c.signature ≡ true
  pub not_old : now ≤ c.timestamp * 1000 + 120000
  pub not_early : c.timestamp * 1000 ≤ now + 120000
  pub unused : any (is_nonce c.device_id (nonce_hash s c.nonce)) w.nonces ≡ false

module _ (s : Service) (db : Faults) (c : SelfRevokeCommand) (now : ℕ) (w : World) where
  -- The transaction looked at the row that FindForSelfRevoke gave.
  recorded_ok :
      (d : Device) (audit : ℕ)
      → find (has_id d.id) w.devices ≡ some d
      → is_ok (Repository.self_revoke db (self_revocation s c now d audit) w).0 ≡ true
      → (device_is_active d.status ≡ true)
        × (any (is_nonce d.id (nonce_hash s c.nonce)) w.nonces ≡ false)
  unfolding Repository.self_revoke self_revoke_found self_revocation
  recorded_ok d audit found o = ground (arith, found, o)

  drawn_ok :
      (d : Device) (audit : Option ℕ)
      → find (has_id d.id) w.devices ≡ some d
      → is_ok (self_revoke_drawn s db c now d w audit).0 ≡ true
      → (device_is_active d.status ≡ true)
        × (any (is_nonce d.id (nonce_hash s c.nonce)) w.nonces ≡ false)
  unfolding self_revoke_drawn
  drawn_ok d none found o = absurd (cc o)
  drawn_ok d (some audit) found o = recorded_ok d audit found o

  read_ok :
      (read : Faults) (d : Device)
      → find_for_self_revoke read c.device_id w ≡ ok d
      → find (has_id c.device_id) w.devices ≡ some d
  unfolding find_for_self_revoke found_for_self_revoke
  read_ok read d e = elim (Option-cases (find (has_id c.device_id) w.devices)) [
    | inl f ↦ ground (arith, e, f)
    | inr (x, f) ↦ ground (arith, e, f)
  ]

  selected-IsSigned :
      (draws : Draws) (x : Result DeviceError Device)
      → ((d : Device) → x ≡ ok d → find (has_id c.device_id) w.devices ≡ some d)
      → draws.now ≡ now
      → is_stale now c.timestamp ≡ false
      → is_ok (self_revoke_selected s db draws c w x).0 ≡ true
      → IsSigned s c now w
  unfolding self_revoke_selected is_signed is_stale
  selected-IsSigned draws (err e) found clock fresh = λ o. absurd (cc o)
  selected-IsSigned draws (ok d) found clock fresh =
      if-cases
        (λ (y : Result DeviceError (Unit {0}) × World). is_ok y.0 ≡ true → IsSigned s c now w)
        (not (is_signed s c d)) (λ _ o. absurd (cc o))
        (λ proof o.
          let same : d.id ≡ c.device_id = ground (arith, proof) in
          let row = found d refl in
          let own = subst (λ i. find (has_id i) w.devices ≡ some d) (sym same) row in
          let (on, unused) = drawn_ok d draws.audit_event_id own (rw clock at o) in
          record {
            device = d;
            found = row;
            installation = ground (arith, proof);
            status = on;
            signed = ground (arith, proof);
            not_old = ground (arith, fresh);
            not_early = ground (arith, fresh);
            unused =
                subst (λ i. any (is_nonce i (nonce_hash s c.nonce)) w.nonces ≡ false) same unused;
          })

-- A SelfRevoke, which carries no session, answers ok only to a request that is signed, over its
-- device, installation, time and nonce, by the key that is stored for the device: the device is
-- active and of that installation, the time is at most two minutes from the server's, and the nonce
-- was not used for it before.
pub self_revoke-IsSigned :
    (s : Service) (read db : Faults) (draws : Draws) (c : SelfRevokeCommand) (w : World)
    → is_ok (self_revoke s read db draws c w).0 ≡ true
    → IsSigned s c draws.now w
unfolding self_revoke
self_revoke-IsSigned s read db draws c w =
    if-cases Proven
      (c.device_id == 0
        || c.installation_id == 0
        || c.timestamp == 0
        || not (length c.nonce == 32)
        || not (length c.signature == 64))
      (λ _ o. absurd (cc o))
      (λ _.
        if-cases Proven (is_stale draws.now c.timestamp) (λ _ o. absurd (cc o))
          (λ fresh.
            selected-IsSigned s db c draws.now w draws _ (read_ok s db c draws.now w read) refl
              fresh))
  where
    Proven : Result DeviceError (Unit {0}) × World → Type 0
    Proven o = is_ok o.0 ≡ true → IsSigned s c draws.now w
