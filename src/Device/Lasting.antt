-- ===== src/Device/Lasting.antt =====
-- What a change of devices keeps of the sessions, the nonces and the identity of an installation
-- (internal/device/repository.go).
use aera_cloud.Prelude.{
  ℕ, ◌≡◌, refl, ap, Bool, true, false, ◌&&◌, not, Option, none, some, Bytes, arith, inl, inr, any,
  find, update_where, is_some, bytes_eq, find-any, find-update, any-or, Bool-cases, Option-cases,
  ◌==◌, if◌then◌else◌,
}
use aera_cloud.Session.Table.{has_id as has_session_id, revoke as revoke_session}
use aera_cloud.Device.Model.{Device, AuthorizationRecord, SelfRevocationRecord}
use aera_cloud.Device.Table.{
  World, Accounts, has_id, has_installation, clear_desktop_control, reauthorize, new_device,
  revoke_device, end_session, of_device, add_audit, is_nonce, identity_taken,
}
use aera_cloud.Device.Repository.{
  reauthorized_world, new_world, is_revocable, revoked_world, self_revoked_world,
}
use aera_cloud.Device.Repository.Cases.{
  Change, unchanged, returns, takes_over, creates, revokes, self_revokes,
}
use aera_cloud.Device.Ended.{IsEnded, IsEnded-update, IsEnded-revoke, IsEnded-all}

pub Change-IsEnded :
    (i device : ℕ) {a : Accounts} {limit : ℕ} {w v : World}
    → Change a limit w v
    → IsEnded i device w.sessions
    → IsEnded i device v.sessions
unfolding revoked_world self_revoked_world reauthorized_world new_world add_audit
    clear_desktop_control
Change-IsEnded i device unchanged h = h
Change-IsEnded i device (returns r e ret own) h = h
Change-IsEnded i device (takes_over r e ret other free) h = h
Change-IsEnded i device (creates r new) h = h
Change-IsEnded i device {w = w} (revokes user d audit_id now one) h =
    IsEnded-update i device _ (end_session now) (λ s. unfold end_session in refl)
      (λ s e. unfold end_session in ground (arith, e)) w.sessions h
Change-IsEnded i device {w = w} (self_revokes r d found on fresh) h =
    IsEnded-revoke i device (of_device r.device_id) r.revoked_at w.sessions h "device_self_revoked"

-- Right after a revocation, a session of the device is ended.
module _ (i : ℕ) (w : World) (there : any (has_session_id i) w.sessions ≡ true) where
  pub revoked_world-IsEnded :
      (user device audit_id now : ℕ)
      → IsEnded i device (revoked_world user device audit_id now w).sessions
  unfolding revoked_world add_audit
  revoked_world-IsEnded user device audit_id now =
      IsEnded-all i device (λ s. of_device device s && not (is_some s.revoked_at)) (end_session now)
        (λ s. unfold end_session in refl) (λ s hit. unfold end_session in ground arith)
        (λ s miss. ground (arith, miss)) w.sessions there

  pub self_revoked_world-IsEnded :
      (r : SelfRevocationRecord) → IsEnded i r.device_id (self_revoked_world r w).sessions
  unfolding self_revoked_world add_audit
  self_revoked_world-IsEnded r =
      IsEnded-all i r.device_id (of_device r.device_id)
        (revoke_session r.revoked_at "device_self_revoked") (λ s. unfold revoke_session in refl)
        (λ s hit. unfold revoke_session in ground arith) (λ s miss. ground (arith, miss)) w.sessions
        there

-- A nonce that was used for a device.
pub Change-used :
    (device : ℕ) (nonce : Bytes) {a : Accounts} {limit : ℕ} {w v : World}
    → Change a limit w v
    → any (is_nonce device nonce) w.nonces ≡ true
    → any (is_nonce device nonce) v.nonces ≡ true
unfolding revoked_world self_revoked_world reauthorized_world new_world add_audit
    clear_desktop_control
Change-used device nonce unchanged h = h
Change-used device nonce (returns r e ret own) h = h
Change-used device nonce (takes_over r e ret other free) h = h
Change-used device nonce (creates r new) h = h
Change-used device nonce (revokes user d audit_id now one) h = h
Change-used device nonce (self_revokes r d found on fresh) h = ground (arith, h)

-- The installation is that of the device with this id and this key.
abbrev pub is_identity : ℕ → Bytes → Option Device → Bool
is_identity i key none = false
is_identity i key (some d) = d.id == i && bytes_eq d.public_key key

abbrev pub IsInstalled : ℕ → ℕ → Bytes → World → Type 0
IsInstalled installation i key w =
    is_identity i key (find (has_installation installation) w.devices) ≡ true

module _ (installation i : ℕ) (key : Bytes) where
  IsInstalled-update :
      (p : Device → Bool) (f : Device → Device)
      → ((d : Device)
          → ((f d).id ≡ d.id)
            × ((f d).installation_id ≡ d.installation_id)
            × ((f d).public_key ≡ d.public_key))
      → (w v : World) → v.devices ≡ update_where p f w.devices
      → IsInstalled installation i key w
      → IsInstalled installation i key v
  IsInstalled-update p f same w v e h =
      elim (Option-cases (find (has_installation installation) w.devices)) [
        | inl miss ↦ absurd (cc (h, ap (is_identity i key) miss))
        | inr (d, found) ↦
            let there =
              find-update (has_installation installation) p f
                (λ x. ap (λ k. k == installation) (same x).1) w.devices d found in
            rw (e, there) (kept d (rw found at h))
      ]
    where
      kept :
          (d : Device)
          → is_identity i key (some d) ≡ true
          → is_identity i key (some (if p d then f d else d)) ≡ true
      kept d h = elim (Bool-cases (p d)) [
        | inl hit ↦ rw (hit, (same d).0, (same d).2) h
        | inr miss ↦ rw miss h
      ]

  IsInstalled-insert :
      (r : AuthorizationRecord) (w : World)
      → identity_taken r w.devices ≡ false
      → IsInstalled installation i key w
      → IsInstalled installation i key (new_world r w)
  unfolding identity_taken new_world add_audit
  IsInstalled-insert r w free h = elim (Bool-cases (r.installation_id == installation)) [
    | inl hit ↦ elim (Option-cases (find (has_installation installation) w.devices)) [
      | inl e ↦ absurd (cc (h, ap (is_identity i key) e))
      | inr (d, e) ↦
          let same : r.installation_id ≡ installation = ground (arith, hit) in
          let none_such =
            (any-or (has_installation r.installation_id) (λ d. bytes_eq d.public_key r.public_key)
              w.devices free).0 in
          absurd (cc (rw same at none_such, find-any _ w.devices d e))
    ]
    | inr miss ↦ unfold new_device in rw miss h
  ]

  pub Change-IsInstalled :
      {a : Accounts} {limit : ℕ} {w v : World}
      → Change a limit w v
      → IsInstalled installation i key w
      → IsInstalled installation i key v
  unfolding revoked_world self_revoked_world reauthorized_world add_audit clear_desktop_control
  Change-IsInstalled unchanged h = h
  Change-IsInstalled {w = w} {v = v} (returns r e ret own) h =
      IsInstalled-update (has_id e.id) (reauthorize r)
        (λ d. unfold reauthorize in (refl, refl, refl)) w v refl h
  Change-IsInstalled {w = w} {v = v} (takes_over r e ret other free) h =
      IsInstalled-update (has_id e.id) (reauthorize r)
        (λ d. unfold reauthorize in (refl, refl, refl)) w v refl h
  Change-IsInstalled {w = w} (creates r new) h = IsInstalled-insert r w new.fresh_identity h
  Change-IsInstalled {w = w} {v = v} (revokes user device audit_id now one) h =
      IsInstalled-update (is_revocable user device) (revoke_device now)
        (λ d. unfold revoke_device in (refl, refl, refl)) w v refl h
  Change-IsInstalled {w = w} {v = v} (self_revokes r d found on fresh) h =
      IsInstalled-update (has_id r.device_id) (revoke_device r.revoked_at)
        (λ d. unfold revoke_device in (refl, refl, refl)) w v refl h
