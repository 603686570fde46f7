-- ===== src/Device/Capacity.antt =====
-- The limit of active devices of an account (internal/device/repository.go, hasCapacity).
use aera_cloud.Prelude.{
  ℕ, ◌+◌, ◌≤◌, ◌≡◌, refl, Bool, true, false, arith, inl, inr, count_where, update_where,
  count-update_le, Bool-cases, ◌==◌,
}
use aera_cloud.Session.Table.{device_is_active}
use aera_cloud.Device.Model.{Device, AuthorizationRecord}
use aera_cloud.Device.Table.{
  World, Accounts, has_id, is_active_of, has_capacity, is_unrevoked, clear_desktop_control,
  reauthorize, new_device, revoke_device, add_audit,
}
use aera_cloud.Device.Repository.{
  reauthorized_world, new_world, is_revocable, revoked_world, self_revoked_world,
}
use aera_cloud.Device.Repository.Cases.{
  IsReturn, IsNew, Change, unchanged, returns, takes_over, creates, revokes, self_revokes,
}
use aera_cloud.Prelude.{
  IsKeyed, IsKeyed-update, found-has_key, count-update_one, count-update_counted,
}
use aera_cloud.Device.Table.{device_key}

-- Ids are unique, and no account has more active devices than the limit.
pub record IsWithin (limit : ℕ) (w : World) : Type 0 where
  pub keyed : IsKeyed device_key w.devices
  pub within : (user : ℕ) → count_where (is_active_of user) w.devices ≤ limit

module _ (limit : ℕ) (w : World) (h : IsWithin limit w) where
  -- An installation that comes back counts for its new owner only, and there is room for it
  -- unless it is counted already.
  returned-count :
      (r : AuthorizationRecord) (e : Device) (user : ℕ)
      → IsReturn r limit e w
      → count_where (is_active_of user) (update_where (has_id e.id) (reauthorize r) w.devices)
        ≤ limit
  unfolding reauthorize
  returned-count r e user ret = elim (Bool-cases (r.user_id == user)) [
    | inl mine ↦
        let same : r.user_id ≡ user = ground (arith, mine) in
        elim (Bool-cases (device_is_active e.status)) [
          | inl on ↦ omega (
            arith,
            h.within user,
            count-update_counted device_key (is_active_of user) e.id (reauthorize r) w.devices e
                h.keyed (found-has_key device_key _ w.devices e h.keyed ret.found)
                (held e same on ret.released),
          )
          | inr off ↦ omega (
            arith,
            count-update_one device_key (is_active_of user) e.id (reauthorize r) w.devices h.keyed,
            room same (ret.within off),
          )
        ]
    | inr other ↦ omega (
      arith,
      h.within user,
      count-update_le (is_active_of user) (has_id e.id) (reauthorize r)
          (λ d now. ground (arith, other, now)) w.devices,
    )
  ]
    where
      held :
          (e : Device)
          → r.user_id ≡ user
          → device_is_active e.status ≡ true
          → ((e.user_id == r.user_id) ≡ false → is_unrevoked e.status ≡ false)
          → is_active_of user e ≡ true
      held e same on released = ground (arith, on, same, released)

      room :
          r.user_id ≡ user
          → has_capacity r.user_id limit w.devices ≡ true
          → count_where (is_active_of user) w.devices + 1 ≤ limit
      room same free = unfold has_capacity in rw (← same) (ground (arith, free))

  reauthorized_world-IsWithin :
      (r : AuthorizationRecord) (e : Device)
      → IsReturn r limit e w
      → IsWithin limit (reauthorized_world r e w)
  unfolding reauthorized_world add_audit
  reauthorized_world-IsWithin r e ret = record {
    keyed =
        unfold reauthorize in
        IsKeyed-update device_key (has_id e.id) (reauthorize r) (λ d. refl) w.devices h.keyed;
    within = λ user. returned-count r e user ret;
  }

  taken_world-IsWithin :
      (r : AuthorizationRecord) (e : Device)
      → IsReturn r limit e w
      → IsWithin limit (reauthorized_world r e (clear_desktop_control e.id w))
  unfolding reauthorized_world add_audit clear_desktop_control
  taken_world-IsWithin r e ret = record {
    keyed = (reauthorized_world-IsWithin r e ret).keyed;
    within = λ user. returned-count r e user ret;
  }

  new_world-IsWithin : (r : AuthorizationRecord) → IsNew r limit w → IsWithin limit (new_world r w)
  unfolding new_world add_audit new_device has_capacity
  new_world-IsWithin r new = record {
    keyed = (new.fresh_id, h.keyed);
    within = λ user. elim (Bool-cases (r.user_id == user)) [
      | inl mine ↦
          let same : r.user_id ≡ user = ground (arith, mine) in
          let room = rw same at (new.within) in ground (arith, room, h.within user)
      | inr other ↦ ground (arith, other, h.within user)
    ];
  }

  revoked-IsWithin :
      (p : Device → Bool) (now : ℕ) {v : World}
      → v.devices ≡ update_where p (revoke_device now) w.devices
      → IsWithin limit v
  unfolding revoke_device
  revoked-IsWithin p now e = record {
    keyed = rw e (IsKeyed-update device_key p (revoke_device now) (λ d. refl) w.devices h.keyed);
    within = λ user. rw e (
        omega (
          arith,
          h.within user,
          count-update_le (is_active_of user) p (revoke_device now) (λ d on. ground (arith, on))
              w.devices,
        ));
  }

pub Change-IsWithin :
    {a : Accounts} {limit : ℕ} {w v : World}
    → Change a limit w v
    → IsWithin limit w
    → IsWithin limit v
unfolding revoked_world self_revoked_world add_audit
Change-IsWithin unchanged h = h
Change-IsWithin {limit = limit} {w = w} (returns r e ret own) h =
    reauthorized_world-IsWithin limit w h r e ret
Change-IsWithin {limit = limit} {w = w} (takes_over r e ret other free) h =
    taken_world-IsWithin limit w h r e ret
Change-IsWithin {limit = limit} {w = w} (creates r new) h = new_world-IsWithin limit w h r new
Change-IsWithin {limit = limit} {w = w} (revokes user device audit_id now one) h =
    revoked-IsWithin limit w h (is_revocable user device) now refl
Change-IsWithin {limit = limit} {w = w} (self_revokes r d found on fresh) h =
    revoked-IsWithin limit w h (has_id r.device_id) r.revoked_at refl
