-- ===== src/Device/Sound.antt =====
-- Changes of devices against the sessions bound to them (internal/device/repository.go).
use aera_cloud.Prelude.{
  ℕ, ◌≡◌, refl, ap, Bool, true, false, Option, none, some, List, [], ◌∷◌, arith, inl, inr, find,
  update_where, All-map, is_some, coalesce, find-any, find-passes, find-update, Bool-cases,
  Option-cases, ◌==◌, if◌then◌else◌,
}
use aera_cloud.Session.Table.{Session, Rows, revoke as revoke_session}
use aera_cloud.Device.Model.{Device, AuthorizationRecord}
use aera_cloud.Device.Table.{
  World, Accounts, has_id, clear_desktop_control, reauthorize, new_device, revoke_device,
  end_session, of_device, add_audit,
}
use aera_cloud.Device.Repository.{
  has_taken_id, reauthorized_world, new_world, is_revocable, revoked_world, self_revoked_world,
}
use aera_cloud.Device.Repository.Cases.{
  IsReturn, Change, unchanged, returns, takes_over, creates, revokes, self_revokes,
}
use aera_cloud.Prelude.{IsKeyed, IsKeyed-update, found-has_key}
use aera_cloud.Device.Table.{device_key}
use aera_cloud.Device.Bound.{holds, IsBound, AllBound}

-- Device ids are unique, and every unrevoked session is of an unrevoked device of its user.
pub record IsSound (w : World) : Type 0 where
  pub keyed : IsKeyed device_key w.devices
  pub bound : AllBound w.devices w.sessions

-- A write of devices keeps a session bound, if the device of the session still holds it.
IsBound-devices :
    (p : Device → Bool) (f : Device → Device) (ds : List Device) (s : Session)
    → ((d : Device) → (f d).id ≡ d.id)
    → ((d : Device)
        → find (has_id s.device_id) ds ≡ some d
        → holds s.user_id (some d) ≡ true
        → holds s.user_id (some (if p d then f d else d)) ≡ true)
    → IsBound ds s
    → IsBound (update_where p f ds) s
IsBound-devices p f ds s key keep b free = elim (Option-cases (find (has_id s.device_id) ds)) [
  | inl e ↦ absurd (cc (b free, ap (holds s.user_id) e))
  | inr (d, e) ↦
      let there =
        find-update (has_id s.device_id) p f (λ x. ap (λ i. i == s.device_id) (key x)) ds d e in
      rw there (keep d e (rw e at (b free)))
]

module _ (w : World) (h : IsSound w) where
  -- Both cases of a known installation: the device that is written held no session of another
  -- user, since it is of the same user or revoked.
  returned-AllBound :
      (r : AuthorizationRecord) (limit : ℕ) (e : Device)
      → IsReturn r limit e w
      → AllBound (update_where (has_id e.id) (reauthorize r) w.devices) w.sessions
  returned-AllBound r limit e ret =
      All-map
        (λ s.
          IsBound-devices (has_id e.id) (reauthorize r) w.devices s
            (λ d. unfold reauthorize in refl) (kept s))
        w.sessions h.bound
    where
      it : find (has_id e.id) w.devices ≡ some e
      it = found-has_key device_key _ w.devices e h.keyed ret.found

      kept :
          (s : Session) (d : Device)
          → find (has_id s.device_id) w.devices ≡ some d
          → holds s.user_id (some d) ≡ true
          → holds s.user_id (some (if has_id e.id d then reauthorize r d else d)) ≡ true
      kept s d found on = elim (Bool-cases (has_id e.id d)) [
        | inl hit ↦
            let id : s.device_id ≡ e.id = ground (arith, hit, find-passes _ w.devices d found) in
            let same : d ≡ e = ground (arith, rw id at (found), it) in
            unfold reauthorize in ground (arith, hit, same, on, ret.released)
        | inr miss ↦ rw miss on
      ]

  new-AllBound :
      (r : AuthorizationRecord)
      → has_taken_id r w.devices ≡ false
      → AllBound (new_device r ∷ w.devices) w.sessions
  new-AllBound r fresh = All-map kept w.sessions h.bound
    where
      kept : (s : Session) → IsBound w.devices s → IsBound (new_device r ∷ w.devices) s
      kept s b free = elim (Bool-cases (r.device_id == s.device_id)) [
        | inl hit ↦
            let same : r.device_id ≡ s.device_id = ground (arith, hit) in
            let none_such = rw same at (fresh) in
            elim (Option-cases (find (has_id s.device_id) w.devices)) [
              | inl e ↦ absurd (cc (b free, ap (holds s.user_id) e))
              | inr (d, e) ↦ absurd (cc (none_such, find-any _ w.devices d e))
            ]
        | inr miss ↦ unfold new_device in rw miss (b free)
      ]

  -- A revocation: the sessions of the devices that it writes are revoked with them.
  revoked-AllBound :
      (p : Device → Bool) (q : Session → Bool) (g : Session → Session) (now : ℕ)
      → ((s : Session) → q s ≡ true → is_some (g s).revoked_at ≡ true)
      → ((s : Session) (d : Device)
          → q s ≡ false
          → is_some s.revoked_at ≡ false
          → has_id s.device_id d ≡ true
          → p d ≡ false)
      → AllBound (update_where p (revoke_device now) w.devices) (update_where q g w.sessions)
  revoked-AllBound p q g now ended left = written w.sessions h.bound
    where
      untouched :
          (s : Session)
          → q s ≡ false
          → IsBound w.devices s
          → IsBound (update_where p (revoke_device now) w.devices) s
      untouched s out b free =
          IsBound-devices p (revoke_device now) w.devices s (λ d. unfold revoke_device in refl)
            (λ d found on. rw (left s d out free (find-passes _ w.devices d found)) on) b free

      written :
          (rows : Rows)
          → AllBound w.devices rows
          → AllBound (update_where p (revoke_device now) w.devices) (update_where q g rows)
      written [] b = tt
      written (s ∷ rows) b = elim (Bool-cases (q s)) [
        | inl hit ↦ (rw hit (λ free. absurd (cc (free, ended s hit))), written rows b.1)
        | inr out ↦ (rw out (untouched s out b.0), written rows b.1)
      ]

pub Change-IsSound :
    {a : Accounts} {limit : ℕ} {w v : World} → Change a limit w v → IsSound w → IsSound v
unfolding revoked_world self_revoked_world reauthorized_world new_world add_audit
    clear_desktop_control
Change-IsSound unchanged h = h
Change-IsSound {limit = limit} {w = w} (returns r e ret own) h = record {
  keyed =
      IsKeyed-update device_key (has_id e.id) (reauthorize r) (λ d. unfold reauthorize in refl)
        w.devices h.keyed;
  bound = returned-AllBound w h r limit e ret;
}
Change-IsSound {limit = limit} {w = w} (takes_over r e ret other free) h = record {
  keyed =
      IsKeyed-update device_key (has_id e.id) (reauthorize r) (λ d. unfold reauthorize in refl)
        w.devices h.keyed;
  bound = returned-AllBound w h r limit e ret;
}
Change-IsSound {w = w} (creates r new) h = record {
  keyed = (unfold new_device in new.fresh_id, h.keyed);
  bound = new-AllBound w h r new.fresh_id;
}
Change-IsSound {w = w} (revokes user device audit_id now one) h = record {
  keyed =
      IsKeyed-update device_key (is_revocable user device) (revoke_device now)
        (λ d. unfold revoke_device in refl) w.devices h.keyed;
  bound =
      revoked-AllBound w h (is_revocable user device) _ (end_session now) now
        (λ s _. unfold end_session in refl) (λ s d out free id. ground (arith, out, free, id));
}
Change-IsSound {w = w} (self_revokes r d found on fresh) h = record {
  keyed =
      IsKeyed-update device_key (has_id r.device_id) (revoke_device r.revoked_at)
        (λ d. unfold revoke_device in refl) w.devices h.keyed;
  bound =
      revoked-AllBound w h (has_id r.device_id) (of_device r.device_id) _ r.revoked_at
        (λ s _. unfold revoke_session in coalesced s.revoked_at)
        (λ s d out free id. ground (arith, out, id));
}
  where
    coalesced : (o : Option ℕ) → is_some (coalesce o r.revoked_at) ≡ true
    coalesced none = refl
    coalesced (some x) = refl
