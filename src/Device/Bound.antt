-- ===== src/Device/Bound.antt =====
-- Sessions and the devices they are bound to (internal/device/repository.go with
-- internal/session/repository.go).
use aera_cloud.Prelude.{
  ℕ, ◌≡◌, refl, Bool, true, false, ◌&&◌, ◌||◌, not, Option, none, some, List, [], ◌∷◌, String,
  Bytes, arith, inl, inr, any, find, map, update_where, All, All-update, All-find, is_some,
  Bool-cases, ◌==◌, if-cases, ok, ltb, length, str_eq,
}
use aera_cloud.Postgres.{Faults as SessionFaults, settle-keeps}
use aera_cloud.Session.Table.{
  Session, Rows, Directory, Binding, Device as SessionDevice, device_is_active, insert_conflicts,
  unavailable, user_is_active, has_hash, has_id as has_session_id, revoke as revoke_session,
  revoke_replayed, replace,
}
use aera_cloud.Session.Repository.{
  CreateRecord, SuccessorRecord, Source, valid_create, created_row, successor_row, binding_active,
  create_session, select_source, rotate_source, rotate_selected, rotate, revoke_family,
  revoke_selected, revoke_by_token, valid_successor,
}
use aera_cloud.Session.Repository.Live.{select_source-find}
use aera_cloud.Device.Model.{Device}
use aera_cloud.Device.Table.{Accounts, has_id, is_unrevoked, directory, session_device}
use aera_cloud.Prelude.{IsKeyed}
use aera_cloud.Device.Table.{device_key}

-- The device may hold sessions of the user.
abbrev pub holds : ℕ → Option Device → Bool
holds user none = false
holds user (some d) = d.user_id == user && is_unrevoked d.status

-- An unrevoked session is of an unrevoked device that its user owns.
abbrev pub IsBound : List Device → Session → Type 0
IsBound ds s = is_some s.revoked_at ≡ false → holds s.user_id (find (has_id s.device_id) ds) ≡ true

abbrev pub AllBound : List Device → Rows → Type 0
AllBound ds rows = All (IsBound ds) rows

-- A write that keeps the device and the user and clears no revocation keeps sessions bound.
AllBound-update :
    (ds : List Device) (p : Session → Bool) (f : Session → Session)
    → ((s : Session) → ((f s).device_id ≡ s.device_id) × ((f s).user_id ≡ s.user_id))
    → ((s : Session) → is_some (f s).revoked_at ≡ false → is_some s.revoked_at ≡ false)
    → (rows : Rows) → AllBound ds rows
    → AllBound ds (update_where p f rows)
AllBound-update ds p f same back =
    All-update (IsBound ds) p f (λ s b free. rw ((same s).0, (same s).1) (b (back s free)))

module _ (ds : List Device) (p : Session → Bool) (now : ℕ) (rows : Rows)
    (b : AllBound ds rows) where
  AllBound-revoke :
      (reason : String) → AllBound ds (update_where p (revoke_session now reason) rows)
  unfolding revoke_session
  AllBound-revoke reason =
      AllBound-update ds p (revoke_session now reason) (λ s. (refl, refl)) (λ s e. ground arith)
        rows b

  AllBound-revoke_replayed :
      (source : ℕ) → AllBound ds (update_where p (revoke_replayed now source) rows)
  unfolding revoke_replayed
  AllBound-revoke_replayed source =
      AllBound-update ds p (revoke_replayed now source) (λ s. (refl, refl)) (λ s e. ground arith)
        rows b

  AllBound-replace : AllBound ds (update_where p (replace now) rows)
  unfolding replace
  AllBound-replace =
      AllBound-update ds p (replace now) (λ s. (refl, refl)) (λ s e. ground arith) rows b

-- A row that a join on the id accepts is the row of that id.
accepts : Binding → SessionDevice → Bool
accepts b d =
    d.user_id == b.user_id
    && d.id == b.device_id
    && d.installation_id == b.installation_id
    && device_is_active d.status

any-accepts :
    (b : Binding) (ds : List Device)
    → any (accepts b) (map session_device ds) ≡ true
    → any (has_id b.device_id) ds ≡ true
unfolding accepts
any-accepts b [] h = h
any-accepts b (d ∷ ds) h = ground (arith, h, any-accepts b ds)

any-holds :
    (b : Binding) (ds : List Device)
    → IsKeyed device_key ds
    → any (accepts b) (map session_device ds) ≡ true
    → holds b.user_id (find (has_id b.device_id) ds) ≡ true
unfolding accepts
any-holds b [] k h = absurd (cc h)
any-holds b (d ∷ ds) k h = elim (Bool-cases (d.id == b.device_id)) [
  | inl hit ↦ elim (Bool-cases (accepts b (session_device d))) [
    | inl this ↦ ground (arith, hit, this)
    | inr later ↦
        let same : d.id ≡ b.device_id = ground (arith, hit) in
        let there = any-accepts b ds (ground (arith, later, h)) in
        absurd (cc (rw same at (k.0), there))
  ]
  | inr miss ↦ ground (arith, miss, any-holds b ds k.1, h)
]

module _ (a : Accounts) (ds : List Device) (keyed : IsKeyed device_key ds) (db : SessionFaults)
    (rows : Rows) (b : AllBound ds rows) where
  abbrev Kept {ℓ} : {A : Type ℓ} → A × Rows → Type 0
  Kept o = AllBound ds o.1

  pub create_session-AllBound :
      (c : CreateRecord) → AllBound ds (create_session db (directory a ds) c rows).1
  unfolding create_session binding_active directory created_row
  create_session-AllBound c =
      if-cases Kept (not (valid_create c)) (λ _. b)
        (λ _.
          if-cases Kept db.read (λ _. b)
            (λ _.
              if-cases Kept (not (binding_active (directory a ds) c.binding)) (λ _. b)
                (λ bound.
                  if-cases Kept (db.write || insert_conflicts (created_row c) rows) (λ _. b)
                    (λ _.
                      settle-keeps (AllBound ds) db.commit unavailable (ok tt) b
                        (λ _. any-holds c.binding ds keyed (joined bound), b)))))
    where
      joined :
          not (binding_active (directory a ds) c.binding) ≡ false
          → any (accepts c.binding) (map session_device ds) ≡ true
      joined bound = unfold binding_active directory accepts in ground (arith, bound)

  rotate_source-AllBound :
      (h : Bytes) (src : Source) (n : SuccessorRecord) (now : ℕ)
      → find (has_hash h) rows ≡ some src.session
      → AllBound ds (rotate_source db src n now rows).1
  unfolding rotate_source
  rotate_source-AllBound h src n now found =
      let s = src.session in
      if-cases Kept (is_some s.replaced_at)
        (λ _.
          if-cases Kept db.write (λ _. b)
            (λ _.
              settle-keeps (AllBound ds) db.commit unavailable _ b
                (AllBound-revoke_replayed ds _ now rows b s.id)))
        (λ _.
          if-cases Kept
            (is_some s.revoked_at
              || not (ltb now s.expires_at)
              || not (user_is_active src.user.status)
              || not (device_is_active src.device.status))
            (λ _.
              if-cases Kept db.write (λ _. b)
                (λ _.
                  settle-keeps (AllBound ds) db.commit unavailable _ b
                    (AllBound-revoke ds _ now rows b "session_invalid")))
            (λ live.
              if-cases Kept (db.write || insert_conflicts (successor_row s n) rows) (λ _. b)
                (λ _.
                  if-cases Kept db.write_next (λ _. b)
                    (λ _. settle-keeps (AllBound ds) db.commit unavailable _ b (
                      AllBound-replace ds (has_session_id s.id) now (successor_row s n ∷ rows) (
                        unfold successor_row in
                            (λ _.
                              All-find (IsBound ds) (has_hash h) rows s b found
                                (ground (arith, live))),
                        b,
                      ))))))

  pub rotate-AllBound :
      (dir : Directory) (h : Bytes) (n : SuccessorRecord) (now : ℕ)
      → AllBound ds (rotate db dir h n now rows).1
  unfolding rotate rotate_selected
  rotate-AllBound dir h n now =
      if-cases Kept (not (length h == 32) || not (valid_successor n)) (λ _. b)
        (λ _.
          if-cases Kept (db.begin || db.read) (λ _. b)
            (λ _. selected (select_source dir h rows) refl))
    where
      selected :
          (src : Option Source)
          → select_source dir h rows ≡ src
          → AllBound ds (rotate_selected db src n now rows).1
      selected none e = b
      selected (some src) e =
          rotate_source-AllBound h src n now (select_source-find dir h rows src e)

  pub revoke_family-AllBound :
      (family : ℕ) (reason : String) (now : ℕ)
      → AllBound ds (revoke_family db family reason now rows).1
  unfolding revoke_family
  revoke_family-AllBound family reason now =
      if-cases Kept (family == 0 || str_eq reason "") (λ _. b)
        (λ _.
          if-cases Kept db.write (λ _. b)
            (λ _.
              settle-keeps (AllBound ds) db.commit unavailable _ b
                (AllBound-revoke ds _ now rows b reason)))

  pub revoke_by_token-AllBound :
      (h : Bytes) (now : ℕ) → AllBound ds (revoke_by_token db h now rows).1
  unfolding revoke_by_token revoke_selected
  revoke_by_token-AllBound h now =
      if-cases Kept (not (length h == 32)) (λ _. b)
        (λ _. if-cases Kept (db.begin || db.read) (λ _. b) (λ _. selected (find (has_hash h) rows)))
    where
      selected : (s : Option Session) → AllBound ds (revoke_selected db s now rows).1
      selected none = b
      selected (some s) =
          if-cases Kept db.write (λ _. b)
            (λ _.
              settle-keeps (AllBound ds) db.commit unavailable _ b
                (AllBound-revoke ds _ now rows b "user_logout"))
