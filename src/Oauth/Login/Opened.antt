-- ===== src/Oauth/Login/Opened.antt =====
-- What AuthorizeInTx and StartInTx leave in their tables when they answer ok.
use aera_cloud.Prelude.{
  ℕ, ◌≡◌, refl, ap, true, false, ◌∙◌, none, some, ◌∷◌, Bytes, arith, inl, inr, find, is_ok,
  find-update, Result, ok, err, Option-cases, bytes_eq_iff, find-passes, update_where,
}
use aera_cloud.Postgres.{Faults}
use aera_cloud.Session.Table.{Binding, Error as SessionError, Session, Rows, Directory, active}
use aera_cloud.Session.Repository.{Rotation, create_session, created_row, CreateRecord}
use aera_cloud.Session.Service.{
  Service as SessionService, Draws as SessionDraws, Prepared, prepared, prepare_start, start_in_tx,
  start_prepared, start_created, issue_token_set, Issuers, access_binding_of,
}
use aera_cloud.Device.Model.{Device, AuthorizeCommand, AuthorizationRecord, clean_display_name}
use aera_cloud.Device.Table.{
  World, Accounts, has_id, has_installation, reauthorize, new_device, add_audit,
  clear_desktop_control,
}
use aera_cloud.Device.Repository.{reauthorized_world, new_world}
use aera_cloud.Device.Repository.Cases.{
  Authorized, returned, taken_over, created, Change, returns, takes_over, creates,
}
use aera_cloud.Prelude.{IsKeyed, found-has_key}
use aera_cloud.Device.Table.{device_key}
use aera_cloud.Device.Service.{
  Draws as DeviceDraws, authorization_record, record_named, record_drawn,
}

-- The record that the repository gets is the command's.
pub recorded_fields :
    (c : AuthorizeCommand) (draws : DeviceDraws) (r : AuthorizationRecord)
    → authorization_record c draws ≡ ok r
    → (r.user_id ≡ c.user_id)
      × (r.installation_id ≡ c.installation_id)
      × (r.public_key ≡ c.public_key)
unfolding authorization_record record_named record_drawn
recorded_fields c draws r e = elim (Option-cases (clean_display_name c.display_name)) [
  | inl n ↦ ground (arith, n, e)
  | inr (name, n) ↦ elim (Option-cases draws.device_id) [
    | inl d ↦ ground (arith, n, d, e)
    | inr (id, d) ↦ elim (Option-cases draws.audit_event_id) [
      | inl u ↦ ground (arith, n, d, u, e)
      | inr (audit, u) ↦ ground (arith, n, d, u, e)
    ]
  ]
]

-- The row of a known installation after its UPDATE.
known_stored :
    (r : AuthorizationRecord) (e : Device) (w : World)
    → IsKeyed device_key w.devices
    → find (has_installation r.installation_id) w.devices ≡ some e
    → (find (has_id e.id) (update_where (has_id e.id) (reauthorize r) w.devices)
        ≡ some (reauthorize r e))
      × (e.installation_id ≡ r.installation_id)
unfolding reauthorize
known_stored r e w k found =
    let it = found-has_key device_key _ w.devices e k found in
    let there =
      find-update (has_id e.id) (has_id e.id) (reauthorize r) (λ d. refl) w.devices e it in
    (ground (arith, there), ground (arith, find-passes _ w.devices e found))

-- The device that AuthorizeInTx answers with is stored as answered.
pub Authorized-stored :
    (a : Accounts) (r : AuthorizationRecord) (limit : ℕ) (w : World) (d : Device) (v : World)
    → IsKeyed device_key w.devices
    → Authorized a r limit w (ok d, v)
    → (find (has_id d.id) v.devices ≡ some d)
      × (d.user_id ≡ r.user_id)
      × (d.status ≡ active)
      × (d.installation_id ≡ r.installation_id)
      × (d.public_key ≡ r.public_key)
      × (v.sessions ≡ w.sessions)
      × Change a limit w v
unfolding reauthorized_world new_world add_audit clear_desktop_control reauthorize new_device
Authorized-stored a r limit w d v k (returned e h own) =
    let (there, at) = known_stored r e w k h.found in
    (
      there,
      refl,
      refl,
      at,
      (bytes_eq_iff e.public_key r.public_key).0 h.same_key,
      refl,
      returns r e h own,
    )
Authorized-stored a r limit w d v k (taken_over e h other free) =
    let (there, at) = known_stored r e w k h.found in
    (
      there,
      refl,
      refl,
      at,
      (bytes_eq_iff e.public_key r.public_key).0 h.same_key,
      refl,
      takes_over r e h other free,
    )
Authorized-stored a r limit w d v k (created h) =
    (ground arith, refl, refl, refl, refl, refl, creates r h)

create_session_ok :
    (db : Faults) (dir : Directory) (c : CreateRecord) (rows : Rows)
    → is_ok (create_session db dir c rows).0 ≡ true
    → (create_session db dir c rows).1 ≡ created_row c ∷ rows
unfolding create_session
create_session_ok db dir c rows o = ground (arith, o)

issue_token_set_keeps :
    (i : Issuers) (r : Rotation) (token : Bytes) (expires_at : ℕ) (db : Faults) (later : ℕ)
    (rows : Rows)
    → (issue_token_set i r token expires_at false db later rows).1 ≡ rows
unfolding issue_token_set
issue_token_set_keeps i r token expires_at db later rows =
    elim (Option-cases (i.access (access_binding_of r))) [
      | inl e ↦ ground (arith, e)
      | inr (access, e) ↦ elim (Option-cases (i.offline r.binding)) [
        | inl x ↦ ground (arith, e, x)
        | inr (offline, x) ↦ ground (arith, e, x)
      ]
    ]

prepared_binding :
    (s : SessionService) (b : Binding) (draws : SessionDraws) (p : Prepared)
    → prepare_start s b draws ≡ ok p
    → p.create.binding ≡ b
unfolding prepare_start prepared
prepared_binding s b draws p e = elim (Option-cases draws.session_id) [
  | inl i ↦ ground (arith, i, e)
  | inr (id, i) ↦ elim (Option-cases draws.family_id) [
    | inl f ↦ ground (arith, i, f, e)
    | inr (family, f) ↦ elim (Option-cases draws.secret) [
      | inl k ↦ ground (arith, i, f, k, e)
      | inr (secret, k) ↦ ground (arith, i, f, k, e)
    ]
  ]
]

-- The session that StartInTx opens.
abbrev pub IsStarted : Binding → Rows → Rows → Type 0
IsStarted b rows after =
    (x : Session) × (after ≡ x ∷ rows)
    × (x.user_id ≡ b.user_id)
    × (x.device_id ≡ b.device_id)
    × (x.revoked_at ≡ none)

pub start_in_tx-IsStarted :
    (s : SessionService) (db : Faults) (dir : Directory) (draws : SessionDraws) (b : Binding)
    (rows : Rows)
    → is_ok (start_in_tx s db dir draws b rows).0 ≡ true
    → IsStarted b rows (start_in_tx s db dir draws b rows).1
unfolding start_in_tx start_prepared start_created
start_in_tx-IsStarted s db dir draws b rows = go (prepare_start s b draws) refl
  where
    created_ok :
        (p : Prepared) (x : Result SessionError (Unit {0}) × Rows)
        → p.create.binding ≡ b
        → (is_ok x.0 ≡ true → x.1 ≡ created_row p.create ∷ rows)
        → is_ok (start_created s false db draws p x).0 ≡ true
        → IsStarted b rows (start_created s false db draws p x).1
    created_ok p (err e, after) own eff o = absurd (cc o)
    created_ok p (ok u, after) own eff o = (
      created_row p.create,
      issue_token_set_keeps s.issuers p.rotation p.refresh_token p.expires_at db draws.later after
          ∙ eff refl,
      unfold created_row in ap (λ b. b.user_id) own,
      unfold created_row in ap (λ b. b.device_id) own,
      unfold created_row in refl,
    )

    go :
        (x : Result SessionError Prepared)
        → prepare_start s b draws ≡ x
        → is_ok (start_prepared s false db db dir draws x rows).0 ≡ true
        → IsStarted b rows (start_prepared s false db db dir draws x rows).1
    go (err e) eq o = absurd (cc o)
    go (ok p) eq o =
        created_ok p (create_session db dir p.create rows) (prepared_binding s b draws p eq)
          (create_session_ok db dir p.create rows) o
