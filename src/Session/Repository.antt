-- ===== src/Session/Repository.antt =====
-- The transactions of internal/session/repository.go, each a step from the `sessions` rows to the
-- answer and the new rows. A row that a transaction decides on is locked (`FOR UPDATE OF s`), but
-- not the rest of its family: the UPDATE of a family misses the rows that a concurrent Rotate of
-- another row of the family has inserted (`unseen` of Faults).
pub mod Live
pub mod Retired
pub mod Family
pub mod Acceptance
use aera_cloud.Prelude.{
  ℕ, Bool, true, false, ◌&&◌, ◌||◌, Option, none, some, List, [], ◌∷◌, String, Bytes, str_eq, find,
  any, update_where, is_some, ◌==◌, ltb, if◌then◌else◌, not, length, Result, ok, err,
}
use aera_cloud.Postgres.{Faults, settle}
use aera_cloud.Session.Table.{
  Error, session_revoked, account_pending_deletion, account_disabled, unavailable, UserStatus,
  active, pending_deletion, disabled, DeviceStatus, User, Device, Space, Directory, Binding,
  Session, Rows, user_is_active, device_is_active, space_is_active, valid_binding, in_family,
  has_hash, has_id, insert_conflicts, revoke, revoke_replayed, replace,
}

pub record CreateRecord : Type 0 where
  pub session_id : ℕ
  pub family_id : ℕ
  pub binding : Binding
  pub refresh_token_hash : Bytes
  pub issued_at : ℕ
  pub expires_at : ℕ

pub record SuccessorRecord : Type 0 where
  pub session_id : ℕ
  pub refresh_token_hash : Bytes
  pub issued_at : ℕ
  pub expires_at : ℕ

pub record Rotation : Type 0 where
  pub session_id : ℕ
  pub family_id : ℕ
  pub binding : Binding

pub record AccessBinding : Type 0 where
  pub user_id : ℕ
  pub session_id : ℕ
  pub device_id : ℕ
  pub personal_space_id : ℕ

unfoldable pub valid_access_binding : AccessBinding → Bool
valid_access_binding b =
    not (b.user_id == 0)
    && not (b.session_id == 0)
    && not (b.device_id == 0)
    && not (b.personal_space_id == 0)

-- AccessActive: the SELECT EXISTS over the join. Every table is joined on a key that the
-- arguments fix, so the join has a row if each table has one.
unfoldable pub access_row_active : Directory → Rows → AccessBinding → ℕ → Bool
access_row_active dir rows b now =
    any
      (λ s.
        has_id b.session_id s
        && s.user_id == b.user_id
        && s.device_id == b.device_id
        && not (is_some s.revoked_at)
        && ltb now s.expires_at)
      rows
    && any (λ (u : User). u.id == b.user_id && user_is_active u.status) dir.users
    && any
        (λ (d : Device). d.id == b.device_id && d.user_id == b.user_id && device_is_active d.status)
        dir.devices
    && any
        (λ (p : Space).
          p.id == b.personal_space_id && p.owner_user_id == b.user_id && space_is_active p.status)
        dir.spaces

unfoldable pub access_active : Faults → Directory → Rows → AccessBinding → ℕ → Result Error Bool
access_active db dir rows b now =
    if not (valid_access_binding b) || db.read
    then err unavailable
    else ok (access_row_active dir rows b now)

unfoldable pub binding_active : Directory → Binding → Bool
binding_active dir b =
    any (λ (u : User). u.id == b.user_id && user_is_active u.status) dir.users
    && any
        (λ (d : Device).
          d.user_id == b.user_id
          && d.id == b.device_id
          && d.installation_id == b.installation_id
          && device_is_active d.status)
        dir.devices
    && any
        (λ (p : Space).
          p.owner_user_id == b.user_id && p.id == b.personal_space_id && space_is_active p.status)
        dir.spaces

unfoldable pub created_row : CreateRecord → Session
created_row c = record {
  id = c.session_id;
  user_id = c.binding.user_id;
  device_id = c.binding.device_id;
  family_id = c.family_id;
  refresh_token_hash = c.refresh_token_hash;
  rotated_from = none;
  issued_at = c.issued_at;
  expires_at = c.expires_at;
  replaced_at = none;
  revoked_at = none;
  revoked_reason = none;
  replay_detected_at = none;
}

unfoldable pub valid_create : CreateRecord → Bool
valid_create c =
    valid_binding c.binding
    && not (c.session_id == 0)
    && not (c.family_id == 0)
    && length c.refresh_token_hash == 32
    && ltb c.issued_at c.expires_at

-- `dir` is what the SELECT EXISTS reads, and `rows` what the INSERT writes to. CreateInTx runs both
-- in the caller's transaction; for Create they are two statements with no lock between them, so that
-- `dir` may be out of date by then. The INSERT commits by itself, or with the caller's.
unfoldable pub create_session :
    Faults → Directory → CreateRecord → Rows → Result Error (Unit {0}) × Rows
create_session db dir c rows =
    if not (valid_create c)
    then (err session_revoked, rows)
    else if db.read
    then (err unavailable, rows)
    else if not (binding_active dir c.binding)
    then (err session_revoked, rows)
    else if db.write || insert_conflicts (created_row c) rows
    then (err unavailable, rows)
    else settle db.commit unavailable rows (created_row c ∷ rows) (ok tt)

-- The row of Rotate's join.
pub record Source : Type 0 where
  pub session : Session
  pub user : User
  pub device : Device
  pub space : Space

infixl 5 ◌>>=◌
abbrev pub ◌>>=◌ {ℓ κ} : {A : Type ℓ} {B : Type κ} → Option A → (A → Option B) → Option B
none >>= k = none
some a >>= k = k a

unfoldable pub select_source : Directory → Bytes → Rows → Option Source
select_source dir h rows = do
  s ← find (has_hash h) rows
  u ← find (λ (u : User). u.id == s.user_id) dir.users
  d ← find (λ (d : Device). d.id == s.device_id) dir.devices
  p ← find (λ (p : Space). p.owner_user_id == s.user_id) dir.spaces
  some (record { session = s; user = u; device = d; space = p })

abbrev pub source_binding : Source → Binding
source_binding src = record {
  user_id = src.session.user_id;
  device_id = src.session.device_id;
  installation_id = src.device.installation_id;
  personal_space_id = src.space.id;
}

abbrev pub account_state_error : UserStatus → Error
account_state_error active = session_revoked
account_state_error pending_deletion = account_pending_deletion
account_state_error disabled = account_disabled

unfoldable pub successor_row : Session → SuccessorRecord → Session
successor_row source n = record {
  id = n.session_id;
  user_id = source.user_id;
  device_id = source.device_id;
  family_id = source.family_id;
  refresh_token_hash = n.refresh_token_hash;
  rotated_from = some source.id;
  issued_at = n.issued_at;
  expires_at = n.expires_at;
  replaced_at = none;
  revoked_at = none;
  revoked_reason = none;
  replay_detected_at = none;
}

unfoldable pub valid_successor : SuccessorRecord → Bool
valid_successor n =
    not (n.session_id == 0) && length n.refresh_token_hash == 32 && ltb n.issued_at n.expires_at

-- The rows that `UPDATE sessions ... WHERE family_id = $1` takes.
abbrev pub is_seen_in : Faults → ℕ → Session → Bool
is_seen_in db f s = in_family f s && not (db.unseen s.id)

-- Rotate from the scanned row on.
unfoldable pub rotate_source :
    Faults → Source → SuccessorRecord → ℕ → Rows → Result Error Rotation × Rows
rotate_source db src n now rows =
    if is_some s.replaced_at
    then if db.write
      then (err unavailable, rows)
      else settle db.commit unavailable rows
          (update_where (is_seen_in db s.family_id) (revoke_replayed now s.id) rows)
          (err session_revoked)
    else if is_some s.revoked_at
        || not (ltb now s.expires_at)
        || not (user_is_active src.user.status)
        || not (device_is_active src.device.status)
    then if db.write
      then (err unavailable, rows)
      else settle db.commit unavailable rows
          (update_where (is_seen_in db s.family_id) (revoke now "session_invalid") rows)
          (err (account_state_error src.user.status))
    else if db.write || insert_conflicts (successor_row s n) rows
    then (err unavailable, rows)
    else if db.write_next
    then (err unavailable, rows)
    else settle db.commit unavailable rows
        (update_where (has_id s.id) (replace now) (successor_row s n ∷ rows))
        (ok (record {
          session_id = n.session_id;
          family_id = s.family_id;
          binding = source_binding src;
        }))
  where
    s : Session
    s = src.session

unfoldable pub rotate_selected :
    Faults → Option Source → SuccessorRecord → ℕ → Rows → Result Error Rotation × Rows
rotate_selected db none n now rows = (err session_revoked, rows)
rotate_selected db (some src) n now rows = rotate_source db src n now rows

unfoldable pub rotate :
    Faults → Directory → Bytes → SuccessorRecord → ℕ → Rows → Result Error Rotation × Rows
rotate db dir h n now rows =
    if not (length h == 32) || not (valid_successor n)
    then (err session_revoked, rows)
    else if db.begin || db.read
    then (err unavailable, rows)
    else rotate_selected db (select_source dir h rows) n now rows

-- RevokeFamily. Start and Refresh call it where they could not sign tokens: nobody holds the newest
-- token of the family, so no row is inserted beside the UPDATE.
unfoldable pub revoke_family : Faults → ℕ → String → ℕ → Rows → Result Error (Unit {0}) × Rows
revoke_family db family reason now rows =
    if family == 0 || str_eq reason ""
    then (err unavailable, rows)
    else if db.write
    then (err unavailable, rows)
    else settle db.commit unavailable rows
        (update_where (in_family family) (revoke now reason) rows) (ok tt)

unfoldable pub revoke_selected : Faults → Option Session → ℕ → Rows → Result Error (Unit {0}) × Rows
revoke_selected db none now rows = (err session_revoked, rows)
revoke_selected db (some s) now rows =
    if db.write
    then (err unavailable, rows)
    else settle db.commit unavailable rows
        (update_where (is_seen_in db s.family_id) (revoke now "user_logout") rows) (ok tt)

unfoldable pub revoke_by_token : Faults → Bytes → ℕ → Rows → Result Error (Unit {0}) × Rows
revoke_by_token db h now rows =
    if not (length h == 32)
    then (err session_revoked, rows)
    else if db.begin || db.read
    then (err unavailable, rows)
    else revoke_selected db (find (has_hash h) rows) now rows
