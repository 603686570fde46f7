-- ===== src/Session/Repository/Acceptance.antt =====
-- Exactly which tokens Rotate exchanges, and what it stores (internal/session/repository.go).
use aera_cloud.Prelude.{
  ℕ, ◌<◌, ◌≡◌, ◌↔◌, true, false, some, none, ◌==◌, [], Result, find, ◌∷◌, Bytes, length,
  update_where, is_ok, ok, arith,
}
use aera_cloud.Postgres.{Faults, healthy}
use aera_cloud.Session.Repository.Live.{select_source-find}
use aera_cloud.Session.Table.{
  Error, Session, has_hash, Directory, Rows, user_is_active, device_is_active, is_live, has_id,
  insert_conflicts, replace,
}
use aera_cloud.Session.Repository.{
  SuccessorRecord, Rotation, Source, valid_successor, successor_row, select_source, rotate_source,
  rotate_selected, rotate,
}

-- The conditions under which the scanned row is exchanged.
abbrev pub IsExchangeable : Source → SuccessorRecord → ℕ → Rows → Type 0
IsExchangeable src n now rows =
    (is_live src.session ≡ true)
    × (now < src.session.expires_at)
    × (user_is_active src.user.status ≡ true)
    × (device_is_active src.device.status ≡ true)
    × (insert_conflicts (successor_row src.session n) rows ≡ false)

rotate_source_accepts :
    (src : Source) (n : SuccessorRecord) (now : ℕ) (rows : Rows)
    → (is_ok (rotate_source healthy src n now rows).0 ≡ true) ↔ IsExchangeable src n now rows
unfolding rotate_source
rotate_source_accepts src n now rows = (λ e. ground arith, λ e. ground arith)

-- On a healthy database, for a hash of 32 bytes and a valid successor, Rotate exchanges the
-- token of the row that it finds exactly when that row is neither replaced nor revoked nor
-- expired, its user and device are active, and the new id and hash are unused.
pub rotate_accepts :
    (dir : Directory) (h : Bytes) (n : SuccessorRecord) (now : ℕ) (rows : Rows) (src : Source)
    → length h ≡ 32
    → valid_successor n ≡ true
    → select_source dir h rows ≡ some src
    → (is_ok (rotate healthy dir h n now rows).0 ≡ true) ↔ IsExchangeable src n now rows
unfolding rotate rotate_selected
rotate_accepts dir h n now rows src len valid sel =
    rw (len, valid, sel) (rotate_source_accepts src n now rows)

-- What Rotate does with the row `src` and the successor `n`.
pub record IsRotated (src : Source) (n : SuccessorRecord) (now : ℕ) (rows : Rows)
    (a : Result Error Rotation × Rows) : Type 0 where
  pub answer :
      a.0
      ≡ ok (record {
        session_id = n.session_id;
        family_id = src.session.family_id;
        binding = record {
          user_id = src.session.user_id;
          device_id = src.session.device_id;
          installation_id = src.device.installation_id;
          personal_space_id = src.space.id;
        };
      })
  pub stored :
      a.1
      ≡ record {
        id = n.session_id;
        user_id = src.session.user_id;
        device_id = src.session.device_id;
        family_id = src.session.family_id;
        refresh_token_hash = n.refresh_token_hash;
        rotated_from = some src.session.id;
        issued_at = n.issued_at;
        expires_at = n.expires_at;
        replaced_at = none;
        revoked_at = none;
        revoked_reason = none;
        replay_detected_at = none;
      }
        ∷ update_where
            (λ (s : Session). s.id == src.session.id)
            (λ s. record s { replaced_at = some now })
            rows

-- The id of the successor is not the one of the source, which is in the table.
fresh_id :
    (h : Bytes) (new : Session) (rows : Rows) (s : Session)
    → find (has_hash h) rows ≡ some s
    → insert_conflicts new rows ≡ false
    → has_id s.id new ≡ false
unfolding insert_conflicts
fresh_id h new [] s e free = absurd (cc e)
fresh_id h new (x ∷ rows) s e free = ground (arith, e, free, fresh_id h new rows s)

-- A successful Rotate, under any faults, stored an open successor, with the id, hash and times that
-- it was given, in the family of the source for the same user and device, marked the source as
-- replaced now, changed no other row, and answered with the successor's id and the source's binding.
pub rotate_ok_effect :
    (db : Faults) (dir : Directory) (h : Bytes) (n : SuccessorRecord) (now : ℕ) (rows : Rows)
    (src : Source)
    → select_source dir h rows ≡ some src
    → is_ok (rotate db dir h n now rows).0 ≡ true
    → IsRotated src n now rows (rotate db dir h n now rows)
unfolding rotate rotate_selected rotate_source successor_row replace
rotate_ok_effect db dir h n now rows src sel e =
    let found = select_source-find dir h rows src sel in
    let other = fresh_id h (successor_row src.session n) rows src.session found in
    record { answer = ground (arith, sel, e); stored = ground (arith, sel, e, other) }
