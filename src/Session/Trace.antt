-- ===== src/Session/Trace.antt =====
-- Any interleaving of the transactions on `sessions` (internal/session/repository.go), by any
-- number of requests, under any faults of the database.
use aera_cloud.Prelude.{
  ℕ, ◌≡◌, true, false, some, [], Bytes, String, arith, find, any, is_some, is_ok, length, ok, err,
}
use aera_cloud.Postgres.{Faults, healthy}
use aera_cloud.Session.Table.{Directory, Session, Rows, in_family, has_hash, session_revoked}
use aera_cloud.Session.Repository.{
  CreateRecord, SuccessorRecord, Source, create_session, select_source, rotate, revoke_family,
  revoke_by_token, valid_successor,
}
use aera_cloud.Session.Repository.Live.{
  AtMostOneLive, rotate-live_le, revoke_family-live_le, revoke_by_token-live_le, create-live_le,
}
use aera_cloud.Session.Repository.Retired.{
  IsRetired, create-IsRetired, rotate-IsRetired, revoke_family-IsRetired, revoke_by_token-IsRetired,
  rotate_retired, rotate_ok-IsRetired,
}
use aera_cloud.Session.Repository.Family.{
  IsDeadFamily, SeesAll, create-IsDeadFamily, rotate-IsDeadFamily, revoke_family-IsDeadFamily,
  revoke_by_token-IsDeadFamily, rotate_dead, rotate_replay, revoke_by_token_dead,
}

-- prepareStart draws the family id at random: a family that a row has is not drawn again.
pub data Step (rows : Rows) : Rows → Type 0 where
  creates :
      (db : Faults) (dir : Directory) (c : CreateRecord)
      → any (in_family c.family_id) rows ≡ false
      → Step rows (create_session db dir c rows).1
  rotates :
      (db : Faults) (dir : Directory) (h : Bytes) (n : SuccessorRecord) (now : ℕ)
      → Step rows (rotate db dir h n now rows).1
  revokes_family :
      (db : Faults) (family : ℕ) (reason : String) (now : ℕ)
      → Step rows (revoke_family db family reason now rows).1
  revokes_token : (db : Faults) (h : Bytes) (now : ℕ) → Step rows (revoke_by_token db h now rows).1

pub data Steps (rows : Rows) : Rows → Type 0 where
  here : Steps rows rows
  next : {r s : Rows} → Steps rows r → Step r s → Steps rows s

Step-AtMostOneLive : {r s : Rows} → Step r s → AtMostOneLive r → AtMostOneLive s
Step-AtMostOneLive {r} (creates db dir c fresh) one f = create-live_le f db dir c r fresh (one f)
Step-AtMostOneLive {r} (rotates db dir h n now) one f =
    omega (arith, one f, rotate-live_le f db dir h n now r)
Step-AtMostOneLive {r} (revokes_family db family reason now) one f =
    omega (arith, one f, revoke_family-live_le f db family reason now r)
Step-AtMostOneLive {r} (revokes_token db h now) one f =
    omega (arith, one f, revoke_by_token-live_le f db h now r)

-- From the empty table, every reachable table has at most one live row in each family.
pub Steps-AtMostOneLive : {rows : Rows} → Steps [] rows → AtMostOneLive rows
Steps-AtMostOneLive here f = omega arith
Steps-AtMostOneLive (next r st) f = Step-AtMostOneLive st (Steps-AtMostOneLive r) f

Step-IsRetired : (h : Bytes) {r s : Rows} → Step r s → IsRetired h r → IsRetired h s
Step-IsRetired h {r} (creates db dir c fresh) x = create-IsRetired h db dir c r x
Step-IsRetired h {r} (rotates db dir k n now) x = rotate-IsRetired h db dir k n now r x
Step-IsRetired h {r} (revokes_family db family reason now) x =
    revoke_family-IsRetired h db family reason now r x
Step-IsRetired h {r} (revokes_token db k now) x = revoke_by_token-IsRetired h db k now r x

Steps-IsRetired : (h : Bytes) {r s : Rows} → Steps r s → IsRetired h r → IsRetired h s
Steps-IsRetired h here x = x
Steps-IsRetired h (next t st) x = Step-IsRetired h st (Steps-IsRetired h t x)

Step-IsDeadFamily : (f : ℕ) {r s : Rows} → Step r s → IsDeadFamily f r → IsDeadFamily f s
Step-IsDeadFamily f {r} (creates db dir c fresh) x = create-IsDeadFamily f db dir c r fresh x
Step-IsDeadFamily f {r} (rotates db dir h n now) x = rotate-IsDeadFamily f db dir h n now r x
Step-IsDeadFamily f {r} (revokes_family db family reason now) x =
    revoke_family-IsDeadFamily f db family reason now r x
Step-IsDeadFamily f {r} (revokes_token db h now) x = revoke_by_token-IsDeadFamily f db h now r x

Steps-IsDeadFamily : (f : ℕ) {r s : Rows} → Steps r s → IsDeadFamily f r → IsDeadFamily f s
Steps-IsDeadFamily f here x = x
Steps-IsDeadFamily f (next t st) x = Step-IsDeadFamily f st (Steps-IsDeadFamily f t x)

-- A refresh token is exchanged at most once: after `rotate` accepted it, no later `rotate`, after
-- any steps and with any faults, accepts it again.
pub rotate_once :
    (db later : Faults) (dir dir' : Directory) (h : Bytes) (n n' : SuccessorRecord) (now now' : ℕ)
    (rows : Rows) {after : Rows}
    → is_ok (rotate db dir h n now rows).0 ≡ true
    → Steps (rotate db dir h n now rows).1 after
    → is_ok (rotate later dir' h n' now' after).0 ≡ false
rotate_once db later dir dir' h n n' now now' rows {after} o steps =
    rotate_retired h later dir' n' now' after
      (Steps-IsRetired h steps (rotate_ok-IsRetired h db dir n now rows o))

-- Reuse of an exchanged token ends its whole family, if no concurrent transaction inserts a row of
-- the family beside the UPDATE that revokes it. Say the database is healthy, that UPDATE sees every
-- row, the hash has 32 bytes, the successor is valid and `rotate` finds the row of `h` with
-- `replaced_at` set.
-- Then it answers `session_revoked`, and after any further steps no token of that family, the
-- newest one included, is accepted.
pub replay_ends_family :
    (later : Faults) (dir dir' : Directory) (h k : Bytes) (n n' : SuccessorRecord) (now now' : ℕ)
    (rows : Rows) (src : Source) (s : Session) {after : Rows}
    → length h ≡ 32
    → valid_successor n ≡ true
    → select_source dir h rows ≡ some src
    → is_some src.session.replaced_at ≡ true
    → Steps (rotate healthy dir h n now rows).1 after
    → find (has_hash k) after ≡ some s
    → s.family_id ≡ src.session.family_id
    → ((rotate healthy dir h n now rows).0 ≡ err session_revoked)
      × (is_ok (rotate later dir' k n' now' after).0 ≡ false)
replay_ends_family later dir dir' h k n n' now now' rows src s {after} len valid sel rep steps e
      own =
    (
      (rotate_replay dir h n now rows src len valid sel rep).0,
      rotate_dead src.session.family_id later dir' k n' now' after s
          (Steps-IsDeadFamily src.session.family_id steps
            (rotate_replay dir h n now rows src len valid sel rep).2)
          e own,
    )

-- A logout that answers ok, and whose UPDATE no concurrent transaction inserts a row beside, ends
-- the family of its token: no token of that family is accepted by `rotate` after it, whatever steps
-- and faults follow.
pub logout_ends_family :
    (db later : Faults) (dir : Directory) (h k : Bytes) (n : SuccessorRecord) (now now' : ℕ)
    (rows : Rows) (s t : Session) {after : Rows}
    → SeesAll db
    → find (has_hash h) rows ≡ some s
    → (revoke_by_token db h now rows).0 ≡ ok tt
    → Steps (revoke_by_token db h now rows).1 after
    → find (has_hash k) after ≡ some t
    → t.family_id ≡ s.family_id
    → is_ok (rotate later dir k n now' after).0 ≡ false
logout_ends_family db later dir h k n now now' rows s t {after} sees e o steps e' own =
    rotate_dead s.family_id later dir k n now' after t
      (Steps-IsDeadFamily s.family_id steps (revoke_by_token_dead db h now rows s sees e o)) e' own
