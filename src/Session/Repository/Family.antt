-- ===== src/Session/Repository/Family.antt =====
-- Families that were revoked as a whole (internal/session/repository.go).
use aera_cloud.Prelude.{
  ℕ, ◌≡◌, refl, sym, subst, Bool, true, false, inl, inr, some, [], ◌∷◌, Bytes, String, arith, find,
  any, update_where, count-find, update-All, any-update, Option-cases, is_some, is_ok, ok, err, All,
  length,
}
use aera_cloud.Postgres.{Faults, healthy}
use aera_cloud.Session.Table.{
  session_revoked, Directory, Session, Rows, is_live, in_family, has_hash, has_id, revoke,
  revoke_replayed, replace,
}
use aera_cloud.Session.Repository.{
  CreateRecord, SuccessorRecord, Source, created_row, successor_row, create_session, select_source,
  rotate_source, rotate_selected, rotate, revoke_family, revoke_selected, revoke_by_token,
  valid_successor, is_seen_in,
}
use aera_cloud.Session.Repository.Live.{
  live_in, live_count, select_source-find, rotate-live_le, revoke_family-live_le,
  revoke_by_token-live_le,
}
use aera_cloud.Session.Repository.Retired.{rotate_retired}

-- The family has rows, and every one of them is replaced or revoked.
abbrev pub IsDeadFamily : ℕ → Rows → Type 0
IsDeadFamily f rows = (live_count f rows ≡ 0) × (any (in_family f) rows ≡ true)

-- Every row of the family is revoked.
abbrev pub AllRevoked : ℕ → Rows → Type 0
AllRevoked f rows = All (λ s. in_family f s ≡ true → is_some s.revoked_at ≡ true) rows

AllRevoked-live : (f : ℕ) (rows : Rows) → AllRevoked f rows → live_count f rows ≡ 0
AllRevoked-live f [] a = refl
AllRevoked-live f (s ∷ rows) a = ground (arith, a.0, AllRevoked-live f rows a.1)

-- An UPDATE that misses no row of the family.
module _ (f : ℕ) (p : Session → Bool) (sees : (s : Session) → in_family f s ≡ true → p s ≡ true)
    (now : ℕ) (rows : Rows) where
  revoke-AllRevoked : (reason : String) → AllRevoked f (update_where p (revoke now reason) rows)
  unfolding revoke
  revoke-AllRevoked reason =
      update-All (λ s. in_family f s ≡ true → is_some s.revoked_at ≡ true) p (revoke now reason)
        (λ s e i. ground arith) (λ s e i. cc (e, sees s i)) rows

  revoke_replayed-AllRevoked :
      (source : ℕ) → AllRevoked f (update_where p (revoke_replayed now source) rows)
  unfolding revoke_replayed
  revoke_replayed-AllRevoked source =
      update-All (λ s. in_family f s ≡ true → is_some s.revoked_at ≡ true) p
        (revoke_replayed now source) (λ s e i. ground arith) (λ s e i. cc (e, sees s i)) rows

-- No row is inserted beside the UPDATE.
abbrev pub SeesAll : Faults → Type 0
SeesAll db = (i : ℕ) → db.unseen i ≡ false

seen-all :
    (db : Faults) (f : ℕ)
    → SeesAll db
    → (s : Session) → in_family f s ≡ true
    → is_seen_in db f s ≡ true
seen-all db f sees s e = rw (e, sees s.id) refl

module _ (f : ℕ) (q : Session → Bool) (rows : Rows) where
  family-revoke :
      (now : ℕ) (reason : String)
      → any (in_family f) (update_where q (revoke now reason) rows) ≡ any (in_family f) rows
  unfolding revoke
  family-revoke now reason = any-update (in_family f) q (revoke now reason) (λ s. refl) rows

  family-revoke_replayed :
      (now source : ℕ)
      → any (in_family f) (update_where q (revoke_replayed now source) rows)
        ≡ any (in_family f) rows
  unfolding revoke_replayed
  family-revoke_replayed now source =
      any-update (in_family f) q (revoke_replayed now source) (λ s. refl) rows

  family-replace :
      (now : ℕ) → any (in_family f) (update_where q (replace now) rows) ≡ any (in_family f) rows
  unfolding replace
  family-replace now = any-update (in_family f) q (replace now) (λ s. refl) rows

-- No operation loses a family.
pub create-family :
    (f : ℕ) (db : Faults) (dir : Directory) (c : CreateRecord) (rows : Rows)
    → any (in_family f) rows ≡ true
    → any (in_family f) (create_session db dir c rows).1 ≡ true
unfolding create_session
create-family f db dir c rows k = ground arith

pub rotate-family :
    (f : ℕ) (db : Faults) (dir : Directory) (h : Bytes) (n : SuccessorRecord) (now : ℕ)
    (rows : Rows)
    → any (in_family f) rows ≡ true
    → any (in_family f) (rotate db dir h n now rows).1 ≡ true
unfolding rotate rotate_selected rotate_source
rotate-family f db dir h n now rows k = elim (Option-cases (select_source dir h rows)) [
  | inl e ↦ ground (arith, e)
  | inr (src, e) ↦
      let s = src.session in
      ground (
        arith,
        e,
        family-revoke_replayed f (is_seen_in db s.family_id) rows now s.id,
        family-revoke f (is_seen_in db s.family_id) rows now "session_invalid",
        family-replace f (has_id s.id) (successor_row s n ∷ rows) now,
      )
]

pub revoke_family-family :
    (f : ℕ) (db : Faults) (family : ℕ) (reason : String) (now : ℕ) (rows : Rows)
    → any (in_family f) rows ≡ true
    → any (in_family f) (revoke_family db family reason now rows).1 ≡ true
unfolding revoke_family
revoke_family-family f db family reason now rows k =
    ground (arith, family-revoke f (in_family family) rows now reason)

pub revoke_by_token-family :
    (f : ℕ) (db : Faults) (h : Bytes) (now : ℕ) (rows : Rows)
    → any (in_family f) rows ≡ true
    → any (in_family f) (revoke_by_token db h now rows).1 ≡ true
unfolding revoke_by_token revoke_selected
revoke_by_token-family f db h now rows k = elim (Option-cases (find (has_hash h) rows)) [
  | inl e ↦ ground (arith, e)
  | inr (s, e) ↦
      ground (arith, e, family-revoke f (is_seen_in db s.family_id) rows now "user_logout")
]

-- A family that exists is not created again, so a dead one stays dead.
pub create-IsDeadFamily :
    (f : ℕ) (db : Faults) (dir : Directory) (c : CreateRecord) (rows : Rows)
    → any (in_family c.family_id) rows ≡ false
    → IsDeadFamily f rows
    → IsDeadFamily f (create_session db dir c rows).1
unfolding create_session created_row
create-IsDeadFamily f db dir c rows fresh (z, k) = ground (arith, fresh, z, k)

pub rotate-IsDeadFamily :
    (f : ℕ) (db : Faults) (dir : Directory) (h : Bytes) (n : SuccessorRecord) (now : ℕ)
    (rows : Rows)
    → IsDeadFamily f rows
    → IsDeadFamily f (rotate db dir h n now rows).1
rotate-IsDeadFamily f db dir h n now rows (z, k) =
    (omega (arith, rotate-live_le f db dir h n now rows), rotate-family f db dir h n now rows k)

pub revoke_family-IsDeadFamily :
    (f : ℕ) (db : Faults) (family : ℕ) (reason : String) (now : ℕ) (rows : Rows)
    → IsDeadFamily f rows
    → IsDeadFamily f (revoke_family db family reason now rows).1
revoke_family-IsDeadFamily f db family reason now rows (z, k) = (
  omega (arith, revoke_family-live_le f db family reason now rows),
  revoke_family-family f db family reason now rows k,
)

pub revoke_by_token-IsDeadFamily :
    (f : ℕ) (db : Faults) (h : Bytes) (now : ℕ) (rows : Rows)
    → IsDeadFamily f rows
    → IsDeadFamily f (revoke_by_token db h now rows).1
revoke_by_token-IsDeadFamily f db h now rows (z, k) = (
  omega (arith, revoke_by_token-live_le f db h now rows),
  revoke_by_token-family f db h now rows k,
)

-- A token of a dead family is not exchanged.
pub rotate_dead :
    (f : ℕ) (db : Faults) (dir : Directory) (h : Bytes) (n : SuccessorRecord) (now : ℕ)
    (rows : Rows) (s : Session)
    → IsDeadFamily f rows
    → find (has_hash h) rows ≡ some s
    → s.family_id ≡ f
    → is_ok (rotate db dir h n now rows).0 ≡ false
rotate_dead f db dir h n now rows s (z, k) e own =
    rotate_retired h db dir n now rows (ground (arith, e, dead))
  where
    dead : is_live s ≡ true → ⊥
    dead live = omega (arith, count-find (live_in f) (has_hash h) rows s e (ground arith))

exists_family :
    (h : Bytes) (s : Session) (rows : Rows)
    → find (has_hash h) rows ≡ some s
    → any (in_family s.family_id) rows ≡ true
exists_family h s [] e = cc e
exists_family h s (x ∷ xs) e = ground (arith, exists_family h s xs)

-- A replayed token revokes its whole family. A request that reaches the row with a replaced
-- token and whose transaction commits ends in this state.
pub rotate_replay :
    (dir : Directory) (h : Bytes) (n : SuccessorRecord) (now : ℕ) (rows : Rows) (src : Source)
    → length h ≡ 32
    → valid_successor n ≡ true
    → select_source dir h rows ≡ some src
    → is_some src.session.replaced_at ≡ true
    → let r = rotate healthy dir h n now rows in
      (r.0 ≡ err session_revoked)
      × AllRevoked src.session.family_id r.1
      × IsDeadFamily src.session.family_id r.1
unfolding rotate rotate_selected rotate_source
rotate_replay dir h n now rows src len valid sel replaced =
    rw (len, valid, sel, replaced) (refl, all, (AllRevoked-live f _ all, known))
  where
    f : ℕ
    f = src.session.family_id

    p : Session → Bool
    p = is_seen_in healthy f

    all : AllRevoked f (update_where p (revoke_replayed now src.session.id) rows)
    all = revoke_replayed-AllRevoked f p (seen-all healthy f (λ i. refl)) now rows src.session.id

    known : any (in_family f) (update_where p (revoke_replayed now src.session.id) rows) ≡ true
    known =
        rw (family-revoke_replayed f p rows now src.session.id)
          (exists_family h src.session rows (select_source-find dir h rows src sel))

-- A logout that succeeds revokes the whole family of the token that it names.
pub revoke_by_token_ok :
    (db : Faults) (h : Bytes) (now : ℕ) (rows : Rows) (s : Session)
    → SeesAll db
    → find (has_hash h) rows ≡ some s
    → (revoke_by_token db h now rows).0 ≡ ok tt
    → AllRevoked s.family_id (revoke_by_token db h now rows).1
unfolding revoke_by_token revoke_selected
revoke_by_token_ok db h now rows s sees e o =
    let new = update_where (is_seen_in db s.family_id) (revoke now "user_logout") rows in
    subst (AllRevoked s.family_id) (sym (same new refl)) (
      revoke-AllRevoked s.family_id (is_seen_in db s.family_id) (seen-all db s.family_id sees) now
        rows "user_logout")
  where
    same :
        (new : Rows)
        → new ≡ update_where (is_seen_in db s.family_id) (revoke now "user_logout") rows
        → (revoke_by_token db h now rows).1 ≡ new
    same new w = ground (arith, e, o)

pub revoke_by_token_dead :
    (db : Faults) (h : Bytes) (now : ℕ) (rows : Rows) (s : Session)
    → SeesAll db
    → find (has_hash h) rows ≡ some s
    → (revoke_by_token db h now rows).0 ≡ ok tt
    → IsDeadFamily s.family_id (revoke_by_token db h now rows).1
revoke_by_token_dead db h now rows s sees e o = (
  AllRevoked-live s.family_id _ (revoke_by_token_ok db h now rows s sees e o),
  revoke_by_token-family s.family_id db h now rows (exists_family h s rows e),
)

-- RevokeFamily that succeeds revokes every row of the family.
pub revoke_family_ok :
    (db : Faults) (family : ℕ) (reason : String) (now : ℕ) (rows : Rows)
    → (revoke_family db family reason now rows).0 ≡ ok tt
    → AllRevoked family (revoke_family db family reason now rows).1
unfolding revoke_family
revoke_family_ok db family reason now rows o =
    subst (AllRevoked family) (sym same)
      (revoke-AllRevoked family (in_family family) (λ s i. i) now rows reason)
  where
    same :
        (revoke_family db family reason now rows).1
        ≡ update_where (in_family family) (revoke now reason) rows
    same = ground (arith, o)
