-- ===== src/Session/Repository/Retired.antt =====
-- Tokens that were exchanged or revoked, and families that were revoked as a whole
-- (internal/session/repository.go).
use aera_cloud.Prelude.{
  ℕ, ◌≡◌, refl, ap, Bool, true, false, inl, inr, Option, none, some, ◌∷◌, Bytes, String, arith,
  find, any, update_where, find-update, find-any, any-or, bytes_eq_iff, Bool-cases, Option-cases,
  not, is_ok,
}
use aera_cloud.Postgres.{Faults}
use aera_cloud.Session.Table.{
  Directory, Session, Rows, is_live, in_family, has_hash, has_id, insert_conflicts, revoke,
  revoke_replayed, replace,
}
use aera_cloud.Session.Repository.{
  CreateRecord, SuccessorRecord, Source, created_row, successor_row, create_session, select_source,
  rotate_source, rotate_selected, rotate, revoke_family, revoke_selected, revoke_by_token,
  is_seen_in,
}
use aera_cloud.Session.Repository.Live.{live_count, select_source-find}

-- The row of the token is known, and was replaced or revoked.
abbrev pub is_retired : Option Session → Bool
is_retired none = false
is_retired (some s) = not (is_live s)

abbrev pub IsRetired : Bytes → Rows → Type 0
IsRetired h rows = is_retired (find (has_hash h) rows) ≡ true

-- Every row of the family is replaced or revoked, and it has one.
abbrev pub IsDeadFamily : ℕ → Rows → Type 0
IsDeadFamily f rows = (live_count f rows ≡ 0) × (any (in_family f) rows ≡ true)

module _ (h : Bytes) (q : Session → Bool) (rows : Rows) where
  -- An update that keeps the hashes and makes no row live keeps a token retired.
  IsRetired-update :
      (f : Session → Session)
      → ((s : Session) → has_hash h (f s) ≡ has_hash h s)
      → ((s : Session) → is_live (f s) ≡ true → is_live s ≡ true)
      → IsRetired h rows
      → IsRetired h (update_where q f rows)
  IsRetired-update f key back r = elim (Option-cases (find (has_hash h) rows)) [
    | inl e ↦ ground (arith, e)
    | inr (s, e) ↦ ground (arith, e, find-update (has_hash h) q f key rows s e, back s)
  ]

  IsRetired-revoke :
      (now : ℕ) (reason : String)
      → IsRetired h rows
      → IsRetired h (update_where q (revoke now reason) rows)
  unfolding revoke
  IsRetired-revoke now reason =
      IsRetired-update (revoke now reason) (λ s. refl) (λ s e. ground arith)

  IsRetired-revoke_replayed :
      (now source : ℕ)
      → IsRetired h rows
      → IsRetired h (update_where q (revoke_replayed now source) rows)
  unfolding revoke_replayed
  IsRetired-revoke_replayed now source =
      IsRetired-update (revoke_replayed now source) (λ s. refl) (λ s e. ground arith)

  IsRetired-replace : (now : ℕ) → IsRetired h rows → IsRetired h (update_where q (replace now) rows)
  unfolding replace
  IsRetired-replace now = IsRetired-update (replace now) (λ s. refl) (λ s e. ground arith)

-- The unique refresh_token_hash keeps a second row from shadowing the first.
found-insert :
    (h : Bytes) (s new : Session) (rows : Rows)
    → insert_conflicts new rows ≡ false
    → find (has_hash h) rows ≡ some s
    → find (has_hash h) (new ∷ rows) ≡ some s
unfolding insert_conflicts
found-insert h s new rows free e = elim (Bool-cases (has_hash h new)) [
  | inl clash ↦
      let same = (bytes_eq_iff new.refresh_token_hash h).0 clash in
      let taken = (any-or (has_id new.id) (has_hash new.refresh_token_hash) rows free).1 in
      cc (taken, find-any (has_hash h) rows s e, ap (λ k. any (has_hash k) rows) same)
  | inr other ↦ ground (arith, other)
]

IsRetired-insert :
    (h : Bytes) (new : Session) (rows : Rows)
    → insert_conflicts new rows ≡ false
    → IsRetired h rows
    → IsRetired h (new ∷ rows)
IsRetired-insert h new rows free r = elim (Option-cases (find (has_hash h) rows)) [
  | inl e ↦ ground (arith, e)
  | inr (s, e) ↦ ground (arith, e, found-insert h s new rows free e)
]

pub create-IsRetired :
    (h : Bytes) (db : Faults) (dir : Directory) (c : CreateRecord) (rows : Rows)
    → IsRetired h rows
    → IsRetired h (create_session db dir c rows).1
unfolding create_session
create-IsRetired h db dir c rows r = ground (arith, IsRetired-insert h (created_row c) rows, r)

rotate_source-IsRetired :
    (h : Bytes) (db : Faults) (src : Source) (n : SuccessorRecord) (now : ℕ) (rows : Rows)
    → IsRetired h rows
    → IsRetired h (rotate_source db src n now rows).1
unfolding rotate_source
rotate_source-IsRetired h db src n now rows r =
    let s = src.session in
    let new = successor_row s n in
    ground (
      arith,
      IsRetired-revoke_replayed h (is_seen_in db s.family_id) rows now s.id r,
      IsRetired-revoke h (is_seen_in db s.family_id) rows now "session_invalid" r,
      IsRetired-insert h new rows,
      IsRetired-replace h (has_id s.id) (new ∷ rows) now,
      r,
    )

pub rotate-IsRetired :
    (h : Bytes) (db : Faults) (dir : Directory) (k : Bytes) (n : SuccessorRecord) (now : ℕ)
    (rows : Rows)
    → IsRetired h rows
    → IsRetired h (rotate db dir k n now rows).1
unfolding rotate rotate_selected
rotate-IsRetired h db dir k n now rows r = elim (Option-cases (select_source dir k rows)) [
  | inl e ↦ ground (arith, e, r)
  | inr (src, e) ↦ ground (arith, e, r, rotate_source-IsRetired h db src n now rows r)
]

pub revoke_family-IsRetired :
    (h : Bytes) (db : Faults) (family : ℕ) (reason : String) (now : ℕ) (rows : Rows)
    → IsRetired h rows
    → IsRetired h (revoke_family db family reason now rows).1
unfolding revoke_family
revoke_family-IsRetired h db family reason now rows r =
    ground (arith, r, IsRetired-revoke h (in_family family) rows now reason r)

pub revoke_by_token-IsRetired :
    (h : Bytes) (db : Faults) (k : Bytes) (now : ℕ) (rows : Rows)
    → IsRetired h rows
    → IsRetired h (revoke_by_token db k now rows).1
unfolding revoke_by_token revoke_selected
revoke_by_token-IsRetired h db k now rows r = elim (Option-cases (find (has_hash k) rows)) [
  | inl e ↦ ground (arith, e, r)
  | inr (s, e) ↦
      ground (arith, e, r, IsRetired-revoke h (is_seen_in db s.family_id) rows now "user_logout" r)
]

-- A retired token is not exchanged.
pub rotate_retired :
    (h : Bytes) (db : Faults) (dir : Directory) (n : SuccessorRecord) (now : ℕ) (rows : Rows)
    → IsRetired h rows
    → is_ok (rotate db dir h n now rows).0 ≡ false
unfolding rotate rotate_selected rotate_source
rotate_retired h db dir n now rows r = elim (Option-cases (select_source dir h rows)) [
  | inl e ↦ ground (arith, e, r)
  | inr (src, e) ↦ ground (arith, e, r, select_source-find dir h rows src e)
]

-- An exchange retires the token that it took.
pub rotate_ok-IsRetired :
    (h : Bytes) (db : Faults) (dir : Directory) (n : SuccessorRecord) (now : ℕ) (rows : Rows)
    → is_ok (rotate db dir h n now rows).0 ≡ true
    → IsRetired h (rotate db dir h n now rows).1
unfolding rotate rotate_selected rotate_source
rotate_ok-IsRetired h db dir n now rows = elim (Option-cases (select_source dir h rows)) [
  | inl e ↦ λ o. ground (arith, e, o)
  | inr (src, e) ↦
      let s = src.session in
      let found = select_source-find dir h rows src e in
      λ o. ground (
        arith,
        e,
        o,
        found-insert h s (successor_row s n) rows,
        replaced s (successor_row s n ∷ rows),
      )
]
  where
    replaced :
        (s : Session) (all : Rows)
        → find (has_hash h) all ≡ some s
        → IsRetired h (update_where (has_id s.id) (replace now) all)
    replaced s all found =
        unfold replace in
        ground (arith, find-update (has_hash h) (has_id s.id) (replace now) (λ x. refl) all s found)
