-- ===== src/Session/Repository/Live.antt =====
-- How many refresh tokens of one family are live (internal/session/repository.go).
use aera_cloud.Prelude.{
  ℕ, ◌≤◌, ◌≡◌, refl, Bool, true, false, ◌&&◌, inl, inr, some, [], ◌∷◌, Bytes, String, arith, find,
  any, update_where, count_where, count-update_le, count-update_lt, Bool-cases, Option-cases,
}
use aera_cloud.Postgres.{Faults}
use aera_cloud.Session.Table.{
  Directory, Session, Rows, is_live, in_family, has_hash, has_id, revoke, revoke_replayed, replace,
}
use aera_cloud.Session.Repository.{
  CreateRecord, SuccessorRecord, Source, created_row, successor_row, create_session, select_source,
  rotate_source, rotate_selected, rotate, revoke_family, revoke_selected, revoke_by_token,
  is_seen_in,
}

abbrev pub live_in : ℕ → Session → Bool
live_in f s = in_family f s && is_live s

abbrev pub live_count : ℕ → Rows → ℕ
live_count f rows = count_where (live_in f) rows

abbrev pub AtMostOneLive : Rows → Type 0
AtMostOneLive rows = (f : ℕ) → live_count f rows ≤ 1

-- Revoking never makes a row live.
live-revoke_le :
    (f : ℕ) (p : Session → Bool) (now : ℕ) (reason : String) (rows : Rows)
    → live_count f (update_where p (revoke now reason) rows) ≤ live_count f rows
live-revoke_le f p now reason rows = count-update_le (live_in f) p (revoke now reason) back rows
  where
    back : (s : Session) → live_in f (revoke now reason s) ≡ true → live_in f s ≡ true
    back s h = unfold revoke in ground arith

live-revoke_replayed_le :
    (f : ℕ) (p : Session → Bool) (now source : ℕ) (rows : Rows)
    → live_count f (update_where p (revoke_replayed now source) rows) ≤ live_count f rows
live-revoke_replayed_le f p now source rows =
    count-update_le (live_in f) p (revoke_replayed now source) back rows
  where
    back : (s : Session) → live_in f (revoke_replayed now source s) ≡ true → live_in f s ≡ true
    back s h = unfold revoke_replayed in ground arith

live-replace_le :
    (f : ℕ) (p : Session → Bool) (now : ℕ) (rows : Rows)
    → live_count f (update_where p (replace now) rows) ≤ live_count f rows
live-replace_le f p now rows = count-update_le (live_in f) p (replace now) back rows
  where
    back : (s : Session) → live_in f (replace now s) ≡ true → live_in f s ≡ true
    back s h = unfold replace in ground arith

-- A successor takes the place of its live source, and adds nothing to another family.
live-succession_le :
    (f : ℕ) (h : Session → Bool) (s : Session) (n : SuccessorRecord) (now : ℕ) (rows : Rows)
    → find h rows ≡ some s
    → is_live s ≡ true
    → live_count f (update_where (has_id s.id) (replace now) (successor_row s n ∷ rows))
      ≤ live_count f rows
unfolding successor_row replace
live-succession_le f h s n now rows found live = elim (Bool-cases (in_family f s)) [
  | inl own ↦ ground (
    arith,
    own,
    count-update_lt (live_in f) (has_id s.id) (replace now) drop h rows s found (ground arith)
        (ground arith),
  )
  | inr other ↦ ground (arith, other, live-replace_le f (has_id s.id) now rows)
]
  where
    drop : (x : Session) → has_id s.id x ≡ true → live_in f (replace now x) ≡ false
    drop x e = ground arith

rotate_source-live_le :
    (f : ℕ) (h : Session → Bool) (db : Faults) (src : Source) (n : SuccessorRecord) (now : ℕ)
    (rows : Rows)
    → find h rows ≡ some src.session
    → live_count f (rotate_source db src n now rows).1 ≤ live_count f rows
unfolding rotate_source
rotate_source-live_le f h db src n now rows found = ground (
  arith,
  live-revoke_replayed_le f (is_seen_in db src.session.family_id) now src.session.id rows,
  live-revoke_le f (is_seen_in db src.session.family_id) now "session_invalid" rows,
  live-succession_le f h src.session n now rows found,
)

pub select_source-find :
    (dir : Directory) (h : Bytes) (rows : Rows) (src : Source)
    → select_source dir h rows ≡ some src
    → find (has_hash h) rows ≡ some src.session
unfolding select_source
select_source-find dir h rows src e = ground arith

pub rotate-live_le :
    (f : ℕ) (db : Faults) (dir : Directory) (h : Bytes) (n : SuccessorRecord) (now : ℕ)
    (rows : Rows)
    → live_count f (rotate db dir h n now rows).1 ≤ live_count f rows
unfolding rotate rotate_selected
rotate-live_le f db dir h n now rows = elim (Option-cases (select_source dir h rows)) [
  | inl e ↦ ground (arith, e)
  | inr (src, e) ↦ ground (
    arith,
    e,
    rotate_source-live_le f (has_hash h) db src n now rows (select_source-find dir h rows src e),
  )
]

pub revoke_family-live_le :
    (f : ℕ) (db : Faults) (family : ℕ) (reason : String) (now : ℕ) (rows : Rows)
    → live_count f (revoke_family db family reason now rows).1 ≤ live_count f rows
unfolding revoke_family
revoke_family-live_le f db family reason now rows =
    ground (arith, live-revoke_le f (in_family family) now reason rows)

pub revoke_by_token-live_le :
    (f : ℕ) (db : Faults) (h : Bytes) (now : ℕ) (rows : Rows)
    → live_count f (revoke_by_token db h now rows).1 ≤ live_count f rows
unfolding revoke_by_token revoke_selected
revoke_by_token-live_le f db h now rows = elim (Option-cases (find (has_hash h) rows)) [
  | inl e ↦ ground (arith, e)
  | inr (s, e) ↦
      ground (arith, e, live-revoke_le f (is_seen_in db s.family_id) now "user_logout" rows)
]

-- A family that no row has yet gets at most one live row.
pub create-live_le :
    (f : ℕ) (db : Faults) (dir : Directory) (c : CreateRecord) (rows : Rows)
    → any (in_family c.family_id) rows ≡ false
    → live_count f rows ≤ 1
    → live_count f (create_session db dir c rows).1 ≤ 1
unfolding create_session created_row
create-live_le f db dir c rows fresh one = ground (arith, live_none f rows)
  where
    live_none : (f : ℕ) (rows : Rows) → any (in_family f) rows ≡ false → live_count f rows ≡ 0
    live_none f [] e = refl
    live_none f (x ∷ xs) e = ground (arith, live_none f xs)
