-- ===== src/Session/Authenticator/Laws.antt =====
-- Who is let in (internal/session/revocation.go).
use aera_cloud.Prelude.{
  ℕ, ◌<◌, ◌≡◌, refl, true, false, Option, none, some, inl, inr, Result, ok, err, is_ok, is_some,
  arith, result-cases, any, All, ◌&&◌, ◌==◌, ltb, not, [], ◌∷◌,
}
use aera_cloud.Postgres.{Faults}
use aera_cloud.Session.Table.{Error, Directory, Rows, has_id}
use aera_cloud.Session.Repository.{AccessBinding, access_active, access_row_active}
use aera_cloud.Session.Access.{AccessClaims}
use aera_cloud.Session.Authenticator.{
  AccessStatus, Cache, unknown, active, revoked, holds_revoked, read_status, write_status,
  write_back, check_database, check_status, authenticate,
}

check_database-ok :
    (db : Faults) (dir : Directory) (rows : Rows) (c : Cache) (claims got : AccessClaims) (now : ℕ)
    → (check_database db dir rows c claims now).0 ≡ ok got
    → (got ≡ claims) × (access_row_active dir rows claims.binding now ≡ true)
unfolding check_database write_back write_status access_active
check_database-ok db dir rows c claims got now e = ground (arith, e)

check_status-ok :
    (db : Faults) (dir : Directory) (rows : Rows) (c : Cache) (claims got : AccessClaims) (now : ℕ)
    (st : Option AccessStatus)
    → (check_status db dir rows c claims now st).0 ≡ ok got
    → (got ≡ claims) × (access_row_active dir rows claims.binding now ≡ true)
unfolding check_status
check_status-ok db dir rows c claims got now none e = absurd (cc e)
check_status-ok db dir rows c claims got now (some revoked) e = absurd (cc e)
check_status-ok db dir rows c claims got now (some unknown) e =
    check_database-ok db dir rows c claims got now e
check_status-ok db dir rows c claims got now (some active) e =
    check_database-ok db dir rows c claims got now e

-- Whatever the cache holds and whichever calls fail, Authenticate lets in only verified claims
-- that have not expired and whose session, user, device and space PostgreSQL reads as active.
pub authenticate-active :
    (db : Faults) (dir : Directory) (rows : Rows) (c : Cache) (now : ℕ)
    (verified : Result Error AccessClaims) (got : AccessClaims)
    → (authenticate db dir rows c now verified).0 ≡ ok got
    → (verified ≡ ok got)
      × (now < got.expires_at)
      × (access_row_active dir rows got.binding now ≡ true)
unfolding authenticate
authenticate-active db dir rows c now (err x) got e = absurd (cc e)
authenticate-active db dir rows c now (ok claims) got e = ground (
  arith,
  e,
  check_status-ok db dir rows c claims got now (read_status c claims.binding.session_id),
)

-- No row that could let the session in: each one with its id is revoked.
abbrev pub IsRevokedSession : ℕ → Rows → Type 0
IsRevokedSession id rows = All (λ s. has_id id s ≡ true → is_some s.revoked_at ≡ true) rows

revoked-inactive :
    (b : AccessBinding) (now : ℕ) (rows : Rows)
    → IsRevokedSession b.session_id rows
    → any
        (λ s.
          has_id b.session_id s
          && s.user_id == b.user_id
          && s.device_id == b.device_id
          && not (is_some s.revoked_at)
          && ltb now s.expires_at)
        rows
      ≡ false
revoked-inactive b now [] a = refl
revoked-inactive b now (s ∷ rows) a = ground (arith, a.0, revoked-inactive b now rows a.1)

-- A revoked session is refused at once, also where the cache still says `active`.
pub authenticate_revoked :
    (db : Faults) (dir : Directory) (rows : Rows) (c : Cache) (now : ℕ)
    (verified : Result Error AccessClaims) (claims : AccessClaims)
    → verified ≡ ok claims
    → IsRevokedSession claims.binding.session_id rows
    → is_ok (authenticate db dir rows c now verified).0 ≡ false
unfolding access_row_active
authenticate_revoked db dir rows c now verified claims v a =
    elim (result-cases (authenticate db dir rows c now verified).0) [
      | inr failed ↦ failed
      | inl (got, e) ↦ ground (
        arith,
        v,
        authenticate-active db dir rows c now verified got e,
        revoked-inactive claims.binding now rows a,
      )
    ]

-- A terminal `revoked` entry is never left: Authenticate refuses and keeps the entry.
pub authenticate_sticky :
    (db : Faults) (dir : Directory) (rows : Rows) (c : Cache) (now : ℕ)
    (verified : Result Error AccessClaims)
    → c.entry ≡ some holds_revoked
    → (is_ok (authenticate db dir rows c now verified).0 ≡ false)
      × ((authenticate db dir rows c now verified).1 ≡ c)
unfolding authenticate check_status read_status
authenticate_sticky db dir rows c now (err x) h = (refl, refl)
authenticate_sticky db dir rows c now (ok claims) h = ground (arith, h)
