-- ===== src/Session/Authenticator.antt =====
-- internal/session/revocation.go: access tokens are checked against the shared status cache and
-- then against PostgreSQL. The cache is Redis: its replies are parameters, its entry for the
-- session is the state.
pub mod Laws
use aera_cloud.Prelude.{
  ℕ, ◌-◌, Bool, true, false, ◌||◌, Option, none, some, not, Result, ok, err, ◌==◌, ltb, leb,
  if◌then◌else◌,
}
use aera_cloud.Postgres.{Faults}
use aera_cloud.Session.Table.{
  Error, session_revoked, unavailable, invalid_access_token, Directory, Rows,
}
use aera_cloud.Session.Repository.{AccessBinding, access_active}
use aera_cloud.Session.Access.{AccessClaims}

pub data AccessStatus : Type 0 where
  unknown active revoked : AccessStatus

-- The stored value: `other` is any text but "active" and "revoked".
pub data Entry : Type 0 where
  holds_active holds_revoked other : Entry

-- The Redis key of the session, and which of the two calls fail.
pub record Cache : Type 0 where
  pub entry : Option Entry
  pub get_fails : Bool
  pub set_fails : Bool

unfoldable pub parse_entry : Option Entry → Option AccessStatus
parse_entry none = some unknown
parse_entry (some holds_active) = some active
parse_entry (some holds_revoked) = some revoked
parse_entry (some other) = none

-- RedisAccessStatusCache.Read; `none` is an error.
unfoldable pub read_status : Cache → ℕ → Option AccessStatus
unfolding parse_entry
read_status c session_id =
    if session_id == 0 then none else if c.get_fails then none else parse_entry c.entry

unfoldable pub entry_of : AccessStatus → Option Entry
entry_of unknown = none
entry_of active = some holds_active
entry_of revoked = some holds_revoked

unfoldable pub write_entry : Cache → Option Entry → Option Cache
write_entry c none = none
write_entry c (some e) = if c.set_fails then none else some (record c { entry = some e })

-- RedisAccessStatusCache.Write; `none` is an error.
unfoldable pub write_status : Cache → ℕ → AccessStatus → ℕ → Option Cache
unfolding entry_of write_entry
write_status c session_id status ttl =
    if session_id == 0 || ttl == 0 then none else write_entry c (entry_of status)

unfoldable pub status_of : Bool → AccessStatus
status_of true = active
status_of false = revoked

unfoldable pub answer : AccessClaims → Bool → Result Error AccessClaims
answer claims true = ok claims
answer claims false = err session_revoked

unfoldable pub write_back : Cache → AccessClaims → ℕ → Bool → Result Error AccessClaims × Cache
unfolding status_of answer
write_back c claims now live =
    elim (write_status c claims.binding.session_id (status_of live) (claims.expires_at - now)) [
      | none ↦ (err unavailable, c)
      | some c' ↦ (answer claims live, c')
    ]

unfoldable pub check_database :
    Faults → Directory → Rows → Cache → AccessClaims → ℕ → Result Error AccessClaims × Cache
unfolding write_back
check_database db dir rows c claims now = elim (access_active db dir rows claims.binding now) [
  | err e ↦ (err unavailable, c)
  | ok live ↦ write_back c claims now live
]

unfoldable pub check_status :
    Faults
    → Directory
    → Rows
    → Cache
    → AccessClaims
    → ℕ
    → Option AccessStatus
    → Result Error AccessClaims × Cache
unfolding check_database
check_status db dir rows c claims now none = (err unavailable, c)
check_status db dir rows c claims now (some revoked) = (err session_revoked, c)
check_status db dir rows c claims now (some unknown) = check_database db dir rows c claims now
check_status db dir rows c claims now (some active) = check_database db dir rows c claims now

-- Authenticate, from the answer of the token verifier on.
unfoldable pub authenticate :
    Faults
    → Directory
    → Rows
    → Cache
    → ℕ
    → Result Error AccessClaims
    → Result Error AccessClaims × Cache
unfolding check_status
authenticate db dir rows c now (err e) = (err invalid_access_token, c)
authenticate db dir rows c now (ok claims) =
    if not (ltb now claims.expires_at)
    then (err invalid_access_token, c)
    else check_status db dir rows c claims now (read_status c claims.binding.session_id)
