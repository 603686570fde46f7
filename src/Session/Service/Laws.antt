-- ===== src/Session/Service/Laws.antt =====
-- What Start, Refresh and Revoke promise (internal/session/service.go).
use aera_cloud.Prelude.{
  ℕ, ◌+◌, ◌≡◌, true, false, inl, inr, none, some, Bytes, length, is_ok, Result, ok, err, ◌==◌,
  arith, Option-cases, Bool-cases, sym, subst,
}
use aera_cloud.Postgres.{Faults}
use aera_cloud.Secure.Base64.{decode_canonical}
use aera_cloud.Session.Table.{Error, unavailable, Directory, Rows}
use aera_cloud.Session.Repository.{SuccessorRecord, Rotation, rotate, revoke_family}
use aera_cloud.Session.Repository.Family.{AllRevoked, revoke_family_ok}
use aera_cloud.Session.Trace.{Steps, rotate_once}
use aera_cloud.Session.Service.{
  Service, Draws, Issuers, issue_token_set, refresh, refresh_hash, refresh_secret, refresh_rotated,
  refresh_lifetime,
}

refresh_rotated-ok :
    (s : Service) (undo : Faults) (draws : Draws) (secret : Bytes)
    (x : Result Error Rotation × Rows)
    → is_ok (refresh_rotated s undo draws secret x).0 ≡ true
    → (is_ok x.0 ≡ true) × ((refresh_rotated s undo draws secret x).1 ≡ x.1)
unfolding refresh_rotated issue_token_set
refresh_rotated-ok s undo draws secret (ok r, rows) e = ground (arith, e)
refresh_rotated-ok s undo draws secret (err x, rows) e = absurd (cc e)

successor_of : Service → Draws → ℕ → Bytes → SuccessorRecord
successor_of s draws session_id secret = record {
  session_id = session_id;
  refresh_token_hash = refresh_hash s secret;
  issued_at = draws.now;
  expires_at = draws.now + refresh_lifetime;
}

-- What a successful refresh did: it drew a secret and an id, and exchanged the presented token.
abbrev Refreshed : Service → Faults → Directory → Draws → Bytes → Rows → Rows → Type 0
Refreshed s db dir draws presented rows after =
    (secret : Bytes) × (session_id : ℕ) × (is_ok
        (rotate db dir (refresh_hash s presented) (successor_of s draws session_id secret) draws.now
          rows).0
      ≡ true)
    × (after
        ≡ (rotate db dir (refresh_hash s presented) (successor_of s draws session_id secret)
            draws.now rows).1)

refresh_secret-Refreshed :
    (s : Service) (db undo : Faults) (dir : Directory) (draws : Draws) (presented : Bytes)
    (rows : Rows)
    → is_ok (refresh_secret s db undo dir draws presented rows).0 ≡ true
    → Refreshed s db dir draws presented rows (refresh_secret s db undo dir draws presented rows).1
unfolding refresh_secret successor_of
refresh_secret-Refreshed s db undo dir draws presented rows e = elim (Option-cases draws.secret) [
  | inl no_secret ↦ absurd (ground (arith, e, no_secret))
  | inr (secret, drawn) ↦ elim (Option-cases draws.session_id) [
    | inl no_id ↦ absurd (ground (arith, e, drawn, no_id))
    | inr (session_id, got) ↦
        let x =
          rotate db dir (refresh_hash s presented)
            (record {
              session_id = session_id;
              refresh_token_hash = refresh_hash s secret;
              issued_at = draws.now;
              expires_at = draws.now + refresh_lifetime;
            })
            draws.now rows in
        (
          secret,
          session_id,
          ground (arith, e, drawn, got, refresh_rotated-ok s undo draws secret x),
          ground (arith, e, drawn, got, refresh_rotated-ok s undo draws secret x),
        )
  ]
]

refresh-decoded :
    (s : Service) (db undo : Faults) (dir : Directory) (draws : Draws) (token presented : Bytes)
    (rows : Rows)
    → decode_canonical token ≡ some presented
    → (length presented == 32) ≡ true
    → refresh s db undo dir draws token rows ≡ refresh_secret s db undo dir draws presented rows
unfolding refresh
refresh-decoded s db undo dir draws token presented rows d len = rw (d, len)

refresh_undecoded :
    (s : Service) (db undo : Faults) (dir : Directory) (draws : Draws) (token : Bytes) (rows : Rows)
    → decode_canonical token ≡ none
    → is_ok (refresh s db undo dir draws token rows).0 ≡ true
    → ⊥
unfolding refresh
refresh_undecoded s db undo dir draws token rows d = rw d (λ e. cc e)

refresh-Refreshed :
    (s : Service) (db undo : Faults) (dir : Directory) (draws : Draws) (token presented : Bytes)
    (rows : Rows)
    → decode_canonical token ≡ some presented
    → is_ok (refresh s db undo dir draws token rows).0 ≡ true
    → Refreshed s db dir draws presented rows (refresh s db undo dir draws token rows).1
unfolding refresh
refresh-Refreshed s db undo dir draws token presented rows d e =
    elim (Bool-cases (length presented == 32)) [
      | inl len ↦
          let same = refresh-decoded s db undo dir draws token presented rows d len in
          subst (λ x. is_ok x.0 ≡ true → Refreshed s db dir draws presented rows x.1) (sym same)
            (refresh_secret-Refreshed s db undo dir draws presented rows) e
      | inr len ↦ absurd (ground (arith, e, d, len))
    ]

-- A refresh token is good for one refresh: once Refresh answered with new tokens, no later
-- Refresh of the same token does, whatever transactions ran in between.
pub refresh_once :
    (s : Service) (db undo db' undo' : Faults) (dir dir' : Directory) (draws draws' : Draws)
    (token : Bytes) (rows : Rows) {after : Rows}
    → is_ok (refresh s db undo dir draws token rows).0 ≡ true
    → Steps (refresh s db undo dir draws token rows).1 after
    → is_ok (refresh s db' undo' dir' draws' token after).0 ≡ false
refresh_once s db undo db' undo' dir dir' draws draws' token rows {after} first steps =
    elim (Option-cases (decode_canonical token)) [
      | inl bad ↦ absurd (refresh_undecoded s db undo dir draws token rows bad first)
      | inr (presented, d) ↦
          let (secret, id, exchanged, table) =
            refresh-Refreshed s db undo dir draws token presented rows d first in
          elim (Bool-cases (is_ok (refresh s db' undo' dir' draws' token after).0)) [
            | inr refused ↦ refused
            | inl again ↦
                let (secret', id', twice, _) =
                  refresh-Refreshed s db' undo' dir' draws' token presented after d again in
                absurd (
                  cc (
                    twice,
                    rotate_once db db' dir dir' (refresh_hash s presented)
                        (successor_of s draws id secret) (successor_of s draws' id' secret')
                        draws.now draws'.now rows exchanged
                        (subst (λ r. Steps r after) table steps),
                  ))
          ]
    ]

-- When the tokens of an exchanged session cannot be issued, issueTokenSet, asked to revoke on
-- failure, answers `unavailable`; and if its call of RevokeFamily succeeds, every session of the
-- family is revoked.
pub issue_failure_revokes :
    (issuers : Issuers) (r : Rotation) (token : Bytes) (expires_at : ℕ) (db : Faults) (later : ℕ)
    (rows : Rows)
    → is_ok (issue_token_set issuers r token expires_at true db later rows).0 ≡ false
    → (revoke_family db r.family_id "token_issuance_failed" later rows).0 ≡ ok tt
    → ((issue_token_set issuers r token expires_at true db later rows).0 ≡ err unavailable)
      × AllRevoked r.family_id (issue_token_set issuers r token expires_at true db later rows).1
unfolding issue_token_set
issue_failure_revokes issuers r token expires_at db later rows failed undone = (
  ground (arith, failed),
  subst (AllRevoked r.family_id) (ground (arith, failed))
      (revoke_family_ok db r.family_id "token_issuance_failed" later rows undone),
)
