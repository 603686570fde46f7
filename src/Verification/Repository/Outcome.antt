-- ===== src/Verification/Repository/Outcome.antt =====
-- Which challenge Consume takes, and what it answers (internal/verification/repository.go).
use aera_cloud.Prelude.{
  ℕ, ◌≡◌, true, inl, inr, some, Bytes, update_where, ok, is_ok, arith, Option-cases,
}
use aera_cloud.Postgres.{Faults, healthy}
use aera_cloud.Verification.Model.{Purpose, Challenge}
use mathlib.Core.List.{Memᴰ}
use aera_cloud.Verification.Repository.Newest.{
  NoneNewer, newest-passes, newest-NoneNewer, newest-Mem,
}
use aera_cloud.Verification.Repository.{
  Rows, newest, is_candidate, codes_match, mark_consumed, has_challenge_id, consume,
  consume_selected,
}

-- A successful Consume, under any faults, took the row of the table that is the newest open and
-- unexpired challenge of the target and purpose, was given its code, and changed nothing but to mark
-- it consumed.
pub consume_ok_effect :
    (db : Faults) (target : Bytes) (purpose : Purpose) (code : Bytes) (now : ℕ) (rows : Rows)
    → is_ok (consume db target purpose code now rows).0 ≡ true
    → (c : Challenge) × Memᴰ c rows
      × (is_candidate target purpose now c ≡ true)
      × NoneNewer (is_candidate target purpose now) c rows
      × (codes_match c.code_hmac code ≡ true)
      × ((consume db target purpose code now rows).1
          ≡ update_where (has_challenge_id c.id) (mark_consumed now) rows)
unfolding consume consume_selected
consume_ok_effect db target purpose code now rows o =
    elim (Option-cases (newest (is_candidate target purpose now) rows)) [
      | inl e ↦ absurd (ground (arith, e, o))
      | inr (c, e) ↦ (
        c,
        newest-Mem (is_candidate target purpose now) rows c e,
        newest-passes (is_candidate target purpose now) rows c e,
        newest-NoneNewer (is_candidate target purpose now) rows c e,
        ground (arith, e, o),
        ground (arith, e, o),
      )
    ]

-- With the database healthy, the right code for the newest open and unexpired challenge of the
-- target and purpose is accepted.
pub consume_accepts :
    (target : Bytes) (purpose : Purpose) (code : Bytes) (now : ℕ) (rows : Rows) (c : Challenge)
    → newest (is_candidate target purpose now) rows ≡ some c
    → codes_match c.code_hmac code ≡ true
    → (consume healthy target purpose code now rows).0 ≡ ok tt
unfolding consume consume_selected
consume_accepts target purpose code now rows c e m = rw (e, m)
