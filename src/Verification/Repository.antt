-- ===== src/Verification/Repository.antt =====
-- internal/verification/repository.go over the rows of `verification_challenges`
-- (migrations/000001_auth_schema.sql). The row lock of Consume makes it one step.
pub mod Attempts
pub mod Budget
pub mod Newest
pub mod Outcome
use aera_cloud.Prelude.{
  ℕ, ◌+◌, Bool, true, false, ◌&&◌, ◌||◌, not, Option, none, some, List, [], ◌∷◌, Bytes, bytes_eq,
  any, update_where, length, is_some, Result, ok, err, ltb, leb, ◌==◌, if◌then◌else◌,
}
use aera_cloud.Postgres.{Faults, settle}
use aera_cloud.Verification.Model.{Purpose, purpose_eq, Challenge}

abbrev pub Rows : Type 0
Rows = List Challenge

pub data RepositoryError : Type 0 where
  challenge_not_found code_mismatch store_failed : RepositoryError

abbrev pub has_idempotency : Bytes → Challenge → Bool
has_idempotency h c = bytes_eq c.idempotency_key_hash h

unfoldable pub exists_by_idempotency : Bool → Bytes → Rows → Result RepositoryError Bool
exists_by_idempotency fails h rows =
    if fails then err store_failed else ok (any (has_idempotency h) rows)

-- ORDER BY created_at DESC, id DESC.
unfoldable pub is_newer : Challenge → Challenge → Bool
is_newer c d = ltb d.created_at c.created_at || (c.created_at == d.created_at && ltb d.id c.id)

unfoldable pub newer : Challenge → Option Challenge → Challenge
unfolding is_newer
newer c none = c
newer c (some d) = if is_newer d c then d else c

-- SELECT ... WHERE p ORDER BY created_at DESC, id DESC LIMIT 1.
unfoldable pub newest : (Challenge → Bool) → Rows → Option Challenge
unfolding newer
newest p [] = none
newest p (c ∷ cs) = let rest = newest p cs in if p c then some (newer c rest) else rest

abbrev pub for_target : Bytes → Purpose → Challenge → Bool
for_target target purpose c = bytes_eq c.target_lookup_hmac target && purpose_eq c.purpose purpose

unfoldable pub latest_for_target : Bytes → Purpose → Rows → Option Challenge
latest_for_target target purpose rows = newest (for_target target purpose) rows

-- One round of the loops that keep the candidate created last.
unfoldable pub keep_later : Option Challenge → Option Challenge → Option Challenge
keep_later latest none = latest
keep_later none (some c) = some c
keep_later (some l) (some c) = if ltb l.created_at c.created_at then some c else some l

unfoldable pub latest_loop : List Bytes → Purpose → Rows → Option Challenge → Option Challenge
latest_loop [] purpose rows found = found
latest_loop (t ∷ ts) purpose rows found =
    latest_loop ts purpose rows (keep_later found (latest_for_target t purpose rows))

unfoldable pub latest :
    Bool → List Bytes → Purpose → Rows → Result RepositoryError (Option Challenge)
latest fails targets purpose rows =
    if fails then err store_failed else ok (latest_loop targets purpose rows none)

-- The primary key and the unique idempotency_key_hash.
unfoldable pub save_conflicts : Challenge → Rows → Bool
save_conflicts c rows = any (λ r. r.id == c.id || has_idempotency c.idempotency_key_hash r) rows

unfoldable pub save_after_delivery :
    Faults → Challenge → Rows → Result RepositoryError (Unit {0}) × Rows
save_after_delivery db c rows =
    if db.write || save_conflicts c rows
    then (err store_failed, rows)
    else settle db.commit store_failed rows (c ∷ rows) (ok tt)

abbrev pub is_open : Challenge → Bool
is_open c = not (is_some c.consumed_at) && not (is_some c.invalidated_at)

abbrev pub is_candidate : Bytes → Purpose → ℕ → Challenge → Bool
is_candidate target purpose now c = for_target target purpose c && is_open c && ltb now c.expires_at

abbrev pub maximum_attempts : ℕ
maximum_attempts = 5

unfoldable pub codes_match : Bytes → Bytes → Bool
codes_match expected candidate =
    length expected == 32 && length candidate == 32 && bytes_eq expected candidate

-- UPDATE with the new count, and the fifth time with invalidated_at.
unfoldable pub fail_attempt : ℕ → Challenge → Challenge
fail_attempt now c =
    if leb maximum_attempts (c.failed_attempts + 1)
    then record c { failed_attempts = c.failed_attempts + 1; invalidated_at = some now }
    else record c { failed_attempts = c.failed_attempts + 1 }

unfoldable pub mark_consumed : ℕ → Challenge → Challenge
mark_consumed now c = record c { consumed_at = some now }

abbrev pub has_challenge_id : ℕ → Challenge → Bool
has_challenge_id i c = c.id == i

unfoldable pub consume_selected :
    Faults → Option Challenge → Bytes → ℕ → Rows → Result RepositoryError (Unit {0}) × Rows
consume_selected db none code now rows = (err challenge_not_found, rows)
consume_selected db (some c) code now rows =
    if db.write
    then (err store_failed, rows)
    else if not (codes_match c.code_hmac code)
    then settle db.commit store_failed rows
        (update_where (has_challenge_id c.id) (fail_attempt now) rows) (err code_mismatch)
    else settle db.commit store_failed rows
        (update_where (has_challenge_id c.id) (mark_consumed now) rows) (ok tt)

unfoldable pub consume :
    Faults → Bytes → Purpose → Bytes → ℕ → Rows → Result RepositoryError (Unit {0}) × Rows
consume db target purpose code now rows =
    if db.begin || db.read
    then (err store_failed, rows)
    else consume_selected db (newest (is_candidate target purpose now) rows) code now rows
