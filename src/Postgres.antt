-- ===== src/Postgres.antt =====
-- What a repository asks of PostgreSQL in one transaction (internal/*/repository.go, by pgx).
-- The database is a parameter: `Faults` says which of the calls of one operation fail. A failed
-- call before the commit rolls back (`defer tx.Rollback`). A failed commit may have been applied
-- or not, so it has two cases.
use aera_cloud.Prelude.{ℕ, Bool, true, false, Result, err}

pub data Commit : Type 0 where
  committed aborted unacknowledged : Commit

-- `true` where the call returns an error: BeginTx, the queries and the statements in order.
-- Under READ COMMITTED an UPDATE takes the rows that were committed when it began, and may then wait
-- for the lock of one of them: `unseen` has the ids of the rows that it misses, since another
-- transaction inserted them and committed meanwhile. Any ids may be among them.
pub record Faults : Type 0 where
  pub begin : Bool
  pub read : Bool
  pub check : Bool
  pub write : Bool
  pub write_next : Bool
  pub commit : Commit
  pub unseen : ℕ → Bool

abbrev pub healthy : Faults
healthy = record {
  begin = false;
  read = false;
  check = false;
  write = false;
  write_next = false;
  commit = committed;
  unseen = λ id. false;
}

-- The end of a transaction: the answer and the tables that the next transaction sees.
abbrev pub settle {ℓ} :
    {S E : Type 0} {A : Type ℓ} → Commit → E → S → S → Result E A → Result E A × S
settle committed e old new r = (r, new)
settle aborted e old new r = (err e, old)
settle unacknowledged e old new r = (err e, new)

-- The commit of a transaction that only read: an error whether or not it was applied.
abbrev pub is_uncommitted : Commit → Bool
is_uncommitted committed = false
is_uncommitted _ = true

-- Whatever becomes of the commit, the next transaction sees the old tables or the new ones.
pub settle-keeps {ℓ κ} :
    {S E : Type 0} {A : Type ℓ} (P : S → Type κ) (c : Commit) (e : E) {old new : S} (r : Result E A)
    → P old
    → P new
    → P (settle c e old new r).1
settle-keeps P committed e r o n = n
settle-keeps P aborted e r o n = o
settle-keeps P unacknowledged e r o n = n
