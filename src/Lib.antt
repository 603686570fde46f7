-- ===== src/Lib.antt =====
-- Aera Cloud: the sign-in core of the service. A desktop client asks for an authorization code
-- (internal/oauth), a person proves an e-mail address or a phone with a one-time code
-- (internal/verification), and the client holds a session whose refresh token rotates
-- (internal/session), bound to a device of its account (internal/device). An administrator asks such
-- a desktop for its health (internal/desktopcontrol). The parts meet in PostgreSQL transactions and
-- in Redis keys: an exchange of a code authorizes the device and opens the session in one
-- transaction, and the revocation of a device ends its sessions in another.
--
-- Which file models what:
--   Prelude/...        shared types: Bool tests, lists, Result, text as code points.
--   Postgres           the faults of one transaction; every repository operation takes them.
--   Secure/Base64      internal/secure/base64.go, with the strict decoder of encoding/base64.
--   Secure/Compact     three-part signed tokens over a parameter for Ed25519.
--   Session/Table      the rows of `sessions`; Session/Repository is PostgresRepository of
--                      internal/session/repository.go: create_session is createSession, rotate is
--                      Rotate, revoke_family is RevokeFamily, revoke_by_token is RevokeByToken.
--   Session/Service    Start, StartInTx, Refresh, Revoke of internal/session/service.go.
--   Session/Access     AccessSigner's Issue and Verify (internal/session/access.go).
--   Session/Authenticator  AccessAuthenticator and the Redis cache (internal/session/revocation.go).
--   Session/Trace      any order of the transactions, as a step relation.
--   Verification/...   internal/verification: Model, Limiter (RedisLimiter, RedisDeliveryGuard),
--                      Repository (PostgresRepository), Service/Limits (latestForSendCooldown,
--                      allowRequest, allowUnifiedPhoneCooldown), Service/Sending (Send) and
--                      Service/Verifying (Verify).
--   Oauth/...          internal/oauth: Model, Repository (Save, Approve, Exchange), Platform (what
--                      the service takes from outside, and its state's encryption), Service (Begin,
--                      Approve, Exchange), Login (Exchange with the devices and the sessions of
--                      the repository behind its two interfaces).
--   Device/...         internal/device: Model and Service (service.go), Table and Repository
--                      (repository.go). A World is the rows that its transactions write, `sessions`
--                      among them; Device/Trace is any order of the transactions on devices and on
--                      sessions.
--   Desktop/...        internal/desktopcontrol: Model (model.go), Table, Repository, Advance and
--                      Listing (repository.go: AcceptHeartbeat, QueueHealthCheck and
--                      ClaimNextCommand; AdvanceCommand and GetCommand; the listings), Service.
--   The children of a module hold its theorems; Tests, TokenTests and ServiceTests run the code.
--
-- State is passed explicitly: a table is a list of rows, an operation answers a Result with the next
-- table. A transaction that locks the row it decides on is one step. Where a statement is not under
-- that lock, what it may miss is a parameter: the UPDATE of a family of sessions misses the rows that
-- a concurrent Rotate inserts (`unseen`), the check of createSession reads tables that may be out of
-- date (`dir`), and the first query of QueueHealthCheck misses a concurrent row (`missed`). A call
-- that fails is chosen by a `Faults` value, and a commit whose answer was lost may have been applied.
-- The steps of a Trace are the operations of its packages: the purges of internal/jobs and the
-- deletion of accounts, which delete rows, are not among them. UUIDs and times (milliseconds) are
-- numbers, and additions of them do not overflow. Strings are lists of code points, so invalid UTF-8
-- does not occur. Every loop is over a list, but for the decimal digits of a timestamp: 19 are enough
-- for an int64.
--
-- Not modelled: hash functions, signatures, AES-GCM, JSON, net/url and the random draws, which are
-- parameters of the definitions, with what a theorem relies on among its hypotheses; the providers of
-- internal/notification, of which a delivery's answer and whether the message was accepted are
-- parameters; logging; HTTP
-- handlers; the JSON decoders of internal/desktopcontrol/model.go; the constructors, which check that
-- the parts of a service are there; and the other packages.
mod Prelude
pub mod Postgres
pub mod Device
pub mod Desktop
pub mod Secure
pub mod Oauth
pub mod Session
pub mod Verification
