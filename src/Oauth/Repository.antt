-- ===== src/Oauth/Repository.antt =====
-- internal/oauth/repository.go over the rows of `oauth_requests` and `authorization_codes`
-- (migrations/000001_auth_schema.sql). The row locks make Approve and Exchange one step each. `D`
-- is what else the transaction of an exchange writes (devices and sessions), and `spaces` the
-- personal space of a user, if both are active.
pub mod Once
pub mod Approved
pub mod Exchanged
use aera_cloud.Prelude.{
  ℕ, Bool, true, false, ◌&&◌, ◌||◌, not, Option, none, some, List, [], ◌∷◌, Text, Bytes, bytes_eq,
  any, find, update_where, length, is_some, Result, ok, err, ltb, leb, ◌==◌, if◌then◌else◌,
}
use aera_cloud.Postgres.{Faults, settle}
use aera_cloud.Oauth.Model.{
  OauthError, invalid_request, invalid_authorization, authorization_replayed, unavailable,
  AuthorizationRecord, ApprovalRecord, Grant, Url, valid_authorization_record,
}

pub record RequestRow : Type 0 where
  pub authorization : AuthorizationRecord
  pub approved_user_id : Option ℕ
  pub approved_at : Option ℕ
  pub consumed_at : Option ℕ

pub record CodeRow : Type 0 where
  pub id : ℕ
  pub oauth_request_id : ℕ
  pub code_hash : Bytes
  pub expires_at : ℕ
  pub consumed_at : Option ℕ
  pub created_at : ℕ

pub record Tables : Type 0 where
  pub requests : List RequestRow
  pub codes : List CodeRow

abbrev pub Spaces : Type 0
Spaces = ℕ → Option ℕ

abbrev pub is_request : ℕ → RequestRow → Bool
is_request i r = r.authorization.id == i

abbrev pub is_code : ℕ → CodeRow → Bool
is_code i c = c.id == i

abbrev pub has_code_hash : Bytes → CodeRow → Bool
has_code_hash h c = bytes_eq c.code_hash h

abbrev pub saved_row : AuthorizationRecord → RequestRow
saved_row r = record {
  authorization = r;
  approved_user_id = none;
  approved_at = none;
  consumed_at = none;
}

unfoldable pub save :
    Faults
    → (Text → Option Url)
    → AuthorizationRecord
    → Tables
    → Result OauthError (Unit {0}) × Tables
save db parse_url r t =
    if not (valid_authorization_record parse_url r)
    then (err invalid_request, t)
    else if db.write || any (is_request r.id) t.requests
    then (err unavailable, t)
    else settle db.commit unavailable t (record t { requests = saved_row r ∷ t.requests }) (ok tt)

abbrev pub approve_row : ApprovalRecord → RequestRow → RequestRow
approve_row a r = record r { approved_user_id = some a.user_id; approved_at = some a.approved_at }

abbrev pub code_row : ApprovalRecord → CodeRow
code_row a = record {
  id = a.code_id;
  oauth_request_id = a.request_id;
  code_hash = a.code_hash;
  expires_at = a.code_expires_at;
  consumed_at = none;
  created_at = a.approved_at;
}

-- The primary key and the two unique columns.
unfoldable pub code_conflicts : ApprovalRecord → List CodeRow → Bool
code_conflicts a codes =
    any
      (λ (c : CodeRow).
        has_code_hash a.code_hash c || c.id == a.code_id || c.oauth_request_id == a.request_id)
      codes

abbrev pub is_approvable : ApprovalRecord → RequestRow → Bool
is_approvable a r =
    ltb a.approved_at r.authorization.expires_at
    && not (is_some r.approved_user_id)
    && not (is_some r.approved_at)
    && not (is_some r.consumed_at)

unfoldable pub approve_selected :
    Faults
    → Spaces
    → ApprovalRecord
    → Tables
    → Option RequestRow
    → Result OauthError AuthorizationRecord × Tables
approve_selected db spaces a t none = (err invalid_authorization, t)
approve_selected db spaces a t (some r) =
    if not (is_approvable a r)
    then (err invalid_authorization, t)
    else if db.check
    then (err unavailable, t)
    else if not (is_some (spaces a.user_id))
    then (err invalid_authorization, t)
    else if db.write || db.write_next || code_conflicts a t.codes
    then (err unavailable, t)
    else settle db.commit unavailable t
        (record {
          requests = update_where (is_request a.request_id) (approve_row a) t.requests;
          codes = code_row a ∷ t.codes;
        })
        (ok r.authorization)

unfoldable pub valid_approval : ApprovalRecord → Bool
valid_approval a =
    not (a.request_id == 0)
    && not (a.user_id == 0)
    && not (a.code_id == 0)
    && length a.code_hash == 32
    && ltb a.approved_at a.code_expires_at

unfoldable pub approve :
    Faults → Spaces → ApprovalRecord → Tables → Result OauthError AuthorizationRecord × Tables
approve db spaces a t =
    if not (valid_approval a)
    then (err invalid_request, t)
    else if db.begin || db.read
    then (err unavailable, t)
    else approve_selected db spaces a t (find (is_request a.request_id) t.requests)

pub record Selected : Type 0 where
  pub grant : Grant
  pub code : CodeRow
  pub request_consumed_at : Option ℕ

select_space : CodeRow → RequestRow → ℕ → Option ℕ → Option Selected
select_space c r user none = none
select_space c r user (some space) = some (record {
  grant = record { authorization = r.authorization; user_id = user; personal_space_id = space };
  code = c;
  request_consumed_at = r.consumed_at;
})

select_user : Spaces → CodeRow → RequestRow → Option ℕ → Option Selected
unfolding select_space
select_user spaces c r none = none
select_user spaces c r (some user) = select_space c r user (spaces user)

select_request : Spaces → CodeRow → Option RequestRow → Option Selected
unfolding select_user
select_request spaces c none = none
select_request spaces c (some r) = select_user spaces c r r.approved_user_id

select_code : Spaces → Tables → Option CodeRow → Option Selected
unfolding select_request
select_code spaces t none = none
select_code spaces t (some c) =
    select_request spaces c (find (is_request c.oauth_request_id) t.requests)

-- The query of Exchange.
unfoldable pub select_grant : Spaces → Bytes → Tables → Option Selected
unfolding select_code
select_grant spaces h t = select_code spaces t (find (has_code_hash h) t.codes)

abbrev pub consume_code : ℕ → CodeRow → CodeRow
consume_code now c = record c { consumed_at = some now }

abbrev pub consume_request : ℕ → RequestRow → RequestRow
consume_request now r = record r { consumed_at = some now }

abbrev pub consumed_tables : Selected → ℕ → Tables → Tables
consumed_tables s now t = record {
  requests = update_where (is_request s.grant.authorization.id) (consume_request now) t.requests;
  codes = update_where (is_code s.code.id) (consume_code now) t.codes;
}

-- An error rolls back what `finalize` has written.
unfoldable pub exchange_finalized {ℓ} :
    {A : Type ℓ} {D : Type 0}
    → Faults
    → Selected
    → ℕ
    → Tables × D
    → Result OauthError A × D
    → Result OauthError A × (Tables × D)
exchange_finalized db s now (t, d) (err e, d') = (err e, (t, d))
exchange_finalized db s now (t, d) (ok tokens, d') =
    if db.write || db.write_next
    then (err unavailable, (t, d))
    else settle db.commit unavailable (t, d) (consumed_tables s now t, d') (ok tokens)

unfoldable pub exchange_selected {ℓ} :
    {A : Type ℓ} {D : Type 0}
    → Faults
    → ℕ
    → (Grant → D → Result OauthError A × D)
    → Tables × D
    → Option Selected
    → Result OauthError A × (Tables × D)
exchange_selected db now finalize (t, d) none = (err invalid_authorization, (t, d))
exchange_selected db now finalize (t, d) (some s) =
    if is_some s.code.consumed_at || is_some s.request_consumed_at
    then (err authorization_replayed, (t, d))
    else if not (ltb now s.code.expires_at) || not (ltb now s.grant.authorization.expires_at)
    then (err invalid_authorization, (t, d))
    else exchange_finalized db s now (t, d) (finalize s.grant d)

unfoldable pub exchange {ℓ} :
    {A : Type ℓ} {D : Type 0}
    → Faults
    → Spaces
    → Bytes
    → ℕ
    → (Grant → D → Result OauthError A × D)
    → Tables × D
    → Result OauthError A × (Tables × D)
exchange db spaces h now finalize (t, d) =
    if not (length h == 32)
    then (err invalid_authorization, (t, d))
    else if db.begin || db.read
    then (err unavailable, (t, d))
    else exchange_selected db now finalize (t, d) (select_grant spaces h t)
