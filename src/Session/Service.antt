-- ===== src/Session/Service.antt =====
-- internal/session/service.go. HMAC-SHA256, the two token issuers behind their interfaces, the
-- random draws and the clock are parameters; a failed draw or issuer is `none`. The entitlement
-- issuer's own rows are not part of the state.
pub mod Laws
use aera_cloud.Prelude.{
  ℕ, ◌+◌, ◌*◌, Bool, true, false, Option, none, some, [], ◌∷◌, ◌++◌, codes, Bytes, length, not,
  Result, ok, err, ◌==◌, if◌then◌else◌, ◌≡◌,
}
use aera_cloud.Postgres.{Faults}
use aera_cloud.Secure.Base64.{encode, decode_canonical}
use aera_cloud.Session.Table.{
  Error, session_revoked, unavailable, Directory, Binding, Rows, valid_binding,
}
use aera_cloud.Session.Repository.{
  CreateRecord, SuccessorRecord, Rotation, AccessBinding, create_session, rotate, revoke_family,
  revoke_by_token,
}
use aera_cloud.Session.Access.{IssuedAccessToken}

-- 30 days.
abbrev pub refresh_lifetime : ℕ
refresh_lifetime = 2592000000

pub record Hmac : Type 0 where
  pub sum : Bytes → Bytes → Bytes
  pub length-sum : (key message : Bytes) → length (sum key message) ≡ 32

pub record OfflineToken : Type 0 where
  pub serialized : Bytes
  pub expires_at : ℕ

pub record Issuers : Type 0 where
  pub access : AccessBinding → Option IssuedAccessToken
  pub offline : Binding → Option OfflineToken

-- What the random source and the clock give to one request.
pub record Draws : Type 0 where
  pub session_id : Option ℕ
  pub family_id : Option ℕ
  pub secret : Option Bytes
  pub now : ℕ
  pub later : ℕ

pub record TokenSet : Type 0 where
  pub access_token : Bytes
  pub access_expires_at : ℕ
  pub refresh_token : Bytes
  pub refresh_expires_at : ℕ
  pub offline_entitlement : Bytes
  pub offline_expires_at : ℕ
  pub user_id : ℕ
  pub personal_space_id : ℕ
  pub device_id : ℕ
  pub session_id : ℕ

pub record Service : Type 0 where
  pub hmac : Hmac
  pub refresh_hmac_key : Bytes
  pub issuers : Issuers

unfoldable pub refresh_hash : Service → Bytes → Bytes
refresh_hash s secret =
    s.hmac.sum s.refresh_hmac_key (codes "agentera.refresh-token.v1" ++ 0 ∷ secret)

abbrev pub access_binding_of : Rotation → AccessBinding
access_binding_of r = record {
  user_id = r.binding.user_id;
  session_id = r.session_id;
  device_id = r.binding.device_id;
  personal_space_id = r.binding.personal_space_id;
}

abbrev pub token_set : Rotation → Bytes → ℕ → IssuedAccessToken → OfflineToken → TokenSet
token_set r token expires_at access offline = record {
  access_token = access.serialized;
  access_expires_at = access.expires_at;
  refresh_token = token;
  refresh_expires_at = expires_at;
  offline_entitlement = offline.serialized;
  offline_expires_at = offline.expires_at;
  user_id = r.binding.user_id;
  personal_space_id = r.binding.personal_space_id;
  device_id = r.binding.device_id;
  session_id = r.session_id;
}

-- `revoke_on_failure` undoes what was stored; the answer of RevokeFamily is dropped.
abbrev pub compensate : Bool → Faults → Rotation → ℕ → Rows → Rows
compensate revoke_on_failure db r later rows =
    if revoke_on_failure
    then (revoke_family db r.family_id "token_issuance_failed" later rows).1
    else rows

unfoldable pub issue_token_set :
    Issuers → Rotation → Bytes → ℕ → Bool → Faults → ℕ → Rows → Result Error TokenSet × Rows
issue_token_set issuers r token expires_at revoke_on_failure db later rows =
    elim (issuers.access (access_binding_of r)) [
      | none ↦ (err unavailable, compensate revoke_on_failure db r later rows)
      | some access ↦ elim (issuers.offline r.binding) [
        | none ↦ (err unavailable, compensate revoke_on_failure db r later rows)
        | some offline ↦ (ok (token_set r token expires_at access offline), rows)
      ]
    ]

pub record Prepared : Type 0 where
  pub rotation : Rotation
  pub refresh_token : Bytes
  pub expires_at : ℕ
  pub create : CreateRecord

unfoldable pub prepared : Service → Binding → ℕ → ℕ → ℕ → Bytes → Prepared
prepared s b now session_id family_id secret = record {
  rotation = record { session_id = session_id; family_id = family_id; binding = b };
  refresh_token = encode secret;
  expires_at = now + refresh_lifetime;
  create = record {
    session_id = session_id;
    family_id = family_id;
    binding = b;
    refresh_token_hash = refresh_hash s secret;
    issued_at = now;
    expires_at = now + refresh_lifetime;
  };
}

unfoldable pub prepare_start : Service → Binding → Draws → Result Error Prepared
prepare_start s b draws =
    if not (valid_binding b) then err session_revoked else elim draws.session_id [
      | none ↦ err unavailable
      | some session_id ↦ elim draws.family_id [
        | none ↦ err unavailable
        | some family_id ↦ elim draws.secret [
          | none ↦ err unavailable
          | some secret ↦ ok (prepared s b draws.now session_id family_id secret)
        ]
      ]
    ]

unfoldable pub start_created :
    Service
    → Bool
    → Faults
    → Draws
    → Prepared
    → Result Error (Unit {0}) × Rows
    → Result Error TokenSet × Rows
start_created s revoke_on_failure db draws p (err e, rows) = (err e, rows)
start_created s revoke_on_failure db draws p (ok u, rows) =
    issue_token_set s.issuers p.rotation p.refresh_token p.expires_at revoke_on_failure db
      draws.later rows

unfoldable pub start_prepared :
    Service
    → Bool
    → Faults
    → Faults
    → Directory
    → Draws
    → Result Error Prepared
    → Rows
    → Result Error TokenSet × Rows
start_prepared s revoke_on_failure db undo dir draws (err e) rows = (err e, rows)
start_prepared s revoke_on_failure db undo dir draws (ok p) rows =
    start_created s revoke_on_failure undo draws p (create_session db dir p.create rows)

-- Start stores by itself, and revokes if no tokens can be issued. `undo` is the database's
-- behaviour in that second call.
unfoldable pub start :
    Service → Faults → Faults → Directory → Draws → Binding → Rows → Result Error TokenSet × Rows
unfolding start_prepared start_created
start s db undo dir draws b rows =
    start_prepared s true db undo dir draws (prepare_start s b draws) rows

-- StartInTx leaves the undoing to its caller's rollback.
unfoldable pub start_in_tx :
    Service → Faults → Directory → Draws → Binding → Rows → Result Error TokenSet × Rows
unfolding start_prepared start_created
start_in_tx s db dir draws b rows =
    start_prepared s false db db dir draws (prepare_start s b draws) rows

unfoldable pub refresh_rotated :
    Service → Faults → Draws → Bytes → Result Error Rotation × Rows → Result Error TokenSet × Rows
refresh_rotated s undo draws secret (err e, rows) = (err e, rows)
refresh_rotated s undo draws secret (ok r, rows) =
    issue_token_set s.issuers r (encode secret) (draws.now + refresh_lifetime) true undo draws.later
      rows

unfoldable pub refresh_secret :
    Service → Faults → Faults → Directory → Draws → Bytes → Rows → Result Error TokenSet × Rows
refresh_secret s db undo dir draws presented rows = elim draws.secret [
  | none ↦ (err unavailable, rows)
  | some secret ↦ elim draws.session_id [
    | none ↦ (err unavailable, rows)
    | some session_id ↦ refresh_rotated s undo draws secret (
        rotate db dir (refresh_hash s presented)
          (record {
            session_id = session_id;
            refresh_token_hash = refresh_hash s secret;
            issued_at = draws.now;
            expires_at = draws.now + refresh_lifetime;
          })
          draws.now rows)
  ]
]

unfoldable pub refresh_decoded :
    Service
    → Faults
    → Faults
    → Directory
    → Draws
    → Option Bytes
    → Rows
    → Result Error TokenSet × Rows
refresh_decoded s db undo dir draws none rows = (err session_revoked, rows)
refresh_decoded s db undo dir draws (some presented) rows =
    if not (length presented == 32)
    then (err session_revoked, rows)
    else refresh_secret s db undo dir draws presented rows

unfoldable pub refresh :
    Service → Faults → Faults → Directory → Draws → Bytes → Rows → Result Error TokenSet × Rows
unfolding refresh_decoded refresh_secret refresh_rotated
refresh s db undo dir draws token rows =
    refresh_decoded s db undo dir draws (decode_canonical token) rows

unfoldable pub revoke_decoded :
    Service → Faults → ℕ → Option Bytes → Rows → Result Error (Unit {0}) × Rows
revoke_decoded s db now none rows = (err session_revoked, rows)
revoke_decoded s db now (some presented) rows =
    if not (length presented == 32)
    then (err session_revoked, rows)
    else revoke_by_token db (refresh_hash s presented) now rows

unfoldable pub revoke_token : Service → Faults → ℕ → Bytes → Rows → Result Error (Unit {0}) × Rows
unfolding revoke_decoded
revoke_token s db now token rows = revoke_decoded s db now (decode_canonical token) rows
