-- ===== src/Oauth/Login.antt =====
-- Exchange of internal/oauth/service.go with internal/device and internal/session behind its two
-- interfaces, all in one transaction on one world.
pub mod Opened
pub mod Laws
use aera_cloud.Prelude.{
  ℕ, ◌≡◌, refl, sym, subst, ap, Bool, true, false, ◌&&◌, ◌||◌, not, Option, ◌∙◌, none, some, List,
  [], ◌∷◌, String, Bytes, arith, inl, inr, any, find, is_some, is_ok, find-update, Result, ok, err,
  Bool-cases, Option-cases, ◌==◌, if◌then◌else◌, if-cases, utf8, bytes_eq_iff, find-passes, length,
  update_where,
}
use aera_cloud.Postgres.{Faults, settle}
use aera_cloud.Secure.Base64.{decode_canonical}
use aera_cloud.Session.Table.{
  Binding, Error as SessionError, Session, Rows, Directory, active, device_is_active,
}
use aera_cloud.Session.Repository.{Rotation, create_session, created_row, CreateRecord}
use aera_cloud.Session.Service.{
  Service as SessionService, Draws as SessionDraws, TokenSet, Prepared, prepared, prepare_start,
  start_in_tx, start_prepared, start_created, issue_token_set, Issuers, access_binding_of,
}
use aera_cloud.Device.Model.{
  Device, DeviceError, AuthorizeCommand, AuthorizationRecord, clean_display_name,
}
use aera_cloud.Device.Table.{
  World, Accounts, Faults as DeviceFaults, has_id, has_installation, directory, reauthorize,
  new_device, add_audit, clear_desktop_control,
}
use aera_cloud.Device.Repository.{authorize_in_tx, reauthorized_world, new_world}
use aera_cloud.Device.Repository.Cases.{
  Authorized, refused, returned, taken_over, created, Change, returns, takes_over, creates,
  IsReturn, authorize_in_tx-Authorized,
}
use aera_cloud.Prelude.{IsKeyed, found-has_key}
use aera_cloud.Device.Table.{device_key}
use aera_cloud.Device.Service.{
  Service as DeviceService, Draws as DeviceDraws, authorize_command, recorded, authorization_record,
  record_named, record_drawn,
}
use aera_cloud.Device.Capacity.{IsWithin, Change-IsWithin}
use aera_cloud.Device.Sound.{IsSound, Change-IsSound}
use aera_cloud.Device.Bound.{AllBound, IsBound}
use aera_cloud.Device.Trace.{with_sessions}
use aera_cloud.Oauth.Model.{ExchangeRequest, Grant, OauthError}
use aera_cloud.Oauth.Platform.{Platform, Service, authorization_code_hash}
use aera_cloud.Oauth.Repository.{Tables, Spaces, Selected, select_grant, exchange}
use aera_cloud.Oauth.Repository.Exchanged.{exchange-IsSelected}
use aera_cloud.Oauth.Service.{
  is_proven, finalize, authorized, started, exchange_request, exchange_decoded,
}

unfoldable pub device_answer : Result DeviceError Device × World → Result DeviceError ℕ × World
device_answer (err e, w) = (err e, w)
device_answer (ok d, w) = (ok d.id, w)

unfoldable pub world_answer :
    World → Result SessionError TokenSet × Rows → Result SessionError TokenSet × World
world_answer w (r, rows) = (r, with_sessions w rows)

-- The services of one process, with what the random source and the clock give to one request.
pub record Parts : Type 0 where
  pub platform : Platform
  pub devices : DeviceService
  pub sessions : SessionService
  pub accounts : Accounts
  pub device_faults : DeviceFaults
  pub session_faults : Faults
  pub device_draws : DeviceDraws
  pub session_draws : SessionDraws
  pub active_state_key_id : String
  pub state_keys : List (String × Bytes)
  pub state_hmac_key : Bytes

-- device.Service.AuthorizeInTx and session.Service.StartInTx behind the two interfaces.
unfoldable pub login_service : Parts → Service World TokenSet
unfolding device_answer world_answer
login_service p = record {
  platform = p.platform;
  authorize = λ c w.
      device_answer (authorize_command p.devices p.device_faults p.accounts p.device_draws c w);
  start_in_tx = λ b w. world_answer w (
      start_in_tx p.sessions p.session_faults (directory p.accounts w.devices) p.session_draws b
        w.sessions);
  active_state_key_id = p.active_state_key_id;
  state_keys = p.state_keys;
  state_hmac_key = p.state_hmac_key;
}

-- The world has the device of the binding, active and the user's, and the session in front.
pub record IsLoggedIn (p : Parts) (g : Grant) (w v : World) : Type 0 where
  pub device : Device
  pub session : Session
  pub stored : find (has_id device.id) v.devices ≡ some device
  pub owner : device.user_id ≡ g.user_id
  pub status : device.status ≡ active
  pub installation : device.installation_id ≡ g.authorization.installation_id
  pub key : device.public_key ≡ g.authorization.device_public_key
  pub opened : v.sessions ≡ session ∷ w.sessions
  pub session_user : session.user_id ≡ g.user_id
  pub session_device : session.device_id ≡ device.id
  pub unrevoked : session.revoked_at ≡ none
  pub change :
      (u : World) × Change p.accounts p.devices.active_limit w u
      × (u.sessions ≡ w.sessions)
      × (v ≡ with_sessions u v.sessions)
