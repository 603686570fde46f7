-- ===== src/Device/Tests.antt =====
-- Runs of internal/device: a user, a laptop, a session on it.
use aera_cloud.Prelude.{
  ◌≡◌, ◌≤◌, refl, true, false, [], ◌∷◌, replicate, codes, any, is_ok, ok, count_where,
}
use aera_cloud.Postgres.{healthy as session_healthy}
use aera_cloud.Session.Table.{
  Directory, UserStatus, SpaceStatus, has_id as has_session_id, valid_binding, insert_conflicts,
}
use aera_cloud.Session.Repository.{
  AccessBinding, CreateRecord, access_row_active, create_session, valid_create, binding_active,
  created_row,
}
use aera_cloud.Device.Model.{AuthorizationRecord, SelfRevocationRecord}
use aera_cloud.Device.Table.{
  World, Accounts, healthy, directory, is_active_of, account_active, has_capacity, identity_taken,
  new_device, add_audit,
}
use aera_cloud.Device.Repository.{
  authorize, authorize_in_tx, authorize_found, authorize_new, new_world, revoke, self_revoke,
  self_revoke_found, valid_self_revocation,
}
use aera_cloud.Device.Authorizing.{IsKnown, IsAdded, authorize_ok_effect}
use aera_cloud.Device.Trace.{
  Steps, here, next, authorizes, starts_session, empty_world, with_sessions, capacity_holds,
  Steps-IsSound, AllInTx,
}
use aera_cloud.Device.Sound.{IsSound}
use aera_cloud.Device.Lasting.{IsInstalled}
use aera_cloud.Device.Safety.{
  revoke_ends_access, self_revoke_ends_access, self_revoke_once, Steps-IsInstalled,
}
use aera_cloud.Device.Repository.{find_for_self_revoke, found_for_self_revoke}
use aera_cloud.Device.Model.{SelfRevokeCommand}
use aera_cloud.Prelude.{◌⊎◌, take, none, some}
use aera_cloud.Device.Service as Services
use aera_cloud.Device.Service.{Service, Draws}
use aera_cloud.Device.Service.Signed.{IsSigned, self_revoke-IsSigned}

abbrev sample_accounts : Accounts
sample_accounts = record {
  users = record { id = 1; status = UserStatus.active } ∷ [];
  spaces = record { id = 4; owner_user_id = 1; status = SpaceStatus.active } ∷ [];
  has_backup = λ device. false;
}

abbrev laptop : AuthorizationRecord
laptop = record {
  device_id = 2;
  audit_event_id = 70;
  user_id = 1;
  installation_id = 3;
  public_key = replicate 32 5;
  display_name = codes "laptop";
  platform = "linux";
  app_version = codes "1.0";
  authorized_at = 100;
}

abbrev laptop_session : CreateRecord
laptop_session = record {
  session_id = 10;
  family_id = 20;
  binding = record { user_id = 1; device_id = 2; installation_id = 3; personal_space_id = 4 };
  refresh_token_hash = replicate 32 9;
  issued_at = 1000;
  expires_at = 9000;
}

authorized_world : World
authorized_world = (authorize healthy sample_accounts laptop 2 empty_world).1

opened_world : World
opened_world =
    with_sessions authorized_world
      (create_session session_healthy (directory sample_accounts authorized_world.devices)
        laptop_session authorized_world.sessions).1

opening : Steps 2 empty_world opened_world
unfolding opened_world authorized_world
opening = next (next here (authorizes healthy sample_accounts laptop)) (
    starts_session session_healthy (directory sample_accounts authorized_world.devices)
      laptop_session)

capacity_holds_example : count_where (is_active_of 1) opened_world.devices ≤ 2
capacity_holds_example = capacity_holds 2 1 opening

opening_in_tx : AllInTx opening
unfolding opening opened_world authorized_world
opening_in_tx = ((tt, tt), (sample_accounts, refl))

Steps-IsSound_example : IsSound opened_world
Steps-IsSound_example = Steps-IsSound 2 opening opening_in_tx

opened_session : any (has_session_id 10) opened_world.sessions ≡ true
unfolding opened_world authorized_world create_session valid_create binding_active valid_binding
    directory insert_conflicts created_row authorize authorize_in_tx authorize_found authorize_new
    new_world new_device account_active has_capacity identity_taken add_audit
opened_session = refl

abbrev laptop_access : AccessBinding
laptop_access = record { user_id = 1; session_id = 10; device_id = 2; personal_space_id = 4 }

sample_directory : World → Directory
sample_directory w = directory sample_accounts w.devices

-- Before the revocation the token passes.
opened_access :
    access_row_active (sample_directory opened_world) opened_world.sessions laptop_access 2000
    ≡ true
unfolding opened_world authorized_world create_session valid_create binding_active valid_binding
    directory insert_conflicts created_row authorize authorize_in_tx authorize_found authorize_new
    new_world new_device account_active has_capacity identity_taken add_audit access_row_active
    sample_directory
opened_access = refl

revoked_ok : (revoke healthy sample_accounts 1 2 71 3000 opened_world).0 ≡ ok tt
unfolding opened_world authorized_world create_session valid_create binding_active valid_binding
    directory insert_conflicts created_row authorize authorize_in_tx authorize_found authorize_new
    new_world new_device account_active has_capacity identity_taken add_audit revoke
revoked_ok = refl

-- The device is authorized again after it was revoked.
abbrev again : AuthorizationRecord
again = record laptop { device_id = 8; audit_event_id = 72; authorized_at = 4000 }

abbrev revoked_again : World
revoked_again =
    (authorize healthy sample_accounts again 2
      (revoke healthy sample_accounts 1 2 71 3000 opened_world).1).1

revoke_ends_access_example :
    access_row_active (sample_directory revoked_again) revoked_again.sessions laptop_access 5000
    ≡ false
revoke_ends_access_example =
    revoke_ends_access healthy sample_accounts 1 71 3000 5000 2 (sample_directory revoked_again)
      laptop_access opened_world opened_session revoked_ok
      (next here (authorizes healthy sample_accounts again))

abbrev self_revocation : SelfRevocationRecord
self_revocation = record {
  user_id = 1;
  device_id = 2;
  installation_id = 3;
  nonce_hash = replicate 32 6;
  audit_event_id = 73;
  revoked_at = 3000;
}

self_revoked_ok : (self_revoke healthy self_revocation opened_world).0 ≡ ok tt
unfolding opened_world authorized_world create_session valid_create binding_active valid_binding
    directory insert_conflicts created_row authorize authorize_in_tx authorize_found authorize_new
    new_world new_device account_active has_capacity identity_taken add_audit self_revoke
    self_revoke_found valid_self_revocation
self_revoked_ok = refl

abbrev self_revoked_again : World
self_revoked_again =
    (authorize healthy sample_accounts again 2
      (self_revoke healthy self_revocation opened_world).1).1

self_revoke_ends_access_example :
    access_row_active
      (sample_directory self_revoked_again)
      self_revoked_again.sessions
      laptop_access
      5000
    ≡ false
self_revoke_ends_access_example =
    self_revoke_ends_access healthy self_revocation 5000 2 (sample_directory self_revoked_again)
      laptop_access opened_world opened_session refl self_revoked_ok
      (next here (authorizes healthy sample_accounts again))

self_revoke_once_example : is_ok (self_revoke healthy self_revocation self_revoked_again).0 ≡ false
self_revoke_once_example =
    self_revoke_once healthy healthy self_revocation self_revocation 2 opened_world refl refl
      self_revoked_ok (next here (authorizes healthy sample_accounts again))

laptop-IsInstalled : IsInstalled 3 2 (replicate 32 5) opened_world
unfolding opened_world authorized_world create_session valid_create binding_active valid_binding
    directory insert_conflicts created_row authorize authorize_in_tx authorize_found authorize_new
    new_world new_device account_active has_capacity identity_taken add_audit
laptop-IsInstalled = refl

Steps-IsInstalled_example :
    IsInstalled 3 2
      (replicate 32 5)
      (authorize healthy sample_accounts (record again { user_id = 6 }) 2 opened_world).1
Steps-IsInstalled_example =
    Steps-IsInstalled 3 2 (replicate 32 5)
      (next here (authorizes healthy sample_accounts (record again { user_id = 6 })))
      laptop-IsInstalled

laptop_authorized : is_ok (authorize healthy sample_accounts laptop 2 empty_world).0 ≡ true
unfolding authorize authorize_in_tx authorize_found authorize_new new_world new_device
    account_active has_capacity identity_taken add_audit
laptop_authorized = refl

authorize_ok_effect_example :
    (account_active 1 sample_accounts.users ≡ true)
    × (IsKnown sample_accounts laptop 2 empty_world
          (authorize healthy sample_accounts laptop 2 empty_world)
        ⊎ IsAdded laptop 2 empty_world (authorize healthy sample_accounts laptop 2 empty_world))
authorize_ok_effect_example =
    authorize_ok_effect healthy sample_accounts laptop 2 empty_world laptop_authorized

abbrev device_service : Service
device_service = record {
  active_limit = 2;
  sha256 = λ bs. take 32 bs;
  verify = λ key message signature. true;
  uuid_text = λ id. replicate 36 b'0';
}

abbrev self_revoke_command : SelfRevokeCommand
self_revoke_command = record {
  device_id = 2;
  installation_id = 3;
  timestamp = 3;
  nonce = replicate 32 6;
  signature = replicate 64 0;
}

abbrev self_revoke_draws : Draws
self_revoke_draws = record { device_id = none; audit_event_id = some 73; now = 3000 }

self_revoke_command_ok :
    is_ok
      (Services.self_revoke device_service healthy healthy self_revoke_draws self_revoke_command
        opened_world).0
    ≡ true
unfolding opened_world authorized_world create_session valid_create binding_active valid_binding
    directory insert_conflicts created_row authorize authorize_in_tx authorize_found authorize_new
    new_world new_device account_active has_capacity identity_taken add_audit self_revoke
    self_revoke_found valid_self_revocation Services.self_revoke Services.self_revoke_selected
    Services.self_revoke_drawn Services.self_revocation Services.is_signed Services.is_stale
    Services.nonce_hash find_for_self_revoke found_for_self_revoke
self_revoke_command_ok = refl

self_revoke-IsSigned_example : IsSigned device_service self_revoke_command 3000 opened_world
self_revoke-IsSigned_example =
    self_revoke-IsSigned device_service healthy healthy self_revoke_draws self_revoke_command
      opened_world self_revoke_command_ok
