-- ===== src/Oauth/LoginTests.antt =====
-- One login, from the code to the session.
use aera_cloud.Prelude.{
  ℕ, ◌≡◌, refl, true, false, some, [], ◌∷◌, replicate, length-replicate, Bytes, utf8, put_rune,
  byte_length, is_space, is_blank, is_ok, arith,
}
use aera_cloud.Postgres.{healthy}
use aera_cloud.Secure.Base64.{
  encode, decode_canonical, decode_strict, decode_letters, strip_newlines, accept_canonical, letter,
  sextet, four,
}
use aera_cloud.Session.Table.{UserStatus, SpaceStatus, valid_binding, insert_conflicts}
use aera_cloud.Session.Repository.{create_session, valid_create, binding_active, created_row}
use aera_cloud.Session.Access.{IssuedAccessToken}
use aera_cloud.Session.Service.{
  Hmac, start_in_tx, prepare_start, prepared, refresh_hash, start_prepared, start_created,
  issue_token_set,
}
use aera_cloud.Device.Table.{
  healthy as devices_healthy, directory, account_active, has_capacity, identity_taken, new_device,
  add_audit,
}
use aera_cloud.Device.Model.{clean_display_name, valid_platform, valid_version}
use aera_cloud.Device.Repository.{authorize_in_tx, authorize_found, authorize_new, new_world}
use aera_cloud.Device.Service.{authorize_command, authorization_record, record_named, record_drawn}
use aera_cloud.Device.Trace.{empty_world}
use aera_cloud.Device.Capacity.{IsWithin}
use aera_cloud.Device.Sound.{IsSound}
use aera_cloud.Oauth.Model.{valid_verifier, matches_challenge, trim_space, trim_left, trim_right}
use aera_cloud.Oauth.Platform.{authorization_code_hash}
use aera_cloud.Oauth.Repository.{
  Selected, exchange, exchange_selected, exchange_finalized, select_grant,
}
use aera_cloud.Oauth.Service.{
  exchange_request, exchange_decoded, finalize, authorized, started, is_proven,
}
use aera_cloud.Oauth.Login.{Parts, login_service, device_answer, world_answer, IsLoggedIn}
use aera_cloud.Oauth.Login.Laws.{login_opens}
use aera_cloud.Oauth.Tests.{platform, spaces, request, approved_tables}

abbrev sample_hmac : Hmac
sample_hmac = record {
  sum = λ key message. replicate 32 7;
  length-sum = λ key message. length-replicate {A = ℕ} 32 7;
}

abbrev issued : IssuedAccessToken
issued = record { serialized = []; expires_at = 900 }

abbrev parts : Parts
parts = record {
  platform = platform;
  devices = record {
    active_limit = 2;
    sha256 = λ bs. bs;
    verify = λ key message signature. true;
    uuid_text = λ id. replicate 36 b'0';
  };
  sessions = record {
    hmac = sample_hmac;
    refresh_hmac_key = [];
    issuers = record {
      access = λ b. some issued;
      offline = λ b. some (record { serialized = []; expires_at = 900 });
    };
  };
  accounts = record {
    users = record { id = 4; status = UserStatus.active } ∷ [];
    spaces = record { id = 9; owner_user_id = 4; status = SpaceStatus.active } ∷ [];
    has_backup = λ device. false;
  };
  device_faults = devices_healthy;
  session_faults = healthy;
  device_draws = record { device_id = some 2; audit_event_id = some 70; now = 20 };
  session_draws = record {
    session_id = some 10;
    family_id = some 30;
    secret = some (replicate 32 1);
    now = 20;
    later = 21;
  };
  active_state_key_id = "k";
  state_keys = ("k", replicate 32 0) ∷ [];
  state_hmac_key = [];
}

logs_in :
    is_ok
      (exchange_request
        (login_service parts)
        healthy
        spaces
        20
        request
        (approved_tables, empty_world)).0
    ≡ true
unfolding exchange_request exchange_decoded decode_canonical decode_strict decode_letters
    strip_newlines accept_canonical letter sextet four encode utf8 put_rune exchange
    exchange_selected exchange_finalized select_grant authorization_code_hash finalize authorized
    started is_proven valid_verifier matches_challenge byte_length login_service device_answer
    world_answer authorize_command authorization_record record_named record_drawn clean_display_name
    valid_platform valid_version trim_space trim_left trim_right is_space is_blank authorize_in_tx
    authorize_found authorize_new new_world new_device add_audit account_active has_capacity
    identity_taken start_in_tx prepare_start prepared refresh_hash start_prepared start_created
    issue_token_set create_session valid_create valid_binding binding_active directory
    insert_conflicts created_row
logs_in = refl

login_opens_example :
    let v =
      (exchange_request
        (login_service parts)
        healthy
        spaces
        20
        request
        (approved_tables, empty_world)).1.1 in
    (secret : Bytes) × (g : Selected) × (decode_canonical (utf8 request.authorization_code)
      ≡ some secret)
    × (select_grant spaces (authorization_code_hash platform secret) approved_tables ≡ some g)
    × IsLoggedIn parts g.grant empty_world v
    × IsSound v
    × IsWithin 2 v
login_opens_example =
    login_opens parts healthy spaces 20 request approved_tables empty_world
      (record { keyed = tt; bound = tt }) (record { keyed = tt; within = λ user. omega arith })
      logs_in
