-- ===== src/Oauth/Tests.antt =====
-- Runs of internal/oauth.
use aera_cloud.Prelude.{
  arith, is_space, is_blank, ℕ, suc, ◌≡◌, refl, sym, true, false, none, some, [], ◌∷◌, Text, codes,
  utf8, put_rune, byte_length, Bytes, take, replicate, Result, ok, err, is_ok,
}
use aera_cloud.Postgres.{healthy}
use aera_cloud.Secure.Base64.{
  encode, decode_canonical, decode_strict, decode_letters, strip_newlines, accept_canonical, letter,
  sextet, four,
}
use aera_cloud.Oauth.Model.{
  ApprovalRecord, valid_authorization_record, valid_begin_request, valid_redirect_uri,
  valid_device_metadata, valid_code_challenge, trim_space, trim_left, trim_right, decimal, Url,
  OauthError, invalid_authorization, BeginRequest, ExchangeRequest, AuthorizationRecord, Grant,
  valid_opaque_state, valid_verifier, matches_challenge,
}
use aera_cloud.Oauth.Repository.{
  saved_row, approve, approve_selected, valid_approval, code_conflicts, Tables, Spaces, Selected,
  select_grant, exchange, exchange_selected, exchange_finalized,
}
use aera_cloud.Oauth.Repository.Approved.{approve_once}
use aera_cloud.Oauth.Repository.Exchanged.{
  IsExchange, exchange_ok_effect, exchange_rolls_back, here, exchange_once,
}
use aera_cloud.Oauth.Service.{
  is_proven, exchange_request, exchange_decoded, finalize, authorized, started,
  authorization_record,
}
use aera_cloud.Oauth.Platform.{
  state_hash, Service, Platform, authorization_code_hash, device_proof_digest, encrypt_state,
  sealed_state, decrypt_state,
}
use aera_cloud.Oauth.Service.Stored.{valid_authorization_record-begin}
use aera_cloud.Oauth.Service.Laws.{exchange_proven, decrypt-encrypt}

abbrev local_url : Url
local_url = record {
  scheme = "http";
  host = codes "127.0.0.1:80";
  hostname = "127.0.0.1";
  port = some 80;
  path = "/agentera/oauth/callback";
  raw_query = [];
  fragment = [];
  has_user = false;
}

abbrev pub platform : Platform
platform = record {
  sha256 = λ bs. take 32 (1 ∷ 2 ∷ 3 ∷ bs);
  hmac = λ key bs. take 32 bs;
  verify = λ key message signature. true;
  seal = λ key nonce text aad. some text;
  open_sealed = λ key nonce bs aad. some bs;
  nonce_size = 12;
  parse_url = λ text. some local_url;
  with_query = λ text code state. text;
  uuid_text = λ id. replicate 36 b'0';
}

-- The count of the devices is what the transaction writes.
abbrev service : Service ℕ ℕ
service = record {
  platform = platform;
  authorize = λ command devices. (ok 7, suc devices);
  start_in_tx = λ binding devices. (ok 99, devices);
  active_state_key_id = "k";
  state_keys = ("k", replicate 32 0) ∷ [];
  state_hmac_key = [];
}

abbrev verifier : Text
verifier = replicate 43 b'a'

abbrev authorization : AuthorizationRecord
authorization = record {
  id = 3;
  client_id = "agentera-studio";
  redirect_uri = [];
  code_challenge = encode (platform.sha256 (replicate 43 b'a'));
  code_challenge_method = "S256";
  state_encryption_key_id = "k";
  state_nonce = [];
  state_ciphertext = [];
  state_hash = [];
  installation_id = 5;
  device_public_key = replicate 32 0;
  device_key_digest = [];
  device_display_name = codes "d";
  device_platform = "linux";
  app_version = codes "1";
  expires_at = 600000;
  created_at = 0;
}

abbrev secret : Bytes
secret = replicate 32 8

abbrev pub approved_tables : Tables
approved_tables = record {
  requests =
      record {
        authorization = authorization;
        approved_user_id = some 4;
        approved_at = some 10;
        consumed_at = none;
      }
      ∷ [];
  codes =
      record {
        id = 6;
        oauth_request_id = 3;
        code_hash = authorization_code_hash platform (replicate 32 8);
        expires_at = 120010;
        consumed_at = none;
        created_at = 10;
      }
      ∷ [];
}

abbrev pub spaces : Spaces
spaces = λ user. some 9

abbrev pub request : ExchangeRequest
request = record {
  authorization_code = encode (replicate 32 8);
  code_verifier = replicate 43 b'a';
  installation_id = 5;
  device_proof = replicate 64 0;
}

exchanges : is_ok (exchange_request service healthy spaces 20 request (approved_tables, 0)).0 ≡ true
unfolding exchange_request exchange_decoded decode_canonical decode_strict decode_letters
    strip_newlines accept_canonical letter sextet four encode utf8 put_rune exchange
    exchange_selected exchange_finalized select_grant authorization_code_hash finalize authorized
    started is_proven valid_verifier matches_challenge byte_length
exchanges = refl

exchange_proven_example :
    (secret : Bytes) × (g : Selected) × (decode_canonical (utf8 (encode (replicate 32 8)))
      ≡ some secret)
    × (select_grant spaces (authorization_code_hash platform secret) approved_tables ≡ some g)
    × (request.installation_id ≡ g.grant.authorization.installation_id)
    × (matches_challenge platform.sha256 request.code_verifier g.grant.authorization.code_challenge
        ≡ true)
    × (platform.verify g.grant.authorization.device_public_key
          (device_proof_digest platform request.authorization_code request.code_verifier
            request.installation_id)
          request.device_proof
        ≡ true)
exchange_proven_example =
    exchange_proven service healthy spaces 20 request approved_tables 0 exchanges

abbrev count_device : Grant → ℕ → Result OauthError ℕ × ℕ
count_device grant devices = (ok 1, suc devices)

abbrev refuse_device : Grant → ℕ → Result OauthError ℕ × ℕ
refuse_device grant devices = (err invalid_authorization, suc devices)

exchanged :
    is_ok
      (exchange healthy spaces
        (authorization_code_hash platform (replicate 32 8))
        20
        count_device
        (approved_tables, 0)).0
    ≡ true
unfolding exchange exchange_selected exchange_finalized select_grant authorization_code_hash
exchanged = refl

exchange_ok_effect_example :
    IsExchange spaces
      (authorization_code_hash platform (replicate 32 8))
      20
      count_device
      approved_tables
      0
      (exchange healthy spaces
        (authorization_code_hash platform (replicate 32 8))
        20
        count_device
        (approved_tables, 0))
exchange_ok_effect_example =
    exchange_ok_effect healthy spaces (authorization_code_hash platform (replicate 32 8)) 20
      count_device approved_tables 0 exchanged

exchange_rolls_back_example :
    (exchange healthy spaces
      (authorization_code_hash platform (replicate 32 8))
      20
      refuse_device
      (approved_tables, 0)).1
    ≡ (approved_tables, 0)
unfolding exchange exchange_selected exchange_finalized select_grant authorization_code_hash
exchange_rolls_back_example =
    exchange_rolls_back healthy spaces (authorization_code_hash platform (replicate 32 8)) 20
      refuse_device approved_tables 0 refl refl

exchange_once_example :
    is_ok
      (exchange healthy spaces (authorization_code_hash platform (replicate 32 8)) 30 count_device (
        (exchange healthy spaces
            (authorization_code_hash platform (replicate 32 8))
            20
            count_device
            (approved_tables, 0)).1.0,
        0,
      )).0
    ≡ false
exchange_once_example =
    exchange_once healthy healthy spaces spaces (authorization_code_hash platform (replicate 32 8))
      20 30 count_device count_device approved_tables
      (exchange healthy spaces (authorization_code_hash platform (replicate 32 8)) 20 count_device
        (approved_tables, 0)).1.0
      0 0 exchanged here

abbrev begin_request : BeginRequest
begin_request = record {
  client_id = "agentera-studio";
  redirect_uri = [];
  code_challenge = encode (replicate 32 1);
  code_challenge_method = "S256";
  state = replicate 16 b's';
  installation_id = 5;
  device_public_key = replicate 32 0;
  device_display_name = codes "d";
  device_platform = "linux";
  app_version = codes "1";
}

decrypt-encrypt_example :
    decrypt_state service
      (authorization_record service begin_request 0 3 (replicate 12 4) (replicate 16 b's'))
    ≡ some (replicate 16 b's')
unfolding valid_opaque_state byte_length utf8 put_rune encrypt_state sealed_state
decrypt-encrypt_example =
    decrypt-encrypt service begin_request 0 3 (replicate 32 0) (replicate 12 4) (replicate 16 b's')
      (λ _ _ _ _ _ e. sym e) refl refl refl refl

valid_authorization_record-begin_example :
    valid_authorization_record
      (λ text. some local_url)
      (authorization_record service begin_request 0 3 (replicate 12 4) (replicate 17 5))
    ≡ true
unfolding valid_begin_request valid_redirect_uri valid_device_metadata valid_opaque_state
    valid_code_challenge trim_space trim_left trim_right is_space is_blank byte_length utf8 put_rune
    decimal state_hash decode_canonical decode_strict decode_letters strip_newlines accept_canonical
    letter sextet four encode
valid_authorization_record-begin_example =
    valid_authorization_record-begin service begin_request 0 3 (replicate 12 4) (replicate 17 5)
      refl refl refl refl refl refl (omega arith)

abbrev saved_tables : Tables
saved_tables = record { requests = saved_row authorization ∷ []; codes = [] }

abbrev approval : ApprovalRecord
approval = record {
  request_id = 3;
  user_id = 4;
  code_id = 6;
  code_hash = replicate 32 8;
  code_expires_at = 120010;
  approved_at = 10;
}

approves_it : is_ok (approve healthy spaces approval saved_tables).0 ≡ true
unfolding approve approve_selected valid_approval code_conflicts
approves_it = refl

approve_once_example :
    is_ok
      (approve healthy spaces
        (record approval { user_id = 5; code_id = 7 })
        (approve healthy spaces approval saved_tables).1).0
    ≡ false
approve_once_example =
    approve_once healthy healthy spaces spaces approval
      (record approval { user_id = 5; code_id = 7 }) saved_tables
      (approve healthy spaces approval saved_tables).1 refl approves_it here
