-- ===== src/Session/Tests.antt =====
-- Concrete runs of internal/session: one user with one device, tokens of one family.
use aera_cloud.Prelude.{
  ◌==◌, ℕ, ◌%◌, ◌<◌, ◌≡◌, refl, ◌↔◌, true, false, Option, none, some, [], ◌∷◌, Bytes, replicate,
  length-replicate, replicate-All, is_ok, ok, err, find, arith,
}
use aera_cloud.Postgres.{healthy}
use aera_cloud.Secure.Base64.{encode, decode_canonical}
use aera_cloud.Secure.Base64.Canonical.{decode_canonical-encode}
use aera_cloud.Session.Table.{
  session_revoked, unavailable, Directory, Binding, Session, Rows, UserStatus, DeviceStatus,
  SpaceStatus, has_hash, replace, valid_binding, insert_conflicts, revoke, revoke_replayed,
}
use aera_cloud.Session.Repository.{
  CreateRecord, SuccessorRecord, Rotation, AccessBinding, Source, create_session, created_row,
  successor_row, select_source, rotate, revoke_selected, rotate_selected, rotate_source,
  valid_create, valid_successor, binding_active, revoke_by_token, revoke_family,
}
use aera_cloud.Session.Repository.Live.{AtMostOneLive}
use aera_cloud.Session.Repository.Family.{AllRevoked}
use aera_cloud.Session.Repository.Acceptance.{
  IsExchangeable, IsRotated, rotate_accepts, rotate_ok_effect,
}
use aera_cloud.Session.Trace.{
  Steps, here, next, creates, rotates, Steps-AtMostOneLive, rotate_once, replay_ends_family,
  logout_ends_family,
}
use aera_cloud.Session.Access.{IssuedAccessToken}
use aera_cloud.Session.Service.{
  Service, Hmac, Issuers, Draws, refresh, refresh_decoded, refresh_secret, refresh_rotated,
  issue_token_set, refresh_hash,
}
use aera_cloud.Session.Service.Laws.{refresh_once, issue_failure_revokes}

abbrev sample_directory : Directory
sample_directory = record {
  users = record { id = 1; status = UserStatus.active } ∷ [];
  devices = record { id = 2; user_id = 1; installation_id = 3; status = DeviceStatus.active } ∷ [];
  spaces = record { id = 4; owner_user_id = 1; status = SpaceStatus.active } ∷ [];
}

abbrev hash_of : ℕ → Bytes
hash_of n = replicate 32 n

abbrev sample_binding : Binding
sample_binding = record { user_id = 1; device_id = 2; installation_id = 3; personal_space_id = 4 }

abbrev first_record : CreateRecord
first_record = record {
  session_id = 10;
  family_id = 20;
  binding = sample_binding;
  refresh_token_hash = hash_of 1;
  issued_at = 1000;
  expires_at = 9000;
}

abbrev second_record : SuccessorRecord
second_record = record {
  session_id = 11;
  refresh_token_hash = hash_of 2;
  issued_at = 2000;
  expires_at = 9500;
}

abbrev third_record : SuccessorRecord
third_record = record {
  session_id = 12;
  refresh_token_hash = hash_of 3;
  issued_at = 3000;
  expires_at = 9900;
}

started : Rows
started = created_row first_record ∷ []

rotated : Rows
rotated = (rotate healthy sample_directory (hash_of 1) second_record 2000 started).1

-- The row of the first token, once it was exchanged.
abbrev replaced_row : Session
replaced_row = replace 2000 (created_row first_record)

source_of : Session → Source
source_of s = record {
  session = s;
  user = record { id = 1; status = UserStatus.active };
  device = record { id = 2; user_id = 1; installation_id = 3; status = DeviceStatus.active };
  space = record { id = 4; owner_user_id = 1; status = SpaceStatus.active };
}

create_works : create_session healthy sample_directory first_record [] ≡ (ok tt, started)
unfolding create_session valid_create valid_binding binding_active insert_conflicts started
create_works = refl

rotate_works :
    is_ok (rotate healthy sample_directory (hash_of 1) second_record 2000 started).0 ≡ true
unfolding rotate rotate_selected rotate_source select_source valid_successor insert_conflicts
    started created_row successor_row
rotate_works = refl

rotate_once_example :
    is_ok (rotate healthy sample_directory (hash_of 1) third_record 3000 rotated).0 ≡ false
unfolding rotated
rotate_once_example =
    rotate_once healthy healthy sample_directory sample_directory (hash_of 1) second_record
      third_record 2000 3000 started rotate_works here

replayed_source : select_source sample_directory (hash_of 1) rotated ≡ some (source_of replaced_row)
unfolding rotated rotate rotate_selected rotate_source select_source valid_successor
    insert_conflicts started created_row successor_row source_of replace
replayed_source = refl

-- The newest token's row, after the replay of the first one.
abbrev newest_row : Session
newest_row = revoke_replayed 3000 10 (successor_row (created_row first_record) second_record)

newest_found :
    find
      (has_hash (hash_of 2))
      (rotate healthy sample_directory (hash_of 1) third_record 3000 rotated).1
    ≡ some newest_row
unfolding rotated rotate rotate_selected rotate_source select_source valid_successor
    insert_conflicts started created_row successor_row source_of replace revoke_replayed
newest_found = refl

replay_ends_family_example :
    ((rotate healthy sample_directory (hash_of 1) third_record 3000 rotated).0
      ≡ err session_revoked)
    × (is_ok
          (rotate healthy sample_directory
            (hash_of 2)
            third_record
            3000
            (rotate healthy sample_directory (hash_of 1) third_record 3000 rotated).1).0
        ≡ false)
unfolding valid_successor source_of replace revoke_replayed successor_row created_row
replay_ends_family_example =
    replay_ends_family healthy sample_directory sample_directory (hash_of 1) (hash_of 2)
      third_record third_record 3000 3000 rotated (source_of replaced_row) newest_row refl refl
      replayed_source refl here newest_found refl

-- A replay whose UPDATE misses the row of a concurrent Rotate leaves that row's token usable.
replay_misses :
    is_ok
      (rotate healthy sample_directory
        (hash_of 2)
        third_record
        3000
        (rotate
          (record healthy { unseen = λ i. i == 11 })
          sample_directory
          (hash_of 1)
          third_record
          3000
          rotated).1).0
    ≡ true
unfolding rotated rotate rotate_selected rotate_source select_source valid_successor
    insert_conflicts started created_row successor_row source_of replace revoke_replayed
replay_misses = refl

started_found : find (has_hash (hash_of 1)) started ≡ some (created_row first_record)
unfolding started created_row
started_found = refl

logged_out : (revoke_by_token healthy (hash_of 1) 2500 started).0 ≡ ok tt
unfolding revoke_by_token revoke_selected started created_row
logged_out = refl

logged_out_row :
    find (has_hash (hash_of 1)) (revoke_by_token healthy (hash_of 1) 2500 started).1
    ≡ some (revoke 2500 "user_logout" (created_row first_record))
unfolding revoke_by_token revoke_selected started created_row revoke
logged_out_row = refl

logout_ends_family_example :
    is_ok
      (rotate healthy sample_directory
        (hash_of 1)
        second_record
        3000
        (revoke_by_token healthy (hash_of 1) 2500 started).1).0
    ≡ false
unfolding revoke
logout_ends_family_example =
    logout_ends_family healthy healthy sample_directory (hash_of 1) (hash_of 1) second_record 2500
      3000 started (created_row first_record) (revoke 2500 "user_logout" (created_row first_record))
      (λ i. refl) started_found logged_out here logged_out_row refl

sample_path :
    Steps []
      (rotate healthy sample_directory
        (hash_of 1)
        second_record
        2000
        (create_session healthy sample_directory first_record []).1).1
sample_path =
    next (next here (creates healthy sample_directory first_record refl))
      (rotates healthy sample_directory (hash_of 1) second_record 2000)

Steps-AtMostOneLive_example :
    AtMostOneLive
      (rotate healthy sample_directory
        (hash_of 1)
        second_record
        2000
        (create_session healthy sample_directory first_record []).1).1
Steps-AtMostOneLive_example = Steps-AtMostOneLive sample_path

started_source :
    select_source sample_directory (hash_of 1) started ≡ some (source_of (created_row first_record))
unfolding select_source started created_row source_of
started_source = refl

rotate_accepts_example :
    (is_ok (rotate healthy sample_directory (hash_of 1) second_record 2000 started).0 ≡ true)
    ↔ IsExchangeable (source_of (created_row first_record)) second_record 2000 started
unfolding valid_successor
rotate_accepts_example =
    rotate_accepts sample_directory (hash_of 1) second_record 2000 started
      (source_of (created_row first_record)) refl refl started_source

rotate_ok_effect_example :
    IsRotated
      (source_of (created_row first_record))
      second_record
      2000
      started
      (rotate healthy sample_directory (hash_of 1) second_record 2000 started)
rotate_ok_effect_example =
    rotate_ok_effect healthy sample_directory (hash_of 1) second_record 2000 started
      (source_of (created_row first_record)) started_source rotate_works

last : ℕ → Bytes → ℕ
last n [] = n % 256
last n (b ∷ bs) = last b bs

sample_hmac : Hmac
unfolding last
sample_hmac = record {
  sum = λ key message. replicate 32 (last 0 message);
  length-sum = λ key message. length-replicate 32 (last 0 message);
}

issue_access : AccessBinding → Option IssuedAccessToken
issue_access b = some (record { serialized = 97 ∷ []; expires_at = 900 })

sample_service : Service
unfolding sample_hmac issue_access
sample_service = record {
  hmac = sample_hmac;
  refresh_hmac_key = hash_of 9;
  issuers = record {
    access = issue_access;
    offline = λ b. some (record { serialized = 98 ∷ []; expires_at = 900 });
  };
}

-- The token that stands for 32 bytes 1, whose hash under the sample key is `hash_of 1`.
abbrev sample_token : Bytes
sample_token = encode (hash_of 1)

sample_token_decodes : decode_canonical sample_token ≡ some (hash_of 1)
sample_token_decodes =
    decode_canonical-encode (hash_of 1) (replicate-All (λ b. b < 256) 32 1 (omega arith))

abbrev second_draws : Draws
second_draws = record {
  session_id = some 11;
  family_id = none;
  secret = some (hash_of 2);
  now = 2000;
  later = 2001;
}

abbrev third_draws : Draws
third_draws = record {
  session_id = some 12;
  family_id = none;
  secret = some (hash_of 3);
  now = 3000;
  later = 3001;
}

refreshed :
    is_ok
      (refresh sample_service healthy healthy sample_directory second_draws sample_token started).0
    ≡ true
unfolding refresh refresh_decoded refresh_secret refresh_rotated issue_token_set refresh_hash
    sample_service sample_hmac rotate rotate_selected rotate_source select_source valid_successor
    insert_conflicts started created_row successor_row
refreshed = rw sample_token_decodes refl

refresh_once_example :
    is_ok
      (refresh sample_service healthy healthy sample_directory third_draws sample_token
        (refresh sample_service healthy healthy sample_directory second_draws sample_token
          started).1).0
    ≡ false
refresh_once_example =
    refresh_once sample_service healthy healthy healthy healthy sample_directory sample_directory
      second_draws third_draws sample_token started refreshed here

abbrev broken_issuers : Issuers
broken_issuers = record { access = λ b. none; offline = λ b. none }

abbrev sample_rotation : Rotation
sample_rotation = record { session_id = 10; family_id = 20; binding = sample_binding }

issue_failure_revokes_example :
    ((issue_token_set broken_issuers sample_rotation sample_token 9000 true healthy 2001 started).0
      ≡ err unavailable)
    × AllRevoked 20
        (issue_token_set broken_issuers sample_rotation sample_token 9000 true healthy 2001
          started).1
unfolding issue_token_set revoke_family
issue_failure_revokes_example =
    issue_failure_revokes broken_issuers sample_rotation sample_token 9000 healthy 2001 started refl
      refl
