-- ===== src/Verification/ServiceTests.antt =====
-- A Send and a Verify (internal/verification/service.go), run.
use aera_cloud.Prelude.{
  ◌≡◌, refl, true, false, some, [], ◌∷◌, take, replicate, codes, utf8, put_rune, byte_length,
  is_blank, is_space, Bytes, ok, is_ok, arith,
}
use aera_cloud.Postgres.{healthy}
use aera_cloud.Verification.Model.{
  login, email, valid_purpose, invalid_request, SendRequest, VerifyRequest,
}
use aera_cloud.Verification.Limiter.{
  allow, acquire, holder, current, increment, valid_policy, default_scope_policies,
}
use aera_cloud.Verification.Repository.{
  exists_by_idempotency, latest, latest_loop, latest_for_target, keep_later, newest, newer,
  save_after_delivery, save_conflicts,
}
use aera_cloud.Verification.Service.{
  Service, World, Around, Target, LookupIndex, delivered, prepare_target, six_digits, hex,
  hex_digit, request_hmac,
}
use aera_cloud.Verification.Service.Sending.{
  send, prepared, seen, send_owned, acquired, release_lease, send_leased, seen_again, waited,
  limited, unchallenged, cooled, drawn, identified, deliver_and_save, stored, new_challenge,
  idempotency_hash,
}
use aera_cloud.Verification.Service.Limits.{
  allow_request, allow_scopes, request_scopes, check_captcha, allow_unified_phone_cooldown,
  latest_for_send_cooldown, valid_send_metadata,
}
use aera_cloud.Verification.Service.Sending.Laws.{MaybeSent, send_repeat}
use aera_cloud.Verification.Service.Sending.Messages.{IsSent, send_first, send_refused}

abbrev reverse_onto : Bytes → Bytes → Bytes
reverse_onto [] bs = bs
reverse_onto (c ∷ cs) bs = reverse_onto cs (c ∷ bs)

-- A hash that keeps the end of its message.
abbrev last_bytes : Bytes → Bytes → Bytes
last_bytes key message = take 32 (reverse_onto message (replicate 32 0))

abbrev lookup_one : LookupIndex
lookup_one = record { key_id = "l"; hmac = replicate 32 1 }

abbrev service : Service
service = record {
  normalize = λ kind text. some text;
  lookup_candidates = λ kind text. lookup_one ∷ [];
  hmac = last_bytes;
  request_hmac_key = [];
  active_code_key_id = "c";
  code_keys = ("c", []) ∷ [];
  policies = default_scope_policies;
  captcha = λ token ip. some true;
  deliver = λ destination code purpose. delivered;
  issue_receipt = λ c text. some (record { serialized = []; expires_at = 0 });
}

abbrev quiet : Around
quiet = record {
  now = 1000;
  redis_now = 1000;
  owner = some (5 ∷ []);
  code_draw = some 40713;
  challenge_id = some 1;
  exists_fails = false;
  acquire_fails = false;
  exists_again_fails = false;
  latest_fails = false;
  limiter_fails = false;
  cooldown_fails = false;
  release_fails = false;
  save = healthy;
  meanwhile = λ w. w;
}

abbrev request : SendRequest
request = record {
  kind = email;
  destination = codes "a@b";
  purpose = login;
  idempotency_key = codes "12345678";
  ip_address = codes "1";
  device_id = codes "d";
  captcha_token = [];
}

abbrev empty_world : World
empty_world = record { challenges = []; counters = []; leases = []; outbox = [] }

abbrev one_target : Target
one_target = record { normalized = codes "a@b"; active = lookup_one; others = [] }

sends : is_ok (send service quiet request empty_world).0 ≡ true
unfolding send prepared seen send_owned acquired release_lease send_leased seen_again waited limited
    unchallenged cooled drawn identified deliver_and_save stored new_challenge idempotency_hash
    allow_request allow_scopes request_scopes check_captcha allow_unified_phone_cooldown
    latest_for_send_cooldown valid_send_metadata prepare_target exists_by_idempotency latest
    latest_loop latest_for_target keep_later newest newer save_after_delivery save_conflicts allow
    acquire holder current increment valid_policy is_blank is_space byte_length utf8 put_rune
    request_hmac hex hex_digit valid_purpose six_digits
sends = refl

abbrev later : Around
later = record quiet { now = 2000; redis_now = 2000; save = record healthy { write = true } }

send_repeat_example :
    send service later request (send service quiet request empty_world).1
    ≡ (ok tt, (send service quiet request empty_world).1)
send_repeat_example = send_repeat service quiet later request empty_world sends refl

prepares : prepare_target service email (codes "a@b") login ≡ ok one_target
unfolding prepare_target valid_purpose
prepares = refl

send_first_example :
    IsSent service quiet request one_target empty_world (send service quiet request empty_world).1
send_first_example =
    send_first service quiet request empty_world one_target prepares refl sends refl

abbrev keyless : SendRequest
keyless = record request { idempotency_key = [] }

send_refused_example :
    ((send service quiet keyless empty_world).1.challenges ≡ [])
    × MaybeSent service empty_world (send service quiet keyless empty_world).1
unfolding send prepared prepare_target valid_send_metadata valid_purpose byte_length utf8
send_refused_example =
    send_refused service quiet keyless empty_world invalid_request refl refl
      (λ e. ground (arith, e))

abbrev guess : VerifyRequest
guess = record { kind = email; destination = codes "a@b"; purpose = login; code = codes "040713" }
