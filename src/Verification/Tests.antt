-- ===== src/Verification/Tests.antt =====
-- Runs of internal/verification.
use aera_cloud.Prelude.{
  is_space, ◌≤◌, ◌≡◌, ◌≢◌, refl, arith, true, false, none, some, [], ◌∷◌, replicate, Bytes, is_ok,
  update_where, is_blank,
}
use aera_cloud.Postgres.{healthy}
use aera_cloud.Verification.Model.{login, email, Challenge}
use aera_cloud.Verification.Limiter.{Policy, valid_policy, current, acquire, holder}
use aera_cloud.Verification.Limiter.Laws.{allowed_calls, window_limit, acquire_excludes}
use aera_cloud.Verification.Repository.{
  consume_selected, newer, fail_attempt, is_candidate, codes_match, consume, newest, mark_consumed,
  has_challenge_id,
}
use mathlib.Core.List.{Memᴰ}
use aera_cloud.Verification.Repository.Newest.{NoneNewer}
use aera_cloud.Verification.Repository.Outcome.{consume_ok_effect}
use aera_cloud.Verification.Repository.Attempts.{IsSound, Attempt, attempt, consume-IsSound}
use aera_cloud.Verification.Repository.Budget.{
  counts_for, wrong_codes, attempts, five_wrong_codes_lock,
}

abbrev two_calls : Policy
two_calls = record { limit = 2; captcha_after = 1; window = 100 }

window_limit_example : allowed_calls (1 ∷ []) two_calls (10 ∷ 11 ∷ 12 ∷ 13 ∷ []) [] ≤ 2
unfolding is_blank is_space valid_policy current
window_limit_example =
    window_limit 10 (11 ∷ 12 ∷ 13 ∷ []) (1 ∷ []) two_calls [] refl refl refl
      (omega arith, (omega arith, (omega arith, tt)))

acquire_excludes_example :
    (acquire false 15 (1 ∷ []) (3 ∷ []) 10 (acquire false 10 (1 ∷ []) (2 ∷ []) 10 []).1).0
    ≢ some true
unfolding acquire is_blank is_space holder
acquire_excludes_example =
    acquire_excludes 10 15 (1 ∷ []) (2 ∷ []) (3 ∷ []) 10 10 [] refl (omega arith)

abbrev target_one : Bytes
target_one = replicate 32 1

abbrev right_hash : Bytes
right_hash = replicate 32 7

abbrev open_challenge : Challenge
open_challenge = record {
  id = 4;
  purpose = login;
  identity_kind = email;
  target_lookup_key_id = "k";
  target_lookup_hmac = target_one;
  code_key_id = "c";
  code_hmac = right_hash;
  idempotency_key_hash = replicate 32 9;
  expires_at = 300000;
  resend_after = 60000;
  failed_attempts = 0;
  consumed_at = none;
  invalidated_at = none;
  created_at = 0;
}

consume_ok_effect_example :
    (c : Challenge) × Memᴰ c (open_challenge ∷ [])
    × (is_candidate target_one login 5 c ≡ true)
    × NoneNewer (is_candidate target_one login 5) c (open_challenge ∷ [])
    × (codes_match c.code_hmac right_hash ≡ true)
    × ((consume healthy target_one login right_hash 5 (open_challenge ∷ [])).1
        ≡ update_where (has_challenge_id c.id) (mark_consumed 5) (open_challenge ∷ []))
unfolding consume consume_selected newest newer codes_match
consume_ok_effect_example =
    consume_ok_effect healthy target_one login right_hash 5 (open_challenge ∷ []) refl

one-IsSound : IsSound (open_challenge ∷ [])
one-IsSound = record { unique = λ i. ground arith; counted = ground arith }

abbrev wrong_attempt : Attempt
wrong_attempt = record { db = healthy; target = target_one; purpose = login; code = []; now = 5 }

consume-IsSound_example : IsSound (attempt wrong_attempt (open_challenge ∷ [])).1
consume-IsSound_example = consume-IsSound wrong_attempt (open_challenge ∷ []) one-IsSound

five_wrong_codes_lock_example :
    is_ok
      (attempt
        (record wrong_attempt { code = right_hash })
        (attempts (replicate 5 wrong_attempt) (open_challenge ∷ []))).0
    ≡ false
unfolding wrong_codes counts_for consume consume_selected newest newer codes_match fail_attempt
five_wrong_codes_lock_example =
    five_wrong_codes_lock target_one login (replicate 5 wrong_attempt) (open_challenge ∷ [])
      (record wrong_attempt { code = right_hash }) one-IsSound refl refl refl refl
