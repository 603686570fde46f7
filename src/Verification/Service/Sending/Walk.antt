-- ===== src/Verification/Service/Sending/Walk.antt =====
-- Walking through the branches of Send (internal/verification/service.go).
use aera_cloud.Prelude.{
  ℕ, ◌≡◌, refl, Bool, true, false, inl, inr, Option, none, some, Bytes, any, Result, ok, err, arith,
  Bool-cases,
}
use aera_cloud.Verification.Model.{
  Error, resend_too_soon, temporarily_unavailable, request_in_progress, Challenge, SendRequest,
}
use aera_cloud.Verification.Limiter.{Counters, Leases}
use aera_cloud.Verification.Repository.{RepositoryError, exists_by_idempotency, has_idempotency}
use aera_cloud.Verification.Service.{lookup_hmacs, Service, World, Around, Target}
use aera_cloud.Verification.Service.Sending.{
  new_challenge, deliver_and_save, identified, drawn, cooled, unchallenged, limited, waited,
  seen_again, send_leased, release_lease, acquired, send_owned, six_digits, cooling,
}
use aera_cloud.Verification.Service.Limits.{
  latest_for_send_cooldown, allow_request, check_captcha, allow_unified_phone_cooldown,
}

abbrev pub Answer : Type 0
Answer = Result Error (Unit {0}) × World

abbrev pub has_challenge : Bytes → World → Bool
has_challenge h w = any (has_idempotency h) w.challenges

-- A predicate holds of an answer of Send if it holds of the errors that leave the table and the
-- messages alone, of the answer that the challenge is there, and of a delivery's.
module _ (s : Service) (io : Around) (r : SendRequest) (t : Target) (h : Bytes)
    (P : Answer → Type 0) (w : World)
    (bad : (e : Error) (counters : Counters) → P (err e, record w { counters = counters }))
    (found : has_challenge h w ≡ true → P (ok tt, w))
    (sent : (counters : Counters) (draw id : ℕ)
      → P (
          deliver_and_save s io t.normalized
            (six_digits draw)
            (new_challenge s r t h io.now id (six_digits draw))
            (record w { counters = counters }))) where
  identified-answer :
      (counters : Counters) (draw : ℕ) (id : Option ℕ)
      → P (identified s io r t h (record w { counters = counters }) draw id)
  unfolding identified
  identified-answer counters draw none = bad temporarily_unavailable counters
  identified-answer counters draw (some id) = sent counters draw id

  drawn-answer :
      (counters : Counters) (draw : Option ℕ)
      → P (drawn s io r t h (record w { counters = counters }) draw)
  unfolding drawn
  drawn-answer counters none = bad temporarily_unavailable counters
  drawn-answer counters (some draw) = identified-answer counters draw io.challenge_id

  cooled-answer : (x : Result Error (Unit {0}) × Counters) → P (cooled s io r t h w x)
  unfolding cooled
  cooled-answer (err e, counters) = bad e counters
  cooled-answer (ok _, counters) = drawn-answer counters io.code_draw

  unchallenged-answer :
      (counters : Counters) (x : Result Error (Unit {0})) → P (unchallenged s io r t h w counters x)
  unfolding unchallenged
  unchallenged-answer counters (err e) = bad e counters
  unchallenged-answer counters (ok _) =
      cooled-answer (allow_unified_phone_cooldown s io r t.active.hmac counters)

  limited-answer : (x : Result Error Bool × Counters) → P (limited s io r t h w x)
  unfolding limited
  limited-answer (err e, counters) = bad e counters
  limited-answer (ok required, counters) = unchallenged-answer counters (check_captcha s r required)

  waited-answer : (x : Result RepositoryError (Option Challenge)) → P (waited s io r t h w x)
  unfolding waited
  waited-answer (err e) = bad temporarily_unavailable w.counters
  waited-answer (ok last) = elim (Bool-cases (cooling last io.now)) [
    | inl e ↦ rw e (bad resend_too_soon w.counters)
    | inr e ↦ rw e (limited-answer (allow_request s io r t.active.hmac w.counters))
  ]

  seen_again-answer :
      (x : Result RepositoryError Bool)
      → x ≡ exists_by_idempotency io.exists_again_fails h w.challenges
      → P (seen_again s io r t h w x)
  unfolding seen_again exists_by_idempotency
  seen_again-answer (err e) f = bad temporarily_unavailable w.counters
  seen_again-answer (ok true) f = found (ground (arith, f))
  seen_again-answer (ok false) f =
      waited-answer (latest_for_send_cooldown io.latest_fails r (lookup_hmacs t) w.challenges)

  pub leased-answer : P (send_leased s io r t h w)
  unfolding send_leased
  leased-answer =
      seen_again-answer (exists_by_idempotency io.exists_again_fails h w.challenges) refl

-- The same of all that runs once the caller has drawn its owner token.
module _ (s : Service) (io : Around) (r : SendRequest) (t : Target) (h : Bytes)
    (P : Answer → Type 0) (w : World)
    (leases_free : (ls : Leases) (x : Result Error (Unit {0})) (v : World)
      → P (x, v)
      → P (x, record v { leases = ls }))
    (bad : (e : Error) (counters : Counters) → P (err e, record w { counters = counters }))
    (found : has_challenge h w ≡ true → P (ok tt, w))
    (sent : (counters : Counters) (leases : Leases) (draw id : ℕ)
      → P (
          deliver_and_save s io t.normalized
            (six_digits draw)
            (new_challenge s r t h io.now id (six_digits draw))
            (record w { counters = counters; leases = leases }))) where
  acquired-answer : (owner : Bytes) (x : Option Bool × Leases) → P (acquired s io r t h owner w x)
  unfolding acquired release_lease
  acquired-answer owner (none, ls) = bad temporarily_unavailable w.counters
  acquired-answer owner (some false, ls) = bad request_in_progress w.counters
  acquired-answer owner (some true, ls) = leases_free _ _ _ (
      leased-answer s io r t h P (record w { leases = ls })
        (λ e counters. leases_free ls (err e) (record w { counters = counters }) (bad e counters))
        (λ f. leases_free ls (ok tt) w (found f)) (λ counters. sent counters ls))

  pub owned-answer : (owner : Option Bytes) → P (send_owned s io r t h w owner)
  unfolding send_owned
  owned-answer none = bad temporarily_unavailable w.counters
  owned-answer (some owner) = acquired-answer owner _
