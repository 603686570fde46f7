-- ===== src/Verification/Service/Sending/Messages.antt =====
-- The message of a first Send, and the silence of a refused one
-- (internal/verification/service.go).
use aera_cloud.Prelude.{
  ℕ, ◌+◌, ◌∷◌, none, ◌≡◌, refl, ◌≢◌, Bool, true, false, inl, inr, Bytes, Result, ok, err, is_ok,
  arith, Bool-cases,
}
use aera_cloud.Verification.Model.{Error, temporarily_unavailable, SendRequest, Challenge}
use aera_cloud.Verification.Repository.{RepositoryError, exists_by_idempotency}
use aera_cloud.Verification.Service.{
  Service, World, Around, Target, prepare_target, code_hmac, lookup_key,
}
use aera_cloud.Verification.Service.Sending.{
  new_challenge, or_nil, seen, prepared, six_digits, send, idempotency_hash,
}
use aera_cloud.Verification.Service.Limits.{valid_send_metadata}
use aera_cloud.Verification.Service.Sending.Walk.{Answer, has_challenge, owned-answer}
use aera_cloud.Verification.Service.Sending.Laws.{Adds, MaybeSent, deliver-refused, deliver-Adds}

-- Of the request's hash: Send found it, or an `ok` answer added a message and its challenge.
abbrev First : Service → Around → SendRequest → Target → Bytes → World → Answer → Type 0
First s io r t h w a =
    is_ok a.0 ≡ true
    → has_challenge h w ≡ false
    → (draw : ℕ) × (id : ℕ) × Adds w t.normalized (six_digits draw)
        (new_challenge s r t h io.now id (six_digits draw)) a

seen-First :
    (s : Service) (io : Around) (r : SendRequest) (t : Target) (h : Bytes) (w : World)
    → io.meanwhile w ≡ w
    → (x : Result RepositoryError Bool) → x ≡ exists_by_idempotency io.exists_fails h w.challenges
    → First s io r t h w (seen s io r t h w x)
unfolding seen exists_by_idempotency
seen-First s io r t h w same (err e) f = λ o. absurd (ground (arith, o))
seen-First s io r t h w same (ok true) f = λ o m. absurd (ground (arith, f, m))
seen-First s io r t h w same (ok false) f = rw same (
    owned-answer s io r t h (First s io r t h w) w (λ ls x v k. k)
      (λ e counters o. absurd (ground (arith, o))) (λ k o m. absurd (cc (k, m)))
      (λ counters ls draw id o m. (
        draw,
        id,
        deliver-Adds s io t.normalized (six_digits draw)
            (new_challenge s r t h io.now id (six_digits draw))
            (record w { counters = counters; leases = ls }) o,
      ))
      io.owner)

-- What Send added: `c` and a message with the six digits of `draw`.
pub record IsSent (s : Service) (io : Around) (r : SendRequest) (t : Target) (w : World) (v : World)
    : Type 0 where
  pub draw : ℕ
  pub c : Challenge
  pub stored : v.challenges ≡ c ∷ w.challenges
  pub sent :
      v.outbox
      ≡ record { destination = t.normalized; code = six_digits draw; purpose = r.purpose }
        ∷ w.outbox
  pub purpose : c.purpose ≡ r.purpose
  pub kind : c.identity_kind ≡ r.kind
  pub target : c.target_lookup_hmac ≡ t.active.hmac
  pub code_key : c.code_key_id ≡ s.active_code_key_id
  pub code :
      c.code_hmac
      ≡ code_hmac s
          (or_nil (lookup_key s.active_code_key_id s.code_keys))
          r.purpose
          t.active.hmac
          (six_digits draw)
  pub idempotency : c.idempotency_key_hash ≡ idempotency_hash s r t
  pub fresh : c.failed_attempts ≡ 0
  pub not_consumed : c.consumed_at ≡ none
  pub not_invalidated : c.invalidated_at ≡ none
  pub created : c.created_at ≡ io.now
  pub five_minutes : c.expires_at ≡ io.now + 300000
  pub one_minute : c.resend_after ≡ io.now + 60000

-- A request that Send answers `ok` and whose hash was not in the table, with no other request
-- in between, added one challenge and one message: the message goes to the normalized destination,
-- and the challenge is for the kind, the purpose, the target and the idempotency hash of the
-- request and, under the active code key, for the code of the message; it is open, with no failed
-- attempts, expires five minutes from now, and allows the next one after a minute.
pub send_first :
    (s : Service) (io : Around) (r : SendRequest) (w : World) (t : Target)
    → prepare_target s r.kind r.destination r.purpose ≡ ok t
    → io.meanwhile w ≡ w
    → is_ok (send s io r w).0 ≡ true
    → has_challenge (idempotency_hash s r t) w ≡ false
    → IsSent s io r t w (send s io r w).1
unfolding send prepared new_challenge
send_first s io r w t target same o m =
    let (draw, id, both) = added in
    record {
      draw = draw;
      c = new_challenge s r t (idempotency_hash s r t) io.now id (six_digits draw);
      stored = both.0;
      sent = both.1;
      purpose = refl;
      kind = refl;
      target = refl;
      code_key = refl;
      code = refl;
      idempotency = refl;
      fresh = refl;
      not_consumed = refl;
      not_invalidated = refl;
      created = refl;
      five_minutes = refl;
      one_minute = refl;
    }
  where
    h : Bytes
    h = idempotency_hash s r t

    x : Result RepositoryError Bool
    x = exists_by_idempotency io.exists_fails h w.challenges

    added :
        (draw : ℕ) × (id : ℕ) × Adds w t.normalized
          (six_digits draw)
          (new_challenge s r t h io.now id (six_digits draw))
          (send s io r w)
    added = elim (Bool-cases (valid_send_metadata r)) [
      | inl v ↦
          rw (target, v) (seen-First s io r t h w same x refl (ground (arith, o, v, target)) m)
      | inr v ↦ absurd (ground (arith, o, v, target))
    ]

abbrev Silent : Service → World → Answer → Type 0
Silent s w a =
    (e : Error)
    → a.0 ≡ err e
    → e ≢ temporarily_unavailable
    → (a.1.challenges ≡ w.challenges) × MaybeSent s w a.1

seen-Silent :
    (s : Service) (io : Around) (r : SendRequest) (t : Target) (h : Bytes) (w : World)
    → io.meanwhile w ≡ w
    → (x : Result RepositoryError Bool) → Silent s w (seen s io r t h w x)
unfolding seen
seen-Silent s io r t h w same (err e) = λ _ _ _. (refl, inl refl)
seen-Silent s io r t h w same (ok true) = λ _ _ _. (refl, inl refl)
seen-Silent s io r t h w same (ok false) = rw same (
    owned-answer s io r t h (Silent s w) w (λ ls x v k. k) (λ _ _ _ _ _. (refl, inl refl))
      (λ _ _ _ _. (refl, inl refl))
      (λ counters ls draw id.
        deliver-refused s io t.normalized (six_digits draw)
          (new_challenge s r t h io.now id (six_digits draw))
          (record w { counters = counters; leases = ls }))
      io.owner)

prepared-Silent :
    (s : Service) (io : Around) (r : SendRequest) (w : World)
    → io.meanwhile w ≡ w
    → (x : Result Error Target) → Silent s w (prepared s io r w x)
unfolding prepared
prepared-Silent s io r w same (err e) = λ _ _ _. (refl, inl refl)
prepared-Silent s io r w same (ok t) = elim (Bool-cases (valid_send_metadata r)) [
  | inl v ↦ rw v (seen-Silent s io r t _ w same _)
  | inr v ↦ rw v (λ _ _ _. (refl, inl refl))
]

-- A request that Send refuses (every error but `temporarily_unavailable`), with no other request
-- in between, leaves the challenges as they are, and sends no message but perhaps one that the
-- provider accepted before it answered with an error.
pub send_refused :
    (s : Service) (io : Around) (r : SendRequest) (w : World) (e : Error)
    → io.meanwhile w ≡ w
    → (send s io r w).0 ≡ err e
    → e ≢ temporarily_unavailable
    → ((send s io r w).1.challenges ≡ w.challenges) × MaybeSent s w (send s io r w).1
unfolding send
send_refused s io r w e same = prepared-Silent s io r w same _ e
