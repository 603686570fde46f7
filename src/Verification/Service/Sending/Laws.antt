-- ===== src/Verification/Service/Sending/Laws.antt =====
-- What Send does to the table and to the messages sent (internal/verification/service.go).
use aera_cloud.Prelude.{
  ◌≡◌, refl, ◌≢◌, Bool, true, false, inl, inr, Option, ◌∷◌, Text, Bytes, bytes_eq_refl, any, Result,
  ok, err, is_ok, arith, Bool-cases, ◌⊎◌,
}
use aera_cloud.Postgres.{Faults}
use aera_cloud.Verification.Model.{Error, temporarily_unavailable, Challenge, SendRequest}
use aera_cloud.Verification.Repository.{
  Rows, RepositoryError, exists_by_idempotency, has_idempotency, save_after_delivery,
}
use aera_cloud.Verification.Service.{
  DeliveryFailure, Message, Service, World, Around, Target, prepare_target, Delivery, delivered,
  failed,
}
use aera_cloud.Verification.Service.Sending.{
  new_challenge, stored, deliver_and_save, seen, prepared, six_digits, send, idempotency_hash,
}
use aera_cloud.Verification.Service.Limits.{valid_send_metadata}
use aera_cloud.Verification.Service.Sending.Walk.{Answer, has_challenge, owned-answer}

save-stores :
    (db : Faults) (c : Challenge) (rows : Rows)
    → is_ok (save_after_delivery db c rows).0 ≡ true
    → any (has_idempotency c.idempotency_key_hash) (save_after_delivery db c rows).1 ≡ true
unfolding save_after_delivery
save-stores db c rows o = ground (arith, o, bytes_eq_refl c.idempotency_key_hash)

-- What a delivery with code `code` adds to the outbox and the table.
abbrev message_to : Text → Bytes → Challenge → Message
message_to d code c = record { destination = d; code = code; purpose = c.purpose }

abbrev pub Adds : World → Text → Bytes → Challenge → Answer → Type 0
Adds w d code c a =
    (a.1.challenges ≡ c ∷ w.challenges) × (a.1.outbox ≡ message_to d code c ∷ w.outbox)

-- A message, if any, that the provider accepted before it answered with an error.
abbrev pub MaybeSent : Service → World → World → Type 0
MaybeSent s w v =
    (v.outbox ≡ w.outbox)
    ⊎ ((m : Message) × (f : Option DeliveryFailure) × (s.deliver m.destination m.code m.purpose
          ≡ failed true f)
        × (v.outbox ≡ m ∷ w.outbox))

delivery-cases :
    (x : Delivery)
    → (x ≡ delivered)
      ⊎ ((m : Option DeliveryFailure) × (x ≡ failed true m))
      ⊎ ((m : Option DeliveryFailure) × (x ≡ failed false m))
delivery-cases delivered = inl refl
delivery-cases (failed true m) = inr (inl (m, refl))
delivery-cases (failed false m) = inr (inr (m, refl))

module _ (s : Service) (io : Around) (d : Text) (code : Bytes) (c : Challenge) (w : World) where
  pub deliver-Adds :
      is_ok (deliver_and_save s io d code c w).0 ≡ true
      → Adds w d code c (deliver_and_save s io d code c w)
  unfolding deliver_and_save save_after_delivery stored
  deliver-Adds o = ground (arith, o)

  pub deliver-refused :
      (e : Error)
      → (deliver_and_save s io d code c w).0 ≡ err e
      → e ≢ temporarily_unavailable
      → ((deliver_and_save s io d code c w).1.challenges ≡ w.challenges)
        × MaybeSent s w (deliver_and_save s io d code c w).1
  unfolding deliver_and_save save_after_delivery stored
  deliver-refused e f n = elim (delivery-cases (s.deliver d code c.purpose)) [
    | inl x ↦ absurd (ground (arith, f, n, x))
    | inr (inl (m, x)) ↦ (ground (arith, x), inr (message_to d code c, m, x, ground (arith, x)))
    | inr (inr (m, x)) ↦ (ground (arith, x), inl (ground (arith, x)))
  ]

abbrev Stores : Bytes → Answer → Type 0
Stores h a = is_ok a.0 ≡ true → has_challenge h a.1 ≡ true

deliver-Stores :
    (s : Service) (io : Around) (d : Text) (code : Bytes) (c : Challenge) (w : World)
    → Stores c.idempotency_key_hash (deliver_and_save s io d code c w)
deliver-Stores s io d code c w o =
    let (e, _) = deliver-Adds s io d code c w o in
    rw e (ground (arith, bytes_eq_refl c.idempotency_key_hash))

seen-Stores :
    (s : Service) (io : Around) (r : SendRequest) (t : Target) (h : Bytes) (w : World)
    → (x : Result RepositoryError Bool) → x ≡ exists_by_idempotency io.exists_fails h w.challenges
    → Stores h (seen s io r t h w x)
unfolding seen exists_by_idempotency new_challenge
seen-Stores s io r t h w (err e) f = λ o. absurd (ground (arith, o))
seen-Stores s io r t h w (ok true) f = λ o. ground (arith, f)
seen-Stores s io r t h w (ok false) f =
    owned-answer s io r t h (Stores h) (io.meanwhile w) (λ ls x v k. k)
      (λ e counters o. absurd (ground (arith, o))) (λ k o. k)
      (λ counters ls draw id.
        deliver-Stores s io t.normalized (six_digits draw)
          (new_challenge s r t h io.now id (six_digits draw))
          (record (io.meanwhile w) { counters = counters; leases = ls }))
      io.owner

seen-stored :
    (s : Service) (io : Around) (r : SendRequest) (t : Target) (h : Bytes) (w : World)
    → has_challenge h w ≡ true
    → io.exists_fails ≡ false
    → seen s io r t h w (exists_by_idempotency io.exists_fails h w.challenges) ≡ (ok tt, w)
unfolding exists_by_idempotency seen
seen-stored s io r t h w m f = rw (f, m) refl

prepared-repeat :
    (s : Service) (io io' : Around) (r : SendRequest) (w : World) (x : Result Error Target)
    → is_ok (prepared s io r w x).0 ≡ true
    → io'.exists_fails ≡ false
    → prepared s io' r (prepared s io r w x).1 x ≡ (ok tt, (prepared s io r w x).1)
unfolding prepared
prepared-repeat s io io' r w (err e) o f = absurd (ground (arith, o))
prepared-repeat s io io' r w (ok t) o f =
    let h = idempotency_hash s r t in
    let x = exists_by_idempotency io.exists_fails h w.challenges in
    elim (Bool-cases (valid_send_metadata r)) [
      | inl v ↦
          let stays = seen-Stores s io r t h w x refl (ground (arith, o, v)) in
          rw v (seen-stored s io' r t h (seen s io r t h w x).1 stays f)
      | inr v ↦ absurd (ground (arith, o, v))
    ]

-- A request that Send answered `ok`, in whatever surroundings, is answered `ok` when it is sent
-- again, whatever the second call's surroundings but that its first query works, and the second
-- call changes nothing: it sends no message, stores no challenge, and counts against no limit.
pub send_repeat :
    (s : Service) (io io' : Around) (r : SendRequest) (w : World)
    → is_ok (send s io r w).0 ≡ true
    → io'.exists_fails ≡ false
    → send s io' r (send s io r w).1 ≡ (ok tt, (send s io r w).1)
unfolding send
send_repeat s io io' r w o f =
    prepared-repeat s io io' r w (prepare_target s r.kind r.destination r.purpose) o f
