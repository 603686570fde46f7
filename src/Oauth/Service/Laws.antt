-- ===== src/Oauth/Service/Laws.antt =====
-- What Exchange asks of its caller, and the state that comes back to the client
-- (internal/oauth/service.go).
use aera_cloud.Prelude.{
  ℕ, ◌≡◌, refl, true, inl, inr, Option, none, some, Text, Bytes, utf8, bytes_eq_refl, length, is_ok,
  ◌==◌, arith, Option-cases,
}
use aera_cloud.Postgres.{Faults}
use aera_cloud.Secure.Base64.{decode_canonical}
use aera_cloud.Oauth.Model.{
  matches_challenge, BeginRequest, ExchangeRequest, Grant, valid_opaque_state,
}
use aera_cloud.Oauth.Repository.{Tables, Spaces, Selected, select_grant, exchange}
use aera_cloud.Oauth.Repository.Exchanged.{exchange-IsSelected}
use aera_cloud.Oauth.Service.{
  is_proven, finalize, exchange_request, exchange_decoded, authorization_record,
}
use aera_cloud.Oauth.Platform.{
  Service, device_proof_digest, authorization_code_hash, encrypt_state, sealed_state, decrypt_state,
  open_state, accept_state, lookup_key, state_hash, state_aad,
}

module _ {D T : Type 0} (s : Service D T) where
  finalize-is_proven :
      (r : ExchangeRequest) (g : Grant) (d : D)
      → is_ok (finalize s r g d).0 ≡ true
      → is_proven s r g.authorization ≡ true
  unfolding finalize
  finalize-is_proven r g d o = ground (arith, o)

  decoded-is_proven :
      (db : Faults) (spaces : Spaces) (now : ℕ) (r : ExchangeRequest) (t : Tables) (d : D)
      (x : Option Bytes)
      → is_ok (exchange_decoded s db spaces now r (t, d) x).0 ≡ true
      → (secret : Bytes) × (g : Selected) × (x ≡ some secret)
        × (select_grant spaces (authorization_code_hash s.platform secret) t ≡ some g)
        × (is_proven s r g.grant.authorization ≡ true)
  unfolding exchange_decoded
  decoded-is_proven db spaces now r t d none o = absurd (ground (arith, o))
  decoded-is_proven db spaces now r t d (some secret) o =
      let h = authorization_code_hash s.platform secret in
      let ok_exchange : is_ok (exchange db spaces h now (finalize s r) (t, d)).0 ≡ true =
        ground (arith, o) in
      let e = exchange-IsSelected db spaces h now (finalize s r) t d ok_exchange in
      (
        secret,
        e.selected,
        refl,
        e.found,
        finalize-is_proven r e.selected.grant d (rw (e.finalized) at ok_exchange),
      )

-- Exchange answers with tokens only to a caller who has the code of an approved request, and for
-- that request the verifier of its PKCE challenge, its installation and a signature by its device
-- key over the code, the verifier and the installation.
pub exchange_proven :
    {D T : Type 0} (s : Service D T) (db : Faults) (spaces : Spaces) (now : ℕ) (r : ExchangeRequest)
    (t : Tables) (d : D)
    → is_ok (exchange_request s db spaces now r (t, d)).0 ≡ true
    → (secret : Bytes) × (g : Selected) × (decode_canonical (utf8 r.authorization_code)
        ≡ some secret)
      × (select_grant spaces (authorization_code_hash s.platform secret) t ≡ some g)
      × (r.installation_id ≡ g.grant.authorization.installation_id)
      × (matches_challenge s.platform.sha256 r.code_verifier g.grant.authorization.code_challenge
          ≡ true)
      × (s.platform.verify g.grant.authorization.device_public_key
            (device_proof_digest s.platform r.authorization_code r.code_verifier r.installation_id)
            r.device_proof
          ≡ true)
unfolding exchange_request is_proven
exchange_proven s db spaces now r t d o =
    let (secret, g, decoded, found, proven) = decoded-is_proven s db spaces now r t d _ o in
    (
      secret,
      g,
      decoded,
      found,
      ground (arith, proven),
      ground (arith, proven),
      ground (arith, proven),
    )

-- The state that the client gave to Begin is what Approve decrypts for the redirect: for a state
-- that Begin accepts, an active key that is there, a nonce of the AEAD's size, and an AEAD that
-- opens what it has sealed.
pub decrypt-encrypt :
    {D T : Type 0} (s : Service D T) (r : BeginRequest) (now id : ℕ) (key nonce ciphertext : Bytes)
    → ((k n : Bytes) (p : Text) (a c : Bytes)
        → s.platform.seal k n p a ≡ some c
        → s.platform.open_sealed k n c a ≡ some p)
    → valid_opaque_state r.state ≡ true
    → lookup_key s.active_state_key_id s.state_keys ≡ some key
    → (length nonce == s.platform.nonce_size) ≡ true
    → encrypt_state s (some nonce) id r.state ≡ some (nonce, ciphertext)
    → decrypt_state s (authorization_record s r now id nonce ciphertext) ≡ some r.state
unfolding encrypt_state sealed_state decrypt_state open_state accept_state authorization_record
decrypt-encrypt s r now id key nonce ciphertext opens valid known size sealed =
    elim (Option-cases (s.platform.seal key nonce r.state (state_aad s.platform id))) [
      | inl e ↦ absurd (ground (arith, known, e, sealed))
      | inr (c, e) ↦
          let opened = opens key nonce r.state (state_aad s.platform id) c e in
          let same : c ≡ ciphertext = ground (arith, known, e, sealed) in
          ground
            (arith, known, size, valid, bytes_eq_refl (state_hash s r.state), rw same at opened)
    ]
