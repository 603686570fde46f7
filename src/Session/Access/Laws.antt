-- ===== src/Session/Access/Laws.antt =====
-- Issued tokens are accepted in their time, and only such tokens (internal/session/access.go).
use text.Mathlib.TextPositions.{eq_refl}
use aera_cloud.Prelude.{
  ℕ, ◌+◌, ◌*◌, ◌/◌, ◌≤◌, ◌<◌, ◌≡◌, refl, subst, Bool, true, false, ◌&&◌, Option, none, some, List,
  [], ◌∷◌, Bytes, length, Result, ok, ◌>>=◌, arith, ◌==◌, ltb, eq_iff, str_eq, Bool-cases, inl, inr,
  String,
}
use aera_cloud.Secure.Base64.{encode, decode_canonical}
use aera_cloud.Secure.Base64.Canonical.{decode_canonical-encode}
use aera_cloud.Secure.Compact.{
  Ed25519, split_dots, signing_input, join_dots, split-join, count-join, encode-NoDots,
}
use aera_cloud.Session.Repository.{AccessBinding, valid_access_binding}
use aera_cloud.Session.Table.{Error}
use aera_cloud.Session.Access.{
  or_invalid, guard, ◌>>◌, AccessSigner, AccessJson, AccessPayload, AccessClaims, IssuedAccessToken,
  lookup, issue, issued_token, verify, verify_parts, accept_payload, access_header, access_payload,
  payload_binding, access_token_lifetime, maximum_access_token_length,
}

join-not-empty : (x y z : Bytes) → (length (join_dots x y z) == 0) ≡ false
join-not-empty [] y z = ground arith
join-not-empty (c ∷ x) y z = ground arith

short_enough : (n : ℕ) → n ≤ maximum_access_token_length → ltb maximum_access_token_length n ≡ false
short_enough n h = ground arith

or_invalid-ok {ℓ κ} :
    {A : Type ℓ} {B : Type κ} (o : Option A) (f : A → Result Error B) {b : B}
    → (or_invalid o >>= f) ≡ ok b
    → (a : A) × (o ≡ some a) × (f a ≡ ok b)
or_invalid-ok none f e = absurd (cc e)
or_invalid-ok (some a) f e = (a, refl, e)

guard-ok {ℓ} :
    {B : Type ℓ} (b : Bool) (m : Result Error B) {x : B}
    → (guard b >> m) ≡ ok x
    → (b ≡ true) × (m ≡ ok x)
guard-ok true m e = (refl, e)
guard-ok false m e = absurd (cc e)

module _ (ed : Ed25519) (json : AccessJson) where
  -- The claims that `issue` puts into a token.
  abbrev pub issued_claims : AccessBinding → ℕ → AccessClaims
  issued_claims b now = record {
    binding = b;
    issued_at = now / 1000 * 1000;
    expires_at = (now / 1000 + access_token_lifetime) * 1000;
  }

  accept_issued :
      (s : AccessSigner) (b : AccessBinding) (now later : ℕ)
      → valid_access_binding b ≡ true
      → now / 1000 * 1000 ≤ later + 60000
      → later < (now / 1000 + access_token_lifetime) * 1000
      → accept_payload ed json s later (access_payload s b now) ≡ ok (issued_claims b now)
  unfolding accept_payload
  accept_issued s b now later valid early late =
      ground (arith, eq_refl s.issuer, eq_refl s.audience)

  accept_parts :
      (s : AccessSigner) (b : AccessBinding) (now later : ℕ)
      → valid_access_binding b ≡ true
      → json.parse_header (json.header (access_header s)) ≡ some (access_header s)
      → json.parse_payload (json.payload (access_payload s b now)) ≡ some (access_payload s b now)
      → lookup s.active_key_id s.verification ≡ some (ed.public s.signing_key)
      → now / 1000 * 1000 ≤ later + 60000
      → later < (now / 1000 + access_token_lifetime) * 1000
      → let header = encode (json.header (access_header s)) in
        let payload = encode (json.payload (access_payload s b now)) in
        verify_parts ed json s later
          (header ∷ payload ∷ encode (ed.sign s.signing_key (signing_input header payload)) ∷ [])
        ≡ ok (issued_claims b now)
  unfolding verify_parts
  accept_parts s b now later valid ph pp key early late =
      let header = encode (json.header (access_header s)) in
      let payload = encode (json.payload (access_payload s b now)) in
      let input = signing_input header payload in
      rw
        (
          decode_canonical-encode _ (json.header-IsBytes (access_header s)),
          ph,
          key,
          decode_canonical-encode _ (ed.sign-IsBytes s.signing_key input),
          ed.length-sign s.signing_key input,
          ed.verify-sign s.signing_key input,
          decode_canonical-encode _ (json.payload-IsBytes (access_payload s b now)),
          pp,
        )
        (accept_issued s b now later valid early late)

  verify_issued :
      (s : AccessSigner) (b : AccessBinding) (now later : ℕ)
      → valid_access_binding b ≡ true
      → json.parse_header (json.header (access_header s)) ≡ some (access_header s)
      → json.parse_payload (json.payload (access_payload s b now)) ≡ some (access_payload s b now)
      → lookup s.active_key_id s.verification ≡ some (ed.public s.signing_key)
      → length (issued_token ed json s b now).serialized ≤ maximum_access_token_length
      → now / 1000 * 1000 ≤ later + 60000
      → later < (issued_token ed json s b now).expires_at
      → verify ed json s later (issued_token ed json s b now).serialized ≡ ok (issued_claims b now)
  unfolding verify issued_token
  verify_issued s b now later valid ph pp key short early late =
      let header = encode (json.header (access_header s)) in
      let payload = encode (json.payload (access_payload s b now)) in
      let signature = encode (ed.sign s.signing_key (signing_input header payload)) in
      rw
        (
          join-not-empty header payload signature,
          short_enough _ short,
          count-join header payload signature (encode-NoDots _) (encode-NoDots _) (encode-NoDots _),
          split-join header payload signature (encode-NoDots _) (encode-NoDots _) (encode-NoDots _),
        )
        (accept_parts s b now later valid ph pp key early late)

  -- A token that `issue` made is verified by the same signer, and stands for the binding that it
  -- was issued for, from a minute before its issue until it expires 15 minutes after. The JSON of the
  -- header and of the payload reads back, the signer's verification keys hold the public half of
  -- its signing key, and the token is not too long.
  pub verify-issue :
      (s : AccessSigner) (b : AccessBinding) (now later : ℕ) (t : IssuedAccessToken)
      → issue ed json s b now ≡ ok t
      → json.parse_header (json.header (access_header s)) ≡ some (access_header s)
      → json.parse_payload (json.payload (access_payload s b now)) ≡ some (access_payload s b now)
      → lookup s.active_key_id s.verification ≡ some (ed.public s.signing_key)
      → length t.serialized ≤ maximum_access_token_length
      → now / 1000 * 1000 ≤ later + 60000
      → later < t.expires_at
      → verify ed json s later t.serialized ≡ ok (issued_claims b now)
  unfolding issue
  verify-issue s b now later t made ph pp key short early late =
      elim (Bool-cases (valid_access_binding b)) [
        | inl valid ↦
            let same : issued_token ed json s b now ≡ t = ground (arith, made, valid) in
            subst
              (λ u.
                length u.serialized ≤ maximum_access_token_length
                → later < u.expires_at
                → verify ed json s later u.serialized ≡ ok (issued_claims b now))
              same (λ short' late'. verify_issued s b now later valid ph pp key short' early late')
              short late
        | inr bad ↦ absurd (ground (arith, made, bad))
      ]

  accept_payload-claims :
      (s : AccessSigner) (later : ℕ) (p : AccessPayload) (c : AccessClaims)
      → accept_payload ed json s later p ≡ ok c
      → (p.issuer ≡ s.issuer)
        × (p.audience ≡ s.audience)
        × (c.binding ≡ payload_binding p)
        × (c.expires_at ≡ c.issued_at + 900000)
        × (c.issued_at ≤ later + 60000)
        × (later < c.expires_at)
  unfolding accept_payload
  accept_payload-claims s later p c e =
      ground (arith, eq_iff p.issuer s.issuer, eq_iff p.audience s.audience)

  -- What is known of an accepted token: a listed key, a signature by it of the first two parts,
  -- and a payload in the second that gives the claims.
  abbrev pub IsGenuine : AccessSigner → ℕ → Bytes → AccessClaims → Type 0
  IsGenuine s later v c =
      (first : Bytes) × (second : Bytes) × (third : Bytes) × (key_id : String) × (key : Bytes)
      × (signature : Bytes) × (payload_json : Bytes) × (p : AccessPayload) × (split_dots v
          ≡ first ∷ second ∷ third ∷ [])
      × (lookup key_id s.verification ≡ some key)
      × (decode_canonical third ≡ some signature)
      × (ed.verify key (signing_input first second) signature ≡ true)
      × (decode_canonical second ≡ some payload_json)
      × (json.parse_payload payload_json ≡ some p)
      × ((p.issuer ≡ s.issuer)
          × (p.audience ≡ s.audience)
          × (c.binding ≡ payload_binding p)
          × (c.expires_at ≡ c.issued_at + 900000)
          × (c.issued_at ≤ later + 60000)
          × (later < c.expires_at))

  verify_parts-IsGenuine :
      (s : AccessSigner) (later : ℕ) (v : Bytes) (parts : List Bytes) (c : AccessClaims)
      → split_dots v ≡ parts
      → verify_parts ed json s later parts ≡ ok c
      → IsGenuine s later v c
  unfolding verify_parts
  verify_parts-IsGenuine s later v (first ∷ second ∷ third ∷ []) c sp e =
      let (hj, d1, e1) = or_invalid-ok (decode_canonical first) _ e in
      let (h, d2, e2) = or_invalid-ok (json.parse_header hj) _ e1 in
      let (g1, e3) = guard-ok (str_eq h.algorithm "EdDSA" && str_eq h.type "at+jwt") _ e2 in
      let (key, d3, e4) = or_invalid-ok (lookup h.key_id s.verification) _ e3 in
      let (sig, d4, e5) = or_invalid-ok (decode_canonical third) _ e4 in
      let (g2, e6) =
        guard-ok (length sig == 64 && ed.verify key (signing_input first second) sig) _ e5 in
      let (pj, d5, e7) = or_invalid-ok (decode_canonical second) _ e6 in
      let (p, d6, e8) = or_invalid-ok (json.parse_payload pj) _ e7 in
      (
        first,
        second,
        third,
        h.key_id,
        key,
        sig,
        pj,
        p,
        sp,
        d3,
        d4,
        ground (arith, g2),
        d5,
        d6,
        accept_payload-claims s later p c e8,
      )
  verify_parts-IsGenuine s later v [] c sp e = absurd (cc e)
  verify_parts-IsGenuine s later v (x ∷ []) c sp e = absurd (cc e)
  verify_parts-IsGenuine s later v (x ∷ y ∷ []) c sp e = absurd (cc e)
  verify_parts-IsGenuine s later v (x ∷ y ∷ z ∷ w ∷ ps) c sp e = absurd (cc e)

  -- Every token that `verify` accepts carries a valid signature, by one of the signer's keys, of
  -- its header and payload; its claims are those of the payload, which names this issuer and
  -- audience; it lives 15 minutes, began at most a minute ahead of the clock and has not expired.
  pub verify-IsGenuine :
      (s : AccessSigner) (later : ℕ) (v : Bytes) (c : AccessClaims)
      → verify ed json s later v ≡ ok c
      → IsGenuine s later v c
  unfolding verify
  verify-IsGenuine s later v c e =
      verify_parts-IsGenuine s later v (split_dots v) c refl (ground arith)
