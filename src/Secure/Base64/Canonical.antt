-- ===== src/Secure/Base64/Canonical.antt =====
-- The one spelling of a byte string (internal/secure/base64.go).
use aera_cloud.Prelude.{
  ℕ, ◌+◌, ◌*◌, ◌/◌, ◌%◌, ◌<◌, ◌≡◌, refl, false, Option, none, some, [], ◌∷◌, Bytes, bytes_eq_iff,
  bytes_eq_refl, All, arith, ◌==◌, ◌||◌, ◌∙◌, sym,
}
use aera_cloud.Secure.Base64.{
  letter, sextet, encode, strip_newlines, last_two, last_three, four, decode_letters, decode_strict,
  accept_canonical, decode_canonical,
}

abbrev pub IsBytes : Bytes → Type 0
IsBytes bs = All (λ b. b < 256) bs

sextet-letter : (n : ℕ) → n < 64 → sextet (letter n) ≡ some n
unfolding sextet letter
sextet-letter n h = ground arith

letter_visible : (n : ℕ) → (letter n == 10 || letter n == 13) ≡ false
unfolding letter
letter_visible n = ground arith

strip-encode : (bs : Bytes) → strip_newlines (encode bs) ≡ encode bs
unfolding strip_newlines encode
strip-encode [] = refl
strip-encode (a ∷ []) = simp letter_visible
strip-encode (a ∷ b ∷ []) = simp letter_visible
strip-encode (a ∷ b ∷ c ∷ rest) = simp (letter_visible, strip-encode rest)

decode-encode : (bs : Bytes) → IsBytes bs → decode_letters (encode bs) ≡ some bs
unfolding decode_letters encode
decode-encode [] h = refl
decode-encode (a ∷ []) (ha, _) =
    rw (sextet-letter (a / 4) (omega arith), sextet-letter (a % 4 * 16) (omega arith))
      (unfold last_two in ground arith)
decode-encode (a ∷ b ∷ []) (ha, (hb, _)) =
    rw
      (
        sextet-letter (a / 4) (omega arith),
        sextet-letter (a % 4 * 16 + b / 16) (omega arith),
        sextet-letter (b % 16 * 4) (omega arith),
      )
      (unfold last_three in ground arith)
decode-encode (a ∷ b ∷ c ∷ rest) (ha, (hb, (hc, h))) =
    rw
      (
        sextet-letter (a / 4) (omega arith),
        sextet-letter (a % 4 * 16 + b / 16) (omega arith),
        sextet-letter (b % 16 * 4 + c / 64) (omega arith),
        sextet-letter (c % 64) (omega arith),
        decode-encode rest h,
      )
      (unfold four in ground arith)

-- Encoding and decoding again gives bytes (numbers below 256) back.
pub decode_canonical-encode : (bs : Bytes) → IsBytes bs → decode_canonical (encode bs) ≡ some bs
unfolding decode_strict accept_canonical decode_canonical
decode_canonical-encode bs h = rw (strip-encode bs, decode-encode bs h, bytes_eq_refl (encode bs))

accept_spelling :
    (v : Bytes) (o : Option Bytes) (bs : Bytes) → accept_canonical v o ≡ some bs → encode bs ≡ v
unfolding accept_canonical
accept_spelling v none bs e = absurd (cc e)
accept_spelling v (some d) bs e = ground (arith, bytes_eq_iff (encode d) v)

-- What is accepted is the encoding of the bytes that it stands for.
pub decode_canonical_spelling : (v bs : Bytes) → decode_canonical v ≡ some bs → encode bs ≡ v
unfolding decode_canonical
decode_canonical_spelling v bs e = accept_spelling v (decode_strict v) bs e

-- No two spellings are accepted for one byte string.
pub decode_canonical-injective :
    (v w bs : Bytes) → decode_canonical v ≡ some bs → decode_canonical w ≡ some bs → v ≡ w
decode_canonical-injective v w bs e f =
    sym (decode_canonical_spelling v bs e) ∙ decode_canonical_spelling w bs f
