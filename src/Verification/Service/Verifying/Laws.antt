-- ===== src/Verification/Service/Verifying/Laws.antt =====
-- What a successful Verify needs (internal/verification/service.go).
use aera_cloud.Prelude.{
  ℕ, ◌/◌, ◌≡◌, refl, true, some, ◌∷◌, Bytes, utf8, put_rune, byte_length, Result, arith,
  update_where,
}
use aera_cloud.Verification.Model.{Error, Challenge, VerifyRequest}
use aera_cloud.Verification.Repository.{
  Rows, is_candidate, for_target, codes_match, mark_consumed, has_challenge_id,
}
use mathlib.Core.List.{Memᴰ}
use aera_cloud.Verification.Repository.Newest.{NoneNewer}
use aera_cloud.Verification.Service.{
  Service, Target, lookup_hmacs, Receipt, lookup_key, code_hmac, six_digits, digit, is_digit,
}
use aera_cloud.Verification.Service.Verifying.{valid_code, all_digits}

digit-is_digit : (n : ℕ) → is_digit (digit n) ≡ true
digit-is_digit n = ground arith

digit-put_rune : (n : ℕ) (rest : Bytes) → put_rune (digit n) rest ≡ digit n ∷ rest
unfolding put_rune
digit-put_rune n rest = ground arith

-- Every code that Send draws has the form that Verify asks for.
pub valid_code-six_digits : (n : ℕ) → valid_code (six_digits n) ≡ true
unfolding valid_code all_digits six_digits byte_length utf8
valid_code-six_digits n =
    rw
      (
        digit-put_rune (n / 100000),
        digit-put_rune (n / 10000),
        digit-put_rune (n / 1000),
        digit-put_rune (n / 100),
        digit-put_rune (n / 10),
        digit-put_rune n,
        digit-is_digit (n / 100000),
        digit-is_digit (n / 10000),
        digit-is_digit (n / 1000),
        digit-is_digit (n / 100),
        digit-is_digit (n / 10),
        digit-is_digit n,
      )
      refl

-- `c` is the challenge that the code was checked against, and `a` what Verify did.
pub record IsVerified (s : Service) (now : ℕ) (r : VerifyRequest) (t : Target) (rows : Rows)
    (a : Result Error Receipt × Rows) : Type 0 where
  pub c : Challenge
  pub key : Bytes
  pub stored : Memᴰ c rows
  pub own : Memᴰ c.target_lookup_hmac (lookup_hmacs t)
  pub usable : is_candidate c.target_lookup_hmac r.purpose now c ≡ true
  pub none_newer : NoneNewer (for_target c.target_lookup_hmac r.purpose) c rows
  pub found_key : lookup_key c.code_key_id s.code_keys ≡ some key
  pub right :
      codes_match c.code_hmac (code_hmac s key r.purpose c.target_lookup_hmac (utf8 r.code)) ≡ true
  pub marks : a.1 ≡ update_where (has_challenge_id c.id) (mark_consumed now) rows
