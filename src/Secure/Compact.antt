-- ===== src/Secure/Compact.antt =====
-- The compact form of a signed token, as internal/session/access.go and
-- internal/entitlement/service.go both build it and take it apart: three base64url parts between
-- dots. Ed25519 (crypto/ed25519) is a parameter, keys and signatures are their bytes.
use aera_cloud.Prelude.{
  ℕ, ◌≡◌, refl, Bool, true, false, List, [], ◌∷◌, ◌++◌, Bytes, All, length, count_where, arith,
  ◌==◌, if◌then◌else◌, ◌+◌,
}
use aera_cloud.Secure.Base64.{letter, encode}
use aera_cloud.Secure.Base64.Canonical.{IsBytes}

pub record Ed25519 : Type 0 where
  pub public : Bytes → Bytes
  pub sign : Bytes → Bytes → Bytes
  pub verify : Bytes → Bytes → Bytes → Bool
  pub verify-sign : (key message : Bytes) → verify (public key) message (sign key message) ≡ true
  pub length-sign : (key message : Bytes) → length (sign key message) ≡ 64
  pub sign-IsBytes : (key message : Bytes) → IsBytes (sign key message)

-- strings.Count(serialized, ".")
abbrev pub count_dots : Bytes → ℕ
count_dots v = count_where (λ c. c == b'.') v

prepend : ℕ → List Bytes → List Bytes
prepend c [] = (c ∷ []) ∷ []
prepend c (p ∷ ps) = (c ∷ p) ∷ ps

-- strings.Split(serialized, ".")
unfoldable pub split_dots : Bytes → List Bytes
unfolding prepend
split_dots [] = [] ∷ []
split_dots (c ∷ cs) = let rest = split_dots cs in if c == b'.' then [] ∷ rest else prepend c rest

abbrev pub NoDots : Bytes → Type 0
NoDots v = All (λ c. (c == b'.') ≡ false) v

pub letter_no_dot : (n : ℕ) → (letter n == b'.') ≡ false
unfolding letter
letter_no_dot n = ground arith

pub encode-NoDots : (bs : Bytes) → NoDots (encode bs)
unfolding encode
encode-NoDots [] = tt
encode-NoDots (a ∷ []) = (letter_no_dot _, (letter_no_dot _, tt))
encode-NoDots (a ∷ b ∷ []) = (letter_no_dot _, (letter_no_dot _, (letter_no_dot _, tt)))
encode-NoDots (a ∷ b ∷ c ∷ rest) =
    (letter_no_dot _, (letter_no_dot _, (letter_no_dot _, (letter_no_dot _, encode-NoDots rest))))

split_here : (v rest : Bytes) → NoDots v → split_dots (v ++ b'.' ∷ rest) ≡ v ∷ split_dots rest
unfolding split_dots
split_here [] rest h = refl
split_here (c ∷ v) rest (e, h) = rw (e, split_here v rest h)

split_last : (v : Bytes) → NoDots v → split_dots v ≡ v ∷ []
unfolding split_dots
split_last [] h = refl
split_last (c ∷ v) (e, h) = rw (e, split_last v h)

-- header + "." + payload + "." + signature
abbrev pub join_dots : Bytes → Bytes → Bytes → Bytes
join_dots header payload signature = header ++ (b'.' ∷ (payload ++ (b'.' ∷ signature)))

abbrev pub signing_input : Bytes → Bytes → Bytes
signing_input header payload = header ++ (b'.' ∷ payload)

pub split-join :
    (x y z : Bytes) → NoDots x → NoDots y → NoDots z → split_dots (join_dots x y z) ≡ x ∷ y ∷ z ∷ []
split-join x y z hx hy hz =
    rw (split_here x (y ++ (b'.' ∷ z)) hx, split_here y z hy, split_last z hz)

count_here : (v rest : Bytes) → NoDots v → count_dots (v ++ b'.' ∷ rest) ≡ 1 + count_dots rest
count_here [] rest h = ground arith
count_here (c ∷ v) rest (e, h) = rw e (count_here v rest h)

count_last : (v : Bytes) → NoDots v → count_dots v ≡ 0
count_last [] h = refl
count_last (c ∷ v) (e, h) = rw e (count_last v h)

pub count-join : (x y z : Bytes) → NoDots x → NoDots y → NoDots z → count_dots (join_dots x y z) ≡ 2
count-join x y z hx hy hz =
    rw (count_here x (y ++ (b'.' ∷ z)) hx, count_here y z hy, count_last z hz)
