-- ===== src/Secure/Base64.antt =====
-- internal/secure/base64.go, over the standard library's base64.RawURLEncoding: strings are their
-- bytes. The strict decoder skips '\r' and '\n', as Go's does, and refuses padding bits.
pub mod Canonical
use aera_cloud.Prelude.{
  ℕ, ◌+◌, ◌-◌, ◌*◌, ◌/◌, ◌%◌, Bool, ◌&&◌, ◌||◌, Option, none, some, List, [], ◌∷◌, Bytes, bytes_eq,
  ◌==◌, ltb, leb, if◌then◌else◌,
}

-- The alphabet A-Z a-z 0-9 - _.
unfoldable pub letter : ℕ → ℕ
letter n =
    if ltb n 26
    then n + b'A'
    else if ltb n 52
    then n - 26 + b'a'
    else if ltb n 62
    then n - 52 + b'0'
    else if n == 62
    then b'-'
    else b'_'

unfoldable pub sextet : ℕ → Option ℕ
sextet c =
    if leb b'A' c && leb c b'Z'
    then some (c - b'A')
    else if leb b'a' c && leb c b'z'
    then some (c - b'a' + 26)
    else if leb b'0' c && leb c b'9'
    then some (c - b'0' + 52)
    else if c == b'-'
    then some 62
    else if c == b'_'
    then some 63
    else none

-- RawURLEncoding.EncodeToString.
unfoldable pub encode : Bytes → Bytes
encode [] = []
encode (a ∷ []) = letter (a / 4) ∷ letter (a % 4 * 16) ∷ []
encode (a ∷ b ∷ []) = letter (a / 4) ∷ letter (a % 4 * 16 + b / 16) ∷ letter (b % 16 * 4) ∷ []
encode (a ∷ b ∷ c ∷ rest) =
    letter (a / 4)
    ∷ letter (a % 4 * 16 + b / 16)
    ∷ letter (b % 16 * 4 + c / 64)
    ∷ letter (c % 64)
    ∷ encode rest

infixl 5 ◌>>=◌
abbrev ◌>>=◌ {ℓ κ} : {A : Type ℓ} {B : Type κ} → Option A → (A → Option B) → Option B
none >>= k = none
some a >>= k = k a

unfoldable pub strip_newlines : Bytes → Bytes
strip_newlines [] = []
strip_newlines (c ∷ cs) = if c == 10 || c == 13 then strip_newlines cs else c ∷ strip_newlines cs

-- One quantum of two, three or four letters.
unfoldable pub last_two : ℕ → ℕ → Option Bytes
last_two w x = if x % 16 == 0 then some ((w * 4 + x / 16) ∷ []) else none

unfoldable pub last_three : ℕ → ℕ → ℕ → Option Bytes
last_three w x y = if y % 4 == 0 then some ((w * 4 + x / 16) ∷ (x % 16 * 16 + y / 4) ∷ []) else none

unfoldable pub four : ℕ → ℕ → ℕ → ℕ → Bytes → Bytes
four w x y z rest = (w * 4 + x / 16) ∷ (x % 16 * 16 + y / 4) ∷ (y % 4 * 64 + z) ∷ rest

unfoldable pub decode_letters : Bytes → Option Bytes
unfolding sextet last_two last_three four
decode_letters [] = some []
decode_letters (c ∷ []) = none
decode_letters (c ∷ d ∷ []) = do w ← sextet c; x ← sextet d; last_two w x
decode_letters (c ∷ d ∷ e ∷ []) = do w ← sextet c; x ← sextet d; y ← sextet e; last_three w x y
decode_letters (c ∷ d ∷ e ∷ f ∷ cs) =
    let rest = decode_letters cs in
    do w ← sextet c; x ← sextet d; y ← sextet e; z ← sextet f; r ← rest; some (four w x y z r)

-- base64.RawURLEncoding.Strict().DecodeString
unfoldable pub decode_strict : Bytes → Option Bytes
unfolding strip_newlines decode_letters
decode_strict v = decode_letters (strip_newlines v)

unfoldable pub accept_canonical : Bytes → Option Bytes → Option Bytes
accept_canonical v none = none
accept_canonical v (some decoded) = if bytes_eq (encode decoded) v then some decoded else none

-- DecodeCanonicalBase64URL.
unfoldable pub decode_canonical : Bytes → Option Bytes
unfolding decode_strict accept_canonical encode letter
decode_canonical v = accept_canonical v (decode_strict v)
