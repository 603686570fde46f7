-- ===== src/Prelude/Runes.antt =====
-- Text as Go's `for _, c := range s` sees it: its code points. Invalid UTF-8 is not represented.
use Prim.Native.Nat.{ℕ, ◌+◌, ◌/◌, ◌%◌}
use Prim.Native.Char.{code}
use Prim.Native.String.{String}
use mathlib.Core.Bool.{Bool, true, ◌&&◌, ◌||◌}
use mathlib.Core.List.{List, [], ◌∷◌}
use aera_cloud.Prelude.Lists.{length}
use aera_cloud.Prelude.Tests.{leb, ltb, ◌==◌, if◌then◌else◌}

abbrev pub Text : Type 0
Text = List ℕ

abbrev pub codes : String → Text
codes String.[] = []
codes (String.◌∷◌ c s) = code c ∷ codes s

-- unicode.IsSpace.
unfoldable pub is_space : ℕ → Bool
is_space c =
    leb 9 c && leb c 13
    || c == 32
    || c == 0x85
    || c == 0xa0
    || c == 0x1680
    || leb 0x2000 c && leb c 0x200a
    || c == 0x2028
    || c == 0x2029
    || c == 0x202f
    || c == 0x205f
    || c == 0x3000

-- strings.TrimSpace(s) == "".
unfoldable pub is_blank : Text → Bool
unfolding is_space
is_blank [] = true
is_blank (c ∷ cs) = is_space c && is_blank cs

-- A code point in UTF-8, before the bytes that follow it.
unfoldable pub put_rune : ℕ → List ℕ → List ℕ
put_rune c rest =
    if ltb c 0x80
    then c ∷ rest
    else if ltb c 0x800
    then (0xc0 + c / 64) ∷ (0x80 + c % 64) ∷ rest
    else if ltb c 0x10000
    then (0xe0 + c / 4096) ∷ (0x80 + c / 64 % 64) ∷ (0x80 + c % 64) ∷ rest
    else (0xf0 + c / 262144)
      ∷ (0x80 + c / 4096 % 64)
      ∷ (0x80 + c / 64 % 64)
      ∷ (0x80 + c % 64)
      ∷ rest

-- []byte(s).
unfoldable pub utf8 : Text → List ℕ
unfolding put_rune
utf8 [] = []
utf8 (c ∷ cs) = put_rune c (utf8 cs)

-- len(s).
unfoldable pub byte_length : Text → ℕ
unfolding utf8
byte_length s = length (utf8 s)
