-- ===== src/Prelude/Text.antt =====
-- Text as Rust sees it: `chars` (code points), UTF-8 bytes, `str::trim` as far as it is used
-- (whether anything is left), and a map with text keys as an association list.
use Prim.Native.Nat.{ℕ, ◌+◌, ◌/◌, ◌%◌}
use Prim.Native.Char.{code}
use Prim.Native.String.{String}
use mathlib.Core.Logic.{◌≢◌}
use mathlib.Core.Path.{◌≡◌, refl}
use mathlib.Core.Bool.{Bool, false, ◌&&◌, ◌||◌}
use mathlib.Core.List.{List, [], ◌∷◌, ◌++◌}
use mathlib.Core.Option.{Option, none, some}
use native.Mathlib.Omega.{arith}
use text.Mathlib.Text.{◌==◌, is_lt, is_le}
use text.Mathlib.TextEquality.{eq_iff}
use Prim.Native.String.{compare}
use sin.Prelude.Tests.{ltb, leb, eqb, if◌then◌else◌}
use sin.Prelude.Lists.{all_of}

-- `str::chars`
abbrev pub chars : String → List ℕ
chars String.[] = []
chars (String.◌∷◌ c s) = code c ∷ chars s

-- the UTF-8 encoding of one code point
abbrev pub utf8 : ℕ → List ℕ
utf8 c =
    if ltb c 0x80
    then c ∷ []
    else if ltb c 0x800
    then (0xc0 + c / 64) ∷ (0x80 + c % 64) ∷ []
    else if ltb c 0x10000
    then (0xe0 + c / 4096) ∷ (0x80 + c / 64 % 64) ∷ (0x80 + c % 64) ∷ []
    else (0xf0 + c / 262144) ∷ (0x80 + c / 4096 % 64) ∷ (0x80 + c / 64 % 64) ∷ (0x80 + c % 64) ∷ []

-- `str::as_bytes`
abbrev pub bytes : String → List ℕ
bytes String.[] = []
bytes (String.◌∷◌ c s) = utf8 (code c) ++ bytes s

-- `char::is_whitespace`: the Unicode property White_Space
unfoldable pub is_whitespace : ℕ → Bool
is_whitespace c =
    (leb 9 c && leb c 13)
    || eqb c 32
    || eqb c 0x85
    || eqb c 0xa0
    || eqb c 0x1680
    || (leb 0x2000 c && leb c 0x200a)
    || eqb c 0x2028
    || eqb c 0x2029
    || eqb c 0x202f
    || eqb c 0x205f
    || eqb c 0x3000

-- `s.trim().is_empty()`
unfoldable pub is_blank : String → Bool
unfolding is_whitespace
is_blank s = all_of is_whitespace (chars s)

abbrev pub is_ascii_digit : ℕ → Bool
is_ascii_digit c = leb b'0' c && leb c b'9'

-- `HashMap<String, V>`: `get` and `insert`
module _ {ℓ} {V : Type ℓ} where
  unfoldable pub lookup : String → List (String × V) → Option V
  lookup key [] = none
  lookup key ((other, value) ∷ entries) = if other == key then some value else lookup key entries

  pub lookup-cons :
      (k j : String) (v : V) (entries : List (String × V))
      → lookup j ((k, v) ∷ entries) ≡ (if k == j then some v else lookup j entries)
  unfolding lookup
  lookup-cons k j v entries = refl

-- `HashSet<&str>`: `contains`
unfoldable pub contains : String → List String → Bool
contains k [] = false
contains k (j ∷ m) = j == k || contains k m

-- the order of texts, as SQLite's BINARY collation and Rust compare them
abbrev pub str_ltb : String → String → Bool
str_ltb s t = is_lt (compare s t)

abbrev pub str_leb : String → String → Bool
str_leb s t = is_le (compare s t)

-- texts that the test tells apart
pub eq_apart : (a b : String) → (a == b) ≡ false → a ≢ b
eq_apart a b h e = absurd (ground (arith, eq_iff a b))
