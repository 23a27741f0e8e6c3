-- ===== src/Prelude/Ascii.antt =====
-- `str::trim`, `str::strip_prefix` and the ASCII case maps on the native text.
use Prim.Native.Nat.{ℕ, zero, suc, ◌+◌, ◌-◌, ◌≤◌, ◌<◌}
use Prim.Native.Char.{Char, code}
use Prim.Native.String.{String, ◌++◌}
use mathlib.Core.Path.{◌≡◌, refl, ap, ap₂}
use mathlib.Core.Bool.{Bool, true, false, ◌&&◌}
use mathlib.Core.Logic.{inl, inr}
use mathlib.Core.Option.{Option, none, some}
use native.Mathlib.Omega.{arith}
use text.Mathlib.TextEquality.{Char-path}
use text.Mathlib.TextLemmas.{nil-append, cons-append}
use sin.Prelude.Tests.{leb, eqb, eqb-eq, if◌then◌else◌, Bool-cases, holds_below, holds_below_sound}
use sin.Prelude.Text.{is_whitespace}

unfoldable pub trim_start : String → String
trim_start String.[] = String.[]
trim_start (String.◌∷◌ c s) =
    let rest = trim_start s in if is_whitespace (code c) then rest else String.◌∷◌ c s

abbrev pub cons_unless : Bool → Char → String → String
cons_unless blank c String.[] = if blank then String.[] else String.◌∷◌ c String.[]
cons_unless blank c (String.◌∷◌ d s) = String.◌∷◌ c (String.◌∷◌ d s)

unfoldable pub trim_end : String → String
trim_end String.[] = String.[]
trim_end (String.◌∷◌ c s) = cons_unless (is_whitespace (code c)) c (trim_end s)

unfoldable pub trim : String → String
unfolding trim_start trim_end
trim s = trim_end (trim_start s)

unfoldable pub strip_prefix : String → String → Option String
strip_prefix String.[] s = some s
strip_prefix (String.◌∷◌ c p) String.[] = none
strip_prefix (String.◌∷◌ c p) (String.◌∷◌ d s) =
    let rest = strip_prefix p s in if eqb (code c) (code d) then rest else none

-- the character at a place of a text
abbrev pub nth : Char → String → ℕ → Char
nth default String.[] i = default
nth default (String.◌∷◌ c s) zero = c
nth default (String.◌∷◌ c s) (suc i) = nth default s i

abbrev pub is_upper : ℕ → Bool
is_upper n = leb b'A' n && leb n b'Z'

abbrev pub is_lower : ℕ → Bool
is_lower n = leb b'a' n && leb n b'z'

unfoldable pub lower_char : Char → Char
lower_char c = if is_upper (code c) then nth c "abcdefghijklmnopqrstuvwxyz" (code c - b'A') else c

unfoldable pub upper_char : Char → Char
upper_char c = if is_lower (code c) then nth c "ABCDEFGHIJKLMNOPQRSTUVWXYZ" (code c - b'a') else c

unfoldable pub to_ascii_lowercase : String → String
unfolding lower_char
to_ascii_lowercase String.[] = String.[]
to_ascii_lowercase (String.◌∷◌ c s) = String.◌∷◌ (lower_char c) (to_ascii_lowercase s)

unfoldable pub to_ascii_uppercase : String → String
unfolding upper_char
to_ascii_uppercase String.[] = String.[]
to_ascii_uppercase (String.◌∷◌ c s) = String.◌∷◌ (upper_char c) (to_ascii_uppercase s)

-- no character of the text is a lowercase letter
abbrev pub NoLower : String → Type 0
NoLower String.[] = Unit
NoLower (String.◌∷◌ c s) = (is_lower (code c) ≡ false) × NoLower s

pub code-nth-lower :
    (d : Char) (i : ℕ) → i < 26 → code (nth d "abcdefghijklmnopqrstuvwxyz" i) ≡ i + 97
code-nth-lower d i h = eqb-eq _ _ (holds_below_sound fits 26 i h table)
  where
    fits : ℕ → Bool
    fits j = eqb (code (nth d "abcdefghijklmnopqrstuvwxyz" j)) (j + 97)

    table : holds_below fits 26 ≡ true
    table = unfold holds_below in refl

code-nth-upper : (d : Char) (i : ℕ) → i < 26 → code (nth d "ABCDEFGHIJKLMNOPQRSTUVWXYZ" i) ≡ i + 65
code-nth-upper d i h = eqb-eq _ _ (holds_below_sound fits 26 i h table)
  where
    fits : ℕ → Bool
    fits j = eqb (code (nth d "ABCDEFGHIJKLMNOPQRSTUVWXYZ" j)) (j + 65)

    table : holds_below fits 26 ≡ true
    table = unfold holds_below in refl

lower_of_upper :
    (c : Char)
    → is_upper (code c) ≡ true
    → (code (lower_char c) ≡ code c - 65 + 97) × (65 ≤ code c) × (code c ≤ 90)
unfolding lower_char
lower_of_upper c h = ground (arith, code-nth-lower c (code c - 65))

lower_of_other : (c : Char) → is_upper (code c) ≡ false → lower_char c ≡ c
unfolding lower_char
lower_of_other c h = rw h

upper_of_lower : (c : Char) → 97 ≤ code c → code c ≤ 122 → code (upper_char c) ≡ code c - 97 + 65
unfolding upper_char
upper_of_lower c h k = ground (arith, code-nth-upper c (code c - 97))

upper_of_other : (c : Char) → is_lower (code c) ≡ false → upper_char c ≡ c
unfolding upper_char
upper_of_other c h = rw h

upper-lower_char : (c : Char) → is_lower (code c) ≡ false → upper_char (lower_char c) ≡ c
upper-lower_char c h = elim (Bool-cases (is_upper (code c))) [
  | inl up ↦
      let (e, lo, hi) = lower_of_upper c up in
      Char-path _ _
        (omega (arith, e, upper_of_lower (lower_char c) (omega (arith, e)) (omega (arith, e))))
  | inr other ↦ rw (lower_of_other c other) (upper_of_other c h)
]

-- lower-casing loses nothing of a text without lowercase letters
pub upper-lower : (s : String) → NoLower s → to_ascii_uppercase (to_ascii_lowercase s) ≡ s
unfolding to_ascii_uppercase to_ascii_lowercase
upper-lower String.[] h = refl
upper-lower (String.◌∷◌ c s) h = ap₂ String.◌∷◌ (upper-lower_char c h.0) (upper-lower s h.1)

pub strip_prefix-append : (p s : String) → strip_prefix p (p ++ s) ≡ some s
unfolding strip_prefix
strip_prefix-append String.[] s = ap some (nil-append s)
strip_prefix-append (String.◌∷◌ c p) s =
    rw (cons-append c p s) (ground (arith, strip_prefix-append p s))
