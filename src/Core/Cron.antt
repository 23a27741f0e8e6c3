-- ===== src/Core/Cron.antt =====
-- src/core/util.rs: `validate_cron`. The parser of the crate cron is the parameter `parse_schedule`,
-- which tells whether a text parses. The `String` of an error is told by the values that it is formatted
-- from.
pub mod Fields
pub mod Exact
use sin.Prelude.{
  ℕ, zero, suc, String, Bool, ◌&&◌, not, List, [], ◌∷◌, ◌==◌, eqb, length, any_of, Option, none,
  some, if◌then◌else◌,
}
use Prim.Native.String.{◌++◌}
use Prim.Native.Char.{code}
use sin.Prelude.Text.{chars, is_whitespace, is_ascii_digit}

pub data CronError : Type 0 where
  wrong_field_count : (found : ℕ) (expr : String) → CronError
  weekday_digits : (dow expr : String) → CronError
  both_restricted : (dom dow expr : String) → CronError
  not_a_schedule : (expr : String) → CronError

-- the word that a text starts with, which may be empty, and the words after it
unfoldable push_word : String → List String → List String
push_word w words = if w == "" then words else w ∷ words

unfoldable split_words : String → String × List String
unfolding push_word
split_words String.[] = ("", [])
split_words (String.◌∷◌ c s) =
    let (w, words) = split_words s in
    if is_whitespace (code c) then ("", push_word w words) else (String.◌∷◌ c w, words)

-- `str::split_whitespace`
unfoldable pub split_whitespace : String → List String
unfolding split_words push_word
split_whitespace s = let (w, words) = split_words s in push_word w words

-- `fields[i]`, where there is one
abbrev pub field_at : ℕ → List String → String
field_at i [] = ""
field_at zero (s ∷ l) = s
field_at (suc i) (s ∷ l) = field_at i l

module _ (parse_schedule : String → Bool) where
  -- the error, if there is one
  unfoldable pub validate_cron : String → Option CronError
  validate_cron expr =
      let fields = split_whitespace expr in
      let dom = field_at 2 fields in
      let dow = field_at 4 fields in
      if not (eqb (length fields) 5)
      then some (wrong_field_count (length fields) expr)
      else if any_of is_ascii_digit (chars dow)
      then some (weekday_digits dow expr)
      else if not (dom == "*") && not (dow == "*")
      then some (both_restricted dom dow expr)
      else if parse_schedule ("0 " ++ expr)
      then none
      else some (not_a_schedule expr)
