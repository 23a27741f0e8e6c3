-- ===== src/Store/Slug.antt =====
-- src/store/repo.rs: `slugify`, and `allocate_area_slug` over the slugs that the areas have.
use Prim.Native.Char.{Char, code}
use sin.Prelude.{
  ℕ, zero, suc, ◌+◌, String, Bool, true, false, not, ◌&&◌, ◌||◌, List, ◌==◌, leb, eqb,
  if◌then◌else◌, length,
}
use Prim.Native.String.{◌++◌}
use sin.Prelude.Text.{contains, is_ascii_digit}
use sin.Prelude.Ascii.{is_upper, is_lower, lower_char, cons_unless}
use sin.Prelude.Decimal.{to_decimal}
pub mod Shape
pub mod Allocate

-- `char::is_ascii_alphanumeric`
abbrev pub is_ascii_alphanumeric : ℕ → Bool
is_ascii_alphanumeric c = is_ascii_digit c || (is_upper c || is_lower c)

-- `String::push`
abbrev pub push : String → Char → String
push out c = out ++ String.◌∷◌ c String.[]

-- the loop over the characters, with `out` and `last_dash`
unfoldable pub slug_loop : String → Bool → String → String
slug_loop out last_dash String.[] = out
slug_loop out last_dash (String.◌∷◌ c s) =
    let letter = slug_loop (push out (lower_char c)) false s in
    let dash = slug_loop (out ++ "-") true s in
    let skip = slug_loop out last_dash s in
    if is_ascii_alphanumeric (code c)
    then letter
    else if not last_dash && not (out == "")
    then dash
    else skip

-- `while out.ends_with('-') { out.pop(); }`
unfoldable pub pop_dashes : String → String
pop_dashes String.[] = String.[]
pop_dashes (String.◌∷◌ c s) = cons_unless (eqb (code c) b'-') c (pop_dashes s)

abbrev pub or_area : String → String
or_area out = if out == "" then "area" else out

unfoldable pub slugify : String → String
unfolding slug_loop pop_dashes
slugify title = or_area (pop_dashes (slug_loop "" false title))

-- the slug that is tried with the counter at a number
unfoldable pub numbered : String → ℕ → String
unfolding to_decimal
numbered base n = base ++ "-" ++ to_decimal n

-- The loop with the slugs that are taken. A round more than there are slugs is never used.
unfoldable pub allocate_loop : ℕ → List String → (base slug : String) → ℕ → String
unfolding numbered contains
allocate_loop zero taken base slug n = slug
allocate_loop (suc fuel) taken base slug n =
    let later = allocate_loop fuel taken base (numbered base n) (n + 1) in
    if contains slug taken then later else slug

unfoldable pub allocate_area_slug : String → List String → String
unfolding slugify allocate_loop
allocate_area_slug title taken =
    allocate_loop (suc (length taken)) taken (slugify title) (slugify title) 2
