-- ===== src/Store/Slug/Shape.antt =====
-- src/store/repo.rs: the form of the slugs that `slugify` makes.
use Prim.Native.Char.{Char, code}
use Prim.Native.String.{◌++◌}
use text.Mathlib.TextLemmas.{nil-append, cons-append}
use sin.Prelude.{
  ℕ, ◌-◌, String, ◌≡◌, ◌⊎◌, inl, inr, refl, sym, ap, ◌∙◌, Bool, true, false, not, ◌&&◌, ◌||◌,
  Option, none, some, ◌==◌, eqb, if◌then◌else◌, Bool-cases, arith, eq_iff,
}
use sin.Prelude.Text.{is_ascii_digit}
use sin.Prelude.Ascii.{is_upper, is_lower, lower_char, cons_unless, code-nth-lower}
use sin.Store.Slug.{is_ascii_alphanumeric, push, slug_loop, pop_dashes, or_area, slugify}

abbrev is_slug_letter : ℕ → Bool
is_slug_letter c = is_ascii_digit c || is_lower c

-- Words of lowercase letters and digits with one dash between two: the answer is whether the text
-- ends in a dash, or nothing if it has another form. The flag is whether a dash may not come next.
unfoldable pub words : Bool → String → Option Bool
words after_dash String.[] = some after_dash
words after_dash (String.◌∷◌ c s) =
    let word = words false s in
    let dash = words true s in
    if is_slug_letter (code c)
    then word
    else if eqb (code c) b'-' && not after_dash
    then dash
    else none

abbrev pub after : Option Bool → String → Option Bool
after none s = none
after (some b) s = words b s

words-append : (b : Bool) (s t : String) → words b (s ++ t) ≡ after (words b s) t
unfolding words
words-append b String.[] t = rw (nil-append t) refl
words-append b (String.◌∷◌ c s) t =
    rw (cons-append c s t) (ground (arith, words-append false s t, words-append true s t))

keep_char : (c : Char) (s : String) → cons_unless false c s ≡ String.◌∷◌ c s
keep_char c String.[] = refl
keep_char c (String.◌∷◌ d s) = refl

drop_char :
    (blank : Bool) (c : Char) (s : String)
    → (cons_unless blank c s ≡ "") ⊎ (cons_unless blank c s ≡ String.◌∷◌ c s)
drop_char true c String.[] = inl refl
drop_char false c String.[] = inr refl
drop_char blank c (String.◌∷◌ d s) = inr refl

popped_words :
    (b last : Bool) (s : String)
    → words b s ≡ some last
    → (pop_dashes s ≡ "") ⊎ (words b (pop_dashes s) ≡ some false)
unfolding words pop_dashes
popped_words b last String.[] h = inl refl
popped_words b last (String.◌∷◌ c s) h = elim (Bool-cases (is_slug_letter (code c))) [
  | inl e ↦
      let no_dash : eqb (code c) b'-' ≡ false = ground arith in
      elim (popped_words false last s (rw e at h)) [
        | inl p ↦ inr (rw (p, no_dash, e) refl)
        | inr p ↦ inr (rw (no_dash, keep_char c (pop_dashes s), e) p)
      ]
  | inr e ↦
      let dash : (eqb (code c) b'-' ≡ true) × (b ≡ false) = ground arith in
      let below : words true s ≡ some last = ground arith in
      elim (popped_words true last s below) [
        | inl p ↦ inl (rw (p, dash.0) refl)
        | inr p ↦ elim (drop_char (eqb (code c) b'-') c (pop_dashes s)) [
          | inl q ↦ inl q
          | inr q ↦ inr (rw (q, e, dash.0, dash.1) p)
        ]
      ]
]

lower-letter :
    (c : Char) → is_ascii_alphanumeric (code c) ≡ true → is_slug_letter (code (lower_char c)) ≡ true
unfolding lower_char
lower-letter c h = elim (Bool-cases (is_upper (code c))) [
  | inl e ↦ rw e (ground (arith, code-nth-lower c (code c - 65)))
  | inr e ↦ rw e (ground arith)
]

words-push :
    (out : String) (c : Char) (b : Bool)
    → words true out ≡ some b
    → is_slug_letter (code c) ≡ true
    → words true (push out c) ≡ some (push out c == "")
unfolding words
words-push out c b h e =
    let w : words true (push out c) ≡ some false =
      rw (words-append true out (String.◌∷◌ c ""), h, e) refl in
    elim (Bool-cases (push out c == "")) [
      | inl q ↦
          let p : push out c ≡ "" = (eq_iff (push out c) "").0 q in
          absurd (true-false (sym (ap (words true) p) ∙ w))
      | inr q ↦ rw q w
    ]
  where
    true-false : some true ≡ some false → ⊥
    true-false h = cc

words-dash : (out : String) → words true out ≡ some false → words true (out ++ "-") ≡ some true
unfolding words
words-dash out h = rw (words-append true out "-", h) refl

loop_words :
    (out : String) (last_dash : Bool) (s : String)
    → words true out ≡ some (last_dash || (out == ""))
    → (last : Bool) × (words true (slug_loop out last_dash s) ≡ some last)
unfolding slug_loop
loop_words out last_dash String.[] h = (last_dash || (out == ""), h)
loop_words out last_dash (String.◌∷◌ c s) h = elim (Bool-cases (is_ascii_alphanumeric (code c))) [
  | inl e ↦
      let letter = lower-letter c e in
      rw e (
        loop_words (push out (lower_char c)) false s
          (words-push out (lower_char c) (last_dash || (out == "")) h letter))
  | inr e ↦ elim (Bool-cases (not last_dash && not (out == ""))) [
    | inl q ↦ rw (e, q) (loop_words (out ++ "-") true s (words-dash out (ground arith)))
    | inr q ↦ rw (e, q) (loop_words out last_dash s h)
  ]
]

slug_kept : (out : String) → words true out ≡ some false → words true (or_area out) ≡ some false
unfolding words
slug_kept String.[] h = absurd (ground arith)
slug_kept (String.◌∷◌ c s) h = elim (Bool-cases (String.◌∷◌ c s == "")) [
  | inl e ↦ rw e refl
  | inr e ↦ rw e h
]

-- The slug of every title is one or more words of lowercase letters and digits, with a single dash
-- between two words and none at the ends.
pub slugify-words : (title : String) → words true (slugify title) ≡ some false
unfolding slugify words
slugify-words title =
    let (last, h) = loop_words "" false title refl in
    elim (popped_words true last (slug_loop "" false title) h) [
      | inl p ↦ rw p refl
      | inr p ↦ slug_kept (pop_dashes (slug_loop "" false title)) p
    ]
