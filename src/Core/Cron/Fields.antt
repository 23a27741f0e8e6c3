-- ===== src/Core/Cron/Fields.antt =====
-- src/core/util.rs: the fields of a text, apart from the loop that splits it.
use Prim.Native.String.{◌++◌}
use Prim.Native.Char.{Char, code}
use text.Mathlib.TextLemmas.{nil-append, cons-append}
use sin.Prelude.{
  String, ◌≡◌, ◌≢◌, refl, sym, ◌∙◌, ap, subst, true, false, List, [], ◌∷◌, ◌==◌, Bool-cases, inl,
  inr, eq_iff, arith,
}
use sin.Prelude.Text.{is_whitespace}
use sin.Core.Cron.{push_word, split_words, split_whitespace}

-- nothing but white space
abbrev pub IsSpace : String → Type 0
IsSpace String.[] = Unit
IsSpace (String.◌∷◌ c s) = (is_whitespace (code c) ≡ true) × IsSpace s

-- no white space at all
abbrev pub NoSpace : String → Type 0
NoSpace String.[] = Unit
NoSpace (String.◌∷◌ c s) = (is_whitespace (code c) ≡ false) × NoSpace s

-- the end, or white space first
abbrev pub IsBreak : String → Type 0
IsBreak String.[] = Unit
IsBreak (String.◌∷◌ c s) = is_whitespace (code c) ≡ true

-- a text is its fields, which are not empty and have no white space, with white space between them and
-- perhaps around them
abbrev pub AreFields : String → List String → Type 0
AreFields s [] = IsSpace s
AreFields s (w ∷ words) =
    (before rest : String) × (s ≡ before ++ (w ++ rest))
    × IsSpace before
    × (w ≢ "")
    × NoSpace w
    × IsBreak rest
    × AreFields rest words

split_space :
    (before s : String) → IsSpace before → split_whitespace (before ++ s) ≡ split_whitespace s
unfolding split_whitespace split_words push_word
split_space String.[] s h = ap split_whitespace (nil-append s)
split_space (String.◌∷◌ c before) s h = rw (cons-append c before s, h.0) (split_space before s h.1)

split_only_space : (s : String) → IsSpace s → split_whitespace s ≡ []
unfolding split_whitespace split_words push_word
split_only_space String.[] h = refl
split_only_space (String.◌∷◌ c s) h = rw h.0 (split_only_space s h.1)

split_break : (rest : String) → IsBreak rest → split_words rest ≡ ("", split_whitespace rest)
unfolding split_whitespace split_words push_word
split_break String.[] h = refl
split_break (String.◌∷◌ c rest) h = rw h refl

split_word :
    (w rest : String)
    → NoSpace w
    → IsBreak rest
    → split_words (w ++ rest) ≡ (w, split_whitespace rest)
unfolding split_words
split_word String.[] rest n h = ap split_words (nil-append rest) ∙ split_break rest h
split_word (String.◌∷◌ c w) rest n h =
    rw (cons-append c w rest, n.0) (ap (λ p. (String.◌∷◌ c p.0, p.1)) (split_word w rest n.1 h))

push_word-cons : (w : String) (words : List String) → w ≢ "" → push_word w words ≡ w ∷ words
unfolding push_word
push_word-cons w words ne = elim (Bool-cases (w == "")) [
  | inl e ↦ absurd (ne ((eq_iff w "").0 e))
  | inr e ↦ rw e refl
]

-- a text has no other fields than those that the loop gives
pub AreFields-split_whitespace :
    (words : List String) (s : String) → AreFields s words → split_whitespace s ≡ words
unfolding split_whitespace push_word
AreFields-split_whitespace [] s h = split_only_space s h
AreFields-split_whitespace (w ∷ words) s (before, rest, e, space, ne, word, stop, more) =
    ap split_whitespace e
    ∙ split_space before (w ++ rest) space
    ∙ ap (λ p. push_word p.0 p.1) (split_word w rest word stop)
    ∙ push_word-cons w (split_whitespace rest) ne
    ∙ ap (λ ws. w ∷ ws) (AreFields-split_whitespace words rest more)

-- one more character of white space
AreFields-space :
    (c : Char) (s : String) (words : List String)
    → is_whitespace (code c) ≡ true
    → AreFields s words
    → AreFields (String.◌∷◌ c s) words
AreFields-space c s [] h f = (h, f)
AreFields-space c s (w ∷ words) h (before, rest, e, space, ne, word, stop, more) = (
  String.◌∷◌ c before,
  rest,
  ap (String.◌∷◌ c) e ∙ sym (cons-append c before (w ++ rest)),
  (h, space),
  ne,
  word,
  stop,
  more,
)

-- a word in front, which may be empty
AreFields-push_word :
    (w rest : String) (words : List String)
    → NoSpace w
    → IsBreak rest
    → AreFields rest words
    → AreFields (w ++ rest) (push_word w words)
unfolding push_word
AreFields-push_word w rest words n b f = elim (Bool-cases (w == "")) [
  | inl e ↦
      let empty : w ≡ "" = (eq_iff w "").0 e in
      rw e (subst (λ x. AreFields x words) (sym (ap (λ x. x ++ rest) empty ∙ nil-append rest)) f)
  | inr e ↦ rw e ("", rest, sym (nil-append (w ++ rest)), tt, (λ q. filled q e), n, b, f)
]
  where
    filled : w ≡ "" → (w == "") ≡ false → ⊥
    filled q e = absurd (ground (arith, (eq_iff w "").1 q, e))

-- what the loop has found of a text: a word at its start, and the fields of what follows
abbrev Found : String → String × List String → Type 0
Found s p = (rest : String) × (s ≡ p.0 ++ rest) × NoSpace p.0 × IsBreak rest × AreFields rest p.1

split_words-Found : (s : String) → Found s (split_words s)
unfolding split_words
split_words-Found String.[] = ("", sym (nil-append ""), tt, tt, tt)
split_words-Found (String.◌∷◌ c s) =
    let (rest, e, word, stop, more) = split_words-Found s in
    elim (Bool-cases (is_whitespace (code c))) [
      | inl h ↦
          let fields =
            AreFields-push_word (split_words s).0 rest (split_words s).1 word stop more in
          rw h (
            String.◌∷◌ c s,
            sym (nil-append (String.◌∷◌ c s)),
            tt,
            h,
            AreFields-space c s (push_word (split_words s).0 (split_words s).1) h (
                subst (λ x. AreFields x (push_word (split_words s).0 (split_words s).1)) (sym e)
                  fields),
          )
      | inr h ↦ rw h (
        rest,
        ap (String.◌∷◌ c) e ∙ sym (cons-append c (split_words s).0 rest),
        (h, word),
        stop,
        more,
      )
    ]

-- the loop gives the fields of a text
pub split_whitespace-AreFields : (s : String) → AreFields s (split_whitespace s)
unfolding split_whitespace
split_whitespace-AreFields s =
    let (rest, e, word, stop, more) = split_words-Found s in
    subst (λ x. AreFields x (push_word (split_words s).0 (split_words s).1)) (sym e)
      (AreFields-push_word (split_words s).0 rest (split_words s).1 word stop more)
