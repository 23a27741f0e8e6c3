-- ===== src/Core/Cron/Exact.antt =====
-- src/core/util.rs: the expressions that `validate_cron` lets pass.
use Prim.Native.String.{◌++◌}
use sin.Prelude.{
  ℕ, ◌<◌, String, ◌≡◌, ◌↔◌, ◌⊎◌, inl, inr, refl, subst, Bool, true, false, not, ◌&&◌, List, [], ◌∷◌,
  ◌==◌, length, any_of, none, All, arith, eq_iff, Bool-cases,
}
use sin.Prelude.Text.{chars, is_ascii_digit}
use sin.Core.Cron.{split_whitespace, validate_cron}
use sin.Core.Cron.Fields.{AreFields, AreFields-split_whitespace, split_whitespace-AreFields}

-- a character that is no digit from 0 to 9
abbrev pub NoDigit : ℕ → Type 0
NoDigit c = (c < 48) ⊎ (57 < c)

any_digit : (l : List ℕ) → (any_of is_ascii_digit l ≡ false) ↔ All NoDigit l
any_digit [] = ((λ h. tt), (λ h. refl))
any_digit (c ∷ l) = (
  (λ h. (apart c (ground (arith, h)), (any_digit l).0 (ground (arith, h)))),
  (λ h. ground (arith, h.0, (any_digit l).1 h.1)),
)
  where
    apart : (c : ℕ) → is_ascii_digit c ≡ false → NoDigit c
    apart c h = ground (arith, h)

five :
    (l : List String)
    → length l ≡ 5
    → (minute hour dom month dow : String) × (l ≡ minute ∷ hour ∷ dom ∷ month ∷ dow ∷ [])
five (a ∷ b ∷ c ∷ d ∷ e ∷ []) h = (a, b, c, d, e, refl)
five [] h = absurd (omega (arith, h))
five (a ∷ []) h = absurd (omega (arith, h))
five (a ∷ b ∷ []) h = absurd (omega (arith, h))
five (a ∷ b ∷ c ∷ []) h = absurd (omega (arith, h))
five (a ∷ b ∷ c ∷ d ∷ []) h = absurd (omega (arith, h))
five (a ∷ b ∷ c ∷ d ∷ e ∷ f ∷ l) h = absurd (omega (arith, h))

star : (a b : String) → (not (a == "*") && not (b == "*")) ≡ false → (a ≡ "*") ⊎ (b ≡ "*")
star a b h = elim (Bool-cases (a == "*")) [
  | inl e ↦ inl ((eq_iff a "*").0 e)
  | inr e ↦ inr ((eq_iff b "*").0 (ground arith))
]

-- a text of five fields, that a crontab may hold
pub record IsCron (parse_schedule : String → Bool) (expr : String) : Type 0 where
  pub minute : String
  pub hour : String
  pub dom : String
  pub month : String
  pub dow : String
  pub fields : AreFields expr (minute ∷ hour ∷ dom ∷ month ∷ dow ∷ [])
  pub names : All NoDigit (chars dow)
  pub one_star : (dom ≡ "*") ⊎ (dow ≡ "*")
  pub parses : parse_schedule ("0 " ++ expr) ≡ true

module _ (parse_schedule : String → Bool) where
  passes :
      (expr minute hour dom month dow : String)
      → split_whitespace expr ≡ minute ∷ hour ∷ dom ∷ month ∷ dow ∷ []
      → (validate_cron parse_schedule expr ≡ none) ↔ (
          (any_of is_ascii_digit (chars dow) ≡ false)
          × ((dom ≡ "*") ⊎ (dow ≡ "*"))
          × (parse_schedule ("0 " ++ expr) ≡ true))
  unfolding validate_cron
  passes expr minute hour dom month dow e = rw e (
    (λ h. (ground (arith, h), star dom dow (ground (arith, h)), ground (arith, h))),
    (λ h. ground (arith, h.0, h.1, h.2, eq_iff dom "*", eq_iff dow "*")),
  )

  counted :
      (expr : String)
      → validate_cron parse_schedule expr ≡ none
      → length (split_whitespace expr) ≡ 5
  unfolding validate_cron
  counted expr h = ground (arith, h)

  -- A cron expression passes exactly when it consists of five fields, not empty and without white space,
  -- with white space between them and perhaps around them, where the weekday has no digit, the day of
  -- the month or the weekday is a star, and the parser takes the expression after a field for the
  -- seconds.
  pub validate_cron_exact :
      (expr : String) → (validate_cron parse_schedule expr ≡ none) ↔ IsCron parse_schedule expr
  validate_cron_exact expr = (
    (λ h.
        let (minute, hour, dom, month, dow, e) = five (split_whitespace expr) (counted expr h) in
        let (names, one, parsed) = (passes expr minute hour dom month dow e).0 h in
        record {
          minute = minute;
          hour = hour;
          dom = dom;
          month = month;
          dow = dow;
          fields = subst (AreFields expr) e (split_whitespace-AreFields expr);
          names = (any_digit (chars dow)).0 names;
          one_star = one;
          parses = parsed;
        }),
    (λ c.
        let e =
          AreFields-split_whitespace (c.minute ∷ c.hour ∷ c.dom ∷ c.month ∷ c.dow ∷ []) expr
            c.fields in
        let back = (passes expr c.minute c.hour c.dom c.month c.dow e).1 in
        back ((any_digit (chars c.dow)).1 c.names, c.one_star, c.parses)),
  )
