-- ===== src/Prelude/Decimal.antt =====
-- `format!("{n}")` of an unsigned number: its decimal digits.
use Prim.Native.Char.{Char, code, nul}
use Prim.Native.String.{String}
use sin.Prelude.{
  ℕ, zero, suc, ◌+◌, ◌*◌, ◌-◌, ◌/◌, ◌%◌, ◌<◌, ◌≡◌, refl, sym, ◌∙◌, ap, Bool-cases, inl, inr, arith,
  eqb, eqb-eq, if◌then◌else◌,
}
use sin.Prelude.Ascii.{nth}

abbrev pub digit : ℕ → Char
digit d = nth nul "0123456789" d

-- the digits of a number in front of those that are there, with fuel for as many
unfoldable pub push_digits : ℕ → ℕ → String → String
push_digits zero n rest = rest
push_digits (suc fuel) n rest =
    let last = String.◌∷◌ (digit (n % 10)) rest in
    let more = push_digits fuel (n / 10) last in if eqb (n / 10) 0 then last else more

unfoldable pub to_decimal : ℕ → String
unfolding push_digits
to_decimal n = push_digits (suc n) n ""

-- the number that a text of digits continues
unfoldable pub read_digits : ℕ → String → ℕ
read_digits v String.[] = v
read_digits v (String.◌∷◌ c s) = read_digits (v * 10 + (code c - 48)) s

code-digit : (d : ℕ) → d < 10 → code (digit d) - 48 ≡ d
code-digit zero h = refl
code-digit (suc zero) h = refl
code-digit (suc (suc zero)) h = refl
code-digit (suc (suc (suc zero))) h = refl
code-digit (suc (suc (suc (suc zero)))) h = refl
code-digit (suc (suc (suc (suc (suc zero))))) h = refl
code-digit (suc (suc (suc (suc (suc (suc zero)))))) h = refl
code-digit (suc (suc (suc (suc (suc (suc (suc zero))))))) h = refl
code-digit (suc (suc (suc (suc (suc (suc (suc (suc zero)))))))) h = refl
code-digit (suc (suc (suc (suc (suc (suc (suc (suc (suc zero))))))))) h = refl
code-digit (suc (suc (suc (suc (suc (suc (suc (suc (suc (suc d)))))))))) h = absurd (omega arith)

read-push_digits :
    (fuel n : ℕ) (rest : String)
    → n < fuel
    → read_digits 0 (push_digits fuel n rest) ≡ read_digits n rest
unfolding push_digits read_digits
read-push_digits zero n rest h = absurd (omega arith)
read-push_digits (suc fuel) n rest h =
    let low = code-digit (n % 10) (omega arith) in
    elim (Bool-cases (eqb (n / 10) 0)) [
      | inl e ↦
          let z : n / 10 ≡ 0 = eqb-eq (n / 10) 0 e in
          rw e (ap (λ v. read_digits v rest) (omega (arith, low, z)))
      | inr e ↦
          let more : ¬ (n / 10 ≡ 0) = λ z. ground arith in
          rw (e, read-push_digits fuel (n / 10) (String.◌∷◌ (digit (n % 10)) rest) (omega arith))
            (ap (λ v. read_digits v rest) (omega (arith, low)))
    ]

pub read-to_decimal : (n : ℕ) → read_digits 0 (to_decimal n) ≡ n
unfolding to_decimal read_digits
read-to_decimal n = read-push_digits (suc n) n "" (omega arith)

pub to_decimal-injective : (m n : ℕ) → to_decimal m ≡ to_decimal n → m ≡ n
to_decimal-injective m n e = sym (read-to_decimal m) ∙ ap (read_digits 0) e ∙ read-to_decimal n
