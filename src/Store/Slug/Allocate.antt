-- ===== src/Store/Slug/Allocate.antt =====
-- src/store/repo.rs: the slug that `allocate_area_slug` finds.
use Prim.Native.String.{◌++◌}
use text.Mathlib.TextLemmas.{append-nil}
use native.Mathlib.Decide.{ℕ_discrete}
use sin.Prelude.{
  ℕ, zero, suc, ◌+◌, ◌≤◌, ◌<◌, String, ◌≡◌, ◌≢◌, refl, sym, ◌∙◌, ap, subst, true, false, none, some,
  List, [], ◌∷◌, ◌==◌, if◌then◌else◌, length, Bool-cases, inl, inr, arith, eq_iff,
}
use sin.Prelude.Text.{contains}
use sin.Prelude.Ascii.{strip_prefix, strip_prefix-append}
use sin.Prelude.Decimal.{to_decimal, to_decimal-injective}
use sin.Store.Slug.{slugify, numbered, allocate_loop, allocate_area_slug}

-- the slugs that are tried, in their order
abbrev pub candidate : String → ℕ → String
candidate base zero = base
candidate base (suc k) = numbered base (k + 2)

some-injective : {a b : String} → some a ≡ some b → a ≡ b
some-injective e = cc

-- what follows the base slug
after_base : (base rest : String) → strip_prefix base (base ++ rest) ≡ some rest
after_base base rest = strip_prefix-append base rest

numbered-injective : (base : String) (m n : ℕ) → numbered base m ≡ numbered base n → m ≡ n
unfolding numbered
numbered-injective base m n e =
    let tails =
      some-injective (sym (after_base base _) ∙ ap (strip_prefix base) e ∙ after_base base _) in
    to_decimal-injective m n (
      some-injective
        (sym (strip_prefix-append "-" _) ∙ ap (strip_prefix "-") tails ∙ strip_prefix-append "-" _))

base-numbered : (base : String) (n : ℕ) → base ≢ numbered base n
unfolding numbered strip_prefix
base-numbered base n e =
    let tails = some-injective (
      sym (after_base base "")
      ∙ ap (strip_prefix base) (append-nil base ∙ e)
      ∙ after_base base _) in
    none-some (ap (strip_prefix "-") tails ∙ strip_prefix-append "-" (to_decimal n))
  where
    none-some : {s : String} → none ≡ some s → ⊥
    none-some h = cc

candidate-injective : (base : String) (j k : ℕ) → candidate base j ≡ candidate base k → j ≡ k
candidate-injective base zero zero e = refl
candidate-injective base zero (suc k) e = absurd (base-numbered base (k + 2) e)
candidate-injective base (suc j) zero e = absurd (base-numbered base (j + 2) (sym e))
candidate-injective base (suc j) (suc k) e =
    omega (arith, numbered-injective base (j + 2) (k + 2) e)

-- a list without one entry
unfoldable remove : String → List String → List String
remove key [] = []
remove key (entry ∷ l) = let rest = entry ∷ remove key l in if entry == key then l else rest

length-remove :
    (key : String) (l : List String)
    → contains key l ≡ true
    → length l ≡ suc (length (remove key l))
unfolding contains remove
length-remove key [] h = absurd (ground arith)
length-remove key (entry ∷ l) h = ground (arith, length-remove key l)

contains-remove :
    (key other : String) (l : List String)
    → (key == other) ≡ false
    → contains other l ≡ true
    → contains other (remove key l) ≡ true
unfolding contains remove
contains-remove key other [] ne h = h
contains-remove key other (entry ∷ l) ne h =
    ground
      (arith, contains-remove key other l, eq_iff entry key, eq_iff entry other, eq_iff key other)

-- The candidates are different, so that one of as many as there are slugs, and one more, is free.
-- `left` has the slugs that the candidates from here on may still meet.
loop_first_free :
    (fuel : ℕ) (taken left : List String) (base : String) (k : ℕ)
    → length left < fuel
    → ((j : ℕ)
        → k ≤ j
        → contains (candidate base j) taken ≡ true
        → contains (candidate base j) left ≡ true)
    → (n : ℕ) × (k ≤ n)
      × (n < k + fuel)
      × (allocate_loop fuel taken base (candidate base k) (k + 2) ≡ candidate base n)
      × (contains (candidate base n) taken ≡ false)
      × ((j : ℕ) → k ≤ j → j < n → contains (candidate base j) taken ≡ true)
unfolding allocate_loop
loop_first_free zero taken left base k small cover = absurd (omega arith)
loop_first_free (suc fuel) taken left base k small cover =
    elim (Bool-cases (contains (candidate base k) taken)) [
      | inl met ↦
          let next : k + 2 + 1 ≡ suc k + 2 = omega arith in
          let here = cover k (omega arith) met in
          let shorter = length-remove (candidate base k) left here in
          let (n, le, lt, found, free, first) =
            loop_first_free fuel taken (remove (candidate base k) left) base (suc k) (omega arith)
              (λ j le t.
                contains-remove (candidate base k) (candidate base j) left (apart j le)
                  (cover j (omega arith) t)) in
          (
            n,
            omega arith,
            omega arith,
            rw (met, next) found,
            free,
            λ j a b. elim (ℕ_discrete j k) [
              | yes e ↦ subst (λ i. contains (candidate base i) taken ≡ true) (sym e) met
              | no ne ↦ first j (omega arith) b
            ],
          )
      | inr free ↦ (k, omega arith, omega arith, rw free refl, free, λ j a b. absurd (omega arith))
    ]
  where
    apart : (j : ℕ) → suc k ≤ j → (candidate base k == candidate base j) ≡ false
    apart j le = elim (Bool-cases (candidate base k == candidate base j)) [
      | inl e ↦
          let same =
            candidate-injective base k j ((eq_iff (candidate base k) (candidate base j)).0 e) in
          absurd (omega arith)
      | inr e ↦ e
    ]

-- The slug that is allocated is the first of the base slug and its numbered forms that no area has:
-- it is found after at most as many rounds as there are areas, and one more.
pub allocate_area_slug_first_free :
    (title : String) (taken : List String)
    → (n : ℕ) × (n ≤ length taken)
      × (allocate_area_slug title taken ≡ candidate (slugify title) n)
      × (contains (allocate_area_slug title taken) taken ≡ false)
      × ((j : ℕ) → j < n → contains (candidate (slugify title) j) taken ≡ true)
unfolding allocate_area_slug
allocate_area_slug_first_free title taken =
    let (n, le, lt, found, free, first) =
      loop_first_free (suc (length taken)) taken taken (slugify title) 0 (omega arith) λ j a t. t in
    (n, omega arith, found, rw found free, λ j b. first j (omega arith) b)
