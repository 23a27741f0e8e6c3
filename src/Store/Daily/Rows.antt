-- ===== src/Store/Daily/Rows.antt =====
-- src/store/attention.rs: the rows that are selected between two numbers of the log.
use sin.Prelude.{
  ℕ, ◌≤◌, ◌<◌, ◌≡◌, refl, List, [], ◌∷◌, ◌++◌, leb, arith, Bool-cases, Option-cases, inl, inr,
}
use sin.Store.Errors.{Event}
use sin.Store.Daily.{Numbered, AttentionDailyRow, new_rows, apply_row, apply_rows, then_rows}

-- the numbers of a log rise, from above a number
abbrev pub IsRising : ℕ → List Numbered → Type 0
IsRising a [] = Unit
IsRising a (e ∷ log) = (a < e.seq) × IsRising e.seq log

pub new_rows-below :
    (low high a : ℕ) (log : List Numbered) → IsRising a log → high ≤ a → new_rows low high log ≡ []
unfolding new_rows
new_rows-below low high a [] r h = refl
new_rows-below low high a (e ∷ log) r h =
    let ih = new_rows-below low high e.seq log r.1 (omega (arith, r.0, h)) in
    ground (arith, ih, r.0, h)

pub new_rows-above :
    (low high a : ℕ) (log : List Numbered)
    → IsRising a log
    → low ≤ a
    → new_rows 0 high log ≡ new_rows low high log
unfolding new_rows
new_rows-above low high a [] r h = refl
new_rows-above low high a (e ∷ log) r h =
    let ih = new_rows-above low high e.seq log r.1 (omega (arith, r.0, h)) in
    ground (arith, ih, r.0, h)

-- what is above and what is below the watermark
pub new_rows-split :
    (low high a : ℕ) (log : List Numbered)
    → IsRising a log
    → low ≤ high
    → new_rows 0 high log ≡ new_rows 0 low log ++ new_rows low high log
unfolding new_rows
new_rows-split low high a [] r h = refl
new_rows-split low high a (e ∷ log) r h = elim (Bool-cases (leb e.seq low)) [
  | inl k ↦ let ih = new_rows-split low high e.seq log r.1 h in ground (arith, ih, k, r.0, h)
  | inr k ↦
      let above = new_rows-above low high e.seq log r.1 (ground (arith, k)) in
      let below = new_rows-below 0 low e.seq log r.1 (ground (arith, k)) in
      ground (arith, above, below, k, r.0, h)
]

pub apply_rows-append :
    (xs ys : List Event) (daily : List AttentionDailyRow)
    → apply_rows (xs ++ ys) daily ≡ then_rows (apply_rows ys) (apply_rows xs daily)
unfolding apply_rows
apply_rows-append [] ys daily = refl
apply_rows-append (x ∷ xs) ys daily = elim (Option-cases (apply_row x daily)) [
  | inl e ↦ rw e refl
  | inr (next, e) ↦ rw e (apply_rows-append xs ys next)
]
