-- ===== src/Adapter/Apply/Backoff.antt =====
-- src/adapter_agent24/reconciler.rs: the bounds and the schedule of `backoff_after`.
use sin.Prelude.{
  ℕ, ◌+◌, ◌^◌, ◌≤◌, ◌<◌, ◌≡◌, refl, true, Bool-cases, inl, inr, arith, ltb, eqb, eqb-eq,
  holds_below, holds_below_sound, if◌then◌else◌,
}
use sin.Adapter.Apply.{backoff_after}

schedule : ℕ → ℕ
schedule n = if ltb n 9 then 2 ^ n else 300

first_delays : (n : ℕ) → n < 64 → eqb (backoff_after (n + 1)) (schedule n) ≡ true
unfolding backoff_after schedule
first_delays n near =
    holds_below_sound (λ k. eqb (backoff_after (k + 1)) (schedule k)) 64 n near
      (unfold holds_below in refl)

later_delays : (n : ℕ) → n < 4294967296 → 64 ≤ n → backoff_after (n + 1) ≡ 300
unfolding backoff_after
later_delays n h far = ground arith

-- The first retry waits one second, the delay doubles with every retry until the cap of 300 seconds,
-- and from the tenth retry on it is the cap, for every count below 2 ^ 32.
pub backoff_schedule :
    (n : ℕ)
    → n < 4294967296
    → (n < 9 → backoff_after (n + 1) ≡ 2 ^ n) × (9 ≤ n → backoff_after (n + 1) ≡ 300)
unfolding schedule
backoff_schedule n h = elim (Bool-cases (ltb n 64)) [
  | inl near ↦
      let e = eqb-eq (backoff_after (n + 1)) (schedule n) (first_delays n (ground arith)) in
      (λ l. ground arith, λ l. ground arith)
  | inr far ↦ (λ l. absurd (ground arith), λ _. later_delays n h (ground arith))
]
