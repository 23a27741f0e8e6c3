-- ===== src/Store/Daily/Rebuild.antt =====
-- src/store/attention.rs: the daily view that is kept up step by step, and the one that is rebuilt.
use sin.Prelude.{
  ℕ, ◌≤◌, ◌<◌, ◌≡◌, refl, sym, ◌∙◌, List, [], ◌∷◌, ◌++◌, leb, arith, Bool-cases, Option-cases, inl,
  inr, none, some, subst,
}
use sin.Store.Daily.{
  Numbered, AttentionDailyRow, DailyView, max_seq, new_rows, apply_rows, advanced, cleared,
  attention_apply_new_events, attention_rebuild,
}
use sin.Store.Daily.Rows.{IsRising, new_rows-below, new_rows-split, apply_rows-append}

-- the log grows at its end, under higher numbers; the view is brought up to date, cleared or rebuilt
pub data Run : List Numbered → DailyView → Type 0 where
  fresh : Run [] cleared
  logged :
      {log : List Numbered} {view : DailyView} (e : Numbered)
      → Run log view
      → max_seq log < e.seq
      → Run (log ++ (e ∷ [])) view
  caught_up :
      {log : List Numbered} {view next : DailyView}
      → Run log view
      → attention_apply_new_events log view ≡ some next
      → Run log next
  emptied : {log : List Numbered} {view : DailyView} → Run log view → Run log cleared

-- the view holds what a replay up to its watermark gives
record IsReplay (log : List Numbered) (view : DailyView) : Type 0 where
  pub rising : IsRising 0 log
  pub below : view.applied_event_seq ≤ max_seq log
  pub by_replay : apply_rows (new_rows 0 view.applied_event_seq log) [] ≡ some view.daily

max_seq-append :
    (log : List Numbered) (e : Numbered) → max_seq log < e.seq → max_seq (log ++ (e ∷ [])) ≡ e.seq
unfolding max_seq
max_seq-append [] e h = ground (arith, h)
max_seq-append (x ∷ log) e h = elim (Bool-cases (leb (max_seq log) x.seq)) [
  | inl k ↦ let ih = max_seq-append log e (ground (arith, h, k)) in ground (arith, ih, h, k)
  | inr k ↦ let ih = max_seq-append log e (ground (arith, h, k)) in ground (arith, ih, h, k)
]

IsRising-append :
    (a : ℕ) (log : List Numbered) (e : Numbered)
    → IsRising a log
    → a < e.seq
    → max_seq log < e.seq
    → IsRising a (log ++ (e ∷ []))
unfolding max_seq
IsRising-append a [] e r k h = (k, tt)
IsRising-append a (x ∷ log) e r k h =
    (r.0, IsRising-append x.seq log e r.1 (ground (arith, h)) (ground (arith, h)))

new_rows-append :
    (low high : ℕ) (log : List Numbered) (e : Numbered)
    → high < e.seq
    → new_rows low high (log ++ (e ∷ [])) ≡ new_rows low high log
unfolding new_rows
new_rows-append low high [] e h = ground (arith, h)
new_rows-append low high (x ∷ log) e h = rw (new_rows-append low high log e h) refl

IsReplay-fresh : (log : List Numbered) → IsRising 0 log → IsReplay log cleared
unfolding apply_rows
IsReplay-fresh log r = record {
  rising = r;
  below = omega arith;
  by_replay = rw (new_rows-below 0 0 0 log r (omega arith)) refl;
}

-- a replay of the whole log
whole_log :
    (log : List Numbered) (view : DailyView)
    → IsReplay log view
    → attention_apply_new_events log view
      ≡ advanced (max_seq log) (apply_rows (new_rows 0 (max_seq log) log) [])
unfolding attention_apply_new_events
whole_log log view h = elim (Bool-cases (leb (max_seq log) view.applied_event_seq)) [
  | inl e ↦
      let b = h.below in
      let same : max_seq log ≡ view.applied_event_seq = ground (arith, e, b) in
      rw (e, same, h.by_replay) refl
  | inr e ↦
      let split = new_rows-split view.applied_event_seq (max_seq log) 0 log h.rising h.below in
      rw (e, split, apply_rows-append (new_rows 0 view.applied_event_seq log) _ [], h.by_replay)
        refl
]

advanced-IsReplay :
    (log : List Numbered) (next : DailyView)
    → IsRising 0 log
    → advanced (max_seq log) (apply_rows (new_rows 0 (max_seq log) log) []) ≡ some next
    → IsReplay log next
advanced-IsReplay log next r h =
    elim (Option-cases (apply_rows (new_rows 0 (max_seq log) log) [])) [
      | inl e ↦ absurd (empty (rw e at h))
      | inr (daily, e) ↦
          let view : record_of daily ≡ next = some-injective (rw e at h) in
          subst (IsReplay log) view (record { rising = r; below = omega arith; by_replay = e })
    ]
  where
    record_of : List AttentionDailyRow → DailyView
    record_of daily = record { daily = daily; applied_event_seq = max_seq log }

    some-injective : {x y : DailyView} → some x ≡ some y → x ≡ y
    some-injective q = cc

    empty : {x : DailyView} → none ≡ some x → ⊥
    empty q = cc

Run-IsReplay : (log : List Numbered) (view : DailyView) → Run log view → IsReplay log view
Run-IsReplay log view fresh = IsReplay-fresh [] tt
Run-IsReplay log view (logged {log = old} e run above) =
    let h = Run-IsReplay old view run in
    let b = h.below in
    record {
      rising = IsRising-append 0 old e h.rising (omega (arith, above)) above;
      below = rw (max_seq-append old e above) (omega (arith, above, b));
      by_replay =
          rw (new_rows-append 0 view.applied_event_seq old e (omega (arith, above, b))) h.by_replay;
    }
Run-IsReplay log view (caught_up {view = old} run done) =
    let h = Run-IsReplay log old run in
    advanced-IsReplay log view h.rising (sym (whole_log log old h) ∙ done)
Run-IsReplay log view (emptied {view = old} run) =
    IsReplay-fresh log (Run-IsReplay log old run).rising

-- Whatever was logged, applied and cleared before, to apply the new events gives exactly what a rebuild
-- of the daily view from the whole log gives: the same rows in the same order and the same watermark, or
-- no result in both cases.
pub attention_apply_new_events-attention_rebuild :
    (log : List Numbered) (view : DailyView)
    → Run log view
    → attention_apply_new_events log view ≡ attention_rebuild log view
unfolding attention_rebuild
attention_apply_new_events-attention_rebuild log view run =
    let h = Run-IsReplay log view run in
    whole_log log view h ∙ sym (whole_log log cleared (IsReplay-fresh log h.rising))
