-- ===== src/Adapter/Apply/Drain.antt =====
-- src/adapter_agent24/reconciler.rs: `drain_pending` when the kernel accepts everything.
use sin.Prelude.{
  String, ◌≡◌, refl, ap, subst, Bool, true, false, Option, ◌∷◌, [], All, Bool-cases, inl, inr,
  arith, eq_refl,
}
use mathlib.Core.List.{Memᴰ}
use sin.Store.Outbox.{
  OutboxRow, Table, at_version, mark_done, outbox_row_is_current, outbox_mark_done, is_due,
  outbox_due_pending,
}
use sin.Store.Outbox.Due.{Mem_due}
use sin.Adapter.Apply.{
  Surroundings, Reply, Call, ReconcilerClients, settle, dispatch, apply_one, apply_dispatched, call,
  drain_rows, drain_pending_before, continue_pump, continue_batch,
}
use sin.Adapter.Apply.Stale.{update-missing}

-- the row is due, and a copy of it at its version is among those to come
abbrev Awaits : String → Table → OutboxRow → Type 0
Awaits now due q =
    is_due now q ≡ true → (r : OutboxRow) × Memᴰ r due × (at_version r.id r.version q ≡ true)

-- the pump can send the intent of the row and the kernel takes it
abbrev pub Accepted : ReconcilerClients → (Call → Reply) → OutboxRow → Type 0
Accepted clients kernel r =
    (c : Call) × (result : Option String) × (dispatch clients r ≡ call c)
    × (kernel c ≡ Reply.ok result)

at_own_version :
    (now : String) (q : OutboxRow) → is_due now q ≡ true → at_version q.id q.version q ≡ true
at_own_version now q h = rw (eq_refl q.id) (ground arith)

All-Awaits :
    (now : String) (due rows : Table)
    → ((q : OutboxRow) → Memᴰ q rows → is_due now q ≡ true → Memᴰ q due)
    → All (Awaits now due) rows
All-Awaits now due [] f = tt
All-Awaits now due (q ∷ rows) f = (
  (λ d. (q, f q (Memᴰ.head refl) d, at_own_version now q d)),
  All-Awaits now due rows (λ x m. f x (Memᴰ.tail m)),
)

bool_apart : {b : Bool} → b ≡ true → b ≡ false → ⊥
bool_apart t f = absurd (ground arith)

-- once the head of the due rows is marked done, the rest await the tail
done_moves_on :
    (now at : String) (r : OutboxRow) (due rows : Table) (result : Option String)
    → All (Awaits now (r ∷ due)) rows
    → All (Awaits now due) (outbox_mark_done at r.id r.version result rows)
unfolding outbox_mark_done
done_moves_on now at r due [] result a = tt
done_moves_on now at r due (q ∷ rows) result a = elim (Bool-cases (at_version r.id r.version q)) [
  | inl hit ↦ rw hit ((λ d. absurd (ground arith)), done_moves_on now at r due rows result a.1)
  | inr miss ↦ rw miss (
    (λ d.
        let (x, m, v) = a.0 d in
        elim m [
          | Memᴰ.head e ↦
              absurd (bool_apart (subst (λ y. at_version y.id y.version q ≡ true) e v) miss)
          | Memᴰ.tail m' ↦ (x, m', v)
        ]),
    done_moves_on now at r due rows result a.1,
  )
]

nothing_due :
    (now : String) (rows : Table) → All (Awaits now []) rows → outbox_due_pending now rows ≡ []
unfolding outbox_due_pending
nothing_due now [] a = refl
nothing_due now (q ∷ rows) a = elim (Bool-cases (is_due now q)) [
  | inl due ↦ let (x, m, v) = a.0 due in elim m [ ]
  | inr later ↦ rw (later, nothing_due now rows a.1) refl
]

module _ (s : Surroundings) (clients : ReconcilerClients) (kernel : Call → Reply) where
  Accepted-mark_done :
      (r : OutboxRow) (rows : Table) (a : Accepted clients kernel r)
      → apply_one s clients r kernel (λ t. t) rows
        ≡ (outbox_mark_done s.now_iso8601 r.id r.version a.1 rows, continue_batch)
  unfolding apply_one apply_dispatched settle outbox_mark_done
  Accepted-mark_done r rows (c, result, sent, answer) =
      elim (Bool-cases (outbox_row_is_current r.id r.version rows)) [
        | inl current ↦ rw (current, sent, answer) refl
        | inr stale ↦
            rw (stale, update-missing r.id r.version (mark_done s.now_iso8601 result) rows stale)
              refl
      ]

  drain_onward :
      (r : OutboxRow) (due rows rows' : Table)
      → (apply_one s clients r kernel (λ t. t) rows).0 ≡ rows'
      → (apply_one s clients r kernel (λ t. t) rows).1 ≡ continue_batch
      → drain_rows s clients kernel (r ∷ due) rows ≡ drain_rows s clients kernel due rows'
  unfolding drain_rows
  drain_onward r due rows rows' e o = rw (drain_rows, o, e) refl

  drain-All :
      (now : String) (due rows : Table)
      → All (Accepted clients kernel) due
      → All (Awaits now due) rows
      → (outbox_due_pending now (drain_rows s clients kernel due rows).0 ≡ [])
        × ((drain_rows s clients kernel due rows).1 ≡ continue_pump)
  unfolding drain_rows
  drain-All now [] rows ok a = (nothing_due now rows a, refl)
  drain-All now (r ∷ due) rows (acc, ok) a =
      let e = Accepted-mark_done r rows acc in
      rw (drain_onward r due rows _ (ap (λ p. p.0) e) (ap (λ p. p.1) e))
        (drain-All now due _ ok (done_moves_on now s.now_iso8601 r due rows acc.1 a))

  -- A pass of the pump with no other writer, in which every due row has a payload that parses, a
  -- capability that is granted and a call that the kernel accepts, leaves no due row behind and lets
  -- the pump go on.
  pub pass_empties_outbox :
      (now : String) (rows : Table)
      → All (Accepted clients kernel) (outbox_due_pending now rows)
      → (outbox_due_pending now (drain_pending_before s clients kernel now rows).0 ≡ [])
        × ((drain_pending_before s clients kernel now rows).1 ≡ continue_pump)
  unfolding drain_pending_before
  pass_empties_outbox now rows ok =
      drain-All now (outbox_due_pending now rows) rows ok
        (All-Awaits now (outbox_due_pending now rows) rows (λ q m d. Mem_due now q rows m d))
