-- ===== src/Adapter/Delivery/Agree.antt =====
-- src/adapter_agent24/reconciler.rs and src/store/repo.rs: a copy of a row, compared with
-- the rows of the table.
use sin.Prelude.{
  ◌≤◌, String, ◌≡◌, ◌≢◌, refl, sym, ◌∙◌, [], ◌∷◌, arith, All, All-append, All-map, All-zip,
  Option-cases, inl, inr,
}
use sin.Store.Json.{Value}
use sin.Store.Outbox.{
  OutboxRow, Table, find_live, overwrite, fresh_row, upsert_outbox, mark_done, mark_retry,
  mark_failed, outbox_mark_done, outbox_mark_retry, outbox_mark_failed,
}
use sin.Store.Outbox.Due.{update-All}
use sin.Store.Outbox.Live.{UniqueIds}
use sin.Adapter.Delivery.Settled.{Settled, left_alone, marked_done, marked_retry, marked_failed}

-- what a copy `r` says of the row `q` of the table
pub record Agree (r q : OutboxRow) : Type 0 where
  pub older : r.id ≡ q.id → r.version ≤ q.version
  pub kind : r.id ≡ q.id → r.version ≡ q.version → r.kind ≡ q.kind
  pub desired : r.id ≡ q.id → r.version ≡ q.version → r.desired ≡ q.desired

-- how the updates treat what is said of rows
pub Agree-kept :
    (r q q' : OutboxRow)
    → q'.id ≡ q.id
    → q'.version ≡ q.version
    → q'.kind ≡ q.kind
    → q'.desired ≡ q.desired
    → Agree r q
    → Agree r q'
Agree-kept r q q' ei ev ek ed a = record {
  older = λ i. rw ev (a.older (i ∙ ei));
  kind = λ i v. a.kind (i ∙ ei) (v ∙ ev) ∙ sym ek;
  desired = λ i v. a.desired (i ∙ ei) (v ∙ ev) ∙ sym ed;
}

pub Agree-Settled :
    (x r : OutboxRow) {rows rows' : Table}
    → Settled r rows rows'
    → All (Agree x) rows
    → All (Agree x) rows'
unfolding outbox_mark_done outbox_mark_retry outbox_mark_failed
Agree-Settled x r {rows} left_alone a = a
Agree-Settled x r {rows} (marked_done now result) a =
    update-All (Agree x) _ _ rows
      (λ q _. Agree-kept x q (mark_done now result q) refl refl refl refl) a
Agree-Settled x r {rows} (marked_retry error later bump) a =
    update-All (Agree x) _ _ rows
      (λ q _. Agree-kept x q (mark_retry error later bump q) refl refl refl refl) a
Agree-Settled x r {rows} (marked_failed kind error) a =
    update-All (Agree x) _ _ rows
      (λ q _. Agree-kept x q (mark_failed kind error q) refl refl refl refl) a

Agree-overwrite :
    (x q : OutboxRow) (kind : String) (desired : Value)
    → Agree x q
    → Agree x (overwrite kind desired q)
unfolding overwrite
Agree-overwrite x q kind desired a = record {
  older = λ i. omega (arith, a.older i);
  kind = λ i v. absurd (omega (arith, a.older i));
  desired = λ i v. absurd (omega (arith, a.older i));
}

Agree-fresh :
    (x : OutboxRow) (id now kind key : String) (desired : Value)
    → id ≢ x.id
    → Agree x (fresh_row id now kind key desired)
unfolding fresh_row
Agree-fresh x id now kind key desired ne = record {
  older = λ i. absurd (ne (sym i));
  kind = λ i _. absurd (ne (sym i));
  desired = λ i _. absurd (ne (sym i));
}

module _ (id now kind key : String) (desired : Value) (rows : Table) where
  pub Agree-upsert :
      (x : OutboxRow)
      → id ≢ x.id
      → All (Agree x) rows
      → All (Agree x) (upsert_outbox id now kind key desired rows)
  unfolding upsert_outbox
  Agree-upsert x ne a = elim (Option-cases (find_live key rows)) [
    | inl e ↦ rw e (All-append (Agree x) rows _ a (Agree-fresh x id now kind key desired ne, tt))
    | inr (r, e) ↦ rw e (update-All (Agree x) _ _ rows (λ q _. Agree-overwrite x q kind desired) a)
  ]

-- a row of a table with unique ids agrees with every row of it
Agree-apart : (x q : OutboxRow) → x.id ≢ q.id → Agree x q
Agree-apart x q ne = record {
  older = λ i. absurd (ne i);
  kind = λ i _. absurd (ne i);
  desired = λ i _. absurd (ne i);
}

pub Agree-self : (q : OutboxRow) → Agree q q
Agree-self q = record { older = λ _. omega arith; kind = λ _ _. refl; desired = λ _ _. refl }

pub table_agrees : (rows : Table) → UniqueIds rows → All (λ x. All (Agree x) rows) rows
table_agrees [] u = tt
table_agrees (q ∷ rows) u = (
  (Agree-self q, All-map rows (λ x ne. Agree-apart q x ne) u.0),
  All-map rows (λ x p. (Agree-apart x q (λ e. p.0 (sym e)), p.1))
      (All-zip (λ x. q.id ≢ x.id) (λ x. All (Agree x) rows) rows u.0 (table_agrees rows u.1)),
)
