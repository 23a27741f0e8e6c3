-- ===== src/Store/Outbox/Formed.antt =====
-- src/store/repo.rs, the outbox: the statements on the table and well-formedness.
use sin.Prelude.{
  ℕ, String, ◌≡◌, ◌≢◌, refl, sym, ap, ◌∙◌, Bool, true, false, Option, some, [], ◌∷◌, ◌++◌, ◌==◌,
  eq_iff, arith, All, All-append, All-map, Bool-cases, Option-cases, inl, inr,
}
use sin.Store.Json.{Value}
use sin.Store.Outbox.{
  OutboxRow, Table, is_live, is_live_for, find_live, overwrite, fresh_row, update_where,
  upsert_outbox, outbox_mark_done, outbox_mark_retry, outbox_mark_failed,
}
use sin.Store.Outbox.Live.{
  IsWellFormed, OneLive, OneLive, UniqueIds, UniqueIds, find_live-All, find_live_split, none_live,
}

abbrev pub IsFreshId : String → Table → Type 0
IsFreshId id rows = All (λ q. id ≢ q.id) rows

UniqueIds-append :
    (rows : Table) (r : OutboxRow)
    → UniqueIds rows
    → IsFreshId r.id rows
    → UniqueIds (rows ++ r ∷ [])
UniqueIds-append [] r u f = (tt, tt)
UniqueIds-append (q ∷ rows) r u f = (
  All-append (λ x. q.id ≢ x.id) rows (r ∷ []) u.0 ((λ e. f.0 (sym e)), tt),
  UniqueIds-append rows r u.1 f.1,
)

OneLive-append :
    (rows : Table) (r : OutboxRow)
    → OneLive rows
    → All (λ q. is_live_for r.dedup_key q ≡ false) rows
    → OneLive (rows ++ r ∷ [])
OneLive-append [] r o a = ((λ _. tt), tt)
OneLive-append (q ∷ rows) r o a = (
  λ live.
      All-append (λ x. is_live_for q.dedup_key x ≡ false) rows (r ∷ []) (o.0 live)
        (ground (arith, a.0, eq_iff q.dedup_key r.dedup_key, eq_iff r.dedup_key q.dedup_key), tt),
  OneLive-append rows r o.1 a.1,
)

-- an update that keeps ids and keys, and makes no dead row live
pub record Shrinks (p : OutboxRow → Bool) (f : OutboxRow → OutboxRow) (q : OutboxRow) : Type 0 where
  pub id : (f q).id ≡ q.id
  pub key : (f q).dedup_key ≡ q.dedup_key
  pub live : p q ≡ true → is_live (f q).status ≡ true → is_live q.status ≡ true

module _ (p : OutboxRow → Bool) (f : OutboxRow → OutboxRow) where
  ids-update :
      (id : String) (rows : Table)
      → All (Shrinks p f) rows
      → IsFreshId id rows
      → IsFreshId id (update_where p f rows)
  ids-update id [] s a = tt
  ids-update id (q ∷ rows) s a = elim (Bool-cases (p q)) [
    | inl hit ↦ rw hit (rw (s.0.id) a.0, ids-update id rows s.1 a.1)
    | inr miss ↦ rw miss (a.0, ids-update id rows s.1 a.1)
  ]

  dead-update :
      (key : String) (rows : Table)
      → All (Shrinks p f) rows
      → All (λ q. is_live_for key q ≡ false) rows
      → All (λ q. is_live_for key q ≡ false) (update_where p f rows)
  dead-update key [] s a = tt
  dead-update key (q ∷ rows) s a = elim (Bool-cases (p q)) [
    | inl hit ↦ rw hit (ground (arith, s.0.key, s.0.live hit, a.0), dead-update key rows s.1 a.1)
    | inr miss ↦ rw miss (a.0, dead-update key rows s.1 a.1)
  ]

  UniqueIds-update :
      (rows : Table) → All (Shrinks p f) rows → UniqueIds rows → UniqueIds (update_where p f rows)
  UniqueIds-update [] s u = tt
  UniqueIds-update (q ∷ rows) s u = elim (Bool-cases (p q)) [
    | inl hit ↦ rw (hit, s.0.id) (ids-update q.id rows s.1 u.0, UniqueIds-update rows s.1 u.1)
    | inr miss ↦ rw miss (ids-update q.id rows s.1 u.0, UniqueIds-update rows s.1 u.1)
  ]

  OneLive-update :
      (rows : Table) → All (Shrinks p f) rows → OneLive rows → OneLive (update_where p f rows)
  OneLive-update [] s o = tt
  OneLive-update (q ∷ rows) s o = elim (Bool-cases (p q)) [
    | inl hit ↦
        rw (hit, s.0.key)
          (
            (λ live. dead-update q.dedup_key rows s.1 (o.0 (s.0.live hit live))),
            OneLive-update rows s.1 o.1,
          )
    | inr miss ↦
        rw miss ((λ live. dead-update q.dedup_key rows s.1 (o.0 live)), OneLive-update rows s.1 o.1)
  ]

  pub update-IsWellFormed :
      (rows : Table)
      → All (Shrinks p f) rows
      → IsWellFormed rows
      → IsWellFormed (update_where p f rows)
  update-IsWellFormed rows s wf = record {
    ids = UniqueIds-update rows s wf.ids;
    live = OneLive-update rows s wf.live;
  }

overwrite-Shrinks :
    (kind id : String) (desired : Value) (q : OutboxRow)
    → (q.id ≡ id → is_live q.status ≡ true)
    → Shrinks (λ x. x.id == id) (overwrite kind desired) q
unfolding overwrite
overwrite-Shrinks kind id desired q h = record {
  id = refl;
  key = refl;
  live = λ hit _. h ((eq_iff q.id id).0 hit);
}

-- the row that `find_live` picks is the only one with its id
picked_is_live :
    (kind key : String) (desired : Value) (rows : Table) {r : OutboxRow}
    → UniqueIds rows
    → find_live key rows ≡ some r
    → All (Shrinks (λ q. q.id == r.id) (overwrite kind desired)) rows
picked_is_live kind key desired [] u h = tt
picked_is_live kind key desired (q ∷ rows) {r} u h = elim (find_live_split key q rows h) [
  | inl here ↦ (
    overwrite-Shrinks kind r.id desired q (λ _. ground (arith, here.1)),
    All-map rows
        (λ x ne.
          overwrite-Shrinks kind r.id desired x (λ e. absurd (ne (ap (λ y. y.id) here.0 ∙ sym e))))
        u.0,
  )
  | inr there ↦ (
    overwrite-Shrinks kind r.id desired q
        (λ e. absurd (find_live-All (λ x. q.id ≢ x.id) key rows u.0 there e)),
    picked_is_live kind key desired rows u.1 there,
  )
]

-- `upsert_outbox` with a fresh id keeps the table well-formed: ids stay unique, and no dedup key
-- gets two live rows.
pub upsert-IsWellFormed :
    (id now kind key : String) (desired : Value) (rows : Table)
    → IsFreshId id rows
    → IsWellFormed rows
    → IsWellFormed (upsert_outbox id now kind key desired rows)
unfolding upsert_outbox fresh_row
upsert-IsWellFormed id now kind key desired rows f wf = elim (Option-cases (find_live key rows)) [
  | inl e ↦ rw e (record {
    ids = UniqueIds-append rows (fresh_row id now kind key desired) wf.ids f;
    live = OneLive-append rows (fresh_row id now kind key desired) wf.live (none_live key rows e);
  })
  | inr (r, e) ↦ rw e (
      update-IsWellFormed (λ q. q.id == r.id) (overwrite kind desired) rows
        (picked_is_live kind key desired rows wf.ids e) wf)
]

pub All-always : (P : OutboxRow → Type 0) (rows : Table) → ((q : OutboxRow) → P q) → All P rows
All-always P [] f = tt
All-always P (q ∷ rows) f = (f q, All-always P rows f)

module _ (id : String) (version : ℕ) (rows : Table) (wf : IsWellFormed rows) where
  pub mark_done-IsWellFormed :
      (now : String) (result_ref : Option String)
      → IsWellFormed (outbox_mark_done now id version result_ref rows)
  unfolding outbox_mark_done
  mark_done-IsWellFormed now result_ref =
      update-IsWellFormed _ _ rows
        (All-always _ rows
          λ q. record { id = refl; key = refl; live = λ hit l. absurd (ground arith) })
        wf

  pub mark_retry-IsWellFormed :
      (error next : String) (bump : Bool)
      → IsWellFormed (outbox_mark_retry id version error next bump rows)
  unfolding outbox_mark_retry
  mark_retry-IsWellFormed error next bump =
      update-IsWellFormed _ _ rows
        (All-always _ rows λ q. record { id = refl; key = refl; live = λ hit l. l }) wf

  pub mark_failed-IsWellFormed :
      (failure_kind error : String)
      → IsWellFormed (outbox_mark_failed id version failure_kind error rows)
  unfolding outbox_mark_failed
  mark_failed-IsWellFormed failure_kind error =
      update-IsWellFormed _ _ rows
        (All-always _ rows λ q. record { id = refl; key = refl; live = λ hit l. ground arith }) wf
