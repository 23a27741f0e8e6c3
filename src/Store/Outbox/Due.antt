-- ===== src/Store/Outbox/Due.antt =====
-- src/store/repo.rs, the outbox: what `outbox_due_pending` hands to the pump, and updates row by row.
use sin.Prelude.{
  sym, ◌∙◌, none, some, ◌&&◌, arith, Option-cases, refl, subst, ◌↔◌, ◌⊎◌, All-map, All-Memᴰ, String,
  ◌≡◌, Bool, true, [], ◌∷◌, All, Bool-cases, inl, inr,
}
use sin.Prelude.Text.{str_leb}
use mathlib.Core.List.{Memᴰ}
use sin.Store.Outbox.{
  OutboxStatus, pending, is_pending, OutboxRow, Table, update_where, insert_by_time, is_due,
  outbox_due_pending,
}

module _ (P : OutboxRow → Type 0) where
  insert-All : (r : OutboxRow) (rows : Table) → P r → All P rows → All P (insert_by_time r rows)
  insert-All r [] p a = (p, tt)
  insert-All r (q ∷ rows) p a = elim (Bool-cases (str_leb r.created_at q.created_at)) [
    | inl le ↦ rw le (p, a)
    | inr gt ↦ rw gt (a.0, insert-All r rows p a.1)
  ]

  -- what is due is in the table
  pub due-All : (now : String) (rows : Table) → All P rows → All P (outbox_due_pending now rows)
  unfolding outbox_due_pending
  due-All now [] a = tt
  due-All now (r ∷ rows) a = elim (Bool-cases (is_due now r)) [
    | inl due ↦ rw due (insert-All r (outbox_due_pending now rows) a.0 (due-All now rows a.1))
    | inr later ↦ rw later (due-All now rows a.1)
  ]

  pub update-All :
      (p : OutboxRow → Bool) (f : OutboxRow → OutboxRow) (rows : Table)
      → ((q : OutboxRow) → p q ≡ true → P q → P (f q))
      → All P rows
      → All P (update_where p f rows)
  update-All p f [] h a = tt
  update-All p f (q ∷ rows) h a = elim (Bool-cases (p q)) [
    | inl hit ↦ rw hit (h q hit a.0, update-All p f rows h a.1)
    | inr miss ↦ rw miss (a.0, update-All p f rows h a.1)
  ]

Mem_insert :
    (r q : OutboxRow) (rows : Table) → (r ≡ q) ⊎ Memᴰ r rows → Memᴰ r (insert_by_time q rows)
Mem_insert r q [] (inl e) = Memᴰ.head e
Mem_insert r q [] (inr m) = elim m [ ]
Mem_insert r q (x ∷ rows) h = elim (Bool-cases (str_leb q.created_at x.created_at)) [
  | inl le ↦ rw le (elim h [ inl e ↦ Memᴰ.head e | inr m ↦ Memᴰ.tail m ])
  | inr gt ↦ rw gt (elim h [
    | inl e ↦ Memᴰ.tail (Mem_insert r q rows (inl e))
    | inr (Memᴰ.head e) ↦ Memᴰ.head e
    | inr (Memᴰ.tail m) ↦ Memᴰ.tail (Mem_insert r q rows (inr m))
  ])
]

pub Mem_due :
    (now : String) (q : OutboxRow) (rows : Table)
    → Memᴰ q rows
    → is_due now q ≡ true
    → Memᴰ q (outbox_due_pending now rows)
unfolding outbox_due_pending
Mem_due now q (x ∷ rows) (Memᴰ.head e) h =
    rw (subst (λ y. is_due now y ≡ true) e h) (Mem_insert q x (outbox_due_pending now rows) (inl e))
Mem_due now q (x ∷ rows) (Memᴰ.tail m) h = elim (Bool-cases (is_due now x)) [
  | inl due ↦ rw due (Mem_insert q x (outbox_due_pending now rows) (inr (Mem_due now q rows m h)))
  | inr later ↦ rw later (Mem_due now q rows m h)
]
Mem_due now q [] m h = elim m [ ]

All-self : (rows : Table) → All (λ x. Memᴰ x rows) rows
All-self [] = tt
All-self (r ∷ rows) = (Memᴰ.head refl, All-map rows (λ x m. Memᴰ.tail m) (All-self rows))

All-is_due :
    (now : String) (rows : Table) → All (λ x. is_due now x ≡ true) (outbox_due_pending now rows)
unfolding outbox_due_pending
All-is_due now [] = tt
All-is_due now (r ∷ rows) = elim (Bool-cases (is_due now r)) [
  | inl due ↦ rw due (
      insert-All (λ x. is_due now x ≡ true) r (outbox_due_pending now rows) due
        (All-is_due now rows))
  | inr later ↦ rw later (All-is_due now rows)
]

-- a row to be sent by a time
pub record IsSendable (now : String) (q : OutboxRow) : Type 0 where
  pub waits : q.status ≡ pending
  pub comes :
      (q.next_attempt_at ≡ none)
      ⊎ ((at : String) × (q.next_attempt_at ≡ some at) × (str_leb at now ≡ true))

is_due-IsSendable : (now : String) (q : OutboxRow) → (is_due now q ≡ true) ↔ IsSendable now q
is_due-IsSendable now q = elim (Option-cases q.next_attempt_at) [
  | inl e ↦ (
    (λ h. record { waits = waiting q.status _ (rw e at h); comes = inl e }),
    (λ s. rw (s.waits, e) refl),
  )
  | inr (at, e) ↦ (
    (λ h. record {
      waits = waiting q.status _ (rw e at h);
      comes = inr (at, e, last _ _ (rw e at h));
    }),
    (λ s. elim s.comes [
      | inl n ↦ absurd (apart (sym e ∙ n))
      | inr (t, f, le) ↦ rw (s.waits, e) (subst (λ x. str_leb x now ≡ true) (same (sym f ∙ e)) le)
    ]),
  )
]
  where
    waiting : (s : OutboxStatus) (b : Bool) → (is_pending s && b) ≡ true → s ≡ pending
    waiting s b h = ground (arith, h)

    last : (a b : Bool) → (a && b) ≡ true → b ≡ true
    last a b h = ground (arith, h)

    apart : {t : String} → some t ≡ none → ⊥
    apart h = cc

    same : {s t : String} → some s ≡ some t → s ≡ t
    same h = cc

-- What `outbox_due_pending` hands to the pump is exactly the rows of the table whose status is pending
-- and whose time for a next attempt is not set or has come.
pub due_exact :
    (now : String) (q : OutboxRow) (rows : Table)
    → Memᴰ q (outbox_due_pending now rows) ↔ (Memᴰ q rows × IsSendable now q)
due_exact now q rows = (
  (λ m. (
    All-Memᴰ (λ x. Memᴰ x rows) (outbox_due_pending now rows) q
        (due-All (λ x. Memᴰ x rows) now rows (All-self rows)) m,
    (is_due-IsSendable now q).0 (
        All-Memᴰ (λ x. is_due now x ≡ true) (outbox_due_pending now rows) q (All-is_due now rows)
          m),
  )),
  (λ p. Mem_due now q rows p.0 ((is_due-IsSendable now q).1 p.1)),
)
