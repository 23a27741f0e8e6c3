-- ===== src/Store/Outbox/Live.antt =====
-- src/store/repo.rs, the outbox: well-formed tables, and `find_live` after `upsert_outbox`.
use sin.Prelude.{
  ◌+◌, String, ◌≡◌, ◌≢◌, ◌⊎◌, refl, subst, true, false, Option, none, some, [], ◌∷◌, ◌++◌, ◌==◌,
  eq_iff, eq_refl, arith, if◌then◌else◌, All, All-map, Bool-cases, Option-cases, inl, inr,
}
use sin.Store.Json.{Value}
use sin.Store.Outbox.{
  OutboxRow, Table, pending, is_live, is_live_for, find_live, overwrite, fresh_row, update_where,
  upsert_outbox,
}

-- the primary key, and at most one pending or failed row for each dedup key
abbrev pub UniqueIds : Table → Type 0
UniqueIds [] = Unit
UniqueIds (r ∷ rows) = All (λ q. r.id ≢ q.id) rows × UniqueIds rows

abbrev pub OneLive : Table → Type 0
OneLive [] = Unit
OneLive (r ∷ rows) =
    (is_live r.status ≡ true → All (λ q. is_live_for r.dedup_key q ≡ false) rows) × OneLive rows

pub record IsWellFormed (rows : Table) : Type 0 where
  pub ids : UniqueIds rows
  pub live : OneLive rows

pub find_live_split :
    (key : String) (q : OutboxRow) (rows : Table) {r : OutboxRow}
    → find_live key (q ∷ rows) ≡ some r
    → ((q ≡ r) × (is_live_for key q ≡ true)) ⊎ (find_live key rows ≡ some r)
unfolding find_live
find_live_split key q rows {r} h = ground arith

-- a row that `find_live` picks is one of the table
pub find_live-All :
    (P : OutboxRow → Type 0) (key : String) (rows : Table) {r : OutboxRow}
    → All P rows
    → find_live key rows ≡ some r
    → P r
unfolding find_live
find_live-All P key [] a h = absurd (ground arith)
find_live-All P key (q ∷ rows) {r} a h = elim (find_live_split key q rows h) [
  | inl p ↦ subst P p.0 a.0
  | inr p ↦ find_live-All P key rows a.1 p
]

pub find_live_is_live :
    (key : String) (rows : Table) {r : OutboxRow}
    → find_live key rows ≡ some r
    → is_live_for key r ≡ true
unfolding find_live
find_live_is_live key [] h = absurd (ground arith)
find_live_is_live key (q ∷ rows) {r} h = elim (find_live_split key q rows h) [
  | inl p ↦ subst (λ x. is_live_for key x ≡ true) p.0 p.1
  | inr p ↦ find_live_is_live key rows p
]

pub find_live-none :
    (key : String) (rows : Table)
    → All (λ q. is_live_for key q ≡ false) rows
    → find_live key rows ≡ none
unfolding find_live
find_live-none key [] a = refl
find_live-none key (q ∷ rows) a = ground (arith, find_live-none key rows a.1)

none_live_head :
    (key : String) (q : OutboxRow) (rows : Table)
    → find_live key (q ∷ rows) ≡ none
    → (is_live_for key q ≡ false) × (find_live key rows ≡ none)
unfolding find_live
none_live_head key q rows h = (ground arith, ground arith)

pub none_live :
    (key : String) (rows : Table)
    → find_live key rows ≡ none
    → All (λ q. is_live_for key q ≡ false) rows
none_live key [] h = tt
none_live key (q ∷ rows) h =
    let (other, rest) = none_live_head key q rows h in (other, none_live key rows rest)

-- in a well-formed table a live row is the one that `find_live` picks
find_live_here :
    (key : String) (q : OutboxRow) (rows : Table)
    → OneLive (q ∷ rows)
    → is_live_for key q ≡ true
    → (find_live key (q ∷ rows) ≡ some q) × (find_live key rows ≡ none)
unfolding find_live
find_live_here key q rows one live =
    let same : q.dedup_key ≡ key = ground (arith, eq_iff q.dedup_key key) in
    let alone = find_live-none q.dedup_key rows (one.0 (ground arith)) in
    let none_left : find_live key rows ≡ none = rw same at alone in (ground arith, none_left)

pub live_found :
    (key : String) (rows : Table)
    → OneLive rows
    → All (λ q. is_live_for key q ≡ true → find_live key rows ≡ some q) rows
unfolding find_live
live_found key [] o = tt
live_found key (h ∷ rows) o = (
  (λ live. (find_live_here key h rows o live).0),
  All-map rows
      (λ q there live. elim (Bool-cases (is_live_for key h)) [
        | inl here ↦ absurd (ground (arith, (find_live_here key h rows o here).1, there live))
        | inr other ↦ rw other (there live)
      ])
      (live_found key rows o.1),
)

update_none :
    (id : String) (f : OutboxRow → OutboxRow) (rows : Table)
    → All (λ q. id ≢ q.id) rows
    → update_where (λ q. q.id == id) f rows ≡ rows
update_none id f [] a = refl
update_none id f (q ∷ rows) a = ground (arith, eq_iff q.id id, a.0, update_none id f rows a.1)

overwrite_here :
    (kind key j : String) (desired : Value) (q : OutboxRow) (rows : Table)
    → UniqueIds (q ∷ rows)
    → OneLive (q ∷ rows)
    → is_live_for key q ≡ true
    → find_live j (update_where (λ x. x.id == q.id) (overwrite kind desired) (q ∷ rows))
      ≡ (if key == j then some (overwrite kind desired q) else find_live j (q ∷ rows))
unfolding find_live overwrite
overwrite_here kind key j desired q rows u o live =
    let tail = update_none q.id (overwrite kind desired) rows u.0 in
    let none_left = (find_live_here key q rows o live).1 in
    let at_j : key ≡ j → find_live j rows ≡ none = λ e. rw e at none_left in
    rw (tail, eq_refl q.id)
      (ground
        (arith, none_left, live, eq_iff q.dedup_key key, eq_iff key j, eq_iff q.dedup_key j, at_j))

overwrite_there :
    (kind key j : String) (desired : Value) (q r : OutboxRow) (rows : Table)
    → q.id ≢ r.id
    → is_live_for key q ≡ false
    → find_live j (update_where (λ x. x.id == r.id) (overwrite kind desired) rows)
      ≡ (if key == j then some (overwrite kind desired r) else find_live j rows)
    → find_live j (update_where (λ x. x.id == r.id) (overwrite kind desired) (q ∷ rows))
      ≡ (if key == j then some (overwrite kind desired r) else find_live j (q ∷ rows))
unfolding find_live
overwrite_there kind key j desired q r rows ne other ih = elim (Bool-cases (q.id == r.id)) [
  | inl same ↦ absurd (ne ((eq_iff q.id r.id).0 same))
  | inr differ ↦ rw (differ, ih) (ground (arith, other, eq_iff key j))
]

-- the effect of the overwrite on every key
find_live-overwrite :
    (kind key j : String) (desired : Value) (rows : Table) (r : OutboxRow)
    → UniqueIds rows
    → OneLive rows
    → find_live key rows ≡ some r
    → find_live j (update_where (λ q. q.id == r.id) (overwrite kind desired) rows)
      ≡ (if key == j then some (overwrite kind desired r) else find_live j rows)
find_live-overwrite kind key j desired [] r u o h = absurd (unfold find_live in ground arith)
find_live-overwrite kind key j desired (q ∷ rows) r u o h = elim (Bool-cases (is_live_for key q)) [
  | inl live ↦
      let e : q ≡ r = ground (arith, (find_live_here key q rows o live).0) in
      subst
        (λ x.
          find_live j (update_where (λ y. y.id == x.id) (overwrite kind desired) (q ∷ rows))
          ≡ (if key == j then some (overwrite kind desired x) else find_live j (q ∷ rows)))
        e (overwrite_here kind key j desired q rows u o live)
  | inr other ↦
      let h' : find_live key rows ≡ some r = unfold find_live in ground arith in
      overwrite_there kind key j desired q r rows (find_live-All (λ x. q.id ≢ x.id) key rows u.0 h')
        other (find_live-overwrite kind key j desired rows r u.1 o.1 h')
]

find_live-append :
    (j : String) (rows : Table) (r : OutboxRow)
    → All (λ q. is_live_for r.dedup_key q ≡ false) rows
    → is_live r.status ≡ true
    → find_live j (rows ++ r ∷ []) ≡ (if r.dedup_key == j then some r else find_live j rows)
unfolding find_live
find_live-append j [] r a live = ground arith
find_live-append j (q ∷ rows) r a live =
    rw (find_live-append j rows r a.1 live) (ground (arith, a.0, eq_iff r.dedup_key j))

-- the row that `upsert_outbox` leaves for its key
abbrev pub intent : (id now kind key : String) → Value → Option OutboxRow → OutboxRow
intent id now kind key desired (some r) = overwrite kind desired r
intent id now kind key desired none = fresh_row id now kind key desired

-- the live row of each key after `upsert_outbox`
pub find_live-upsert :
    (id now kind key j : String) (desired : Value) (rows : Table)
    → IsWellFormed rows
    → find_live j (upsert_outbox id now kind key desired rows) ≡ (
        if key == j
        then some (intent id now kind key desired (find_live key rows))
        else find_live j rows)
unfolding upsert_outbox fresh_row
find_live-upsert id now kind key j desired rows wf = elim (Option-cases (find_live key rows)) [
  | inl e ↦
      rw e (find_live-append j rows (fresh_row id now kind key desired) (none_live key rows e) refl)
  | inr (r, e) ↦ rw e (find_live-overwrite kind key j desired rows r wf.ids wf.live e)
]

-- what a new intent keeps of the live row that it replaces: its id and its time, under the next version
abbrev pub Continues : (id now : String) → OutboxRow → Option OutboxRow → Type 0
Continues id now r none = (r.id ≡ id) × (r.created_at ≡ now) × (r.version ≡ 1)
Continues id now r (some old) =
    (r.id ≡ old.id) × (r.created_at ≡ old.created_at) × (r.version ≡ old.version + 1)

-- a row that says what is asked for, and of which no attempt was made
pub record IsIntent (asked name : String) (payload : Value) (r : OutboxRow) : Type 0 where
  pub kind : r.kind ≡ asked
  pub key : r.dedup_key ≡ name
  pub desired : r.desired ≡ payload
  pub status : r.status ≡ pending
  pub attempts : r.attempts ≡ 0
  pub other_bucket_attempts : r.other_bucket_attempts ≡ 0
  pub failure_kind : r.failure_kind ≡ none
  pub last_error : r.last_error ≡ none
  pub next_attempt_at : r.next_attempt_at ≡ none

key_of_live : (key : String) (r : OutboxRow) → is_live_for key r ≡ true → r.dedup_key ≡ key
key_of_live key r h = (eq_iff r.dedup_key key).0 (ground (arith, h))

intent-IsIntent :
    (id now kind key : String) (desired : Value) (rows : Table) (o : Option OutboxRow)
    → find_live key rows ≡ o
    → IsIntent kind key desired (intent id now kind key desired o)
      × Continues id now (intent id now kind key desired o) o
unfolding overwrite fresh_row
intent-IsIntent id now kind key desired rows none e = (
  record {
    kind = refl;
    key = refl;
    desired = refl;
    status = refl;
    attempts = refl;
    other_bucket_attempts = refl;
    failure_kind = refl;
    last_error = refl;
    next_attempt_at = refl;
  },
  (refl, refl, refl),
)
intent-IsIntent id now kind key desired rows (some old) e = (
  record {
    kind = refl;
    key = key_of_live key old (find_live_is_live key rows e);
    desired = refl;
    status = refl;
    attempts = refl;
    other_bucket_attempts = refl;
    failure_kind = refl;
    last_error = refl;
    next_attempt_at = refl;
  },
  (refl, refl, refl),
)

-- In a well-formed table `upsert_outbox` makes the live row of its key a pending row of the kind and
-- with the payload that are asked for, with no attempts, no error and no time to wait for. It has the
-- id and time of the live row that was there, under the next version, or the new id and time, under
-- version 1, where none was. The live row of every other key is left as it was.
pub upsert_outbox-IsIntent :
    (id now kind key : String) (desired : Value) (rows : Table)
    → IsWellFormed rows
    → ((r : OutboxRow) × (find_live key (upsert_outbox id now kind key desired rows) ≡ some r)
        × IsIntent kind key desired r
        × Continues id now r (find_live key rows))
      × ((j : String)
          → key ≢ j
          → find_live j (upsert_outbox id now kind key desired rows) ≡ find_live j rows)
upsert_outbox-IsIntent id now kind key desired rows wf =
    let (says, continues) =
      intent-IsIntent id now kind key desired rows (find_live key rows) refl in
    (
      (
        intent id now kind key desired (find_live key rows),
        rw (eq_refl key) at (find_live-upsert id now kind key key desired rows wf),
        says,
        continues,
      ),
      (λ j ne. rw (unequal j ne) at (find_live-upsert id now kind key j desired rows wf)),
    )
  where
    unequal : (j : String) → key ≢ j → (key == j) ≡ false
    unequal j ne = elim (Bool-cases (key == j)) [
      | inl e ↦ absurd (ne ((eq_iff key j).0 e))
      | inr e ↦ e
    ]
