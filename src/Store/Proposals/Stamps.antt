-- ===== src/Store/Proposals/Stamps.antt =====
-- src/store/repo.rs: what a batch of ops keeps: the provenance of the tasks in the triage direction,
-- and the closing of the tasks that were carried over.
use sin.Prelude.{
  String, ◌≡◌, refl, sym, ◌∙◌, ap, Bool, true, false, Option, none, some, List, [], ◌∷◌, ◌++◌, ◌==◌,
  All, All-append, All-map, arith, eq_iff, Bool-cases, inl, inr,
}
use sin.Core.Types.{TaskId, TaskStatus, triage_direction_id}
use sin.Core.Transitions.{task_transition_allowed}
use sin.Store.Rows.{
  is_some, column, select, update, update-All, select-All, select-update, key-select,
  column-update_other,
}
use sin.Store.Tables.{TaskRow, Env, Tx, task_key}
use sin.Store.Tables.Statements.{parked, stamp, set_status}
use sin.Store.ApplyOp.Keeps.{Keeps, status_of}
use sin.Store.ApplyOp.Agrees.{column-insert}

-- a task has the two columns of its provenance exactly when it is in the triage direction
abbrev pub IsStamped : TaskRow → Type 0
IsStamped row =
    (is_some row.triage_via ≡ parked row.task.direction_id)
    × (is_some row.triage_entered_at ≡ parked row.task.direction_id)

abbrev pub AllStamped : Tx → Type 0
AllStamped tx = All IsStamped tx.tables.tasks

is_some-stamp : (b : Bool) (s : String) → is_some (stamp b s) ≡ b
is_some-stamp true s = refl
is_some-stamp false s = refl

pub stamps_kept : (env : Env) (source : String) → Keeps env source AllStamped
stamps_kept env source = record {
  clock = λ tx h. h;
  event = λ columns tx named h. h;
  area = λ title slug now tx h. h;
  direction = λ title window now tx h. h;
  backlog = λ d parent title kind energy est now tx h.
      All-append IsStamped tx.tables.tasks _ h
        ((is_some-stamp (parked d) "direct", is_some-stamp (parked d) now), tt);
  planned = λ week place t now tx h. All-append IsStamped tx.tables.tasks _ h (
    (is_some-stamp (parked t.direction_id) "direct", is_some-stamp (parked t.direction_id) now),
    tt,
  );
  status = λ id from to now tx h e a.
      update-All task_key IsStamped (set_status to now) id tx.tables.tasks (λ row s. s) h;
  place = λ id n now tx h. update-All task_key IsStamped _ id tx.tables.tasks (λ row s. s) h;
  rhythm = λ id alloc now tx h. h;
  carried = λ id week now row evals before tx hb f h c i.
      All-append IsStamped tx.tables.tasks _ h
        (select-All task_key IsStamped id before.tables.tasks row hb f, tt);
  assign = λ id d now tx h inbox.
      update-All task_key IsStamped _ id tx.tables.tasks
        (λ row s. (
          is_some-stamp (d == triage_direction_id) source,
          is_some-stamp (d == triage_direction_id) now,
        ))
        h;
  body = λ id text now tx h. h;
}

-- the task that a row was carried over from is closed
abbrev pub IsClosed : List TaskRow → Option TaskId → Type 0
IsClosed tasks none = Unit
IsClosed tasks (some id) =
    column status_of (select task_key id tasks) ≡ some TaskStatus.carried_over

abbrev pub AllClosed : Tx → Type 0
AllClosed tx = All (λ row. IsClosed tx.tables.tasks row.task.carried_from) tx.tables.tasks

-- tasks that were carried over stay so
abbrev ClosedStay : List TaskRow → List TaskRow → Type 0
ClosedStay old new =
    (id : TaskId)
    → column status_of (select task_key id old) ≡ some TaskStatus.carried_over
    → column status_of (select task_key id new) ≡ some TaskStatus.carried_over

stay :
    (old new : List TaskRow)
    → ClosedStay old new
    → (o : Option TaskId) → IsClosed old o
    → IsClosed new o
stay old new h none c = tt
stay old new h (some id) c = h id c

insert_stays : (row : TaskRow) (tasks : List TaskRow) → ClosedStay tasks (tasks ++ (row ∷ []))
insert_stays row tasks id e =
    column-insert task_key status_of id row tasks TaskStatus.carried_over e

insert-AllClosed :
    (row : TaskRow) (tasks : List TaskRow)
    → All (λ r. IsClosed tasks r.task.carried_from) tasks
    → IsClosed (tasks ++ (row ∷ [])) row.task.carried_from
    → All (λ r. IsClosed (tasks ++ (row ∷ [])) r.task.carried_from) (tasks ++ (row ∷ []))
insert-AllClosed row tasks h c =
    All-append (λ r. IsClosed (tasks ++ (row ∷ [])) r.task.carried_from) tasks (row ∷ [])
      (All-map tasks (λ r a. stay _ _ (insert_stays row tasks) r.task.carried_from a) h) (c, tt)

update-AllClosed :
    (set : TaskRow → TaskRow) (id : TaskId) (tasks : List TaskRow)
    → ((row : TaskRow) → (set row).task.carried_from ≡ row.task.carried_from)
    → ClosedStay tasks (update task_key id set tasks)
    → All (λ r. IsClosed tasks r.task.carried_from) tasks
    → All
        (λ r. IsClosed (update task_key id set tasks) r.task.carried_from)
        (update task_key id set tasks)
update-AllClosed set id tasks k s h =
    update-All task_key (λ r. IsClosed (update task_key id set tasks) r.task.carried_from) set id
      tasks (λ row a. rw (k row) a) (All-map tasks (λ r a. stay _ _ s r.task.carried_from a) h)

not_closed :
    (from to : TaskStatus)
    → task_transition_allowed from to ≡ true
    → some from ≡ some TaskStatus.carried_over
    → ⊥
unfolding task_transition_allowed
not_closed from to a e = ground (arith, a, e)

status_stays :
    (id : TaskId) (from to : TaskStatus) (now : String) (tasks : List TaskRow)
    → column status_of (select task_key id tasks) ≡ some from
    → task_transition_allowed from to ≡ true
    → ClosedStay tasks (update task_key id (set_status to now) tasks)
status_stays id from to now tasks known legal j e = elim (Bool-cases (id == j)) [
  | inl same ↦
      let p : id ≡ j = (eq_iff id j).0 same in
      absurd (
        not_closed from to legal
          (sym known ∙ ap (λ x. column status_of (select task_key x tasks)) p ∙ e))
  | inr other ↦ rw (select-update task_key (set_status to now) id j tasks (λ row. refl), other) e
]

pub closed_kept : (env : Env) (source : String) → Keeps env source AllClosed
closed_kept env source = record {
  clock = λ tx h. h;
  event = λ columns tx named h. h;
  area = λ title slug now tx h. h;
  direction = λ title window now tx h. h;
  backlog = λ d parent title kind energy est now tx h. insert-AllClosed _ tx.tables.tasks h tt;
  planned = λ week place t now tx h. insert-AllClosed _ tx.tables.tasks h tt;
  status = λ id from to now tx h e a.
      update-AllClosed (set_status to now) id tx.tables.tasks (λ row. refl)
        (status_stays id from to now tx.tables.tasks e a) h;
  place = λ id n now tx h.
      update-AllClosed _ id tx.tables.tasks (λ row. refl)
        (λ j e.
          column-update_other task_key status_of _ id j tx.tables.tasks (λ row. refl) (λ row. refl)
          ∙ e)
        h;
  rhythm = λ id alloc now tx h. h;
  carried = λ id week now row evals before tx hb f h c i. insert-AllClosed _ tx.tables.tasks h (
      insert_stays _ tx.tables.tasks row.task.id
        (rw (key-select task_key id before.tables.tasks row f) c));
  assign = λ id d now tx h inbox.
      update-AllClosed _ id tx.tables.tasks (λ row. refl)
        (λ j e.
          column-update_other task_key status_of _ id j tx.tables.tasks (λ row. refl) (λ row. refl)
          ∙ e)
        h;
  body = λ id text now tx h. h;
}
