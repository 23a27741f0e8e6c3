-- ===== src/Adapter/Reconcile/Maps.antt =====
-- src/adapter_agent24/reconciler.rs: what the two maps of a full pass hold.
use mathlib.Core.List.{Memᴰ}
use sin.Prelude.{
  String, ◌≡◌, ◌≢◌, ◌↔◌, refl, sym, true, false, none, some, List, [], ◌∷◌, ◌==◌, All, arith,
  eq_refl, eq_iff, subst, Bool-cases, inl, inr,
}
use sin.Prelude.Text.{str_ltb}
use sin.Core.Types.{RoutineStatus}
use sin.Store.Routines.{RoutineRow, routine_kernel_key, is_active}
use sin.Adapter.Reconcile.{
  ModuleScheduleState, LocalDesired, insert, find, is_retired, local_from, local_desired_map,
  kernel_from, kernel_map,
}

module _ {V : Type 0} where
  insert-All :
      (P : String × V → Type 0) (key : String) (value : V) (l : List (String × V))
      → P (key, value)
      → All P l
      → All P (insert key value l)
  insert-All P key value [] p a = (p, tt)
  insert-All P key value ((other, old) ∷ l) p a = elim (Bool-cases (str_ltb key other)) [
    | inl lt ↦ rw lt (p, a)
    | inr ge ↦ elim (Bool-cases (key == other)) [
      | inl e ↦ rw (ge, e) (p, a.1)
      | inr ne ↦ rw (ge, ne) (a.0, insert-All P key value l p a.1)
    ]
  ]

  found : {v : V} → some v ≡ none → ⊥
  found h = cc

  find-insert :
      (key : String) (value : V) (l : List (String × V)) → find key (insert key value l) ≢ none
  unfolding find
  find-insert key value [] = λ h. found (rw (eq_refl key) at h)
  find-insert key value ((other, old) ∷ l) = elim (Bool-cases (str_ltb key other)) [
    | inl lt ↦ rw lt λ h. found (rw (eq_refl key) at h)
    | inr ge ↦ elim (Bool-cases (key == other)) [
      | inl e ↦ rw (ge, e) λ h. found (rw (eq_refl key) at h)
      | inr ne ↦
          rw (ge, ne)
            (elim (Bool-cases (other == key)) [
              | inl e ↦ rw e λ h. found h
              | inr d ↦ rw d (find-insert key value l)
            ])
    ]
  ]

  find-insert_other :
      (key j : String) (value : V) (l : List (String × V))
      → find j l ≢ none
      → find j (insert key value l) ≢ none
  unfolding find
  find-insert_other key j value [] there = absurd (there refl)
  find-insert_other key j value ((other, old) ∷ l) there = elim (Bool-cases (str_ltb key other)) [
    | inl lt ↦
        rw lt (elim (Bool-cases (key == j)) [ inl k ↦ rw k λ h. found h | inr k ↦ rw k there ])
    | inr ge ↦ elim (Bool-cases (key == other)) [
      | inl e ↦
          rw (ge, e)
            (elim (Bool-cases (key == j)) [
              | inl k ↦ rw k λ h. found h
              | inr k ↦
                  let o : (other == j) ≡ false =
                    ground (arith, eq_iff key other, eq_iff key j, e, k) in
                  rw k (rw o at there)
            ])
      | inr ne ↦
          rw (ge, ne)
            (elim (Bool-cases (other == j)) [
              | inl k ↦ rw k λ h. found h
              | inr k ↦ rw k (find-insert_other key j value l (rw k at there))
            ])
    ]
  ]

-- the entry of the map that a routine asks for
abbrev entry_of : RoutineRow → LocalDesired
entry_of row = record {
  routine_id = row.routine.id;
  cron = row.routine.cron;
  tz = row.routine.tz;
  enabled = is_active row.routine.status;
}

not_retired : (s : RoutineStatus) → is_retired s ≡ false → s ≢ RoutineStatus.retired
not_retired s h e = absurd (ground (arith, rw e at h))

local_from-All :
    (P : String × LocalDesired → Type 0) (rows : List RoutineRow)
    (local : List (String × LocalDesired))
    → ((row : RoutineRow)
        → Memᴰ row rows
        → row.routine.status ≢ RoutineStatus.retired
        → P (routine_kernel_key row.routine.id, entry_of row))
    → All P local
    → All P (local_from local rows)
unfolding local_from
local_from-All P [] local f a = a
local_from-All P (row ∷ rows) local f a = elim (Bool-cases (is_retired row.routine.status)) [
  | inl r ↦ rw r (local_from-All P rows local (λ x m. f x (Memᴰ.tail m)) a)
  | inr r ↦ rw r (
      local_from-All P rows _ (λ x m. f x (Memᴰ.tail m))
        (insert-All P _ (entry_of row) local
          (f row (Memᴰ.head refl) (not_retired row.routine.status r)) a))
]

local_from-keeps :
    (rows : List RoutineRow) (local : List (String × LocalDesired)) (j : String)
    → find j local ≢ none
    → find j (local_from local rows) ≢ none
unfolding local_from
local_from-keeps [] local j h = h
local_from-keeps (row ∷ rows) local j h = elim (Bool-cases (is_retired row.routine.status)) [
  | inl r ↦ rw r (local_from-keeps rows local j h)
  | inr r ↦ rw r (local_from-keeps rows _ j (find-insert_other _ j (entry_of row) local h))
]

local_from-finds :
    (rows : List RoutineRow) (local : List (String × LocalDesired)) (row : RoutineRow)
    → Memᴰ row rows
    → row.routine.status ≢ RoutineStatus.retired
    → find (routine_kernel_key row.routine.id) (local_from local rows) ≢ none
unfolding local_from
local_from-finds (x ∷ rows) local row (Memᴰ.head e) open_ =
    elim (Bool-cases (is_retired x.routine.status)) [
      | inl r ↦ absurd (
          open_ (
            subst (λ y. y.routine.status ≡ RoutineStatus.retired) (sym e)
              (retired x.routine.status r)))
      | inr r ↦ rw r (
          local_from-keeps rows _ (routine_kernel_key row.routine.id) (
            subst
              (λ y.
                find (routine_kernel_key y.routine.id)
                  (insert (routine_kernel_key x.routine.id) (entry_of x) local)
                ≢ none)
              (sym e) (find-insert (routine_kernel_key x.routine.id) (entry_of x) local)))
    ]
  where
    retired : (s : RoutineStatus) → is_retired s ≡ true → s ≡ RoutineStatus.retired
    retired s h = ground (arith, h)
local_from-finds (x ∷ rows) local row (Memᴰ.tail m) open_ = local_from-finds rows _ row m open_
local_from-finds [] local row m open_ = elim m [ ]

kernel_from-All :
    (P : String × ModuleScheduleState → Type 0) (schedules : List ModuleScheduleState)
    (kernel : List (String × ModuleScheduleState))
    → ((s : ModuleScheduleState) → Memᴰ s schedules → P (s.key, s))
    → All P kernel
    → All P (kernel_from kernel schedules)
unfolding kernel_from
kernel_from-All P [] kernel f a = a
kernel_from-All P (s ∷ schedules) kernel f a =
    kernel_from-All P schedules _ (λ x m. f x (Memᴰ.tail m))
      (insert-All P s.key s kernel (f s (Memᴰ.head refl)) a)

kernel_from-keeps :
    (schedules : List ModuleScheduleState) (kernel : List (String × ModuleScheduleState))
    (j : String)
    → find j kernel ≢ none
    → find j (kernel_from kernel schedules) ≢ none
unfolding kernel_from
kernel_from-keeps [] kernel j h = h
kernel_from-keeps (s ∷ schedules) kernel j h =
    kernel_from-keeps schedules _ j (find-insert_other s.key j s kernel h)

kernel_from-finds :
    (schedules : List ModuleScheduleState) (kernel : List (String × ModuleScheduleState))
    (s : ModuleScheduleState)
    → Memᴰ s schedules
    → find s.key (kernel_from kernel schedules) ≢ none
unfolding kernel_from
kernel_from-finds (x ∷ schedules) kernel s (Memᴰ.head e) =
    kernel_from-keeps schedules _ s.key
      (subst (λ y. find y.key (insert x.key x kernel) ≢ none) (sym e) (find-insert x.key x kernel))
kernel_from-finds (x ∷ schedules) kernel s (Memᴰ.tail m) = kernel_from-finds schedules _ s m
kernel_from-finds [] kernel s m = elim m [ ]

-- the entry is that of a routine that is not retired
abbrev pub IsDesired : List RoutineRow → String × LocalDesired → Type 0
IsDesired rows (key, desired) =
    (row : RoutineRow) × Memᴰ row rows
    × (row.routine.status ≢ RoutineStatus.retired)
    × (key ≡ routine_kernel_key row.routine.id)
    × (desired.routine_id ≡ row.routine.id)
    × (desired.cron ≡ row.routine.cron)
    × (desired.tz ≡ row.routine.tz)
    × ((desired.enabled ≡ true) ↔ (row.routine.status ≡ RoutineStatus.active))

-- a map has an entry for each routine that is not retired, and no other
pub record IsLocalMap (rows : List RoutineRow) (local : List (String × LocalDesired)) : Type 0 where
  pub desired : All (IsDesired rows) local
  pub complete :
      (row : RoutineRow)
      → Memᴰ row rows
      → row.routine.status ≢ RoutineStatus.retired
      → find (routine_kernel_key row.routine.id) local ≢ none

-- a map has the listed schedules under their keys, and no other
pub record IsKernelMap (schedules : List ModuleScheduleState)
    (kernel : List (String × ModuleScheduleState)) : Type 0 where
  pub listed : All (λ (key, state). Memᴰ state schedules × (key ≡ state.key)) kernel
  pub complete : (state : ModuleScheduleState) → Memᴰ state schedules → find state.key kernel ≢ none

active : (s : RoutineStatus) → (is_active s ≡ true) ↔ (s ≡ RoutineStatus.active)
active s = ((λ h. ground (arith, h)), (λ e. rw e refl))

pub local_desired_map-IsLocalMap :
    (rows : List RoutineRow) → IsLocalMap rows (local_desired_map rows)
unfolding local_desired_map
local_desired_map-IsLocalMap rows = record {
  desired =
      local_from-All (IsDesired rows) rows []
        (λ row m open_. (row, m, open_, refl, refl, refl, refl, active row.routine.status)) tt;
  complete = local_from-finds rows [];
}

pub kernel_map-IsKernelMap :
    (schedules : List ModuleScheduleState) → IsKernelMap schedules (kernel_map schedules)
unfolding kernel_map
kernel_map-IsKernelMap schedules = record {
  listed =
      kernel_from-All (λ (key, state). Memᴰ state schedules × (key ≡ state.key)) schedules []
        (λ s m. (m, refl)) tt;
  complete = kernel_from-finds schedules [];
}
