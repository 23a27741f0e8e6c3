-- ===== src/Store/Routines/Rows.antt =====
-- src/store/repo.rs: the rows of the table of routines under `SELECT` and `UPDATE` by id.
use sin.Prelude.{
  ◌≡◌, ◌≢◌, refl, sym, ◌∙◌, ap, Bool, true, false, none, some, List, [], ◌∷◌, ◌==◌, arith, eq_iff,
  All, All-map, Bool-cases, inl, inr,
}
use sin.Core.Types.{RoutineId, Routine}
use sin.Store.Routines.{RoutineRow, find_routine, update_rows}

-- the primary key
abbrev pub UniqueRoutines : List RoutineRow → Type 0
UniqueRoutines [] = Unit
UniqueRoutines (row ∷ rows) = All (λ x. row.routine.id ≢ x.routine.id) rows × UniqueRoutines rows

pub find_routine_id :
    (id : RoutineId) (rows : List RoutineRow) {r : Routine}
    → find_routine id rows ≡ some r
    → r.id ≡ id
unfolding find_routine
find_routine_id id [] h = absurd (ground arith)
find_routine_id id (row ∷ rows) {r} h = elim (Bool-cases (row.routine.id == id)) [
  | inl hit ↦ ap (λ x. x.id) (sym (some-injective (rw hit at h))) ∙ (eq_iff row.routine.id id).0 hit
  | inr miss ↦ find_routine_id id rows (rw miss at h)
]
  where
    some-injective : {a b : Routine} → some a ≡ some b → a ≡ b
    some-injective e = cc

-- the row that is found is the only one with its id
pub find_routine_only :
    (id : RoutineId) (rows : List RoutineRow) {r : Routine}
    → UniqueRoutines rows
    → find_routine id rows ≡ some r
    → All (λ row. row.routine.id ≡ id → row.routine ≡ r) rows
unfolding find_routine
find_routine_only id [] u h = tt
find_routine_only id (row ∷ rows) {r} u h = elim (Bool-cases (row.routine.id == id)) [
  | inl hit ↦
      let same = (eq_iff row.routine.id id).0 hit in
      ((λ _. some-injective (rw hit at h)), All-map rows (λ x ne e. absurd (ne (same ∙ sym e))) u.0)
  | inr miss ↦ (
    (λ e. absurd (apart miss ((eq_iff row.routine.id id).1 e))),
    find_routine_only id rows u.1 (rw miss at h),
  )
]
  where
    some-injective : {a b : Routine} → some a ≡ some b → a ≡ b
    some-injective e = cc

    apart : {b : Bool} → b ≡ false → b ≡ true → ⊥
    apart f t = absurd (ground arith)

pub find_routine-none :
    (id : RoutineId) (rows : List RoutineRow)
    → find_routine id rows ≡ none
    → All (λ row. id ≢ row.routine.id) rows
unfolding find_routine
find_routine-none id [] h = tt
find_routine-none id (row ∷ rows) h = elim (Bool-cases (row.routine.id == id)) [
  | inl hit ↦ absurd (taken (rw hit at h))
  | inr miss ↦ (
    (λ e. absurd (ground (arith, eq_iff row.routine.id id))),
    find_routine-none id rows (rw miss at h),
  )
]
  where
    taken : {r : Routine} → some r ≡ none → ⊥
    taken e = cc

pub update_rows-All :
    (P Q : RoutineRow → Type 0) (id : RoutineId) (f : RoutineRow → RoutineRow)
    (rows : List RoutineRow)
    → ((row : RoutineRow) → row.routine.id ≡ id → P row → Q (f row))
    → ((row : RoutineRow) → id ≢ row.routine.id → P row → Q row)
    → All P rows
    → All Q (update_rows id f rows)
unfolding update_rows
update_rows-All P Q id f [] hit miss a = tt
update_rows-All P Q id f (row ∷ rows) hit miss a =
    let rest = update_rows-All P Q id f rows hit miss a.1 in
    elim (Bool-cases (row.routine.id == id)) [
      | inl e ↦ rw e (hit row ((eq_iff row.routine.id id).0 e) a.0, rest)
      | inr e ↦
          rw e (miss row (λ same. absurd (ground (arith, eq_iff row.routine.id id))) a.0, rest)
    ]

pub UniqueRoutines-update :
    (id : RoutineId) (f : RoutineRow → RoutineRow) (rows : List RoutineRow)
    → ((row : RoutineRow) → row.routine.id ≡ id → (f row).routine.id ≡ row.routine.id)
    → UniqueRoutines rows
    → UniqueRoutines (update_rows id f rows)
unfolding update_rows
UniqueRoutines-update id f [] keep u = tt
UniqueRoutines-update id f (row ∷ rows) keep u =
    let rest = UniqueRoutines-update id f rows keep u.1 in
    let apart =
      update_rows-All (λ x. row.routine.id ≢ x.routine.id) (λ x. row.routine.id ≢ x.routine.id) id f
        rows (λ x e ne same. ne (same ∙ keep x e)) (λ x e ne. ne) u.0 in
    elim (Bool-cases (row.routine.id == id)) [
      | inl e ↦ rw (e, keep row ((eq_iff row.routine.id id).0 e)) (apart, rest)
      | inr e ↦ rw e (apart, rest)
    ]

-- the routine that is found after an `UPDATE` of the row with its id, and of another row
module _ (id : RoutineId) (f : RoutineRow → RoutineRow)
    (keeps : (row : RoutineRow) → (f row).routine.id ≡ row.routine.id) where
  pub find_routine-update_rows :
      (g : Routine → Routine) (rows : List RoutineRow) {r : Routine}
      → ((row : RoutineRow) → (f row).routine ≡ g row.routine)
      → find_routine id rows ≡ some r
      → find_routine id (update_rows id f rows) ≡ some (g r)
  unfolding find_routine update_rows
  find_routine-update_rows g [] acts h = absurd (ground (arith, h))
  find_routine-update_rows g (row ∷ rows) {r} acts h = elim (Bool-cases (row.routine.id == id)) [
    | inl hit ↦
        let one : row.routine ≡ r = some-injective (rw hit at h) in
        let still : ((f row).routine.id == id) ≡ true = ap (λ k. k == id) (keeps row) ∙ hit in
        rw (hit, still) (ap some (acts row) ∙ ap (λ x. some (g x)) one)
    | inr miss ↦ rw (miss, miss) (find_routine-update_rows g rows acts (rw miss at h))
  ]
    where
      some-injective : {a b : Routine} → some a ≡ some b → a ≡ b
      some-injective e = cc

  pub find_routine-update_rows_other :
      (j : RoutineId) (rows : List RoutineRow)
      → id ≢ j
      → find_routine j (update_rows id f rows) ≡ find_routine j rows
  unfolding find_routine update_rows
  find_routine-update_rows_other j [] ne = refl
  find_routine-update_rows_other j (row ∷ rows) ne =
      let rest = find_routine-update_rows_other j rows ne in
      elim (Bool-cases (row.routine.id == id)) [
        | inl hit ↦
            let apart : (row.routine.id == j) ≡ false =
              ground (arith, eq_iff row.routine.id id, eq_iff row.routine.id j, ne) in
            rw (hit, keeps row, apart, rest) refl
        | inr miss ↦ rw (miss, rest) refl
      ]
