-- ===== src/Store/Rows.antt =====
-- A SQL table with a text as its primary key: the list of its rows in rowid order. A statement that
-- names a row by its key is a function on the list.
use sin.Prelude.{
  String, ◌≡◌, refl, sym, ◌∙◌, Bool, true, false, Option, none, some, List, [], ◌∷◌, ◌++◌, ◌==◌,
  arith, Bool-cases, Option-cases, ap, subst, inl, inr, eq_iff, eq_refl, if◌then◌else◌, All,
}

abbrev pub is_some {ℓ} : {A : Type ℓ} → Option A → Bool
is_some none = false
is_some (some a) = true

some-injective : {A : Type 0} (a b : A) → some a ≡ some b → a ≡ b
some-injective a b h = cc

-- `INSERT INTO ...`
abbrev pub append {ℓ} : {A : Type ℓ} → List A → A → List A
append rows row = rows ++ (row ∷ [])

-- a column of the row that was found
abbrev pub column {ℓ κ} : {A : Type ℓ} {B : Type κ} → (A → B) → Option A → Option B
column f none = none
column f (some a) = some (f a)

pub is_some-column {ℓ κ} :
    {A : Type ℓ} {B : Type κ} (f : A → B) (o : Option A) {b : B}
    → column f o ≡ some b
    → is_some o ≡ true
is_some-column f none {b = b} e = absurd (none-some e)
  where
    none-some : none ≡ some b → ⊥
    none-some h = cc
is_some-column f (some a) e = refl

module _ {A : Type 0} (key : A → String) where
  -- `SELECT ... WHERE key = ?`
  unfoldable pub select : String → List A → Option A
  select id [] = none
  select id (row ∷ rows) = let rest = select id rows in if key row == id then some row else rest

  -- `UPDATE ... SET ... WHERE key = ?`
  unfoldable pub update : String → (A → A) → List A → List A
  update id set [] = []
  update id set (row ∷ rows) =
      let rest = update id set rows in if key row == id then set row ∷ rest else row ∷ rest

  pub select-insert :
      (id : String) (row found : A) (rows : List A)
      → select id rows ≡ some found
      → select id (rows ++ (row ∷ [])) ≡ some found
  unfolding select
  select-insert id row found [] e = cc
  select-insert id row found (r ∷ rows) e = elim (Bool-cases (key r == id)) [
    | inl same ↦ rw same (rw same at e)
    | inr other ↦ rw other (select-insert id row found rows (rw other at e))
  ]

  pub select-inserted :
      (row : A) (rows : List A)
      → select (key row) rows ≡ none
      → select (key row) (rows ++ (row ∷ [])) ≡ some row
  unfolding select
  select-inserted row [] e = ground (arith, eq_iff (key row) (key row))
  select-inserted row (r ∷ rows) e = ground (arith, select-inserted row rows)

  pub select-update :
      (set : A → A) (id j : String) (rows : List A)
      → ((row : A) → key (set row) ≡ key row)
      → select j (update id set rows)
        ≡ (if id == j then column set (select j rows) else select j rows)
  unfolding select update
  select-update set id j [] k = ground arith
  select-update set id j (r ∷ rows) k =
      let ih = select-update set id j rows k in
      elim (Bool-cases (key r == id)) [
        | inl same ↦
            let p : key r ≡ id = (eq_iff (key r) id).0 same in
            elim (Bool-cases (id == j)) [
              | inl q ↦ rw (same, k r, p, q) refl
              | inr q ↦ rw (same, k r, p, q, ih, q) refl
            ]
        | inr other ↦ elim (Bool-cases (key r == j)) [
          | inl q ↦
              let p : key r ≡ j = (eq_iff (key r) j).0 q in
              let apart : (id == j) ≡ false = ground (arith, eq_iff id j, eq_iff (key r) id) in
              rw (other, q, apart) refl
          | inr q ↦ rw (other, q, ih) refl
        ]
      ]

  -- a column after an update: one that the update sets, and one that it leaves
  pub column-update {κ} :
      {B : Type κ} (f : A → B) (b : B) (set : A → A) (id j : String) (rows : List A)
      → ((row : A) → key (set row) ≡ key row)
      → ((row : A) → f (set row) ≡ b)
      → is_some (select id rows) ≡ true
      → column f (select j (update id set rows))
        ≡ (if id == j then some b else column f (select j rows))
  column-update f b set id j rows k h e = elim (Bool-cases (id == j)) [
    | inl same ↦
        let p : id ≡ j = (eq_iff id j).0 same in
        elim (Option-cases (select j rows)) [
          | inl q ↦ absurd (cc (ap (λ x. is_some (select x rows)) p, ap is_some q))
          | inr (row, q) ↦ rw (select-update set id j rows k, same, q) (ap some (h row))
        ]
    | inr other ↦ rw (select-update set id j rows k, other) refl
  ]

  pub column-update_other {κ} :
      {B : Type κ} (f : A → B) (set : A → A) (id j : String) (rows : List A)
      → ((row : A) → key (set row) ≡ key row)
      → ((row : A) → f (set row) ≡ f row)
      → column f (select j (update id set rows)) ≡ column f (select j rows)
  column-update_other f set id j rows k h = elim (Bool-cases (id == j)) [
    | inl same ↦ elim (Option-cases (select j rows)) [
      | inl q ↦ rw (select-update set id j rows k, same, q) refl
      | inr (row, q) ↦ rw (select-update set id j rows k, same, q) (ap some (h row))
    ]
    | inr other ↦ rw (select-update set id j rows k, other) refl
  ]

  pub update-All {κ} :
      (P : A → Type κ) (set : A → A) (id : String) (rows : List A)
      → ((row : A) → P row → P (set row))
      → All P rows
      → All P (update id set rows)
  unfolding update
  update-All P set id [] h a = tt
  update-All P set id (r ∷ rows) h a = elim (Bool-cases (key r == id)) [
    | inl same ↦ rw same (h r a.0, update-All P set id rows h a.1)
    | inr other ↦ rw other (a.0, update-All P set id rows h a.1)
  ]

  pub select-All {κ} :
      (P : A → Type κ) (id : String) (rows : List A) (row : A)
      → All P rows
      → select id rows ≡ some row
      → P row
  unfolding select
  select-All P id [] row a e = absurd (ground arith)
  select-All P id (r ∷ rows) row a e = elim (Bool-cases (key r == id)) [
    | inl same ↦ let p : r ≡ row = some-injective r row (rw same at e) in subst P p a.0
    | inr other ↦ select-All P id rows row a.1 (rw other at e)
  ]

  pub key-select :
      (id : String) (rows : List A) (row : A) → select id rows ≡ some row → key row ≡ id
  unfolding select
  key-select id [] row e = absurd (ground arith)
  key-select id (r ∷ rows) row e = elim (Bool-cases (key r == id)) [
    | inl same ↦
        let p : r ≡ row = some-injective r row (rw same at e) in
        ap key (sym p) ∙ (eq_iff (key r) id).0 same
    | inr other ↦ key-select id rows row (rw other at e)
  ]

  pub select-update_same :
      (set : A → A) (id : String) (rows : List A)
      → ((row : A) → key (set row) ≡ key row)
      → select id (update id set rows) ≡ column set (select id rows)
  select-update_same set id rows k = rw (select-update set id id rows k, eq_refl id) refl
