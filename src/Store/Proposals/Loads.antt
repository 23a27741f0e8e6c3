-- ===== src/Store/Proposals/Loads.antt =====
-- src/store/repo.rs: what a load adds to a snapshot.
use sin.Prelude.{
  String, ◌≡◌, ◌⊎◌, inl, inr, ap, sym, ◌∙◌, Bool, true, Option, none, List, ◌==◌, arith, eq_iff,
  Bool-cases, Option-cases,
}
use sin.Prelude.Text.{lookup, contains}
use sin.Core.Proposal.Working.{ValidationCtx}
use sin.Store.Tables.{Tables}
use sin.Store.Proposals.Snapshot.{
  DbSnapshot, insert_found, load_task, load_task_parent, load_week, load_task_direction,
  load_direction_status, load_review_snap, load_rhythm, live_ctx,
}

-- a map holds answers of a function only
abbrev pub Right : {V : Type 0} → (String → Option V) → List (String × V) → Type 0
Right f m = (id : String) → (lookup id m ≡ none) ⊎ (lookup id m ≡ f id)

-- a map after another one: still right, and it answers what the other answered
abbrev pub Grows :
    {V : Type 0} → (String → Option V) → List (String × V) → List (String × V) → Type 0
Grows f m n = (Right f m → Right f n) × ((id : String) → lookup id m ≡ f id → lookup id n ≡ f id)

module _ {V : Type 0} (f : String → Option V) where
  Grows-refl : (m : List (String × V)) → Grows f m m
  Grows-refl m = (λ r. r, λ id e. e)

  insert-keeps :
      (j : String) (m : List (String × V)) (id : String)
      → lookup id m ≡ f id
      → lookup id (insert_found j (f j) m) ≡ f id
  unfolding lookup
  insert-keeps j m id e = elim (Option-cases (f j)) [
    | inl p ↦ rw p e
    | inr (v, p) ↦ elim (Bool-cases (j == id)) [
      | inl q ↦ let same : j ≡ id = (eq_iff j id).0 q in rw (p, q) (sym p ∙ ap f same)
      | inr q ↦ rw (p, q) e
    ]
  ]

  insert-Right : (j : String) (m : List (String × V)) → Right f m → Right f (insert_found j (f j) m)
  unfolding lookup
  insert-Right j m r id = elim (Option-cases (f j)) [
    | inl p ↦ rw p (r id)
    | inr (v, p) ↦ elim (Bool-cases (j == id)) [
      | inl q ↦ let same : j ≡ id = (eq_iff j id).0 q in rw (p, q) (inr (sym p ∙ ap f same))
      | inr q ↦ rw (p, q) (r id)
    ]
  ]

  insert-Grows : (j : String) (m : List (String × V)) → Grows f m (insert_found j (f j) m)
  insert-Grows j m = (insert-Right j m, insert-keeps j m)

  -- what was loaded is answered
  pub insert-knows :
      (j : String) (m : List (String × V)) → Right f m → lookup j (insert_found j (f j) m) ≡ f j
  unfolding lookup
  insert-knows j m r = elim (Option-cases (f j)) [
    | inl p ↦ rw p (elim (r j) [ inl q ↦ q | inr q ↦ q ∙ p ])
    | inr (v, p) ↦ rw p (ground (arith, eq_iff j j))
  ]

-- the same for a set
abbrev pub RightSet : (String → Bool) → List String → Type 0
RightSet p m = (id : String) → contains id m ≡ true → p id ≡ true

module _ (body_sha256 : String → String) (db : Tables) where
  abbrev pub live : ValidationCtx
  live = live_ctx body_sha256 db

  pub record IsSound (s : DbSnapshot) : Type 0 where
    pub tasks : Right live.task_status s.tasks
    pub parents : Right live.task_parent s.task_parents
    pub weeks : Right live.week_status s.weeks
    pub rhythms : Right live.rhythm_is_retired s.rhythms_retired
    pub targets : Right live.direction_status s.direction_statuses
    pub directions : Right live.task_direction s.task_directions
    pub reviews : Right live.review_snap s.reviews
    pub provenance : RightSet live.task_triage_via_classify s.triage_via_classify

  abbrev pub GrowsSet : List String → List String → Type 0
  GrowsSet m n =
      (RightSet live.task_triage_via_classify m → RightSet live.task_triage_via_classify n)
      × ((id : String)
          → contains id m ≡ live.task_triage_via_classify id
          → contains id n ≡ live.task_triage_via_classify id)

  pub record Loads (s t : DbSnapshot) : Type 0 where
    pub tasks : Grows live.task_status s.tasks t.tasks
    pub parents : Grows live.task_parent s.task_parents t.task_parents
    pub weeks : Grows live.week_status s.weeks t.weeks
    pub rhythms : Grows live.rhythm_is_retired s.rhythms_retired t.rhythms_retired
    pub targets : Grows live.direction_status s.direction_statuses t.direction_statuses
    pub directions : Grows live.task_direction s.task_directions t.task_directions
    pub reviews : Grows live.review_snap s.reviews t.reviews
    pub provenance : GrowsSet s.triage_via_classify t.triage_via_classify

  pub Loads-refl : (s : DbSnapshot) → Loads s s
  Loads-refl s = record {
    tasks = (λ r. r, λ id e. e);
    parents = (λ r. r, λ id e. e);
    weeks = (λ r. r, λ id e. e);
    rhythms = (λ r. r, λ id e. e);
    targets = (λ r. r, λ id e. e);
    directions = (λ r. r, λ id e. e);
    reviews = (λ r. r, λ id e. e);
    provenance = (λ r. r, λ id e. e);
  }

  pub Loads-trans : {s t u : DbSnapshot} → Loads s t → Loads t u → Loads s u
  Loads-trans a b = record {
    tasks = (λ r. b.tasks.0 (a.tasks.0 r), λ id e. b.tasks.1 id (a.tasks.1 id e));
    parents = (λ r. b.parents.0 (a.parents.0 r), λ id e. b.parents.1 id (a.parents.1 id e));
    weeks = (λ r. b.weeks.0 (a.weeks.0 r), λ id e. b.weeks.1 id (a.weeks.1 id e));
    rhythms = (λ r. b.rhythms.0 (a.rhythms.0 r), λ id e. b.rhythms.1 id (a.rhythms.1 id e));
    targets = (λ r. b.targets.0 (a.targets.0 r), λ id e. b.targets.1 id (a.targets.1 id e));
    directions =
        (λ r. b.directions.0 (a.directions.0 r), λ id e. b.directions.1 id (a.directions.1 id e));
    reviews = (λ r. b.reviews.0 (a.reviews.0 r), λ id e. b.reviews.1 id (a.reviews.1 id e));
    provenance =
        (λ r. b.provenance.0 (a.provenance.0 r), λ id e. b.provenance.1 id (a.provenance.1 id e));
  }

  pub Loads-IsSound : {s t : DbSnapshot} → Loads s t → IsSound s → IsSound t
  Loads-IsSound a h = record {
    tasks = a.tasks.0 h.tasks;
    parents = a.parents.0 h.parents;
    weeks = a.weeks.0 h.weeks;
    rhythms = a.rhythms.0 h.rhythms;
    targets = a.targets.0 h.targets;
    directions = a.directions.0 h.directions;
    reviews = a.reviews.0 h.reviews;
    provenance = a.provenance.0 h.provenance;
  }

  pub load_task-Loads : (id : String) (s : DbSnapshot) → Loads s (load_task body_sha256 db id s)
  unfolding load_task
  load_task-Loads id s =
      let k = Loads-refl s in
      record {
        tasks = insert-Grows live.task_status id s.tasks;
        parents = k.parents;
        weeks = k.weeks;
        rhythms = k.rhythms;
        targets = k.targets;
        directions = k.directions;
        reviews = k.reviews;
        provenance = k.provenance;
      }

  pub load_task_parent-Loads :
      (id : String) (s : DbSnapshot) → Loads s (load_task_parent body_sha256 db id s)
  unfolding load_task_parent
  load_task_parent-Loads id s =
      let k = Loads-refl s in
      record {
        tasks = k.tasks;
        parents = insert-Grows live.task_parent id s.task_parents;
        weeks = k.weeks;
        rhythms = k.rhythms;
        targets = k.targets;
        directions = k.directions;
        reviews = k.reviews;
        provenance = k.provenance;
      }

  pub load_week-Loads : (id : String) (s : DbSnapshot) → Loads s (load_week body_sha256 db id s)
  unfolding load_week
  load_week-Loads id s =
      let k = Loads-refl s in
      record {
        tasks = k.tasks;
        parents = k.parents;
        weeks = insert-Grows live.week_status id s.weeks;
        rhythms = k.rhythms;
        targets = k.targets;
        directions = k.directions;
        reviews = k.reviews;
        provenance = k.provenance;
      }

  pub load_rhythm-Loads : (id : String) (s : DbSnapshot) → Loads s (load_rhythm body_sha256 db id s)
  unfolding load_rhythm
  load_rhythm-Loads id s =
      let k = Loads-refl s in
      record {
        tasks = k.tasks;
        parents = k.parents;
        weeks = k.weeks;
        rhythms = insert-Grows live.rhythm_is_retired id s.rhythms_retired;
        targets = k.targets;
        directions = k.directions;
        reviews = k.reviews;
        provenance = k.provenance;
      }

  pub load_direction_status-Loads :
      (id : String) (s : DbSnapshot) → Loads s (load_direction_status body_sha256 db id s)
  unfolding load_direction_status
  load_direction_status-Loads id s =
      let k = Loads-refl s in
      record {
        tasks = k.tasks;
        parents = k.parents;
        weeks = k.weeks;
        rhythms = k.rhythms;
        targets = insert-Grows live.direction_status id s.direction_statuses;
        directions = k.directions;
        reviews = k.reviews;
        provenance = k.provenance;
      }

  pub load_task_direction-Loads :
      (id : String) (s : DbSnapshot) → Loads s (load_task_direction body_sha256 db id s)
  unfolding load_task_direction
  load_task_direction-Loads id s =
      let k = Loads-refl s in
      record {
        tasks = k.tasks;
        parents = k.parents;
        weeks = k.weeks;
        rhythms = k.rhythms;
        targets = k.targets;
        directions = insert-Grows live.task_direction id s.task_directions;
        reviews = k.reviews;
        provenance = k.provenance;
      }

  pub load_review_snap-Loads :
      (id : String) (s : DbSnapshot) → Loads s (load_review_snap body_sha256 db id s)
  unfolding load_review_snap
  load_review_snap-Loads id s =
      let k = Loads-refl s in
      record {
        tasks = k.tasks;
        parents = k.parents;
        weeks = k.weeks;
        rhythms = k.rhythms;
        targets = k.targets;
        directions = k.directions;
        reviews = insert-Grows live.review_snap id s.reviews;
        provenance = k.provenance;
      }
