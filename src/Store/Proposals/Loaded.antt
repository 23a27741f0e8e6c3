-- ===== src/Store/Proposals/Loaded.antt =====
-- src/store/repo.rs: what `build_snapshot` has loaded, and what the validator makes of it.
use sin.Prelude.{
  String, ◌≡◌, inl, inr, refl, sym, ◌∙◌, true, false, Option, none, some, List, [], ◌∷◌, ◌==◌,
  arith, eq_iff, Bool-cases, All,
}
use sin.Prelude.Text.{lookup, contains}
use sin.Core.Proposal.Errors.{
  Sin90Op, Sin90Proposal, create_area, create_task, create_direction, transition_task, create_tasks,
  reorder_tasks, adjust_rhythm, carry_over_task, assign_task_direction, draft_review_body,
}
use sin.Core.Proposal.Working.{ValidationCtx}
use sin.Core.Proposal.Validate.{validate}
use sin.Core.Proposal.Asked.{Asked, validate_asks}
use sin.Store.Tables.{Tables, find_task}
use sin.Store.Proposals.Snapshot.{
  DbSnapshot, empty_snapshot, snapshot_ctx, via_classify, is_parked, load_task, load_task_parent,
  load_week, load_task_direction, load_task_triage_via_classify, load_direction_status,
  load_review_snap, load_rhythm, load_provenance, load_op, load_ops, build_snapshot, live_ctx,
}
use sin.Store.Proposals.Loads.{
  Right, RightSet, GrowsSet, IsSound, Loads, Loads-refl, Loads-trans, Loads-IsSound, insert-knows,
  load_task-Loads, load_task_parent-Loads, load_week-Loads, load_rhythm-Loads,
  load_direction_status-Loads, load_task_direction-Loads, load_review_snap-Loads,
}

module _ (body_sha256 : String → String) (db : Tables) where
  abbrev live : ValidationCtx
  live = live_ctx body_sha256 db

  is_parked-Right :
      (id : String) (m : List (String × Option String))
      → Right live.task_direction m
      → is_parked (lookup id m) ≡ true
      → is_parked (live.task_direction id) ≡ true
  is_parked-Right id m r h = elim (r id) [ inl e ↦ absurd (ground (arith, e)) | inr e ↦ rw e at h ]

  insert-GrowsSet :
      (j : String) (m : List String)
      → live.task_triage_via_classify j ≡ true
      → GrowsSet body_sha256 db m (j ∷ m)
  unfolding contains
  insert-GrowsSet j m h = (
    λ r id e. elim (Bool-cases (j == id)) [
      | inl q ↦ rw (← (eq_iff j id).0 q) h
      | inr q ↦ r id (rw q at e)
    ],
    λ id e. elim (Bool-cases (j == id)) [
      | inl q ↦ rw (q, ← (eq_iff j id).0 q) (sym h)
      | inr q ↦ rw q e
    ],
  )

  load_provenance-Loads :
      (id : String) (s : DbSnapshot)
      → IsSound body_sha256 db s
      → Loads body_sha256 db s (load_provenance body_sha256 db id s)
  unfolding load_provenance load_task_triage_via_classify
  load_provenance-Loads id s h = elim (Bool-cases (is_parked (lookup id s.task_directions))) [
    | inl p ↦ elim (Bool-cases (via_classify (find_task id db))) [
      | inl q ↦
          let k = Loads-refl body_sha256 db s in
          let here = is_parked-Right id s.task_directions h.directions p in
          rw (p, q)
            (record {
              tasks = k.tasks;
              parents = k.parents;
              weeks = k.weeks;
              rhythms = k.rhythms;
              targets = k.targets;
              directions = k.directions;
              reviews = k.reviews;
              provenance = insert-GrowsSet id s.triage_via_classify (rw (here, q) refl);
            })
      | inr q ↦ rw (p, q) (Loads-refl body_sha256 db s)
    ]
    | inr p ↦ rw p (Loads-refl body_sha256 db s)
  ]

  load_op-Loads :
      (op : Sin90Op) (s : DbSnapshot)
      → IsSound body_sha256 db s
      → Loads body_sha256 db s (load_op body_sha256 db op s)
  unfolding load_op
  load_op-Loads (create_area title) s h = Loads-refl body_sha256 db s
  load_op-Loads (create_direction title target_window) s h = Loads-refl body_sha256 db s
  load_op-Loads (create_task title d none k e m) s h = Loads-refl body_sha256 db s
  load_op-Loads (create_task title d (some parent) k e m) s h =
      load_task_parent-Loads body_sha256 db parent s
  load_op-Loads (transition_task id to) s h = load_task-Loads body_sha256 db id s
  load_op-Loads (create_tasks week tasks) s h = load_week-Loads body_sha256 db week s
  load_op-Loads (reorder_tasks week order) s h = load_week-Loads body_sha256 db week s
  load_op-Loads (adjust_rhythm id alloc) s h = load_rhythm-Loads body_sha256 db id s
  load_op-Loads (carry_over_task id week) s h =
      Loads-trans body_sha256 db (load_task-Loads body_sha256 db id s)
        (load_week-Loads body_sha256 db week _)
  load_op-Loads (assign_task_direction id target) s h =
      let a = load_task-Loads body_sha256 db id s in
      let b = Loads-trans body_sha256 db a (load_task_direction-Loads body_sha256 db id _) in
      let c = Loads-trans body_sha256 db b (load_direction_status-Loads body_sha256 db target _) in
      Loads-trans body_sha256 db c (load_provenance-Loads id _ (Loads-IsSound body_sha256 db c h))
  load_op-Loads (draft_review_body id base body) s h = load_review_snap-Loads body_sha256 db id s

  Asked-Loads :
      (op : Sin90Op) {s t : DbSnapshot}
      → Loads body_sha256 db s t
      → Asked op (snapshot_ctx s) live
      → Asked op (snapshot_ctx t) live
  unfolding snapshot_ctx
  Asked-Loads (create_area title) k a = tt
  Asked-Loads (create_direction title target_window) k a = tt
  Asked-Loads (create_task title d none x e m) k a = tt
  Asked-Loads (create_task title d (some parent) x e m) k a = k.parents.1 parent a
  Asked-Loads (transition_task id to) k a = k.tasks.1 id a
  Asked-Loads (create_tasks week tasks) k a = k.weeks.1 week a
  Asked-Loads (reorder_tasks week order) k a = k.weeks.1 week a
  Asked-Loads (adjust_rhythm id alloc) k a = k.rhythms.1 id a
  Asked-Loads (carry_over_task id week) k a = (k.tasks.1 id a.0, k.weeks.1 week a.1)
  Asked-Loads (assign_task_direction id target) k a =
      (k.tasks.1 id a.0, k.directions.1 id a.1, k.targets.1 target a.2, k.provenance.1 id a.3)
  Asked-Loads (draft_review_body id base body) k a = k.reviews.1 id a

  not_in :
      (id : String) (m : List String)
      → RightSet live.task_triage_via_classify m
      → live.task_triage_via_classify id ≡ false
      → contains id m ≡ false
  not_in id m r h = elim (Bool-cases (contains id m)) [
    | inl q ↦ absurd (true-false (sym (r id q) ∙ h))
    | inr q ↦ q
  ]
    where
      true-false : true ≡ false → ⊥
      true-false e = cc

  provenance_known :
      (id : String) (s : DbSnapshot)
      → IsSound body_sha256 db s
      → lookup id s.task_directions ≡ live.task_direction id
      → contains id (load_provenance body_sha256 db id s).triage_via_classify
        ≡ live.task_triage_via_classify id
  unfolding load_provenance load_task_triage_via_classify contains
  provenance_known id s h e = elim (Bool-cases (is_parked (live.task_direction id))) [
    | inl p ↦ elim (Bool-cases (via_classify (find_task id db))) [
      | inl q ↦ rw (e, p, q) (ground (arith, eq_iff id id))
      | inr q ↦ rw (e, p, q) (not_in id s.triage_via_classify h.provenance (rw (p, q) refl))
    ]
    | inr p ↦ rw (e, p) (not_in id s.triage_via_classify h.provenance (rw p refl))
  ]

  Asked-load_op :
      (op : Sin90Op) (s : DbSnapshot)
      → IsSound body_sha256 db s
      → Asked op (snapshot_ctx (load_op body_sha256 db op s)) live
  unfolding load_op snapshot_ctx load_task load_task_parent load_week load_rhythm
      load_task_direction load_direction_status load_review_snap
  Asked-load_op (create_area title) s h = tt
  Asked-load_op (create_direction title target_window) s h = tt
  Asked-load_op (create_task title d none k e m) s h = tt
  Asked-load_op (create_task title d (some parent) k e m) s h =
      insert-knows live.task_parent parent s.task_parents h.parents
  Asked-load_op (transition_task id to) s h = insert-knows live.task_status id s.tasks h.tasks
  Asked-load_op (create_tasks week tasks) s h = insert-knows live.week_status week s.weeks h.weeks
  Asked-load_op (reorder_tasks week order) s h = insert-knows live.week_status week s.weeks h.weeks
  Asked-load_op (adjust_rhythm id alloc) s h =
      insert-knows live.rhythm_is_retired id s.rhythms_retired h.rhythms
  Asked-load_op (carry_over_task id week) s h = (
    insert-knows live.task_status id s.tasks h.tasks,
    insert-knows live.week_status week s.weeks h.weeks,
  )
  Asked-load_op (assign_task_direction id target) s h =
      let a = load_task-Loads body_sha256 db id s in
      let b = Loads-trans body_sha256 db a (load_task_direction-Loads body_sha256 db id _) in
      let c = Loads-trans body_sha256 db b (load_direction_status-Loads body_sha256 db target _) in
      let sound = Loads-IsSound body_sha256 db c h in
      let k = load_provenance-Loads id _ sound in
      let known = insert-knows live.task_direction id s.task_directions h.directions in
      (
        k.tasks.1 id (insert-knows live.task_status id s.tasks h.tasks),
        k.directions.1 id known,
        k.targets.1 target
            (insert-knows live.direction_status target s.direction_statuses h.targets),
        provenance_known id _ sound known,
      )
  Asked-load_op (draft_review_body id base body) s h =
      insert-knows live.review_snap id s.reviews h.reviews

  load_ops-Loads :
      (ops : List Sin90Op) (s : DbSnapshot)
      → IsSound body_sha256 db s
      → Loads body_sha256 db s (load_ops body_sha256 db ops s)
        × All (λ op. Asked op (snapshot_ctx (load_ops body_sha256 db ops s)) live) ops
  unfolding load_ops
  load_ops-Loads [] s h = (Loads-refl body_sha256 db s, tt)
  load_ops-Loads (op ∷ ops) s h =
      let k = load_op-Loads op s h in
      let (l, a) =
        load_ops-Loads ops (load_op body_sha256 db op s) (Loads-IsSound body_sha256 db k h) in
      (Loads-trans body_sha256 db k l, (Asked-Loads op l (Asked-load_op op s h), a))

  empty-IsSound : IsSound body_sha256 db empty_snapshot
  unfolding lookup contains
  empty-IsSound = record {
    tasks = λ id. inl refl;
    parents = λ id. inl refl;
    weeks = λ id. inl refl;
    rhythms = λ id. inl refl;
    targets = λ id. inl refl;
    directions = λ id. inl refl;
    reviews = λ id. inl refl;
    provenance = λ id e. absurd (ground (arith, e));
  }

  -- `build_snapshot` loads all that the validator asks: over the snapshot for its ops, a proposal is
  -- judged as it is over the tables themselves.
  pub validate-build_snapshot :
      (source : String) (p : Sin90Proposal)
      → validate body_sha256 source p (snapshot_ctx (build_snapshot body_sha256 db p.ops))
        ≡ validate body_sha256 source p (live_ctx body_sha256 db)
  unfolding build_snapshot
  validate-build_snapshot source p =
      validate_asks body_sha256 source (snapshot_ctx (build_snapshot body_sha256 db p.ops)) live p
        (load_ops-Loads p.ops empty_snapshot empty-IsSound).1
