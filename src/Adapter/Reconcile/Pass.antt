-- ===== src/Adapter/Reconcile/Pass.antt =====
-- src/adapter_agent24/reconciler.rs: what `reconcile_full` asks for, and what it leaves alone.
use sin.Prelude.{String, ◌≡◌, ◌≢◌, true, ◌⊎◌, none, some, List, [], ◌∷◌}
use sin.Prelude.Ascii.{trim, strip_prefix, to_ascii_uppercase}
use sin.Store.Routines.{Db, Draws}
use sin.Store.Routines.Moves.{outbox_enqueue_upsert_for_routine, outbox_enqueue_delete_for_orphan}
use sin.Adapter.Reconcile.{ModuleSpec, ModuleScheduleState, LocalDesired, find, normalize_cron}

-- the kernel has what is desired: the same cron text up to white space and case, the same zone up to
-- white space at its ends, the same flag, and no reason of its own to disable it
pub record IsAsDesired (to_uppercase : String → String) (state : ModuleScheduleState)
    (desired : LocalDesired) : Type 0 where
  pub expr : String
  pub zone : String
  pub spec : state.spec ≡ ModuleSpec.cron expr (some zone)
  pub same_cron : normalize_cron to_uppercase expr ≡ normalize_cron to_uppercase desired.cron
  pub same_zone : trim zone ≡ trim desired.tz
  pub same_flag : state.enabled ≡ desired.enabled
  pub enabled_by_system : state.system_disabled_reason ≡ none

module _ (to_uppercase : String → String) (draw : String → Draws) where
  -- the kernel has the schedule of the key, as it is desired or suspended by the user
  abbrev pub IsSettled : List (String × ModuleScheduleState) → String → LocalDesired → Type 0
  IsSettled kernel key desired =
      (state : ModuleScheduleState) × (find key kernel ≡ some state)
      × ((state.user_suspended ≡ true) ⊎ IsAsDesired to_uppercase state desired)

  -- the databases before and after the first loop: an entry that is not settled, and no other, asks for
  -- an upsert of its routine
  abbrev pub Corrects :
      List (String × ModuleScheduleState) → List (String × LocalDesired) → Db → Db → Type 0
  Corrects kernel [] db after = after ≡ db
  Corrects kernel ((key, desired) ∷ local) db after =
      (IsSettled kernel key desired × Corrects kernel local db after)
      ⊎ ((IsSettled kernel key desired → ⊥)
          × Corrects kernel local
              (outbox_enqueue_upsert_for_routine (draw key) desired.routine_id db) after)

  -- the databases before and after the second loop: a key of the form of a routine's that is not a local
  -- one, and no other, asks for its deletion
  abbrev pub Drops :
      List (String × LocalDesired) → List (String × ModuleScheduleState) → Db → Db → Type 0
  Drops local [] db after = after ≡ db
  Drops local ((key, state) ∷ kernel) db after =
      (((find key local ≢ none) ⊎ (strip_prefix "routine." key ≡ none))
        × Drops local kernel db after)
      ⊎ ((find key local ≡ none)
          × ((rest : String) × (strip_prefix "routine." key ≡ some rest)
              × Drops local kernel
                  (outbox_enqueue_delete_for_orphan (draw key) (to_ascii_uppercase rest) key db)
                  after))
