-- ===== src/Examples/Daily.antt =====
-- src/store/attention.rs: two blocks of a day that end, before and after the view is brought up to date.
use sin.Prelude.{ℕ, ◌<◌, String, ◌≡◌, refl, some, [], ◌∷◌, arith}
use sin.Store.Json.{num, str, obj, field, end}
use sin.Store.Errors.{Event}
use sin.Store.Daily.{
  Numbered, AttentionDailyRow, DailyView, max_seq, attention_apply_new_events, attention_rebuild,
  cleared,
}
use sin.Store.Daily.Rebuild.{
  Run, fresh, logged, caught_up, attention_apply_new_events-attention_rebuild,
}

abbrev ended : (id at : String) → ℕ → Event
ended id at minutes = record {
  id = id;
  entity = "block";
  entity_id = "b1";
  kind = "transitioned";
  from_state = some "started";
  to_state = some "completed";
  payload = obj (
      field "direction_id" (str "d1")
        (field "minutes" (num minutes) (field "occurred_at" (str at) end)));
  at = at;
}

abbrev first : Numbered
first = record { seq = 1; event = ended "e1" "2026-10-01T08:00:00Z" 30 }

-- the numbers may leave gaps
abbrev second : Numbered
second = record { seq = 3; event = ended "e2" "2026-10-01T09:00:00Z" 15 }

abbrev view_of : ℕ → ℕ → DailyView
view_of minutes seq = record {
  daily = record { day = "2026-10-01"; direction_id = "d1"; actual_min = minutes } ∷ [];
  applied_event_seq = seq;
}

first_applied : attention_apply_new_events (first ∷ []) cleared ≡ some (view_of 30 1)
unfolding attention_apply_new_events max_seq sin.Store.Daily.apply_rows sin.Store.Daily.new_rows
    sin.Store.Daily.apply_row sin.Store.Daily.add_minutes sin.Store.Daily.byte_prefix
first_applied = refl

second_applied :
    attention_apply_new_events (first ∷ second ∷ []) (view_of 30 1) ≡ some (view_of 45 3)
unfolding attention_apply_new_events max_seq sin.Store.Daily.apply_rows sin.Store.Daily.new_rows
    sin.Store.Daily.apply_row sin.Store.Daily.add_minutes sin.Store.Daily.byte_prefix
second_applied = refl

first_new : max_seq [] < 1
unfolding max_seq
first_new = omega arith

second_new : max_seq (first ∷ []) < 3
unfolding max_seq
second_new = omega arith

run : Run (first ∷ second ∷ []) (view_of 30 1)
run = logged second (caught_up (logged first fresh first_new) first_applied) second_new

attention_apply_new_events-attention_rebuild_example :
    attention_apply_new_events (first ∷ second ∷ []) (view_of 30 1)
    ≡ attention_rebuild (first ∷ second ∷ []) (view_of 30 1)
attention_apply_new_events-attention_rebuild_example =
    attention_apply_new_events-attention_rebuild (first ∷ second ∷ []) (view_of 30 1) run
