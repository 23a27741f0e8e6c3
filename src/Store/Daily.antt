-- ===== src/Store/Daily.antt =====
-- src/store/attention.rs: the daily view of attention, its watermark, `attention_apply_new_events` and
-- `attention_rebuild`. The log is the list of the numbered events, in the order of the numbers.
use Prim.Native.Char.{Char, code}
use sin.Prelude.{
  ℕ, zero, ◌+◌, ◌-◌, String, Bool, true, false, ◌&&◌, Option, none, some, List, [], ◌∷◌, ◌==◌, leb,
  ltb, eqb, if◌then◌else◌, length,
}
use sin.Prelude.Text.{utf8}
use sin.Store.Json.{Value, num, get, as_str}
use sin.Store.Errors.{Event}
use sin.Store.Tables.Statements.{same_text}
pub mod Rows
pub mod Rebuild

pub record Numbered : Type 0 where
  pub seq : ℕ
  pub event : Event

pub record AttentionDailyRow : Type 0 where
  pub day : String
  pub direction_id : String
  pub actual_min : ℕ

-- the view with its watermark
pub record DailyView : Type 0 where
  pub daily : List AttentionDailyRow
  pub applied_event_seq : ℕ

-- `SELECT COALESCE(MAX(seq), 0)`
unfoldable pub max_seq : List Numbered → ℕ
max_seq [] = 0
max_seq (e ∷ log) = let rest = max_seq log in if leb rest e.seq then e.seq else rest

abbrev pub is_completed : Event → Bool
is_completed e = e.entity == "block" && e.kind == "transitioned" && same_text e.to_state "completed"

-- the events that the query selects between two numbers
unfoldable pub new_rows : ℕ → ℕ → List Numbered → List Event
new_rows low high [] = []
new_rows low high (e ∷ log) =
    let rest = new_rows low high log in
    if ltb low e.seq && leb e.seq high && is_completed e.event then e.event ∷ rest else rest

abbrev pub char_prepended : Char → Option String → Option String
char_prepended c none = none
char_prepended c (some s) = some (String.◌∷◌ c s)

abbrev pub width : Char → ℕ
width c = length (utf8 (code c))

-- `get(0..n)`: the first bytes, if they end between two characters
unfoldable pub byte_prefix : ℕ → String → Option String
byte_prefix n String.[] = if eqb n 0 then some "" else none
byte_prefix n (String.◌∷◌ c s) =
    let rest = byte_prefix (n - width c) s in
    if eqb n 0 then some "" else if leb (width c) n then char_prepended c rest else none

abbrev pub text_or_empty : Option String → String
text_or_empty none = ""
text_or_empty (some s) = s

abbrev pub as_minutes : Option Value → Option ℕ
as_minutes (some (num n)) = some n
as_minutes _ = none

-- `INSERT ... ON CONFLICT(day, direction_id) DO UPDATE`
unfoldable pub add_minutes :
    (day direction_id : String) → ℕ → List AttentionDailyRow → List AttentionDailyRow
add_minutes day direction_id n [] =
    record { day = day; direction_id = direction_id; actual_min = n } ∷ []
add_minutes day direction_id n (row ∷ rows) =
    let rest = add_minutes day direction_id n rows in
    if row.day == day && row.direction_id == direction_id
    then record row { actual_min = row.actual_min + n } ∷ rows
    else row ∷ rest

-- a round of the loop: it has no result where a column does not decode
abbrev pub add_decoded :
    Option String → String → Option ℕ → List AttentionDailyRow → Option (List AttentionDailyRow)
add_decoded none dir minutes daily = none
add_decoded (some at) dir none daily = none
add_decoded (some at) dir (some n) daily =
    some (add_minutes (text_or_empty (byte_prefix 10 at)) dir n daily)

unfoldable pub apply_row : Event → List AttentionDailyRow → Option (List AttentionDailyRow)
apply_row e daily =
    add_decoded (as_str (get "occurred_at" e.payload))
      (text_or_empty (as_str (get "direction_id" e.payload))) (as_minutes (get "minutes" e.payload))
      daily

abbrev pub then_rows :
    (List AttentionDailyRow → Option (List AttentionDailyRow))
    → Option (List AttentionDailyRow)
    → Option (List AttentionDailyRow)
then_rows f none = none
then_rows f (some daily) = f daily

unfoldable pub apply_rows : List Event → List AttentionDailyRow → Option (List AttentionDailyRow)
apply_rows [] daily = some daily
apply_rows (e ∷ events) daily = then_rows (apply_rows events) (apply_row e daily)

-- the view after the loop, with the watermark at the highest number
abbrev pub advanced : ℕ → Option (List AttentionDailyRow) → Option DailyView
advanced seq none = none
advanced seq (some daily) = some (record { daily = daily; applied_event_seq = seq })

unfoldable pub attention_apply_new_events : List Numbered → DailyView → Option DailyView
attention_apply_new_events log view =
    let wm = view.applied_event_seq in
    let high = max_seq log in
    if leb high wm then some view else advanced high (apply_rows (new_rows wm high log) view.daily)

-- the first transaction of the rebuild; it stays where the second one fails
abbrev pub cleared : DailyView
cleared = record { daily = []; applied_event_seq = 0 }

unfoldable pub attention_rebuild : List Numbered → DailyView → Option DailyView
attention_rebuild log view = attention_apply_new_events log cleared
