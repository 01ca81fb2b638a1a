-- ===== src/Context.antt =====
-- desktop/compositor/src/ContextExporter.h and ContextExporter.cpp: the file that tells other programs
-- the active window. The write in the background is a step of its own: `in_flight` is what it was
-- given, `written` what the file holds; the seat's name is left out, as it never changes.
use nira_os.Base.{
  Bool, true, false, not, ◌&&◌, Option, none, some, List, [], ◌∷◌, Text, text_eq, if◌then◌else◌,
}
pub mod Updates
mod Tests

pub record ContextExporter : Type 0 where
  pub active_app_id : Text
  pub active_title : Text
  pub timer_running : Bool
  pub pending_flush : Bool
  pub in_flight : Option (Text × Text)
  pub written : Option (Text × Text)

unfoldable pub init : ContextExporter
init = record {
  active_app_id = [];
  active_title = [];
  timer_running = false;
  pending_flush = false;
  in_flight = none;
  written = none;
}

-- The setters, and whether `activeWindowChanged` is emitted.
unfoldable pub set_active_app_id : ContextExporter → Text → ContextExporter × Bool
set_active_app_id s app_id =
    if text_eq s.active_app_id app_id
    then (s, false)
    else (record s { active_app_id = app_id; timer_running = true }, true)

unfoldable pub set_active_title : ContextExporter → Text → ContextExporter × Bool
set_active_title s title =
    if text_eq s.active_title title
    then (s, false)
    else (record s { active_title = title; timer_running = true }, true)

unfoldable pub on_flush_timer : ContextExporter → ContextExporter
on_flush_timer s =
    if s.pending_flush
    then s
    else record s { pending_flush = true; in_flight = some (s.active_app_id, s.active_title) }

unfoldable pub flush : ContextExporter → ContextExporter
flush s = on_flush_timer (record s { timer_running = false })

-- `writeToDisk` in the background, which works or not, and then the continuation.
unfoldable pub write_to_disk : ContextExporter → Bool → ContextExporter
write_to_disk s works = elim s.in_flight [
  | none ↦ s
  | some carried ↦ record s {
    pending_flush = false;
    in_flight = none;
    written = if works then some carried else s.written;
  }
]

-- What happens to the exporter: calls, the single-shot timer, and the end of a write.
pub data Event : Type 0 where
  app_id_set title_set : Text → Event
  timer_fired flushed : Event
  write_done : Bool → Event

unfoldable pub step : ContextExporter → Event → ContextExporter
step s (app_id_set app_id) = (set_active_app_id s app_id).0
step s (title_set title) = (set_active_title s title).0
step s timer_fired =
    if s.timer_running then on_flush_timer (record s { timer_running = false }) else s
step s flushed = flush s
step s (write_done works) = write_to_disk s works

unfoldable pub run : ContextExporter → List Event → ContextExporter
run s [] = s
run s (e ∷ es) = run (step s e) es
