-- ===== src/Context/Tests.antt =====
-- One instance of each theorem on the exporter.
use nira_os.Base.{◌≡◌, refl, ◌⊎◌, List, true, false, none, some, [], ◌∷◌, text_eq}
use nira_os.Context.{
  ContextExporter, Event, init, run, step, app_id_set, title_set, timer_fired, write_done,
  set_active_app_id, set_active_title, on_flush_timer, write_to_disk,
}
use nira_os.Context.Updates.{UpToDate, run-UpToDate, update_lost}

abbrev changes : List Event
changes =
    app_id_set (97 ∷ []) ∷ timer_fired ∷ title_set (98 ∷ []) ∷ write_done true ∷ timer_fired ∷ []

run-UpToDate_example : (run init changes ≡ init) ⊎ UpToDate (run init changes)
run-UpToDate_example = run-UpToDate changes (
    unfold step init set_active_app_id set_active_title on_flush_timer write_to_disk text_eq in
    refl)

abbrev writing : ContextExporter
writing = record {
  active_app_id = 97 ∷ [];
  active_title = [];
  timer_running = false;
  pending_flush = true;
  in_flight = some (97 ∷ [], []);
  written = none;
}

update_lost_example :
    let t = run writing (title_set (98 ∷ []) ∷ timer_fired ∷ write_done true ∷ []) in
    (t.timer_running ≡ false)
    × (t.in_flight ≡ none)
    × (t.active_title ≡ 98 ∷ [])
    × (t.written ≡ some (97 ∷ [], []))
update_lost_example = update_lost writing (98 ∷ []) refl refl (unfold text_eq in refl)
