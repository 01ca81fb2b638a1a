-- ===== src/Watcher/Tests.antt =====
-- One instance of each theorem on the watcher.
use nira_os.Base.{◌≡◌, refl, true, [], ◌∷◌, any}
use nira_os.Watcher.{init, run, file_event, timer_fired}
use nira_os.Watcher.Debounce.{dir, event, is_report, change_is_reported}

change_is_reported_example :
    any
      (is_report (dir (1 ∷ [])))
      (run init (event (dir (1 ∷ [])) ∷ file_event [] ∷ timer_fired ∷ [])).1
    ≡ true
change_is_reported_example =
    change_is_reported (dir (1 ∷ [])) init (file_event [] ∷ timer_fired ∷ []) refl
