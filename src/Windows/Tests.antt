-- ===== src/Windows/Tests.antt =====
-- A session with two windows, and the theorems about the taskbar at concrete data.
use nira_os.Base.{◌≡◌, refl, false, true, some, List, [], ◌∷◌, lit, text_eq, pos, arith, Text}
use nira_os.Base.Dict
use nira_os.Windows.Registry.{
  Registry, Window, no_window, register_window, unregister_window, list_window_ids, init,
  update_window_state,
}
use nira_os.Windows.Taskbar.{Taskbar, called, toggle, fresh, on_window_unregistered}
use nira_os.Windows.Rows.{entry_of}
use nira_os.Windows.Mirror.{
  Call, registers, unregisters, sets_state, follow, Mirrors, follow-Mirrors,
  register_again_diverges, perform,
}
use nira_os.Windows.Start.{SameCalls, calls_for, times}
use nira_os.Windows.Unique.{after_calls}
use nira_os.Windows.Started.{started, follow-started-Mirrors}
use nira_os.Windows.Seeding.{
  title_question, app_id_question, minimized_question, focused_question, answers, on_replies,
  seeding_leaves_ghost, Question,
}

abbrev no_windows : Registry
no_windows = record { registered = true; windows = [] }

abbrev bar : Taskbar
bar = record { iface = true; windows = []; last_focused_window_id = [] }

abbrev editor : Window
editor = record { title = lit "Notes"; app_id = lit "notepad"; minimized = true; focused = false }

abbrev one_window : Registry
one_window = record { registered = true; windows = (lit "w1", editor) ∷ [] }

abbrev one_row : Taskbar
one_row = record {
  iface = true;
  windows =
      record {
        window_id = lit "w1";
        title = lit "Notes";
        app_id = lit "notepad";
        minimized = true;
        focused = false;
      }
      ∷ [];
  last_focused_window_id = lit "w1";
}

-- A click on a minimized window restores it.
toggle_restores : toggle one_row (pos 0) ≡ called (lit "ActivateWindow") (lit "w1") ∷ []
unfolding toggle
toggle_restores = refl

bar-Mirrors : Mirrors no_windows bar
unfolding entry_of Dict.lookup
bar-Mirrors = record { agrees = λ id. refl; distinct = tt }

one_row-Mirrors : Mirrors one_window one_row
unfolding entry_of Dict.lookup
one_row-Mirrors = record { agrees = λ id. refl; distinct = (refl, tt) }

abbrev session : List Call
session =
    registers (lit "w1") (lit "Notes") (lit "notepad")
    ∷ registers (lit "w2") (lit "Files") (lit "files")
    ∷ sets_state (lit "w2") false true
    ∷ unregisters (lit "w1")
    ∷ []

follow-Mirrors_example :
    Mirrors (follow (no_windows, bar) session).0 (follow (no_windows, bar) session).1
unfolding perform register_window Dict.lookup Dict.insert text_eq lit
follow-Mirrors_example =
    follow-Mirrors no_windows bar session bar-Mirrors (refl, (refl, (tt, (tt, tt))))

register_again_diverges_example :
    entry_of
      (lit "w1")
      (follow
        (one_window, one_row)
        (registers (lit "w1") (lit "Notes") (lit "notepad")
          ∷ sets_state (lit "w1") false false
          ∷ [])).1.windows
    ≡ some editor
unfolding Dict.lookup text_eq lit
register_again_diverges_example =
    (register_again_diverges one_window one_row (lit "w1") (lit "Notes") (lit "notepad")
      {w = editor} one_row-Mirrors refl refl).1

abbrev history : List Call
history =
    registers (lit "w1") (lit "Notes") (lit "notepad")
    ∷ registers (lit "w3") (lit "Clock") (lit "clock")
    ∷ registers (lit "w2") (lit "Files") (lit "files")
    ∷ sets_state (lit "w2") false true
    ∷ unregisters (lit "w3")
    ∷ []

abbrev two_windows : Registry
two_windows = after_calls (init true true).0 history

-- The answers about the two windows come mixed up.
abbrev mixed : List (Text × Question)
mixed =
    (lit "w2", focused_question)
    ∷ (lit "w1", title_question)
    ∷ (lit "w2", title_question)
    ∷ (lit "w1", focused_question)
    ∷ (lit "w1", minimized_question)
    ∷ (lit "w2", app_id_question)
    ∷ (lit "w1", app_id_question)
    ∷ (lit "w2", minimized_question)
    ∷ []

mixed-SameCalls : SameCalls mixed (calls_for (some (list_window_ids two_windows)))
unfolding times calls_for list_window_ids Dict.keys Dict.insert Dict.erase after_calls init perform
    register_window unregister_window update_window_state Dict.lookup text_eq lit
mixed-SameCalls j title_question = ground arith
mixed-SameCalls j app_id_question = ground arith
mixed-SameCalls j minimized_question = ground arith
mixed-SameCalls j focused_question = ground arith

abbrev later : List Call
later = sets_state (lit "w1") false true ∷ unregisters (lit "w2") ∷ []

follow-started-Mirrors_example :
    let (r, t) = follow (two_windows, started two_windows bar mixed) later in Mirrors r t
follow-started-Mirrors_example =
    follow-started-Mirrors true true history later bar mixed refl mixed-SameCalls (tt, (tt, tt))

seeding_leaves_ghost_example :
    entry_of
      (lit "w1")
      (on_replies
        (lit "w1")
        ((on_window_unregistered bar (lit "w1")).0, fresh)
        (answers (unregister_window one_window (lit "w1")).0 (lit "w1") (
          title_question ∷ app_id_question ∷ minimized_question ∷ focused_question ∷ []))).0.windows
    ≡ some no_window
unfolding entry_of
seeding_leaves_ghost_example =
    (seeding_leaves_ghost one_window bar (lit "w1") title_question app_id_question
      minimized_question focused_question (refl, refl, refl, refl, refl, refl) tt refl).1
