-- ===== src/Watcher.antt =====
-- apps/files/src/FileSystemWatcher.h and FileSystemWatcher.cpp: changes of the watched folder, reported
-- together when none has come for 300 ms. A `QSet` is a list without doubles, whose order says nothing.
use nira_os.Base.{
  Bool, true, false, not, List, [], ◌∷◌, ◌++◌, map, Text, text_eq, mem_text, is_empty,
  if◌then◌else◌,
}
pub mod Debounce
mod Tests

pub record FileSystemWatcher : Type 0 where
  pub watched_path : Text
  pub pending_dirs : List Text
  pub pending_files : List Text
  pub timer_running : Bool

-- Signals, and the calls of Qt's watcher.
pub data Effect : Type 0 where
  watched_path_changed : Effect
  directory_changed file_changed : Text → Effect
  remove_path add_path : Text → Effect

abbrev pub Done : Type 0
Done = FileSystemWatcher × List Effect

unfoldable pub init : FileSystemWatcher
init = record { watched_path = []; pending_dirs = []; pending_files = []; timer_running = false }

unfoldable pub set_watched_path : FileSystemWatcher → Text → Done
set_watched_path s path = if text_eq path s.watched_path then (s, []) else (
  record s { watched_path = path },
  (if not (is_empty s.watched_path) then remove_path s.watched_path ∷ [] else [])
      ++ (watched_path_changed ∷ (if not (is_empty path) then add_path path ∷ [] else [])),
)

-- `QSet::insert`
unfoldable pub put : Text → List Text → List Text
put p paths = if mem_text p paths then paths else p ∷ paths

unfoldable pub on_directory_changed : FileSystemWatcher → Text → FileSystemWatcher
on_directory_changed s path = record s {
  pending_dirs = put path s.pending_dirs;
  timer_running = true;
}

unfoldable pub on_file_changed : FileSystemWatcher → Text → FileSystemWatcher
on_file_changed s path = record s { pending_files = put path s.pending_files; timer_running = true }

unfoldable pub on_debounce_timeout : FileSystemWatcher → Done
on_debounce_timeout s = (
  record s { pending_dirs = []; pending_files = [] },
  map directory_changed s.pending_dirs ++ map file_changed s.pending_files,
)

-- What happens to the watcher: a call, Qt's signals, and the single-shot timer.
pub data Event : Type 0 where
  path_set dir_event file_event : Text → Event
  timer_fired : Event

unfoldable pub step : FileSystemWatcher → Event → Done
step s (path_set path) = set_watched_path s path
step s (dir_event path) = (on_directory_changed s path, [])
step s (file_event path) = (on_file_changed s path, [])
step s timer_fired =
    if s.timer_running then on_debounce_timeout (record s { timer_running = false }) else (s, [])

unfoldable pub run : FileSystemWatcher → List Event → Done
run s [] = (s, [])
run s (e ∷ es) = let (t, effects) = step s e in let (u, more) = run t es in (u, effects ++ more)
