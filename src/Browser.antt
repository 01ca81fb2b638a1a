-- ===== src/Browser.antt =====
-- apps/files/src/main.cpp: how the file manager joins its list of a folder (FileModel) and the watch of
-- that folder (Watcher).
use nira_os.Base.{Bool, true, false, List, [], ◌∷◌, Text, if◌then◌else◌}
use nira_os.FileModel
use nira_os.FileModel.{
  Qt, FileModel, Signal, current_path_changed, refresh, set_current_path, navigate_up, navigate_to,
}
use nira_os.Watcher
use nira_os.Watcher.{FileSystemWatcher, Effect, directory_changed, set_watched_path, Event}
pub mod Wiring
mod Tests

pub record Browser : Type 0 where
  pub model : FileModel
  pub watcher : FileSystemWatcher

abbrev pub is_path_change : Signal → Bool
is_path_change current_path_changed = true
is_path_change signal = false

abbrev pub changes_path : List Signal → Bool
changes_path [] = false
changes_path (current_path_changed ∷ signals) = true
changes_path (signal ∷ signals) = changes_path signals

-- The connection from the list to the watch.
unfoldable pub follow : Browser → FileModel.Done → Browser
follow b (m, signals) = record {
  model = m;
  watcher =
      if changes_path signals then (set_watched_path b.watcher m.current_path).0 else b.watcher;
}

module _ (qt : Qt) where
  -- The start: the home folder is opened before the connections are made.
  unfoldable pub start : Text → Browser
  start home = record {
    model = (set_current_path qt FileModel.init home).0;
    watcher = Watcher.init;
  }

  unfoldable pub open_path : Browser → Text → Browser
  open_path b path = follow b (set_current_path qt b.model path)

  unfoldable pub go_to : Browser → Text → Browser
  go_to b path = follow b (navigate_to qt b.model path)

  unfoldable pub go_up : Browser → Browser
  go_up b = follow b (navigate_up qt b.model)

  -- The connection from the watch to the list: a reload for each folder that is reported.
  unfoldable pub reload : FileModel → List Effect → FileModel
  reload m [] = m
  reload m (directory_changed path ∷ effects) = reload (refresh qt m).0 effects
  reload m (effect ∷ effects) = reload m effects

  unfoldable pub on_watcher : Browser → Event → Browser
  on_watcher b e =
      let (w, effects) = Watcher.step b.watcher e in
      record { model = reload b.model effects; watcher = w }
