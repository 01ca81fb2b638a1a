-- ===== src/DesktopIcons/Model.antt =====
-- desktop/shell/src/DesktopIconModel.cpp: the list of icons and its scans. What the watcher watches is
-- a list of directories and one of files.
use nira_os.Base.{
  ℕ, ℤ, row_of, Bool, false, not, ◌&&◌, same, Option, none, some, List, [], ◌∷◌, ◌++◌, Text, lit,
  is_empty, length, get_elem?, keep, mem_text, if◌then◌else◌,
}
use nira_os.Files.System.{FileSystem}
use nira_os.FileModel.Entry.{Field, Value, invalid}
use nira_os.DesktopIcons.Disk.{Disk, FileInfo, Texts}
use nira_os.DesktopIcons.Entry.{DesktopEntry, Role, entry_data, entry_map, entry_from_info}

pub record DesktopIconModel : Type 0 where
  pub desktop_path : Text
  pub entries : List DesktopEntry
  pub watched_dirs : List Text
  pub watched_files : List Text
  pub show_hidden : Bool
  pub reloading : Bool

pub data Signal : Type 0 where
  model_reset icon_count_changed show_hidden_changed : Signal

abbrev pub Done : Type 0
Done = DesktopIconModel × List Signal

-- `QFileSystemWatcher::addPath`, which does nothing for a path that is watched.
abbrev pub add_path : Text → List Text → List Text
add_path path watched = if mem_text path watched then watched else path ∷ watched

unfoldable pub row_count : DesktopIconModel → Bool → ℕ
row_count m parent_is_valid = if parent_is_valid then 0 else length m.entries

unfoldable pub model_data : DesktopIconModel → Option ℕ → Role → Value
model_data m none role = invalid
model_data m (some row) role = elim (get_elem? m.entries row) [
  | none ↦ invalid
  | some e ↦ entry_data e role
]

unfoldable pub get : DesktopIconModel → ℤ → List (Text × Field)
get m row = elim (row_of m.entries row) [ none ↦ [] | some e ↦ entry_map e ]

module _ (fs : FileSystem) (disk : Disk fs) (texts : Texts) where
  open disk use {entry_info_list}

  -- The loop over the listing: the watched files, and the entries.
  unfoldable pub scan_infos :
      fs.State → Bool → List FileInfo → List Text → List Text × List DesktopEntry
  scan_infos s show_hidden [] watched = (watched, [])
  scan_infos s show_hidden (info ∷ infos) watched =
      let skip = not show_hidden && info.hidden in
      let now = if not skip && info.is_file then add_path info.absolute_path watched else watched in
      let (later, entries) = scan_infos s show_hidden infos now in
      (later, if skip then entries else entry_from_info texts fs disk s info ∷ entries)

  unfoldable pub scan_directory : fs.State → DesktopIconModel → Done
  scan_directory s m =
      let files = keep (fs.exists s) m.watched_files in
      let (watched, next) = scan_infos s m.show_hidden (entry_info_list s m.desktop_path) files in
      let scanned = record m {
        entries = next;
        watched_dirs = add_path m.desktop_path m.watched_dirs;
        watched_files = watched;
        reloading = false;
      } in
      if not (fs.is_dir s m.desktop_path)
      then (if not (is_empty m.entries)
          then (record m { entries = [] }, model_reset ∷ icon_count_changed ∷ [])
          else (m, []))
      else (scanned, model_reset ∷ icon_count_changed ∷ [])

  -- The constructor, for the location that Qt gives for the desktop.
  unfoldable pub init :
      (absolute_path : Text → Text) → (location home : Text) → fs.State → Done × fs.State
  init absolute_path location home s =
      let desktop =
        absolute_path (if is_empty location then home ++ lit "/Desktop" else location) in
      let (_, t) = fs.make_path s desktop in
      let m : DesktopIconModel = record {
        desktop_path = desktop;
        entries = [];
        watched_dirs = [];
        watched_files = [];
        show_hidden = false;
        reloading = false;
      } in
      (scan_directory t m, t)

  unfoldable pub set_show_hidden : fs.State → DesktopIconModel → Bool → Done
  set_show_hidden s m show =
      let (t, signals) = scan_directory s (record m { show_hidden = show }) in
      if same show m.show_hidden then (m, []) else (t, show_hidden_changed ∷ signals)

  -- The watcher's signals, for a directory and for a file.
  unfoldable pub on_directory_changed : fs.State → DesktopIconModel → Text → Done
  on_directory_changed s m path = if m.reloading then (m, []) else scan_directory s m

  unfoldable pub on_file_changed : fs.State → DesktopIconModel → Text → Done
  on_file_changed s m path = if m.reloading then (m, []) else scan_directory s m

  unfoldable pub refresh : fs.State → DesktopIconModel → Done
  refresh s m = scan_directory s m
