-- ===== src/Apps/AppModel.antt =====
-- desktop/shell/src/AppModel.h and AppModel.cpp: the installed applications, from their `.desktop`
-- files. The scan threads the paths that it has seen and the applications that it has found.
use nira_os.Base.{
  ℕ, ℤ, is_negative, row_of, Bool, true, false, not, ◌&&◌, ◌||◌, Option, none, some, List, [], ◌∷◌,
  ◌++◌, Text, lit, text_eq, mem_text, is_empty, length, get_elem?, if◌then◌else◌, int_eq, pos,
}
use nira_os.Base.Sorting.{sort}
use nira_os.Apps.DesktopFile.{read_lines}
use nira_os.Apps.FieldCodes.{strip_field_codes}

pub record AppEntry : Type 0 where
  pub app_id : Text
  pub name : Text
  pub generic_name : Text
  pub icon_name : Text
  pub exec : Text
  pub categories : List Text

pub data Role : Type 0 where
  name_role icon_name_role exec_role generic_name_role app_id_role other_role : Role

-- The name of a role for QML, if it has one.
unfoldable pub role_name : Role → Option Text
role_name name_role = some (lit "name")
role_name icon_name_role = some (lit "iconName")
role_name exec_role = some (lit "exec")
role_name generic_name_role = some (lit "genericName")
role_name app_id_role = some (lit "appId")
role_name other_role = none

-- The variables that the parser's loop fills.
pub record Keys : Type 0 where
  pub type : Text
  pub name : Text
  pub generic_name : Text
  pub icon_name : Text
  pub raw_exec : Text
  pub categories : Text
  pub no_display : Text
  pub hidden : Text
  pub terminal : Text
  pub try_exec : Text
  pub only_show_in : Text
  pub not_show_in : Text

-- What the code asks of Qt: the disk, and functions on texts.
pub record Qt : Type 0 where
  pub application_dirs : List Text
  pub home : Text
  pub dir_exists : Text → Bool
  -- The readable `*.desktop` files of a directory, by their absolute paths.
  pub desktop_files : Text → List Text
  -- The lines of a file, if it can be opened.
  pub read_file : Text → Option (List Text)
  pub find_executable : Text → Text
  pub complete_base_name : Text → Text
  pub trimmed : Text → Text
  -- `split(';', Qt::SkipEmptyParts)`
  pub split_list : Text → List Text
  pub split_command : Text → List Text
  pub compare_ignoring_case : Text → Text → ℤ

unfoldable pub no_keys : Keys
no_keys = record {
  type = [];
  name = [];
  generic_name = [];
  icon_name = [];
  raw_exec = [];
  categories = [];
  no_display = [];
  hidden = [];
  terminal = [];
  try_exec = [];
  only_show_in = [];
  not_show_in = [];
}

unfoldable pub assign : Text → Text → Keys → Keys
assign key val k =
    if text_eq key (lit "Type")
    then record k { type = val }
    else if text_eq key (lit "Name")
    then record k { name = val }
    else if text_eq key (lit "GenericName")
    then record k { generic_name = val }
    else if text_eq key (lit "Icon")
    then record k { icon_name = val }
    else if text_eq key (lit "Exec")
    then record k { raw_exec = val }
    else if text_eq key (lit "Categories")
    then record k { categories = val }
    else if text_eq key (lit "NoDisplay")
    then record k { no_display = val }
    else if text_eq key (lit "Hidden")
    then record k { hidden = val }
    else if text_eq key (lit "Terminal")
    then record k { terminal = val }
    else if text_eq key (lit "TryExec")
    then record k { try_exec = val }
    else if text_eq key (lit "OnlyShowIn")
    then record k { only_show_in = val }
    else if text_eq key (lit "NotShowIn")
    then record k { not_show_in = val }
    else k

unfoldable pub row_count : List AppEntry → Bool → ℕ
row_count apps parent_is_valid = if parent_is_valid then 0 else length apps

unfoldable pub app_data : AppEntry → Role → Option Text
app_data app name_role = some app.name
app_data app icon_name_role = some app.icon_name
app_data app exec_role = some app.exec
app_data app generic_name_role = some app.generic_name
app_data app app_id_role = some app.app_id
app_data app other_role = none

unfoldable pub model_data : List AppEntry → Option ℕ → Role → Option Text
model_data apps none role = none
model_data apps (some row) role = elim (get_elem? apps row) [
  | none ↦ none
  | some app ↦ app_data app role
]

unfoldable pub exec_at : List AppEntry → ℤ → Text
exec_at apps row = elim (row_of apps row) [ none ↦ [] | some app ↦ app.exec ]

module _ (qt : Qt) where
  open qt use {
    application_dirs, home, dir_exists, desktop_files, read_file, find_executable,
    complete_base_name, trimmed, split_list, split_command, compare_ignoring_case,
  }

  abbrev is_true : Text → Bool
  is_true t = int_eq (compare_ignoring_case t (lit "true")) (pos 0)

  unfoldable pub strip_exec_field_codes : Text → Text
  strip_exec_field_codes raw = trimmed (strip_field_codes raw)

  -- `TryExec` names a program that is installed, or there is none.
  unfoldable pub can_try : Text → Bool
  can_try try_exec = if is_empty try_exec then true else elim (split_command try_exec) [
    | [] ↦ false
    | program ∷ arguments ↦ not (is_empty (find_executable program))
  ]

  -- The validation, after the loop.
  unfoldable pub is_shown : Keys → Bool
  is_shown k =
      let only_desktops = split_list k.only_show_in in
      if not (text_eq k.type (lit "Application"))
      then false
      else if is_true k.no_display || is_true k.hidden
      then false
      else if not (is_empty only_desktops) && not (mem_text (lit "NiraOS") only_desktops)
      then false
      else if mem_text (lit "NiraOS") (split_list k.not_show_in)
      then false
      else can_try k.try_exec

  unfoldable pub app_entry : Text → Keys → AppEntry
  app_entry path k =
      let exec = strip_exec_field_codes k.raw_exec in
      record {
        app_id = complete_base_name path;
        name = if is_empty k.name then complete_base_name path else k.name;
        generic_name = k.generic_name;
        icon_name = k.icon_name;
        exec = if is_true k.terminal then lit "qterminal -e " ++ exec else exec;
        categories = split_list k.categories;
      }

  -- The applications that a file adds: none or one.
  unfoldable pub parse_lines : Text → List Text → List AppEntry
  parse_lines path lines =
      let k = read_lines trimmed assign false lines no_keys in
      if not (is_shown k)
      then []
      else if is_empty (strip_exec_field_codes k.raw_exec)
      then []
      else app_entry path k ∷ []

  unfoldable pub parse_desktop_file : Text → List AppEntry
  parse_desktop_file path = elim (read_file path) [
    | none ↦ []
    | some lines ↦ parse_lines path lines
  ]

  abbrev pub Scan : Type 0
  Scan = List Text × List AppEntry

  -- One file, the loop over the files of a directory, and that over the directories.
  unfoldable pub scan_file : Text → Scan → Scan
  scan_file path (seen, apps) =
      if not (mem_text path seen)
      then (path ∷ seen, apps ++ parse_desktop_file path)
      else (seen, apps)

  unfoldable pub scan_files : List Text → Scan → Scan
  scan_files [] s = s
  scan_files (path ∷ paths) s = scan_files paths (scan_file path s)

  unfoldable pub scan_dir : Text → Scan → Scan
  scan_dir dir s = if not (dir_exists dir) then s else scan_files (desktop_files dir) s

  unfoldable pub scan_dirs : List Text → Scan → Scan
  scan_dirs [] s = s
  scan_dirs (dir ∷ dirs) s = scan_dirs dirs (scan_dir dir s)

  unfoldable pub scan_directories : List AppEntry
  scan_directories =
      (scan_dir (home ++ lit "/.local/share/applications") (scan_dirs application_dirs ([], []))).1

  unfoldable pub init : List AppEntry
  init =
      sort (λ (a b : AppEntry). is_negative (compare_ignoring_case a.name b.name)) scan_directories
