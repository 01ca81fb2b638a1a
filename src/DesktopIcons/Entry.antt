-- ===== src/DesktopIcons/Entry.antt =====
-- desktop/shell/src/DesktopIconModel.cpp: one icon, and how it is read from the disk.
use nira_os.Base.{
  ℕ, pos, int_eq, Bool, false, not, ◌&&◌, Option, none, some, List, [], ◌∷◌, Text, lit, text_eq,
  is_empty, if◌then◌else◌,
}
use nira_os.Files.System.{FileSystem}
use nira_os.Apps.DesktopFile.{read_lines}
use nira_os.FileModel.Entry.{Field, text, number, flag, Value, field, fields, invalid}
use nira_os.DesktopIcons.Disk.{Disk, FileInfo, Texts}

pub record DesktopEntry : Type 0 where
  pub name : Text
  pub file_path : Text
  pub target_path : Text
  pub icon_name : Text
  pub mime_type : Text
  pub exec : Text
  pub is_directory : Bool
  pub is_shortcut : Bool
  pub is_executable : Bool
  pub is_hidden : Bool
  pub file_size : ℕ
  pub last_modified : ℕ

pub data Role : Type 0 where
  name_role file_path_role target_path_role icon_name_role mime_type_role exec_role : Role
  is_directory_role is_shortcut_role is_executable_role is_hidden_role : Role
  file_size_role last_modified_role entry_role other_role : Role

-- The name of a role for QML, if it has one.
unfoldable pub role_name : Role → Option Text
role_name name_role = some (lit "name")
role_name file_path_role = some (lit "filePath")
role_name target_path_role = some (lit "targetPath")
role_name icon_name_role = some (lit "iconName")
role_name mime_type_role = some (lit "mimeType")
role_name exec_role = some (lit "exec")
role_name is_directory_role = some (lit "isDirectory")
role_name is_shortcut_role = some (lit "isShortcut")
role_name is_executable_role = some (lit "isExecutable")
role_name is_hidden_role = some (lit "isHidden")
role_name file_size_role = some (lit "fileSize")
role_name last_modified_role = some (lit "lastModified")
role_name entry_role = some (lit "entry")
role_name other_role = none

-- The map that `get` and the role for the whole entry give.
unfoldable pub entry_map : DesktopEntry → List (Text × Field)
entry_map e =
    (lit "name", text e.name)
    ∷ (lit "filePath", text e.file_path)
    ∷ (lit "targetPath", text e.target_path)
    ∷ (lit "iconName", text e.icon_name)
    ∷ (lit "mimeType", text e.mime_type)
    ∷ (lit "exec", text e.exec)
    ∷ (lit "isDirectory", flag e.is_directory)
    ∷ (lit "isShortcut", flag e.is_shortcut)
    ∷ (lit "isExecutable", flag e.is_executable)
    ∷ (lit "isHidden", flag e.is_hidden)
    ∷ (lit "fileSize", number e.file_size)
    ∷ (lit "lastModified", number e.last_modified)
    ∷ []

unfoldable pub entry_data : DesktopEntry → Role → Value
entry_data e name_role = field (text e.name)
entry_data e file_path_role = field (text e.file_path)
entry_data e target_path_role = field (text e.target_path)
entry_data e icon_name_role = field (text e.icon_name)
entry_data e mime_type_role = field (text e.mime_type)
entry_data e exec_role = field (text e.exec)
entry_data e is_directory_role = field (flag e.is_directory)
entry_data e is_shortcut_role = field (flag e.is_shortcut)
entry_data e is_executable_role = field (flag e.is_executable)
entry_data e is_hidden_role = field (flag e.is_hidden)
entry_data e file_size_role = field (number e.file_size)
entry_data e last_modified_role = field (number e.last_modified)
entry_data e entry_role = fields (entry_map e)
entry_data e other_role = invalid

-- The variables that the parser's loop fills.
pub record Keys : Type 0 where
  pub name : Text
  pub icon : Text
  pub exec : Text
  pub url : Text
  pub path : Text
  pub type : Text

unfoldable pub no_keys : Keys
no_keys = record { name = []; icon = []; exec = []; url = []; path = []; type = [] }

unfoldable pub assign : Text → Text → Keys → Keys
assign key val k =
    if text_eq key (lit "Name")
    then record k { name = val }
    else if text_eq key (lit "Icon")
    then record k { icon = val }
    else if text_eq key (lit "Exec")
    then record k { exec = val }
    else if text_eq key (lit "URL")
    then record k { url = val }
    else if text_eq key (lit "Path")
    then record k { path = val }
    else if text_eq key (lit "Type")
    then record k { type = val }
    else k

module _ (texts : Texts) where
  open texts use {trimmed, split_command, compare_ignoring_case, is_local_file, to_local_file}

  -- `targetPath`: the path, or else the URL, or else the command's first word.
  unfoldable pub target_of : Keys → Text
  target_of k =
      let from_url = if is_local_file k.url then to_local_file k.url else k.url in
      let first = if is_empty k.path && not (is_empty k.url) then from_url else k.path in
      let word : Text = elim (split_command k.exec) [
        | [] ↦ first
        | program ∷ arguments ↦ program
      ] in
      if is_empty first && not (is_empty k.exec) then word else first

  unfoldable pub with_keys : DesktopEntry → Keys → DesktopEntry
  with_keys e k = record e {
    name = if not (is_empty k.name) then k.name else e.name;
    icon_name = if is_empty k.icon then lit "application-x-desktop" else k.icon;
    exec = k.exec;
    target_path = target_of k;
  }

  -- From the lines of the file, if it can be opened.
  unfoldable pub parse_desktop_file : DesktopEntry → Option (List Text) → DesktopEntry
  parse_desktop_file e none = record e { icon_name = lit "text-x-generic" }
  parse_desktop_file e (some lines) = with_keys e (read_lines trimmed assign false lines no_keys)

  unfoldable pub entry_from_info : (fs : FileSystem) → Disk fs → fs.State → FileInfo → DesktopEntry
  entry_from_info fs disk s info =
      let shortcut = int_eq (compare_ignoring_case info.suffix (lit "desktop")) (pos 0) in
      let icon =
        if info.is_dir
        then lit "folder"
        else if info.executable
        then lit "application-x-executable"
        else info.mime_icon in
      let e : DesktopEntry = record {
        name = info.name;
        file_path = info.absolute_path;
        target_path = [];
        icon_name = if shortcut then [] else icon;
        mime_type = info.mime;
        exec = [];
        is_directory = info.is_dir;
        is_shortcut = shortcut;
        is_executable = info.executable;
        is_hidden = info.hidden;
        file_size = info.size;
        last_modified = info.modified;
      } in
      if shortcut then parse_desktop_file e (disk.read_lines s info.absolute_path) else e
