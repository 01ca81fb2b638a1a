-- ===== src/DesktopIcons/Actions.antt =====
-- desktop/shell/src/DesktopIconModel.cpp: what the menus of the desktop do to the disk.
use nira_os.Base.{
  ℕ, zero, suc, ◌+◌, ℤ, row_of, Bool, true, false, not, ◌&&◌, ◌||◌, Option, none, some, [], ◌∷◌,
  ◌++◌, Text, lit, is_empty, text_eq, has_char, if◌then◌else◌,
}
use nira_os.Files.System.{FileSystem, Paths}
use nira_os.Files.Operations.{trash_target}
use nira_os.Apps.FieldCodes.{strip_field_codes}
use nira_os.DesktopIcons.Disk.{Disk}
use nira_os.DesktopIcons.Entry.{DesktopEntry}
use nira_os.DesktopIcons.Model.{DesktopIconModel}

-- What is written into a shortcut. 10 is the end of a line.
unfoldable pub line : Text → Text → Text
line t rest = t ++ (10 ∷ rest)

unfoldable pub shortcut_text : Text → Text → Text
shortcut_text name target = line (lit "[Desktop Entry]") (
    line (lit "Type=Link") (
      line (lit "Name=" ++ name)
        (line (lit "URL=file://" ++ target) (line (lit "Icon=folder") []))))

-- "%1 (%2)%3"
unfoldable pub numbered_name : Paths → Text → Text → ℕ → Text
numbered_name paths base suffix i =
    paths.arg (paths.arg (paths.arg (lit "%1 (%2)%3") base) (paths.digits i)) suffix

-- The loop of `uniqueName`, from a candidate and the number of the next one; it breaks after 9999
-- rounds.
unfoldable pub unique_from : ℕ → (ℕ → Text) → (Text → Bool) → ℕ → Text → Text
unique_from zero name taken i candidate = candidate
unique_from (suc rounds) name taken i candidate =
    let rest = unique_from rounds name taken (i + 1) (name i) in
    if taken candidate then rest else candidate

module _ (fs : FileSystem) (disk : Disk fs) (paths : Paths) where
  open fs use {
    State, exists, is_dir, copy_file, rename_file, remove_file, make_path, create_empty, gio_trash,
    start_detached,
  }
  open disk use {write_text, make_executable, execute}
  open paths use {file_name, absolute_path, absolute_in, data_location}

  abbrev pub Result : Type 0
  Result = Bool × State

  -- The started command; its `trimmed()` copy is not used.
  unfoldable pub launch_entry : State → DesktopEntry → Bool
  launch_entry s e =
      if e.is_shortcut && not (is_empty e.exec)
      then start_detached s (lit "sh") (lit "-c" ∷ strip_field_codes e.exec ∷ [])
      else start_detached s (lit "xdg-open") (e.file_path ∷ [])

  unfoldable pub launch : State → DesktopIconModel → ℤ → Bool
  launch s m row = elim (row_of m.entries row) [ none ↦ false | some e ↦ launch_entry s e ]

  unfoldable pub rename_to : State → DesktopEntry → Text → Result
  rename_to s e new_name =
      let target = absolute_in (absolute_path e.file_path) new_name in
      if is_empty new_name
      then (false, s)
      else if has_char 47 new_name || has_char 92 new_name
      then (false, s)
      else if exists s target && not (text_eq target e.file_path)
      then (false, s)
      else rename_file s e.file_path target

  unfoldable pub rename_entry : State → DesktopIconModel → ℤ → Text → Result
  rename_entry s m row new_name = elim (row_of m.entries row) [
    | none ↦ (false, s)
    | some e ↦ rename_to s e new_name
  ]

  unfoldable pub move_to_trash : State → Text → Result
  move_to_trash s path =
      let (trashed, s1) = gio_trash s path in
      let (_, s2) = make_path s1 (data_location ++ lit "/Trash/files") in
      let target = trash_target fs paths s2 path in
      let (renamed, s3) = rename_file s2 path target in
      let (copied_dir, s4) = execute s3 (lit "cp") (lit "-r" ∷ path ∷ target ∷ []) in
      let (removed_dir, s5) = execute s4 (lit "rm") (lit "-rf" ∷ path ∷ []) in
      let (copied, t4) = copy_file s3 path target in
      let (removed, t5) = remove_file t4 path in
      if trashed
      then (true, s1)
      else if renamed
      then (true, s3)
      else if is_dir s3 path
      then (if copied_dir then (removed_dir, s5) else (false, s4))
      else if copied
      then (removed, t5)
      else (false, t4)

  -- The row, if there is one.
  unfoldable pub trash_at : State → Option DesktopEntry → Result
  trash_at s none = (false, s)
  trash_at s (some e) = move_to_trash s e.file_path

  unfoldable pub trash_entry : State → DesktopIconModel → ℤ → Result
  trash_entry s m row = trash_at s (row_of m.entries row)

  unfoldable pub open_desktop_folder : State → DesktopIconModel → Bool
  open_desktop_folder s m = start_detached s (lit "xdg-open") (m.desktop_path ∷ [])

  unfoldable pub unique_name : State → Text → Text → Text → Text
  unique_name s dir base suffix =
      unique_from 9999 (numbered_name paths base suffix) (λ name. exists s (absolute_in dir name)) 2
        (base ++ suffix)

  -- The path of what was made, or nothing.
  unfoldable pub create_folder : State → DesktopIconModel → Text × State
  create_folder s m =
      let full = absolute_in m.desktop_path (unique_name s m.desktop_path (lit "New Folder") []) in
      let (made, t) = make_path s full in if not made then ([], t) else (full, t)

  unfoldable pub create_file : State → DesktopIconModel → Text × State
  create_file s m =
      let full =
        absolute_in m.desktop_path (unique_name s m.desktop_path (lit "New File") (lit ".txt")) in
      let (opened, t) = create_empty s full in if not opened then ([], t) else (full, t)

  unfoldable pub shortcut_path : State → DesktopIconModel → Text → Text
  shortcut_path s m name =
      absolute_in m.desktop_path (unique_name s m.desktop_path (name ++ lit ".desktop") [])

  unfoldable pub create_shortcut : State → DesktopIconModel → Text → Text → Result
  create_shortcut s m target display_name =
      let safe_name = if is_empty display_name then file_name target else display_name in
      let file = shortcut_path s m safe_name in
      let (opened, t) = write_text s file (shortcut_text safe_name target) in
      if is_empty target
      then (false, s)
      else if not opened
      then (false, t)
      else (true, make_executable t file)
