-- ===== src/Files/Operations.antt =====
-- apps/files/src/FileOperations.h and FileOperations.cpp. An operation returns the new state of the
-- file system with the signals that it emits; `QtConcurrent` is left out, each operation runs as one.
-- The recursion over folders takes fuel, and `none` means that it ran out.
use nira_os.Base.{
  ℕ, zero, suc, ◌==◌, Bool, true, false, not, ◌&&◌, Option, none, some, List, [], ◌∷◌, ◌++◌, Text,
  lit, text_eq, if◌then◌else◌,
}
use nira_os.Files.System.{FileSystem, Entry, Paths}
use nira_os.Files.Names.{is_safe_name, numbered, copy_name, first_free}

-- The `…Finished(success, error)` signals, and `operationProgress`.
pub data Signal : Type 0 where
  copy_finished move_finished rename_finished delete_finished : Bool → Text → Signal
  create_folder_finished create_file_finished duplicate_finished : Bool → Text → Signal
  operation_progress : Text → Signal

-- What the source's `bool` functions return, and the new state, if the fuel sufficed.
abbrev pub Outcome : Type 0 → Type 0
Outcome S = Option (Bool × S)

-- The next step of a function that stops at the first failure.
abbrev pub and_then : {S : Type 0} → Outcome S → (S → Outcome S) → Outcome S
and_then none k = none
and_then (some (false, s)) k = some (false, s)
and_then (some (true, s)) k = k s

module _ (fs : FileSystem) (paths : Paths) where
  open fs use {
    State, exists, is_dir, entries, copy_file, rename_file, remove_file, make_path, remove_dir,
    create_empty, gio_trash, start_detached, error_string,
  }
  open paths use {
    file_name, complete_base_name, suffix, absolute_file_path, absolute_path, absolute_in,
    data_location,
  }

  unfoldable pub resolve_destination : State → Text → Text → Text
  resolve_destination s source dest =
      if is_dir s dest then absolute_in dest (file_name source) else dest

  -- The loop over `entryInfoList`, with what is done for a folder.
  unfoldable pub copy_entries :
      (State → Text → Text → Outcome State) → Text → List Entry → State → Outcome State
  copy_entries copy_dir dest [] s = some (true, s)
  copy_entries copy_dir dest (e ∷ es) s =
      let target = absolute_in dest e.name in
      let copied =
        if e.is_directory then copy_dir s e.path target else some (copy_file s e.path target) in
      and_then copied (λ t. copy_entries copy_dir dest es t)

  unfoldable pub perform_recursive_copy : ℕ → State → Text → Text → Outcome State
  perform_recursive_copy zero s source dest = none
  perform_recursive_copy (suc fuel) s source dest =
      let made = if is_dir s dest then (true, s) else make_path s dest in
      let copy_all = λ (t : State).
        copy_entries (λ u a b. perform_recursive_copy fuel u a b) dest (entries t source) t in
      if not (is_dir s source) then some (false, s) else and_then (some made) copy_all

  unfoldable pub delete_entries :
      (State → Text → Outcome State) → List Entry → State → Outcome State
  delete_entries delete_dir [] s = some (true, s)
  delete_entries delete_dir (e ∷ es) s =
      let deleted = if e.is_directory then delete_dir s e.path else some (remove_file s e.path) in
      and_then deleted (λ t. delete_entries delete_dir es t)

  unfoldable pub perform_recursive_delete : ℕ → State → Text → Outcome State
  perform_recursive_delete zero s path = none
  perform_recursive_delete (suc fuel) s path =
      let emptied = delete_entries (λ t a. perform_recursive_delete fuel t a) (entries s path) s in
      if not (is_dir s path)
      then some (true, s)
      else and_then emptied (λ t. some (remove_dir t path))

  -- The name in the trash: the file's own, then numbered ones; the last if all 10000 are used.
  unfoldable pub trash_target : State → Text → Text
  trash_target s path =
      let base = complete_base_name path in
      let ext = suffix path in
      let in_trash = λ (name : Text). data_location ++ (lit "/Trash/files" ++ (47 ∷ name)) in
      first_free 10000 0
        (λ i. in_trash (if i == 0 then file_name path else numbered paths base i ext)) (exists s) []

  unfoldable pub move_to_trash : ℕ → State → Text → Outcome State
  move_to_trash fuel s path =
      let (trashed, s1) = gio_trash s path in
      let (_, s2) = make_path s1 (data_location ++ lit "/Trash/files") in
      let target = trash_target s2 path in
      let (renamed, s3) = rename_file s2 path target in
      let copied =
        if is_dir s3 path
        then perform_recursive_copy fuel s3 path target
        else some (copy_file s3 path target) in
      if trashed
      then some (true, s1)
      else if renamed
      then some (true, s3)
      else and_then copied (λ t. perform_recursive_delete fuel t path)

  unfoldable pub perform_delete : ℕ → State → Text → Bool → Outcome State
  perform_delete fuel s path permanent =
      if not (exists s path)
      then some (true, s)
      else if not permanent
      then move_to_trash fuel s path
      else if is_dir s path
      then perform_recursive_delete fuel s path
      else some (remove_file s path)

  unfoldable pub perform_copy : State → Text → Text → Outcome State
  perform_copy s source dest = some (copy_file s source dest)

  unfoldable pub perform_move : ℕ → State → Text → Text → Outcome State
  perform_move fuel s source dest =
      let (renamed, t) = rename_file s source dest in
      let copied =
        if is_dir t source
        then perform_recursive_copy fuel t source dest
        else some (copy_file t source dest) in
      if renamed then some (true, t) else and_then copied (λ u. perform_delete fuel u source false)

  -- The public operations: the signals, and the state after them.
  abbrev pub Done : Type 0
  Done = Option (List Signal × State)

  -- `finished(success, success ? "" : message)`
  abbrev pub report : (Bool → Text → Signal) → Text → Outcome State → Done
  report finished message none = none
  report finished message (some (true, s)) = some (finished true [] ∷ [], s)
  report finished message (some (false, s)) = some (finished false message ∷ [], s)

  unfoldable pub copy : ℕ → State → Text → Text → Done
  copy fuel s source dest =
      let target = resolve_destination s source dest in
      let copied =
        if is_dir s source
        then perform_recursive_copy fuel s source target
        else perform_copy s source target in
      if not (exists s source)
      then some (copy_finished false (lit "Source does not exist: " ++ source) ∷ [], s)
      else report copy_finished (lit "Failed to copy " ++ file_name source) copied

  unfoldable pub move : ℕ → State → Text → Text → Done
  move fuel s source dest =
      report move_finished (lit "Failed to move " ++ file_name source)
        (perform_move fuel s source (resolve_destination s source dest))

  unfoldable pub rename : State → Text → Text → Done
  rename s path new_name =
      let dest = absolute_in (absolute_path path) new_name in
      let taken = lit "A file named " ++ (new_name ++ lit " already exists.") in
      if not (is_safe_name new_name)
      then some (rename_finished false (lit "Invalid name: " ++ new_name) ∷ [], s)
      else if exists s dest && not (text_eq dest (absolute_file_path path))
      then some (rename_finished false taken ∷ [], s)
      else report rename_finished (lit "Failed to rename to " ++ new_name)
          (some (rename_file s path dest))

  unfoldable pub delete : ℕ → State → Text → Bool → Done
  delete fuel s path permanent =
      report delete_finished (lit "Failed to delete " ++ file_name path)
        (perform_delete fuel s path permanent)

  unfoldable pub create_folder : State → Text → Text → Done
  create_folder s parent_dir name =
      if not (is_safe_name name)
      then some (create_folder_finished false (lit "Invalid folder name: " ++ name) ∷ [], s)
      else report create_folder_finished (lit "Failed to create folder " ++ name)
          (some (make_path s (absolute_in parent_dir name)))

  unfoldable pub create_file : State → Text → Text → Done
  create_file s parent_dir name =
      let full_path = absolute_in parent_dir name in
      let message =
        lit "Failed to create file " ++ (name ++ (lit ": " ++ error_string s full_path)) in
      if not (is_safe_name name)
      then some (create_file_finished false (lit "Invalid file name: " ++ name) ∷ [], s)
      else report create_file_finished message (some (create_empty s full_path))

  -- The path of the copy: names 1 to 999, the last if all of them are used.
  unfoldable pub duplicate_target : State → Text → Text
  duplicate_target s path =
      let dir_path = absolute_path path in
      first_free 999 1
        (λ i. dir_path ++ (47 ∷ copy_name paths (complete_base_name path) (suffix path) i))
        (exists s) []

  unfoldable pub duplicate : ℕ → State → Text → Done
  duplicate fuel s path =
      let new_path = duplicate_target s path in
      report duplicate_finished (lit "Failed to duplicate " ++ file_name path) (
        if is_dir s path
        then perform_recursive_copy fuel s path new_path
        else some (copy_file s path new_path))

  -- The build for Linux.
  unfoldable pub open_file : State → Text → List Signal
  open_file s path =
      if not (exists s path)
      then operation_progress (lit "File does not exist: " ++ path) ∷ []
      else if not (start_detached s (lit "xdg-open") (path ∷ []))
      then operation_progress (lit "Could not open " ++ path) ∷ []
      else []

  unfoldable pub open_in_terminal : State → Text → List Signal
  open_in_terminal s path =
      let dir = if is_dir s path then path else absolute_path path in
      if not (start_detached s (lit "qterminal") (lit "--workdir" ∷ dir ∷ []))
      then operation_progress (lit "Could not open terminal at " ++ dir) ∷ []
      else []
