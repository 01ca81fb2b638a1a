-- ===== src/FileModel.antt =====
-- apps/files/src/FileModel.h and FileModel.cpp: the list of a folder's entries in the file manager.
-- A method takes the model and returns the new one with its signals. The mutex is left out: all of
-- the code that takes it runs on one thread.
use nira_os.Base.{
  ℕ, zero, suc, ◌==◌, ltb, ℤ, pos, negsuc, int_eq, is_negative, is_positive, row_of, Bool, true,
  false, not, ◌&&◌, ◌||◌, Option, none, some, List, [], ◌∷◌, map, Text, lit, text_eq, contains,
  starts_with, is_empty, length, get_elem?, same, keep, ◌++◌, if◌then◌else◌,
}
use nira_os.Base.Sorting.{sort}
use nira_os.FileModel.Entry.{
  FileEntry, Role, Field, Value, invalid, FileInfo, entry_to_map, entry_data, is_directory,
  load_entry,
}
pub mod Entry
pub mod Order
pub mod Loading
mod Tests

pub data SortOrder : Type 0 where
  ascending descending : SortOrder

unfoldable pub same_order : SortOrder → SortOrder → Bool
same_order ascending ascending = true
same_order descending descending = true
same_order ascending descending = false
same_order descending ascending = false

-- `watched` is the path whose load the future watcher waits for.
pub record FileModel : Type 0 where
  pub current_path : Text
  pub entries : List FileEntry
  pub sort_column : ℤ
  pub sort_order : SortOrder
  pub name_filter : Text
  pub show_hidden : Bool
  pub loading : Bool
  pub watched : Option Text

pub data Signal : Type 0 where
  current_path_changed sort_changed filter_changed show_hidden_changed loading_changed : Signal
  model_reset : Signal

-- Qt's functions: on the file system, and on texts.
pub record Qt : Type 0 where
  pub exists : Text → Bool
  pub is_dir : Text → Bool
  pub is_root : Text → Bool
  pub dir_exists : Text → Bool
  -- Hidden and system entries too, folders first, by name.
  pub entry_info_list : Text → List FileInfo
  pub absolute_file_path : Text → Text
  -- `QFileInfo(path).dir().absolutePath()`
  pub parent_dir : Text → Text
  -- `dir.cdUp()`, and then `dir.absolutePath()`.
  pub cd_up : Text → Text
  pub to_lower : Text → Text
  pub compare_ignoring_case : Text → Text → ℤ

unfoldable pub init : FileModel
init = record {
  current_path = [];
  entries = [];
  sort_column = pos 0;
  sort_order = ascending;
  name_filter = [];
  show_hidden = false;
  loading = false;
  watched = none;
}

abbrev pub Done : Type 0
Done = FileModel × List Signal

-- The methods in a row, with the signals of both.
abbrev pub also : List Signal → Done → Done
also signals (s, more) = (s, signals ++ more)

unfoldable pub row_count : FileModel → Bool → ℕ
row_count s parent_is_valid = if parent_is_valid then 0 else length s.entries

-- `index.isValid()` gives a row.
unfoldable pub model_data : FileModel → Option ℕ → Role → Value
model_data s none role = invalid
model_data s (some row) role = elim (get_elem? s.entries row) [
  | none ↦ invalid
  | some e ↦ entry_data e role
]

unfoldable pub file_info_at : FileModel → ℤ → List (Text × Field)
file_info_at s row = elim (row_of s.entries row) [ none ↦ [] | some e ↦ entry_to_map e ]

-- The comparison of two sizes or times as -1, 0 or 1.
abbrev pub compare_numbers : ℕ → ℕ → ℤ
compare_numbers a b = if ltb a b then negsuc 0 else if ltb b a then pos 1 else pos 0

module _ (qt : Qt) where
  open qt use {
    exists, is_dir, is_root, dir_exists, entry_info_list, absolute_file_path, parent_dir, cd_up,
    to_lower, compare_ignoring_case,
  }

  -- `cmp` of the comparison, by the sort column; any other column says that all are equal.
  unfoldable pub compare_entries : ℤ → FileEntry → FileEntry → ℤ
  compare_entries (pos zero) a b = compare_ignoring_case a.file_name b.file_name
  compare_entries (pos (suc zero)) a b = compare_numbers a.file_size b.file_size
  compare_entries (pos (suc (suc zero))) a b =
      let cmp = compare_ignoring_case a.mime_type b.mime_type in
      if int_eq cmp (pos 0) then compare_ignoring_case a.file_name b.file_name else cmp
  compare_entries (pos (suc (suc (suc zero)))) a b = compare_numbers a.last_modified b.last_modified
  compare_entries column a b = pos 0

  unfoldable pub less : ℤ → SortOrder → FileEntry → FileEntry → Bool
  less column order a b =
      let cmp = compare_entries column a b in
      if is_directory a && not (is_directory b)
      then true
      else if not (is_directory a) && is_directory b
      then false
      else if same_order order ascending
      then is_negative cmp
      else is_positive cmp

  unfoldable pub sort_entries : FileModel → FileModel
  sort_entries s =
      if is_empty s.entries
      then s
      else record s { entries = sort (less s.sort_column s.sort_order) s.entries }

  unfoldable pub apply_sort : FileModel → Done
  apply_sort s = if is_empty s.entries then (s, []) else (sort_entries s, model_reset ∷ [])

  unfoldable pub start_directory_load : FileModel → Text → Done
  start_directory_load s path =
      let signals = if not s.loading then loading_changed ∷ [] else [] in
      (record s { loading = true; watched = some path }, signals)

  unfoldable pub refresh : FileModel → Done
  refresh s = if is_empty s.current_path then (s, []) else start_directory_load s s.current_path

  unfoldable pub set_current_path : FileModel → Text → Done
  set_current_path s path =
      if text_eq path s.current_path
      then (s, [])
      else also (current_path_changed ∷ []) (refresh (record s { current_path = path }))

  unfoldable pub set_sort_column : FileModel → ℤ → Done
  set_sort_column s column =
      let (t, signals) = apply_sort (record s { sort_column = column }) in
      if int_eq column s.sort_column then (s, []) else (t, signals ++ (sort_changed ∷ []))

  unfoldable pub set_sort_order : FileModel → SortOrder → Done
  set_sort_order s order =
      let (t, signals) = apply_sort (record s { sort_order = order }) in
      if same_order order s.sort_order then (s, []) else (t, signals ++ (sort_changed ∷ []))

  unfoldable pub set_name_filter : FileModel → Text → Done
  set_name_filter s filter =
      if text_eq filter s.name_filter
      then (s, [])
      else also (filter_changed ∷ []) (refresh (record s { name_filter = filter }))

  unfoldable pub set_show_hidden : FileModel → Bool → Done
  set_show_hidden s show =
      if same show s.show_hidden
      then (s, [])
      else also (show_hidden_changed ∷ []) (refresh (record s { show_hidden = show }))

  unfoldable pub navigate_up : FileModel → Done
  navigate_up s =
      let dir = if is_dir s.current_path then s.current_path else parent_dir s.current_path in
      if dir_exists dir then set_current_path s (cd_up dir) else (s, [])

  unfoldable pub navigate_to : FileModel → Text → Done
  navigate_to s path =
      if exists path && is_dir path then set_current_path s (absolute_file_path path) else (s, [])

  unfoldable pub parent_path : Text → Text
  parent_path path = if is_root path then path else parent_dir path

  -- The two filters.
  unfoldable pub passes : FileModel → FileEntry → Bool
  passes s e =
      (s.show_hidden || not e.is_hidden)
      && (is_empty s.name_filter || contains (to_lower e.file_name) (to_lower s.name_filter))

  -- The slot on the watcher's `finished`, with its result.
  unfoldable pub on_directory_loaded : FileModel → List FileEntry → Done
  on_directory_loaded s result =
      let visible =
        if not s.show_hidden then keep (λ (e : FileEntry). not e.is_hidden) result else result in
      let found =
        if not (is_empty s.name_filter)
        then keep (λ (e : FileEntry). contains (to_lower e.file_name) (to_lower s.name_filter))
            visible
        else visible in
      let t = sort_entries (record s { entries = found; watched = none }) in
      if s.loading
      then (record t { loading = false }, model_reset ∷ loading_changed ∷ [])
      else (t, model_reset ∷ [])

  unfoldable pub load_directory : Text → List FileEntry
  load_directory path = if not (dir_exists path) then [] else map load_entry (entry_info_list path)
