-- ===== src/FileModel/Tests.antt =====
-- Runs of the file manager's list, and one instance of each theorem.
use nira_os.Base.{
  ℕ, ◌≡◌, refl, pos, Bool, true, false, not, ◌&&◌, List, if◌then◌else◌, [], ◌∷◌, Text, lit, length,
  count_if, arith, text_eq,
}
use nira_os.Base.Sorting.{IsWeakOrder, IsSorted, sort, insert_sorted}
use nira_os.FileModel.Entry.{FileEntry, FileInfo, is_directory, load_entry}
use nira_os.FileModel.{
  Qt, descending, same_order, init, compare_numbers, compare_entries, less, on_directory_loaded,
  passes, sort_entries,
}
use nira_os.FileModel.Order.{CompareLaws, less-IsWeakOrder, on_directory_loaded-IsSorted}
use nira_os.FileModel.Loading.{
  Event, WatchesCurrent, TakesCurrent, run, run-WatchesCurrent, path_set, load_finished, filter_set,
  navigated_up,
}

-- Every path is a folder with nothing in it; texts are compared by their lengths.
abbrev flat : Qt
flat = record {
  exists = λ p. true;
  is_dir = λ p. true;
  is_root = λ p. false;
  dir_exists = λ p. true;
  entry_info_list = λ p. [];
  absolute_file_path = λ p. p;
  parent_dir = λ p. 47 ∷ [];
  cd_up = λ p. 47 ∷ [];
  to_lower = λ t. t;
  compare_ignoring_case = λ s t. compare_numbers (length s) (length t);
}

flat-laws : CompareLaws flat
flat-laws = record {
  weak = record { asym = λ a b h. ground arith; not_trans = λ a b c ab bc. ground arith };
  opposite = λ s t. ground arith;
}

abbrev info : Text → ℕ → Bool → Bool → FileInfo
info name size is_dir hidden = record {
  name = name;
  absolute_path = 47 ∷ name;
  is_dir = is_dir;
  is_symlink = false;
  is_file = not is_dir;
  size = size;
  modified = size;
  read = 0;
  birth = 0;
  flags = 0;
  executable = false;
  hidden = hidden;
  readable = true;
  writable = true;
  user = [];
  user_group = [];
  mime = [];
  mime_icon = [];
}

abbrev a_file : FileEntry
a_file = load_entry (info (97 ∷ []) 5 false false)

abbrev hidden_file : FileEntry
hidden_file = load_entry (info (46 ∷ 98 ∷ []) 1 false true)

abbrev a_folder : FileEntry
a_folder = load_entry (info (99 ∷ 100 ∷ []) 9 true false)

-- A folder comes before a file, also when sizes descend, and the hidden file is gone.
folder_first :
    (on_directory_loaded flat
      (record init { sort_column = pos 1; sort_order = descending })
      (a_file ∷ hidden_file ∷ a_folder ∷ [])).0.entries
    ≡ a_folder ∷ a_file ∷ []
unfolding on_directory_loaded sort_entries sort insert_sorted less compare_entries same_order init
    load_entry text_eq lit
folder_first = refl

less-IsWeakOrder_example : IsWeakOrder (less flat (pos 2) descending)
less-IsWeakOrder_example = less-IsWeakOrder flat flat-laws (pos 2) descending

on_directory_loaded-IsSorted_example :
    let t = (on_directory_loaded flat init (a_file ∷ hidden_file ∷ a_folder ∷ [])).0 in
    ((p : FileEntry → Bool)
      → count_if p t.entries
        ≡ count_if (λ e. passes flat init e && p e) (a_file ∷ hidden_file ∷ a_folder ∷ []))
    × IsSorted (less flat init.sort_column init.sort_order) t.entries
    × IsSorted (λ a b. is_directory a && not (is_directory b)) t.entries
    × (t.loading ≡ false)
on_directory_loaded-IsSorted_example =
    on_directory_loaded-IsSorted flat flat-laws init (a_file ∷ hidden_file ∷ a_folder ∷ [])

abbrev browsing : List Event
browsing =
    path_set (47 ∷ 97 ∷ [])
    ∷ navigated_up
    ∷ load_finished (λ path. a_file ∷ [])
    ∷ filter_set (97 ∷ [])
    ∷ []

-- Only the folder above has a file.
abbrev above : Text → List FileEntry
above path = if text_eq path (47 ∷ []) then a_file ∷ [] else []

run-WatchesCurrent_example :
    WatchesCurrent flat (run flat init browsing) × TakesCurrent flat (run flat init browsing) above
run-WatchesCurrent_example = run-WatchesCurrent flat browsing above
