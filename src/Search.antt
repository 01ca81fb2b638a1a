-- ===== src/Search.antt =====
-- apps/files/src/SearchIndexer.h and SearchIndexer.cpp: the search of the file manager. What the
-- iterator over a folder and its subfolders gives is a parameter, in its order.
use nira_os.Base.{
  ℕ, suc, ◌+◌, ◌*◌, ltb, Bool, true, false, not, Option, none, some, List, [], ◌∷◌, ◌++◌, length,
  Text, lit, contains, is_empty, if◌then◌else◌,
}
pub mod Results
mod Tests

-- What `QFileInfo` and the database of types say of one file.
pub record FileInfo : Type 0 where
  pub name : Text
  pub path : Text
  pub mime_type : Text
  pub size : ℕ
  pub modified : ℕ
  pub is_dir : Bool
  pub is_hidden : Bool
  pub is_readable : Bool

pub record Found : Type 0 where
  pub name : Text
  pub path : Text
  pub kind : Text
  pub mime_type : Text
  pub size : ℕ
  pub size_human : Text
  pub modified : ℕ
  pub is_dir : Bool
  pub is_hidden : Bool

pub data Signal : Type 0 where
  results_found : List Found → Signal
  search_finished : Bool → Signal

-- The future that is watched, with what was asked for.
pub record SearchIndexer : Type 0 where
  pub watched : Option (Text × Text)
  pub is_running : Bool
  pub is_canceled : Bool

abbrev pub Done : Type 0
Done = SearchIndexer × List Signal

abbrev pub max_results : ℕ
max_results = 500

-- Qt's functions. `quotient bytes unit digits` prints a quotient with so many decimals, `fold` is
-- what a comparison that ignores case does to both texts, `walk` is the iterator.
pub record Qt : Type 0 where
  pub trimmed : Text → Text
  pub to_lower : Text → Text
  pub fold : Text → Text
  pub number : ℕ → Text
  pub quotient : ℕ → ℕ → ℕ → Text
  pub walk : Text → List FileInfo

unfoldable pub init : SearchIndexer
init = record { watched = none; is_running = false; is_canceled = false }

-- The wait for the end of the search is over when this returns.
unfoldable pub cancel : SearchIndexer → SearchIndexer
cancel s = if s.is_running then record s { is_running = false; is_canceled = true } else s

-- The search in the background has come to its end.
unfoldable pub complete : SearchIndexer → SearchIndexer
complete s = record s { is_running = false }

module _ (qt : Qt) where
  open qt use {trimmed, to_lower, fold, number, quotient, walk}

  -- The divisions by 1024 are exact, so each test is one on the bytes.
  unfoldable pub human_size : ℕ → Text
  human_size bytes =
      if ltb bytes 1024
      then number bytes ++ lit " B"
      else if ltb bytes (1024 * 1024)
      then quotient bytes 1024 1 ++ lit " KB"
      else if ltb bytes (1024 * 1024 * 1024)
      then quotient bytes (1024 * 1024) 1 ++ lit " MB"
      else quotient bytes (1024 * 1024 * 1024) 2 ++ lit " GB"

  unfoldable pub found : FileInfo → Found
  found fi = record {
    name = fi.name;
    path = fi.path;
    kind = if fi.is_dir then lit "directory" else lit "file";
    mime_type = fi.mime_type;
    size = fi.size;
    size_human = human_size fi.size;
    modified = fi.modified;
    is_dir = fi.is_dir;
    is_hidden = fi.is_hidden;
  }

  -- What one round appends.
  unfoldable pub search_file : Text → FileInfo → List Found
  search_file lower_query fi =
      if contains (fold fi.name) (fold lower_query)
      then (if not fi.is_readable then [] else found fi ∷ [])
      else []

  -- The loop, with the results so far.
  unfoldable pub search_files : Text → List FileInfo → List Found → List Found
  search_files lower_query [] results = results
  search_files lower_query (fi ∷ files) results =
      let rest = search_files lower_query files (results ++ search_file lower_query fi) in
      if ltb (length results) max_results then rest else results

  unfoldable pub perform_search : Text → Text → List Found
  perform_search root_path query = search_files (to_lower query) (walk root_path) []

  unfoldable pub search : SearchIndexer → Text → Text → Done
  search s root_path query =
      let t = cancel s in
      if is_empty (trimmed query) then (t, results_found [] ∷ search_finished false ∷ []) else (
        record t {
          watched = some (root_path, trimmed query);
          is_running = true;
          is_canceled = false;
        },
        [],
      )

  -- The slot for the end of the future that is watched.
  unfoldable pub on_finished : SearchIndexer → Done
  on_finished s = elim s.watched [
    | none ↦ (s, [])
    | some (root_path, query) ↦ (
      record s { watched = none },
      if s.is_canceled
          then search_finished true ∷ []
          else results_found (perform_search root_path query) ∷ search_finished false ∷ [],
    )
  ]
