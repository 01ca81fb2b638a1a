-- ===== src/Notepad/Documents.antt =====
-- apps/notepad/src/main.cpp, `FileDialogHelper`: how documents are read and written. `tr` is left out.
use nira_os.Base.{
  ℕ, ◌*◌, ◌/◌, ltb, ℤ, pos, negsuc, Bool, true, false, not, ◌&&◌, Option, none, some, List, [], ◌∷◌,
  ◌++◌, Text, lit, is_empty, if◌then◌else◌,
}

-- How far a write came: `open` failed, or the text could not be written, or all is well.
pub data Written : Type 0 where
  not_opened not_written written : Written

pub data Loaded : Type 0 where
  not_readable read_error : Loaded
  loaded : Text → Loaded

pub record Disk : Type 1 where
  pub State : Type 0
  pub exists : State → Text → Bool
  pub is_file : State → Text → Bool
  pub size : State → Text → ℕ
  -- Opened as text, and all of it read as UTF-8.
  pub load : State → Text → Loaded
  pub store : State → Text → Text → Written × State
  pub remove : State → Text → Bool × State
  pub rename : State → Text → Text → Bool × State
  pub absolute_file_path : Text → Text
  pub mime_name : State → Text → Text
  pub error_string : State → Text → Text
  -- `arg` of one text, of two at once, and of a number.
  pub arg : Text → Text → Text
  pub arg2 : Text → Text → Text → Text
  pub arg_number : Text → ℕ → Text

-- The map that `readFile` gives: `too_large` is there only if it is true.
pub record ReadResult : Type 0 where
  pub success : Bool
  pub content : Option Text
  pub error : Text
  pub size : Option ℕ
  pub too_large : Bool

-- 32 MiB
abbrev pub max_size : ℕ
max_size = 32 * 1024 * 1024

abbrev pub failed_read : Text → Option ℕ → Bool → ReadResult
failed_read error size too_large = record {
  success = false;
  content = none;
  error = error;
  size = size;
  too_large = too_large;
}

module _ (disk : Disk) where
  open disk use {
    State, exists, is_file, load, store, remove, rename, absolute_file_path, mime_name,
    error_string, arg, arg2, arg_number,
  }

  unfoldable pub read_opened : State → Text → Loaded → ReadResult
  read_opened s path not_readable =
      failed_read (arg2 (lit "Could not open %1: %2") path (error_string s path))
        (some (disk.size s path)) false
  read_opened s path read_error =
      failed_read (arg2 (lit "Read error on %1: %2") path (error_string s path))
        (some (disk.size s path)) false
  read_opened s path (loaded content) = record {
    success = true;
    content = some content;
    error = [];
    size = some (disk.size s path);
    too_large = false;
  }

  unfoldable pub read_file : State → Text → ReadResult
  read_file s path =
      let size = disk.size s path in
      let question = lit "The file is %1 MB; opening it in the editor may be slow. Open anyway?" in
      if not (exists s path)
      then failed_read (arg (lit "The file does not exist: %1") path) none false
      else if ltb max_size size
      then failed_read (arg_number question (size / (1024 * 1024))) (some size) true
      else read_opened s path (load s path)

  -- The result, the errors that are signalled, and the new state.
  abbrev pub Saved : Type 0
  Saved = Bool × List Text × State

  abbrev pub temporary : Text → Text
  temporary path = absolute_file_path path ++ lit ".nira-tmp"

  -- The end of `writeFile`: the temporary file is there.
  unfoldable pub finish_write : State → Text → Saved
  finish_write s path =
      let tmp = temporary path in
      let (removed, s1) = if exists s path then remove s path else (true, s) in
      let (renamed, s2) = rename s1 tmp path in
      if not removed
      then (false, arg (lit "Could not replace the existing file %1.") path ∷ [], (remove s1 tmp).1)
      else if not renamed
      then (false, arg (lit "Could not finalize save of %1.") path ∷ [], (remove s2 tmp).1)
      else (true, [], s2)

  unfoldable pub after_store : Text → Written × State → Saved
  after_store path (not_opened, s) =
      (false, arg2 (lit "Could not write %1: %2") path (error_string s (temporary path)) ∷ [], s)
  after_store path (not_written, s) = (
    false,
    arg2 (lit "Failed while writing %1: %2") path (error_string s (temporary path)) ∷ [],
    (remove s (temporary path)).1,
  )
  after_store path (written, s) = finish_write s path

  unfoldable pub write_file : State → Text → Text → Saved
  write_file s path content =
      if is_empty path
      then (false, lit "Cannot save to an empty path." ∷ [], s)
      else after_store path (store s (temporary path) content)

  unfoldable pub file_exists : State → Text → Bool
  file_exists s path = exists s path && is_file s path

  unfoldable pub file_size : State → Text → ℤ
  file_size s path = if exists s path then pos (disk.size s path) else negsuc 0

  unfoldable pub mime_type : State → Text → Text
  mime_type s path = if not (exists s path) then [] else mime_name s path
