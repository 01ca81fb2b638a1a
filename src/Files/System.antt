-- ===== src/Files/System.antt =====
-- What the file manager and the desktop ask of Qt's QFile, QFileInfo, QDir and QProcess: a state of
-- the file system, and operations on it. An operation that can fail says so by its Boolean.
use nira_os.Base.{ℕ, Bool, Text, List}

-- One row of `entryInfoList(AllEntries | NoDotAndDotDot)`.
pub record Entry : Type 0 where
  pub name : Text
  pub path : Text
  pub is_directory : Bool

pub record FileSystem : Type 1 where
  pub State : Type 0
  -- `QFileInfo::exists` and `QFileInfo::isDir`; `QDir::exists` is the latter.
  pub exists : State → Text → Bool
  pub is_dir : State → Text → Bool
  pub entries : State → Text → List Entry
  pub copy_file : State → Text → Text → Bool × State
  pub rename_file : State → Text → Text → Bool × State
  pub remove_file : State → Text → Bool × State
  pub make_path : State → Text → Bool × State
  pub remove_dir : State → Text → Bool × State
  -- `open(WriteOnly)` and `close`.
  pub create_empty : State → Text → Bool × State
  -- `gio trash PATH`: true if it started, ended in time and exited with 0.
  pub gio_trash : State → Text → Bool × State
  -- `QProcess::startDetached`
  pub start_detached : State → Text → List Text → Bool
  -- `errorString` of the file that could not be opened.
  pub error_string : State → Text → Text

-- The functions on paths, and on texts, that read no file.
pub record Paths : Type 0 where
  pub file_name : Text → Text
  pub complete_base_name : Text → Text
  pub suffix : Text → Text
  -- `QFileInfo(path).absoluteFilePath()` and `.absolutePath()`, which is that of `.dir()` too.
  pub absolute_file_path : Text → Text
  pub absolute_path : Text → Text
  -- `QDir(dir).absoluteFilePath(name)`
  pub absolute_in : Text → Text → Text
  -- `QStandardPaths::writableLocation(GenericDataLocation)`
  pub data_location : Text
  -- `QString::arg` of a text, of two texts at once, and the decimal digits that `arg` makes of a number.
  pub arg : Text → Text → Text
  pub arg2 : Text → Text → Text → Text
  pub digits : ℕ → Text
