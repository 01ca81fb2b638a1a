-- ===== src/DesktopIcons/Disk.antt =====
-- What DesktopIconModel.cpp asks of Qt, besides what the file manager asks of it, too.
use nira_os.Base.{ℕ, ℤ, Bool, Text, List, Option}
use nira_os.Files.System.{FileSystem}

-- One `QFileInfo`, with what the MIME database says of the file.
pub record FileInfo : Type 0 where
  pub name : Text
  pub absolute_path : Text
  pub suffix : Text
  pub is_dir : Bool
  pub is_file : Bool
  pub size : ℕ
  pub modified : ℕ
  pub hidden : Bool
  pub executable : Bool
  pub mime : Text
  pub mime_icon : Text

pub record Disk (fs : FileSystem) : Type 0 where
  -- The listing of a directory: hidden entries too, folders first, by name.
  pub entry_info_list : fs.State → Text → List FileInfo
  -- The lines of a text file, if it can be opened.
  pub read_lines : fs.State → Text → Option (List Text)
  -- `open(WriteOnly | Truncate)`, the text, and `close`: false if the file could not be opened.
  pub write_text : fs.State → Text → Text → Bool × fs.State
  pub make_executable : fs.State → Text → fs.State
  -- `QProcess::execute`: true for the exit code 0.
  pub execute : fs.State → Text → List Text → Bool × fs.State

pub record Texts : Type 0 where
  pub trimmed : Text → Text
  pub split_command : Text → List Text
  pub compare_ignoring_case : Text → Text → ℤ
  -- `QUrl(url).isLocalFile()` and `.toLocalFile()`
  pub is_local_file : Text → Bool
  pub to_local_file : Text → Text
