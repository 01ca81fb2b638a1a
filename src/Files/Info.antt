-- ===== src/Files/Info.antt =====
-- apps/files/src/FileOperations.cpp: getFileInfo and humanSize, what the dialog of properties shows.
use nira_os.Base.{ℕ, ltb, ◌*◌, ℤ, sub_ℕ, Bool, Option, none, some, Text, ◌++◌, lit, if◌then◌else◌}

-- What `QFileInfo` and `QStorageInfo` say of one path.
pub record Stat : Type 0 where
  pub exists : Bool
  pub name : Text
  pub path : Text
  pub size : ℕ
  pub is_dir : Bool
  pub is_file : Bool
  pub is_symlink : Bool
  pub is_hidden : Bool
  pub is_readable : Bool
  pub is_writable : Bool
  pub is_executable : Bool
  pub last_modified : ℕ
  pub last_accessed : ℕ
  pub created : ℕ
  pub owner : Text
  pub owner_group : Text
  pub filesystem : Text
  pub fs_total : ℕ
  pub fs_available : ℕ

pub record FileInfo : Type 0 where
  pub stat : Stat
  pub size_human : Text
  pub fs_used : ℤ
  pub fs_free : ℕ

-- `number` and `quotient bytes unit digits` print an integer and a quotient with so many decimals. The
-- divisions by 1024 are exact, so each test is one on the bytes.
unfoldable pub human_size : (number : ℕ → Text) → (quotient : ℕ → ℕ → ℕ → Text) → ℕ → Text
human_size number quotient bytes =
    if ltb bytes 1024
    then number bytes ++ lit " B"
    else if ltb bytes (1024 * 1024)
    then quotient bytes 1024 1 ++ lit " KB"
    else if ltb bytes (1024 * 1024 * 1024)
    then quotient bytes (1024 * 1024) 1 ++ lit " MB"
    else if ltb bytes (1024 * 1024 * 1024 * 1024)
    then quotient bytes (1024 * 1024 * 1024) 2 ++ lit " GB"
    else quotient bytes (1024 * 1024 * 1024 * 1024) 2 ++ lit " TB"

-- The map for QML, which has no entries if the file does not exist.
unfoldable pub get_file_info :
    (number : ℕ → Text) → (quotient : ℕ → ℕ → ℕ → Text) → Stat → Option FileInfo
get_file_info number quotient stat =
    if stat.exists
    then some (record {
      stat = stat;
      size_human = human_size number quotient stat.size;
      fs_used = sub_ℕ stat.fs_total stat.fs_available;
      fs_free = stat.fs_available;
    })
    else none
