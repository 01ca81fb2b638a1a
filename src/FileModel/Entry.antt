-- ===== src/FileModel/Entry.antt =====
-- apps/files/src/FileModel.h and FileModel.cpp: one entry of a folder, how it is read from the disk and
-- what its roles are.
use nira_os.Base.{
  ℕ, Bool, List, [], ◌∷◌, ◌++◌, Text, lit, text_eq, starts_with, if◌then◌else◌, Option, none, some,
}

-- Times are in milliseconds, permissions are Qt's flags as a number.
pub record FileEntry : Type 0 where
  pub file_name : Text
  pub file_path : Text
  pub file_size : ℕ
  pub file_type : Text
  pub mime_type : Text
  pub last_modified : ℕ
  pub last_accessed : ℕ
  pub created : ℕ
  pub permissions : ℕ
  pub is_executable : Bool
  pub is_hidden : Bool
  pub is_readable : Bool
  pub is_writable : Bool
  pub icon_name : Text
  pub thumbnail : Text
  pub owner : Text
  pub group : Text

pub data Role : Type 0 where
  file_name file_path file_size file_type mime_type last_modified last_accessed created
        permissions :
      Role
  is_executable is_hidden is_readable is_writable icon_name thumbnail owner group file_entry : Role
  display decoration other_role : Role

-- The name of a role for QML, if it has one.
unfoldable pub role_name : Role → Option Text
role_name file_name = some (lit "fileName")
role_name file_path = some (lit "filePath")
role_name file_size = some (lit "fileSize")
role_name file_type = some (lit "fileType")
role_name mime_type = some (lit "mimeType")
role_name last_modified = some (lit "lastModified")
role_name last_accessed = some (lit "lastAccessed")
role_name created = some (lit "created")
role_name permissions = some (lit "permissions")
role_name is_executable = some (lit "isExecutable")
role_name is_hidden = some (lit "isHidden")
role_name is_readable = some (lit "isReadable")
role_name is_writable = some (lit "isWritable")
role_name icon_name = some (lit "iconName")
role_name thumbnail = some (lit "thumbnail")
role_name owner = some (lit "owner")
role_name group = some (lit "group")
role_name file_entry = none
role_name display = none
role_name decoration = none
role_name other_role = none

-- `QVariant`: a field of an entry, and what a role holds.
pub data Field : Type 0 where
  text : Text → Field
  number : ℕ → Field
  flag : Bool → Field

pub data Value : Type 0 where
  field : Field → Value
  icon : Text → Value
  fields : List (Text × Field) → Value
  invalid : Value

-- What `loadDirectory` reads of one `QFileInfo`, and of the MIME database for it.
pub record FileInfo : Type 0 where
  pub name : Text
  pub absolute_path : Text
  pub is_dir : Bool
  pub is_symlink : Bool
  pub is_file : Bool
  pub size : ℕ
  pub modified : ℕ
  pub read : ℕ
  pub birth : ℕ
  pub flags : ℕ
  pub executable : Bool
  pub hidden : Bool
  pub readable : Bool
  pub writable : Bool
  pub user : Text
  pub user_group : Text
  pub mime : Text
  pub mime_icon : Text

unfoldable pub entry_to_map : FileEntry → List (Text × Field)
entry_to_map e =
    (lit "fileName", text e.file_name)
    ∷ (lit "filePath", text e.file_path)
    ∷ (lit "fileSize", number e.file_size)
    ∷ (lit "fileType", text e.file_type)
    ∷ (lit "mimeType", text e.mime_type)
    ∷ (lit "lastModified", number e.last_modified)
    ∷ (lit "lastAccessed", number e.last_accessed)
    ∷ (lit "created", number e.created)
    ∷ (lit "permissions", number e.permissions)
    ∷ (lit "isExecutable", flag e.is_executable)
    ∷ (lit "isHidden", flag e.is_hidden)
    ∷ (lit "isReadable", flag e.is_readable)
    ∷ (lit "isWritable", flag e.is_writable)
    ∷ (lit "iconName", text e.icon_name)
    ∷ (lit "thumbnail", text e.thumbnail)
    ∷ (lit "owner", text e.owner)
    ∷ (lit "group", text e.group)
    ∷ []

unfoldable pub entry_data : FileEntry → Role → Value
entry_data e file_name = field (text e.file_name)
entry_data e file_path = field (text e.file_path)
entry_data e file_size = field (number e.file_size)
entry_data e file_type = field (text e.file_type)
entry_data e mime_type = field (text e.mime_type)
entry_data e last_modified = field (number e.last_modified)
entry_data e last_accessed = field (number e.last_accessed)
entry_data e created = field (number e.created)
entry_data e permissions = field (number e.permissions)
entry_data e is_executable = field (flag e.is_executable)
entry_data e is_hidden = field (flag e.is_hidden)
entry_data e is_readable = field (flag e.is_readable)
entry_data e is_writable = field (flag e.is_writable)
entry_data e icon_name = field (text e.icon_name)
entry_data e thumbnail = field (text e.thumbnail)
entry_data e owner = field (text e.owner)
entry_data e group = field (text e.group)
entry_data e file_entry = fields (entry_to_map e)
entry_data e display = field (text e.file_name)
entry_data e decoration = icon e.icon_name
entry_data e other_role = invalid

abbrev pub is_directory : FileEntry → Bool
is_directory e = text_eq e.file_type (lit "directory")

unfoldable pub load_entry : FileInfo → FileEntry
load_entry fi = record {
  file_name = fi.name;
  file_path = fi.absolute_path;
  file_size = if fi.is_dir then 0 else fi.size;
  file_type =
      if fi.is_symlink
      then lit "symlink"
      else if fi.is_dir
      then lit "directory"
      else if fi.is_file
      then lit "file"
      else lit "other";
  mime_type = fi.mime;
  last_modified = fi.modified;
  last_accessed = fi.read;
  created = fi.birth;
  permissions = fi.flags;
  is_executable = fi.executable;
  is_hidden = fi.hidden;
  is_readable = fi.readable;
  is_writable = fi.writable;
  icon_name =
      if fi.is_dir
      then (if fi.readable then lit "folder" else lit "folder-locked")
      else if fi.is_symlink
      then lit "emblem-symbolic-link"
      else fi.mime_icon;
  thumbnail = if starts_with fi.mime (lit "image/") then lit "file:///" ++ fi.absolute_path else [];
  owner = fi.user;
  group = fi.user_group;
}
