-- ===== src/Storage.antt =====
-- apps/files/src/StorageManager.h and StorageManager.cpp: the drives that the file manager shows. What
-- Qt answers about the mounted volumes is an argument of each operation.
use nira_os.Base.{
  ℕ, ltb, ℤ, pos, negsuc, sub_ℕ, Bool, true, false, not, ◌&&◌, ◌||◌, Option, none, some, List, [],
  ◌∷◌, ◌++◌, map, Text, lit, text_eq, mem_text, contains, is_empty, if◌then◌else◌,
}
pub mod Announcements
mod Tests

-- What `QStorageInfo` says of one volume; no device is a null one.
pub record StorageInfo : Type 0 where
  pub is_valid : Bool
  pub is_ready : Bool
  pub is_read_only : Bool
  pub name : Text
  pub root_path : Text
  pub device : Option Text
  pub file_system_type : Text
  pub bytes_total : ℕ
  pub bytes_available : ℕ

pub record DriveInfo : Type 0 where
  pub name : Text
  pub path : Text
  pub mount_point : Text
  pub file_system_type : Text
  pub total_bytes : ℕ
  pub used_bytes : ℤ
  pub free_bytes : ℕ
  pub is_read_only : Bool
  pub is_removable : Bool
  pub is_ready : Bool

pub record StorageManager : Type 0 where
  pub drives : List DriveInfo
  pub known_paths : List Text

pub data Signal : Type 0 where
  drives_changed : Signal
  drive_added drive_removed : Text → Signal

-- A drive for QML. The percentage is a floating point number: here it is the pair that is divided,
-- or nothing for 0.0.
pub record DriveRow : Type 0 where
  pub drive : DriveInfo
  pub used_percent : Option (ℤ × ℕ)

unfoldable pub drive_row : DriveInfo → DriveRow
drive_row d = record {
  drive = d;
  used_percent = if ltb 0 d.total_bytes then some (d.used_bytes, d.total_bytes) else none;
}

unfoldable pub drives : StorageManager → List DriveRow
drives s = map drive_row s.drives

unfoldable pub mounted_drives : StorageManager → List DriveRow
mounted_drives s = drives s

-- What `driveInfo` tells of a drive.
pub record DriveSummary : Type 0 where
  pub name : Text
  pub path : Text
  pub mount_point : Text
  pub total_bytes : ℕ
  pub used_bytes : ℤ
  pub free_bytes : ℕ
  pub is_removable : Bool

unfoldable pub summary : DriveInfo → DriveSummary
summary d = record {
  name = d.name;
  path = d.path;
  mount_point = d.mount_point;
  total_bytes = d.total_bytes;
  used_bytes = d.used_bytes;
  free_bytes = d.free_bytes;
  is_removable = d.is_removable;
}

unfoldable pub find_drive : Text → List DriveInfo → Option DriveInfo
find_drive path [] = none
find_drive path (d ∷ ds) =
    if text_eq d.mount_point path || text_eq d.path path then some d else find_drive path ds

abbrev pub device_or : Option Text → Text → Text
device_or none path = path
device_or (some device) path = device

-- The fallback: what Qt says of the volume that a path is on.
unfoldable pub direct_info : Text → StorageInfo → Option DriveSummary
direct_info path si =
    if si.is_valid
    then some (record {
      name = si.name;
      path = device_or si.device path;
      mount_point = si.root_path;
      total_bytes = si.bytes_total;
      used_bytes = sub_ℕ si.bytes_total si.bytes_available;
      free_bytes = si.bytes_available;
      is_removable = false;
    })
    else none

unfoldable pub drive_info :
    (storage_info : Text → StorageInfo) → StorageManager → Text → Option DriveSummary
drive_info storage_info s path = elim (find_drive path s.drives) [
  | some d ↦ some (summary d)
  | none ↦ direct_info path (storage_info path)
]

-- The loops over the known and the current paths.
unfoldable pub removed_signals : List Text → List Text → List Signal
removed_signals current [] = []
removed_signals current (old ∷ known) =
    (if not (mem_text old current) then drive_removed old ∷ [] else [])
    ++ removed_signals current known

unfoldable pub added_signals : List Text → List Text → List Signal
added_signals known [] = []
added_signals known (new ∷ current) =
    (if not (mem_text new known) then drive_added new ∷ [] else []) ++ added_signals known current

unfoldable pub current_paths : List StorageInfo → List Text
current_paths [] = []
current_paths (si ∷ mounts) =
    let rest = current_paths mounts in
    if si.is_valid && si.is_ready then si.root_path ∷ rest else rest

-- `fold` is what a comparison that ignores case does to both texts.
module _ (fold : Text → Text) where
  unfoldable pub is_removable_path : Text → Bool
  is_removable_path path =
      (contains path (lit "/dev/sd") || contains path (lit "/dev/nvme"))
      || contains (fold path) (fold (lit "usb"))

  unfoldable pub drive_of : StorageInfo → DriveInfo
  drive_of si =
      let path = device_or si.device si.root_path in
      record {
        name = if is_empty si.name then si.root_path else si.name;
        path = path;
        mount_point = si.root_path;
        file_system_type = si.file_system_type;
        total_bytes = si.bytes_total;
        used_bytes = sub_ℕ si.bytes_total si.bytes_available;
        free_bytes = si.bytes_available;
        is_read_only = si.is_read_only;
        is_removable = is_removable_path path;
        is_ready = si.is_ready;
      }

  unfoldable pub scan_mounts : List StorageInfo → List DriveInfo
  scan_mounts [] = []
  scan_mounts (si ∷ mounts) =
      let rest = scan_mounts mounts in if not si.is_valid then rest else drive_of si ∷ rest

  unfoldable pub scan_drives : StorageManager → List StorageInfo → StorageManager
  scan_drives s mounts = record s { drives = scan_mounts mounts }

  unfoldable pub init : List StorageInfo → StorageManager
  init mounts = scan_drives (record { drives = []; known_paths = [] }) mounts

  unfoldable pub refresh : StorageManager → List StorageInfo → StorageManager × List Signal
  refresh s mounts = (scan_drives s mounts, drives_changed ∷ [])

  -- The volumes are asked for twice: for the paths, and then for the scan.
  unfoldable pub poll_drives :
      StorageManager → List StorageInfo → List StorageInfo → StorageManager × List Signal
  poll_drives s mounts again =
      let current = current_paths mounts in
      (
        scan_drives (record s { known_paths = current }) again,
        removed_signals current s.known_paths
            ++ (added_signals s.known_paths current ++ drives_changed ∷ []),
      )
