-- ===== src/Storage/Tests.antt =====
-- One instance of each theorem on the drives.
use nira_os.Base.{◌≡◌, true, false, none, [], ◌∷◌, Text}
use nira_os.Base.Sets.{of_list}
use nira_os.Storage.{StorageInfo, init}
use nira_os.Storage.Announcements.{announced_mounts, listen, polls}

abbrev volume : Text → StorageInfo
volume path = record {
  is_valid = true;
  is_ready = true;
  is_read_only = false;
  name = [];
  root_path = path;
  device = none;
  file_system_type = [];
  bytes_total = 10;
  bytes_available = 4;
}

announced_mounts_example :
    of_list (
      listen []
        (polls
          (λ t. t)
          (init (λ t. t) [])
          ((volume (1 ∷ []) ∷ [], []) ∷ (volume (2 ∷ []) ∷ [], []) ∷ [])).1)
    ≡ of_list ((2 ∷ []) ∷ [])
announced_mounts_example =
    announced_mounts (λ t. t) [] ((volume (1 ∷ []) ∷ [], []) ∷ []) (volume (2 ∷ []) ∷ []) []
