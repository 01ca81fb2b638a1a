-- ===== src/Shell/Tests.antt =====
-- One instance of each theorem on the helpers of the shell.
use nira_os.Base.{◌≡◌, refl, Bool, true, false, [], ◌∷◌}
use nira_os.Shell.TrashIcon.{
  Disk, TrashIconState, ForgetsRemoved, empty_trash, emptied_trash_is_not_watched,
}

-- A disk of which only is known whether anything is watched.
abbrev small_disk : Disk
small_disk = record {
  State = Bool;
  exists = λ d path. true;
  count_entries = λ d path. 0;
  make_path = λ d path. d;
  remove_all = λ d path. (true, false);
  add_watch = λ d path. true;
  is_watched = λ d path. d;
  start_detached = λ d program arguments. (true, d);
}

small_disk-ForgetsRemoved : ForgetsRemoved small_disk
small_disk-ForgetsRemoved = record {
  remove_forgets = λ d path removed. refl;
  remove_adds_none = λ d path other h. refl;
  make_adds_none = λ d path other h. h;
}

abbrev icon : TrashIconState
icon = record { trash_path = 102 ∷ []; info_path = 105 ∷ []; item_count = 3; reloading = false }

emptied_trash_is_not_watched_example :
    small_disk.is_watched (empty_trash small_disk icon true).1.2 icon.trash_path ≡ false
emptied_trash_is_not_watched_example =
    emptied_trash_is_not_watched small_disk small_disk-ForgetsRemoved icon true refl refl
