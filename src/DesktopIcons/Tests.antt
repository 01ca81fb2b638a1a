-- ===== src/DesktopIcons/Tests.antt =====
-- Runs of the desktop's model on a small disk, and one instance of each theorem.
use nira_os.Base.{
  ◌≡◌, refl, ap, drop, starts_with, Option, arith, pos, Bool, true, false, not, ◌&&◌, ◌||◌, none,
  some, List, [], ◌∷◌, ◌++◌, map, keep, Text, lit, text_eq, mem_text, has_char, if◌then◌else◌,
}
use nira_os.Files.System.{FileSystem, Paths}
use nira_os.DesktopIcons.Disk.{Disk, FileInfo, Texts}
use nira_os.DesktopIcons.Entry.{DesktopEntry, entry_from_info, parse_desktop_file}
use nira_os.DesktopIcons.Model.{DesktopIconModel, scan_directory}
use nira_os.DesktopIcons.Actions.{create_shortcut, shortcut_path}
use nira_os.DesktopIcons.Watching.{lists_file, scan_directory-watches}
use nira_os.DesktopIcons.Trashing.{MoveLaws}
use nira_os.DesktopIcons.ShortcutFile.{WordLaws, lines_of}
use nira_os.DesktopIcons.Shortcut.{FileLaws, UrlLaws, create_shortcut-parse}

-- A disk with one file, which may be there or not, and the text in it.
abbrev file_path : Text
file_path = 47 ∷ 97 ∷ []

abbrev one_file : FileSystem
one_file = record {
  State = Bool × Text;
  exists = λ s p. text_eq p file_path && s.0;
  is_dir = λ s p. text_eq p (47 ∷ []);
  entries = λ s p. [];
  copy_file = λ s a b. (true, s);
  rename_file = λ s a b. (false, s);
  remove_file = λ s p. if text_eq p file_path then (s.0, (false, [])) else (false, s);
  make_path = λ s p. (true, s);
  remove_dir = λ s p. (false, s);
  create_empty = λ s p. (true, s);
  gio_trash = λ s p. (false, s);
  start_detached = λ s c a. true;
  error_string = λ s p. [];
}

abbrev file_info : FileInfo
file_info = record {
  name = 97 ∷ [];
  absolute_path = file_path;
  suffix = [];
  is_dir = false;
  is_file = true;
  size = 1;
  modified = 1;
  hidden = false;
  executable = false;
  mime = [];
  mime_icon = [];
}

abbrev small_disk : Disk one_file
small_disk = record {
  entry_info_list = λ s p. if s.0 then file_info ∷ [] else [];
  read_lines = λ s p. if s.0 then some (lines_of s.1) else none;
  write_text = λ s p content. (true, (true, content));
  make_executable = λ s p. s;
  execute = λ s c a. (false, s);
}

abbrev short_paths : Paths
short_paths = record {
  file_name = λ p. p;
  complete_base_name = λ p. p;
  suffix = λ p. [];
  absolute_file_path = λ p. p;
  absolute_path = λ p. 47 ∷ [];
  absolute_in = λ d n. d ++ (47 ∷ n);
  data_location = [];
  arg = λ t a. a;
  arg2 = λ t a b. a;
  digits = λ n. n ∷ [];
}

abbrev plain_texts : Texts
plain_texts = record {
  trimmed = λ t. t;
  split_command = λ t. t ∷ [];
  compare_ignoring_case = λ s t. if text_eq s t then pos 0 else pos 1;
  is_local_file = λ t. true;
  to_local_file = λ t. t;
}

abbrev desktop_with : List DesktopEntry → DesktopIconModel
desktop_with es = record {
  desktop_path = 47 ∷ [];
  entries = es;
  watched_dirs = [];
  watched_files = (47 ∷ 98 ∷ []) ∷ [];
  show_hidden = false;
  reloading = false;
}

abbrev file_icon : DesktopEntry
file_icon = record {
  name = 97 ∷ [];
  file_path = file_path;
  target_path = [];
  icon_name = [];
  mime_type = [];
  exec = [];
  is_directory = false;
  is_shortcut = false;
  is_executable = false;
  is_hidden = false;
  file_size = 1;
  last_modified = 1;
}

scan_directory-watches_example :
    let t = (scan_directory one_file small_disk plain_texts (true, []) (desktop_with [])).0 in
    (t.entries
      ≡ map
          (entry_from_info plain_texts one_file small_disk (true, []))
          (keep (λ (i : FileInfo). false || not i.hidden) (file_info ∷ [])))
    × (mem_text (47 ∷ 98 ∷ []) t.watched_files ≡ (
        lists_file false (47 ∷ 98 ∷ []) (file_info ∷ [])
        || (one_file.exists (true, []) (47 ∷ 98 ∷ [])
            && mem_text (47 ∷ 98 ∷ []) ((47 ∷ 98 ∷ []) ∷ []))))
    × (mem_text (47 ∷ []) t.watched_dirs ≡ true)
    × (t.reloading ≡ false)
scan_directory-watches_example =
    scan_directory-watches one_file small_disk plain_texts (true, []) (desktop_with [])
      (47 ∷ 98 ∷ []) (unfold text_eq in refl)

one_file-laws : MoveLaws one_file small_disk short_paths
one_file-laws = record {
  gio_moves = λ s p h. ground arith;
  rename_moves = λ s p q h. ground arith;
  remove_removes = λ s p h. ground arith;
  rm_removes = λ s p h. ground arith;
}

-- What follows "file://" is the path.
abbrev url_texts : Texts
url_texts = record plain_texts { to_local_file = λ t. drop 7 t }

url_word_laws : WordLaws url_texts
url_word_laws = record {
  keeps_append = λ a b ha hb ka kb. refl;
  keeps_type = (refl, refl, refl);
  keeps_name = (refl, refl);
  keeps_url = (refl, refl, refl);
  keeps_icon = (refl, refl, refl);
}

url_laws : UrlLaws one_file small_disk short_paths url_texts
unfolding lit
url_laws t h = (refl, refl)

abbrev held : Bool × Text → Text → Option Text
held s p = if s.0 then some s.1 else none

read_held :
    (s : Bool × Text) (p content : Text)
    → held s p ≡ some content
    → small_disk.read_lines s p ≡ some (lines_of content)
read_held (true, c) p content h = ap (λ t. some (lines_of t)) (ground (arith, h))
read_held (false, c) p content h = cc

file_laws : FileLaws one_file small_disk short_paths url_texts held
file_laws = record {
  reads = λ s p content h plain. read_held s p content h;
  keeps_content = λ s p. refl;
}

create_shortcut-parse_example :
    let (made, t) =
      create_shortcut one_file small_disk short_paths
        (true, [])
        (desktop_with [])
        (47 ∷ 104 ∷ [])
        (99 ∷ []) in
    (made ≡ true)
    × (parse_desktop_file url_texts file_icon (
          small_disk.read_lines t
            (shortcut_path one_file small_disk short_paths (true, []) (desktop_with []) (99 ∷ [])))
        ≡ record file_icon {
          name = 99 ∷ [];
          icon_name = lit "folder";
          exec = [];
          target_path = 47 ∷ 104 ∷ [];
        })
create_shortcut-parse_example =
    create_shortcut-parse one_file small_disk short_paths url_texts held url_word_laws file_laws
      url_laws (true, []) (desktop_with []) (99 ∷ []) (47 ∷ 104 ∷ []) file_icon refl
      (unfold starts_with has_char in refl) refl refl (unfold has_char in refl)
      (unfold has_char in refl) (unfold has_char in refl) (unfold has_char in refl) refl refl
