-- ===== src/DesktopIcons/Watching.antt =====
-- What a scan of DesktopIconModel.cpp shows and watches.
use nira_os.Base.{
  ◌≡◌, refl, ap, ◌∙◌, Bool, true, false, not, ◌&&◌, ◌||◌, Bool-cases, inl, inr, List, [], ◌∷◌, map,
  Text, text_eq, text_eq_iff, text_eq_refl, mem_text, keep, if◌then◌else◌, arith,
}
use nira_os.Files.System.{FileSystem}
use nira_os.DesktopIcons.Disk.{Disk, FileInfo, Texts}
use nira_os.DesktopIcons.Entry.{entry_from_info}
use nira_os.DesktopIcons.Model.{DesktopIconModel, add_path, scan_infos, scan_directory}

-- The files of a listing that are shown.
abbrev pub lists_file : Bool → Text → List FileInfo → Bool
lists_file show_hidden path [] = false
lists_file show_hidden path (info ∷ infos) =
    (info.is_file && (show_hidden || not info.hidden) && text_eq info.absolute_path path)
    || lists_file show_hidden path infos

mem_text-add_path :
    (q path : Text) (paths : List Text)
    → mem_text path (add_path q paths) ≡ (text_eq q path || mem_text path paths)
unfolding mem_text
mem_text-add_path q path paths = elim (Bool-cases (text_eq q path)) [
  | inl here ↦
      let same : mem_text q paths ≡ mem_text path paths =
        ap (λ p. mem_text p paths) ((text_eq_iff q path).0 here) in
      ground (arith, here, same)
  | inr there ↦ ground (arith, there)
]

mem_text-keep :
    (p : Text → Bool) (path : Text) (paths : List Text)
    → mem_text path (keep p paths) ≡ (p path && mem_text path paths)
unfolding mem_text
mem_text-keep p path [] = ground arith
mem_text-keep p path (q ∷ paths) = elim (Bool-cases (text_eq q path)) [
  | inl here ↦
      let same : p q ≡ p path = ap p ((text_eq_iff q path).0 here) in
      ground (arith, here, same, mem_text-keep p path paths)
  | inr there ↦ ground (arith, there, mem_text-keep p path paths)
]

module _ (fs : FileSystem) (disk : Disk fs) (texts : Texts) where
  scan_infos-watched :
      (s : fs.State) (show_hidden : Bool) (infos : List FileInfo) (watched : List Text)
      (path : Text)
      → mem_text path (scan_infos fs disk texts s show_hidden infos watched).0
        ≡ (lists_file show_hidden path infos || mem_text path watched)
  unfolding scan_infos
  scan_infos-watched s show_hidden [] watched path = refl
  scan_infos-watched s show_hidden (info ∷ infos) watched path =
      let now =
        if not (not show_hidden && info.hidden) && info.is_file
        then add_path info.absolute_path watched
        else watched in
      rw (scan_infos-watched s show_hidden infos now path)
        (ground (arith, mem_text-add_path info.absolute_path path watched))

  scan_infos-entries :
      (s : fs.State) (show_hidden : Bool) (infos : List FileInfo) (watched : List Text)
      → (scan_infos fs disk texts s show_hidden infos watched).1
        ≡ map
            (entry_from_info texts fs disk s)
            (keep (λ (i : FileInfo). show_hidden || not i.hidden) infos)
  unfolding scan_infos
  scan_infos-entries s show_hidden [] watched = refl
  scan_infos-entries s show_hidden (info ∷ infos) watched =
      let now =
        if not (not show_hidden && info.hidden) && info.is_file
        then add_path info.absolute_path watched
        else watched in
      let rest = scan_infos-entries s show_hidden infos now in
      elim (Bool-cases (show_hidden || not info.hidden)) [
        | inl shown ↦ ground (arith, shown, rest)
        | inr skipped ↦ ground (arith, skipped, rest)
      ]

  -- After a scan of an existing desktop the icons are those of its listing that are to be shown, in
  -- its order; and a path is watched exactly if it is a file of the listing that is shown, or was
  -- watched before and still exists.
  pub scan_directory-watches :
      (s : fs.State) (m : DesktopIconModel) (path : Text)
      → fs.is_dir s m.desktop_path ≡ true
      → let infos = disk.entry_info_list s m.desktop_path in
        let t = (scan_directory fs disk texts s m).0 in
        (t.entries
          ≡ map
              (entry_from_info texts fs disk s)
              (keep (λ (i : FileInfo). m.show_hidden || not i.hidden) infos))
        × (mem_text path t.watched_files ≡ (
            lists_file m.show_hidden path infos
            || (fs.exists s path && mem_text path m.watched_files)))
        × (mem_text m.desktop_path t.watched_dirs ≡ true)
        × (t.reloading ≡ false)
  unfolding scan_directory
  scan_directory-watches s m path there =
      let infos = disk.entry_info_list s m.desktop_path in
      let files = keep (fs.exists s) m.watched_files in
      rw there (
        scan_infos-entries s m.show_hidden infos files,
        scan_infos-watched s m.show_hidden infos files path
            ∙ rw (mem_text-keep (fs.exists s) path m.watched_files) refl,
        mem_text-add_path m.desktop_path m.desktop_path m.watched_dirs
            ∙ rw (text_eq_refl m.desktop_path) refl,
        refl,
      )
