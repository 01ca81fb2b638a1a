-- ===== src/Files/Trash.antt =====
-- `delete_`, `performDelete` and `moveToTrash` of apps/files/src/FileOperations.cpp, for a file that has
-- to be copied to the trash.
use nira_os.Base.{ℕ, suc, ◌≡◌, Bool, true, false, some, [], ◌∷◌, ◌++◌, Text, lit}
use nira_os.Files.System.{FileSystem, Paths}
use nira_os.Files.Operations.{
  delete, delete_finished, perform_delete, move_to_trash, trash_target, perform_recursive_delete,
}

module _ (fs : FileSystem) (paths : Paths) where
  -- The states on the way: after `gio trash`, the folder of the trash, and the failed rename.
  abbrev after_gio : fs.State → Text → fs.State
  after_gio s path = (fs.gio_trash s path).1

  abbrev after_folder : fs.State → Text → fs.State
  after_folder s path =
      (fs.make_path (after_gio s path) (paths.data_location ++ lit "/Trash/files")).1

  abbrev after_rename : fs.State → Text → fs.State
  after_rename s path =
      (fs.rename_file (after_folder s path) path
        (trash_target fs paths (after_folder s path) path)).1

  abbrev trash_copy : fs.State → Text → Bool × fs.State
  trash_copy s path =
      fs.copy_file (after_rename s path) path (trash_target fs paths (after_folder s path) path)

  abbrev pub IsFile : fs.State → Text → Type 0
  IsFile s p = (fs.exists s p ≡ true) × (fs.is_dir s p ≡ false)

  -- Nothing that is not asked to be removed goes: a failed `gio trash`, a failed rename, a new folder
  -- and a copy leave a file where it is, and a file.
  pub record KeepLaws : Type 0 where
    pub gio_keeps :
        (s : fs.State) (p : Text)
        → (fs.gio_trash s p).0 ≡ false
        → IsFile s p
        → IsFile (fs.gio_trash s p).1 p
    pub make_path_keeps : (s : fs.State) (p q : Text) → IsFile s p → IsFile (fs.make_path s q).1 p
    pub rename_keeps :
        (s : fs.State) (p q : Text)
        → (fs.rename_file s p q).0 ≡ false
        → IsFile s p
        → IsFile (fs.rename_file s p q).1 p
    pub copy_keeps : (s : fs.State) (p q : Text) → IsFile s p → IsFile (fs.copy_file s p q).1 p

  as_pair : {S : Type 0} (b : Bool) (r : Bool × S) → r.0 ≡ b → r ≡ (b, r.1)
  as_pair b (c, s) e = rw e

  -- A file for which `gio trash` and the rename into the trash fail, and the copy into the trash
  -- works, is still where it was when `delete_` reports success.
  pub trashed_file_stays :
      (laws : KeepLaws) (fuel : ℕ) (s : fs.State) (path : Text)
      → IsFile s path
      → (fs.gio_trash s path).0 ≡ false
      → (fs.rename_file
          (after_folder s path)
          path
          (trash_target fs paths (after_folder s path) path)).0
        ≡ false
      → (trash_copy s path).0 ≡ true
      → (t : fs.State) × (delete fs paths (suc fuel) s path false
          ≡ some (delete_finished true [] ∷ [], t))
        × (fs.exists t path ≡ true)
  unfolding delete perform_delete move_to_trash perform_recursive_delete
  trashed_file_stays laws fuel s path file gio renamed copied =
      let file1 = laws.gio_keeps s path gio file in
      let file2 = laws.make_path_keeps _ path (paths.data_location ++ lit "/Trash/files") file1 in
      let file3 = laws.rename_keeps _ path _ renamed file2 in
      let file4 = laws.copy_keeps _ path (trash_target fs paths (after_folder s path) path) file3 in
      (
        (trash_copy s path).1,
        rw (file.0, gio, renamed, file3.1, as_pair true (trash_copy s path) copied, file4.1),
        file4.0,
      )
