-- ===== src/DesktopIcons/Trashing.antt =====
-- `moveToTrash` and `trashEntry` of DesktopIconModel.cpp, and the names that `uniqueName` gives.
use nira_os.Base.{
  ℕ, zero, suc, ◌+◌, ◌≤◌, ◌<◌, ℤ, row_of, ◌≡◌, refl, ap, subst, Bool, true, false, Option, none,
  some, [], ◌∷◌, ◌++◌, Text, lit, if◌then◌else◌, arith, Bool-cases, inl, inr,
}
use nira_os.Files.System.{FileSystem, Paths}
use nira_os.Files.Operations.{trash_target}
use nira_os.DesktopIcons.Disk.{Disk}
use nira_os.DesktopIcons.Entry.{DesktopEntry}
use nira_os.DesktopIcons.Model.{DesktopIconModel}
use nira_os.DesktopIcons.Actions.{
  move_to_trash, trash_at, trash_entry, unique_from, unique_name, numbered_name,
}

some-value : {A : Type 0} {x y : A} → some x ≡ some y → x ≡ y
some-value e = cc

unique_from-here :
    (rounds i : ℕ) (name : ℕ → Text) (taken : Text → Bool) (candidate : Text)
    → taken candidate ≡ false
    → taken (unique_from rounds name taken i candidate) ≡ false
unfolding unique_from
unique_from-here zero i name taken candidate free = free
unique_from-here (suc rounds) i name taken candidate free = rw free free

unique_from-free :
    (rounds i k : ℕ) (name : ℕ → Text) (taken : Text → Bool) (candidate : Text)
    → i ≤ k
    → k < i + rounds
    → taken (name k) ≡ false
    → taken (unique_from rounds name taken i candidate) ≡ false
unfolding unique_from
unique_from-free zero i k name taken candidate low high free = absurd (omega arith)
unique_from-free (suc rounds) i k name taken candidate low high free =
    elim (Bool-cases (taken candidate)) [
      | inr open_name ↦ rw open_name open_name
      | inl used ↦ rw used (elim (Bool-cases (taken (name i))) [
        | inl next_used ↦
            unique_from-free rounds (i + 1) k name taken (name i)
              (ground (arith, next_used, free, ap (λ j. taken (name j)))) (omega arith) free
        | inr next_free ↦ unique_from-here rounds (i + 1) name taken (name i) next_free
      ])
    ]

module _ (fs : FileSystem) (disk : Disk fs) (paths : Paths) where
  -- What succeeds has moved or removed the file.
  pub record MoveLaws : Type 0 where
    pub gio_moves :
        (s : fs.State) (p : Text)
        → (fs.gio_trash s p).0 ≡ true
        → fs.exists (fs.gio_trash s p).1 p ≡ false
    pub rename_moves :
        (s : fs.State) (p q : Text)
        → (fs.rename_file s p q).0 ≡ true
        → fs.exists (fs.rename_file s p q).1 p ≡ false
    pub remove_removes :
        (s : fs.State) (p : Text)
        → (fs.remove_file s p).0 ≡ true
        → fs.exists (fs.remove_file s p).1 p ≡ false
    pub rm_removes :
        (s : fs.State) (p : Text)
        → (disk.execute s (lit "rm") (lit "-rf" ∷ p ∷ [])).0 ≡ true
        → fs.exists (disk.execute s (lit "rm") (lit "-rf" ∷ p ∷ [])).1 p ≡ false

  pick_gone :
      (b : Bool) (x y : Bool × fs.State) (path : Text)
      → (b ≡ true → x.0 ≡ true → fs.exists x.1 path ≡ false)
      → (y.0 ≡ true → fs.exists y.1 path ≡ false)
      → (if b then x else y).0 ≡ true
      → fs.exists (if b then x else y).1 path ≡ false
  pick_gone true x y path hx hy h = hx refl h
  pick_gone false x y path hx hy h = hy h

  failed : (u : fs.State) (path : Text) → false ≡ true → fs.exists u path ≡ false
  failed u path e = cc

  move_to_trash-gone :
      (laws : MoveLaws) (s : fs.State) (path : Text)
      → (move_to_trash fs disk paths s path).0 ≡ true
      → fs.exists (move_to_trash fs disk paths s path).1 path ≡ false
  unfolding move_to_trash
  move_to_trash-gone laws s path h =
      let s1 = (fs.gio_trash s path).1 in
      let s2 = (fs.make_path s1 (paths.data_location ++ lit "/Trash/files")).1 in
      let target = trash_target fs paths s2 path in
      let (renamed, s3) = fs.rename_file s2 path target in
      let (copied_dir, s4) = disk.execute s3 (lit "cp") (lit "-r" ∷ path ∷ target ∷ []) in
      let rm = disk.execute s4 (lit "rm") (lit "-rf" ∷ path ∷ []) in
      let (copied, t4) = fs.copy_file s3 path target in
      let removed = fs.remove_file t4 path in
      let by_rm = if copied_dir then rm else (false, s4) in
      let by_remove = if copied then removed else (false, t4) in
      let by_copy = if fs.is_dir s3 path then by_rm else by_remove in
      let by_rename = if renamed then (true, s3) else by_copy in
      pick_gone (fs.gio_trash s path).0 (true, s1) by_rename path (λ e ok. laws.gio_moves s path e)
        (pick_gone renamed (true, s3) by_copy path (λ e ok. laws.rename_moves s2 path target e)
          (pick_gone (fs.is_dir s3 path) by_rm by_remove path
            (λ e.
              pick_gone copied_dir rm (false, s4) path (λ c ok. laws.rm_removes s4 path ok)
                (failed s4 path))
            (pick_gone copied removed (false, t4) path (λ c ok. laws.remove_removes t4 path ok)
              (failed t4 path))))
        h

  at_row-gone :
      (laws : MoveLaws) (s : fs.State) (row : Option DesktopEntry) (e : DesktopEntry)
      → row ≡ some e
      → (trash_at fs disk paths s row).0 ≡ true
      → fs.exists (trash_at fs disk paths s row).1 e.file_path ≡ false
  unfolding trash_at
  at_row-gone laws s none e at h = cc
  at_row-gone laws s (some x) e at h =
      let same : x.file_path ≡ e.file_path =
        ap (λ (y : DesktopEntry). y.file_path) (some-value at) in
      subst (λ p. fs.exists (move_to_trash fs disk paths s x.file_path).1 p ≡ false) same
        (move_to_trash-gone laws s x.file_path h)

  -- When `trashEntry` reports success for an icon, its file is not on the desktop any more, by
  -- whichever of the four ways it went.
  pub trash_entry-gone :
      (laws : MoveLaws) (s : fs.State) (m : DesktopIconModel) (row : ℤ) (e : DesktopEntry)
      → row_of m.entries row ≡ some e
      → (trash_entry fs disk paths s m row).0 ≡ true
      → fs.exists (trash_entry fs disk paths s m row).1 e.file_path ≡ false
  unfolding trash_entry
  trash_entry-gone laws s m row e at h = at_row-gone laws s (row_of m.entries row) e at h

  -- The name is that of no entry of the directory, if one of "base (2)" to "base (10000)" is free.
  pub unique_name_is_free :
      (s : fs.State) (dir base suffix : Text) (k : ℕ)
      → 2 ≤ k
      → k ≤ 10000
      → fs.exists s (paths.absolute_in dir (numbered_name paths base suffix k)) ≡ false
      → fs.exists s (paths.absolute_in dir (unique_name fs disk paths s dir base suffix)) ≡ false
  unfolding unique_name
  unique_name_is_free s dir base suffix k low high free =
      unique_from-free 9999 2 k (numbered_name paths base suffix)
        (λ name. fs.exists s (paths.absolute_in dir name)) (base ++ suffix) low (omega arith) free
