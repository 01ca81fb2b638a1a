-- ===== src/Files/SelfCopy.antt =====
-- `copy` and `performRecursiveCopy` of apps/files/src/FileOperations.cpp when a folder is copied into
-- itself.
use nira_os.Base.{
  ℕ, zero, suc, ◌<◌, ◌≡◌, refl, Bool, true, false, some, [], ◌∷◌, ◌++◌, Text, lit, arith,
}
use nira_os.Files.System.{FileSystem, Paths}
use nira_os.Files.Operations.{
  copy, copy_finished, perform_recursive_copy, copy_entries, resolve_destination,
}

module _ (fs : FileSystem) (paths : Paths) (name : Text) where
  abbrev child : Text → Text
  child p = paths.absolute_in p name

  -- The folder `p` is there and has nothing in it.
  pub record IsEmptyFolder (s : fs.State) (p : Text) : Type 0 where
    pub there : fs.is_dir s p ≡ true
    pub no_child : fs.is_dir s (child p) ≡ false
    pub no_entries : fs.entries s p ≡ []

  -- The folder `n` levels below, each with the name.
  abbrev pub nested : ℕ → Text → Text
  nested zero p = p
  nested (suc n) p = nested n (child p)

  -- In the empty folder `p` exactly `n` folders can be made, each in the one before: then `mkpath`
  -- fails, for a path that is too long or a disk that is full, and leaves what is there.
  abbrev pub MakesNested : ℕ → fs.State → Text → Type 0
  MakesNested zero s p =
      let (made, t) = fs.make_path s (child p) in
      IsEmptyFolder s p × (made ≡ false) × (fs.is_dir t p ≡ true)
  MakesNested (suc n) s p =
      let (made, t) = fs.make_path s (child p) in
      IsEmptyFolder s p
      × (made ≡ true)
      × (fs.entries t p ≡ record { name = name; path = child p; is_directory = true } ∷ [])
      × MakesNested n t (child p)

  -- The file system after these `mkpath`s, the one that fails too.
  abbrev pub after_nested : ℕ → fs.State → Text → fs.State
  after_nested zero s p = (fs.make_path s (child p)).1
  after_nested (suc n) s p = after_nested n (fs.make_path s (child p)).1 (child p)

  as_pair : (b : Bool) (r : Bool × fs.State) → r.0 ≡ b → r ≡ (b, r.1)
  as_pair b (c, s) e = rw e

  nested_there :
      (n : ℕ) (s : fs.State) (p : Text)
      → MakesNested n s p
      → fs.is_dir (after_nested n s p) (nested n p) ≡ true
  nested_there zero s p (empty, fails, there) = there
  nested_there (suc n) s p (empty, makes, only, below) =
      nested_there n (fs.make_path s (child p)).1 (child p) below

  recursive_copy_into_itself :
      (n fuel : ℕ) (s : fs.State) (p : Text)
      → MakesNested n s p
      → n < fuel
      → perform_recursive_copy fs paths fuel s p (child p) ≡ some (false, after_nested n s p)
  unfolding perform_recursive_copy copy_entries
  recursive_copy_into_itself n zero s p h enough = absurd (omega (arith, enough))
  recursive_copy_into_itself zero (suc fuel) s p (empty, fails, there) enough =
      rw (empty.there, empty.no_child, as_pair false (fs.make_path s (child p)) fails) refl
  recursive_copy_into_itself (suc n) (suc fuel) s p (empty, makes, only, below) enough = rw (
    empty.there,
    empty.no_child,
    as_pair true (fs.make_path s (child p)) makes,
    only,
    recursive_copy_into_itself n fuel (fs.make_path s (child p)).1 (child p) below
        (omega (arith, enough)),
  )

  -- In an empty folder in which exactly `n` nested folders can be made, the copy of the folder to
  -- itself makes all of them: each copy of the folder is found in the listing of the one before and is
  -- copied again. It ends at the `mkpath` that fails, reports a failure, and leaves the nested folders.
  pub copy_into_itself_nests :
      (n fuel : ℕ) (s : fs.State) (p : Text)
      → MakesNested n s p
      → n < fuel
      → fs.is_dir s p ≡ true
      → fs.exists s p ≡ true
      → paths.file_name p ≡ name
      → (copy fs paths fuel s p p
          ≡ some (copy_finished false (lit "Failed to copy " ++ name) ∷ [], after_nested n s p))
        × (fs.is_dir (after_nested n s p) (nested n p) ≡ true)
  unfolding copy resolve_destination
  copy_into_itself_nests n fuel s p h enough folder there named = (
    rw (there, folder, named, recursive_copy_into_itself n fuel s p h enough) refl,
    nested_there n s p h,
  )
