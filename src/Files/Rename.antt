-- ===== src/Files/Rename.antt =====
-- `rename` and `duplicate` of apps/files/src/FileOperations.cpp: which paths they touch.
use nira_os.Base.{
  ℕ, ◌≤◌, ◌<◌, ◌≡◌, refl, ◌⊎◌, inl, inr, Bool, true, false, not, ◌&&◌, some, List, [], ◌∷◌, ◌++◌,
  Text, text_eq, text_eq_iff, Bool-cases, if◌then◌else◌, arith, ◌∙◌, ap, sym, starts_with,
}
use nira_os.Files.System.{FileSystem, Paths}
use nira_os.Files.Names.{
  is_safe_name, leads_to, split_path, walk, safe_name_stays, first_free-exists, copy_name,
}
use nira_os.Files.Operations.{Signal, report, rename, rename_finished, duplicate_target}

root_leads_nowhere : leads_to [] ≡ leads_to (47 ∷ [])
unfolding leads_to split_path walk
root_leads_nowhere = refl

module _ (fs : FileSystem) (paths : Paths) where
  -- A name in a folder; only the root's path ends with a slash.
  abbrev pub joined : Text → Text → Text
  joined dir name = if text_eq dir (47 ∷ []) then 47 ∷ name else dir ++ (47 ∷ name)

  -- `QDir::absoluteFilePath` of a name in the folder of a file, whose path is absolute and has no
  -- slash at its end, other than the root's. A name that begins with a colon is a path of its own.
  abbrev pub JoinsNames : Type 0
  JoinsNames =
      (path name : Text)
      → starts_with (paths.absolute_path path) (47 ∷ []) ≡ true
      → is_safe_name name ≡ true
      → starts_with name (58 ∷ []) ≡ false
      → paths.absolute_in (paths.absolute_path path) name ≡ joined (paths.absolute_path path) name

  joined_stays :
      (dir name : Text)
      → is_safe_name name ≡ true
      → leads_to (joined dir name) ≡ name ∷ leads_to dir
  joined_stays dir name safe = elim (Bool-cases (text_eq dir (47 ∷ []))) [
    | inl root ↦
        let at : dir ≡ 47 ∷ [] = (text_eq_iff dir (47 ∷ [])).0 root in
        rw root
          (safe_name_stays [] name safe ∙ ap (◌∷◌ name) (root_leads_nowhere ∙ ap leads_to (sym at)))
    | inr other ↦ rw other (safe_name_stays dir name safe)
  ]

  abbrev new_path : Text → Text → Text
  new_path path name = paths.absolute_in (paths.absolute_path path) name

  -- The new name is free, or it is that of the file itself.
  abbrev IsFree : fs.State → Text → Text → Type 0
  IsFree s dest path = (fs.exists s dest ≡ false) ⊎ (dest ≡ paths.absolute_file_path path)

  unoccupied_or_own :
      (s : fs.State) (dest path : Text)
      → (fs.exists s dest && not (text_eq dest (paths.absolute_file_path path))) ≡ false
      → IsFree s dest path
  unoccupied_or_own s dest path h = elim (Bool-cases (fs.exists s dest)) [
    | inr free ↦ inl free
    | inl used ↦ inr ((text_eq_iff dest (paths.absolute_file_path path)).0 (ground (arith)))
  ]

  rename_branch :
      (safe taken done : Bool) (s t u : fs.State) (invalid used signals : List Signal)
      (finished : Bool → Text → Signal) (message : Text)
      → (if not safe
          then some (invalid, s)
          else if taken
          then some (used, s)
          else report fs paths finished message (some (done, u)))
        ≡ some (signals, t)
      → (t ≡ s) ⊎ ((t ≡ u) × (safe ≡ true) × (taken ≡ false))
  rename_branch false taken done s t u invalid used signals finished message e = inl (grind arith)
  rename_branch true true done s t u invalid used signals finished message e = inl (grind arith)
  rename_branch true false true s t u invalid used signals finished message e =
      inr (grind arith, refl, refl)
  rename_branch true false false s t u invalid used signals finished message e =
      inr (grind arith, refl, refl)

  -- For a file in a folder with an absolute path, and a new name that begins with no colon: a rename
  -- changes nothing, or it asks for one renaming, to an entry directly in the folder of the file, and
  -- to a name that is free or the file's own.
  pub rename_confined :
      (joins : JoinsNames) (s t : fs.State) (path name : Text) (signals : List Signal)
      → starts_with (paths.absolute_path path) (47 ∷ []) ≡ true
      → starts_with name (58 ∷ []) ≡ false
      → rename fs paths s path name ≡ some (signals, t)
      → (t ≡ s)
        ⊎ ((t ≡ (fs.rename_file s path (new_path path name)).1)
            × (leads_to (new_path path name) ≡ name ∷ leads_to (paths.absolute_path path))
            × IsFree s (new_path path name) path)
  unfolding rename
  rename_confined joins s t path name signals absolute no_colon e =
      let dest = new_path path name in
      let r = fs.rename_file s path dest in
      let taken = fs.exists s dest && not (text_eq dest (paths.absolute_file_path path)) in
      elim (rename_branch (is_safe_name name) taken r.0 s t r.1 _ _ signals rename_finished _ e) [
        | inl same ↦ inl same
        | inr (renamed, safe, free) ↦ inr (
          renamed,
          ap leads_to (joins path name absolute safe no_colon)
              ∙ joined_stays (paths.absolute_path path) name safe,
          unoccupied_or_own s (new_path path name) path free,
        )
      ]

  -- A copy that `duplicate` makes has a new path, if one of the 999 names that it tries is free.
  pub duplicate_target_is_new :
      (s : fs.State) (path : Text) (k : ℕ)
      → 1 ≤ k
      → k < 1000
      → fs.exists s (
          paths.absolute_path path
          ++ (47 ∷ copy_name paths (paths.complete_base_name path) (paths.suffix path) k))
        ≡ false
      → fs.exists s (duplicate_target fs paths s path) ≡ false
  unfolding duplicate_target
  duplicate_target_is_new s path k low high free =
      first_free-exists 999 1 k
        (λ i.
          paths.absolute_path path
          ++ (47 ∷ copy_name paths (paths.complete_base_name path) (paths.suffix path) i))
        (fs.exists s) [] low high free
