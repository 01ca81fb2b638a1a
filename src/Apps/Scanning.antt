-- ===== src/Apps/Scanning.antt =====
-- The scan of AppModel.cpp: each file is parsed once.
use nira_os.Base.{
  any, any-append, ◌≡◌, refl, ◌∙◌, ap, subst, Bool, true, not, ◌&&◌, ◌||◌, inl, inr, List, [], ◌∷◌,
  ◌++◌, Text, lit, text_eq, text_eq_iff, mem_text, count_if, Bool-cases, arith,
}
use nira_os.Base.Sorting.{count_if-sort}
use nira_os.Apps.AppModel.{
  Qt, AppEntry, Scan, parse_desktop_file, scan_file, scan_files, scan_dir, scan_dirs,
  scan_directories, init,
}

abbrev pub no_repeats : List Text → Bool
no_repeats [] = true
no_repeats (path ∷ paths) = not (mem_text path paths) && no_repeats paths

module _ (qt : Qt) where
  -- The applications of files, the last first.
  abbrev pub parsed : List Text → List AppEntry
  parsed [] = []
  parsed (path ∷ paths) = parsed paths ++ parse_desktop_file qt path

  -- The directory in the user's home is the last one.
  abbrev pub user_dir : Text
  user_dir = qt.home ++ lit "/.local/share/applications"

  -- What the scan knows: each path once, and the applications of those.
  abbrev Knows : Scan qt → Type 0
  Knows (seen, apps) = (no_repeats seen ≡ true) × (apps ≡ parsed seen)

  scan_file-Knows : (path : Text) (s : Scan qt) → Knows s → Knows (scan_file qt path s)
  unfolding scan_file
  scan_file-Knows path (seen, apps) h = elim (Bool-cases (mem_text path seen)) [
    | inl known ↦ rw (known) h
    | inr unknown ↦
        rw (unknown) (rw (unknown, h.0) refl, ap (λ a. a ++ parse_desktop_file qt path) h.1)
  ]

  scan_files-Knows : (paths : List Text) (s : Scan qt) → Knows s → Knows (scan_files qt paths s)
  unfolding scan_files
  scan_files-Knows [] s h = h
  scan_files-Knows (path ∷ paths) s h =
      scan_files-Knows paths (scan_file qt path s) (scan_file-Knows path s h)

  scan_dir-Knows : (dir : Text) (s : Scan qt) → Knows s → Knows (scan_dir qt dir s)
  unfolding scan_dir
  scan_dir-Knows dir s h = elim (Bool-cases (qt.dir_exists dir)) [
    | inl there ↦ rw (there) (scan_files-Knows (qt.desktop_files dir) s h)
    | inr missing ↦ rw (missing) h
  ]

  scan_dirs-Knows : (dirs : List Text) (s : Scan qt) → Knows s → Knows (scan_dirs qt dirs s)
  unfolding scan_dirs
  scan_dirs-Knows [] s h = h
  scan_dirs-Knows (dir ∷ dirs) s h =
      scan_dirs-Knows dirs (scan_dir qt dir s) (scan_dir-Knows dir s h)

  -- A directory has the file.
  abbrev pub has_file : Text → Text → Bool
  has_file path dir = qt.dir_exists dir && mem_text path (qt.desktop_files dir)

  -- A scan has seen the files that it came upon, and those from before.
  scan_file-mem_text :
      (p path : Text) (s : Scan qt)
      → mem_text p (scan_file qt path s).0 ≡ (text_eq path p || mem_text p s.0)
  unfolding scan_file mem_text
  scan_file-mem_text p path (seen, apps) = elim (Bool-cases (mem_text path seen)) [
    | inl known ↦ rw known (elim (Bool-cases (text_eq path p)) [
      | inl here ↦
          let same = subst (λ q. mem_text q seen ≡ true) ((text_eq_iff path p).0 here) known in
          ground (arith, here, same)
      | inr there ↦ ground (arith, there)
    ])
    | inr unknown ↦ rw unknown refl
  ]

  scan_files-mem_text :
      (p : Text) (paths : List Text) (s : Scan qt)
      → mem_text p (scan_files qt paths s).0 ≡ (mem_text p paths || mem_text p s.0)
  unfolding scan_files mem_text
  scan_files-mem_text p [] s = refl
  scan_files-mem_text p (path ∷ paths) s =
      ground (arith, scan_files-mem_text p paths (scan_file qt path s), scan_file-mem_text p path s)

  scan_dir-mem_text :
      (p dir : Text) (s : Scan qt)
      → mem_text p (scan_dir qt dir s).0 ≡ (has_file p dir || mem_text p s.0)
  unfolding scan_dir
  scan_dir-mem_text p dir s = elim (Bool-cases (qt.dir_exists dir)) [
    | inl there ↦ rw there (scan_files-mem_text p (qt.desktop_files dir) s)
    | inr missing ↦ rw missing refl
  ]

  scan_dirs-mem_text :
      (p : Text) (dirs : List Text) (s : Scan qt)
      → mem_text p (scan_dirs qt dirs s).0 ≡ (any (has_file p) dirs || mem_text p s.0)
  unfolding scan_dirs
  scan_dirs-mem_text p [] s = refl
  scan_dirs-mem_text p (dir ∷ dirs) s =
      ground (arith, scan_dirs-mem_text p dirs (scan_dir qt dir s), scan_dir-mem_text p dir s)

  -- There is one list of files, in which no file stands twice and exactly the `.desktop` files of the
  -- existing directories that are searched do stand, and the launcher has the applications of the
  -- files of this list, each as often as the list gives it.
  pub init_parses_once :
      (paths : List Text) × (no_repeats paths ≡ true)
      × ((path : Text)
          → mem_text path paths ≡ any (has_file path) (qt.application_dirs ++ (user_dir ∷ [])))
      × ((p : AppEntry → Bool) → count_if p (init qt) ≡ count_if p (parsed paths))
  unfolding init scan_directories mem_text
  init_parses_once =
      let dirs = scan_dirs qt qt.application_dirs ([], []) in
      let all = scan_dir qt user_dir dirs in
      let known =
        scan_dir-Knows user_dir dirs (scan_dirs-Knows qt.application_dirs ([], []) (refl, refl)) in
      (
        all.0,
        known.0,
        λ path. ground (
          arith,
          scan_dir-mem_text path user_dir dirs,
          scan_dirs-mem_text path qt.application_dirs ([], []),
          any-append (has_file path) qt.application_dirs (user_dir ∷ []),
        ),
        λ p. count_if-sort p _ all.1 ∙ ap (count_if p) known.1,
      )
