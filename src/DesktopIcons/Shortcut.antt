-- ===== src/DesktopIcons/Shortcut.antt =====
-- `createShortcut` and `parseDesktopFile` of DesktopIconModel.cpp: what is written is read again.
use nira_os.Base.{
  any, ltb, leb, ℕ, ◌≡◌, refl, ◌∙◌, Bool, true, false, not, ◌&&◌, ◌||◌, Option, some, [], ◌∷◌, ◌++◌,
  starts_with, Text, lit, has_char, is_empty, arith,
}
use nira_os.Files.System.{FileSystem, Paths}
use nira_os.DesktopIcons.Disk.{Disk, Texts}
use nira_os.DesktopIcons.Entry.{DesktopEntry, with_keys, target_of, parse_desktop_file}
use nira_os.DesktopIcons.Model.{DesktopIconModel}
use nira_os.DesktopIcons.Actions.{line, shortcut_text, shortcut_path, create_shortcut}
use nira_os.DesktopIcons.ShortcutFile.{lines_of, Keeps, WordLaws, shortcut_keys, shortcut_data}

has_char-append : (c : ℕ) (a b : Text) → has_char c (a ++ b) ≡ (has_char c a || has_char c b)
unfolding has_char
has_char-append c [] b = refl
has_char-append c (x ∷ a) b = ground (arith, has_char-append c a b)

without_return :
    (a b : Text) → has_char 13 a ≡ false → has_char 13 b ≡ false → has_char 13 (a ++ b) ≡ false
without_return a b ha hb = has_char-append 13 a b ∙ ground (arith, ha, hb)

-- The text of a shortcut has no carriage return but those of the name and the target.
no_return :
    (name target : Text)
    → has_char 13 name ≡ false
    → has_char 13 target ≡ false
    → has_char 13 (shortcut_text name target) ≡ false
unfolding shortcut_text line lit has_char
no_return name target hn ht = without_return name _ hn (without_return target _ ht refl)

module _ (fs : FileSystem) (disk : Disk fs) (paths : Paths) (texts : Texts) where
  -- What the disk holds, and how it is read: a text without carriage returns, line by line. To make a
  -- file executable does not change it.
  pub record FileLaws (contents : fs.State → Text → Option Text) : Type 0 where
    pub reads :
        (s : fs.State) (p content : Text)
        → contents s p ≡ some content
        → has_char 13 content ≡ false
        → disk.read_lines s p ≡ some (lines_of content)
    pub keeps_content :
        (s : fs.State) (p : Text) → contents (disk.make_executable s p) p ≡ contents s p

  -- An absolute path without control characters, surrogates and the characters that mean something
  -- else in a URL.
  abbrev pub is_plain_path : Text → Bool
  is_plain_path t =
      starts_with t (47 ∷ [])
      && (not (any (λ c. ltb c 32 || leb 55296 c) t)
          && (not (has_char 37 t) && (not (has_char 35 t) && not (has_char 63 t))))

  -- The URL of such a path is that of a local file, of this one.
  abbrev pub UrlLaws : Type 0
  UrlLaws =
      (t : Text)
      → is_plain_path t ≡ true
      → (texts.is_local_file (lit "file://" ++ t) ≡ true)
        × (texts.to_local_file (lit "file://" ++ t) ≡ t)

  plain_path_some : (t : Text) → is_plain_path t ≡ true → is_empty t ≡ false
  unfolding starts_with
  plain_path_some [] h = cc
  plain_path_some (c ∷ t) h = refl

  shortcut_entry :
      (urls : UrlLaws) (e : DesktopEntry) (name target : Text)
      → is_empty name ≡ false
      → is_plain_path target ≡ true
      → with_keys texts e (shortcut_data texts name target)
        ≡ record e { name = name; icon_name = lit "folder"; exec = []; target_path = target }
  unfolding with_keys target_of lit
  shortcut_entry urls e name target hn plain =
      let (local, same) = urls target plain in ground (arith, hn, local, same)

  -- A shortcut that could be written, wholly, is read again as one to its target: it has the name that
  -- was asked for, the icon of a folder, no command, and the target's path. This is for a name and a
  -- target that have no blanks around them and no ends of lines or carriage returns in them, and a
  -- target that is an absolute path without control characters, code units from 0xD800 on, "%", "#" and "?".
  pub create_shortcut-parse :
      (contents : fs.State → Text → Option Text) (laws : WordLaws texts) (files : FileLaws contents)
      (urls : UrlLaws) (s : fs.State) (m : DesktopIconModel) (name target : Text) (e : DesktopEntry)
      → is_empty name ≡ false
      → is_plain_path target ≡ true
      → Keeps texts name
      → Keeps texts target
      → has_char 10 name ≡ false
      → has_char 10 target ≡ false
      → has_char 13 name ≡ false
      → has_char 13 target ≡ false
      → let path = shortcut_path fs disk paths s m name in
        let (opened, after) = disk.write_text s path (shortcut_text name target) in
        opened ≡ true
        → contents after path ≡ some (shortcut_text name target)
        → let (made, t) = create_shortcut fs disk paths s m target name in
          (made ≡ true)
          × (parse_desktop_file texts e (disk.read_lines t path)
              ≡ record e { name = name; icon_name = lit "folder"; exec = []; target_path = target })
  unfolding create_shortcut parse_desktop_file
  create_shortcut-parse contents laws files urls s m name target e hn plain kn kt nn nt rn rt opened
        whole =
      let path = shortcut_path fs disk paths s m name in
      let after = (disk.write_text s path (shortcut_text name target)).1 in
      let ht : is_empty target ≡ false = plain_path_some target plain in
      let back : disk.read_lines (disk.make_executable after path) path
          ≡ some (lines_of (shortcut_text name target)) =
        files.reads (disk.make_executable after path) path (shortcut_text name target)
          (files.keeps_content after path ∙ whole) (no_return name target rn rt) in
      (
        rw (hn, ht, opened) refl,
        rw (hn, ht, opened, back, shortcut_keys texts laws name target hn ht kn kt nn nt)
            (shortcut_entry urls e name target hn plain),
      )
