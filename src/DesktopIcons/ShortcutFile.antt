-- ===== src/DesktopIcons/ShortcutFile.antt =====
-- The text that `createShortcut` of DesktopIconModel.cpp writes, line by line, for the reader of
-- desktop files.
use nira_os.Base.{
  ℕ, ◌==◌, ◌≡◌, refl, ap, sym, ◌∙◌, false, some, List, [], ◌∷◌, ◌++◌, Text, lit, has_char, is_empty,
  starts_with, text_eq, if◌then◌else◌, arith, All, append-nil, append_assoc, subst,
}
use nira_os.Apps.DesktopFile.{read_lines, read_line, split_at_first}
use nira_os.Apps.Sections.{read_body, read_lines-section}
use nira_os.DesktopIcons.Disk.{Texts}
use nira_os.DesktopIcons.Entry.{Keys, no_keys, assign}
use nira_os.DesktopIcons.Actions.{line, shortcut_text}

-- `readLine` until the end.
unfoldable pub lines_of : Text → List Text
lines_of [] = []
lines_of (c ∷ s) =
    let rest = lines_of s in
    if c == 10 then [] ∷ rest else elim rest [ [] ↦ (c ∷ []) ∷ [] | l ∷ ls ↦ (c ∷ l) ∷ ls ]

lines_of-line : (t rest : Text) → has_char 10 t ≡ false → lines_of (line t rest) ≡ t ∷ lines_of rest
unfolding lines_of line has_char
lines_of-line [] rest h = refl
lines_of-line (c ∷ t) rest h =
    let tail = lines_of-line t rest (ground (arith, h)) in rw tail (ground (arith, h))

split_at_first-append :
    (c : ℕ) (key val : Text)
    → has_char c key ≡ false
    → split_at_first c (key ++ (c ∷ val)) ≡ some (key, val)
unfolding split_at_first has_char
split_at_first-append c [] val h = ground arith
split_at_first-append c (k ∷ key) val h =
    let rest = split_at_first-append c key val (ground (arith, h)) in
    let other : (k == c) ≡ false = ground (arith, h) in rw (rest, other) refl

starts_with-hash :
    (key val : Text)
    → is_empty key ≡ false
    → starts_with key (35 ∷ []) ≡ starts_with (key ++ val) (35 ∷ [])
unfolding starts_with
starts_with-hash [] val h = cc
starts_with-hash (k ∷ []) [] h = refl
starts_with-hash (k ∷ []) (v ∷ val) h = refl
starts_with-hash (k ∷ l ∷ key) val h = refl

some_append : (a b : Text) → is_empty a ≡ false → is_empty (a ++ b) ≡ false
some_append [] b h = cc
some_append (c ∷ a) b h = refl

module _ (texts : Texts) where
  -- Trimming leaves a text alone.
  abbrev pub Keeps : Text → Type 0
  Keeps t = texts.trimmed t ≡ t

  -- A word that a line can begin with.
  abbrev IsKey : Text → Type 0
  IsKey key =
      (is_empty key ≡ false) × (starts_with key (35 ∷ []) ≡ false) × (has_char 61 key ≡ false)

  -- A line `key=val` of the section is taken for that.
  read_line-key :
      (key val : Text) (k : Keys)
      → IsKey key
      → Keeps (key ++ (61 ∷ val))
      → Keeps key
      → Keeps val
      → read_line texts.trimmed assign (key ++ (61 ∷ val)) k ≡ assign key val k
  unfolding read_line
  read_line-key key val k (some_key, no_hash, no_equals) kl kk kv =
      rw
        (
          kl,
          sym (starts_with-hash key (61 ∷ val) some_key),
          no_hash,
          split_at_first-append 61 key val no_equals,
          kk,
          kv,
        )
        refl

  -- The four lines under the header.
  abbrev body_lines : Text → Text → List Text
  body_lines name target =
      (lit "Type" ++ (61 ∷ lit "Link"))
      ∷ (lit "Name" ++ (61 ∷ name))
      ∷ (lit "URL" ++ (61 ∷ (lit "file://" ++ target)))
      ∷ (lit "Icon" ++ (61 ∷ lit "folder"))
      ∷ []

  lines_cons :
      (t rest : Text) (ls : List Text)
      → has_char 10 t ≡ false
      → lines_of rest ≡ ls
      → lines_of (line t rest) ≡ t ∷ ls
  lines_cons t rest ls h e = lines_of-line t rest h ∙ ap (◌∷◌ t) e

  shortcut_lines :
      (name target : Text)
      → has_char 10 name ≡ false
      → has_char 10 target ≡ false
      → lines_of (shortcut_text name target) ≡ lit "[Desktop Entry]" ∷ body_lines name target
  unfolding shortcut_text lit has_char lines_of
  shortcut_lines name target nn nt = lines_cons (lit "[Desktop Entry]") _ _ refl (
      lines_cons (lit "Type=Link") _ _ refl (
        lines_cons (lit "Name=" ++ name) _ _ nn (
          lines_cons (lit "URL=file://" ++ target) _ _ nt
            (lines_cons (lit "Icon=folder") [] [] refl refl))))

  -- The words of a shortcut are lines and parts of lines without blanks around them.
  pub record WordLaws : Type 0 where
    pub keeps_append :
        (a b : Text) → is_empty a ≡ false → is_empty b ≡ false → Keeps a → Keeps b → Keeps (a ++ b)
    pub keeps_type :
        Keeps (lit "Type") × Keeps (lit "Link") × Keeps (lit "Type" ++ (61 ∷ lit "Link"))
    pub keeps_name : Keeps (lit "Name") × Keeps (lit "Name" ++ (61 ∷ []))
    pub keeps_url : Keeps (lit "URL") × Keeps (lit "URL" ++ (61 ∷ [])) × Keeps (lit "file://")
    pub keeps_icon :
        Keeps (lit "Icon") × Keeps (lit "folder") × Keeps (lit "Icon" ++ (61 ∷ lit "folder"))

  read_lines_body :
      (body : List Text)
      → All (λ l. starts_with l (91 ∷ []) ≡ false) body
      → read_lines texts.trimmed assign false (lit "[Desktop Entry]" ∷ body) no_keys
        ≡ read_body texts.trimmed assign body no_keys
  unfolding lit starts_with
  read_lines_body body h =
      ap (λ b. read_lines texts.trimmed assign false (lit "[Desktop Entry]" ∷ b) no_keys)
        (sym (append-nil body))
      ∙ read_lines-section texts.trimmed assign [] body [] (lit "[Desktop Entry]") no_keys tt refl
          refl h refl

  -- The words of the four lines are keys.
  words-IsKey : IsKey (lit "Type") × IsKey (lit "Name") × IsKey (lit "URL") × IsKey (lit "Icon")
  unfolding lit starts_with has_char
  words-IsKey = ((refl, refl, refl), (refl, refl, refl), (refl, refl, refl), (refl, refl, refl))

  -- A line of a word and a text that trimming leaves alone.
  line-Keeps :
      (laws : WordLaws) (a b : Text)
      → is_empty a ≡ false
      → is_empty b ≡ false
      → Keeps (a ++ (61 ∷ []))
      → Keeps b
      → Keeps (a ++ (61 ∷ b))
  line-Keeps laws a b ha hb ka kb =
      subst Keeps (append_assoc a (61 ∷ []) b)
        (laws.keeps_append (a ++ (61 ∷ [])) b (some_append a (61 ∷ []) ha) hb ka kb)

  abbrev pub shortcut_data : Text → Text → Keys
  shortcut_data name target = record {
    name = name;
    icon = lit "folder";
    exec = [];
    url = lit "file://" ++ target;
    path = [];
    type = lit "Link";
  }

  -- The four lines, one after the other.
  read_shortcut :
      (laws : WordLaws) (name target : Text)
      → Keeps name
      → Keeps (lit "Name" ++ (61 ∷ name))
      → Keeps (lit "file://" ++ target)
      → Keeps (lit "URL" ++ (61 ∷ (lit "file://" ++ target)))
      → read_body texts.trimmed assign (body_lines name target) no_keys ≡ shortcut_data name target
  unfolding read_body
  read_shortcut laws name target kn name_line ku url_line =
      let (type, name_key, url_key, icon) = words-IsKey in
      let (kt, kl, type_line) = laws.keeps_type in
      let (ki, kf, icon_line) = laws.keeps_icon in
      let k1 = assign (lit "Type") (lit "Link") no_keys in
      let k2 = assign (lit "Name") name k1 in
      let k3 = assign (lit "URL") (lit "file://" ++ target) k2 in
      rw
        (
          read_line-key (lit "Type") (lit "Link") no_keys type type_line kt kl,
          read_line-key (lit "Name") name k1 name_key name_line laws.keeps_name.0 kn,
          read_line-key (lit "URL") (lit "file://" ++ target) k2 url_key url_line laws.keeps_url.0
              ku,
          read_line-key (lit "Icon") (lit "folder") k3 icon icon_line ki kf,
        )
        (unfold assign no_keys text_eq lit in refl)

  -- A shortcut's file holds the name and the target that it was made for, if these have no blanks
  -- around them and no ends of lines in them.
  pub shortcut_keys :
      (laws : WordLaws) (name target : Text)
      → is_empty name ≡ false
      → is_empty target ≡ false
      → Keeps name
      → Keeps target
      → has_char 10 name ≡ false
      → has_char 10 target ≡ false
      → read_lines texts.trimmed assign false (lines_of (shortcut_text name target)) no_keys
        ≡ shortcut_data name target
  shortcut_keys laws name target hn ht kn kt nn nt =
      let some_url : is_empty (lit "file://" ++ target) ≡ false = unfold lit in refl in
      let ku : Keeps (lit "file://" ++ target) =
        unfold lit in laws.keeps_append (lit "file://") target refl ht laws.keeps_url.2 kt in
      let name_line = line-Keeps laws (lit "Name") name words-IsKey.1.0 hn laws.keeps_name.1 kn in
      let url_line =
        line-Keeps laws (lit "URL") (lit "file://" ++ target) words-IsKey.2.0 some_url
          laws.keeps_url.1 ku in
      let section =
        read_lines_body (body_lines name target)
          (unfold lit starts_with in (refl, (refl, (refl, (refl, tt))))) in
      rw (shortcut_lines name target nn nt, section)
        (read_shortcut laws name target kn name_line ku url_line)
