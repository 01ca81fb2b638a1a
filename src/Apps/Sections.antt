-- ===== src/Apps/Sections.antt =====
-- Which lines of a `.desktop` file the loop of AppModel.cpp and DesktopIconModel.cpp reads.
use nira_os.Base.{
  ◌≡◌, refl, Bool, true, false, List, [], ◌∷◌, ◌++◌, Text, lit, starts_with, All, arith,
}
use nira_os.Apps.DesktopFile.{read_line, read_lines}

-- The next line, if there is one, begins another section.
abbrev pub section_ends : List Text → Bool
section_ends [] = true
section_ends (line ∷ lines) = starts_with line (91 ∷ [])

module _ {S : Type 0} (trimmed : Text → Text) (assign : Text → Text → S → S) where
  unfoldable pub read_body : List Text → S → S
  read_body [] s = s
  read_body (line ∷ lines) s = read_body lines (read_line trimmed assign line s)

  read_lines-body :
      (body after : List Text) (s : S)
      → All (λ line. starts_with line (91 ∷ []) ≡ false) body
      → section_ends after ≡ true
      → read_lines trimmed assign true (body ++ after) s ≡ read_body body s
  unfolding read_lines read_body
  read_lines-body [] [] s h e = refl
  read_lines-body [] (line ∷ after) s h e = rw e refl
  read_lines-body (line ∷ body) after s h e =
      rw h.0 (read_lines-body body after (read_line trimmed assign line s) h.1 e)

  -- The lines that count are those from the first header "[Desktop Entry]" to the next header, or
  -- to the end: what stands in sections before and after it has no effect.
  pub read_lines-section :
      (before body after : List Text) (header : Text) (s : S)
      → All (λ line. starts_with line (lit "[Desktop Entry]") ≡ false) before
      → starts_with header (91 ∷ []) ≡ true
      → starts_with header (lit "[Desktop Entry]") ≡ true
      → All (λ line. starts_with line (91 ∷ []) ≡ false) body
      → section_ends after ≡ true
      → read_lines trimmed assign false (before ++ (header ∷ (body ++ after))) s ≡ read_body body s
  unfolding read_lines
  read_lines-section [] body after header s hb h1 h2 hbody e =
      rw (h1, h2) (read_lines-body body after s hbody e)
  read_lines-section (line ∷ before) body after header s hb h1 h2 hbody e =
      let rest = read_lines-section before body after header s hb.1 h1 h2 hbody e in
      ground (arith, hb.0, rest)
