-- ===== src/Apps/DesktopFile.antt =====
-- The loop over the lines of a `.desktop` file that AppModel.cpp and DesktopIconModel.cpp in
-- desktop/shell/src share, word for word, but for the keys that they take.
use nira_os.Base.{
  ℕ, ◌==◌, Bool, not, ◌&&◌, ◌||◌, Option, none, some, List, [], ◌∷◌, Text, lit, starts_with,
  if◌then◌else◌,
}

-- `indexOf(c)`, `left(i)` and `mid(i + 1)`: what stands before and after the first `c`.
unfoldable pub split_at_first : ℕ → Text → Option (Text × Text)
split_at_first c [] = none
split_at_first c (a ∷ s) =
    let rest = split_at_first c s in
    if a == c
    then some ([], s)
    else elim rest [ none ↦ none | some (before, after) ↦ some (a ∷ before, after) ]

module _ {S : Type 0} (trimmed : Text → Text) (assign : Text → Text → S → S) where
  -- A line of the section itself. 35 is '#' and 61 is '='.
  unfoldable pub read_line : Text → S → S
  read_line line s =
      if starts_with (trimmed line) (35 ∷ []) then s else elim (split_at_first 61 line) [
        | none ↦ s
        | some (key, val) ↦ assign (trimmed key) (trimmed val) s
      ]

  -- The loop: `inside` is `inDesktopEntry`. 91 is '['.
  unfoldable pub read_lines : Bool → List Text → S → S
  read_lines inside [] s = s
  read_lines inside (line ∷ lines) s =
      let header = starts_with line (91 ∷ []) in
      let next_inside = if header then starts_with line (lit "[Desktop Entry]") else inside in
      let next = if header || not inside then s else read_line line s in
      let rest = read_lines next_inside lines next in if header && inside then s else rest
