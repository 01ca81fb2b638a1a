-- ===== src/Notepad/Highlight.antt =====
-- apps/notepad/src/main.cpp, `SyntaxHighlighter::highlightBlock`: the formats of one line of text.
use nira_os.Base.{
  ℕ, zero, suc, ◌+◌, ◌-◌, ◌==◌, Bool, true, false, not, ◌&&◌, Option, none, some, List, [], ◌∷◌,
  ◌++◌, Text, length, drop, is_empty, starts_with, if◌then◌else◌,
}
use nira_os.Notepad.Languages.{Rule, Highlighter}

-- The state of a block: Qt's -1, 0 for outside of a comment, 1 for inside.
pub data BlockState : Type 0 where
  unset outside inside : BlockState

unfoldable pub is_inside : BlockState → Bool
is_inside unset = false
is_inside outside = false
is_inside inside = true

-- `setFormat(start, length, format)`, for a rule or for a comment.
pub data Format : Type 0 where
  rule_format : Rule → ℕ → ℕ → Format
  comment_format : ℕ → ℕ → Format

-- `indexOf(needle)` and `indexOf(needle, from)`, for a needle that is not empty.
unfoldable pub index_of : Text → Text → Option ℕ
index_of needle [] = none
index_of needle (c ∷ s) =
    let rest = index_of needle s in
    if starts_with (c ∷ s) needle then some 0 else elim rest [ none ↦ none | some i ↦ some (suc i) ]

abbrev pub shift : ℕ → Option ℕ → Option ℕ
shift from none = none
shift from (some i) = some (from + i)

abbrev pub first : Option ℕ → Option ℕ → Option ℕ
first none other = other
first (some i) other = some i

unfoldable pub index_from : Text → ℕ → Text → Option ℕ
index_from needle from s = shift from (index_of needle (drop from s))

-- The formats, and the state that is set, if one is: else the block keeps the state that it had.
abbrev pub Highlighted : Type 0
Highlighted = List Format × Option BlockState

abbrev pub state_after : BlockState → Option BlockState → BlockState
state_after old none = old
state_after old (some new) = new

module _ (h : Highlighter) (previous : BlockState) (s : Text) where
  -- A comment from `start` to an end that was found, or to the end of the text: its length, and the
  -- state that is set.
  abbrev pub comment_until : ℕ → Option ℕ → ℕ × BlockState
  comment_until start none = (length s - start, inside)
  comment_until start (some end) = ((end + length h.block_end) - start, outside)

  unfoldable pub comment_at : ℕ → ℕ × BlockState
  comment_at start =
      let from = if is_inside previous && (start == 0) then 0 else start + length h.block_start in
      comment_until start (index_from h.block_end from s)

  -- The loop `while (start >= 0)`, with the formats and the state so far. `none`: the fuel ran out.
  unfoldable pub block_loop : ℕ → Option ℕ → Highlighted → Option Highlighted
  block_loop fuel none done = some done
  block_loop zero (some start) done = none
  block_loop (suc fuel) (some start) (formats, state) =
      let (len, now) = comment_at start in
      block_loop fuel (index_from h.block_start (start + len) s)
        (formats ++ (comment_format start len ∷ []), some now)

  -- The first line comment of the kinds that there are, in their order.
  unfoldable pub line_comment : List Text → Option ℕ
  line_comment [] = none
  line_comment (kind ∷ kinds) = first (index_of kind s) (line_comment kinds)

  unfoldable pub block_comments : List Format → Option Highlighted
  block_comments formats =
      let start = if is_inside previous then some 0 else index_of h.block_start s in
      if not (is_empty h.block_start)
      then block_loop (suc (length s)) start (formats, none)
      else some (formats, none)

  -- `matches` are the places where a rule's pattern matches, with their lengths.
  unfoldable pub rule_formats : (Rule → Text → List (ℕ × ℕ)) → List Rule → List Format
  rule_formats matches [] = []
  rule_formats matches (rule ∷ rules) = formats_at (matches rule s) ++ rule_formats matches rules
    where
      formats_at : List (ℕ × ℕ) → List Format
      formats_at [] = []
      formats_at ((start, len) ∷ places) = rule_format rule start len ∷ formats_at places

  -- With the place of a line comment, if there is one.
  unfoldable pub comments : List Format → Option ℕ → Option Highlighted
  comments formats none = block_comments formats
  comments formats (some i) = some (formats ++ (comment_format i (length s - i) ∷ []), none)

  unfoldable pub highlight_block : (Rule → Text → List (ℕ × ℕ)) → Option Highlighted
  highlight_block matches = comments (rule_formats matches h.rules) (line_comment h.line_comments)
