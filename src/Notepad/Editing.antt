-- ===== src/Notepad/Editing.antt =====
-- What is left of a comment when a line is edited, and when the language is changed, in
-- apps/notepad/src/main.cpp.
use nira_os.Base.{
  ℕ, suc, ◌+◌, ◌-◌, ◌≡◌, refl, ap, inl, inr, false, Bool-cases, Option, none, some, List, [], ◌∷◌,
  ◌++◌, Text, lit, length, is_empty, arith,
}
use nira_os.Notepad.Languages.{
  Rule, Highlighter, language, with_language, set_language, cpp_language,
}
use nira_os.Notepad.Highlight.{
  BlockState, inside, is_inside, Format, comment_format, index_of, state_after, comment_at,
  block_loop, line_comment, block_comments, rule_formats, comments, highlight_block,
}
use nira_os.Notepad.Blocks.{index_from-start, index_from-end}

-- A line without a comment sets no state: the block keeps the one that it had.
no_comment_sets_nothing :
    (h : Highlighter) (previous : BlockState) (s : Text) (matches : Rule → Text → List (ℕ × ℕ))
    → line_comment h previous s h.line_comments ≡ none
    → is_inside previous ≡ false
    → index_of h.block_start s ≡ none
    → highlight_block h previous s matches ≡ some (rule_formats h previous s matches h.rules, none)
unfolding highlight_block comments block_comments block_loop
no_comment_sets_nothing h previous s matches no_line not_inside no_block =
    elim (Bool-cases (is_empty h.block_start)) [
      | inl no_blocks ↦ rw (no_line, no_blocks) refl
      | inr blocks ↦ rw (no_line, blocks, not_inside, no_block) refl
    ]

comment_at-open :
    (h : Highlighter) (s : Text)
    → index_of h.block_end s ≡ none
    → comment_at h inside s 0 ≡ (length s, inside)
unfolding comment_at is_inside
comment_at-open h s no_end =
    rw (index_from-start h.block_end s no_end) (ap (λ n. (n, inside)) (omega arith))

-- A line inside of a comment that does not end is all comment.
all_inside :
    (h : Highlighter) (s : Text) (formats : List Format)
    → index_of h.block_end s ≡ none
    → block_loop h inside s (suc (length s)) (some 0) (formats, none)
      ≡ some (formats ++ (comment_format 0 (length s) ∷ []), some inside)
unfolding block_loop
all_inside h s formats no_end =
    rw
      (
        block_loop,
        comment_at-open h s no_end,
        index_from-end h.block_start s (0 + length s) (omega arith),
      )
      refl

-- When an edit leaves no comment marker on a line that was inside of a comment, after a line that is
-- not, the state of the line stays "inside"; a line after it that has no marker is then all comment.
pub edited_line_stays_inside :
    (h : Highlighter) (previous : BlockState) (s next : Text) (matches : Rule → Text → List (ℕ × ℕ))
    → is_empty h.block_start ≡ false
    → is_inside previous ≡ false
    → line_comment h previous s h.line_comments ≡ none
    → index_of h.block_start s ≡ none
    → line_comment h inside next h.line_comments ≡ none
    → index_of h.block_end next ≡ none
    → (formats : List Format) × (state : Option BlockState) × (highlight_block h previous s matches
        ≡ some (formats, state))
      × (highlight_block h (state_after inside state) next matches
          ≡ some (
            rule_formats h inside next matches h.rules ++ (comment_format 0 (length next) ∷ []),
            some inside,
          ))
unfolding highlight_block comments block_comments is_inside
edited_line_stays_inside h previous s next matches blocks not_inside no_line no_start no_line_next
      no_end =
    let first = no_comment_sets_nothing h previous s matches no_line not_inside no_start in
    (
      rule_formats h previous s matches h.rules,
      none,
      first,
      rw (no_line_next, blocks) (all_inside h next _ no_end),
    )

-- A language that the highlighter does not know leaves it without rules, but with the comment marks
-- of the language before: after C++, a text with "//" still gets a comment's format.
pub unknown_language_still_comments :
    (to_lower : Text → Text) (h : Highlighter) (lang s : Text) (i : ℕ) (previous : BlockState)
    (matches : Rule → Text → List (ℕ × ℕ))
    → to_lower (lit "cpp") ≡ lit "cpp"
    → language (to_lower lang) ≡ none
    → index_of (lit "//") s ≡ some i
    → highlight_block
        (set_language to_lower (set_language to_lower h (lit "cpp")) lang)
        previous
        s
        matches
      ≡ some (comment_format i (length s - i) ∷ [], none)
unfolding highlight_block comments set_language with_language line_comment rule_formats
unknown_language_still_comments to_lower h lang s i previous matches cpp unknown at =
    let (l, known, slashes) = cpp_language in rw (cpp, known, unknown, slashes, at) refl
