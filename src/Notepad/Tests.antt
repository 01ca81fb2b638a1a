-- ===== src/Notepad/Tests.antt =====
-- Runs of the editor's helper, and one instance of each theorem.
use nira_os.Base.{
  ◌≡◌, ◌≢◌, refl, ap, sym, Bool, true, false, Option, none, some, List, [], ◌∷◌, ◌++◌, Text, lit,
  text_eq, text_eq_iff, text_eq_refl, starts_with, has_char, length, if◌then◌else◌, arith,
  Bool-cases, inl, inr,
}
use nira_os.Notepad.Documents.{
  Disk, written, not_readable, loaded, temporary, read_file, write_file, after_store, finish_write,
}
use nira_os.Notepad.Languages.{Highlighter, configured}
use nira_os.Notepad.Highlight.{
  BlockState, outside, inside, is_inside, Format, comment_format, highlight_block, comments,
  block_comments, block_loop, comment_at, line_comment, rule_formats, index_of, index_from,
  Highlighted, state_after,
}
use nira_os.Notepad.Blocks.{highlight_block_ends}
use nira_os.Notepad.Editing.{edited_line_stays_inside}
use nira_os.Notepad.Saving.{StoreLaws, ReadsBack, write_file-read_file, failed_rename_loses_both}

-- A disk as a function, on which renames work or do not.
abbrev put : (Text → Option Text) → Text → Option Text → Text → Option Text
put s p c q = if text_eq p q then c else s q

abbrev map_disk : Bool → Disk
map_disk renames = record {
  State = Text → Option Text;
  exists = λ s p. elim (s p) [ none ↦ false | some c ↦ true ];
  is_file = λ s p. true;
  size = λ s p. 0;
  load = λ s p. elim (s p) [ none ↦ not_readable | some c ↦ loaded c ];
  store = λ s p c. (written, put s p (some c));
  remove = λ s p. (true, put s p none);
  rename = λ s p q. if renames then (true, put (put s p none) q (s p)) else (false, s);
  absolute_file_path = λ p. p;
  mime_name = λ s p. [];
  error_string = λ s p. [];
  arg = λ t a. a;
  arg2 = λ t a b. a;
  arg_number = λ t n. t;
}

abbrev look : (Text → Option Text) → Text → Option Text
look s p = s p

put_same : (s : Text → Option Text) (p : Text) (c : Option Text) → put s p c p ≡ c
put_same s p c = rw (text_eq_refl p) refl

put_other : (s : Text → Option Text) (p q : Text) (c : Option Text) → q ≢ p → put s p c q ≡ s q
put_other s p q c apart = elim (Bool-cases (text_eq p q)) [
  | inl same ↦ absurd (apart (sym ((text_eq_iff p q).0 same)))
  | inr other ↦ rw other refl
]

map_disk-laws : (renames : Bool) → StoreLaws (map_disk renames) look
map_disk-laws renames = record {
  stored = λ s p c h. put_same s p (some c);
  store_other = λ s p c q apart. put_other s p q (some c) apart;
  removed = λ s p h. put_same s p none;
  remove_other = λ s p q apart. put_other s p q none apart;
  not_removed = λ s p q h. cc;
  renamed = λ s p q h. elim (Bool-cases renames) [
    | inl works ↦ rw works (put_same (put s p none) q (s p))
    | inr fails ↦ absurd (ground (arith, h, fails))
  ];
  not_renamed = λ s p q r h. elim (Bool-cases renames) [
    | inl works ↦ absurd (ground (arith, h, works))
    | inr fails ↦ rw fails refl
  ];
  exists_contents = λ s p h. ground (arith, h);
}

map_disk-ReadsBack : (s : Text → Option Text) (p : Text) → ReadsBack (map_disk true) look s p
map_disk-ReadsBack s p c there plain = rw there (refl, refl)

abbrev old_document : Text → Option Text
old_document p = if text_eq p (97 ∷ []) then some (1 ∷ []) else none

temporary_apart : temporary (map_disk true) (97 ∷ []) ≢ 97 ∷ []
unfolding lit
temporary_apart e = let lengths : 10 ≡ 1 = ap length e in absurd (omega (arith, lengths))

write_file-read_file_example :
    let t = (write_file (map_disk true) old_document (97 ∷ []) (2 ∷ [])).2 in
    (look t (97 ∷ []) ≡ some (2 ∷ []))
    × ((read_file (map_disk true) t (97 ∷ [])).success ≡ true)
    × ((read_file (map_disk true) t (97 ∷ [])).content ≡ some (2 ∷ []))
write_file-read_file_example =
    write_file-read_file (map_disk true) look (map_disk-laws true) old_document (97 ∷ []) (2 ∷ [])
      temporary_apart (unfold has_char in refl)
      (unfold write_file after_store finish_write text_eq lit in refl)
      (unfold write_file after_store finish_write text_eq lit in refl)
      (λ c there plain.
        map_disk-ReadsBack (write_file (map_disk true) old_document (97 ∷ []) (2 ∷ [])).2 (97 ∷ [])
          c there plain)

failed_rename_loses_both_example :
    let (ok, errors, t) = write_file (map_disk false) old_document (97 ∷ []) (2 ∷ []) in
    (ok ≡ false)
    × (look t (97 ∷ []) ≡ none)
    × (look t (temporary (map_disk false) (97 ∷ [])) ≡ none)
failed_rename_loses_both_example =
    failed_rename_loses_both (map_disk false) look (map_disk-laws false) old_document (97 ∷ [])
      (2 ∷ []) temporary_apart refl refl (unfold text_eq lit in refl) refl refl refl

highlight_block_ends_example :
    (result : Highlighted) × (highlight_block
        (configured (λ t. t) (lit "python" ∷ lit "cpp" ∷ []))
        inside
        (lit "a */ b /* c")
        (λ r t. [])
      ≡ some result)
highlight_block_ends_example =
    highlight_block_ends (λ t. t) (lit "python" ∷ lit "cpp" ∷ []) inside (lit "a */ b /* c")
      (λ r t. [])

abbrev c_blocks : Highlighter
c_blocks = record {
  rules = [];
  line_comments = lit "//" ∷ [];
  block_start = lit "/*";
  block_end = lit "*/";
}

two_comments :
    highlight_block c_blocks inside (lit "a */ b /* c") (λ r t. [])
    ≡ some (comment_format 0 4 ∷ comment_format 7 4 ∷ [], some inside)
unfolding highlight_block comments block_comments block_loop comment_at line_comment rule_formats
    index_of index_from is_inside starts_with lit
two_comments = refl

edited_line_stays_inside_example :
    (formats : List Format) × (state : Option BlockState) × (highlight_block c_blocks outside
        (lit "ab")
        (λ r t. [])
      ≡ some (formats, state))
    × (highlight_block c_blocks (state_after inside state) (lit "cd") (λ r t. [])
        ≡ some (
          rule_formats c_blocks inside (lit "cd") (λ r t. []) []
              ++ (comment_format 0 (length (lit "cd")) ∷ []),
          some inside,
        ))
unfolding line_comment index_of starts_with is_inside lit
edited_line_stays_inside_example =
    edited_line_stays_inside c_blocks outside (lit "ab") (lit "cd") (λ r t. []) refl refl refl refl
      refl refl
