-- ===== src/Apps/Tests.antt =====
-- Runs of the launcher's parser, and one instance of each theorem.
use nira_os.Base.{
  Bool, any, ◌≡◌, refl, pos, true, false, ◌||◌, some, List, [], ◌∷◌, ◌++◌, Text, lit, text_eq,
  mem_text, starts_with, has_char, count_if, if◌then◌else◌, int_eq,
}
use nira_os.Apps.DesktopFile.{read_lines, read_line, split_at_first}
use nira_os.Apps.FieldCodes.{
  strip_field_codes, strip_from, emit, next_mode, is_field_code, has_field_code,
  strip-has_no_field_code,
}
use nira_os.Apps.AppModel.{
  Qt, AppEntry, assign, no_keys, init, parse_lines, is_shown, can_try, app_entry,
  strip_exec_field_codes,
}
use nira_os.Apps.Sections.{read_body, read_lines-section}
use nira_os.Apps.Scanning.{no_repeats, has_file, user_dir, parsed, init_parses_once}

-- "/a/x.desktop" is found in both directories that are searched.
abbrev editor_lines : List Text
editor_lines =
    lit "Name=Before"
    ∷ lit "[Desktop Entry]"
    ∷ lit "Type=Application"
    ∷ lit "#Name=No"
    ∷ lit "Exec=ed %u"
    ∷ lit "[Desktop Action new]"
    ∷ lit "Exec=ed -n"
    ∷ []

abbrev desk : Qt
desk = record {
  application_dirs = lit "/a" ∷ lit "/b" ∷ [];
  home = [];
  dir_exists = λ d. true;
  desktop_files =
      λ d. if text_eq d (lit "/a") || text_eq d (lit "/b") then lit "/a/x.desktop" ∷ [] else [];
  read_file = λ p. some editor_lines;
  find_executable = λ p. p;
  complete_base_name = λ p. lit "x";
  trimmed = λ t. t;
  split_list = λ t. [];
  split_command = λ t. t ∷ [];
  compare_ignoring_case = λ s t. if text_eq s t then pos 0 else pos 1;
}

parsed_editor :
    parse_lines desk (lit "/a/x.desktop") editor_lines
    ≡ record {
      app_id = lit "x";
      name = lit "x";
      generic_name = [];
      icon_name = [];
      exec = lit "ed ";
      categories = [];
    }
      ∷ []
unfolding parse_lines read_lines read_line split_at_first assign no_keys is_shown can_try app_entry
    strip_exec_field_codes strip_field_codes strip_from emit next_mode is_field_code has_char
    starts_with text_eq mem_text lit int_eq
parsed_editor = refl

stripped_command : strip_field_codes (lit "a %U b%%c %k%") ≡ lit "a bc %"
unfolding strip_field_codes strip_from emit next_mode is_field_code has_char lit
stripped_command = refl

strip-has_no_field_code_example : has_field_code (strip_field_codes (lit "%%%u u %%U")) ≡ false
strip-has_no_field_code_example = strip-has_no_field_code (lit "%%%u u %%U")

read_lines-section_example :
    read_lines
      (λ t. t)
      assign
      false
      ((lit "[Other]" ∷ [])
        ++ (lit "[Desktop Entry]" ∷ ((lit "Name=x" ∷ []) ++ (lit "[Next]" ∷ []))))
      no_keys
    ≡ read_body (λ t. t) assign (lit "Name=x" ∷ []) no_keys
unfolding starts_with lit
read_lines-section_example =
    read_lines-section (λ t. t) assign (lit "[Other]" ∷ []) (lit "Name=x" ∷ []) (lit "[Next]" ∷ [])
      (lit "[Desktop Entry]") no_keys (refl, tt) refl refl (refl, tt) refl

init_parses_once_example :
    (paths : List Text) × (no_repeats paths ≡ true)
    × ((path : Text)
        → mem_text path paths
          ≡ any (has_file desk path) (desk.application_dirs ++ (user_dir desk ∷ [])))
    × ((p : AppEntry → Bool) → count_if p (init desk) ≡ count_if p (parsed desk paths))
init_parses_once_example = init_parses_once desk

abbrev editor : AppEntry
editor = record {
  app_id = lit "x";
  name = lit "editor";
  generic_name = [];
  icon_name = [];
  exec = lit "ed";
  categories = [];
}
