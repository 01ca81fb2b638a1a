-- ===== src/Notepad/Languages.antt =====
-- apps/notepad/src/main.cpp, `SyntaxHighlighter::setLanguage`: the rules of a language.
use nira_os.Base.{
  ◌≡◌, refl, ◌||◌, Bool, not, Option, none, some, List, [], ◌∷◌, ◌++◌, map, Text, lit, text_eq,
  if◌then◌else◌,
}
use nira_os.Notepad.Keywords.{
  cpp_keywords, rust_keywords, python_keywords, qml_keywords, json_keywords, sh_keywords,
}

-- A rule is the keyword that it looks for, or the pattern for quoted texts or for numbers.
pub data Rule : Type 0 where
  keyword : Text → Rule
  double_quoted single_quoted number : Rule

pub record Highlighter : Type 0 where
  pub rules : List Rule
  pub line_comments : List Text
  pub block_start : Text
  pub block_end : Text

-- What `setLanguage` chooses for a language that it knows.
pub record Language : Type 0 where
  pub keywords : List Text
  pub comments : List Text
  pub opening : Text
  pub closing : Text

abbrev with_slashes : List Text → Language
with_slashes words = record {
  keywords = words;
  comments = lit "//" ∷ [];
  opening = lit "/*";
  closing = lit "*/";
}

unfoldable pub language : Text → Option Language
language lang =
    let is = λ (t : Text). text_eq lang t in
    if is (lit "cpp")
      || is (lit "c")
      || is (lit "h")
      || is (lit "cxx")
      || is (lit "hpp")
      || is (lit "cc")
    then some (with_slashes cpp_keywords)
    else if is (lit "rust") || is (lit "rs")
    then some (with_slashes rust_keywords)
    else if is (lit "python") || is (lit "py")
    then some (record {
      keywords = python_keywords;
      comments = lit "#" ∷ [];
      opening = lit "\"\"\"";
      closing = lit "\"\"\"";
    })
    else if is (lit "qml") || is (lit "js") || is (lit "javascript")
    then some (with_slashes qml_keywords)
    else if is (lit "json")
    then some (record { keywords = json_keywords; comments = []; opening = []; closing = [] })
    else if is (lit "sh") || is (lit "bash") || is (lit "shell")
    then some
        (record { keywords = sh_keywords; comments = lit "#" ∷ []; opening = []; closing = [] })
    else none

-- For an unknown language, `return` comes after `rules_.clear()`.
unfoldable pub with_language : Highlighter → Option Language → Highlighter
with_language h none = record h { rules = [] }
with_language h (some l) = record {
  rules = map keyword l.keywords ++ (double_quoted ∷ single_quoted ∷ number ∷ []);
  line_comments = l.comments;
  block_start = l.opening;
  block_end = l.closing;
}

unfoldable pub set_language : (to_lower : Text → Text) → Highlighter → Text → Highlighter
set_language to_lower h lang = with_language h (language (to_lower lang))

-- What `attach`, `detach` and `reconfigure` do beside the language: Qt's calls.
pub data Call : Type 0 where
  document_set document_unset rehighlighted : Call

-- `attach` of a document, if there is one.
unfoldable pub attach :
    (to_lower : Text → Text) → Highlighter → (has_document : Bool) → Text → Highlighter × List Call
attach to_lower h has_document lang =
    if not has_document then (h, []) else (set_language to_lower h lang, document_set ∷ [])

unfoldable pub detach : Highlighter → Highlighter × List Call
detach h = (h, document_unset ∷ [])

unfoldable pub reconfigure : (to_lower : Text → Text) → Highlighter → Text → Highlighter × List Call
reconfigure to_lower h lang = (set_language to_lower h lang, rehighlighted ∷ [])

unfoldable pub create_highlighter :
    (to_lower : Text → Text) → (has_document : Bool) → Text → Highlighter × List Call
create_highlighter to_lower has_document lang =
    attach to_lower (record { rules = []; line_comments = []; block_start = []; block_end = [] })
      has_document lang

-- A highlighter that has been set to languages in turn, from the first state.
unfoldable pub configured : (to_lower : Text → Text) → List Text → Highlighter
configured to_lower [] = record { rules = []; line_comments = []; block_start = []; block_end = [] }
configured to_lower (lang ∷ before) = set_language to_lower (configured to_lower before) lang

pub cpp_language : (l : Language) × (language (lit "cpp") ≡ some l) × (l.comments ≡ lit "//" ∷ [])
unfolding language lit text_eq
cpp_language = (with_slashes cpp_keywords, refl, refl)
