-- ===== src/Notepad/Keywords.antt =====
-- apps/notepad/src/main.cpp, `SyntaxHighlighter::setLanguage`: the keywords of each language.
use nira_os.Base.{List, [], ◌∷◌, Text, lit}

abbrev pub cpp_keywords : List Text
cpp_keywords =
    lit "alignas"
    ∷ lit "alignof"
    ∷ lit "and"
    ∷ lit "auto"
    ∷ lit "bool"
    ∷ lit "break"
    ∷ lit "case"
    ∷ lit "catch"
    ∷ lit "char"
    ∷ lit "class"
    ∷ lit "const"
    ∷ lit "constexpr"
    ∷ lit "continue"
    ∷ lit "decltype"
    ∷ lit "default"
    ∷ lit "delete"
    ∷ lit "do"
    ∷ lit "double"
    ∷ lit "else"
    ∷ lit "enum"
    ∷ lit "explicit"
    ∷ lit "export"
    ∷ lit "extern"
    ∷ lit "false"
    ∷ lit "float"
    ∷ lit "for"
    ∷ lit "friend"
    ∷ lit "goto"
    ∷ lit "if"
    ∷ lit "inline"
    ∷ lit "int"
    ∷ lit "long"
    ∷ lit "mutable"
    ∷ lit "namespace"
    ∷ lit "new"
    ∷ lit "noexcept"
    ∷ lit "nullptr"
    ∷ lit "operator"
    ∷ lit "or"
    ∷ lit "private"
    ∷ lit "protected"
    ∷ lit "public"
    ∷ lit "register"
    ∷ lit "reinterpret_cast"
    ∷ lit "return"
    ∷ lit "short"
    ∷ lit "signed"
    ∷ lit "sizeof"
    ∷ lit "static"
    ∷ lit "static_cast"
    ∷ lit "struct"
    ∷ lit "switch"
    ∷ lit "template"
    ∷ lit "this"
    ∷ lit "throw"
    ∷ lit "true"
    ∷ lit "try"
    ∷ lit "typedef"
    ∷ lit "typename"
    ∷ lit "union"
    ∷ lit "unsigned"
    ∷ lit "using"
    ∷ lit "virtual"
    ∷ lit "void"
    ∷ lit "volatile"
    ∷ lit "while"
    ∷ []

abbrev pub rust_keywords : List Text
rust_keywords =
    lit "as"
    ∷ lit "async"
    ∷ lit "await"
    ∷ lit "break"
    ∷ lit "const"
    ∷ lit "continue"
    ∷ lit "crate"
    ∷ lit "dyn"
    ∷ lit "else"
    ∷ lit "enum"
    ∷ lit "extern"
    ∷ lit "false"
    ∷ lit "fn"
    ∷ lit "for"
    ∷ lit "if"
    ∷ lit "impl"
    ∷ lit "in"
    ∷ lit "let"
    ∷ lit "loop"
    ∷ lit "match"
    ∷ lit "mod"
    ∷ lit "move"
    ∷ lit "mut"
    ∷ lit "pub"
    ∷ lit "ref"
    ∷ lit "return"
    ∷ lit "self"
    ∷ lit "Self"
    ∷ lit "static"
    ∷ lit "struct"
    ∷ lit "super"
    ∷ lit "trait"
    ∷ lit "true"
    ∷ lit "type"
    ∷ lit "unsafe"
    ∷ lit "use"
    ∷ lit "where"
    ∷ lit "while"
    ∷ []

abbrev pub python_keywords : List Text
python_keywords =
    lit "False"
    ∷ lit "None"
    ∷ lit "True"
    ∷ lit "and"
    ∷ lit "as"
    ∷ lit "assert"
    ∷ lit "async"
    ∷ lit "await"
    ∷ lit "break"
    ∷ lit "class"
    ∷ lit "continue"
    ∷ lit "def"
    ∷ lit "del"
    ∷ lit "elif"
    ∷ lit "else"
    ∷ lit "except"
    ∷ lit "finally"
    ∷ lit "for"
    ∷ lit "from"
    ∷ lit "global"
    ∷ lit "if"
    ∷ lit "import"
    ∷ lit "in"
    ∷ lit "is"
    ∷ lit "lambda"
    ∷ lit "nonlocal"
    ∷ lit "not"
    ∷ lit "or"
    ∷ lit "pass"
    ∷ lit "raise"
    ∷ lit "return"
    ∷ lit "try"
    ∷ lit "while"
    ∷ lit "with"
    ∷ lit "yield"
    ∷ []

abbrev pub qml_keywords : List Text
qml_keywords =
    lit "var"
    ∷ lit "let"
    ∷ lit "const"
    ∷ lit "function"
    ∷ lit "return"
    ∷ lit "if"
    ∷ lit "else"
    ∷ lit "for"
    ∷ lit "while"
    ∷ lit "do"
    ∷ lit "switch"
    ∷ lit "case"
    ∷ lit "break"
    ∷ lit "continue"
    ∷ lit "new"
    ∷ lit "delete"
    ∷ lit "typeof"
    ∷ lit "instanceof"
    ∷ lit "in"
    ∷ lit "of"
    ∷ lit "this"
    ∷ lit "true"
    ∷ lit "false"
    ∷ lit "null"
    ∷ lit "undefined"
    ∷ lit "try"
    ∷ lit "catch"
    ∷ lit "finally"
    ∷ lit "throw"
    ∷ lit "class"
    ∷ lit "extends"
    ∷ lit "super"
    ∷ lit "import"
    ∷ lit "export"
    ∷ lit "default"
    ∷ lit "async"
    ∷ lit "await"
    ∷ lit "yield"
    ∷ lit "property"
    ∷ lit "alias"
    ∷ lit "signal"
    ∷ lit "Component"
    ∷ lit "on"
    ∷ lit "readonly"
    ∷ lit "id"
    ∷ []

abbrev pub json_keywords : List Text
json_keywords = lit "true" ∷ lit "false" ∷ lit "null" ∷ []

abbrev pub sh_keywords : List Text
sh_keywords =
    lit "if"
    ∷ lit "then"
    ∷ lit "else"
    ∷ lit "elif"
    ∷ lit "fi"
    ∷ lit "for"
    ∷ lit "do"
    ∷ lit "done"
    ∷ lit "while"
    ∷ lit "case"
    ∷ lit "esac"
    ∷ lit "function"
    ∷ lit "return"
    ∷ lit "local"
    ∷ lit "export"
    ∷ lit "unset"
    ∷ lit "echo"
    ∷ lit "printf"
    ∷ lit "read"
    ∷ lit "set"
    ∷ lit "shift"
    ∷ lit "in"
    ∷ []
