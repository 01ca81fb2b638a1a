-- ===== src/Startup.antt =====
-- What the `main` functions decide: desktop/compositor/src/main.cpp, desktop/greeter/src/main.cpp and
-- apps/notepad/src/main.cpp; and the sizes of desktop/common/DesktopMetrics.h.
use nira_os.Base.{
  ℕ, ◌+◌, ◌*◌, ℤ, pos, lt_int, not, ◌||◌, Option, none, some, List, [], ◌∷◌, Text, lit, text_eq,
  starts_with, is_empty, if◌then◌else◌,
}

-- The physical size of the primary screen, if there is one, in millimetres; a part of one counts as
-- above zero.
unfoldable pub detect_output_scale_factor : Option (ℤ × ℤ) → ℕ
detect_output_scale_factor none = 0
detect_output_scale_factor (some (width, height)) =
    if not (lt_int (pos 0) width) || not (lt_int (pos 0) height) then 1 else 0

-- The environment as the values of the names: an unset name is an empty text here, as for the test.
abbrev pub Environment : Type 0
Environment = Text → Text

unfoldable pub put_default : Environment → Text → Text → Environment
put_default env name value k =
    if is_empty (env name) then (if text_eq k name then value else env k) else env k

unfoldable pub compositor_environment : Environment → Environment
compositor_environment env =
    put_default (put_default env (lit "LIBGL_ALWAYS_SOFTWARE") (lit "1")) (lit "GALLIUM_DRIVER")
      (lit "llvmpipe")

unfoldable pub greeter_environment : Environment → Environment
greeter_environment env =
    let a = put_default env (lit "QT_QPA_PLATFORM") (lit "eglfs") in
    let b = put_default a (lit "QT_QPA_EGLFS_INTEGRATION") (lit "eglfs_kms") in
    let c = put_default b (lit "QSG_INFO") (lit "1") in
    let d = put_default c (lit "LANG") (lit "C.UTF-8") in
    put_default (put_default d (lit "LIBGL_ALWAYS_SOFTWARE") (lit "1")) (lit "GALLIUM_DRIVER")
      (lit "llvmpipe")

-- The file that the editor opens at its start: the first argument that is no option. The name of the
-- program is not among the arguments here.
unfoldable pub initial_file : (absolute_file_path : Text → Text) → List Text → Text
initial_file absolute_file_path [] = []
initial_file absolute_file_path (argument ∷ arguments) =
    if not (starts_with argument (lit "-"))
    then absolute_file_path argument
    else initial_file absolute_file_path arguments

abbrev pub medium_padding : ℕ
medium_padding = 16

abbrev pub panel_content_height : ℕ
panel_content_height = 48

unfoldable pub panel_reserved_height : ℕ
panel_reserved_height = panel_content_height + 2 * medium_padding
