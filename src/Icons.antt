-- ===== src/Icons.antt =====
-- ThemeIconProvider of desktop/shell/src/main.cpp, desktop/settings/src/main.cpp,
-- apps/files/src/main.cpp and apps/notepad/src/main.cpp: the icon for a name, from the program's own
-- bundle or else from the theme. Thumbnails is ThumbnailProvider.
use nira_os.Base.{
  ℕ, Bool, true, false, Option, none, some, List, [], ◌∷◌, ◌++◌, Text, lit, if◌then◌else◌,
}
pub mod Thumbnails

-- A size that is asked for; one that is not valid is nothing.
abbrev pub Size : Type 0
Size = ℕ × ℕ

-- Where an image comes from, and its size: a file of the bundle, scaled; a theme's icon; the picture
-- in a file, scaled; or no image.
pub data Image : Type 0 where
  bundled theme_icon picture : Text → Size → Image
  null : Image

-- The bundle: whether a file is in it, and the size of the picture in it if that can be read.
pub record Bundle : Type 0 where
  pub exists : Text → Bool
  pub picture_size : Text → Option Size

abbrev pub target_size : Option Size → Size → Size
target_size none otherwise = otherwise
target_size (some size) otherwise = size

-- The image, and the size that is reported: for a file of the bundle the one before scaling.
unfoldable pub from_bundle : Bundle → List Text → Size → Option (Image × Size)
from_bundle bundle [] target = none
from_bundle bundle (path ∷ paths) target =
    let rest = from_bundle bundle paths target in
    if bundle.exists path
    then elim (bundle.picture_size path) [
      | none ↦ rest
      | some size ↦ some (bundled path target, size)
    ]
    else rest

-- `icon_size` is the size of a theme's icon that is asked for in a size.
unfoldable pub request_image :
    Bundle → (icon_size : Text → Size → Size) → List Text → Text → Option Size → Image × Size
request_image bundle icon_size paths id requested =
    let target = target_size requested (48, 48) in
    elim (from_bundle bundle paths target) [
      | some found ↦ found
      | none ↦ (theme_icon id target, icon_size id target)
    ]

-- The files that each program looks for.
unfoldable pub shell_paths : Text → List Text
shell_paths id =
    (lit ":/nira/icons/" ++ (id ++ lit ".svg"))
    ∷ (lit ":/nira/icons/" ++ (id ++ lit "-48.png"))
    ∷ []

unfoldable pub settings_paths : Text → List Text
settings_paths id =
    (lit ":/nira/icons/" ++ (id ++ lit ".svg"))
    ∷ (lit ":/nira/icons/" ++ (id ++ lit "-48.png"))
    ∷ []

unfoldable pub files_paths : Text → List Text
files_paths id =
    (lit ":/nira/icons/" ++ (id ++ lit ".svg"))
    ∷ (lit ":/nira/icons/" ++ (id ++ lit "-48.png"))
    ∷ (lit ":/nira/filemanager/" ++ (id ++ lit ".svg"))
    ∷ []

unfoldable pub notepad_paths : Text → List Text
notepad_paths id =
    (lit ":/nira/notepad/" ++ (id ++ lit ".svg"))
    ∷ (lit ":/nira/notepad/" ++ (id ++ lit "-48.png"))
    ∷ []

-- The provider of each program.
unfoldable pub shell_icon :
    Bundle → (icon_size : Text → Size → Size) → Text → Option Size → Image × Size
shell_icon bundle icon_size id = request_image bundle icon_size (shell_paths id) id

unfoldable pub settings_icon :
    Bundle → (icon_size : Text → Size → Size) → Text → Option Size → Image × Size
settings_icon bundle icon_size id = request_image bundle icon_size (settings_paths id) id

unfoldable pub files_icon :
    Bundle → (icon_size : Text → Size → Size) → Text → Option Size → Image × Size
files_icon bundle icon_size id = request_image bundle icon_size (files_paths id) id

unfoldable pub notepad_icon :
    Bundle → (icon_size : Text → Size → Size) → Text → Option Size → Image × Size
notepad_icon bundle icon_size id = request_image bundle icon_size (notepad_paths id) id
