-- ===== src/Shell/Wallpapers.antt =====
-- desktop/shell/src/WallpaperModel.h and WallpaperModel.cpp: the wallpapers that can be chosen, and the
-- chosen one. A `QUrl` is its text.
use nira_os.Base.{
  ℕ, Bool, true, false, not, Option, none, some, List, [], ◌∷◌, ◌++◌, map, keep, Text, lit, text_eq,
  mem_text, is_empty, length, get_elem?, if◌then◌else◌,
}

pub record WallEntry : Type 0 where
  pub name : Text
  pub path : Text
  pub is_user : Bool

pub record WallpaperModel : Type 0 where
  pub entries : List WallEntry
  pub current : Text
  pub reloading : Bool

pub data Role : Type 0 where
  name_role path_role is_user_role other_role : Role

-- The name of a role for QML, if it has one.
unfoldable pub role_name : Role → Option Text
role_name name_role = some (lit "name")
role_name path_role = some (lit "path")
role_name is_user_role = some (lit "isUser")
role_name other_role = none

pub data Value : Type 0 where
  text url : Text → Value
  flag : Bool → Value
  invalid : Value

-- Signals of the model, and its calls of Qt's watcher, the disk and the settings.
pub data Effect : Type 0 where
  current_wallpaper_changed count_changed model_reset : Effect
  path_watched path_made : Text → Effect
  value_saved : Text → Effect

abbrev pub Done : Type 0
Done = WallpaperModel × List Effect

-- A readable file of a listing, as `QFileInfo` splits its name.
pub record FileInfo : Type 0 where
  pub complete_base_name : Text
  pub suffix : Text
  pub absolute_path : Text

unfoldable pub image_suffixes : List Text
image_suffixes = lit "jpg" ∷ lit "jpeg" ∷ lit "png" ∷ lit "webp" ∷ lit "bmp" ∷ []

abbrev pub system_dir : Text
system_dir = lit "/usr/share/niraos/wallpapers"

abbrev pub user_dir : Text → Text
user_dir home = home ++ lit "/.local/share/niraos/wallpapers"

unfoldable pub row_count : WallpaperModel → Bool → ℕ
row_count s parent_is_valid = if parent_is_valid then 0 else length s.entries

unfoldable pub entry_data : WallEntry → Role → Value
entry_data e name_role = text e.name
entry_data e path_role = url (lit "file://" ++ e.path)
entry_data e is_user_role = flag e.is_user
entry_data e other_role = invalid

unfoldable pub model_data : WallpaperModel → Option ℕ → Role → Value
model_data s none role = invalid
model_data s (some row) role = elim (get_elem? s.entries row) [
  | none ↦ invalid
  | some e ↦ entry_data e role
]

unfoldable pub set_current_wallpaper : WallpaperModel → Text → Done
set_current_wallpaper s u =
    if text_eq u s.current
    then (s, [])
    else (record s { current = u }, current_wallpaper_changed ∷ [])

unfoldable pub save_current : WallpaperModel → Done
save_current s = (s, value_saved s.current ∷ [])

-- What the settings hold, empty if nothing.
unfoldable pub load_current : WallpaperModel → (saved : Text) → Done
load_current s saved = if not (is_empty saved) then set_current_wallpaper s saved else (s, [])

-- One step after another.
infixl 5 ◌>>◌
abbrev pub ◌>>◌ : Done → (WallpaperModel → Done) → Done
(s, xs) >> f = let (t, ys) = f s in (t, xs ++ ys)

-- `list` gives the readable files of a folder, if it exists.
module _ (to_lower : Text → Text) (home : Text) where
  unfoldable pub add_dir : (list : Text → Option (List FileInfo)) → Text → Bool → List WallEntry
  add_dir list dir is_user = elim (list dir) [
    | none ↦ []
    | some files ↦
        map
          (λ (fi : FileInfo). record {
            name = fi.complete_base_name;
            path = fi.absolute_path;
            is_user = is_user;
          })
          (keep (λ (fi : FileInfo). mem_text (to_lower fi.suffix) image_suffixes) files)
  ]

  unfoldable pub scan_all : (list : Text → Option (List FileInfo)) → WallpaperModel → Done
  scan_all list s = (
    record s {
      entries = add_dir list system_dir false ++ add_dir list (user_dir home) true;
      reloading = false;
    },
    model_reset ∷ count_changed ∷ [],
  )

  unfoldable pub on_directory_changed :
      (list : Text → Option (List FileInfo)) → WallpaperModel → Done
  on_directory_changed list s = if s.reloading then (s, []) else scan_all list s

  abbrev pub watch_or_make : (list : Text → Option (List FileInfo)) → Text → Effect
  watch_or_make list dir = elim (list dir) [ none ↦ path_made dir | some files ↦ path_watched dir ]

  -- The constructor: `later` are the listings after the folders were made.
  unfoldable pub init : (list later : Text → Option (List FileInfo)) → (saved : Text) → Done
  init list later saved =
      let s : WallpaperModel = record { entries = []; current = []; reloading = false } in
      (s, watch_or_make list system_dir ∷ watch_or_make list (user_dir home) ∷ [])
      >> scan_all later
      >> (λ t. load_current t saved)
      >> λ t.
          if is_empty t.current
          then set_current_wallpaper t (lit "file:///usr/share/niraos/wallpaper-default.jpg")
          else (t, [])
