-- ===== src/Shell/WallpaperSource.antt =====
-- desktop/compositor/src/WallpaperWatcher.h and WallpaperWatcher.cpp: the wallpaper that the compositor
-- shows, and the watches that tell it of a new one.
use nira_os.Base.{
  false, ◌≡◌, refl, ◌⊎◌, inl, inr, Bool-cases, text_eq_refl, arith, ◌∷◌, ◌&&◌, Bool, true, not,
  List, [], ◌++◌, Text, lit, mem_text, if◌then◌else◌,
}

-- The two lists are what Qt's watcher watches.
pub record WallpaperWatcher : Type 0 where
  pub directories : List Text
  pub files : List Text
  pub cached_source : Text

abbrev pub directory_path : Text
directory_path = lit "/var/lib/niraos/desktop"

abbrev pub wallpaper_path : Text
wallpaper_path = directory_path ++ lit "/wallpaper.png"

abbrev pub fallback_path : Text
fallback_path = lit "/usr/share/niraos/wallpapers/default.png"

-- Qt's watcher, asked to watch a path that exists, watches it.
unfoldable pub watch : (exists : Text → Bool) → Text → List Text → List Text
watch exists path watched =
    if exists path && not (mem_text path watched) then path ∷ watched else watched

module _ (from_local_file : Text → Text) where
  unfoldable pub refresh_cache : (exists : Text → Bool) → WallpaperWatcher → WallpaperWatcher
  refresh_cache exists s = record s {
    cached_source =
        from_local_file (if exists wallpaper_path then wallpaper_path else fallback_path);
  }

  unfoldable pub arm_watches : (exists : Text → Bool) → WallpaperWatcher → WallpaperWatcher
  arm_watches exists s = record s {
    directories = watch exists directory_path s.directories;
    files = watch exists wallpaper_path s.files;
  }

  unfoldable pub init : (exists : Text → Bool) → WallpaperWatcher
  init exists =
      refresh_cache exists
        (arm_watches exists (record { directories = []; files = []; cached_source = [] }))

  -- The slot of both of Qt's signals, and whether `wallpaperChanged` is emitted: always.
  unfoldable pub on_path_changed :
      (exists : Text → Bool) → WallpaperWatcher → WallpaperWatcher × Bool
  on_path_changed exists s = (refresh_cache exists (arm_watches exists s), true)

-- A path is watched if it exists.
abbrev pub IsWatched : (exists : Text → Bool) → Text → List Text → Type 0
IsWatched exists path watched = (exists path ≡ false) ⊎ (mem_text path watched ≡ true)

watch-IsWatched :
    (exists : Text → Bool) (path : Text) (watched : List Text)
    → IsWatched exists path (watch exists path watched)
unfolding watch mem_text
watch-IsWatched exists path watched = elim (Bool-cases (exists path)) [
  | inr gone ↦ inl gone
  | inl there ↦ inr (ground (arith, there, text_eq_refl path))
]

module _ (from_local_file : Text → Text) where
  -- After any change that Qt reports, the source is the wallpaper if there is one and the default one
  -- if not, and the wallpaper and its folder are watched if they exist.
  pub on_path_changed_lem :
      (exists : Text → Bool) (s : WallpaperWatcher)
      → let t = (on_path_changed from_local_file exists s).0 in
        (t.cached_source
          ≡ from_local_file (if exists wallpaper_path then wallpaper_path else fallback_path))
        × IsWatched exists directory_path t.directories
        × IsWatched exists wallpaper_path t.files
  unfolding on_path_changed refresh_cache arm_watches
  on_path_changed_lem exists s = (
    refl,
    watch-IsWatched exists directory_path s.directories,
    watch-IsWatched exists wallpaper_path s.files,
  )
