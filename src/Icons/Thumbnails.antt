-- ===== src/Icons/Thumbnails.antt =====
-- apps/files/src/ThumbnailProvider.h and ThumbnailProvider.cpp: the pictures of files, kept in a cache.
-- The size that is reported beside an image is the image's own, and left out.
use nira_os.Base.{
  ◌≡◌, refl, ℕ, Bool, true, false, not, ◌||◌, Option, none, some, ◌∷◌, ◌++◌, drop, Text, lit,
  text_eq, starts_with, contains, is_empty, if◌then◌else◌,
}
use nira_os.Icons.{Size, Image, theme_icon, picture, null, target_size}

-- Qt's functions on files and texts; a picture has a size if its header can be read, and decodes or
-- not.
pub record Qt : Type 0 where
  pub to_local_file : Text → Text
  pub number : ℕ → Text
  pub exists : Text → Bool
  pub mime_type : Text → Text
  pub picture_size : Text → Option Size
  pub decodes : Text → Bool
  pub scaled_to_fit : Size → Size → Size
  pub is_executable : Text → Bool
  pub is_dir : Text → Bool
  pub is_symlink : Text → Bool
  pub theme_has : Text → Bool

-- Qt's cache of 500 images.
pub record Cache : Type 1 where
  pub State : Type 0
  pub object : State → Text → Option Image
  pub insert : State → Text → Image → State

abbrev pub is_null : Image → Bool
is_null null = true
is_null image = false

module _ (qt : Qt) where
  open qt use {
    to_local_file, number, exists, mime_type, picture_size, decodes, scaled_to_fit, is_executable,
    is_dir, is_symlink, theme_has,
  }

  unfoldable pub generate_icon_thumbnail : Text → Size → Image
  generate_icon_thumbnail icon_name size =
      theme_icon (if theme_has icon_name then icon_name else lit "unknown") size

  unfoldable pub read_picture : Text → Size → Image
  read_picture path requested = elim (picture_size path) [
    | none ↦ null
    | some size ↦ if decodes path then picture path (scaled_to_fit size requested) else null
  ]

  unfoldable pub generate_thumbnail : Text → Size → Image
  generate_thumbnail path requested =
      let mime = mime_type path in
      if not (exists path)
      then null
      else if starts_with mime (lit "image/")
      then read_picture path requested
      else if starts_with mime (lit "video/")
      then generate_icon_thumbnail (lit "video-x-generic") requested
      else if text_eq mime (lit "application/pdf")
      then generate_icon_thumbnail (lit "application-pdf") requested
      else if starts_with mime (lit "text/")
      then generate_icon_thumbnail (lit "text-x-generic") requested
      else if contains mime (lit "zip")
          || (contains mime (lit "compressed") || contains mime (lit "archive"))
      then generate_icon_thumbnail (lit "application-x-archive") requested
      else if is_executable path
      then generate_icon_thumbnail (lit "application-x-executable") requested
      else if is_dir path
      then generate_icon_thumbnail (lit "folder") requested
      else if is_symlink path
      then generate_icon_thumbnail (lit "emblem-symbolic-link") requested
      else null

  -- What is generated where the cache has nothing: an icon if there is no thumbnail.
  unfoldable pub fresh_thumbnail : Text → Size → Image
  fresh_thumbnail path target =
      let thumb = generate_thumbnail path target in
      if is_null thumb then generate_icon_thumbnail (lit "unknown") target else thumb

  unfoldable pub cache_key : Text → Size → Text
  cache_key path (width, height) = path ++ (64 ∷ (number width ++ (120 ∷ number height)))

  unfoldable pub file_path_of : Text → Text
  file_path_of id = if starts_with id (lit "file://") then to_local_file id else id

  module _ (cache : Cache) where
    open cache use {State, object, insert}

    unfoldable pub thumbnail : State → Text → Size → Image × State
    thumbnail c path target = elim (object c (cache_key path target)) [
      | some cached ↦ (cached, c)
      | none ↦ (
        fresh_thumbnail path target,
        insert c (cache_key path target) (fresh_thumbnail path target),
      )
    ]

    unfoldable pub request_image : State → Text → Option Size → Image × State
    request_image c id requested =
        let target = target_size requested (128, 128) in
        if starts_with id (lit "icon://")
        then (generate_icon_thumbnail (drop 7 id) target, c)
        else if is_empty (file_path_of id)
        then (generate_icon_thumbnail (lit "unknown") target, c)
        else thumbnail c (file_path_of id) target

same_key :
    (qt later : Qt) (path : Text) (target : Size)
    → ((n : ℕ) → later.number n ≡ qt.number n)
    → cache_key later path target ≡ cache_key qt path target
unfolding cache_key
same_key qt later path (w, h) same = rw (same w, same h) refl

cached_lem :
    (cache : Cache) (qt : Qt) (c : cache.State) (path : Text) (target : Size) (image : Image)
    → cache.object c (cache_key qt path target) ≡ some image
    → (thumbnail qt cache c path target).0 ≡ image
unfolding thumbnail
cached_lem cache qt c path target image h = rw (h, thumbnail) refl

missing_lem :
    (cache : Cache) (qt : Qt) (c : cache.State) (path : Text) (target : Size)
    → cache.object c (cache_key qt path target) ≡ none
    → (thumbnail qt cache c path target).1
      ≡ cache.insert c (cache_key qt path target) (fresh_thumbnail qt path target)
unfolding thumbnail
missing_lem cache qt c path target h = rw (h, thumbnail) refl

-- A thumbnail is not renewed: what was made for a path and a size is given again as long as the cache
-- keeps it, whatever the file holds by then.
pub thumbnail_again :
    (cache : Cache) (qt later : Qt) (c : cache.State) (path : Text) (target : Size)
    → ((n : ℕ) → later.number n ≡ qt.number n)
    → cache.object c (cache_key qt path target) ≡ none
    → ((image : Image)
        → cache.object (cache.insert c (cache_key qt path target) image) (cache_key qt path target)
          ≡ some image)
    → (thumbnail later cache (thumbnail qt cache c path target).1 path target).0
      ≡ fresh_thumbnail qt path target
thumbnail_again cache qt later c path target same fresh kept =
    rw (missing_lem cache qt c path target fresh) (
      cached_lem cache later _ path target (fresh_thumbnail qt path target)
        (rw (same_key qt later path target same) (kept (fresh_thumbnail qt path target))))
