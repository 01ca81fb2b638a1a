-- ===== src/Shell/TrashIcon.antt =====
-- desktop/shell/src/TrashIconState.h and TrashIconState.cpp: whether the icon of the trash shows it
-- empty, and how it is emptied.
use nira_os.Base.{
  ◌≡◌, ℕ, ◌==◌, inl, inr, Bool-cases, Bool, true, false, not, List, [], ◌∷◌, ◌++◌, Text, lit,
  if◌then◌else◌,
}

-- The disk, with Qt's watcher on it and the programs that are run: `remove_all` is `rm -rf`, and says
-- whether it returned 0; `count_entries` is the length of a listing with hidden entries.
pub record Disk : Type 1 where
  pub State : Type 0
  pub exists : State → Text → Bool
  pub count_entries : State → Text → ℕ
  pub make_path : State → Text → State
  pub remove_all : State → Text → Bool × State
  pub add_watch : State → Text → State
  pub is_watched : State → Text → Bool
  pub start_detached : State → Text → List Text → Bool × State

pub record TrashIconState : Type 0 where
  pub trash_path : Text
  pub info_path : Text
  pub item_count : ℕ
  pub reloading : Bool

pub data Signal : Type 0 where
  item_count_changed is_empty_changed : Signal

unfoldable pub is_empty : TrashIconState → Bool
is_empty s = s.item_count == 0

module _ (disk : Disk) where
  open disk use {
    State, exists, count_entries, make_path, remove_all, add_watch, is_watched, start_detached,
  }

  abbrev pub Done : Type 0
  Done = TrashIconState × List Signal × State

  unfoldable pub set_count : TrashIconState → ℕ → TrashIconState × List Signal
  set_count s count =
      if not (count == s.item_count)
      then (
        record s { item_count = count; reloading = false },
        item_count_changed ∷ is_empty_changed ∷ [],
      )
      else (record s { reloading = false }, [])

  unfoldable pub rescan : TrashIconState → State → Done
  rescan s d =
      let (t, signals) =
        set_count s (if exists d s.trash_path then count_entries d s.trash_path else 0) in
      (t, signals, d)

  unfoldable pub watch_if_there : State → Text → State
  watch_if_there d path = if exists d path then add_watch d path else d

  unfoldable pub init : (data_dir : Text) → State → Done
  init data_dir d =
      let s : TrashIconState = record {
        trash_path = data_dir ++ lit "/Trash/files";
        info_path = data_dir ++ lit "/Trash/info";
        item_count = 0;
        reloading = false;
      } in
      let made = make_path (make_path d s.trash_path) s.info_path in
      rescan s (watch_if_there (watch_if_there made s.trash_path) s.info_path)

  unfoldable pub on_trash_changed : TrashIconState → State → Done
  on_trash_changed s d = if s.reloading then (s, [], d) else rescan s d

  unfoldable pub open_trash : TrashIconState → State → State
  open_trash s d =
      let (started, d') = start_detached d (lit "gio") (lit "open" ∷ lit "trash://" ∷ []) in
      if started then d' else (start_detached d' (lit "xdg-open") (s.trash_path ∷ [])).1

  -- One of the two folders, removed and made again.
  unfoldable pub clear_folder : Bool → Text → State → Bool × State
  clear_folder ok path d =
      if not (exists d path)
      then (ok, d)
      else if not ok
      then (false, make_path d path)
      else (let (removed, d') = remove_all d path in (removed, make_path d' path))

  -- The result stands before the effects.
  unfoldable pub empty_trash : TrashIconState → State → Bool × Done
  empty_trash s d =
      let (ok, d1) = clear_folder true s.trash_path d in
      let (ok', d2) = clear_folder ok s.info_path d1 in (ok', rescan s d2)

  -- What Qt documents of its watcher, and the disk does: a folder that is removed is not watched any
  -- more, and nothing but a call to watch a path makes it watched.
  pub record ForgetsRemoved : Type 0 where
    pub remove_forgets :
        (d : State) (path : Text)
        → (remove_all d path).0 ≡ true
        → is_watched (remove_all d path).1 path ≡ false
    pub remove_adds_none :
        (d : State) (path other : Text)
        → is_watched d path ≡ false
        → is_watched (remove_all d other).1 path ≡ false
    pub make_adds_none :
        (d : State) (path other : Text)
        → is_watched d path ≡ false
        → is_watched (make_path d other) path ≡ false

  clear_forgets :
      (laws : ForgetsRemoved) (path : Text) (d : State)
      → exists d path ≡ true
      → (remove_all d path).0 ≡ true
      → is_watched (clear_folder true path d).1 path ≡ false
  unfolding clear_folder
  clear_forgets laws path d there removed =
      rw there
        (laws.make_adds_none (remove_all d path).1 path path (laws.remove_forgets d path removed))

  clear_adds_none :
      (laws : ForgetsRemoved) (ok : Bool) (other path : Text) (d : State)
      → is_watched d path ≡ false
      → is_watched (clear_folder ok other d).1 path ≡ false
  unfolding clear_folder
  clear_adds_none laws ok other path d h = elim (Bool-cases (exists d other)) [
    | inr gone ↦ rw gone h
    | inl there ↦ rw there (cleared ok)
  ]
    where
      cleared :
          (ok : Bool)
          → (let r : Bool × State =
                if not ok
                then (false, make_path d other)
                else (let (removed, d') = remove_all d other in (removed, make_path d' other)) in
              is_watched r.1 path ≡ false)
      cleared true =
          laws.make_adds_none (remove_all d other).1 path other
            (laws.remove_adds_none d path other h)
      cleared false = laws.make_adds_none d path other h

  -- When the trash is emptied and its folder of files is removed, as it is meant to be, that folder
  -- is not watched any more: no later change of the trash reaches the icon by it.
  pub emptied_trash_is_not_watched :
      (laws : ForgetsRemoved) (s : TrashIconState) (d : State)
      → exists d s.trash_path ≡ true
      → (remove_all d s.trash_path).0 ≡ true
      → is_watched (empty_trash s d).1.2 s.trash_path ≡ false
  unfolding empty_trash rescan
  emptied_trash_is_not_watched laws s d there removed =
      clear_adds_none laws (clear_folder true s.trash_path d).0 s.info_path s.trash_path
        (clear_folder true s.trash_path d).1 (clear_forgets laws s.trash_path d there removed)
