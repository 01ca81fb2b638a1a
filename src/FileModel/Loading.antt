-- ===== src/FileModel/Loading.antt =====
-- The loads of apps/files/src/FileModel.cpp: which one is watched, through every series of calls.
use nira_os.Base.{
  ◌≡◌, refl, ◌∙◌, ◌⊎◌, inl, inr, ℤ, Bool, true, false, Option, none, some, List, [], ◌∷◌, Text,
  text_eq, is_empty, Bool-cases, if◌then◌else◌, arith,
}
use nira_os.FileModel.Entry.{FileEntry}
use nira_os.FileModel.{
  Qt, FileModel, Done, SortOrder, init, refresh, start_directory_load, set_current_path,
  set_sort_column, set_sort_order, set_name_filter, set_show_hidden, navigate_up, navigate_to,
  apply_sort, sort_entries, on_directory_loaded,
}

-- The calls from outside, and the watcher's signal: the load that is watched has ended. The event
-- says what a load of each path finds at that time; the load that is watched has its path's part.
pub data Event : Type 0 where
  path_set navigated_to : Text → Event
  navigated_up refreshed : Event
  column_set : ℤ → Event
  order_set : SortOrder → Event
  filter_set : Text → Event
  hidden_set : Bool → Event
  load_finished : (Text → List FileEntry) → Event

module _ (qt : Qt) where
  unfoldable pub step : FileModel → Event → FileModel
  step s (path_set path) = (set_current_path qt s path).0
  step s (navigated_to path) = (navigate_to qt s path).0
  step s navigated_up = (navigate_up qt s).0
  step s refreshed = (refresh qt s).0
  step s (column_set column) = (set_sort_column qt s column).0
  step s (order_set order) = (set_sort_order qt s order).0
  step s (filter_set filter) = (set_name_filter qt s filter).0
  step s (hidden_set show) = (set_show_hidden qt s show).0
  step s (load_finished found) = elim s.watched [
    | none ↦ s
    | some path ↦ (on_directory_loaded qt s (found path)).0
  ]

  unfoldable pub run : FileModel → List Event → FileModel
  run s [] = s
  run s (e ∷ es) = run (step s e) es

  -- A load is shown as running exactly while one is watched, and it is one of the current folder,
  -- unless there is no current folder.
  pub record WatchesCurrent (s : FileModel) : Type 0 where
    pub loading_watched : s.loading ≡ (elim s.watched [ none ↦ false | some path ↦ true ])
    pub watched_current :
        (is_empty s.current_path ≡ true) ⊎ ((s.watched ≡ none) ⊎ (s.watched ≡ some s.current_path))

  keeps_loads :
      {s t : FileModel}
      → WatchesCurrent s
      → t.loading ≡ s.loading
      → t.watched ≡ s.watched
      → t.current_path ≡ s.current_path
      → WatchesCurrent t
  keeps_loads h l w c = record {
    loading_watched = rw (l, w) h.loading_watched;
    watched_current = rw (w, c) h.watched_current;
  }

  pick-WatchesCurrent :
      (b : Bool) (x y : Done)
      → WatchesCurrent x.0
      → WatchesCurrent y.0
      → WatchesCurrent (if b then x else y).0
  pick-WatchesCurrent true x y hx hy = hx
  pick-WatchesCurrent false x y hx hy = hy

  -- A load of the current folder, in a model that need not watch it yet.
  refresh-WatchesCurrent :
      (s : FileModel)
      → s.loading ≡ (elim s.watched [ none ↦ false | some path ↦ true ])
      → WatchesCurrent (refresh qt s).0
  unfolding refresh start_directory_load
  refresh-WatchesCurrent s h = elim (Bool-cases (is_empty s.current_path)) [
    | inl nowhere ↦ rw nowhere (record { loading_watched = h; watched_current = inl nowhere })
    | inr somewhere ↦
        rw somewhere (record { loading_watched = refl; watched_current = inr (inr refl) })
  ]

  set_current_path-WatchesCurrent :
      (s : FileModel) (path : Text)
      → WatchesCurrent s
      → WatchesCurrent (set_current_path qt s path).0
  unfolding set_current_path
  set_current_path-WatchesCurrent s path h =
      pick-WatchesCurrent (text_eq path s.current_path) (s, []) _ h
        (refresh-WatchesCurrent (record s { current_path = path }) h.loading_watched)

  loaded-WatchesCurrent :
      (s : FileModel) (result : List FileEntry) → WatchesCurrent (on_directory_loaded qt s result).0
  unfolding on_directory_loaded sort_entries
  loaded-WatchesCurrent s result =
      let watched : (on_directory_loaded qt s result).0.watched ≡ none = ground arith in
      let idle : (on_directory_loaded qt s result).0.loading ≡ false = ground arith in
      record { loading_watched = idle ∙ rw watched refl; watched_current = inr (inl watched) }

  finished-WatchesCurrent :
      (s : FileModel) (t : Text → FileModel) (watched : Option Text)
      → WatchesCurrent s
      → ((path : Text) → WatchesCurrent (t path))
      → WatchesCurrent (elim watched [ none ↦ s | some path ↦ t path ])
  finished-WatchesCurrent s t none hs ht = hs
  finished-WatchesCurrent s t (some path) hs ht = ht path

  step-WatchesCurrent : (s : FileModel) (e : Event) → WatchesCurrent s → WatchesCurrent (step s e)
  unfolding step navigate_to navigate_up set_sort_column set_sort_order set_name_filter
      set_show_hidden apply_sort sort_entries
  step-WatchesCurrent s (path_set path) h = set_current_path-WatchesCurrent s path h
  step-WatchesCurrent s (navigated_to path) h =
      pick-WatchesCurrent _ _ (s, [])
        (set_current_path-WatchesCurrent s (qt.absolute_file_path path) h) h
  step-WatchesCurrent s navigated_up h =
      pick-WatchesCurrent _ _ (s, []) (set_current_path-WatchesCurrent s _ h) h
  step-WatchesCurrent s refreshed h = refresh-WatchesCurrent s h.loading_watched
  step-WatchesCurrent s (column_set column) h =
      keeps_loads h (ground arith) (ground arith) (ground arith)
  step-WatchesCurrent s (order_set order) h =
      keeps_loads h (ground arith) (ground arith) (ground arith)
  step-WatchesCurrent s (filter_set filter) h =
      pick-WatchesCurrent _ (s, []) _ h
        (refresh-WatchesCurrent (record s { name_filter = filter }) h.loading_watched)
  step-WatchesCurrent s (hidden_set show) h =
      pick-WatchesCurrent _ (s, []) _ h
        (refresh-WatchesCurrent (record s { show_hidden = show }) h.loading_watched)
  step-WatchesCurrent s (load_finished found) h =
      finished-WatchesCurrent s (λ path. (on_directory_loaded qt s (found path)).0) s.watched h
        (λ path. loaded-WatchesCurrent s (found path))

  run-WatchesCurrent-from :
      (s : FileModel) (es : List Event) → WatchesCurrent s → WatchesCurrent (run s es)
  unfolding run
  run-WatchesCurrent-from s [] h = h
  run-WatchesCurrent-from s (e ∷ es) h =
      run-WatchesCurrent-from (step s e) es (step-WatchesCurrent s e h)

  -- What the end of a load does, where there is a current folder: nothing, or it takes what was found
  -- in this folder.
  abbrev pub TakesCurrent : FileModel → (Text → List FileEntry) → Type 0
  TakesCurrent s found =
      (is_empty s.current_path ≡ true)
      ⊎ ((step s (load_finished found) ≡ s)
          ⊎ (step s (load_finished found) ≡ (on_directory_loaded qt s (found s.current_path)).0))

  finished-TakesCurrent :
      (s : FileModel) (found : Text → List FileEntry) → WatchesCurrent s → TakesCurrent s found
  unfolding step
  finished-TakesCurrent s found h = go h.watched_current
    where
      go :
          (is_empty s.current_path ≡ true)
            ⊎ ((s.watched ≡ none) ⊎ (s.watched ≡ some s.current_path))
          → TakesCurrent s found
      go (inl nowhere) = inl nowhere
      go (inr (inl idle)) = inr (inl (rw idle refl))
      go (inr (inr loads)) = inr (inr (rw loads refl))

  -- After any calls and ends of loads, a load is shown as running exactly while one is watched, and
  -- if there is a current folder, the load that is watched is one of that folder. If there is a
  -- current folder, the next end of a load changes nothing, or it makes the list from what the load
  -- found in this folder, whatever it would have found in others.
  pub run-WatchesCurrent :
      (es : List Event) (found : Text → List FileEntry)
      → WatchesCurrent (run init es) × TakesCurrent (run init es) found
  unfolding init
  run-WatchesCurrent es found =
      let h =
        run-WatchesCurrent-from init es
          (record { loading_watched = refl; watched_current = inl refl }) in
      (h, finished-TakesCurrent (run init es) found h)
