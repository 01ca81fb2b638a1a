-- ===== src/Browser/Wiring.antt =====
-- What the connections in apps/files/src/main.cpp make sure of.
use nira_os.Base.{
  ◌≡◌, refl, sym, ◌∙◌, inl, inr, Bool, true, false, Bool-cases, List, [], ◌∷◌, any, Text, text_eq,
  text_eq_iff, is_empty, if◌then◌else◌, arith,
}
use nira_os.FileModel
use nira_os.FileModel.{
  Qt, FileModel, Signal, current_path_changed, refresh, start_directory_load, set_current_path,
  navigate_up, navigate_to, also,
}
use nira_os.Watcher
use nira_os.Watcher.{
  FileSystemWatcher, Effect, watched_path_changed, directory_changed, file_changed, remove_path,
  add_path, set_watched_path, on_directory_changed, on_file_changed, on_debounce_timeout, dir_event,
  file_event, timer_fired,
}
use nira_os.Browser.{
  Browser, changes_path, follow, start, open_path, go_to, go_up, reload, on_watcher,
}

-- What the user and Qt do.
pub data Event : Type 0 where
  opened went_to : Text → Event
  went_up debounced : Event
  dir_reported file_reported : Text → Event

-- The folder that is shown is the one that is watched.
abbrev pub InSync : Browser → Type 0
InSync b = b.watcher.watched_path ≡ b.model.current_path

watched_lem :
    (w : FileSystemWatcher) (path : Text) → (set_watched_path w path).0.watched_path ≡ path
unfolding set_watched_path
watched_lem w path = elim (Bool-cases (text_eq path w.watched_path)) [
  | inl same ↦ rw same (sym ((text_eq_iff path w.watched_path).0 same))
  | inr other ↦ rw other refl
]

-- The connection, after a call that told of a new path.
follow_changed : (b : Browser) (r : FileModel.Done) → changes_path r.1 ≡ true → InSync (follow b r)
unfolding follow
follow_changed b (m, signals) h = rw h (watched_lem b.watcher m.current_path)

pick-InSync :
    (b : Browser) (c : Bool) (x y : FileModel.Done)
    → InSync (follow b x)
    → InSync (follow b y)
    → InSync (follow b (if c then x else y))
pick-InSync b true x y hx hy = hx
pick-InSync b false x y hx hy = hy

-- What Qt and the timer do keeps both paths.
abbrev KeepsPaths : Browser → Browser → Type 0
KeepsPaths b c =
    (c.watcher.watched_path ≡ b.watcher.watched_path)
    × (c.model.current_path ≡ b.model.current_path)

abbrev pub is_call : Event → Bool
is_call (opened path) = true
is_call (went_to path) = true
is_call went_up = true
is_call e = false

timer_path : (w : FileSystemWatcher) → (Watcher.step w timer_fired).0.watched_path ≡ w.watched_path
unfolding Watcher.step on_debounce_timeout
timer_path w = ground arith

kept-InSync : (b c : Browser) → KeepsPaths b c → InSync b → InSync c
kept-InSync b c (w, m) h = w ∙ (h ∙ sym m)

module _ (qt : Qt) where
  refresh_path : (s : FileModel) → (refresh qt s).0.current_path ≡ s.current_path
  unfolding refresh start_directory_load
  refresh_path s = ground arith

  reload_path :
      (s : FileModel) (effects : List Effect) → (reload qt s effects).current_path ≡ s.current_path
  unfolding reload
  reload_path s [] = refl
  reload_path s (directory_changed path ∷ effects) =
      reload_path (refresh qt s).0 effects ∙ refresh_path s
  reload_path s (watched_path_changed ∷ effects) = reload_path s effects
  reload_path s (file_changed path ∷ effects) = reload_path s effects
  reload_path s (remove_path path ∷ effects) = reload_path s effects
  reload_path s (add_path path ∷ effects) = reload_path s effects

  set-InSync :
      (b : Browser) (path : Text) → InSync b → InSync (follow b (set_current_path qt b.model path))
  unfolding set_current_path
  set-InSync b path h = elim (Bool-cases (text_eq path b.model.current_path)) [
    | inl same ↦ rw same (unfold follow in h)
    | inr other ↦ rw other (follow_changed b _ refl)
  ]

  unfoldable pub step : Browser → Event → Browser
  step b (opened path) = open_path qt b path
  step b (went_to path) = go_to qt b path
  step b went_up = go_up qt b
  step b debounced = on_watcher qt b timer_fired
  step b (dir_reported path) = on_watcher qt b (dir_event path)
  step b (file_reported path) = on_watcher qt b (file_event path)

  unfoldable pub run : Browser → List Event → Browser
  run b [] = b
  run b (e ∷ es) = run (step b e) es

  step-KeepsPaths : (b : Browser) (e : Event) → is_call e ≡ false → KeepsPaths b (step b e)
  unfolding step on_watcher
  step-KeepsPaths b debounced h =
      (timer_path b.watcher, reload_path b.model (Watcher.step b.watcher timer_fired).1)
  step-KeepsPaths b (dir_reported path) h = (
    unfold Watcher.step on_directory_changed in refl,
    reload_path b.model (Watcher.step b.watcher (dir_event path)).1,
  )
  step-KeepsPaths b (file_reported path) h = (
    unfold Watcher.step on_file_changed in refl,
    reload_path b.model (Watcher.step b.watcher (file_event path)).1,
  )
  step-KeepsPaths b (opened path) h = cc
  step-KeepsPaths b (went_to path) h = cc
  step-KeepsPaths b went_up h = cc

  step-InSync : (b : Browser) (e : Event) → InSync b → InSync (step b e)
  unfolding step open_path go_to go_up navigate_to navigate_up
  step-InSync b (opened path) h = set-InSync b path h
  step-InSync b (went_to path) h =
      pick-InSync b _ _ (b.model, []) (set-InSync b _ h) (unfold follow in h)
  step-InSync b went_up h = pick-InSync b _ _ (b.model, []) (set-InSync b _ h) (unfold follow in h)
  step-InSync b debounced h = kept-InSync b (step b debounced) (step-KeepsPaths b debounced refl) h
  step-InSync b (dir_reported path) h =
      kept-InSync b (step b (dir_reported path)) (step-KeepsPaths b (dir_reported path) refl) h
  step-InSync b (file_reported path) h =
      kept-InSync b (step b (file_reported path)) (step-KeepsPaths b (file_reported path) refl) h

  -- Once the folder that is watched is the one that is shown, it stays so, whatever the user opens and
  -- whatever is reported.
  pub run-InSync : (b : Browser) (es : List Event) → InSync b → InSync (run b es)
  unfolding run
  run-InSync b [] h = h
  run-InSync b (e ∷ es) h = run-InSync (step b e) es (step-InSync b e h)

  run-KeepsPaths :
      (b : Browser) (es : List Event) → any is_call es ≡ false → KeepsPaths b (run b es)
  unfolding run
  run-KeepsPaths b [] h = (refl, refl)
  run-KeepsPaths b (e ∷ es) h =
      let (w, m) = step-KeepsPaths b e (ground (arith, h)) in
      let (w', m') = run-KeepsPaths (step b e) es (ground (arith, h)) in (w' ∙ w, m' ∙ m)

  start_paths :
      (home : Text)
      → is_empty home ≡ false
      → ((start qt home).watcher.watched_path ≡ []) × ((start qt home).model.current_path ≡ home)
  unfolding start set_current_path Watcher.init FileModel.init text_eq
  start_paths [] h = cc
  start_paths (c ∷ home) h =
      (refl, refresh_path (record FileModel.init { current_path = c ∷ home }))

  -- The home folder that is shown at the start is not watched: as long as the user opens no other
  -- folder, it is shown and no folder is watched.
  pub home_is_not_watched :
      (home : Text) (es : List Event)
      → is_empty home ≡ false
      → any is_call es ≡ false
      → let b = run (start qt home) es in
        (b.model.current_path ≡ home) × (b.watcher.watched_path ≡ [])
  home_is_not_watched home es some_home quiet =
      let (w, m) = run-KeepsPaths (start qt home) es quiet in
      let (w', m') = start_paths home some_home in (m ∙ m', w ∙ w')
