-- ===== src/Watcher/Debounce.antt =====
-- Which changes FileSystemWatcher.cpp reports.
use nira_os.Base.{
  ◌≡◌, refl, ◌∙◌, inl, inr, Bool, true, false, ◌||◌, Bool-cases, List, [], ◌∷◌, ◌++◌, map, Text,
  text_eq, text_eq_iff, text_eq_refl, mem_text, any, any-append, if◌then◌else◌, arith,
}
use nira_os.Watcher.{
  FileSystemWatcher, Effect, directory_changed, file_changed, put, set_watched_path,
  on_directory_changed, on_file_changed, on_debounce_timeout, Event, path_set, dir_event,
  file_event, timer_fired, step, run,
}

-- A change, of a directory or of a file.
pub data Change : Type 0 where
  dir file : Text → Change

abbrev pub event : Change → Event
event (dir p) = dir_event p
event (file p) = file_event p

-- The effect is the report of the change.
abbrev pub is_report : Change → Effect → Bool
is_report (dir p) (directory_changed q) = text_eq q p
is_report (dir p) e = false
is_report (file p) (file_changed q) = text_eq q p
is_report (file p) e = false

abbrev pub is_pending : Change → FileSystemWatcher → Bool
is_pending (dir p) s = mem_text p s.pending_dirs
is_pending (file p) s = mem_text p s.pending_files

abbrev pub is_firing : Event → Bool
is_firing timer_fired = true
is_firing e = false

mem-put :
    (p q : Text) (paths : List Text) → mem_text p (put q paths) ≡ (text_eq q p || mem_text p paths)
unfolding put mem_text
mem-put p q paths = ground (arith, text_eq_iff q p)

dirs_reported :
    (p : Text) (ps : List Text) → any (is_report (dir p)) (map directory_changed ps) ≡ mem_text p ps
unfolding mem_text
dirs_reported p [] = refl
dirs_reported p (q ∷ ps) = ground (arith, dirs_reported p ps)

files_reported :
    (p : Text) (ps : List Text) → any (is_report (file p)) (map file_changed ps) ≡ mem_text p ps
unfolding mem_text
files_reported p [] = refl
files_reported p (q ∷ ps) = ground (arith, files_reported p ps)

no_file : (p : Text) (ps : List Text) → any (is_report (file p)) (map directory_changed ps) ≡ false
no_file p [] = refl
no_file p (q ∷ ps) = no_file p ps

no_dir : (p : Text) (ps : List Text) → any (is_report (dir p)) (map file_changed ps) ≡ false
no_dir p [] = refl
no_dir p (q ∷ ps) = no_dir p ps

-- The timeout reports exactly what is pending.
timeout_reports :
    (c : Change) (s : FileSystemWatcher)
    → any (is_report c) (on_debounce_timeout s).1 ≡ is_pending c s
unfolding on_debounce_timeout
timeout_reports (dir p) s =
    any-append (is_report (dir p)) (map directory_changed s.pending_dirs)
      (map file_changed s.pending_files)
    ∙ ground (arith, dirs_reported p s.pending_dirs, no_dir p s.pending_files)
timeout_reports (file p) s =
    any-append (is_report (file p)) (map directory_changed s.pending_dirs)
      (map file_changed s.pending_files)
    ∙ ground (arith, files_reported p s.pending_files, no_file p s.pending_dirs)

-- A change that is on its way: it is pending, and the timer runs.
abbrev OnItsWay : Change → FileSystemWatcher → Type 0
OnItsWay c s = (s.timer_running ≡ true) × (is_pending c s ≡ true)

pick-OnItsWay :
    (c : Change) (b : Bool) (x y : FileSystemWatcher × List Effect)
    → OnItsWay c x.0
    → OnItsWay c y.0
    → OnItsWay c (if b then x else y).0
pick-OnItsWay c true x y hx hy = hx
pick-OnItsWay c false x y hx hy = hy

step-OnItsWay :
    (c : Change) (s : FileSystemWatcher) (e : Event)
    → is_firing e ≡ false
    → OnItsWay c s
    → OnItsWay c (step s e).0
unfolding step set_watched_path on_directory_changed on_file_changed
step-OnItsWay (dir p) s (path_set path) h way =
    pick-OnItsWay (dir p) (text_eq path s.watched_path) (s, []) _ way way
step-OnItsWay (file p) s (path_set path) h way =
    pick-OnItsWay (file p) (text_eq path s.watched_path) (s, []) _ way way
step-OnItsWay (dir p) s (dir_event q) h way =
    (refl, ground (arith, way.1, mem-put p q s.pending_dirs))
step-OnItsWay (file p) s (dir_event q) h way = (refl, way.1)
step-OnItsWay (dir p) s (file_event q) h way = (refl, way.1)
step-OnItsWay (file p) s (file_event q) h way =
    (refl, ground (arith, way.1, mem-put p q s.pending_files))
step-OnItsWay c s timer_fired h way = cc

event-OnItsWay : (c : Change) (s : FileSystemWatcher) → OnItsWay c (step s (event c)).0
unfolding step on_directory_changed on_file_changed
event-OnItsWay (dir p) s = (refl, ground (arith, text_eq_refl p, mem-put p p s.pending_dirs))
event-OnItsWay (file p) s = (refl, ground (arith, text_eq_refl p, mem-put p p s.pending_files))

fired_reports :
    (c : Change) (s : FileSystemWatcher)
    → OnItsWay c s
    → any (is_report c) (step s timer_fired).1 ≡ true
unfolding step
fired_reports (dir p) s way =
    rw (way.0) (timeout_reports (dir p) (record s { timer_running = false }) ∙ way.1)
fired_reports (file p) s way =
    rw (way.0) (timeout_reports (file p) (record s { timer_running = false }) ∙ way.1)

any-later : {A : Type 0} (p : A → Bool) (xs ys : List A) → any p ys ≡ true → any p (xs ++ ys) ≡ true
any-later p xs ys h = ground (arith, any-append p xs ys)

any-sooner :
    {A : Type 0} (p : A → Bool) (xs ys : List A) → any p xs ≡ true → any p (xs ++ ys) ≡ true
any-sooner p xs ys h = ground (arith, any-append p xs ys)

run_reports :
    (c : Change) (s : FileSystemWatcher) (es : List Event)
    → OnItsWay c s
    → any is_firing es ≡ true
    → any (is_report c) (run s es).1 ≡ true
unfolding run
run_reports c s [] way h = cc
run_reports c s (e ∷ es) way h = elim (Bool-cases (is_firing e)) [
  | inl firing ↦ any-sooner (is_report c) (step s e).1 (run (step s e).0 es).1 (fired e firing)
  | inr other ↦
      any-later (is_report c) (step s e).1 (run (step s e).0 es).1
        (run_reports c (step s e).0 es (step-OnItsWay c s e other way) (ground (arith, h, other)))
]
  where
    fired : (e : Event) → is_firing e ≡ true → any (is_report c) (step s e).1 ≡ true
    fired timer_fired h' = fired_reports c s way
    fired (path_set p) h' = cc
    fired (dir_event p) h' = cc
    fired (file_event p) h' = cc

-- No change is lost: after a change of a directory or a file, whatever else happens before and
-- after it, the path is reported as soon as the timer has fired.
pub change_is_reported :
    (c : Change) (s : FileSystemWatcher) (es : List Event)
    → any is_firing es ≡ true
    → any (is_report c) (run s (event c ∷ es)).1 ≡ true
unfolding run
change_is_reported c s es fires =
    any-later (is_report c) (step s (event c)).1 (run (step s (event c)).0 es).1
      (run_reports c (step s (event c)).0 es (event-OnItsWay c s) fires)
