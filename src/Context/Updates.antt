-- ===== src/Context/Updates.antt =====
-- Which updates of ContextExporter.cpp reach the file.
use nira_os.Base.{
  ◌≡◌, refl, ap, sym, ◌∙◌, subst, ◌⊎◌, inl, inr, Bool, true, false, not, ◌&&◌, Option, none, some,
  List, [], ◌∷◌, Text, text_eq, if◌then◌else◌, arith,
}
use nira_os.Context.{
  ContextExporter, set_active_app_id, set_active_title, on_flush_timer, flush, write_to_disk, Event,
  app_id_set, title_set, timer_fired, flushed, write_done, step, run, init,
}

-- The active window is in the file, or on its way: the timer runs, or it is being written, or it is
-- written and nothing else is being written.
abbrev pub UpToDate : ContextExporter → Type 0
UpToDate s =
    (s.timer_running ≡ true)
    ⊎ ((s.in_flight ≡ some (s.active_app_id, s.active_title))
        ⊎ ((s.in_flight ≡ none) × (s.written ≡ some (s.active_app_id, s.active_title))))

-- No flush falls into the time of another one, and writes work.
abbrev pub undisturbed : ContextExporter → Event → Bool
undisturbed s (app_id_set app_id) = true
undisturbed s (title_set title) = true
undisturbed s timer_fired = not s.pending_flush
undisturbed s flushed = not s.pending_flush
undisturbed s (write_done works) = works

abbrev pub all_undisturbed : ContextExporter → List Event → Bool
all_undisturbed s [] = true
all_undisturbed s (e ∷ es) = undisturbed s e && all_undisturbed (step s e) es

none-some : {A : Type 0} {x : A} → none ≡ some x → ⊥
none-some e = cc

not-false : (b : Bool) → not b ≡ true → b ≡ false
not-false false h = refl
not-false true h = sym h

-- The end of a write, for what was carried.
finish-UpToDate :
    (s : ContextExporter) (carried : Option (Text × Text))
    → s.in_flight ≡ carried
    → UpToDate s
    → UpToDate (elim carried [
      | none ↦ s
      | some c ↦ record s { pending_flush = false; in_flight = none; written = some c }
    ])
finish-UpToDate s none e h = h
finish-UpToDate s (some c) e (inl running) = inl running
finish-UpToDate s (some c) e (inr (inl here)) = inr (inr (refl, sym e ∙ here))
finish-UpToDate s (some c) e (inr (inr (idle, done))) =
    let clash : none ≡ some c = sym idle ∙ e in absurd (none-some clash)

pick-UpToDate :
    (b : Bool) (x y : ContextExporter × Bool)
    → UpToDate x.0
    → UpToDate y.0
    → UpToDate (if b then x else y).0
pick-UpToDate true x y hx hy = hx
pick-UpToDate false x y hx hy = hy

flush-UpToDate : (s : ContextExporter) → s.pending_flush ≡ false → UpToDate (on_flush_timer s)
unfolding on_flush_timer
flush-UpToDate s idle = rw idle (inr (inl refl))

fired-UpToDate :
    (s : ContextExporter) (b : Bool)
    → s.pending_flush ≡ false
    → UpToDate s
    → UpToDate (if b then on_flush_timer (record s { timer_running = false }) else s)
fired-UpToDate s true idle h = flush-UpToDate (record s { timer_running = false }) idle
fired-UpToDate s false idle h = h

step-UpToDate :
    (s : ContextExporter) (e : Event) → undisturbed s e ≡ true → UpToDate s → UpToDate (step s e)
unfolding step set_active_app_id set_active_title flush write_to_disk
step-UpToDate s (app_id_set app_id) ok h = pick-UpToDate _ (s, false) _ h (inl refl)
step-UpToDate s (title_set title) ok h = pick-UpToDate _ (s, false) _ h (inl refl)
step-UpToDate s timer_fired ok h = fired-UpToDate s s.timer_running (not-false s.pending_flush ok) h
step-UpToDate s flushed ok h =
    flush-UpToDate (record s { timer_running = false }) (not-false s.pending_flush ok)
step-UpToDate s (write_done works) ok h = rw ok (finish-UpToDate s s.in_flight refl h)

-- Nothing has been set or flushed yet, or the active window is in the file or on its way to it.
abbrev pub Keeps : ContextExporter → Type 0
Keeps s = (s ≡ init) ⊎ UpToDate s

first-Keeps : (e : Event) → Keeps (step init e)
unfolding step init set_active_app_id set_active_title on_flush_timer flush write_to_disk text_eq
first-Keeps (app_id_set []) = inl refl
first-Keeps (app_id_set (c ∷ app_id)) = inr (inl refl)
first-Keeps (title_set []) = inl refl
first-Keeps (title_set (c ∷ title)) = inr (inl refl)
first-Keeps timer_fired = inl refl
first-Keeps flushed = inr (inr (inl refl))
first-Keeps (write_done works) = inl refl

step-Keeps : (s : ContextExporter) (e : Event) → undisturbed s e ≡ true → Keeps s → Keeps (step s e)
step-Keeps s e ok (inl start) = subst (λ t. Keeps (step t e)) (sym start) (first-Keeps e)
step-Keeps s e ok (inr h) = inr (step-UpToDate s e ok h)

run-Keeps :
    (s : ContextExporter) (es : List Event)
    → all_undisturbed s es ≡ true
    → Keeps s
    → Keeps (run s es)
unfolding run
run-Keeps s [] ok h = h
run-Keeps s (e ∷ es) ok h =
    run-Keeps (step s e) es (ground (arith, ok)) (step-Keeps s e (ground (arith, ok)) h)

-- From the start on, as long as no flush falls into the time of another one and writes work, no
-- update is lost: the exporter is as it was at the start, or the active window is in the file or on
-- its way to it.
pub run-UpToDate :
    (es : List Event)
    → all_undisturbed init es ≡ true
    → (run init es ≡ init) ⊎ UpToDate (run init es)
run-UpToDate es ok = run-Keeps init es ok (inl refl)

pick_second : {A : Type 0} (b : Bool) (x y : A) → b ≡ false → (if b then x else y) ≡ y
pick_second false x y h = refl
pick_second true x y h = cc

title_step :
    (s : ContextExporter) (title : Text)
    → text_eq s.active_title title ≡ false
    → step s (title_set title) ≡ record s { active_title = title; timer_running = true }
unfolding step set_active_title
title_step s title new =
    let set : ContextExporter × Bool =
      (record s { active_title = title; timer_running = true }, true) in
    ap (λ r. r.0) (pick_second (text_eq s.active_title title) (s, false) set new)

-- A timer that fires while a write is going on is forgotten.
fired_step :
    (s : ContextExporter)
    → s.pending_flush ≡ true
    → step (record s { timer_running = true }) timer_fired ≡ record s { timer_running = false }
unfolding step on_flush_timer
fired_step s pending = rw pending refl

written_step :
    (s : ContextExporter) (c : Text × Text)
    → s.in_flight ≡ some c
    → step s (write_done true)
      ≡ record s { pending_flush = false; in_flight = none; written = some c }
unfolding step write_to_disk
written_step s c carried = rw carried refl

-- A title that is set while a write is going on, and whose timer fires before that write ends, is
-- lost: in the end nothing is on its way, and the file has the title before it.
pub update_lost :
    (s : ContextExporter) (title : Text)
    → s.pending_flush ≡ true
    → s.in_flight ≡ some (s.active_app_id, s.active_title)
    → text_eq s.active_title title ≡ false
    → let t = run s (title_set title ∷ timer_fired ∷ write_done true ∷ []) in
      (t.timer_running ≡ false)
      × (t.in_flight ≡ none)
      × (t.active_title ≡ title)
      × (t.written ≡ some (s.active_app_id, s.active_title))
unfolding run
update_lost s title pending carried new =
    let s1 : ContextExporter = record s { active_title = title; timer_running = true } in
    let s2 : ContextExporter = record s1 { timer_running = false } in
    rw (title_step s title new, fired_step s1 pending, written_step s2 _ carried)
      (refl, refl, refl, refl)
