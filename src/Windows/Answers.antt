-- ===== src/Windows/Answers.antt =====
-- What the answers about one window have done to its row, while the taskbar of TaskbarModel.cpp takes
-- them together with those about the others.
use nira_os.Base.{
  ℕ, suc, ◌+◌, ◌-◌, ◌==◌, ◌≡◌, refl, ap, sym, ◌∙◌, Bool-cases, true, false, Option, none, some,
  List, [], ◌∷◌, ◌⊎◌, inl, inr, Text, text_eq, text_eq_iff, text_eq_refl, subst, if_of_true,
  if_of_false, if◌then◌else◌, arith,
}
use nira_os.Windows.Registry.{
  Window, Registry, window_value, window_title, window_app_id, window_minimized, window_focused,
}
use nira_os.Windows.Taskbar.{Taskbar, PendingData, Reply, collect, on_reply, on_window_registered}
use nira_os.Windows.Rows.{entry_of, Distinct}
use nira_os.Windows.Signals.{registered-Changes, state_changed-Changes, added, restated}
use nira_os.Windows.Seeding.{
  Question, title_question, app_id_question, minimized_question, focused_question, same_question,
  answer,
}
use nira_os.Windows.Start.{Collected, on_call_finished, answer_all, times, bump}

abbrev pub View : Type 0
View = Option Window × PendingData

abbrev pub view : Text → Taskbar × Collected → View
view j (t, p) = (entry_of j t.windows, p j)

-- What a reply about a window does to its row and to what has been collected.
abbrev view_reply : View → Reply → View
view_reply (v, d) r =
    let e = collect d r in
    let e' : PendingData = record e { remaining = e.remaining - 1 } in
    if e'.remaining == 0
    then (restated e.minimized e.focused (added e.title e.app_id v), e')
    else (v, e')

module _ (t : Taskbar) (p : Collected) (id : Text) (d : Distinct t.windows) (r : Reply) where
  on_call_finished-view :
      (j : Text)
      → (view j (on_call_finished (t, p) id r)
          ≡ (if text_eq id j then view_reply (view id (t, p)) r else view j (t, p)))
        × Distinct (on_call_finished (t, p) id r).0.windows
  unfolding on_call_finished on_reply
  on_call_finished-view j =
      let e = collect (p id) r in
      let c = registered-Changes t id d e.title e.app_id in
      let u = (on_window_registered t id e.title e.app_id).0 in
      let s = state_changed-Changes u id c.1 e.minimized e.focused in
      elim (Bool-cases (e.remaining - 1 == 0)) [
        | inl last ↦ (
          ground (arith, last, c.0 j, c.0 id, s.0 j, text_eq_refl id, text_eq_iff id j),
          ground (arith, last, s.1),
        )
        | inr more ↦ (ground (arith, more, text_eq_iff id j), ground (arith, more, d))
      ]

-- An answer that is to come once, or has come.
abbrev Field : {A : Type 0} → ℕ → A → A → Type 0
Field n held value = (n ≡ 1) ⊎ ((n ≡ 0) × (held ≡ value))

-- Of the four answers about a window so many are to come; after the last one it has its row.
abbrev Progress : Window → ℕ → ℕ → ℕ → ℕ → View → Type 0
Progress w a b c e (v, d) =
    (d.remaining ≡ a + b + c + e)
    × Field a d.title w.title
    × Field b d.app_id w.app_id
    × Field c d.minimized w.minimized
    × Field e d.focused w.focused
    × (v ≡ (if d.remaining == 0 then some w else none))

-- One answer has been collected.
landed :
    (w : Window) (a b c e : ℕ) (v : Option Window) (d : PendingData)
    → d.remaining ≡ suc (a + b + c + e)
    → v ≡ none
    → Field a d.title w.title
    → Field b d.app_id w.app_id
    → Field c d.minimized w.minimized
    → Field e d.focused w.focused
    → let d' : PendingData = record d { remaining = d.remaining - 1 } in
      Progress w a b c e (
        if d'.remaining == 0
        then (restated d.minimized d.focused (added d.title d.app_id v), d')
        else (v, d'))
landed w a b c e v d left unseen fa fb fc fe =
    let less : d.remaining - 1 ≡ a + b + c + e = omega (arith, left) in
    elim (Bool-cases (d.remaining - 1 == 0)) [
      | inl last ↦
          rw last (less, fa, fb, fc, fe, ground (arith, last, less, unseen, fa, fb, fc, fe))
      | inr more ↦ rw more (less, fa, fb, fc, fe, ground (arith, more, unseen))
    ]

-- An answer that has come does not come again.
came :
    {A : Type 0} (n : ℕ) (old new value : A)
    → Field (suc n) old value
    → new ≡ value
    → Field n new value
came n old new value (inl h) e = inr (omega (arith, h), e)
came n old new value (inr (h, same)) e = absurd (omega (arith, h))

unseen_yet :
    (w : Window) (n : ℕ) (v : Option Window) (d : PendingData)
    → d.remaining ≡ suc n
    → v ≡ (if d.remaining == 0 then some w else none)
    → v ≡ none
unseen_yet w n v d left seen = ground (arith, left, seen)

abbrev Outstanding : Registry → Text → List (Text × Question) → View → Type 0
Outstanding r j cs s =
    Progress (window_value r j) (times j title_question cs) (times j app_id_question cs)
      (times j minimized_question cs) (times j focused_question cs) s

same_question_refl : (q : Question) → same_question q q ≡ true
same_question_refl title_question = refl
same_question_refl app_id_question = refl
same_question_refl minimized_question = refl
same_question_refl focused_question = refl

module _ (r : Registry) (j : Text) where
  abbrev w : Window
  w = window_value r j

  answered-Progress :
      (q : Question) (a b c e : ℕ) (s : View)
      → Progress w
          (bump (same_question q title_question) a)
          (bump (same_question q app_id_question) b)
          (bump (same_question q minimized_question) c)
          (bump (same_question q focused_question) e)
          s
      → Progress w a b c e (view_reply s (answer r j q))
  unfolding collect window_title window_app_id window_minimized window_focused
  answered-Progress title_question a b c e (v, d) (left, fa, fb, fc, fe, seen) =
      landed w a b c e v (record d { title = w.title }) (omega (arith, left))
        (unseen_yet w (a + b + c + e) v d (omega (arith, left)) seen)
        (came a d.title w.title w.title fa refl) fb fc fe
  answered-Progress app_id_question a b c e (v, d) (left, fa, fb, fc, fe, seen) =
      landed w a b c e v (record d { app_id = w.app_id }) (omega (arith, left))
        (unseen_yet w (a + b + c + e) v d (omega (arith, left)) seen) fa
        (came b d.app_id w.app_id w.app_id fb refl) fc fe
  answered-Progress minimized_question a b c e (v, d) (left, fa, fb, fc, fe, seen) =
      landed w a b c e v (record d { minimized = w.minimized }) (omega (arith, left))
        (unseen_yet w (a + b + c + e) v d (omega (arith, left)) seen) fa fb
        (came c d.minimized w.minimized w.minimized fc refl) fe
  answered-Progress focused_question a b c e (v, d) (left, fa, fb, fc, fe, seen) =
      landed w a b c e v (record d { focused = w.focused }) (omega (arith, left))
        (unseen_yet w (a + b + c + e) v d (omega (arith, left)) seen) fa fb fc
        (came e d.focused w.focused w.focused fe refl)

  next-Outstanding :
      (i : Text) (q : Question) (cs : List (Text × Question)) (p : Text → View) (s : View)
      → s ≡ (if text_eq i j then view_reply (p i) (answer r i q) else p j)
      → Outstanding r j ((i, q) ∷ cs) (p j)
      → Outstanding r j cs s
  unfolding times
  next-Outstanding i q cs p s same h = elim (Bool-cases (text_eq i j)) [
    | inl here ↦
        let at : i ≡ j = (text_eq_iff i j).0 here in
        let same' : s ≡ view_reply (p j) (answer r j q) =
          same
          ∙ (if_of_true (text_eq i j) _ (p j) here
              ∙ ap (λ k. view_reply (p k) (answer r k q)) at) in
        subst (Outstanding r j cs) (sym same') (
          answered-Progress q (times j title_question cs) (times j app_id_question cs)
            (times j minimized_question cs) (times j focused_question cs) (p j) (rw here at h))
    | inr there ↦
        subst (Outstanding r j cs) (sym (same ∙ if_of_false (text_eq i j) _ (p j) there))
          (rw there at h)
  ]

  -- After all the calls are answered the row shows the window.
  pub answer_all-shows :
      (cs : List (Text × Question)) (t : Taskbar) (p : Collected)
      → Distinct t.windows
      → Outstanding r j cs (view j (t, p))
      → entry_of j (answer_all r (t, p) cs).0.windows ≡ some w
  unfolding answer_all times
  answer_all-shows [] t p d (left, fa, fb, fc, fe, seen) = ground (arith, left, seen)
  answer_all-shows ((i, q) ∷ cs) t p d h =
      let s = on_call_finished (t, p) i (answer r i q) in
      let (same, d') = on_call_finished-view t p i d (answer r i q) j in
      answer_all-shows cs s.0 s.1 d'
        (next-Outstanding i q cs (λ k. view k (t, p)) (view j s) same h)

  -- A window that nothing is asked about keeps its row.
  pub answer_all-skips :
      (cs : List (Text × Question)) (t : Taskbar) (p : Collected)
      → Distinct t.windows
      → ((q : Question) → times j q cs ≡ 0)
      → entry_of j (answer_all r (t, p) cs).0.windows ≡ entry_of j t.windows
  unfolding answer_all times
  answer_all-skips [] t p d h = refl
  answer_all-skips ((i, q) ∷ cs) t p d h =
      let s = on_call_finished (t, p) i (answer r i q) in
      let (same, d') = on_call_finished-view t p i d (answer r i q) j in
      let other : text_eq i j ≡ false = ground (arith, h q, same_question_refl q) in
      answer_all-skips cs s.0 s.1 d' (λ q'. ground (arith, h q', other))
      ∙ ap (λ (x : View). x.0) (same ∙ if_of_false (text_eq i j) _ (view j (t, p)) other)

pub answer_all-Distinct :
    (r : Registry) (cs : List (Text × Question)) (t : Taskbar) (p : Collected)
    → Distinct t.windows
    → Distinct (answer_all r (t, p) cs).0.windows
unfolding answer_all
answer_all-Distinct r [] t p d = d
answer_all-Distinct r ((i, q) ∷ cs) t p d =
    let s = on_call_finished (t, p) i (answer r i q) in
    answer_all-Distinct r cs s.0 s.1 (on_call_finished-view t p i d (answer r i q) i).1
