-- ===== src/Windows/Seeding.antt =====
-- The start of the shell: it asks for the open windows, and with four calls about each one.
use nira_os.Base.{
  ◌≡◌, subst, ◌∙◌, Bool, true, false, none, some, List, [], ◌∷◌, Text, text_eq_refl, arith,
}
use nira_os.Base.Dict
use nira_os.Windows.Registry.{
  Window, Registry, no_window, unregister_window, window_title, window_app_id, window_minimized,
  window_focused, window_value,
}
use nira_os.Windows.Taskbar.{
  Taskbar, PendingData, fresh, Reply, title_reply, app_id_reply, minimized_reply, focused_reply,
  collect, on_reply, on_window_registered, on_window_state_changed, on_window_unregistered,
}
use nira_os.Windows.Rows.{entry_of, Distinct}
use nira_os.Windows.Signals.{
  registered-Changes, state_changed-Changes, unregistered-Changes, Changes,
}

unfoldable pub on_replies : Text → Taskbar × PendingData → List Reply → Taskbar × PendingData
on_replies id s [] = s
on_replies id s (r ∷ rs) = on_replies id (on_reply id s r) rs

-- The four calls, by what they ask.
pub data Question : Type 0 where
  title_question app_id_question minimized_question focused_question : Question

-- What the register answers.
abbrev pub answer : Registry → Text → Question → Reply
answer r id title_question = title_reply (some (window_title r id))
answer r id app_id_question = app_id_reply (some (window_app_id r id))
answer r id minimized_question = minimized_reply (some (window_minimized r id))
answer r id focused_question = focused_reply (some (window_focused r id))

abbrev pub answers : Registry → Text → List Question → List Reply
answers r id [] = []
answers r id (q ∷ qs) = answer r id q ∷ answers r id qs

abbrev pub same_question : Question → Question → Bool
same_question title_question title_question = true
same_question app_id_question app_id_question = true
same_question minimized_question minimized_question = true
same_question focused_question focused_question = true
same_question _ _ = false

-- Four different questions, in any order.
abbrev pub AllDifferent : Question → Question → Question → Question → Type 0
AllDifferent a b c d =
    (same_question a b ≡ false)
    × (same_question a c ≡ false)
    × (same_question a d ≡ false)
    × (same_question b c ≡ false)
    × (same_question b d ≡ false)
    × (same_question c d ≡ false)

module _ (r : Registry) (t : Taskbar) (id : Text) where
  abbrev added_window : Taskbar
  added_window =
      let w = window_value r id in
      (on_window_state_changed (on_window_registered t id w.title w.app_id).0 id w.minimized
        w.focused).0

  -- The window is added at the fourth answer, with all that was answered, in whatever order.
  on_replies-answers :
      (a b c d : Question)
      → AllDifferent a b c d
      → (on_replies id (t, fresh) (answers r id (a ∷ b ∷ c ∷ d ∷ []))).0 ≡ added_window
  unfolding on_replies on_reply collect window_title window_app_id window_minimized window_focused
  on_replies-answers title_question b c d h = ground arith
  on_replies-answers app_id_question b c d h = ground arith
  on_replies-answers minimized_question b c d h = ground arith
  on_replies-answers focused_question b c d h = ground arith

  added_window-Changes :
      Distinct t.windows
      → entry_of id t.windows ≡ none
      → Changes id (some (window_value r id)) t added_window
  added_window-Changes d missing =
      let w = window_value r id in
      let c = registered-Changes t id d w.title w.app_id in
      let e =
        state_changed-Changes (on_window_registered t id w.title w.app_id).0 id c.1 w.minimized
          w.focused in
      (λ j. ground (arith, missing, c.0 j, c.0 id, e.0 j, text_eq_refl id), e.1)

  -- A window that the register holds and the taskbar lacks: the four answers, in any order, add one
  -- row that shows it with all its data, and change no other row.
  pub seeding_adds_window :
      (a b c d : Question) {w : Window}
      → AllDifferent a b c d
      → Distinct t.windows
      → entry_of id t.windows ≡ none
      → Dict.lookup id r.windows ≡ some w
      → Changes id (some w) t (on_replies id (t, fresh) (answers r id (a ∷ b ∷ c ∷ d ∷ []))).0
  unfolding window_value
  seeding_adds_window a b c d {w} h distinct missing found =
      let e : window_value r id ≡ w = rw (found, window_value) in
      rw (on_replies-answers a b c d h)
        (subst (λ v. Changes id (some v) t added_window) e (added_window-Changes distinct missing))

-- A window that closes after the list of ids was sent, and before the four calls about it are
-- answered, leaves a row with an empty title on the taskbar, though the register has no such window:
-- its `windowUnregistered` signal came before the row did.
pub seeding_leaves_ghost :
    (r : Registry) (t : Taskbar) (id : Text) (a b c d : Question)
    → AllDifferent a b c d
    → Distinct t.windows
    → entry_of id t.windows ≡ none
    → let r' = (unregister_window r id).0 in
      let t' = (on_window_unregistered t id).0 in
      (Dict.lookup id r'.windows ≡ none)
      × (entry_of id (on_replies id (t', fresh) (answers r' id (a ∷ b ∷ c ∷ d ∷ []))).0.windows
          ≡ some no_window)
unfolding unregister_window window_value
seeding_leaves_ghost r t id a b c d h distinct missing =
    let r' = (unregister_window r id).0 in
    let t' = (on_window_unregistered t id).0 in
    let gone : Dict.lookup id r'.windows ≡ none =
      Dict.lookup-erase id id r.windows ∙ rw text_eq_refl in
    let u = unregistered-Changes t id distinct in
    let e = added_window-Changes r' t' id u.1 (u.0 id ∙ rw text_eq_refl) in
    (
      gone,
      rw (on_replies-answers r' t' id a b c d h) (ground (arith, e.0 id, gone, text_eq_refl id)),
    )
