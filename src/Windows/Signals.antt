-- ===== src/Windows/Signals.antt =====
-- What the taskbar shows under each id after one signal.
use nira_os.Base.{
  ◌≡◌, Bool, false, Option, none, some, Text, text_eq, text_eq_iff, arith, inl, inr, if◌then◌else◌,
}
use nira_os.Windows.Registry.{Window}
use nira_os.Windows.Taskbar.{
  Taskbar, WindowEntry, on_window_registered, on_window_unregistered, on_window_state_changed,
  on_window_metadata_changed,
}
use nira_os.Windows.Rows.{
  entry_of, Distinct, Finds, index_of-Finds, entry_of-append, entry_of-set, entry_of-remove_at,
  append-Distinct, set-Distinct, remove_at-Distinct,
}

abbrev pub retitled : Text → Text → Option Window → Option Window
retitled title app_id none = none
retitled title app_id (some w) = some (record w { title = title; app_id = app_id })

abbrev pub restated : Bool → Bool → Option Window → Option Window
restated minimized focused none = none
restated minimized focused (some w) = some (record w { minimized = minimized; focused = focused })

-- A window that is new to the taskbar is neither minimized nor focused.
abbrev pub added : Text → Text → Option Window → Option Window
added title app_id none =
    some (record { title = title; app_id = app_id; minimized = false; focused = false })
added title app_id (some w) = some (record w { title = title; app_id = app_id })

-- One id shows `new`, the others what they showed, and no id stands on two rows.
abbrev pub Changes : Text → Option Window → Taskbar → Taskbar → Type 0
Changes id new t u =
    ((j : Text) → entry_of j u.windows ≡ (if text_eq id j then new else entry_of j t.windows))
    × Distinct u.windows

module _ (t : Taskbar) (id : Text) (d : Distinct t.windows) where
  pub metadata_changed-Changes :
      (title app_id : Text)
      → Changes id
          (retitled title app_id (entry_of id t.windows))
          t
          (on_window_metadata_changed t id title app_id).0
  unfolding on_window_metadata_changed Finds
  metadata_changed-Changes title app_id = elim (index_of-Finds id t.windows) [
    | inl m ↦ (λ j. ground (arith, m, text_eq_iff id j), ground (arith, m))
    | inr (i, w, at, here, e, shows) ↦
        let w' : WindowEntry = record w { title = title; app_id = app_id } in
        (
          λ j. ground (
            arith,
            at,
            here,
            shows,
            entry_of-set id j t.windows {i = i} w',
            text_eq_iff id j,
            text_eq_iff w.title title,
            text_eq_iff w.app_id app_id,
          ),
          ground (arith, at, here, set-Distinct id t.windows {i = i} w'),
        )
  ]

  pub state_changed-Changes :
      (minimized focused : Bool)
      → Changes id
          (restated minimized focused (entry_of id t.windows))
          t
          (on_window_state_changed t id minimized focused).0
  unfolding on_window_state_changed Finds
  state_changed-Changes minimized focused = elim (index_of-Finds id t.windows) [
    | inl m ↦ (λ j. ground (arith, m, text_eq_iff id j), ground (arith, m))
    | inr (i, w, at, here, e, shows) ↦
        let w' : WindowEntry = record w { minimized = minimized; focused = focused } in
        (
          λ j.
              ground
                (arith, at, here, shows, entry_of-set id j t.windows {i = i} w', text_eq_iff id j),
          ground (arith, at, here, set-Distinct id t.windows {i = i} w'),
        )
  ]

  pub registered-Changes :
      (title app_id : Text)
      → Changes id
          (added title app_id (entry_of id t.windows))
          t
          (on_window_registered t id title app_id).0
  unfolding on_window_registered Finds
  registered-Changes title app_id = elim (index_of-Finds id t.windows) [
    | inl m ↦
        let w : WindowEntry = record {
          window_id = id;
          title = title;
          app_id = app_id;
          minimized = false;
          focused = false;
        } in
        (
          λ j. ground (arith, m, entry_of-append j t.windows w, text_eq_iff id j),
          ground (arith, m, append-Distinct t.windows w),
        )
    | inr (i, w, at, here, e, shows) ↦
        let c = metadata_changed-Changes title app_id in
        (λ j. ground (arith, at, shows, c.0 j), ground (arith, at, c.1))
  ]

  pub unregistered-Changes : Changes id none t (on_window_unregistered t id).0
  unfolding on_window_unregistered Finds
  unregistered-Changes = elim (index_of-Finds id t.windows) [
    | inl m ↦ (λ j. ground (arith, m, text_eq_iff id j), ground (arith, m))
    | inr (i, w, at, here, e, shows) ↦ (
      λ j. ground (arith, at, entry_of-remove_at id j t.windows {i = i}, text_eq_iff id j),
      ground (arith, at, remove_at-Distinct id t.windows {i = i}),
    )
  ]
