-- ===== src/Windows/Mirror.antt =====
-- The taskbar against the compositor's register: what the shell shows once the signals have arrived.
use nira_os.Base.{
  ◌≡◌, sym, ◌∙◌, subst, Bool, Bool-cases, true, false, ◌&&◌, same, Option, none, some, List, [],
  ◌∷◌, Text, text_eq_iff, text_eq_refl, arith, Option-cases, inl, inr,
}
use nira_os.Base.Dict
use nira_os.Windows.Registry.{
  Window, Registry, Signal, Emitted, window_registered, window_unregistered, window_state_changed,
  window_metadata_changed, activate_requested, minimize_requested, close_requested, register_window,
  unregister_window, update_window_state, update_window_metadata,
}
use nira_os.Windows.Taskbar.{
  Taskbar, on_window_registered, on_window_unregistered, on_window_state_changed,
  on_window_metadata_changed,
}
use nira_os.Windows.Rows.{entry_of, Distinct}
use nira_os.Windows.Signals.{
  Changes, retitled, restated, added, registered-Changes, unregistered-Changes,
  state_changed-Changes, metadata_changed-Changes,
}

-- What QML calls on the register.
pub data Call : Type 0 where
  registers : Text → Text → Text → Call
  unregisters : Text → Call
  sets_state : Text → Bool → Bool → Call
  sets_metadata : Text → Text → Text → Call

unfoldable pub perform : Registry → Call → Emitted
perform r (registers id title app_id) = register_window r id title app_id
perform r (unregisters id) = unregister_window r id
perform r (sets_state id minimized focused) = update_window_state r id minimized focused
perform r (sets_metadata id title app_id) = update_window_metadata r id title app_id

-- The taskbar is connected to four of the signals.
unfoldable pub deliver : Taskbar → Signal → Taskbar
deliver t (window_registered id title app_id) = (on_window_registered t id title app_id).0
deliver t (window_unregistered id) = (on_window_unregistered t id).0
deliver t (window_state_changed id minimized focused) =
    (on_window_state_changed t id minimized focused).0
deliver t (window_metadata_changed id title app_id) =
    (on_window_metadata_changed t id title app_id).0
deliver t (activate_requested id) = t
deliver t (minimize_requested id) = t
deliver t (close_requested id) = t

unfoldable pub deliver_all : Taskbar → List Signal → Taskbar
deliver_all t [] = t
deliver_all t (s ∷ ss) = deliver_all (deliver t s) ss

-- The compositor performs the calls, and the shell receives what each one emits.
unfoldable pub follow : Registry × Taskbar → List Call → Registry × Taskbar
follow (r, t) [] = (r, t)
follow (r, t) (c ∷ cs) = let (r', signals) = perform r c in follow (r', deliver_all t signals) cs

-- The taskbar has one row for each window of the register, with its title and its state.
pub record Mirrors (r : Registry) (t : Taskbar) : Type 0 where
  pub agrees : (id : Text) → entry_of id t.windows ≡ Dict.lookup id r.windows
  pub distinct : Distinct t.windows

-- A window is registered under an id that is not in use.
abbrev pub IsNew : Registry → Call → Type 0
IsNew r (registers id title app_id) = Dict.lookup id r.windows ≡ none
IsNew r _ = Unit {0}

abbrev pub AllNew : Registry → List Call → Type 0
AllNew r [] = Unit {0}
AllNew r (c ∷ cs) = IsNew r c × AllNew (perform r c).0 cs

-- One change of the taskbar under an id, seen against the register.
module _ (r : Registry) (t u : Taskbar) (id : Text) (m : Mirrors r t) where
  insert-Mirrors :
      (w : Window)
      → Changes id (some w) t u
      → Mirrors (record r { windows = Dict.insert id w r.windows }) u
  insert-Mirrors w c = record {
    agrees = λ j. ground (arith, m.agrees j, c.0 j, Dict.lookup-insert id j w r.windows);
    distinct = c.1;
  }

  erase-Mirrors : Changes id none t u → Mirrors (record r { windows = Dict.erase id r.windows }) u
  erase-Mirrors c = record {
    agrees = λ j. ground (arith, m.agrees j, c.0 j, Dict.lookup-erase id j r.windows);
    distinct = c.1;
  }

  missing-Mirrors : Dict.lookup id r.windows ≡ none → Changes id none t u → Mirrors r u
  missing-Mirrors missing c = record {
    agrees = λ j. ground (arith, missing, m.agrees j, c.0 j, text_eq_iff id j);
    distinct = c.1;
  }

  -- What the taskbar showed under the id is what the register has.
  shown :
      (f : Option Window → Option Window) (v : Option Window)
      → Dict.lookup id r.windows ≡ v
      → Changes id (f (entry_of id t.windows)) t u
      → Changes id (f v) t u
  shown f v found = subst (λ e. Changes id (f e) t u) (m.agrees id ∙ found)

-- From the result of a call, written out.
performed-Mirrors :
    (r : Registry) (t : Taskbar) (c : Call) (e : Emitted)
    → perform r c ≡ e
    → Mirrors e.0 (deliver_all t e.1)
    → Mirrors (perform r c).0 (deliver_all t (perform r c).1)
performed-Mirrors r t c e same = subst (λ (x : Emitted). Mirrors x.0 (deliver_all t x.1)) (sym same)

state-Mirrors :
    (r : Registry) (t : Taskbar) (id : Text) (minimized focused : Bool)
    → Mirrors r t
    → let (r', signals) = perform r (sets_state id minimized focused) in
      Mirrors r' (deliver_all t signals)
unfolding perform deliver_all deliver update_window_state
state-Mirrors r t id minimized focused m =
    let call = sets_state id minimized focused in
    let changed = window_state_changed id minimized focused in
    let u = (on_window_state_changed t id minimized focused).0 in
    let c = state_changed-Changes t id m.distinct minimized focused in
    elim (Option-cases (Dict.lookup id r.windows)) [
      | inl missing ↦
          performed-Mirrors r t call (r, changed ∷ []) (ground (arith, missing))
            (missing-Mirrors r t u id m missing
              (shown r t u id m (restated minimized focused) none missing c))
      | inr (w, found) ↦ elim (Bool-cases (same w.minimized minimized && same w.focused focused)) [
        | inl unchanged ↦ performed-Mirrors r t call (r, []) (ground (arith, found, unchanged)) m
        | inr differs ↦
            let w' : Window = record w { minimized = minimized; focused = focused } in
            performed-Mirrors r t call
              (record r { windows = Dict.insert id w' r.windows }, changed ∷ [])
              (ground (arith, found, differs))
              (insert-Mirrors r t u id m w'
                (shown r t u id m (restated minimized focused) (some w) found c))
      ]
    ]

metadata-Mirrors :
    (r : Registry) (t : Taskbar) (id title app_id : Text)
    → Mirrors r t
    → let (r', signals) = perform r (sets_metadata id title app_id) in
      Mirrors r' (deliver_all t signals)
unfolding perform deliver_all deliver update_window_metadata
metadata-Mirrors r t id title app_id m =
    let call = sets_metadata id title app_id in
    let changed = window_metadata_changed id title app_id in
    let u = (on_window_metadata_changed t id title app_id).0 in
    let c = metadata_changed-Changes t id m.distinct title app_id in
    elim (Option-cases (Dict.lookup id r.windows)) [
      | inl missing ↦
          performed-Mirrors r t call (r, changed ∷ []) (ground (arith, missing))
            (missing-Mirrors r t u id m missing
              (shown r t u id m (retitled title app_id) none missing c))
      | inr (w, found) ↦
          let w' : Window = record w { title = title; app_id = app_id } in
          performed-Mirrors r t call
            (record r { windows = Dict.insert id w' r.windows }, changed ∷ [])
            (ground (arith, found))
            (insert-Mirrors r t u id m w'
              (shown r t u id m (retitled title app_id) (some w) found c))
    ]

perform-Mirrors :
    (r : Registry) (t : Taskbar) (c : Call)
    → IsNew r c
    → Mirrors r t
    → Mirrors (perform r c).0 (deliver_all t (perform r c).1)
unfolding perform deliver_all deliver register_window unregister_window
perform-Mirrors r t (registers id title app_id) new m =
    insert-Mirrors r t (on_window_registered t id title app_id).0 id m _ (
      shown r t (on_window_registered t id title app_id).0 id m (added title app_id) none new
        (registered-Changes t id m.distinct title app_id))
perform-Mirrors r t (unregisters id) new m =
    erase-Mirrors r t (on_window_unregistered t id).0 id m (unregistered-Changes t id m.distinct)
perform-Mirrors r t (sets_state id minimized focused) new m =
    state-Mirrors r t id minimized focused m
perform-Mirrors r t (sets_metadata id title app_id) new m = metadata-Mirrors r t id title app_id m

-- As long as no id is registered while it is in use, a taskbar that shows the register goes on to
-- show it, window by window, after every series of calls: titles, application ids, minimized and
-- focused flags, and one row for each window.
pub follow-Mirrors :
    (r : Registry) (t : Taskbar) (cs : List Call)
    → Mirrors r t
    → AllNew r cs
    → Mirrors (follow (r, t) cs).0 (follow (r, t) cs).1
unfolding follow
follow-Mirrors r t [] m new = m
follow-Mirrors r t (c ∷ cs) m new =
    follow-Mirrors (perform r c).0 (deliver_all t (perform r c).1) cs
      (perform-Mirrors r t c new.0 m) new.1

-- Without that condition it fails: a window that is minimized and then registered again under its id
-- is no longer minimized in the register and still is on the taskbar, and setting it to its state in
-- the register sends no signal that could mend this.
pub register_again_diverges :
    (r : Registry) (t : Taskbar) (id title app_id : Text) {w : Window}
    → Mirrors r t
    → Dict.lookup id r.windows ≡ some w
    → w.minimized ≡ true
    → let cs = registers id title app_id ∷ sets_state id false false ∷ [] in
      let (r', t') = follow (r, t) cs in
      (Dict.lookup id r'.windows
        ≡ some (record { title = title; app_id = app_id; minimized = false; focused = false }))
      × (entry_of id t'.windows ≡ some (record w { title = title; app_id = app_id }))
unfolding follow perform deliver_all deliver register_window update_window_state
register_again_diverges r t id title app_id {w} m found minimized =
    let v : Window = record {
      title = title;
      app_id = app_id;
      minimized = false;
      focused = false;
    } in
    let c = registered-Changes t id m.distinct title app_id in
    let at = Dict.lookup-insert id id v r.windows in
    (
      ground (arith, at, text_eq_refl id),
      ground (arith, at, text_eq_refl id, found, m.agrees id, c.0 id),
    )
