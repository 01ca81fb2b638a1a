-- ===== src/Windows/Registry.antt =====
-- desktop/compositor/src/WindowManagerDBus.h and WindowManagerDBus.cpp: the compositor's register of
-- windows. A method returns the new register and the signals that it emitted, in order.
use nira_os.Base.{Bool, true, false, ◌&&◌, none, some, List, [], ◌∷◌, Text, same, if◌then◌else◌}
use nira_os.Base.Dict

-- `WindowRecord`
pub record Window : Type 0 where
  pub title : Text
  pub app_id : Text
  pub minimized : Bool
  pub focused : Bool

pub data Signal : Type 0 where
  window_registered : Text → Text → Text → Signal
  window_unregistered : Text → Signal
  window_state_changed : Text → Bool → Bool → Signal
  window_metadata_changed : Text → Text → Text → Signal
  activate_requested minimize_requested close_requested : Text → Signal

pub record Registry : Type 0 where
  pub registered : Bool
  pub windows : List (Text × Window)

abbrev pub Emitted : Type 0
Emitted = Registry × List Signal

-- A default-constructed `WindowRecord`.
abbrev pub no_window : Window
no_window = record { title = []; app_id = []; minimized = false; focused = false }

-- The constructor, from the answers of `registerService` and `registerObject`. The second result
-- says whether the service name was given back.
unfoldable pub init : Bool → Bool → Registry × Bool
init service_ok object_ok =
    let empty : Registry = record { registered = false; windows = [] } in
    if service_ok
    then if object_ok then (record empty { registered = true }, false) else (empty, true)
    else (empty, false)

unfoldable pub register_window : Registry → Text → Text → Text → Emitted
register_window r id title app_id =
    let w : Window = record {
      title = title;
      app_id = app_id;
      minimized = false;
      focused = false;
    } in
    (record r { windows = Dict.insert id w r.windows }, window_registered id title app_id ∷ [])

unfoldable pub unregister_window : Registry → Text → Emitted
unregister_window r id =
    (record r { windows = Dict.erase id r.windows }, window_unregistered id ∷ [])

unfoldable pub update_window_state : Registry → Text → Bool → Bool → Emitted
update_window_state r id minimized focused =
    let changed = window_state_changed id minimized focused in
    elim (Dict.lookup id r.windows) [
      | none ↦ (r, changed ∷ [])
      | some w ↦
          if same w.minimized minimized && same w.focused focused
          then (r, [])
          else (let w' : Window = record w { minimized = minimized; focused = focused } in
              (record r { windows = Dict.insert id w' r.windows }, changed ∷ []))
    ]

unfoldable pub update_window_metadata : Registry → Text → Text → Text → Emitted
update_window_metadata r id title app_id =
    let changed = window_metadata_changed id title app_id in
    elim (Dict.lookup id r.windows) [
      | none ↦ (r, changed ∷ [])
      | some w ↦
          let w' : Window = record w { title = title; app_id = app_id } in
          (record r { windows = Dict.insert id w' r.windows }, changed ∷ [])
    ]

-- What the shell asks over D-Bus is passed on to QML.
unfoldable pub activate_window : Registry → Text → Emitted
activate_window r id = (r, activate_requested id ∷ [])

unfoldable pub minimize_window : Registry → Text → Emitted
minimize_window r id = (r, minimize_requested id ∷ [])

unfoldable pub close_window : Registry → Text → Emitted
close_window r id = (r, close_requested id ∷ [])

unfoldable pub list_window_ids : Registry → List Text
list_window_ids r = Dict.keys r.windows

-- `windows_.value(id)`: the record, or a default-constructed one.
unfoldable pub window_value : Registry → Text → Window
window_value r id = elim (Dict.lookup id r.windows) [ none ↦ no_window | some w ↦ w ]

unfoldable pub window_title : Registry → Text → Text
window_title r id = (window_value r id).title

unfoldable pub window_app_id : Registry → Text → Text
window_app_id r id = (window_value r id).app_id

unfoldable pub window_minimized : Registry → Text → Bool
window_minimized r id = (window_value r id).minimized

unfoldable pub window_focused : Registry → Text → Bool
window_focused r id = (window_value r id).focused
