-- ===== src/Windows/Taskbar.antt =====
-- desktop/shell/src/TaskbarModel.h and TaskbarModel.cpp: the shell's list of open windows, as the
-- compositor's signals and replies build it. `iface` says whether the proxy object exists.
use nira_os.Base.{
  ℕ, suc, ◌-◌, ◌==◌, Bool, false, not, ◌&&◌, Option, none, some, List, [], ◌∷◌, ◌++◌, Text, lit,
  text_eq, same, length, get_elem?, set, remove_at, ℤ, row_of, if◌then◌else◌,
}

pub data Role : Type 0 where
  window_id_role title_role app_id_role is_minimized_role is_focused_role other_role : Role

-- The name of a role for QML, if it has one.
unfoldable pub role_name : Role → Option Text
role_name window_id_role = some (lit "windowId")
role_name title_role = some (lit "title")
role_name app_id_role = some (lit "appId")
role_name is_minimized_role = some (lit "isMinimized")
role_name is_focused_role = some (lit "isFocused")
role_name other_role = none

-- What `data` returns: nothing is an invalid `QVariant`.
pub data Value : Type 0 where
  nothing : Value
  text : Text → Value
  flag : Bool → Value

pub record WindowEntry : Type 0 where
  pub window_id : Text
  pub title : Text
  pub app_id : Text
  pub minimized : Bool
  pub focused : Bool

pub record Taskbar : Type 0 where
  pub iface : Bool
  pub windows : List WindowEntry
  pub last_focused_window_id : Text

-- Model signals, and D-Bus calls by their method's name.
pub data Effect : Type 0 where
  rows_inserted rows_removed : ℕ → ℕ → Effect
  data_changed : ℕ → List Role → Effect
  called : Text → Text → Effect

abbrev pub Result : Type 0
Result = Taskbar × List Effect

-- `indexOf`, with -1 as `none`.
unfoldable pub index_of : Text → List WindowEntry → Option ℕ
index_of id [] = none
index_of id (w ∷ ws) =
    let rest = index_of id ws in
    if text_eq w.window_id id
    then some 0
    else elim rest as (λ _. Option ℕ) [ none ↦ none | some i ↦ some (suc i) ]

unfoldable pub row_count : Bool → Taskbar → ℕ
row_count parent_is_valid t = if parent_is_valid then 0 else length t.windows

-- An invalid index is `none`.
unfoldable pub model_data : Taskbar → Option ℕ → Role → Value
model_data t none role = nothing
model_data t (some row) role = elim (get_elem? t.windows row) [
  | none ↦ nothing
  | some w ↦ elim role as (λ _. Value) [
    | window_id_role ↦ text w.window_id
    | title_role ↦ text w.title
    | app_id_role ↦ text w.app_id
    | is_minimized_role ↦ flag w.minimized
    | is_focused_role ↦ flag w.focused
    | other_role ↦ nothing
  ]
]

unfoldable pub on_window_metadata_changed : Taskbar → Text → Text → Text → Result
on_window_metadata_changed t id title app_id = elim (index_of id t.windows) [
  | none ↦ (t, [])
  | some i ↦ elim (get_elem? t.windows i) [
    | none ↦ (t, [])
    | some w ↦ if text_eq w.title title && text_eq w.app_id app_id then (t, []) else (
      record t { windows = set t.windows i (record w { title = title; app_id = app_id }) },
      data_changed i (title_role ∷ app_id_role ∷ []) ∷ [],
    )
  ]
]

unfoldable pub on_window_registered : Taskbar → Text → Text → Text → Result
on_window_registered t id title app_id = elim (index_of id t.windows) [
  | some _ ↦ on_window_metadata_changed t id title app_id
  | none ↦
      let w : WindowEntry = record {
        window_id = id;
        title = title;
        app_id = app_id;
        minimized = false;
        focused = false;
      } in
      (
        record t { windows = t.windows ++ (w ∷ []) },
        rows_inserted (length t.windows) (length t.windows) ∷ [],
      )
]

unfoldable pub on_window_unregistered : Taskbar → Text → Result
on_window_unregistered t id = elim (index_of id t.windows) [
  | none ↦ (t, [])
  | some i ↦ (record t { windows = remove_at t.windows i }, rows_removed i i ∷ [])
]

unfoldable pub on_window_state_changed : Taskbar → Text → Bool → Bool → Result
on_window_state_changed t id minimized focused = elim (index_of id t.windows) [
  | none ↦ (t, [])
  | some i ↦ elim (get_elem? t.windows i) [
    | none ↦ (t, [])
    | some w ↦ if same w.minimized minimized && same w.focused focused then (t, []) else (
      record t {
        windows = set t.windows i (record w { minimized = minimized; focused = focused });
        last_focused_window_id = if focused then id else t.last_focused_window_id;
      },
      data_changed i (is_minimized_role ∷ is_focused_role ∷ []) ∷ [],
    )
  ]
]

-- The calls that QML makes for a row.
abbrev call_row : Taskbar → ℤ → (WindowEntry → Text) → List Effect
call_row t row method = elim (row_of t.windows row) [
  | none ↦ []
  | some w ↦ if t.iface then called (method w) w.window_id ∷ [] else []
]

unfoldable pub activate : Taskbar → ℤ → List Effect
activate t row = call_row t row (λ w. lit "ActivateWindow")

unfoldable pub minimize : Taskbar → ℤ → List Effect
minimize t row = call_row t row (λ w. lit "MinimizeWindow")

unfoldable pub close : Taskbar → ℤ → List Effect
close t row = call_row t row (λ w. lit "CloseWindow")

unfoldable pub toggle : Taskbar → ℤ → List Effect
toggle t row = call_row t row λ w.
    if not w.minimized && text_eq w.window_id t.last_focused_window_id
    then lit "MinimizeWindow"
    else lit "ActivateWindow"

-- `PendingData`: what the replies about one window have brought so far.
pub record PendingData : Type 0 where
  pub remaining : ℕ
  pub title : Text
  pub app_id : Text
  pub minimized : Bool
  pub focused : Bool

abbrev pub fresh : PendingData
fresh = record { remaining = 4; title = []; app_id = []; minimized = false; focused = false }

-- A finished call of WindowTitle, WindowAppId, WindowMinimized or WindowFocused; `none` is an error.
pub data Reply : Type 0 where
  title_reply app_id_reply : Option Text → Reply
  minimized_reply focused_reply : Option Bool → Reply

abbrev or_keep {ℓ} : {A : Type ℓ} → Option A → A → A
or_keep none old = old
or_keep (some new) old = new

unfoldable pub collect : PendingData → Reply → PendingData
collect d (title_reply r) = record d { title = or_keep r d.title }
collect d (app_id_reply r) = record d { app_id = or_keep r d.app_id }
collect d (minimized_reply r) = record d { minimized = or_keep r d.minimized }
collect d (focused_reply r) = record d { focused = or_keep r d.focused }

-- The four lambdas that the constructor connects: the last reply adds the window.
unfoldable pub on_reply : Text → Taskbar × PendingData → Reply → Taskbar × PendingData
unfolding collect
on_reply id (t, d) r =
    let e = collect d r in
    let e' : PendingData = record e { remaining = e.remaining - 1 } in
    if e'.remaining == 0
    then (let t' = (on_window_registered t id e.title e.app_id).0 in
        ((on_window_state_changed t' id e.minimized e.focused).0, e'))
    else (t, e')
