-- ===== src/Notifications.antt =====
-- desktop/shell/src/NotificationClient.h and NotificationClient.cpp: the notifications that the shell
-- shows, the newest first. The current time is an argument, as a number.
use nira_os.Base.{
  ℕ, zero, suc, ◌+◌, ◌%◌, ◌^◌, ◌==◌, ℤ, pos, negsuc, row_of, Bool, true, false, not, ◌&&◌, ◌||◌,
  Option, none, some, List, [], ◌∷◌, ◌++◌, Text, lit, contains, is_empty, length, get_elem?,
  remove_at, if◌then◌else◌,
}
pub mod Rows
mod Tests

pub record Notification : Type 0 where
  pub id : ℕ
  pub app_name : Text
  pub summary : Text
  pub body : Text
  pub icon : Text
  pub urgency : ℕ
  pub timestamp : ℕ

pub record NotificationClient : Type 0 where
  pub notifications : List Notification
  pub next_id : ℕ

pub data Role : Type 0 where
  id_role app_name_role summary_role body_role icon_role urgency_role timestamp_role other_role :
      Role

-- The name of a role for QML, if it has one.
unfoldable pub role_name : Role → Option Text
role_name id_role = some (lit "id")
role_name app_name_role = some (lit "appName")
role_name summary_role = some (lit "summary")
role_name body_role = some (lit "body")
role_name icon_role = some (lit "icon")
role_name urgency_role = some (lit "urgency")
role_name timestamp_role = some (lit "timestamp")
role_name other_role = none

pub data Value : Type 0 where
  text : Text → Value
  number : ℕ → Value
  invalid : Value

pub data Signal : Type 0 where
  row_removed row_inserted row_changed : ℕ → Signal
  model_reset unread_count_changed : Signal
  notification_added : Text → Text → Signal

-- The arguments of the service's signal; the actions and the timeout are not used.
pub record Message : Type 0 where
  pub id : ℕ
  pub app_name : Text
  pub replaces_id : ℕ
  pub app_icon : Text
  pub summary : Text
  pub body : Text

unfoldable pub init : NotificationClient
init = record { notifications = []; next_id = 1 }

unfoldable pub row_count : NotificationClient → Bool → ℕ
row_count s parent_is_valid = if parent_is_valid then 0 else length s.notifications

unfoldable pub unread_count : NotificationClient → ℕ
unread_count s = length s.notifications

unfoldable pub notification_data : Notification → Role → Value
notification_data n id_role = number n.id
notification_data n app_name_role = text n.app_name
notification_data n summary_role = text n.summary
notification_data n body_role = text n.body
notification_data n icon_role = text n.icon
notification_data n urgency_role = number n.urgency
notification_data n timestamp_role = number n.timestamp
notification_data n other_role = invalid

unfoldable pub model_data : NotificationClient → Option ℕ → Role → Value
model_data s none role = invalid
model_data s (some row) role = elim (get_elem? s.notifications row) [
  | none ↦ invalid
  | some n ↦ notification_data n role
]

abbrev pub Done : Type 0
Done = NotificationClient × List Signal

-- The result of `dismiss` stands before its effects.
unfoldable pub dismiss_at : NotificationClient → ℕ → Option Notification → Bool × Done
dismiss_at s row none = (false, (s, []))
dismiss_at s row (some n) = (
  true,
  (
    record s { notifications = remove_at s.notifications row },
    row_removed row ∷ unread_count_changed ∷ [],
  ),
)

unfoldable pub dismiss : NotificationClient → ℤ → Bool × Done
dismiss s (negsuc n) = (false, (s, []))
dismiss s (pos row) = dismiss_at s row (get_elem? s.notifications row)

unfoldable pub dismiss_all : NotificationClient → Done
dismiss_all s =
    if is_empty s.notifications
    then (s, [])
    else (record s { notifications = [] }, model_reset ∷ unread_count_changed ∷ [])

abbrev pub replaced : Notification → Message → ℕ → Notification
replaced n m now = record n {
  app_name = m.app_name;
  summary = m.summary;
  body = m.body;
  icon = m.app_icon;
  timestamp = now;
}

-- A row further down.
abbrev pub below : Notification → Option (ℕ × List Notification) → Option (ℕ × List Notification)
below n none = none
below n (some (i, later)) = some (suc i, n ∷ later)

-- The loop that replaces the first notification with the id: its row, and the list then.
unfoldable pub replace : Message → ℕ → List Notification → Option (ℕ × List Notification)
replace m now [] = none
replace m now (n ∷ ns) =
    let rest = replace m now ns in
    if n.id == m.replaces_id then some (0, replaced n m now ∷ ns) else below n rest

unfoldable pub urgency_of : (to_lower : Text → Text) → Message → ℕ
urgency_of to_lower m =
    let low = to_lower (m.summary ++ (32 ∷ m.body)) in
    if contains low (lit "critical") || contains low (lit "error") then 2 else 1

-- A `uint` that is counted up wraps.
unfoldable pub add_notification : (to_lower : Text → Text) → NotificationClient → Message → ℕ → Done
add_notification to_lower s m now =
    let n : Notification = record {
      id = if not (m.id == 0) then m.id else s.next_id;
      app_name = m.app_name;
      summary = m.summary;
      body = m.body;
      icon = m.app_icon;
      urgency = urgency_of to_lower m;
      timestamp = now;
    } in
    (
      record {
        notifications = n ∷ s.notifications;
        next_id = if not (m.id == 0) then s.next_id else (s.next_id + 1) % 2 ^ 32;
      },
      row_inserted 0 ∷ unread_count_changed ∷ notification_added m.summary m.body ∷ [],
    )

unfoldable pub on_notification_added :
    (to_lower : Text → Text) → NotificationClient → Message → ℕ → Done
on_notification_added to_lower s m now =
    let found = if not (m.replaces_id == 0) then replace m now s.notifications else none in
    elim found [
      | none ↦ add_notification to_lower s m now
      | some (i, later) ↦ (
        record s { notifications = later },
        row_changed i ∷ notification_added m.summary m.body ∷ [],
      )
    ]
