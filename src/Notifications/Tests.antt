-- ===== src/Notifications/Tests.antt =====
-- One instance of each theorem on the notifications.
use nira_os.Base.{ℕ, [], ◌∷◌}
use nira_os.Notifications.{Notification, NotificationClient, Message}

abbrev note : ℕ → Notification
note id = record {
  id = id;
  app_name = [];
  summary = [];
  body = [];
  icon = [];
  urgency = 1;
  timestamp = 0;
}

abbrev two_notes : NotificationClient
two_notes = record { notifications = note 7 ∷ note 3 ∷ []; next_id = 1 }

abbrev update : Message
update = record {
  id = 9;
  app_name = [];
  replaces_id = 3;
  app_icon = [];
  summary = 97 ∷ [];
  body = [];
}
