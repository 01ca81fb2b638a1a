-- ===== src/Settings.antt =====
-- desktop/settings/src/SettingsClient.h and SettingsClient.cpp: reading and writing a setting of the
-- settings service. Each call runs on a thread of its own; here is what is signalled at its end.
use nira_os.Base.{Bool, false, [], Text, lit, if◌then◌else◌}

-- The services' answers.
pub record GetResponse : Type 0 where
  pub value : Text
  pub exists : Bool

pub record SetResponse : Type 0 where
  pub success : Bool
  pub error : Text

pub data Signal : Type 0 where
  setting_value_received : Text → Text → Bool → Signal
  setting_saved : Text → Bool → Text → Signal

unfoldable pub get_setting : Text → (is_ok : Bool) → GetResponse → Signal
get_setting key is_ok response =
    if is_ok
    then setting_value_received key response.value response.exists
    else setting_value_received key [] false

unfoldable pub set_setting : Text → (is_ok : Bool) → SetResponse → Signal
set_setting key is_ok response =
    if is_ok
    then setting_saved key response.success response.error
    else setting_saved key false (lit "gRPC call failed")
