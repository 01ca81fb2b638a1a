-- ===== src/Ai/Status.antt =====
-- desktop/shell/src/AiClient.cpp: the status that the client shows, and the calls beside generation.
-- Each call runs on a thread of its own; here is what it has done when the interface gets its result.
use nira_os.Base.{
  ℕ, Bool, true, false, not, ◌&&◌, ◌||◌, same, List, [], ◌∷◌, ◌++◌, Text, lit, text_eq, is_empty,
  if◌then◌else◌,
}
use nira_os.Ai.{GrpcStatus}

-- The megabytes are a double, only compared and kept: any number stands for it.
pub record Status : Type 0 where
  pub active_model : Text
  pub vram_usage_mb : ℕ
  pub is_loading : Bool
  pub ai_mode : Text
  pub ai_state : Text
  pub panel_open : Bool

-- What the daemon answers to GetStatus; without an answer its fields are empty.
pub record AiStatus : Type 0 where
  pub active_model : Text
  pub vram_usage_mb : ℕ
  pub is_loading : Bool
  pub mode : Text
  pub state : Text

-- The daemon's answer to SetMode and SetInactivityTimeout.
pub record SetResponse : Type 0 where
  pub success : Bool
  pub error : Text

pub data Signal : Type 0 where
  status_changed unload_suggested : Signal
  error_occurred : Text → Signal

abbrev pub Done : Type 0
Done = Status × List Signal

unfoldable pub init : Status
init = record {
  active_model = [];
  vram_usage_mb = 0;
  is_loading = false;
  ai_mode = lit "ondemand";
  ai_state = lit "unloaded";
  panel_open = true;
}

-- `differs` is the test on doubles, by more than 0.1. Whether the call worked is not looked at.
unfoldable pub poll_status : (differs : ℕ → ℕ → Bool) → Status → AiStatus → Done
poll_status differs s answer =
    let changed =
      not (text_eq s.active_model answer.active_model)
      || (differs s.vram_usage_mb answer.vram_usage_mb
          || (not (same s.is_loading answer.is_loading)
              || (not (text_eq s.ai_mode answer.mode) || not (text_eq s.ai_state answer.state)))) in
    (
      record s {
        active_model = answer.active_model;
        vram_usage_mb =
            if differs s.vram_usage_mb answer.vram_usage_mb
            then answer.vram_usage_mb
            else s.vram_usage_mb;
        is_loading = answer.is_loading;
        ai_mode = answer.mode;
        ai_state = answer.state;
      },
      if changed then status_changed ∷ [] else [],
    )

-- The message of a call that failed: gRPC's, or else the daemon's.
unfoldable pub failure_message : GrpcStatus → SetResponse → Text
failure_message status response = if is_empty status.message then response.error else status.message

unfoldable pub set_ai_mode : Status → Text → GrpcStatus → SetResponse → Done
set_ai_mode s mode status response =
    if status.is_ok && response.success
    then (record s { ai_mode = mode }, status_changed ∷ [])
    else (s, error_occurred (lit "Failed to set AI mode: " ++ failure_message status response) ∷ [])

unfoldable pub set_inactivity_timeout : Status → GrpcStatus → SetResponse → Done
set_inactivity_timeout s status response =
    if not status.is_ok || not response.success
    then (
      s,
      error_occurred (lit "Failed to set inactivity timeout: " ++ failure_message status response)
          ∷ [],
    )
    else (s, [])

unfoldable pub suggest_unload : Status → Done
suggest_unload s = (s, unload_suggested ∷ [])

unfoldable pub on_shell_inactive : Status → Done
on_shell_inactive s = (s, if not s.panel_open then unload_suggested ∷ [] else [])
