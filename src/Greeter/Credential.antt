-- ===== src/Greeter/Credential.antt =====
-- The password that a login attempt stores is sent at most once.
use nira_os.Base.{
  ℕ, Bool, true, false, some, List, Text, ◌+◌, ◌≤◌, arith, count_if, count_if-append, All,
  if◌then◌else◌,
}
use nira_os.Greeter.{
  Library, Greeter, Result, Effect, written, post_response, send_create_session, begin_session,
  on_payload, reject_stream, on_error,
}
use nira_os.Greeter.Framing.{with_buffer}
use nira_os.Greeter.Session.{
  Event, auth_starts, password_submitted, bytes_arrive, step, run, IsChained, on_ready_read-chained,
  run-chained,
}

abbrev pub carries_credential : Effect → Bool
carries_credential (written (post_response (some _)) _) = true
carries_credential _ = false

-- How many credentials may still go out for this attempt.
abbrev credit : Greeter → ℕ
credit s = if s.credential_submitted then 0 else 1

abbrev Spends : Greeter → Result → Type 0
Spends s m = count_if carries_credential m.1 + credit m.0 ≤ credit s

Spends-chained : IsChained Spends
Spends-chained = record {
  stays = λ s. omega arith;
  chains = λ s m n f g. omega (arith, f, g, count_if-append carries_credential m.1 n.1);
}

-- Events other than a new attempt and a password that the user types at a prompt.
abbrev pub IsUnprompted : Event → Type 0
IsUnprompted (auth_starts _ _) = ⊥
IsUnprompted (password_submitted _) = ⊥
IsUnprompted _ = Unit {0}

module _ (lib : Library) where
  on_payload-Spends :
      (s : Greeter) (rest p : Text) → Spends s (on_payload lib (with_buffer s rest) p)
  unfolding on_payload
  on_payload-Spends s rest p = ground arith

  step-Spends : (s : Greeter) (e : Event) → IsUnprompted e → Spends s (step lib s e)
  unfolding step begin_session send_create_session on_error
  step-Spends s (auth_starts username password) h = absurd h
  step-Spends s (password_submitted password) h = absurd h
  step-Spends s (bytes_arrive chunk) h =
      on_ready_read-chained lib Spends Spends-chained on_payload-Spends
        (unfold reject_stream in λ s. ground arith) (λ s b. omega arith) s chunk
  step-Spends s e h = ground arith

  -- Whatever greetd sends, the credential of one attempt is written to the socket at most once
  -- until the user starts over or types a password.
  pub credential_sent_once :
      (s : Greeter) (es : List Event)
      → All IsUnprompted es
      → count_if carries_credential (run lib s es).1 ≤ 1
  credential_sent_once s es h =
      ground (arith, run-chained lib Spends Spends-chained IsUnprompted step-Spends s es h)
