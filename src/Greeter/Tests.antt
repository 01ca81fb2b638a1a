-- ===== src/Greeter/Tests.antt =====
-- A login with a small codec, and the theorems about the greeter at concrete data.
use nira_os.Base.{
  ◌≤◌, ◌≡◌, refl, false, true, some, List, [], ◌∷◌, ◌++◌, Text, lit, text_eq, any, count_if, arith,
}
use nira_os.Greeter.{
  Library, Greeter, Request, create_session, post_response, start_session, Message, init,
  on_ready_read, starting_session, start_auth, send_create_session, begin_session, on_payload,
  drain,
}
use nira_os.Greeter.Wire.{frame, next_frame}
use nira_os.Greeter.Framing.{
  Splits, done, more, with_buffer, handle_all, on_ready_read-append, on_ready_read-frames, frames,
  andthen,
}
use nira_os.Greeter.Session.{
  Event, auth_starts, socket_connected, session_starts, bytes_arrive, step, run, Inv, run-Inv,
}
use nira_os.Greeter.Login.{starts_session, no_session_without_success}
use nira_os.Greeter.Credential.{carries_credential, credential_sent_once}

-- A message is its kind, and a request is one byte.
abbrev message : Text → Message
message kind = record { kind = kind; auth_message = []; auth_message_type = []; description = [] }

abbrev byte_of : Request → Text
byte_of (create_session _) = 1 ∷ []
byte_of (post_response _) = 2 ∷ []
byte_of start_session = 3 ∷ []

abbrev plain : Library
plain = record { trimmed = λ t. t; encode = byte_of; decode = λ p. some (message p) }

abbrev login : List Event
login =
    auth_starts (lit "ada") (lit "secret")
    ∷ socket_connected
    ∷ bytes_arrive (frame (lit "auth_message"))
    ∷ bytes_arrive (frame (lit "success"))
    ∷ session_starts
    ∷ []

whole_login :
    ((run plain (init []) login).0.phase ≡ starting_session)
    × (any starts_session (run plain (init []) login).1 ≡ true)
    × (count_if carries_credential (run plain (init []) login).1 ≡ 1)
unfolding run step init on_ready_read drain on_payload lit text_eq frame next_frame start_auth
    send_create_session begin_session
whole_login = (refl, refl, refl)

run-Inv_example : Inv (run plain (init []) login).0
run-Inv_example = run-Inv plain login []

-- greetd asks for the password, and then says that it is wrong.
abbrev refused : List Event
refused =
    auth_starts (lit "ada") (lit "secret")
    ∷ socket_connected
    ∷ bytes_arrive (frame (lit "auth_message"))
    ∷ bytes_arrive (frame (lit "error"))
    ∷ session_starts
    ∷ []

no_session_without_success_example :
    ((run plain (init []) refused).0.authenticated ≡ false)
    × (any starts_session (run plain (init []) refused).1 ≡ false)
no_session_without_success_example = no_session_without_success plain refused [] (
    unfold step init on_ready_read drain on_payload lit text_eq frame next_frame start_auth
      send_create_session begin_session in
    refl)

abbrev prompted : Greeter
prompted = (start_auth plain (init []) (lit "ada") (lit "secret")).0

abbrev greetd : List Event
greetd =
    socket_connected
    ∷ bytes_arrive (frame (lit "auth_message") ++ frame (lit "auth_message"))
    ∷ session_starts
    ∷ []

credential_sent_once_example : count_if carries_credential (run plain prompted greetd).1 ≤ 1
credential_sent_once_example = credential_sent_once plain prompted greetd (tt, (tt, (tt, tt)))

on_ready_read-frames_example :
    on_ready_read plain (init []) (frames (lit "success" ∷ lit "error" ∷ []) ++ (7 ∷ [])) ≡ (
      with_buffer (handle_all plain (lit "success" ∷ lit "error" ∷ []) (init [])).0 (7 ∷ []),
      (handle_all plain (lit "success" ∷ lit "error" ∷ []) (init [])).1,
    )
unfolding init lit next_frame
on_ready_read-frames_example =
    on_ready_read-frames plain (init []) (lit "success" ∷ lit "error" ∷ []) (7 ∷ []) refl
      ((omega arith, omega arith), ((omega arith, omega arith), tt)) refl

first_part-Splits :
    Splits
      ((init []).read_buffer ++ (frame (lit "success") ++ (5 ∷ [])))
      (lit "success" ∷ [])
      (5 ∷ [])
unfolding init lit next_frame frame
first_part-Splits = more {payload = lit "success"} {rest = 5 ∷ []} refl (done refl)

on_ready_read-append_example :
    let a = frame (lit "success") ++ (5 ∷ []) in
    let b : Text = 0 ∷ 0 ∷ [] in
    on_ready_read plain (init []) (a ++ b)
    ≡ andthen plain (on_ready_read plain (init []) a) (λ t. on_ready_read plain t b)
on_ready_read-append_example =
    on_ready_read-append plain (init []) (frame (lit "success") ++ (5 ∷ [])) (0 ∷ 0 ∷ [])
      first_part-Splits
