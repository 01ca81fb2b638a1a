-- ===== src/Greeter.antt =====
-- desktop/greeter/src/GreeterIPC.h and GreeterIPC.cpp: the login screen's connection to greetd.
-- A method returns the new object and what it emitted, asked of the socket or wrote, in order.
-- The JSON codec and `QString::trimmed` are Qt's, and enter as the record `Library`. The socket's
-- state changes by `abort`, by `connectToServer` and by its own `connected` signal. The length prefix
-- is little-endian, as on the x86-64 images that are built.
pub mod Wire
pub mod Framing
pub mod Session
pub mod Login
pub mod Credential
mod Tests
use nira_os.Base.{
  ℕ, zero, suc, ◌+◌, ◌==◌, ltb, Bool, true, false, not, ◌&&◌, ◌||◌, Option, none, some, List, [],
  ◌∷◌, ◌++◌, Text, lit, text_eq, is_empty, length, if◌then◌else◌,
}
use Wire.{Frame, incomplete, invalid, whole, next_frame, frame}

pub data Phase : Type 0 where
  idle creating_session authenticating authenticated starting_session : Phase

pub data Socket : Type 0 where
  unconnected connecting connected : Socket

-- The JSON objects that the greeter sends. A response without a credential has no text.
pub data Request : Type 0 where
  create_session : Text → Request
  post_response : Option Text → Request
  start_session : Request

-- What `value(key).toString()` reads from a JSON object: the empty text for a missing key.
pub record Message : Type 0 where
  pub kind : Text
  pub auth_message : Text
  pub auth_message_type : Text
  pub description : Text

pub record Library : Type 0 where
  pub trimmed : Text → Text
  pub encode : Request → Text
  -- No object: a parse error, or a document of another kind.
  pub decode : Text → Option Message

-- `written` has the request beside the bytes that stand for it.
pub data Effect : Type 0 where
  status_changed auth_succeeded abort_socket : Effect
  auth_failed connect_socket : Text → Effect
  written : Request → Text → Effect

pub record Greeter : Type 0 where
  pub socket : Socket
  pub socket_path : Text
  pub current_user : Text
  pub pending_password : Text
  pub status_message : Text
  pub authenticated : Bool
  pub awaiting_response : Bool
  pub credential_submitted : Bool
  pub phase : Phase
  pub read_buffer : Text

abbrev pub Result : Type 0
Result = Greeter × List Effect

abbrev pub is_connected : Socket → Bool
is_connected connected = true
is_connected _ = false

abbrev pub is_unconnected : Socket → Bool
is_unconnected unconnected = true
is_unconnected _ = false

abbrev pub same_phase : Phase → Phase → Bool
same_phase idle idle = true
same_phase creating_session creating_session = true
same_phase authenticating authenticating = true
same_phase authenticated authenticated = true
same_phase starting_session starting_session = true
same_phase _ _ = false

-- The constructor, after it has read GREETD_SOCK.
unfoldable pub init : Text → Greeter
init env = record {
  socket = unconnected;
  socket_path = if is_empty env then lit "/run/greetd.sock" else env;
  current_user = [];
  pending_password = [];
  status_message = [];
  authenticated = false;
  awaiting_response = false;
  credential_submitted = false;
  phase = idle;
  read_buffer = [];
}

unfoldable pub busy : Greeter → Bool
busy s =
    same_phase s.phase creating_session
    || (same_phase s.phase authenticating && not s.awaiting_response)
    || same_phase s.phase starting_session

module _ (lib : Library) where
  unfoldable pub send_json : Greeter → Request → List Effect
  send_json s r = if is_connected s.socket then written r (frame (lib.encode r)) ∷ [] else []

  unfoldable pub start_auth : Greeter → Text → Text → Result
  start_auth s username password =
      let requested_user = lib.trimmed username in
      let refusal = lit "Username cannot be empty." in
      if is_empty requested_user
      then (record s { status_message = refusal }, status_changed ∷ auth_failed refusal ∷ [])
      else (
        record s {
          socket = connecting;
          read_buffer = [];
          current_user = requested_user;
          pending_password = password;
          credential_submitted = false;
          awaiting_response = false;
          authenticated = false;
          phase = creating_session;
          status_message = lit "Connecting...";
        },
        (if is_unconnected s.socket then [] else abort_socket ∷ [])
            ++ (status_changed ∷ connect_socket s.socket_path ∷ []),
      )

  unfoldable pub send_create_session : Greeter → Result
  unfolding send_json
  send_create_session s = if not (same_phase s.phase creating_session) then (s, []) else (
    record s { status_message = lit "Authenticating..." },
    send_json s (create_session s.current_user) ++ (status_changed ∷ []),
  )

  unfoldable pub submit_password : Greeter → Text → Result
  unfolding send_json
  submit_password s password =
      if not (same_phase s.phase creating_session) && not (same_phase s.phase authenticating)
      then (s, [])
      else (
        record s { phase = authenticating; credential_submitted = true; awaiting_response = false },
        send_json s (post_response (some password)),
      )

  unfoldable pub begin_session : Greeter → Result
  unfolding send_json
  begin_session s = if not (same_phase s.phase authenticated) then (s, []) else (
    record s { phase = starting_session; status_message = lit "Starting session..." },
    status_changed ∷ send_json s start_session,
  )

  unfoldable pub on_auth_message : Greeter → Message → Result
  unfolding submit_password
  on_auth_message s m =
      let status = if is_empty m.auth_message then lit "Password:" else m.auth_message in
      let t = record s { status_message = status } in
      let message_type = m.auth_message_type in
      let requests_credential =
        is_empty message_type
        || text_eq message_type (lit "secret")
        || text_eq message_type (lit "visible") in
      if requests_credential && not s.credential_submitted
      then (let (u, out) =
            submit_password (record t { pending_password = [] }) s.pending_password in
          (u, status_changed ∷ out))
      else if requests_credential
      then (record t { awaiting_response = true }, status_changed ∷ status_changed ∷ [])
      else if text_eq message_type (lit "info") || text_eq message_type (lit "error")
      then (t, status_changed ∷ send_json t (post_response none))
      else (t, status_changed ∷ [])

  unfoldable pub on_success : Greeter → Result
  on_success s =
      if same_phase s.phase starting_session
      then (record s { status_message = lit "Session started" }, status_changed ∷ [])
      else (
        record s {
          phase = authenticated;
          authenticated = true;
          awaiting_response = false;
          pending_password = [];
          status_message = lit "Authentication successful";
        },
        status_changed ∷ auth_succeeded ∷ [],
      )

  unfoldable pub on_failure : Greeter → Message → Result
  on_failure s m =
      let reason = if is_empty m.description then lit "Authentication failed." else m.description in
      (
        record s {
          phase = idle;
          authenticated = false;
          awaiting_response = false;
          pending_password = [];
          status_message = reason;
        },
        status_changed ∷ auth_failed reason ∷ [],
      )

  unfoldable pub handle_message : Greeter → Message → Result
  unfolding on_auth_message on_success on_failure
  handle_message s m =
      if text_eq m.kind (lit "auth_message")
      then on_auth_message s m
      else if text_eq m.kind (lit "success")
      then on_success s
      else if text_eq m.kind (lit "error")
      then on_failure s m
      else (s, [])

  -- A payload that is no JSON object is dropped with a warning.
  unfoldable pub on_payload : Greeter → Text → Result
  unfolding handle_message
  on_payload s payload = elim (lib.decode payload) [ none ↦ (s, []) | some m ↦ handle_message s m ]

  unfoldable pub reject_stream : Greeter → Result
  reject_stream s =
      let reason = lit "Invalid response from the login service." in
      (
        record s {
          socket = unconnected;
          status_message = reason;
          phase = idle;
          authenticated = false;
          awaiting_response = false;
          read_buffer = [];
        },
        abort_socket ∷ status_changed ∷ auth_failed reason ∷ [],
      )

  -- The loop of `onReadyRead`, on fuel: each round takes at least five bytes off the buffer.
  unfoldable pub drain : ℕ → Greeter → Result
  drain zero s = (s, [])
  drain (suc fuel) s = elim (next_frame s.read_buffer) [
    | incomplete ↦ (s, [])
    | invalid ↦ reject_stream s
    | whole payload rest ↦
        let (t, out) = on_payload (record s { read_buffer = rest }) payload in
        let (u, more) = drain fuel t in (u, out ++ more)
  ]

  unfoldable pub on_ready_read : Greeter → Text → Result
  on_ready_read s chunk =
      let buffer = s.read_buffer ++ chunk in
      drain (suc (length buffer)) (record s { read_buffer = buffer })

  -- The argument is the socket's `errorString`.
  unfoldable pub on_error : Greeter → Text → Result
  on_error s error_string =
      let reason = lit "Connection error: " ++ error_string in
      if same_phase s.phase starting_session then (s, []) else (
        record s {
          status_message = reason;
          phase = idle;
          authenticated = false;
          awaiting_response = false;
          pending_password = [];
        },
        status_changed ∷ auth_failed reason ∷ [],
      )
