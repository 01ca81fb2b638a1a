-- ===== src/Ai.antt =====
-- desktop/shell/src/AiClient.h and AiClient.cpp: the shell's client of the AI daemon. This file is the
-- generation of an answer, by a worker thread beside the thread of the user interface; Status has the
-- rest. A step is what one thread does from one wait or lock to the next. Contexts of gRPC have
-- numbers, so that the use of one that is destroyed, which is undefined, can be told from that of one
-- that is alive.
use nira_os.Base.{
  ℕ, suc, ◌+◌, ◌*◌, ◌==◌, ltb, any, ℤ, Bool, true, false, not, ◌&&◌, Option, none, some, List, [],
  ◌∷◌, ◌++◌, Text, lit, is_empty, if◌then◌else◌,
}
pub mod Status
pub mod Contexts
pub mod Ownership
pub mod Lifetime
pub mod Defined
pub mod Streams
mod Tests

-- The temperature, a double, is only passed on: any number stands for it.
pub record Request : Type 0 where
  pub prompt : Text
  pub temperature : ℕ
  pub max_tokens : ℤ

pub record Response : Type 0 where
  pub text : Text
  pub is_finished : Bool

pub record GrpcStatus : Type 0 where
  pub is_ok : Bool
  pub is_cancelled : Bool
  pub message : Text

pub data Signal : Type 0 where
  token_received error_occurred : Text → Signal
  generation_finished : Signal

-- Where the worker stands in `runGeneration`: before the first lock, between the two locks, before
-- and in the stream, behind the loop, at its end. The number is the context that it points to. In
-- `undefined` it has used a context that is destroyed: what the program does from there on is not
-- defined, and no step leads out.
pub data Phase : Type 0 where
  starting registered ended undefined : Phase
  opening reading finishing : ℕ → Phase

-- What the thread of the user interface waits for.
pub data Gui : Type 0 where
  idle destroying : Gui
  joining : Request → Gui

pub record AiClient : Type 0 where
  pub gui : Gui
  pub phase : Phase
  pub request : Option Request
  pub worker_stop : Bool
  pub generation_active : Bool
  pub active_context : Option ℕ
  pub next_context : ℕ
  pub destroyed : List ℕ
  pub queued : List Signal

-- Emitted signals, and the call that opens a stream.
pub data Effect : Type 0 where
  emitted : Signal → Effect
  opened : Option Request → Effect

abbrev pub Done : Type 0
Done = AiClient × List Effect

-- Before the first generation there is no worker to wait for, as after the end of one.
unfoldable pub init : AiClient
init = record {
  gui = idle;
  phase = ended;
  request = none;
  worker_stop = false;
  generation_active = false;
  active_context = none;
  next_context = 0;
  destroyed = [];
  queued = [];
}

abbrev pub with_destroyed : Option ℕ → List ℕ → List ℕ
with_destroyed none contexts = contexts
with_destroyed (some c) contexts = c ∷ contexts

-- `activeContext_.reset()`, which destroys the context if there is one.
unfoldable pub release : AiClient → AiClient
release s = record s {
  active_context = none;
  destroyed = with_destroyed s.active_context s.destroyed;
}

unfoldable pub post : AiClient → Signal → AiClient
post s signal = record s { queued = s.queued ++ signal ∷ [] }

unfoldable pub start_worker : AiClient → Request → AiClient
start_worker s request = record s {
  gui = idle;
  phase = starting;
  request = some request;
  generation_active = true;
}

abbrev pub is_ended : Phase → Bool
is_ended ended = true
is_ended phase = false

-- The end of `streamGenerate`, if the worker before has come to its end.
unfoldable pub join_then_start : AiClient → Request → AiClient
join_then_start s request =
    if is_ended s.phase then start_worker s request else record s { gui = joining request }

module _ (trimmed : Text → Text) (utf8_size : Text → ℕ) where
  -- A worker's context is cancelled before it is waited for.
  unfoldable pub stream_generate : AiClient → Request → Done
  stream_generate s request =
      let prompt = trimmed request.prompt in
      if is_empty prompt
      then (s, emitted (error_occurred (lit "Enter a prompt before sending.")) ∷ [])
      else if ltb (32 * 1024) (utf8_size prompt)
      then (s, emitted (error_occurred (lit "The prompt exceeds the 32 KiB request limit.")) ∷ [])
      else (join_then_start (release s) (record request { prompt = prompt }), [])

-- The destructor, up to the wait for the worker.
unfoldable pub destroy : AiClient → AiClient
destroy s = release (record s { worker_stop = true; gui = destroying })

unfoldable pub register_context : AiClient → AiClient
register_context s = if s.worker_stop then record s { phase = ended } else record s {
  phase = registered;
  active_context = some s.next_context;
  next_context = s.next_context + 1;
}

unfoldable pub look_up_context : AiClient → AiClient
look_up_context s = elim s.active_context [
  | none ↦ record s { phase = ended }
  | some c ↦ record s { phase = opening c }
]

unfoldable pub open_stream : AiClient → ℕ → Bool → Done
open_stream s c has_reader =
    if not has_reader
    then (
      record (post (release s) (error_occurred (lit "Failed to initiate AI stream."))) {
        phase = ended;
        generation_active = false;
      },
      opened s.request ∷ [],
    )
    else (record s { phase = reading c }, opened s.request ∷ [])

unfoldable pub take_response : AiClient → ℕ → Response → AiClient
take_response s c response =
    if s.worker_stop
    then record (release s) { phase = ended; generation_active = false }
    else if response.is_finished
    then record (post s generation_finished) { phase = finishing c }
    else if not (is_empty response.text)
    then post s (token_received response.text)
    else s

-- One round of the loop with a context that is alive, as `work` asks for; nothing is read when the
-- stream is over.
unfoldable pub read_stream : AiClient → ℕ → Option Response → AiClient
read_stream s c none = record s { phase = finishing c }
read_stream s c (some response) = take_response s c response

unfoldable pub finish_stream : AiClient → GrpcStatus → AiClient
finish_stream s status = record (release s) {
  queued =
      if not status.is_ok && (not status.is_cancelled && not s.worker_stop)
      then s.queued ++ error_occurred status.message ∷ []
      else s.queued;
  phase = ended;
  generation_active = false;
}

-- What the threads do, in any order that they allow.
pub data Event : Type 0 where
  generate : Request → Event
  destroyed_by_owner joined delivered registers looks_up : Event
  opens : Bool → Event
  reads : Option Response → Event
  finishes : GrpcStatus → Event

abbrev pub is_idle : Gui → Bool
is_idle idle = true
is_idle gui = false

-- The user interface goes on after its wait.
unfoldable pub join_worker : AiClient → Gui → AiClient
join_worker s (joining request) = join_then_start s request
join_worker s idle = s
join_worker s destroying = s

unfoldable pub deliver : AiClient → List Signal → Done
deliver s [] = (s, [])
deliver s (signal ∷ queued) =
    if is_idle s.gui then (record s { queued = queued }, emitted signal ∷ []) else (s, [])

-- A use of a context by gRPC, which must be alive: `StreamGenerate`, `Read` and `Finish`.
unfoldable pub with_context : AiClient → ℕ → Done → Done
with_context s c done =
    if any (λ d. d == c) s.destroyed then (record s { phase = undefined }, []) else done

-- What the worker does in its phase; an event of another phase does nothing.
unfoldable pub work : AiClient → Phase → Event → Done
work s starting registers = (register_context s, [])
work s registered looks_up = (look_up_context s, [])
work s (opening c) (opens has_reader) = with_context s c (open_stream s c has_reader)
work s (reading c) (reads response) = with_context s c (read_stream s c response, [])
work s (finishing c) (finishes status) = with_context s c (finish_stream s status, [])
work s phase event = (s, [])

module _ (trimmed : Text → Text) (utf8_size : Text → ℕ) where
  unfoldable pub step : AiClient → Event → Done
  step s (generate request) =
      if is_idle s.gui then stream_generate trimmed utf8_size s request else (s, [])
  step s destroyed_by_owner = if is_idle s.gui then (destroy s, []) else (s, [])
  step s joined = (join_worker s s.gui, [])
  step s delivered = deliver s s.queued
  step s registers = work s s.phase registers
  step s looks_up = work s s.phase looks_up
  step s (opens has_reader) = work s s.phase (opens has_reader)
  step s (reads response) = work s s.phase (reads response)
  step s (finishes status) = work s s.phase (finishes status)

  unfoldable pub run : AiClient → List Event → Done
  run s [] = (s, [])
  run s (e ∷ es) = let (t, effects) = step s e in let (u, more) = run t es in (u, effects ++ more)
