-- ===== src/Ai/Streams.antt =====
-- What a generation of AiClient.cpp that nothing disturbs gives.
use nira_os.Base.{
  ◌≡◌, refl, ap, sym, ◌∙◌, ℕ, ◌+◌, ◌==◌, any, arith, Bool, true, false, not, ◌&&◌, Option, none,
  some, List, [], ◌∷◌, ◌++◌, map, append-nil, append_assoc, Text, is_empty, if◌then◌else◌,
  if_of_true, if_of_false,
}
use nira_os.Ai.{
  AiClient, Request, GrpcStatus, Signal, token_received, generation_finished, error_occurred,
  starting, ended, undefined, finishing, opening, reading, idle, opened, Done, Event, generate,
  registers, looks_up, opens, reads, finishes, with_destroyed, release, post, start_worker,
  join_then_start, register_context, look_up_context, open_stream, take_response, read_stream,
  finish_stream, is_ended, with_context, work, step, run,
}
use nira_os.Ai.Lifetime.{IsAccepted, IsFresh, falling_absent, generate_accepted}

-- The tokens that an answer is made of: texts that are empty are left out.
unfoldable pub tokens : List Text → List Signal
tokens [] = []
tokens (t ∷ ts) = if is_empty t then tokens ts else token_received t ∷ tokens ts

abbrev pub piece : Text → Event
piece t = reads (some (record { text = t; is_finished = false }))

abbrev pub last_piece : Text → Event
last_piece t = reads (some (record { text = t; is_finished = true }))

-- A client whose worker reads a stream.
abbrev streaming : AiClient → ℕ → List Signal → AiClient
streaming s c queued = record s { phase = reading c; worker_stop = false; queued = queued }

-- A stream ends by a piece that says so, or by a read that gets nothing.
abbrev pub ending : Option Text → Event
ending (some t) = last_piece t
ending none = reads none

abbrev pub finished_signal : Option Text → List Signal
finished_signal (some t) = generation_finished ∷ []
finished_signal none = []

abbrev pub failure_signal : GrpcStatus → List Signal
failure_signal status =
    if not status.is_ok && not status.is_cancelled then error_occurred status.message ∷ [] else []

-- Nobody is at work or waited for, and the next context is a new one.
abbrev pub IsFree : AiClient → Type 0
IsFree s = (s.phase ≡ ended) × (s.worker_stop ≡ false) × IsFresh s

queue_if :
    (a b : Bool) (queued : List Signal) (x : Signal)
    → (if a && (b && true) then queued ++ x ∷ [] else queued)
      ≡ queued ++ (if a && b then x ∷ [] else [])
queue_if true true queued x = refl
queue_if true false queued x = sym (append-nil queued)
queue_if false b queued x = sym (append-nil queued)

-- The end of a stream, as it is left by what was read.
abbrev left : AiClient → ℕ → List Signal → AiClient
left s c queued = record s {
  phase = ended;
  worker_stop = false;
  generation_active = false;
  active_context = none;
  destroyed = c ∷ s.destroyed;
  queued = queued;
}

module _ (trimmed : Text → Text) where
  -- The client behind a generation.
  abbrev pub settled : AiClient → Request → List Signal → AiClient
  settled s r queued = record s {
    gui = idle;
    phase = ended;
    request = some (record r { prompt = trimmed r.prompt });
    worker_stop = false;
    generation_active = false;
    active_context = none;
    next_context = s.next_context + 1;
    destroyed = s.next_context ∷ with_destroyed s.active_context s.destroyed;
    queued = queued;
  }

  abbrev started : AiClient → Request → AiClient
  started s r = record s {
    gui = idle;
    phase = starting;
    request = some (record r { prompt = trimmed r.prompt });
    worker_stop = false;
    generation_active = true;
    active_context = none;
    destroyed = with_destroyed s.active_context s.destroyed;
  }

next_is_alive :
    (s : AiClient)
    → IsFresh s
    → any (λ d. d == s.next_context) (with_destroyed s.active_context s.destroyed) ≡ false
next_is_alive s fresh =
    falling_absent s.next_context s.next_context (with_destroyed s.active_context s.destroyed)
      (omega arith) fresh

-- A context that is alive may be used.
alive_lem :
    (s : AiClient) (c : ℕ) (r : Done)
    → any (λ d. d == c) s.destroyed ≡ false
    → with_context s c r ≡ r
unfolding with_context
alive_lem s c r alive =
    if_of_false (any (λ d. d == c) s.destroyed) (record s { phase = undefined }, []) r alive

module _ (trimmed : Text → Text) (utf8_size : Text → ℕ) where
  pieces_lem :
      (s : AiClient) (c : ℕ) (queued : List Signal) (ts : List Text) (es : List Event)
      → any (λ d. d == c) s.destroyed ≡ false
      → run trimmed utf8_size (streaming s c queued) (map piece ts ++ es)
        ≡ run trimmed utf8_size (streaming s c (queued ++ tokens ts)) es
  unfolding run step work with_context read_stream take_response post tokens
  pieces_lem s c queued [] es alive = rw append-nil refl
  pieces_lem s c queued ([] ∷ ts) es alive = rw alive (pieces_lem s c queued ts es alive)
  pieces_lem s c queued ((a ∷ t) ∷ ts) es alive = rw alive (
      pieces_lem s c (queued ++ token_received (a ∷ t) ∷ []) ts es alive
      ∙ ap (λ q. run trimmed utf8_size (streaming s c q) es)
          (append_assoc queued (token_received (a ∷ t) ∷ []) (tokens ts)))

  -- A step without effects, and then the rest.
  then_run :
      (s t : AiClient) (e : Event) (es : List Event)
      → step trimmed utf8_size s e ≡ (t, [])
      → run trimmed utf8_size s (e ∷ es) ≡ run trimmed utf8_size t es
  unfolding run
  then_run s t e es same =
      ap (λ (d : Done). let (u, more) = run trimmed utf8_size d.0 es in (u, d.1 ++ more)) same

  last_read :
      (s : AiClient) (c : ℕ) (queued : List Signal) (last : Option Text)
      → any (λ d. d == c) s.destroyed ≡ false
      → step trimmed utf8_size (streaming s c queued) (ending last)
        ≡ (record (streaming s c (queued ++ finished_signal last)) { phase = finishing c }, [])
  unfolding step work read_stream take_response post
  last_read s c queued (some t) alive = alive_lem (streaming s c queued) c _ alive
  last_read s c queued none alive =
      alive_lem (streaming s c queued) c _ alive
      ∙ ap (λ q. (record (streaming s c q) { phase = finishing c }, [])) (sym (append-nil queued))

  finished_stream :
      (s : AiClient) (c : ℕ) (queued : List Signal) (status : GrpcStatus)
      → any (λ d. d == c) s.destroyed ≡ false
      → step trimmed utf8_size
          (record (streaming (record s { active_context = some c }) c queued) {
            phase = finishing c;
          })
          (finishes status)
        ≡ (left s c (queued ++ failure_signal status), [])
  unfolding step work finish_stream release
  finished_stream s c queued status alive =
      alive_lem
        (record (streaming (record s { active_context = some c }) c queued) { phase = finishing c })
        c _ alive
      ∙ ap (λ q. (left s c q, []))
          (queue_if (not status.is_ok) (not status.is_cancelled) queued
            (error_occurred status.message))

  ending_lem :
      (s : AiClient) (c : ℕ) (queued : List Signal) (last : Option Text) (status : GrpcStatus)
      → any (λ d. d == c) s.destroyed ≡ false
      → run trimmed utf8_size
          (streaming (record s { active_context = some c }) c queued)
          (ending last ∷ finishes status ∷ [])
        ≡ (left s c ((queued ++ finished_signal last) ++ failure_signal status), [])
  ending_lem s c queued last status alive =
      let held : AiClient = record s { active_context = some c } in
      let read = queued ++ finished_signal last in
      let at_end : AiClient = record (streaming held c read) { phase = finishing c } in
      then_run (streaming held c queued) at_end (ending last) (finishes status ∷ [])
        (last_read held c queued last alive)
      ∙ then_run at_end (left s c (read ++ failure_signal status)) (finishes status) []
          (finished_stream s c read status alive)
      ∙ unfold run in refl

  start_free :
      (s : AiClient) (r : Request)
      → IsFree s
      → join_then_start (release s) (record r { prompt = trimmed r.prompt }) ≡ started trimmed s r
  unfolding join_then_start start_worker release
  start_free s r (at, on, fresh) =
      if_of_true (is_ended s.phase) _ _ (ap is_ended at)
      ∙ ap (λ b. record (started trimmed s r) { worker_stop = b }) on

  starting_lem :
      (s : AiClient) (r : Request) (es : List Event)
      → IsAccepted trimmed utf8_size s r
      → IsFree s
      → run trimmed utf8_size s (generate r ∷ registers ∷ looks_up ∷ opens true ∷ es) ≡ (
          let t : AiClient = record (started trimmed s r) {
            active_context = some s.next_context;
            next_context = s.next_context + 1;
          } in
          let (u, more) = run trimmed utf8_size (streaming t s.next_context s.queued) es in
          (u, opened (some (record r { prompt = trimmed r.prompt })) ∷ more))
  unfolding run step work with_context register_context look_up_context open_stream
  starting_lem s r es ok free =
      let at_open : AiClient = record (started trimmed s r) {
        phase = opening s.next_context;
        active_context = some s.next_context;
        next_context = s.next_context + 1;
      } in
      let next =
        generate_accepted trimmed utf8_size s r ok
        ∙ ap (λ (t : AiClient). (t, [])) (start_free s r free) in
      ap
        (λ (d : Done).
          let (u, more) = run trimmed utf8_size d.0 (registers ∷ looks_up ∷ opens true ∷ es) in
          (u, d.1 ++ more))
        next
      ∙ ap (λ (d : Done). let (u, more) = run trimmed utf8_size d.0 es in (u, d.1 ++ more))
          (alive_lem at_open s.next_context (open_stream at_open s.next_context true)
            (next_is_alive s free.2))

  -- A generation that nothing disturbs, from a client with no worker at work and whose next context is
  -- a new one: one stream is opened, for the trimmed prompt. The signals are, in their order, a token for each piece of the answer that
  -- is not empty and does not say that it is the last one; then that the generation is finished, if a
  -- piece says so, whose own text gives no token; then an error, if the stream fails. No context is
  -- left over, and the client is free for the next generation.
  pub whole_generation :
      (s : AiClient) (r : Request) (ts : List Text) (last : Option Text) (status : GrpcStatus)
      → IsAccepted trimmed utf8_size s r
      → IsFree s
      → run trimmed utf8_size s (
          generate r
          ∷ registers
          ∷ looks_up
          ∷ opens true
          ∷ (map piece ts ++ (ending last ∷ finishes status ∷ [])))
        ≡ (
          settled trimmed s r
              (((s.queued ++ tokens ts) ++ finished_signal last) ++ failure_signal status),
          opened (some (record r { prompt = trimmed r.prompt })) ∷ [],
        )
  whole_generation s r ts last status ok free =
      let request : Request = record r { prompt = trimmed r.prompt } in
      let t : AiClient = record (started trimmed s r) {
        active_context = some s.next_context;
        next_context = s.next_context + 1;
      } in
      let alive = next_is_alive s free.2 in
      let es = ending last ∷ finishes status ∷ [] in
      starting_lem s r (map piece ts ++ es) ok free
      ∙ ap (λ (d : Done). (d.0, opened (some request) ∷ d.1))
          (pieces_lem t s.next_context s.queued ts es alive
            ∙ ending_lem t s.next_context (s.queued ++ tokens ts) last status alive)
