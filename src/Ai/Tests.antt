-- ===== src/Ai/Tests.antt =====
-- One instance of each theorem on the AI client.
use nira_os.Base.{◌≡◌, refl, pos, true, false, some, none, List, [], ◌∷◌, any, ◌==◌}
use nira_os.Ai.{
  Event, joined, with_context, open_stream, read_stream, finish_stream, join_worker, AiClient,
  Request, GrpcStatus, reading, undefined, init, is_idle, reads, stream_generate, join_then_start,
  start_worker, release, work, register_context, look_up_context, generate, registers, looks_up,
  opens, finishes, step, run, opened, token_received, generation_finished,
}
use nira_os.Ai.Lifetime.{
  Reach, at_start, later, points_to, context_is_alive, read_context_is_destroyed,
}
use nira_os.Ai.Defined.{is_undefined, quiet_run_is_defined}
use nira_os.Ai.Streams.{whole_generation, settled, piece, ending, tokens}

abbrev asked : Request
asked = record { prompt = 65 ∷ []; temperature = 7; max_tokens = pos 256 }

abbrev fine : GrpcStatus
fine = record { is_ok = true; is_cancelled = false; message = [] }

-- A client whose worker has got its context.
abbrev registering : AiClient
registering = (run (λ t. t) (λ t. 1) init (generate asked ∷ registers ∷ looks_up ∷ [])).0

registering_reached : Reach (λ t. t) (λ t. 1) registering
unfolding run
registering_reached = later (later (later at_start (generate asked)) registers) looks_up

registering_free : is_idle registering.gui ≡ true
unfolding run step init stream_generate join_then_start start_worker release work register_context
    look_up_context
registering_free = refl

registering_points : points_to registering.phase 0 ≡ true
unfolding run step init stream_generate join_then_start start_worker release work register_context
    look_up_context
registering_points = refl

context_is_alive_example :
    (registering.active_context ≡ some 0) × (any (λ d. d == 0) registering.destroyed ≡ false)
context_is_alive_example =
    context_is_alive (λ t. t) (λ t. 1) registering_reached 0 registering_free registering_points

abbrev reads_four : AiClient
reads_four = record init { phase = reading 4; active_context = some 4 }

read_context_is_destroyed_example :
    let t = (step (λ t. t) (λ t. 1) reads_four (generate asked)).0 in
    (t.phase ≡ reading 4)
    × (any (λ d. d == 4) t.destroyed ≡ true)
    × ((step (λ t. t) (λ t. 1) t (reads none)).0.phase ≡ undefined)
read_context_is_destroyed_example =
    read_context_is_destroyed (λ t. t) (λ t. 1) reads_four asked 4 none
      (unfold init in (refl, refl, refl)) refl refl

whole_generation_example :
    run
      (λ t. t)
      (λ t. 1)
      init
      (generate asked
        ∷ registers
        ∷ looks_up
        ∷ opens true
        ∷ piece (66 ∷ [])
        ∷ piece []
        ∷ ending (some [])
        ∷ finishes fine
        ∷ [])
    ≡ (
      settled (λ t. t) init asked (token_received (66 ∷ []) ∷ generation_finished ∷ []),
      opened (some asked) ∷ [],
    )
whole_generation_example =
    unfold init tokens in
    whole_generation (λ t. t) (λ t. 1) init asked ((66 ∷ []) ∷ [] ∷ []) (some []) fine
      (refl, refl, refl) (refl, refl, tt)

-- A second prompt comes before the worker has its context; it is answered after the first.
abbrev two_prompts : List Event
two_prompts =
    generate asked
    ∷ generate asked
    ∷ registers
    ∷ looks_up
    ∷ opens true
    ∷ reads none
    ∷ finishes fine
    ∷ joined
    ∷ registers
    ∷ looks_up
    ∷ opens true
    ∷ []

quiet_run_is_defined_example : is_undefined (run (λ t. t) (λ t. 1) init two_prompts).0.phase ≡ false
quiet_run_is_defined_example =
    quiet_run_is_defined (λ t. t) (λ t. 1) two_prompts
      (unfold run step init stream_generate join_then_start start_worker release work with_context
          register_context look_up_context open_stream read_stream finish_stream join_worker in
        refl)
