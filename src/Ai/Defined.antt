-- ===== src/Ai/Defined.antt =====
-- When AiClient.cpp uses no context of gRPC that is destroyed.
use nira_os.Base.{
  subst, ◌≡◌, refl, sym, ℕ, ◌*◌, ltb, Bool, true, false, not, ◌&&◌, Option, none, some, List, [],
  ◌∷◌, Text, is_empty, if◌then◌else◌, arith, inr,
}
use nira_os.Ai.{
  AiClient, Request, Response, Phase, starting, registered, ended, undefined, opening, reading,
  finishing, Gui, idle, destroying, joining, Done, Event, generate, destroyed_by_owner, joined,
  delivered, registers, looks_up, opens, reads, finishes, is_idle, is_ended, init, release, post,
  start_worker, join_then_start, stream_generate, destroy, register_context, look_up_context,
  open_stream, with_context, take_response, read_stream, finish_stream, join_worker, deliver, work,
  step, run,
}
use nira_os.Ai.Contexts.{IsSound}
use nira_os.Ai.Ownership.{step-IsSound}
use nira_os.Ai.Lifetime.{IsFresh, active_fresh, step-IsFresh}

-- The worker has looked its context up, and is not at its end.
abbrev pub at_context : Phase → Bool
at_context (opening c) = true
at_context (reading c) = true
at_context (finishing c) = true
at_context phase = false

abbrev pub is_undefined : Phase → Bool
is_undefined undefined = true
is_undefined phase = false

-- A prompt or the destruction of the client comes while the worker uses no context.
abbrev pub is_quiet : AiClient → Event → Bool
is_quiet s (generate r) = not (at_context s.phase)
is_quiet s destroyed_by_owner = not (at_context s.phase)
is_quiet s e = true

-- The context that the worker uses is the registered one.
abbrev Uses : Option ℕ → Phase → Type 0
Uses active undefined = ⊥
Uses active (opening c) = active ≡ some c
Uses active (reading c) = active ≡ some c
Uses active (finishing c) = active ≡ some c
Uses active starting = Unit {0}
Uses active registered = Unit {0}
Uses active ended = Unit {0}

abbrev Holds : AiClient → Type 0
Holds s = Uses s.active_context s.phase

pick-Holds : (b : Bool) (x y : AiClient) → Holds x → Holds y → Holds (if b then x else y)
pick-Holds true x y hx hy = hx
pick-Holds false x y hx hy = hy

pick_done : (b : Bool) (x y : Done) → Holds x.0 → Holds y.0 → Holds (if b then x else y).0
pick_done true x y hx hy = hx
pick_done false x y hx hy = hy

-- Away from a context it does not matter which one is registered.
away : (phase : Phase) (a b : Option ℕ) → at_context phase ≡ false → Uses a phase → Uses b phase
away starting a b h u = tt
away registered a b h u = tt
away ended a b h u = tt
away undefined a b h u = u
away (opening c) a b h u = cc
away (reading c) a b h u = cc
away (finishing c) a b h u = cc

join-Holds : (s : AiClient) (r : Request) → Holds s → Holds (join_then_start s r)
unfolding join_then_start start_worker
join-Holds s r h = pick-Holds (is_ended s.phase) _ (record s { gui = joining r }) tt h

release-Holds : (s : AiClient) → at_context s.phase ≡ false → Holds s → Holds (release s)
unfolding release
release-Holds s h u = away s.phase s.active_context none h u

-- A context that is used is alive.
use-Holds :
    (s : AiClient) (c : ℕ) (r : Done)
    → s.active_context ≡ some c
    → IsFresh s
    → Holds r.0
    → Holds (with_context s c r).0
unfolding with_context
use-Holds s c r active fresh h =
    let alive = active_fresh s.next_context c s.active_context s.destroyed active fresh in
    rw alive h

open-Holds :
    (s : AiClient) (c : ℕ) (has_reader : Bool)
    → s.active_context ≡ some c
    → Holds (open_stream s c has_reader).0
unfolding open_stream post release
open-Holds s c true h = h
open-Holds s c false h = tt

read-Holds :
    (s : AiClient) (c : ℕ) (response : Option Response)
    → s.phase ≡ reading c
    → s.active_context ≡ some c
    → Holds (read_stream s c response)
unfolding read_stream take_response post release
read-Holds s c none at h = h
read-Holds s c (some r) at h =
    let still : Holds s = subst (Uses s.active_context) (sym at) h in
    pick-Holds s.worker_stop _ _ tt
      (pick-Holds r.is_finished _ _ h (pick-Holds (not (is_empty r.text)) _ s still still))

look_up-Holds :
    (s : AiClient) (active : Option ℕ)
    → s.active_context ≡ active
    → Holds (elim active [
      | none ↦ record s { phase = ended }
      | some c ↦ record s { phase = opening c }
    ])
look_up-Holds s none e = tt
look_up-Holds s (some c) e = e

work-Holds :
    (s : AiClient) (phase : Phase) (e : Event)
    → s.phase ≡ phase
    → IsFresh s
    → Uses s.active_context phase
    → Holds (work s phase e).0
unfolding work look_up_context register_context finish_stream release
work-Holds s starting registers at fresh u = pick-Holds s.worker_stop _ _ tt tt
work-Holds s registered looks_up at fresh u = look_up-Holds s s.active_context refl
work-Holds s (opening c) (opens has_reader) at fresh u =
    use-Holds s c (open_stream s c has_reader) u fresh (open-Holds s c has_reader u)
work-Holds s (reading c) (reads response) at fresh u =
    use-Holds s c (read_stream s c response, []) u fresh (read-Holds s c response at u)
work-Holds s (finishing c) (finishes status) at fresh u =
    use-Holds s c (finish_stream s status, []) u fresh tt
work-Holds s phase e at fresh u = subst (Uses s.active_context) (sym at) u

join_worker-Holds : (s : AiClient) (gui : Gui) → Holds s → Holds (join_worker s gui)
unfolding join_worker
join_worker-Holds s idle h = h
join_worker-Holds s destroying h = h
join_worker-Holds s (joining r) h = join-Holds s r h

deliver-Holds : (s : AiClient) (queue : List _) → Holds s → Holds (deliver s queue).0
unfolding deliver
deliver-Holds s [] h = h
deliver-Holds s (signal ∷ queue) h = pick_done (is_idle s.gui) _ (s, []) h h

not-true : (b : Bool) → not b ≡ true → b ≡ false
not-true false h = refl
not-true true h = cc

module _ (trimmed : Text → Text) (utf8_size : Text → ℕ) where
  -- Each prompt of a series, and the destruction, is quiet.
  abbrev pub all_quiet : AiClient → List Event → Bool
  all_quiet s [] = true
  all_quiet s (e ∷ es) = is_quiet s e && all_quiet (step trimmed utf8_size s e).0 es

  step-Holds :
      (s : AiClient) (e : Event)
      → is_quiet s e ≡ true
      → IsFresh s
      → Holds s
      → Holds (step trimmed utf8_size s e).0
  unfolding step stream_generate destroy release
  step-Holds s (generate r) quiet fresh h =
      let free = release-Holds s (not-true (at_context s.phase) quiet) h in
      pick_done (is_idle s.gui) (stream_generate trimmed utf8_size s r) (s, [])
        (pick_done (is_empty (trimmed r.prompt)) (s, _) _ h
          (pick_done (ltb (32 * 1024) (utf8_size (trimmed r.prompt))) (s, _) _ h
            (join-Holds (release s) (record r { prompt = trimmed r.prompt }) free)))
        h
  step-Holds s destroyed_by_owner quiet fresh h =
      pick_done (is_idle s.gui) (destroy s, []) (s, [])
        (away s.phase s.active_context none (not-true (at_context s.phase) quiet) h) h
  step-Holds s joined quiet fresh h = join_worker-Holds s s.gui h
  step-Holds s delivered quiet fresh h = deliver-Holds s s.queued h
  step-Holds s registers quiet fresh h = work-Holds s s.phase registers refl fresh h
  step-Holds s looks_up quiet fresh h = work-Holds s s.phase looks_up refl fresh h
  step-Holds s (opens has_reader) quiet fresh h =
      work-Holds s s.phase (opens has_reader) refl fresh h
  step-Holds s (reads response) quiet fresh h = work-Holds s s.phase (reads response) refl fresh h
  step-Holds s (finishes status) quiet fresh h = work-Holds s s.phase (finishes status) refl fresh h

  run-Holds :
      (s : AiClient) (es : List Event)
      → all_quiet s es ≡ true
      → IsSound s
      → IsFresh s
      → Holds s
      → Holds (run trimmed utf8_size s es).0
  unfolding run
  run-Holds s [] quiet sound fresh h = h
  run-Holds s (e ∷ es) quiet sound fresh h =
      run-Holds (step trimmed utf8_size s e).0 es (ground (arith, quiet))
        (step-IsSound trimmed utf8_size s e sound) (step-IsFresh trimmed utf8_size s e sound fresh)
        (step-Holds s e (ground (arith, quiet)) fresh h)

  -- As long as prompts, and the destruction of the client, come while the worker uses no context, no
  -- use of a context is undefined, in whatever order the threads step.
  pub quiet_run_is_defined :
      (es : List Event)
      → all_quiet init es ≡ true
      → is_undefined (run trimmed utf8_size init es).0.phase ≡ false
  quiet_run_is_defined es quiet =
      go (run trimmed utf8_size init es).0.active_context (run trimmed utf8_size init es).0.phase (
        run-Holds init es quiet (unfold init in (refl, (refl, inr refl))) (unfold init in tt)
          (unfold init in tt))
    where
      go : (a : Option ℕ) (phase : Phase) → Uses a phase → is_undefined phase ≡ false
      go a undefined h = absurd h
      go a starting h = refl
      go a registered h = refl
      go a ended h = refl
      go a (opening c) h = refl
      go a (reading c) h = refl
      go a (finishing c) h = refl
