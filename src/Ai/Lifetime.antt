-- ===== src/Ai/Lifetime.antt =====
-- How long a context of gRPC lives in AiClient.cpp, and who still uses it then.
use nira_os.Base.{
  ◌≡◌, refl, ap, ◌∙◌, subst, inl, inr, ℕ, ◌*◌, ◌<◌, ◌≤◌, ltb, ◌==◌, ==_iff, Bool, true, false, not,
  Option, none, some, List, [], ◌∷◌, any, Text, is_empty, if◌then◌else◌, if_of_true, if_of_false,
  arith,
}
use nira_os.Ai.{
  AiClient, Request, Response, Phase, starting, registered, ended, undefined, with_context, opening,
  reading, finishing, Gui, idle, destroying, joining, Done, Event, generate, destroyed_by_owner,
  joined, delivered, registers, looks_up, opens, reads, finishes, is_idle, is_ended, with_destroyed,
  init, release, post, start_worker, join_then_start, stream_generate, destroy, register_context,
  look_up_context, open_stream, take_response, read_stream, finish_stream, join_worker, deliver,
  work, step,
}
use nira_os.Ai.Contexts.{IsSound, PhaseSound, IsHeld}
use nira_os.Ai.Ownership.{step-IsSound}

-- The numbers fall, from one below `n` on: contexts are made in the order of their numbers.
abbrev pub IsFalling : ℕ → List ℕ → Type 0
IsFalling n [] = Unit {0}
IsFalling n (c ∷ cs) = (c < n) × IsFalling c cs

-- The registered context and the destroyed ones, the newest first.
abbrev pub IsFresh : AiClient → Type 0
IsFresh s = IsFalling s.next_context (with_destroyed s.active_context s.destroyed)

pub falling_absent : (n c : ℕ) (cs : List ℕ) → n ≤ c → IsFalling n cs → any (λ d. d == c) cs ≡ false
falling_absent n c [] h f = refl
falling_absent n c (d ∷ cs) h (below, f) = ground (arith, falling_absent d c cs (omega arith) f)

pick-IsFresh : (b : Bool) (x y : AiClient) → IsFresh x → IsFresh y → IsFresh (if b then x else y)
pick-IsFresh true x y hx hy = hx
pick-IsFresh false x y hx hy = hy

pick_done : (b : Bool) (x y : Done) → IsFresh x.0 → IsFresh y.0 → IsFresh (if b then x else y).0
pick_done true x y hx hy = hx
pick_done false x y hx hy = hy

joined-IsFresh : (s : AiClient) (r : Request) → IsFresh s → IsFresh (join_then_start s r)
unfolding join_then_start start_worker
joined-IsFresh s r h = pick-IsFresh (is_ended s.phase) _ (record s { gui = joining r }) h h

register-IsFresh :
    (s : AiClient) → s.active_context ≡ none → IsFresh s → IsFresh (register_context s)
unfolding register_context
register-IsFresh s no_active h =
    pick-IsFresh s.worker_stop _ _ h (
      omega arith,
      subst (λ a. IsFalling s.next_context (with_destroyed a s.destroyed)) no_active h,
    )

look_up-IsFresh :
    (s : AiClient) (active : Option ℕ)
    → IsFresh s
    → IsFresh (elim active [
      | none ↦ record s { phase = ended }
      | some c ↦ record s { phase = opening c }
    ])
look_up-IsFresh s none h = h
look_up-IsFresh s (some c) h = h

open-IsFresh :
    (s : AiClient) (c : ℕ) (has_reader : Bool) → IsFresh s → IsFresh (open_stream s c has_reader).0
unfolding open_stream post release
open-IsFresh s c true h = h
open-IsFresh s c false h = h

read-IsFresh :
    (s : AiClient) (c : ℕ) (response : Option Response)
    → IsFresh s
    → IsFresh (read_stream s c response)
unfolding read_stream take_response post release
read-IsFresh s c none h = h
read-IsFresh s c (some r) h =
    pick-IsFresh s.worker_stop _ _ h
      (pick-IsFresh r.is_finished _ _ h (pick-IsFresh (not (is_empty r.text)) _ s h h))

with_context-IsFresh :
    (s : AiClient) (c : ℕ) (r : Done) → IsFresh s → IsFresh r.0 → IsFresh (with_context s c r).0
unfolding with_context
with_context-IsFresh s c r h hr =
    pick_done (any (λ d. d == c) s.destroyed) (record s { phase = undefined }, []) r h hr

work-IsFresh :
    (s : AiClient) (phase : Phase) (e : Event)
    → PhaseSound s.gui s.active_context s.destroyed s.generation_active phase
    → IsFresh s
    → IsFresh (work s phase e).0
unfolding work look_up_context finish_stream release
work-IsFresh s starting registers no_active h = register-IsFresh s no_active h
work-IsFresh s registered looks_up p h = look_up-IsFresh s s.active_context h
work-IsFresh s (opening c) (opens has_reader) p h =
    with_context-IsFresh s c (open_stream s c has_reader) h (open-IsFresh s c has_reader h)
work-IsFresh s (reading c) (reads response) p h =
    with_context-IsFresh s c (read_stream s c response, []) h (read-IsFresh s c response h)
work-IsFresh s (finishing c) (finishes status) p h =
    with_context-IsFresh s c (finish_stream s status, []) h h
work-IsFresh s phase e p h = h

join-IsFresh : (s : AiClient) (gui : Gui) → IsFresh s → IsFresh (join_worker s gui)
unfolding join_worker
join-IsFresh s idle h = h
join-IsFresh s destroying h = h
join-IsFresh s (joining r) h = joined-IsFresh s r h

deliver-IsFresh : (s : AiClient) (queue : List _) → IsFresh s → IsFresh (deliver s queue).0
unfolding deliver
deliver-IsFresh s [] h = h
deliver-IsFresh s (signal ∷ queue) h = pick_done (is_idle s.gui) _ (s, []) h h

-- The phases in which the worker points to a context.
abbrev pub points_to : Phase → ℕ → Bool
points_to (opening c) d = c == d
points_to (reading c) d = c == d
points_to (finishing c) d = c == d
points_to phase d = false

held_active :
    (gui : Gui) (active : Option ℕ) (contexts : List ℕ) (d c : ℕ)
    → IsHeld gui active contexts d
    → is_idle gui ≡ true
    → (d == c) ≡ true
    → active ≡ some c
held_active gui active contexts d c (inl e) free same = e ∙ ap some ((==_iff d c).0 same)
held_active gui active contexts d c (inr (waits, gone, dead)) free same = cc

pointed_active :
    (gui : Gui) (active : Option ℕ) (contexts : List ℕ) (generating : Bool) (phase : Phase) (c : ℕ)
    → PhaseSound gui active contexts generating phase
    → is_idle gui ≡ true
    → points_to phase c ≡ true
    → active ≡ some c
pointed_active gui active contexts generating undefined c p free h = cc
pointed_active gui active contexts generating starting c p free h = cc
pointed_active gui active contexts generating registered c p free h = cc
pointed_active gui active contexts generating ended c p free h = cc
pointed_active gui active contexts generating (opening d) c p free h =
    held_active gui active contexts d c p free h
pointed_active gui active contexts generating (reading d) c p free h =
    held_active gui active contexts d c p free h
pointed_active gui active contexts generating (finishing d) c p free h =
    held_active gui active contexts d c p free h

pub active_fresh :
    (n c : ℕ) (active : Option ℕ) (contexts : List ℕ)
    → active ≡ some c
    → IsFalling n (with_destroyed active contexts)
    → any (λ d. d == c) contexts ≡ false
active_fresh n c none contexts e f = cc
active_fresh n c (some d) contexts e (below, f) = falling_absent d c contexts (ground (arith, e)) f

pub joining_lem :
    (s : AiClient) (r : Request) (c : ℕ)
    → s.phase ≡ reading c
    → join_then_start s r ≡ record s { gui = joining r }
unfolding join_then_start
joining_lem s r c at = if_of_false (is_ended s.phase) (start_worker s r) _ (ap is_ended at)

module _ (trimmed : Text → Text) (utf8_size : Text → ℕ) where
  generate-IsFresh :
      (s : AiClient) (r : Request) → IsFresh s → IsFresh (stream_generate trimmed utf8_size s r).0
  unfolding stream_generate release
  generate-IsFresh s r h =
      pick_done (is_empty (trimmed r.prompt)) (s, _) _ h
        (pick_done (ltb (32 * 1024) (utf8_size (trimmed r.prompt))) (s, _) _ h
          (joined-IsFresh (release s) (record r { prompt = trimmed r.prompt }) h))

  pub step-IsFresh :
      (s : AiClient) (e : Event) → IsSound s → IsFresh s → IsFresh (step trimmed utf8_size s e).0
  unfolding step destroy release
  step-IsFresh s (generate r) p h =
      pick_done (is_idle s.gui) (stream_generate trimmed utf8_size s r) (s, [])
        (generate-IsFresh s r h) h
  step-IsFresh s destroyed_by_owner p h = pick_done (is_idle s.gui) _ (s, []) h h
  step-IsFresh s joined p h = join-IsFresh s s.gui h
  step-IsFresh s delivered p h = deliver-IsFresh s s.queued h
  step-IsFresh s registers p h = work-IsFresh s s.phase registers p.1 h
  step-IsFresh s looks_up p h = work-IsFresh s s.phase looks_up p.1 h
  step-IsFresh s (opens has_reader) p h = work-IsFresh s s.phase (opens has_reader) p.1 h
  step-IsFresh s (reads response) p h = work-IsFresh s s.phase (reads response) p.1 h
  step-IsFresh s (finishes status) p h = work-IsFresh s s.phase (finishes status) p.1 h

  -- The states that a client comes to, in whatever order the threads take their steps.
  pub data Reach : AiClient → Type 0 where
    at_start : Reach init
    later : {s : AiClient} → Reach s → (e : Event) → Reach (step trimmed utf8_size s e).0

  Reach-IsSound : {s : AiClient} → Reach s → IsSound s
  Reach-IsSound at_start = unfold init in (refl, (refl, inr refl))
  Reach-IsSound (later {s} r e) = step-IsSound trimmed utf8_size s e (Reach-IsSound r)

  Reach-IsFresh : {s : AiClient} → Reach s → IsFresh s
  Reach-IsFresh at_start = unfold init in tt
  Reach-IsFresh (later {s} r e) = step-IsFresh s e (Reach-IsSound r) (Reach-IsFresh r)

  -- In every state that a client comes to: while the user interface does not wait, the context that
  -- the worker points to is the registered one, and it is not destroyed.
  pub context_is_alive :
      {s : AiClient}
      → Reach s
      → (c : ℕ) → is_idle s.gui ≡ true
      → points_to s.phase c ≡ true
      → (s.active_context ≡ some c) × (any (λ d. d == c) s.destroyed ≡ false)
  context_is_alive {s} r c free points =
      let active =
        pointed_active s.gui s.active_context s.destroyed s.generation_active s.phase c
          (Reach-IsSound r).1 free points in
      (active, active_fresh s.next_context c s.active_context s.destroyed active (Reach-IsFresh r))

  -- A prompt that passes the checks.
  abbrev pub IsAccepted : AiClient → Request → Type 0
  IsAccepted s r =
      (is_idle s.gui ≡ true)
      × (is_empty (trimmed r.prompt) ≡ false)
      × (ltb (32 * 1024) (utf8_size (trimmed r.prompt)) ≡ false)

  pub generate_accepted :
      (s : AiClient) (r : Request)
      → IsAccepted s r
      → step trimmed utf8_size s (generate r)
        ≡ (join_then_start (release s) (record r { prompt = trimmed r.prompt }), [])
  unfolding step stream_generate
  generate_accepted s r (free, some_prompt, short) =
      if_of_true (is_idle s.gui) _ (s, []) free
      ∙ (if_of_false (is_empty (trimmed r.prompt)) (s, _) _ some_prompt
          ∙ if_of_false (ltb (32 * 1024) (utf8_size (trimmed r.prompt))) (s, _) _ short)

  -- While a stream is read, a prompt that passes the checks destroys the context that the worker goes
  -- on to read with: its next read, of whatever response, is undefined.
  pub read_context_is_destroyed :
      (s : AiClient) (r : Request) (c : ℕ) (response : Option Response)
      → IsAccepted s r
      → s.phase ≡ reading c
      → s.active_context ≡ some c
      → let t = (step trimmed utf8_size s (generate r)).0 in
        (t.phase ≡ reading c)
        × (any (λ d. d == c) t.destroyed ≡ true)
        × ((step trimmed utf8_size t (reads response)).0.phase ≡ undefined)
  unfolding step work with_context
  read_context_is_destroyed s r c response ok at active =
      rw
        (
          generate_accepted s r ok,
          joining_lem (release s) (record r { prompt = trimmed r.prompt }) c (unfold release in at),
        )
        (
          unfold release in at,
          unfold release in rw active (ground arith),
          unfold release in rw (at, active) (ground arith),
        )
