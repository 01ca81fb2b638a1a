-- ===== src/Ai/Ownership.antt =====
-- Who may use a context of gRPC in AiClient.cpp: every step of the worker and of the user interface
-- keeps to it.
use nira_os.Base.{
  any, ◌==◌, ◌≡◌, refl, sym, ◌∙◌, subst, ◌⊎◌, inl, inr, ℕ, Bool, true, false, not, Option, none,
  some, [], Text, is_empty, if◌then◌else◌,
}
use nira_os.Ai.{
  AiClient, Response, Phase, starting, registered, ended, undefined, with_context, Done, opening,
  reading, finishing, Gui, idle, destroying, joining, Event, generate, destroyed_by_owner, joined,
  delivered, registers, looks_up, opens, reads, finishes, is_idle, release, post, stream_generate,
  destroy, register_context, look_up_context, open_stream, take_response, read_stream,
  finish_stream, work, step,
}
use nira_os.Ai.Contexts.{
  is_destroying, is_some, IsHeld, PhaseSound, IsSound, pick-IsSound, pick_first, generate-IsSound,
  destroy-IsSound, joined-IsSound, deliver-IsSound,
}

stop_busy : (gui : Gui) → is_destroying gui ≡ true → is_idle gui ≡ false
stop_busy destroying h = refl
stop_busy idle h = cc
stop_busy (joining r) h = cc

split-IsSound :
    (b : Bool) (x y : AiClient)
    → (b ≡ true → IsSound x)
    → (b ≡ false → IsSound y)
    → IsSound (if b then x else y)
split-IsSound true x y hx hy = hx refl
split-IsSound false x y hx hy = hy refl

same-IsSound :
    (s : AiClient) (phase : Phase)
    → s.phase ≡ phase
    → s.worker_stop ≡ is_destroying s.gui
    → PhaseSound s.gui s.active_context s.destroyed s.generation_active phase
    → IsSound s
same-IsSound s phase at stop h =
    (stop, subst (PhaseSound s.gui s.active_context s.destroyed s.generation_active) (sym at) h)

stopped : (stop : Bool) (gui : Gui) → stop ≡ is_destroying gui → stop ≡ true → is_idle gui ≡ false
stopped stop gui e h = stop_busy gui (sym e ∙ h)

register-IsSound :
    (s : AiClient)
    → s.worker_stop ≡ is_destroying s.gui
    → s.active_context ≡ none
    → IsSound (register_context s)
unfolding register_context
register-IsSound s stop h =
    split-IsSound s.worker_stop _ _ (λ on. (stop, (h, inl (stopped s.worker_stop s.gui stop on))))
      (λ off. (stop, inr refl))

look_up-IsSound :
    (s : AiClient) (active : Option ℕ)
    → s.active_context ≡ active
    → s.worker_stop ≡ is_destroying s.gui
    → (is_idle s.gui ≡ false) ⊎ (is_some active ≡ true)
    → IsSound (elim active [
      | none ↦ record s { phase = ended }
      | some c ↦ record s { phase = opening c }
    ])
look_up-IsSound s none e stop (inl waits) = (stop, (e, inl waits))
look_up-IsSound s none e stop (inr h) = cc
look_up-IsSound s (some c) e stop h = (stop, inl e)

open-IsSound :
    (s : AiClient) (c : ℕ) (has_reader : Bool)
    → s.worker_stop ≡ is_destroying s.gui
    → IsHeld s.gui s.active_context s.destroyed c
    → IsSound (open_stream s c has_reader).0
unfolding open_stream post release
open-IsSound s c true stop h = (stop, h)
open-IsSound s c false stop h = (stop, (refl, inr refl))

read-IsSound :
    (s : AiClient) (c : ℕ) (response : Option Response)
    → s.phase ≡ reading c
    → s.worker_stop ≡ is_destroying s.gui
    → IsHeld s.gui s.active_context s.destroyed c
    → IsSound (read_stream s c response)
unfolding read_stream take_response post release
read-IsSound s c none at stop h = (stop, h)
read-IsSound s c (some r) at stop h =
    let still : IsSound s = same-IsSound s (reading c) at stop h in
    pick-IsSound s.worker_stop _ _ (stop, (refl, inr refl))
      (pick-IsSound r.is_finished _ _ (stop, h)
        (pick-IsSound (not (is_empty r.text)) _ s still still))

with_context-IsSound :
    (s : AiClient) (c : ℕ) (r : Done)
    → s.worker_stop ≡ is_destroying s.gui
    → IsSound r.0
    → IsSound (with_context s c r).0
unfolding with_context
with_context-IsSound s c r stop h =
    pick_first (any (λ d. d == c) s.destroyed) (record s { phase = undefined }, []) r (stop, tt) h

work-IsSound :
    (s : AiClient) (phase : Phase) (e : Event)
    → s.phase ≡ phase
    → s.worker_stop ≡ is_destroying s.gui
    → PhaseSound s.gui s.active_context s.destroyed s.generation_active phase
    → IsSound (work s phase e).0
unfolding work look_up_context finish_stream release
work-IsSound s starting registers at stop h = register-IsSound s stop h
work-IsSound s registered looks_up at stop h = look_up-IsSound s s.active_context refl stop h
work-IsSound s (opening c) (opens has_reader) at stop h =
    with_context-IsSound s c (open_stream s c has_reader) stop (open-IsSound s c has_reader stop h)
work-IsSound s (reading c) (reads response) at stop h =
    with_context-IsSound s c (read_stream s c response, []) stop
      (read-IsSound s c response at stop h)
work-IsSound s (finishing c) (finishes status) at stop h =
    with_context-IsSound s c (finish_stream s status, []) stop (stop, (refl, inr refl))
work-IsSound s phase e at stop h = same-IsSound s phase at stop h

module _ (trimmed : Text → Text) (utf8_size : Text → ℕ) where
  pub step-IsSound : (s : AiClient) (e : Event) → IsSound s → IsSound (step trimmed utf8_size s e).0
  unfolding step
  step-IsSound s (generate r) h =
      guarded (is_idle s.gui) (λ free. generate-IsSound trimmed utf8_size s r free h)
    where
      guarded :
          (b : Bool)
          → (b ≡ true → IsSound (stream_generate trimmed utf8_size s r).0)
          → IsSound (if b then stream_generate trimmed utf8_size s r else (s, [])).0
      guarded true k = k refl
      guarded false k = h
  step-IsSound s destroyed_by_owner h =
      pick_first (is_idle s.gui) (destroy s, []) (s, []) (destroy-IsSound s h) h
  step-IsSound s joined h = joined-IsSound s s.gui refl h
  step-IsSound s delivered h = deliver-IsSound s s.queued h
  step-IsSound s registers h = work-IsSound s s.phase registers refl h.0 h.1
  step-IsSound s looks_up h = work-IsSound s s.phase looks_up refl h.0 h.1
  step-IsSound s (opens has_reader) h = work-IsSound s s.phase (opens has_reader) refl h.0 h.1
  step-IsSound s (reads response) h = work-IsSound s s.phase (reads response) refl h.0 h.1
  step-IsSound s (finishes status) h = work-IsSound s s.phase (finishes status) refl h.0 h.1
