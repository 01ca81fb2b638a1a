-- ===== src/Ai/Contexts.antt =====
-- Who may use a context of gRPC in AiClient.cpp, and what the user interface does with it: a new
-- prompt, the end of a wait, the destruction of the client.
use nira_os.Base.{
  ◌≡◌, refl, ap, ◌∙◌, subst, ◌⊎◌, inl, inr, ℕ, ◌*◌, ltb, ◌==◌, Bool, true, false, Option, none,
  some, List, [], ◌∷◌, any, Text, is_empty, if◌then◌else◌, arith,
}
use nira_os.Ai.{
  AiClient, Request, Phase, starting, registered, ended, undefined, opening, reading, finishing,
  Gui, idle, destroying, joining, Done, is_idle, is_ended, with_destroyed, release, start_worker,
  join_then_start, stream_generate, destroy, join_worker, deliver,
}

abbrev pub is_destroying : Gui → Bool
is_destroying destroying = true
is_destroying gui = false

abbrev pub is_some : Option ℕ → Bool
is_some none = false
is_some (some c) = true

-- The context that the worker points to is the registered one, or the user interface waits and has
-- destroyed it.
abbrev pub IsHeld : Gui → Option ℕ → List ℕ → ℕ → Type 0
IsHeld gui active destroyed c =
    (active ≡ some c)
    ⊎ ((is_idle gui ≡ false) × (active ≡ none) × (any (λ d. d == c) destroyed ≡ true))

abbrev pub PhaseSound : Gui → Option ℕ → List ℕ → Bool → Phase → Type 0
PhaseSound gui active destroyed generating undefined = Unit {0}
PhaseSound gui active destroyed generating starting = active ≡ none
PhaseSound gui active destroyed generating registered =
    (is_idle gui ≡ false) ⊎ (is_some active ≡ true)
PhaseSound gui active destroyed generating (opening c) = IsHeld gui active destroyed c
PhaseSound gui active destroyed generating (reading c) = IsHeld gui active destroyed c
PhaseSound gui active destroyed generating (finishing c) = IsHeld gui active destroyed c
PhaseSound gui active destroyed generating ended =
    (active ≡ none) × ((is_idle gui ≡ false) ⊎ (generating ≡ false))

abbrev pub IsSound : AiClient → Type 0
IsSound s =
    (s.worker_stop ≡ is_destroying s.gui)
    × PhaseSound s.gui s.active_context s.destroyed s.generation_active s.phase

pub pick-IsSound :
    (b : Bool) (x y : AiClient) → IsSound x → IsSound y → IsSound (if b then x else y)
pick-IsSound true x y hx hy = hx
pick-IsSound false x y hx hy = hy

pub pick_first :
    (b : Bool) (x y : Done) → IsSound x.0 → IsSound y.0 → IsSound (if b then x else y).0
pick_first true x y hx hy = hx
pick_first false x y hx hy = hy

cancel-IsHeld :
    (gui busy : Gui) (active : Option ℕ) (destroyed : List ℕ) (c : ℕ)
    → is_idle busy ≡ false
    → IsHeld gui active destroyed c
    → IsHeld busy none (with_destroyed active destroyed) c
cancel-IsHeld gui busy none destroyed c b (inl h) = cc
cancel-IsHeld gui busy none destroyed c b (inr (waits, gone, dead)) = inr (b, refl, dead)
cancel-IsHeld gui busy (some d) destroyed c b (inl h) = inr (b, refl, ground (arith, h))
cancel-IsHeld gui busy (some d) destroyed c b (inr (waits, gone, dead)) = cc

-- After a cancel while the user interface goes on to wait: any phase.
cancel-PhaseSound :
    (gui busy : Gui) (active : Option ℕ) (destroyed : List ℕ) (generating : Bool) (phase : Phase)
    → is_idle busy ≡ false
    → PhaseSound gui active destroyed generating phase
    → PhaseSound busy none (with_destroyed active destroyed) generating phase
cancel-PhaseSound gui busy active destroyed generating undefined b h = tt
cancel-PhaseSound gui busy active destroyed generating starting b h = refl
cancel-PhaseSound gui busy active destroyed generating registered b h = inl b
cancel-PhaseSound gui busy active destroyed generating ended b h = (refl, inl b)
cancel-PhaseSound gui busy active destroyed generating (opening c) b h =
    cancel-IsHeld gui busy active destroyed c b h
cancel-PhaseSound gui busy active destroyed generating (reading c) b h =
    cancel-IsHeld gui busy active destroyed c b h
cancel-PhaseSound gui busy active destroyed generating (finishing c) b h =
    cancel-IsHeld gui busy active destroyed c b h

idle_stays : (gui : Gui) → is_idle gui ≡ true → is_destroying gui ≡ false
idle_stays idle h = refl
idle_stays destroying h = cc
idle_stays (joining r) h = cc

start-IsSound :
    (s : AiClient) (r : Request)
    → s.worker_stop ≡ false
    → s.active_context ≡ none
    → IsSound (start_worker s r)
unfolding start_worker
start-IsSound s r stop none_active = (stop, none_active)

module _ (trimmed : Text → Text) (utf8_size : Text → ℕ) where
  pub generate-IsSound :
      (s : AiClient) (r : Request)
      → is_idle s.gui ≡ true
      → IsSound s
      → IsSound (stream_generate trimmed utf8_size s r).0
  unfolding stream_generate join_then_start release
  generate-IsSound s r free (stop, h) =
      let on : s.worker_stop ≡ false = stop ∙ idle_stays s.gui free in
      pick_first (is_empty (trimmed r.prompt)) (s, _) _ (stop, h)
        (pick_first (ltb (32 * 1024) (utf8_size (trimmed r.prompt))) (s, _) _ (stop, h)
          (pick-IsSound (is_ended s.phase) _ _ (start-IsSound (release s) _ on refl) (
            on,
            cancel-PhaseSound s.gui (joining (record r { prompt = trimmed r.prompt }))
                s.active_context s.destroyed s.generation_active s.phase refl h,
          )))

pub destroy-IsSound : (s : AiClient) → IsSound s → IsSound (destroy s)
unfolding destroy release
destroy-IsSound s (stop, h) = (
  refl,
  cancel-PhaseSound s.gui destroying s.active_context s.destroyed s.generation_active s.phase refl
      h,
)

rejoin-IsSound :
    (s : AiClient) (r : Request) (phase : Phase)
    → s.gui ≡ joining r
    → s.phase ≡ phase
    → IsSound s
    → IsSound (if is_ended phase then start_worker s r else record s { gui = joining r })
rejoin-IsSound s r phase waits at (stop, h) =
    go phase (subst (PhaseSound s.gui s.active_context s.destroyed s.generation_active) at h)
  where
    on : s.worker_stop ≡ false
    on = stop ∙ ap is_destroying waits

    back : IsSound (record s { gui = joining r })
    back = subst IsSound (ap (λ g. record s { gui = g }) waits) (stop, h)

    go :
        (p : Phase)
        → PhaseSound s.gui s.active_context s.destroyed s.generation_active p
        → IsSound (if is_ended p then start_worker s r else record s { gui = joining r })
    go ended k = start-IsSound s r on k.0
    go undefined k = back
    go starting k = back
    go registered k = back
    go (opening c) k = back
    go (reading c) k = back
    go (finishing c) k = back

pub joined-IsSound :
    (s : AiClient) (gui : Gui) → s.gui ≡ gui → IsSound s → IsSound (join_worker s gui)
unfolding join_worker join_then_start
joined-IsSound s idle e h = h
joined-IsSound s destroying e h = h
joined-IsSound s (joining r) e h = rejoin-IsSound s r s.phase e refl h

pub deliver-IsSound : (s : AiClient) (queue : List _) → IsSound s → IsSound (deliver s queue).0
unfolding deliver
deliver-IsSound s [] h = h
deliver-IsSound s (signal ∷ queue) h = pick_first (is_idle s.gui) _ (s, []) h h
