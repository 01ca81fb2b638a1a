-- ===== src/Greeter/Login.antt =====
-- A login needs a success from greetd.
use nira_os.Base.{
  ℕ, zero, suc, ◌≡◌, refl, ap, sym, subst, Bool, true, false, ◌||◌, none, some, List, [], ◌∷◌, ◌++◌,
  Text, lit, text_eq, arith, any, any-append, inl, inr, ◌∙◌, Option-cases, length,
}
use nira_os.Greeter.{
  Library, Greeter, Result, Effect, written, start_session, init, start_auth, send_create_session,
  submit_password, begin_session, on_payload, reject_stream, drain, on_ready_read, on_error,
}
use nira_os.Greeter.Wire.{incomplete, invalid, whole, next_frame}
use nira_os.Greeter.Framing.{with_buffer, Frame-cases, on_payload-read_buffer}
use nira_os.Greeter.Session.{
  Event, auth_starts, password_submitted, session_starts, socket_connected, bytes_arrive,
  socket_fails, socket_moves, step, run, is_logged_in, IsChained, run-Inv,
}

abbrev pub starts_session : Effect → Bool
starts_session (written start_session _) = true
starts_session _ = false

-- Nobody is logged in before, nobody is after, and no session was asked for.
abbrev StaysOut : Greeter → Result → Type 0
StaysOut s m =
    is_logged_in s.phase ≡ false
    → (is_logged_in m.0.phase ≡ false) × (any starts_session m.1 ≡ false)

StaysOut-chained : IsChained StaysOut
StaysOut-chained = record {
  stays = λ s v. (v, refl);
  chains = λ s m n f g v.
      ((g (f v).0).0, rw (any-append starts_session m.1 n.1, (f v).1, (g (f v).0).1));
}

-- The payloads of the whole frames at the front of a buffer.
abbrev pub payloads : ℕ → Text → List Text
payloads zero buffer = []
payloads (suc fuel) buffer = elim (next_frame buffer) [
  | incomplete ↦ []
  | invalid ↦ []
  | whole payload rest ↦ payload ∷ payloads fuel rest
]

payloads_whole :
    (fuel : ℕ) (b p rest : Text)
    → next_frame b ≡ whole p rest
    → payloads (suc fuel) b ≡ p ∷ payloads fuel rest
payloads_whole fuel b p rest e = rw (payloads, e) refl

module _ (lib : Library) where
  -- The payload is a success of greetd's.
  abbrev pub confirms : Text → Bool
  confirms payload = elim (lib.decode payload) [
    | none ↦ false
    | some m ↦ text_eq m.kind (lit "success")
  ]

  -- The payloads that come when bytes arrive: those that are framed by what waits in the buffer and
  -- these bytes.
  abbrev pub arriving : Greeter → Event → List Text
  arriving s (bytes_arrive chunk) =
      let buffer = s.read_buffer ++ chunk in payloads (suc (length buffer)) buffer
  arriving s e = []

  -- All payloads of a history.
  abbrev pub received : Greeter → List Event → List Text
  received s [] = []
  received s (e ∷ es) = arriving s e ++ received (step lib s e).0 es

  on_payload-StaysOut :
      (s : Greeter) (rest p : Text)
      → confirms p ≡ false
      → StaysOut s (on_payload lib (with_buffer s rest) p)
  unfolding on_payload
  on_payload-StaysOut s rest p denied v = elim (Option-cases (lib.decode p)) [
    | inl e ↦ rw (e, on_payload) (v, refl)
    | inr (m, e) ↦
        let no_success : text_eq m.kind (lit "success") ≡ false = ground (arith, e, denied) in
        rw (e, on_payload) (ground arith, ground arith)
  ]

  drain-StaysOut :
      (fuel : ℕ) (s : Greeter)
      → any confirms (payloads fuel s.read_buffer) ≡ false
      → StaysOut s (drain lib fuel s)
  unfolding drain
  drain-StaysOut zero s h = StaysOut-chained.stays s
  drain-StaysOut (suc fuel) s h = elim (Frame-cases (next_frame s.read_buffer)) [
    | inl e ↦ rw (e, drain) (StaysOut-chained.stays s)
    | inr (inl e) ↦ rw (e, drain) (unfold reject_stream in λ v. (refl, refl))
    | inr (inr (p, rest, e)) ↦
        let t = (on_payload lib (with_buffer s rest) p).0 in
        let both : any confirms (p ∷ payloads fuel rest) ≡ false =
          ap (any confirms) (sym (payloads_whole fuel s.read_buffer p rest e)) ∙ h in
        let same : t.read_buffer ≡ rest = on_payload-read_buffer lib (with_buffer s rest) p in
        let others : any confirms (payloads fuel t.read_buffer) ≡ false =
          subst (λ b. any confirms (payloads fuel b) ≡ false) (sym same) (ground (arith, both)) in
        rw (e, drain)
          (StaysOut-chained.chains s (on_payload lib (with_buffer s rest) p) (drain lib fuel t)
            (on_payload-StaysOut s rest p (ground (arith, both))) (drain-StaysOut fuel t others))
  ]

  step-StaysOut :
      (s : Greeter) (e : Event) → any confirms (arriving s e) ≡ false → StaysOut s (step lib s e)
  unfolding step start_auth submit_password begin_session send_create_session on_error on_ready_read
  step-StaysOut s (bytes_arrive chunk) h =
      drain-StaysOut (suc (length (s.read_buffer ++ chunk)))
        (with_buffer s (s.read_buffer ++ chunk)) h
  step-StaysOut s (auth_starts username password) h = λ v. (ground arith, ground arith)
  step-StaysOut s (password_submitted password) h = λ v. (ground arith, ground arith)
  step-StaysOut s session_starts h = λ v. (ground arith, ground arith)
  step-StaysOut s socket_connected h = λ v. (ground arith, ground arith)
  step-StaysOut s (socket_fails message) h = λ v. (ground arith, ground arith)
  step-StaysOut s (socket_moves socket) h = λ v. (ground arith, ground arith)

  run-StaysOut :
      (s : Greeter) (es : List Event)
      → any confirms (received s es) ≡ false
      → StaysOut s (run lib s es)
  unfolding run
  run-StaysOut s [] h = StaysOut-chained.stays s
  run-StaysOut s (e ∷ es) h =
      let t = (step lib s e).0 in
      let both : (any confirms (arriving s e) || any confirms (received t es)) ≡ false =
        sym (any-append confirms (arriving s e) (received t es)) ∙ h in
      StaysOut-chained.chains s (step lib s e) (run lib t es)
        (step-StaysOut s e (ground (arith, both))) (run-StaysOut t es (ground (arith, both)))

  -- If none of the payloads that greetd sends during a history is a success, then the history logs
  -- nobody in and does not make the greeter ask for a session.
  pub no_session_without_success :
      (es : List Event) (env : Text)
      → any confirms (received (init env) es) ≡ false
      → let (s, out) = run lib (init env) es in
        (s.authenticated ≡ false) × (any starts_session out ≡ false)
  unfolding init
  no_session_without_success es env h =
      let stays = run-StaysOut (init env) es h refl in (run-Inv lib es env ∙ stays.0, stays.1)
