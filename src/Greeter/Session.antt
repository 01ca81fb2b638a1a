-- ===== src/Greeter/Session.antt =====
-- Runs of the greeter: what holds after every history of QML calls and socket signals.
use nira_os.Base.{
  ℕ, zero, suc, ◌≡◌, refl, Bool, true, false, List, [], ◌∷◌, ◌++◌, Text, arith, All, All-trivial,
  inl, inr,
}
use nira_os.Greeter.{
  Library, Greeter, Result, Phase, authenticated, starting_session, Socket, connected, init,
  start_auth, send_create_session, submit_password, begin_session, on_payload, reject_stream, drain,
  on_ready_read, on_error,
}
use nira_os.Greeter.Wire.{next_frame}
use nira_os.Greeter.Framing.{with_buffer, Frame-cases}

-- QML's three calls, and what the socket reports. `socket_moves` is a change of the socket's state
-- that no signal of the greeter announces.
pub data Event : Type 0 where
  auth_starts : Text → Text → Event
  password_submitted : Text → Event
  session_starts socket_connected : Event
  bytes_arrive : Text → Event
  socket_fails : Text → Event
  socket_moves : Socket → Event

module _ (lib : Library) where
  unfoldable pub step : Greeter → Event → Result
  step s (auth_starts username password) = start_auth lib s username password
  step s (password_submitted password) = submit_password lib s password
  step s session_starts = begin_session lib s
  step s socket_connected = send_create_session lib (record s { socket = connected })
  step s (bytes_arrive chunk) = on_ready_read lib s chunk
  step s (socket_fails message) = on_error lib s message
  step s (socket_moves socket) = (record s { socket = socket }, [])

  unfoldable pub run : Greeter → List Event → Result
  run s [] = (s, [])
  run s (e ∷ es) = let (t, out) = step s e in let (u, more) = run t es in (u, out ++ more)

-- What relates a state to the result of a method, and stays true of results in a row.
pub record IsChained (R : Greeter → Result → Type 0) : Type 0 where
  pub stays : (s : Greeter) → R s (s, [])
  pub chains : (s : Greeter) (m n : Result) → R s m → R m.0 n → R s (n.0, m.1 ++ n.1)

module _ (lib : Library) (R : Greeter → Result → Type 0) (c : IsChained R) where
  drain-chained :
      ((s : Greeter) (rest p : Text) → R s (on_payload lib (with_buffer s rest) p))
      → ((s : Greeter) → R s (reject_stream lib s))
      → (fuel : ℕ) (s : Greeter) → R s (drain lib fuel s)
  unfolding drain
  drain-chained payload reject zero s = c.stays s
  drain-chained payload reject (suc fuel) s = elim (Frame-cases (next_frame s.read_buffer)) [
    | inl e ↦ rw (e, drain) (c.stays s)
    | inr (inl e) ↦ rw (e, drain) (reject s)
    | inr (inr (p, rest, e)) ↦
        rw (e, drain)
          (c.chains s (on_payload lib (with_buffer s rest) p) _ (payload s rest p)
            (drain-chained payload reject fuel _))
  ]

  pub on_ready_read-chained :
      ((s : Greeter) (rest p : Text) → R s (on_payload lib (with_buffer s rest) p))
      → ((s : Greeter) → R s (reject_stream lib s))
      → ((s : Greeter) (b : Text) → R s (with_buffer s b, []))
      → (s : Greeter) (chunk : Text) → R s (on_ready_read lib s chunk)
  unfolding on_ready_read
  on_ready_read-chained payload reject buffer s chunk =
      c.chains s (with_buffer s (s.read_buffer ++ chunk), []) _ (buffer s _)
        (drain-chained payload reject _ _)

  pub run-chained :
      (P : Event → Type 0)
      → ((s : Greeter) (e : Event) → P e → R s (step lib s e))
      → (s : Greeter) (es : List Event) → All P es
      → R s (run lib s es)
  unfolding run
  run-chained P one s [] h = c.stays s
  run-chained P one s (e ∷ es) h =
      c.chains s (step lib s e) _ (one s e h.0) (run-chained P one (step lib s e).0 es h.1)

-- The phases in which the user counts as logged in.
abbrev pub is_logged_in : Phase → Bool
is_logged_in authenticated = true
is_logged_in starting_session = true
is_logged_in _ = false

abbrev pub Inv : Greeter → Type 0
Inv s = s.authenticated ≡ is_logged_in s.phase

abbrev KeepsInv : Greeter → Result → Type 0
KeepsInv s m = Inv s → Inv m.0

KeepsInv-chained : IsChained KeepsInv
KeepsInv-chained = record { stays = λ s v. v; chains = λ s m n f g v. g (f v) }

module _ (lib : Library) where
  on_payload-Inv :
      (s : Greeter) (rest p : Text) → KeepsInv s (on_payload lib (with_buffer s rest) p)
  unfolding on_payload
  on_payload-Inv s rest p v = ground arith

  reject_stream-Inv : (s : Greeter) → KeepsInv s (reject_stream lib s)
  unfolding reject_stream
  reject_stream-Inv s v = refl

  step-Inv : (s : Greeter) (e : Event) → KeepsInv s (step lib s e)
  unfolding step start_auth submit_password begin_session send_create_session on_error
  step-Inv s (bytes_arrive chunk) =
      on_ready_read-chained lib KeepsInv KeepsInv-chained on_payload-Inv reject_stream-Inv
        (λ s b v. v) s chunk
  step-Inv s e = λ v. ground arith

  -- After any history of calls and signals `authenticated` says exactly that the greeter is in one
  -- of the two phases that follow greetd's success.
  pub run-Inv : (es : List Event) (env : Text) → Inv (run lib (init env) es).0
  unfolding init
  run-Inv es env =
      run-chained lib KeepsInv KeepsInv-chained (λ e. Unit {0}) (λ s e _. step-Inv s e) (init env)
        es (All-trivial es) refl
