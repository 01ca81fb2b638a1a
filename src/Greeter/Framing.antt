-- ===== src/Greeter/Framing.antt =====
-- `onReadyRead` as a whole: it hands over the payloads that were framed, however the bytes are cut
-- into chunks.
use nira_os.Base.{
  ℕ, zero, suc, ◌<◌, ◌≤◌, ◌≡◌, refl, sym, ap, List, [], ◌∷◌, ◌++◌, Text, arith, length,
  length-append, append_assoc, All, inl, inr, ◌⊎◌,
}
use nira_os.Greeter.{Library, Greeter, Result, drain, on_payload, on_ready_read}
use nira_os.Greeter.Wire.{
  max_payload_length, frame, Frame, incomplete, invalid, whole, next_frame, next_frame-frame,
  next_frame-append, next_frame-shorter,
}

-- The buffer holds these frames and then a part of one.
pub data Splits : Text → List Text → Text → Type 0 where
  done : {b : Text} → next_frame b ≡ incomplete → Splits b [] b
  more :
      {b payload rest r : Text} {ps : List Text}
      → next_frame b ≡ whole payload rest
      → Splits rest ps r
      → Splits b (payload ∷ ps) r

pub Frame-cases :
    (x : Frame) → (x ≡ incomplete) ⊎ (x ≡ invalid) ⊎ ((p : Text) × (r : Text) × (x ≡ whole p r))
Frame-cases incomplete = inl refl
Frame-cases invalid = inr (inl refl)
Frame-cases (whole p r) = inr (inr (p, r, refl))

abbrev pub with_buffer : Greeter → Text → Greeter
with_buffer s b = record s { read_buffer = b }

module _ (lib : Library) where
  -- Payload after payload, as the loop body handles them.
  pub handle_all : List Text → Greeter → Result
  handle_all [] s = (s, [])
  handle_all (p ∷ ps) s =
      let (t, out) = on_payload lib s p in
      let (u, more_out) = handle_all ps t in (u, out ++ more_out)

  -- A payload is handled without regard to the buffer.
  on_payload-with_buffer :
      (s : Greeter) (p b : Text)
      → on_payload lib (with_buffer s b) p
        ≡ (with_buffer (on_payload lib s p).0 b, (on_payload lib s p).1)
  unfolding on_payload
  on_payload-with_buffer s p b = ground arith

  pub on_payload-read_buffer :
      (s : Greeter) (p : Text) → (on_payload lib s p).0.read_buffer ≡ s.read_buffer
  unfolding on_payload
  on_payload-read_buffer s p = ground arith

  -- Fuel beyond the buffer's length makes no difference.
  drain_fuel :
      (f g : ℕ) (s : Greeter)
      → length s.read_buffer < f
      → length s.read_buffer < g
      → drain lib f s ≡ drain lib g s
  unfolding drain
  drain_fuel zero g s h k = absurd (omega arith)
  drain_fuel (suc f) zero s h k = absurd (omega arith)
  drain_fuel (suc f) (suc g) s h k = elim (Frame-cases (next_frame s.read_buffer)) [
    | inl e ↦ rw (e, drain)
    | inr (inl e) ↦ rw (e, drain)
    | inr (inr (p, rest, e)) ↦
        let b = on_payload-read_buffer (with_buffer s rest) p in
        let n = next_frame-shorter s.read_buffer e in
        rw (e, drain)
          (rw (
            drain_fuel f g (on_payload lib (with_buffer s rest) p).0 (omega (arith, ap length b, n))
              (omega (arith, ap length b, n))))
  ]

  -- A result, and what happens next.
  abbrev pub andthen : Result → (Greeter → Result) → Result
  andthen (t, out) f = ((f t).0, out ++ (f t).1)

  andthen_assoc :
      (m : Result) (f g : Greeter → Result)
      → andthen (andthen m f) g ≡ andthen m (λ t. andthen (f t) g)
  andthen_assoc (t, out) f g = ap (λ o. ((g (f t).0).0, o)) (append_assoc out (f t).1 (g (f t).0).1)

  drain_whole :
      (f : ℕ) (s : Greeter) {p rest : Text}
      → next_frame s.read_buffer ≡ whole p rest
      → drain lib (suc f) s ≡ andthen (on_payload lib (with_buffer s rest) p) (drain lib f)
  unfolding drain
  drain_whole f s e = rw (e, drain)

  drain_incomplete :
      (f : ℕ) (s : Greeter) → next_frame s.read_buffer ≡ incomplete → drain lib f s ≡ (s, [])
  unfolding drain
  drain_incomplete zero s e = refl
  drain_incomplete (suc f) s e = rw (e, drain)

  drain-Splits :
      {b r : Text} {ps : List Text} (fuel : ℕ) (c : Text) (s : Greeter)
      → Splits b ps r
      → length (b ++ c) < fuel
      → drain lib fuel (with_buffer s (b ++ c))
        ≡ andthen
            (handle_all ps s)
            (λ t. drain lib (suc (length (r ++ c))) (with_buffer t (r ++ c)))
  unfolding handle_all
  drain-Splits {b} fuel c s (done e) h =
      drain_fuel fuel (suc (length (b ++ c))) (with_buffer s (b ++ c)) h (omega arith)
  drain-Splits zero c s (more e sp) h = absurd (omega arith)
  drain-Splits {b} {r} (suc fuel) c s (more {payload = p} {rest = rest} {ps = ps} e sp) h =
      let shorter : length (rest ++ c) < fuel =
        omega (arith, h, next_frame-shorter b e, length-append b c, length-append rest c) in
      rw
        (
          drain_whole fuel (with_buffer s (b ++ c)) (next_frame-append b c e),
          on_payload-with_buffer s p (rest ++ c),
        )
        (rw (drain-Splits fuel c (on_payload lib s p).0 sp shorter) (
          sym (
            andthen_assoc (on_payload lib s p) (handle_all ps)
              (λ t. drain lib (suc (length (r ++ c))) (with_buffer t (r ++ c))))))

  drain_settled :
      {b r : Text} {ps : List Text} (fuel : ℕ) (s : Greeter)
      → Splits b ps r
      → length b < fuel
      → drain lib fuel (with_buffer s b) ≡ (with_buffer (handle_all ps s).0 r, (handle_all ps s).1)
  unfolding handle_all
  drain_settled {b} fuel s (done e) h = drain_incomplete fuel (with_buffer s b) e
  drain_settled zero s (more e sp) h = absurd (omega arith)
  drain_settled {b} (suc fuel) s (more {payload = p} {rest = rest} {ps = ps} e sp) h =
      let shorter : length rest < fuel = omega (arith, h, next_frame-shorter b e) in
      rw (drain_whole fuel (with_buffer s b) e, on_payload-with_buffer s p rest)
        (rw (drain_settled fuel (on_payload lib s p).0 sp shorter))

  -- Bytes that complete some frames hand over their payloads in order, each one once, and leave the
  -- part of a frame behind them in the buffer.
  pub on_ready_read-Splits :
      (s : Greeter) (chunk : Text) {ps : List Text} {r : Text}
      → Splits (s.read_buffer ++ chunk) ps r
      → on_ready_read lib s chunk ≡ (with_buffer (handle_all ps s).0 r, (handle_all ps s).1)
  unfolding on_ready_read
  on_ready_read-Splits s chunk {ps} {r} sp = drain_settled _ s sp (omega arith)

  -- The same bytes in two chunks have the effects that they have in one.
  pub on_ready_read-append :
      (s : Greeter) (a b : Text) {ps : List Text} {r : Text}
      → Splits (s.read_buffer ++ a) ps r
      → on_ready_read lib s (a ++ b) ≡ andthen (on_ready_read lib s a) (λ t. on_ready_read lib t b)
  unfolding on_ready_read
  on_ready_read-append s a b {ps} {r} sp =
      rw (← append_assoc s.read_buffer a b, on_ready_read-Splits s a sp)
        (drain-Splits _ b s sp (omega arith))

-- A payload that greetd may send: 1 to `MaxPayloadLength` bytes.
abbrev pub IsSized : Text → Type 0
IsSized p = (0 < length p) × (length p ≤ max_payload_length)

abbrev pub frames : List Text → Text
frames [] = []
frames (p ∷ ps) = frame p ++ frames ps

frames-Splits :
    (ps : List Text) (r : Text)
    → All IsSized ps
    → next_frame r ≡ incomplete
    → Splits (frames ps ++ r) ps r
frames-Splits [] r h e = done e
frames-Splits (p ∷ ps) r h e =
    more
      (rw (append_assoc (frame p) (frames ps) r) (next_frame-frame p (frames ps ++ r) h.0.0 h.0.1))
      (frames-Splits ps r h.1 e)

-- Payloads framed as `sendJson` frames them, and followed by a part of a frame, are handled one by one.
pub on_ready_read-frames :
    (lib : Library) (s : Greeter) (ps : List Text) (r : Text)
    → s.read_buffer ≡ []
    → All IsSized ps
    → next_frame r ≡ incomplete
    → on_ready_read lib s (frames ps ++ r)
      ≡ (with_buffer (handle_all lib ps s).0 r, (handle_all lib ps s).1)
on_ready_read-frames lib s ps r clear h e =
    on_ready_read-Splits lib s (frames ps ++ r) (rw clear (frames-Splits ps r h e))
