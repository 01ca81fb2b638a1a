-- ===== src/Greeter/Wire.antt =====
-- The frames of greetd-ipc, as `sendJson` writes and `onReadyRead` reads them: a 32-bit length and
-- that many bytes.
use nira_os.Base.{
  ℕ, suc, ◌+◌, ◌*◌, ◌/◌, ◌%◌, ◌^◌, ◌≤◌, ◌<◌, ◌≡◌, refl, ap, ◌∙◌, ◌==◌, ltb, ◌||◌, [], ◌∷◌, ◌++◌,
  Text, arith, length, take, drop, length-append, length-drop, take_of_append, drop_of_append,
  take-append_of_le, drop-append_of_le, if◌then◌else◌,
}

abbrev pub max_payload_length : ℕ
max_payload_length = 1024 * 1024

-- The bytes of a `quint32`, least first.
abbrev pub bytes32 : ℕ → Text
bytes32 n = (n % 256) ∷ (n / 256 % 256) ∷ (n / 65536 % 256) ∷ (n / 16777216 % 256) ∷ []

-- `memcpy` of the first four bytes into a `quint32`; the source asks only when they are there.
unfoldable pub read32 : Text → ℕ
read32 (a ∷ b ∷ c ∷ d ∷ _) = a + 256 * b + 65536 * c + 16777216 * d
read32 _ = 0

-- The two writes of `sendJson`.
unfoldable pub frame : Text → Text
frame payload = bytes32 (length payload % 2 ^ 32) ++ payload

pub data Frame : Type 0 where
  incomplete invalid : Frame
  whole : Text → Text → Frame

-- The tests of one round of `onReadyRead`: the payload and what is left of the buffer, if it holds
-- one more frame.
unfoldable pub next_frame : Text → Frame
unfolding read32
next_frame buffer =
    let payload_length = read32 buffer in
    let frame_length = 4 + payload_length in
    if ltb (length buffer) 4
    then incomplete
    else if payload_length == 0 || ltb max_payload_length payload_length
    then invalid
    else if ltb (length buffer) frame_length
    then incomplete
    else whole (take payload_length (drop 4 buffer)) (drop frame_length buffer)

read32-bytes32 : (n : ℕ) (rest : Text) → n < 2 ^ 32 → read32 (bytes32 n ++ rest) ≡ n
unfolding read32
read32-bytes32 n rest h = omega arith

read32-append : (a b : Text) → 4 ≤ length a → read32 (a ++ b) ≡ read32 a
unfolding read32
read32-append [] b h = absurd (omega arith)
read32-append (w ∷ []) b h = absurd (omega arith)
read32-append (w ∷ x ∷ []) b h = absurd (omega arith)
read32-append (w ∷ x ∷ y ∷ []) b h = absurd (omega arith)
read32-append (w ∷ x ∷ y ∷ z ∷ a) b h = refl

-- What the tests of a round have shown when they yield a frame.
abbrev Yields : Text → Text → Text → Type 0
Yields a payload rest =
    (4 ≤ length a)
    × (0 < read32 a)
    × (read32 a ≤ max_payload_length)
    × (4 + read32 a ≤ length a)
    × (take (read32 a) (drop 4 a) ≡ payload)
    × (drop (4 + read32 a) a ≡ rest)

next_frame-Yields :
    (a : Text) {payload rest : Text} → next_frame a ≡ whole payload rest → Yields a payload rest
unfolding next_frame
next_frame-Yields a h = ground arith

Yields-next_frame :
    (a : Text) {payload rest : Text} → Yields a payload rest → next_frame a ≡ whole payload rest
unfolding next_frame
Yields-next_frame a y = ground arith

drop-prefix : (n w x y z : ℕ) (a : Text) → drop (4 + n) (w ∷ x ∷ y ∷ z ∷ a) ≡ drop n a
drop-prefix n w x y z a = let e : 4 + n ≡ suc (suc (suc (suc n))) = omega arith in rw e

-- A frame that was written is read back whole, whatever follows it.
pub next_frame-frame :
    (payload rest : Text)
    → 0 < length payload
    → length payload ≤ max_payload_length
    → next_frame (frame payload ++ rest) ≡ whole payload rest
unfolding frame
next_frame-frame payload rest h k =
    let small : length payload % 2 ^ 32 ≡ length payload = omega arith in
    let size : read32 (frame payload ++ rest) ≡ length payload =
      read32-bytes32 (length payload % 2 ^ 32) (payload ++ rest) (omega arith) ∙ small in
    Yields-next_frame (frame payload ++ rest) (
      omega arith,
      omega (arith, size),
      omega (arith, size),
      omega (arith, size, length-append payload rest),
      rw size (take_of_append payload rest),
      rw (size, drop-prefix) (drop_of_append payload rest),
    )

-- What is read as a frame stays that frame when more bytes arrive behind it.
pub next_frame-append :
    (a b : Text) {payload rest : Text}
    → next_frame a ≡ whole payload rest
    → next_frame (a ++ b) ≡ whole payload (rest ++ b)
next_frame-append a b {payload} {rest} h =
    let y : Yields a payload rest = next_frame-Yields a h in
    let e : read32 (a ++ b) ≡ read32 a = read32-append a b y.0 in
    Yields-next_frame (a ++ b) (
      omega (arith, y, length-append a b),
      omega (arith, y, e),
      omega (arith, y, e),
      omega (arith, y, e, length-append a b),
      rw
          (
            e,
            drop-append_of_le 4 a b y.0,
            take-append_of_le (read32 a) (drop 4 a) b (omega (arith, y, length-drop 4 a)),
          )
          y.4,
      rw (e, drop-append_of_le (4 + read32 a) a b y.3, y.5),
    )

pub next_frame-shorter :
    (a : Text) {payload rest : Text} → next_frame a ≡ whole payload rest → length rest < length a
next_frame-shorter a h = omega (
  arith,
  next_frame-Yields a h,
  ap length (next_frame-Yields a h).5,
  length-drop (4 + read32 a) a,
)
