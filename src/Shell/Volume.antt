-- ===== src/Shell/Volume.antt =====
-- desktop/shell/src/VolumeControl.h and VolumeControl.cpp: the volume of the default output, read and
-- set by the program pactl.
use nira_os.Base.{
  ℤ, pos, int_eq, lt_int, Bool, false, not, same, Option, none, some, List, [], ◌∷◌, ◌++◌, Text,
  lit, contains, is_empty, if◌then◌else◌,
}

pub record VolumeControl : Type 0 where
  pub available : Bool
  pub volume : ℤ
  pub muted : Bool

-- Signals, and the programs that are started: their arguments.
pub data Effect : Type 0 where
  available_changed volume_changed muted_changed : Effect
  started : List Text → Effect

abbrev pub Done : Type 0
Done = VolumeControl × List Effect

-- `qBound(0, percent, 100)`
unfoldable pub bound : ℤ → ℤ
bound percent =
    if lt_int percent (pos 0) then pos 0 else if lt_int (pos 100) percent then pos 100 else percent

unfoldable pub read_state : VolumeControl → Done
read_state s = if not s.available then (s, []) else (
  s,
  started (lit "get-sink-mute" ∷ lit "@DEFAULT_SINK@" ∷ [])
      ∷ started (lit "get-sink-volume" ∷ lit "@DEFAULT_SINK@" ∷ [])
      ∷ [],
)

-- The path of pactl, which is empty if there is none.
unfoldable pub probe_availability : VolumeControl → (pactl_path : Text) → Done
probe_availability s pactl_path =
    (record s { available = not (is_empty pactl_path) }, available_changed ∷ [])

unfoldable pub init : (pactl_path : Text) → Done
init pactl_path =
    let (s, effects) =
      probe_availability (record { available = false; volume = pos 0; muted = false }) pactl_path in
    if s.available then (let (t, more) = read_state s in (t, effects ++ more)) else (s, effects)

unfoldable pub refresh : VolumeControl → Done
refresh s = read_state s

-- The output of get-sink-mute; `fold` is what a comparison that ignores case does to both texts.
unfoldable pub on_mute_read : (fold : Text → Text) → VolumeControl → Text → Done
on_mute_read fold s out =
    let m = contains (fold out) (fold (lit "Mute: yes")) in
    if not (same m s.muted) then (record s { muted = m }, muted_changed ∷ []) else (s, [])

-- The output of get-sink-volume; `first_percentage` is the number of the first match of (\d+)%.
unfoldable pub on_volume_read : (first_percentage : Text → Option ℤ) → VolumeControl → Text → Done
on_volume_read first_percentage s out = elim (first_percentage out) [
  | none ↦ (s, [])
  | some v ↦
      if not (int_eq v s.volume) then (record s { volume = v }, volume_changed ∷ []) else (s, [])
]

unfoldable pub set_volume : (number : ℤ → Text) → VolumeControl → ℤ → Done
set_volume number s percent =
    let v = bound percent in
    if not s.available then (s, []) else if int_eq v s.volume then (s, []) else (
      record s { volume = v },
      started (lit "set-sink-volume" ∷ lit "@DEFAULT_SINK@" ∷ (number v ++ lit "%") ∷ [])
          ∷ volume_changed
          ∷ [],
    )

unfoldable pub toggle_muted : VolumeControl → Done
toggle_muted s = if not s.available then (s, []) else (
  record s { muted = not s.muted },
  started (lit "set-sink-mute" ∷ lit "@DEFAULT_SINK@" ∷ (if s.muted then lit "0" else lit "1") ∷ [])
      ∷ muted_changed
      ∷ [],
)
