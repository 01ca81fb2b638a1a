-- ===== src/Shell/Power.antt =====
-- desktop/shell/src/PowerStatus.h and PowerStatus.cpp: the battery, as the files of the system show it.
use nira_os.Base.{
  ℤ, pos, int_eq, Bool, true, false, not, Option, none, some, List, [], ◌∷◌, ◌++◌, Text, lit,
  text_eq, is_empty, if◌then◌else◌, ◌≡◌, refl, ◌∙◌, ◌⊎◌, inl, inr, ◌||◌, Bool-cases, any,
  any-append, arith,
}
pub mod Notices

pub record PowerStatus : Type 0 where
  pub battery_dir : Text
  pub present : Bool
  pub percent : ℤ
  pub status : Text

pub data Signal : Type 0 where
  present_changed percent_changed status_changed : Signal

abbrev pub Done : Type 0
Done = PowerStatus × List Signal

-- The files below /sys/class/power_supply at one scan: its entries, if it is there, and what a file
-- that can be opened holds.
pub record Sys : Type 0 where
  pub supplies : Option (List Text)
  pub read_file : Text → Option Text

unfoldable pub charging : PowerStatus → Bool
charging s = text_eq s.status (lit "Charging")

unfoldable pub set_present : PowerStatus → Bool → Done
set_present s true =
    if not s.present then (record s { present = true }, present_changed ∷ []) else (s, [])
set_present s false =
    if s.present then (record s { present = false }, present_changed ∷ []) else (s, [])

-- One step after another.
infixl 5 ◌>>◌
abbrev pub ◌>>◌ : Done → (PowerStatus → Done) → Done
(s, xs) >> f = let (t, ys) = f s in (t, xs ++ ys)

module _ (trimmed : Text → Text) (to_int : Text → Option ℤ) where
  abbrev pub is_battery : Option Text → Bool
  is_battery none = false
  is_battery (some text) = text_eq (trimmed text) (lit "Battery")

  -- The first battery, or nothing.
  unfoldable pub find_battery : (read_file : Text → Option Text) → List Text → Text
  find_battery read_file [] = []
  find_battery read_file (path ∷ paths) =
      if is_battery (read_file (path ++ lit "/type")) then path else find_battery read_file paths

  unfoldable pub take_capacity : Option Text → PowerStatus → Done
  take_capacity none s = (s, [])
  take_capacity (some text) s = elim (to_int (trimmed text)) [
    | none ↦ (s, [])
    | some p ↦
        if not (int_eq p s.percent)
        then (record s { percent = p }, percent_changed ∷ [])
        else (s, [])
  ]

  unfoldable pub take_status : Option Text → PowerStatus → Done
  take_status none s = (s, [])
  take_status (some text) s =
      if not (text_eq (trimmed text) s.status)
      then (record s { status = trimmed text }, status_changed ∷ [])
      else (s, [])

  unfoldable pub read_battery : PowerStatus → (read_file : Text → Option Text) → Text → Done
  read_battery s read_file dir =
      if is_empty dir
      then set_present s false
      else take_capacity (read_file (dir ++ lit "/capacity")) (record s { battery_dir = dir })
        >> take_status (read_file (dir ++ lit "/status"))
        >> λ t. set_present t true

  unfoldable pub scan : PowerStatus → Sys → Done
  scan s sys = elim sys.supplies [
    | none ↦ set_present s false
    | some paths ↦ read_battery s sys.read_file (find_battery sys.read_file paths)
  ]

  unfoldable pub refresh : PowerStatus → Sys → Done
  refresh s sys = scan s sys

  unfoldable pub init : Sys → Done
  init sys =
      scan (record { battery_dir = []; present = false; percent = pos 0; status = lit "Unknown" })
        sys
