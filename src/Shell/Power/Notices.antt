-- ===== src/Shell/Power/Notices.antt =====
-- The signals of a scan in desktop/shell/src/PowerStatus.cpp.
use nira_os.Base.{
  ◌≡◌, refl, ◌∙◌, ◌⊎◌, inl, inr, ℤ, int_eq, Bool, true, false, not, Option, none, some, List, [],
  ◌∷◌, ◌++◌, any, any-append, Text, lit, text_eq, is_empty, if◌then◌else◌, arith,
}
use nira_os.Shell.Power.{
  PowerStatus, Signal, present_changed, percent_changed, status_changed, Done, Sys, set_present,
  ◌>>◌, find_battery, take_capacity, take_status, read_battery, scan,
}

abbrev pub is_present_changed : Signal → Bool
is_present_changed present_changed = true
is_present_changed signal = false

abbrev pub is_percent_changed : Signal → Bool
is_percent_changed percent_changed = true
is_percent_changed signal = false

abbrev pub is_status_changed : Signal → Bool
is_status_changed status_changed = true
is_status_changed signal = false

-- What QML reads of the battery is as before, or its signal is sent.
abbrev pub IsTold : PowerStatus → Done → Type 0
IsTold s r =
    ((r.0.present ≡ s.present) ⊎ (any is_present_changed r.1 ≡ true))
    × ((r.0.percent ≡ s.percent) ⊎ (any is_percent_changed r.1 ≡ true))
    × ((r.0.status ≡ s.status) ⊎ (any is_status_changed r.1 ≡ true))

one_told :
    {A : Type 0} {a b c : A} (p : Signal → Bool) (xs ys : List Signal)
    → (b ≡ a) ⊎ (any p xs ≡ true)
    → (c ≡ b) ⊎ (any p ys ≡ true)
    → (c ≡ a) ⊎ (any p (xs ++ ys) ≡ true)
one_told p xs ys (inl e) (inl f) = inl (f ∙ e)
one_told p xs ys (inr h) k = inr (ground (arith, h, any-append p xs ys))
one_told p xs ys (inl e) (inr k) = inr (ground (arith, k, any-append p xs ys))

then-IsTold :
    (s : PowerStatus) (r : Done) (f : PowerStatus → Done)
    → IsTold s r
    → IsTold r.0 (f r.0)
    → IsTold s (r >> f)
then-IsTold s (t, xs) f (a, b, c) (a', b', c') = (
  one_told is_present_changed xs (f t).1 a a',
  one_told is_percent_changed xs (f t).1 b b',
  one_told is_status_changed xs (f t).1 c c',
)

pick-IsTold :
    (s : PowerStatus) (b : Bool) (x y : Done)
    → IsTold s x
    → IsTold s y
    → IsTold s (if b then x else y)
pick-IsTold s true x y hx hy = hx
pick-IsTold s false x y hx hy = hy

set_present-IsTold : (s : PowerStatus) (b : Bool) → IsTold s (set_present s b)
unfolding set_present
set_present-IsTold s true =
    pick-IsTold s (not s.present) _ (s, []) (inr refl, inl refl, inl refl)
      (inl refl, inl refl, inl refl)
set_present-IsTold s false =
    pick-IsTold s s.present _ (s, []) (inr refl, inl refl, inl refl) (inl refl, inl refl, inl refl)

module _ (trimmed : Text → Text) (to_int : Text → Option ℤ) where
  capacity-IsTold :
      (s : PowerStatus) (p : Option ℤ)
      → IsTold s (elim p [
        | none ↦ (s, [])
        | some p ↦
            if not (int_eq p s.percent)
            then (record s { percent = p }, percent_changed ∷ [])
            else (s, [])
      ])
  capacity-IsTold s none = (inl refl, inl refl, inl refl)
  capacity-IsTold s (some p) =
      pick-IsTold s (not (int_eq p s.percent)) _ (s, []) (inl refl, inr refl, inl refl)
        (inl refl, inl refl, inl refl)

  take_capacity-IsTold :
      (s : PowerStatus) (text : Option Text) → IsTold s (take_capacity trimmed to_int text s)
  unfolding take_capacity
  take_capacity-IsTold s none = (inl refl, inl refl, inl refl)
  take_capacity-IsTold s (some text) = capacity-IsTold s (to_int (trimmed text))

  take_status-IsTold :
      (s : PowerStatus) (text : Option Text) → IsTold s (take_status trimmed to_int text s)
  unfolding take_status
  take_status-IsTold s none = (inl refl, inl refl, inl refl)
  take_status-IsTold s (some text) =
      pick-IsTold s (not (text_eq (trimmed text) s.status)) _ (s, []) (inl refl, inl refl, inr refl)
        (inl refl, inl refl, inl refl)

  read_battery-IsTold :
      (s : PowerStatus) (read_file : Text → Option Text) (dir : Text)
      → IsTold s (read_battery trimmed to_int s read_file dir)
  unfolding read_battery
  read_battery-IsTold s read_file dir =
      let at : PowerStatus = record s { battery_dir = dir } in
      let first = take_capacity trimmed to_int (read_file (dir ++ lit "/capacity")) at in
      pick-IsTold s (is_empty dir) _ _ (set_present-IsTold s false) (
        then-IsTold s (first >> take_status trimmed to_int (read_file (dir ++ lit "/status")))
          (λ t. set_present t true)
          (then-IsTold s first (take_status trimmed to_int (read_file (dir ++ lit "/status")))
            (take_capacity-IsTold at (read_file (dir ++ lit "/capacity")))
            (take_status-IsTold first.0 (read_file (dir ++ lit "/status"))))
          (set_present-IsTold _ true))

  -- Whatever the files of the system hold at a scan: if the scan changes whether there is a battery,
  -- its percentage or its status, it sends the signal that says so.
  pub scan-IsTold : (s : PowerStatus) (sys : Sys) → IsTold s (scan trimmed to_int s sys)
  unfolding scan
  scan-IsTold s sys = found sys.supplies
    where
      found :
          (supplies : Option (List Text))
          → IsTold s (elim supplies [
            | none ↦ set_present s false
            | some paths ↦
                read_battery trimmed to_int s sys.read_file
                  (find_battery trimmed to_int sys.read_file paths)
          ])
      found none = set_present-IsTold s false
      found (some paths) =
          read_battery-IsTold s sys.read_file (find_battery trimmed to_int sys.read_file paths)
