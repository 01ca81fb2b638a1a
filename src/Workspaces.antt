-- ===== src/Workspaces.antt =====
-- desktop/shell/src/WorkspaceController.h and WorkspaceController.cpp: the workspaces that the shell
-- shows. What the compositor answers over D-Bus is an argument of the probe.
use nira_os.Base.{
  ℕ, zero, suc, ◌+◌, ℤ, pos, negsuc, int_eq, lt_int, is_negative, ◌+ℤ◌, ◌%ℤ◌, Bool, true, false,
  not, ◌&&◌, ◌||◌, Option, none, some, List, [], ◌∷◌, ◌++◌, Text, lit, text_eq, is_empty,
  if◌then◌else◌,
}
pub mod Moves
pub mod Cycle
mod Tests

pub record WorkspaceController : Type 0 where
  pub has_iface : Bool
  pub count : ℤ
  pub current : ℤ
  pub names : List Text

-- Signals, and the call of the compositor.
pub data Effect : Type 0 where
  count_changed current_changed names_changed : Effect
  switch_call : ℤ → Effect

abbrev pub Done : Type 0
Done = WorkspaceController × List Effect

-- The session bus and the compositor at one probe; an answer that is not valid is nothing.
pub record Compositor : Type 0 where
  pub is_registered : Bool
  pub is_valid : Bool
  pub count_reply : Option ℤ
  pub current_reply : Option ℤ
  pub names_reply : Option (List Text)

unfoldable pub texts_eq : List Text → List Text → Bool
texts_eq [] [] = true
texts_eq [] (_ ∷ _) = false
texts_eq (_ ∷ _) [] = false
texts_eq (s ∷ ss) (t ∷ ts) = text_eq s t && texts_eq ss ts

abbrev pub first_names : List Text
first_names = lit "Workspace 1" ∷ []

unfoldable pub set_count : WorkspaceController → ℤ → Done
set_count s n =
    if not (int_eq s.count n) then (record s { count = n }, count_changed ∷ []) else (s, [])

unfoldable pub set_current : WorkspaceController → ℤ → Done
set_current s n =
    if not (int_eq s.current n) then (record s { current = n }, current_changed ∷ []) else (s, [])

-- One step after another.
infixl 5 ◌>>◌
abbrev pub ◌>>◌ : Done → (WorkspaceController → Done) → Done
(s, xs) >> f = let (t, ys) = f s in (t, xs ++ ys)

-- Without a compositor that has workspaces there is one.
unfoldable pub set_single : WorkspaceController → Done
set_single s = set_count s (pos 1) >> (λ t. set_current t (pos 0)) >> λ t.
    if not (texts_eq t.names first_names)
    then (record t { names = first_names }, names_changed ∷ [])
    else (t, [])

abbrev pub take_reply {ℓ} :
    {A : Type ℓ} → Option A → (WorkspaceController → A → Done) → WorkspaceController → Done
take_reply none f s = (s, [])
take_reply (some a) f s = f s a

-- `number` is how Qt prints an integer.
module _ (number : ℕ → Text) where
  -- The names from `i` on: the loop has `rounds` to go.
  unfoldable pub default_names : ℕ → ℕ → List Text
  default_names i zero = []
  default_names i (suc rounds) = (lit "Workspace " ++ number (i + 1)) ∷ default_names (i + 1) rounds

  unfoldable pub set_names : WorkspaceController → List Text → Done
  set_names s names =
      if not (texts_eq names s.names)
      then (
        record s {
          names =
              if is_empty names
              then elim s.count [ pos n ↦ default_names 0 n | negsuc n ↦ [] ]
              else names;
        },
        names_changed ∷ [],
      )
      else (s, [])

  unfoldable pub read_state : WorkspaceController → Compositor → Done
  read_state s c =
      take_reply c.count_reply set_count s
      >> take_reply c.current_reply set_current
      >> take_reply c.names_reply set_names

  unfoldable pub probe : WorkspaceController → Compositor → Done
  probe s c =
      let has = if c.is_registered then c.is_valid else s.has_iface in
      let t : WorkspaceController = record s { has_iface = has } in
      if not has then set_single t else read_state t c

  unfoldable pub init : Compositor → Done
  init c =
      probe (record { has_iface = false; count = pos 1; current = pos 0; names = first_names }) c

unfoldable pub switch_to : WorkspaceController → ℤ → Done
switch_to s index =
    if not s.has_iface || is_negative index || not (lt_int index s.count)
    then (s, [])
    else if not (int_eq index s.current)
    then (record s { current = index }, switch_call index ∷ current_changed ∷ [])
    else (s, switch_call index ∷ [])

unfoldable pub next : WorkspaceController → Done
next s =
    if not (lt_int (pos 1) s.count) then (s, []) else switch_to s ((s.current +ℤ pos 1) %ℤ s.count)

unfoldable pub previous : WorkspaceController → Done
previous s =
    if not (lt_int (pos 1) s.count)
    then (s, [])
    else switch_to s ((s.current +ℤ negsuc 0 +ℤ s.count) %ℤ s.count)
