-- ===== src/Shell/ProcessLauncher.antt =====
-- desktop/shell/src/ProcessLauncher.cpp: the start of a program from a command line.
use nira_os.Base.{Bool, not, ◌||◌, Option, none, some, List, [], ◌∷◌, Text, is_empty, if◌then◌else◌}

-- Qt's functions on commands and files; an executable that is not found is an empty text.
pub record Qt : Type 0 where
  pub split_command : Text → List Text
  pub is_absolute : Text → Bool
  pub find_executable : Text → Text
  pub is_executable : Text → Bool

module _ (qt : Qt) where
  open qt use {split_command, is_absolute, find_executable, is_executable}

  unfoldable pub resolve : Text → List Text → Option (Text × List Text)
  resolve prog args =
      let executable = if is_absolute prog then prog else find_executable prog in
      if is_empty executable || not (is_executable executable)
      then none
      else some (executable, args)

  -- What is started, detached, with which arguments; nothing if the command is rejected.
  unfoldable pub launch : Text → Option (Text × List Text)
  launch command = elim (split_command command) [ [] ↦ none | prog ∷ args ↦ resolve prog args ]
