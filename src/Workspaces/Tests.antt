-- ===== src/Workspaces/Tests.antt =====
-- One instance of each theorem on the workspaces, and a run of the first probe.
use nira_os.Base.{refl, pos, true, [], ◌∷◌}
use nira_os.Workspaces.{WorkspaceController}
use nira_os.Workspaces.Moves.{StaysInRange, moves, went_next, went_previous, moves_stay_in_range}

abbrev third_of_three : WorkspaceController
third_of_three = record { has_iface = true; count = pos 3; current = pos 2; names = [] }

moves_stay_in_range_example :
    StaysInRange third_of_three (moves third_of_three (went_next ∷ went_previous ∷ []))
moves_stay_in_range_example =
    moves_stay_in_range third_of_three (went_next ∷ went_previous ∷ []) (refl, refl)
