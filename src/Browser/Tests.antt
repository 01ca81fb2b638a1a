-- ===== src/Browser/Tests.antt =====
-- One instance of each theorem on the connections.
use nira_os.Base.{◌≡◌, refl, [], ◌∷◌}
use nira_os.FileModel
use nira_os.FileModel.{Qt, compare_numbers}
use nira_os.Base.{length}
use nira_os.Watcher
use nira_os.Browser.{Browser, start}
use nira_os.Browser.Wiring.{
  InSync, run, opened, went_up, debounced, dir_reported, run-InSync, home_is_not_watched,
}
use nira_os.Base.{true, false}

abbrev flat : Qt
flat = record {
  exists = λ p. true;
  is_dir = λ p. true;
  is_root = λ p. false;
  dir_exists = λ p. true;
  entry_info_list = λ p. [];
  absolute_file_path = λ p. p;
  parent_dir = λ p. 47 ∷ [];
  cd_up = λ p. 47 ∷ [];
  to_lower = λ t. t;
  compare_ignoring_case = λ s t. compare_numbers (length s) (length t);
}

abbrev empty : Browser
empty = record { model = FileModel.init; watcher = Watcher.init }

run-InSync_example : InSync (
    run flat empty (opened (47 ∷ 97 ∷ []) ∷ dir_reported (47 ∷ 97 ∷ []) ∷ debounced ∷ went_up ∷ []))
run-InSync_example =
    run-InSync flat empty
      (opened (47 ∷ 97 ∷ []) ∷ dir_reported (47 ∷ 97 ∷ []) ∷ debounced ∷ went_up ∷ [])
      (unfold FileModel.init Watcher.init in refl)

home_is_not_watched_example :
    let b = run flat (start flat (47 ∷ 104 ∷ [])) (dir_reported (47 ∷ 104 ∷ []) ∷ debounced ∷ []) in
    (b.model.current_path ≡ 47 ∷ 104 ∷ []) × (b.watcher.watched_path ≡ [])
home_is_not_watched_example =
    home_is_not_watched flat (47 ∷ 104 ∷ []) (dir_reported (47 ∷ 104 ∷ []) ∷ debounced ∷ []) refl
      refl
