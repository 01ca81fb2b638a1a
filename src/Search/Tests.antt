-- ===== src/Search/Tests.antt =====
-- One instance of each theorem on the search.
use nira_os.Base.{◌≡◌, ◌≤◌, true, false, [], ◌∷◌, take, length}
use nira_os.Search.{FileInfo, Qt, max_results, perform_search}
use nira_os.Search.Results.{hits, perform_search-take}

abbrev note : FileInfo
note = record {
  name = 110 ∷ 111 ∷ [];
  path = [];
  mime_type = [];
  size = 2000;
  modified = 0;
  is_dir = false;
  is_hidden = false;
  is_readable = true;
}

abbrev plain : Qt
plain = record {
  trimmed = λ t. t;
  to_lower = λ t. t;
  fold = λ t. t;
  number = λ n. [];
  quotient = λ a b c. [];
  walk = λ root. note ∷ record note { is_readable = false } ∷ [];
}

perform_search-take_example :
    (perform_search plain [] (111 ∷ []) ≡ take max_results (hits plain (111 ∷ []) (plain.walk [])))
    × (length (perform_search plain [] (111 ∷ [])) ≤ 500)
perform_search-take_example = perform_search-take plain [] (111 ∷ [])
