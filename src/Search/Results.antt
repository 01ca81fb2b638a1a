-- ===== src/Search/Results.antt =====
-- What a search of SearchIndexer.cpp finds.
use nira_os.Base.{
  ◌≡◌, refl, sym, ◌∙◌, ℕ, zero, suc, ◌+◌, ◌≤◌, ltb, Bool, ◌&&◌, Bool-cases, inl, inr, List, [], ◌∷◌,
  ◌++◌, map, append-nil, append_assoc, length, length-append, take, length-take-le, keep, Text,
  contains, if◌then◌else◌, if_of_true, if_of_false, arith, is_empty, false,
}
use nira_os.Search.{
  SearchIndexer, results_found, search_finished, search, on_finished, complete, FileInfo, Found, Qt,
  max_results, found, search_file, search_files, perform_search,
}

module _ (qt : Qt) where
  open qt use {trimmed, to_lower, fold, walk}

  -- The file is shown for the query.
  abbrev pub is_hit : Text → FileInfo → Bool
  is_hit query fi = contains (fold fi.name) (fold (to_lower query)) && fi.is_readable

  search_file_lem :
      (query : Text) (fi : FileInfo)
      → search_file qt (to_lower query) fi ≡ (if is_hit query fi then found qt fi ∷ [] else [])
  unfolding search_file
  search_file_lem query fi = ground arith

  -- All that there is to find, in the order of the iterator.
  abbrev pub hits : Text → List FileInfo → List Found
  hits query files = map (found qt) (keep (is_hit query) files)

  search_files_lem :
      (query : Text) (files : List FileInfo) (results : List Found) (room : ℕ)
      → length results + room ≡ max_results
      → search_files qt (to_lower query) files results ≡ results ++ take room (hits query files)
  unfolding search_files
  search_files_lem query [] results zero h = sym (append-nil results)
  search_files_lem query [] results (suc room) h = sym (append-nil results)
  search_files_lem query (fi ∷ files) results zero h =
      if_of_false (ltb (length results) max_results) _ results (ground (arith, h))
      ∙ sym (append-nil results)
  search_files_lem query (fi ∷ files) results (suc room) h =
      if_of_true (ltb (length results) max_results) _ results (ground (arith, h))
      ∙ elim (Bool-cases (is_hit query fi)) [
        | inl hit ↦
            rw (search_file_lem query fi, hit)
              (search_files_lem query files (results ++ found qt fi ∷ []) room
                  (omega (arith, h, length-append results (found qt fi ∷ [])))
                ∙ append_assoc results (found qt fi ∷ []) (take room (hits query files)))
        | inr other ↦
            rw (search_file_lem query fi, other, append-nil)
              (search_files_lem query files results (suc room) h)
      ]

  -- A search finds the first 500 of the readable files whose names have the query in them, cases
  -- aside, in the order of the iterator, and no more than 500.
  pub perform_search-take :
      (root_path query : Text)
      → (perform_search qt root_path query ≡ take max_results (hits query (walk root_path)))
        × (length (perform_search qt root_path query) ≤ 500)
  unfolding perform_search
  perform_search-take root_path query =
      let first = search_files_lem query (walk root_path) [] max_results refl in
      (first, rw first (length-take-le max_results (hits query (walk root_path))))

  -- A search that a later one follows before it has been reported is never reported: what is told
  -- then are the results of the later one, and that it was not cancelled.
  pub later_search_reports :
      (s : SearchIndexer) (root query later_root later_query : Text)
      → is_empty (trimmed later_query) ≡ false
      → (on_finished qt
          (complete (search qt (search qt s root query).0 later_root later_query).0)).1
        ≡ results_found (perform_search qt later_root (trimmed later_query))
          ∷ search_finished false
          ∷ []
  unfolding search on_finished complete
  later_search_reports s root query later_root later_query some_query = rw some_query refl
