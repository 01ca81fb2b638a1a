-- ===== src/FileModel/Order.antt =====
-- The comparison of `sortEntries` in apps/files/src/FileModel.cpp, and what the list is after a load.
use nira_os.Base.{
  ℕ, zero, suc, ℤ, pos, negsuc, int_eq, is_negative, is_positive, ◌≡◌, refl, ◌∙◌, sym, ap, Bool,
  true, false, not, ◌&&◌, ◌||◌, List, [], ◌∷◌, Text, contains, is_empty, keep, count_if,
  count_if-keep, count_if-same, none, Bool-cases, inl, inr, if◌then◌else◌, arith,
}
use nira_os.Base.Sorting.{
  IsWeakOrder, same-IsWeakOrder, IsSorted, lexicographic-IsWeakOrder, flip-IsWeakOrder,
  IsSorted-map, sort, sort-IsSorted, count_if-sort,
}
use nira_os.FileModel.Entry.{FileEntry, is_directory}
use nira_os.FileModel.{
  Qt, FileModel, SortOrder, ascending, descending, same_order, compare_entries, compare_numbers,
  less, sort_entries, passes, on_directory_loaded,
}

module _ (qt : Qt) where
  -- `QString::compare`: a sign for each order, and that of the texts turned around.
  pub record CompareLaws : Type 0 where
    pub weak : IsWeakOrder (λ s t. is_negative (qt.compare_ignoring_case s t))
    pub opposite :
        (s t : Text)
        → is_positive (qt.compare_ignoring_case s t) ≡ is_negative (qt.compare_ignoring_case t s)

  by_key :
      {A B : Type 0} (key : A → B) (below : B → B → Bool)
      → IsWeakOrder below
      → IsWeakOrder (λ a b. below (key a) (key b))
  by_key key below h = record {
    asym = λ a b. h.asym (key a) (key b);
    not_trans = λ a b c. h.not_trans (key a) (key b) (key c);
  }

  numbers-IsWeakOrder : IsWeakOrder (λ m n. is_negative (compare_numbers m n))
  numbers-IsWeakOrder = record {
    asym = λ a b below. ground arith;
    not_trans = λ a b c ab bc. ground arith;
  }

  numbers-opposite :
      (m n : ℕ) → is_positive (compare_numbers m n) ≡ is_negative (compare_numbers n m)
  numbers-opposite m n = ground arith

  nothing-IsWeakOrder : IsWeakOrder (λ (a b : FileEntry). false)
  nothing-IsWeakOrder = record { asym = λ a b h. refl; not_trans = λ a b c ab bc. refl }

  -- The signs of the first `cmp` that is not 0.
  choice-is_negative :
      (c d : ℤ)
      → is_negative (if int_eq c (pos 0) then d else c)
        ≡ (if is_negative c then true else if is_positive c then false else is_negative d)
  unfolding int_eq
  choice-is_negative (pos zero) d = refl
  choice-is_negative (pos (suc n)) d = ground arith
  choice-is_negative (negsuc n) d = refl

  choice-is_positive :
      (c d : ℤ)
      → is_positive (if int_eq c (pos 0) then d else c)
        ≡ (if is_positive c then true else if is_negative c then false else is_positive d)
  unfolding int_eq
  choice-is_positive (pos zero) d = refl
  choice-is_positive (pos (suc n)) d = ground arith
  choice-is_positive (negsuc n) d = refl

  module _ (laws : CompareLaws) where
    entries-IsWeakOrder :
        (column : ℤ) → IsWeakOrder (λ a b. is_negative (compare_entries qt column a b))
    unfolding compare_entries
    entries-IsWeakOrder (pos zero) =
        by_key (λ (e : FileEntry). e.file_name) (λ s t. is_negative (qt.compare_ignoring_case s t))
          laws.weak
    entries-IsWeakOrder (pos (suc zero)) =
        by_key (λ (e : FileEntry). e.file_size) (λ s t. is_negative (compare_numbers s t))
          numbers-IsWeakOrder
    entries-IsWeakOrder (pos (suc (suc zero))) =
        same-IsWeakOrder _ _
          (λ a b.
            rw
              (
                choice-is_negative (qt.compare_ignoring_case a.mime_type b.mime_type)
                    (qt.compare_ignoring_case a.file_name b.file_name),
                laws.opposite a.mime_type b.mime_type,
              )
              refl)
          (lexicographic-IsWeakOrder _ _
            (by_key (λ (e : FileEntry). e.mime_type)
              (λ s t. is_negative (qt.compare_ignoring_case s t)) laws.weak)
            (by_key (λ (e : FileEntry). e.file_name)
              (λ s t. is_negative (qt.compare_ignoring_case s t)) laws.weak))
    entries-IsWeakOrder (pos (suc (suc (suc zero)))) =
        by_key (λ (e : FileEntry). e.last_modified) (λ s t. is_negative (compare_numbers s t))
          numbers-IsWeakOrder
    entries-IsWeakOrder (pos (suc (suc (suc (suc n))))) = nothing-IsWeakOrder
    entries-IsWeakOrder (negsuc n) = nothing-IsWeakOrder

    entries-opposite :
        (column : ℤ) (a b : FileEntry)
        → is_positive (compare_entries qt column a b) ≡ is_negative (compare_entries qt column b a)
    unfolding compare_entries
    entries-opposite (pos zero) a b = laws.opposite a.file_name b.file_name
    entries-opposite (pos (suc zero)) a b = numbers-opposite a.file_size b.file_size
    entries-opposite (pos (suc (suc zero))) a b =
        (rw
          (
            choice-is_positive (qt.compare_ignoring_case a.mime_type b.mime_type)
                (qt.compare_ignoring_case a.file_name b.file_name),
            choice-is_negative (qt.compare_ignoring_case b.mime_type a.mime_type)
                (qt.compare_ignoring_case b.file_name a.file_name),
            laws.opposite a.mime_type b.mime_type,
            sym (laws.opposite b.mime_type a.mime_type),
            laws.opposite a.file_name b.file_name,
          )
          refl)
    entries-opposite (pos (suc (suc (suc zero)))) a b =
        numbers-opposite a.last_modified b.last_modified
    entries-opposite (pos (suc (suc (suc (suc n))))) a b = refl
    entries-opposite (negsuc n) a b = refl

    directories-IsWeakOrder : IsWeakOrder (λ a b. is_directory a && not (is_directory b))
    directories-IsWeakOrder = record {
      asym = λ a b below. ground arith;
      not_trans = λ a b c ab bc. ground arith;
    }

    -- The comparison is one that `std::sort` takes, by each column and in each direction.
    pub less-IsWeakOrder : (column : ℤ) (order : SortOrder) → IsWeakOrder (less qt column order)
    unfolding less same_order
    less-IsWeakOrder column ascending =
        same-IsWeakOrder _ _ (λ a b. ground arith)
          (lexicographic-IsWeakOrder _ _ directories-IsWeakOrder (entries-IsWeakOrder column))
    less-IsWeakOrder column descending =
        same-IsWeakOrder _ _ (λ a b. ground (arith, entries-opposite column a b))
          (lexicographic-IsWeakOrder _ _ directories-IsWeakOrder
            (flip-IsWeakOrder _ (entries-IsWeakOrder column)))

    less-directories :
        (column : ℤ) (order : SortOrder) (a b : FileEntry)
        → less qt column order a b ≡ false
        → (is_directory a && not (is_directory b)) ≡ false
    unfolding less
    less-directories column order a b h = ground arith

    sorted_or_empty :
        (s : FileModel) (f : FileEntry → FileEntry → Bool) (xs : List FileEntry)
        → s.entries ≡ xs
        → (if is_empty xs then s else record s { entries = sort f xs }).entries ≡ sort f xs
    unfolding sort
    sorted_or_empty s f [] e = e
    sorted_or_empty s f (x ∷ xs) e = refl

    -- What the two filters leave.
    abbrev found : FileModel → List FileEntry → List FileEntry
    found s result =
        let visible =
          if not s.show_hidden then keep (λ (e : FileEntry). not e.is_hidden) result else result in
        if not (is_empty s.name_filter)
        then keep
            (λ (e : FileEntry). contains (qt.to_lower e.file_name) (qt.to_lower s.name_filter))
            visible
        else visible

    count_if-keep_unless :
        (all : Bool) (p q : FileEntry → Bool) (es : List FileEntry)
        → count_if p (if not all then keep q es else es) ≡ count_if (λ e. (all || q e) && p e) es
    count_if-keep_unless true p q es =
        count_if-same p (λ e. (true || q e) && p e) (λ e. ground arith) es
    count_if-keep_unless false p q es =
        count_if-keep p q es
        ∙ count_if-same (λ e. q e && p e) (λ e. (false || q e) && p e) (λ e. ground arith) es

    count_if-found :
        (s : FileModel) (result : List FileEntry) (p : FileEntry → Bool)
        → count_if p (found s result) ≡ count_if (λ e. passes qt s e && p e) result
    unfolding passes
    count_if-found s result p =
        let named =
          λ (e : FileEntry). contains (qt.to_lower e.file_name) (qt.to_lower s.name_filter) in
        let all_names = is_empty s.name_filter in
        count_if-keep_unless all_names p named _
        ∙ count_if-keep_unless s.show_hidden (λ e. (all_names || named e) && p e)
            (λ e. not e.is_hidden) result
        ∙ count_if-same _ (λ e. passes qt s e && p e) (λ e. ground arith) result

    loaded_entries :
        (s : FileModel) (result : List FileEntry)
        → (on_directory_loaded qt s result).0.entries
          ≡ sort (less qt s.sort_column s.sort_order) (found s result)
    unfolding on_directory_loaded sort_entries
    loaded_entries s result = elim (Bool-cases s.loading) [
      | inl busy ↦ rw busy (
          sorted_or_empty (record s { entries = found s result; loading = true; watched = none })
            (less qt s.sort_column s.sort_order) (found s result) refl)
      | inr idle ↦ rw idle (
          sorted_or_empty (record s { entries = found s result; loading = false; watched = none })
            (less qt s.sort_column s.sort_order) (found s result) refl)
    ]

    loaded_idle :
        (s : FileModel) (result : List FileEntry)
        → (on_directory_loaded qt s result).0.loading ≡ false
    unfolding on_directory_loaded sort_entries
    loaded_idle s result = ground arith

    -- What a load leaves in the list: exactly the entries that pass the filters, sorted by the chosen
    -- column and direction, with no directory after an entry of another kind; and no load is shown
    -- as running.
    pub on_directory_loaded-IsSorted :
        (s : FileModel) (result : List FileEntry)
        → let t = (on_directory_loaded qt s result).0 in
          ((p : FileEntry → Bool)
            → count_if p t.entries ≡ count_if (λ e. passes qt s e && p e) result)
          × IsSorted (less qt s.sort_column s.sort_order) t.entries
          × IsSorted (λ a b. is_directory a && not (is_directory b)) t.entries
          × (t.loading ≡ false)
    on_directory_loaded-IsSorted s result =
        let at = loaded_entries s result in
        let less_here = less qt s.sort_column s.sort_order in
        let sorted =
          sort-IsSorted less_here (less-IsWeakOrder s.sort_column s.sort_order) (found s result) in
        (
          λ p.
              ap (count_if p) at
              ∙ count_if-sort p less_here (found s result)
              ∙ count_if-found s result p,
          rw at sorted,
          rw at (
              IsSorted-map (sort less_here (found s result))
                (less-directories s.sort_column s.sort_order) sorted),
          loaded_idle s result,
        )
