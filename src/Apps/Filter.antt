-- ===== src/Apps/Filter.antt =====
-- desktop/shell/src/FilteredAppModel.h and FilteredAppModel.cpp: the search of the launcher.
use nira_os.Base.{
  ◌≡◌, refl, ap, ℕ, ℤ, pos, Bool, true, false, not, ◌&&◌, ◌||◌, Option, none, some, List, [], ◌∷◌,
  ◌++◌, Text, text_eq, contains, starts_with, is_empty, get_elem?, if◌then◌else◌, arith,
}
use nira_os.Apps.AppModel.{AppEntry, exec_at}

pub data Signal : Type 0 where
  filter_invalidated filter_changed : Signal

module _ (trimmed to_lower : Text → Text) where
  unfoldable pub set_filter : Text → Text → Text × List Signal
  set_filter filter f =
      if text_eq filter f then (filter, []) else (f, filter_invalidated ∷ filter_changed ∷ [])

  -- The row of an application of the source model; a row that it has not holds empty texts.
  unfoldable pub filter_accepts_row : Text → Option (List AppEntry) → ℕ → Bool
  filter_accepts_row filter source row =
      let lower = to_lower filter in
      let accepts = λ (app : AppEntry).
        contains (to_lower app.name) lower
        || contains (to_lower app.generic_name) lower
        || contains (to_lower app.app_id) lower in
      if is_empty (trimmed filter) then true else elim source [
        | none ↦ false
        | some apps ↦ elim (get_elem? apps row) [
          | none ↦ contains (to_lower []) lower
          | some app ↦ accepts app
        ]
      ]

  -- `mapToSource` of the proxy model gives the source's row.
  unfoldable pub exec_at_proxy : (ℤ → Option ℕ) → Option (List AppEntry) → ℤ → Text
  exec_at_proxy map_to_source source proxy_row = elim (map_to_source proxy_row) [
    | none ↦ []
    | some row ↦ elim source [ none ↦ [] | some apps ↦ exec_at apps (pos row) ]
  ]

starts_with-append : (s a b : Text) → starts_with s (a ++ b) ≡ true → starts_with s a ≡ true
unfolding starts_with
starts_with-append s [] b h = refl
starts_with-append [] (x ∷ a) b h = h
starts_with-append (c ∷ s) (x ∷ a) b h = ground (arith, starts_with-append s a b)

contains-append : (s a b : Text) → contains s (a ++ b) ≡ true → contains s a ≡ true
unfolding contains
contains-append [] a b h = starts_with-append [] a b h
contains-append (c ∷ s) a b h =
    ground (arith, starts_with-append (c ∷ s) a b, contains-append s a b)

module _ (trimmed to_lower : Text → Text) where
  -- An application, or a row without one.
  abbrev matches : Option AppEntry → Text → Bool
  matches none lower = contains (to_lower []) lower
  matches (some app) lower =
      contains (to_lower app.name) lower
      || contains (to_lower app.generic_name) lower
      || contains (to_lower app.app_id) lower

  matches-append :
      (found : Option AppEntry) (a b : Text)
      → matches found (a ++ b) ≡ true
      → matches found a ≡ true
  matches-append none a b h = contains-append (to_lower []) a b h
  matches-append (some app) a b h = ground (
    arith,
    contains-append (to_lower app.name) a b,
    contains-append (to_lower app.generic_name) a b,
    contains-append (to_lower app.app_id) a b,
  )

  row_matches :
      (filter : Text) (apps : List AppEntry) (row : ℕ)
      → filter_accepts_row trimmed to_lower filter (some apps) row
        ≡ (is_empty (trimmed filter) || matches (get_elem? apps row) (to_lower filter))
  unfolding filter_accepts_row
  row_matches filter apps row = go (is_empty (trimmed filter)) (get_elem? apps row)
    where
      go :
          (blank : Bool) (found : Option AppEntry)
          → (if blank then true else elim found [
            | none ↦ contains (to_lower []) (to_lower filter)
            | some app ↦ matches (some app) (to_lower filter)
          ])
            ≡ (blank || matches found (to_lower filter))
      go true found = refl
      go false none = refl
      go false (some app) = refl

  -- Typing on only narrows the search: a row that passes the longer text passes the shorter one, if
  -- `toLower` works on the two pieces by themselves, and trimming leaves nothing of the longer text
  -- only if it leaves nothing of the shorter one.
  pub filter_accepts-append :
      (filter more : Text) (source : Option (List AppEntry)) (row : ℕ)
      → to_lower (filter ++ more) ≡ to_lower filter ++ to_lower more
      → (is_empty (trimmed (filter ++ more)) && not (is_empty (trimmed filter))) ≡ false
      → filter_accepts_row trimmed to_lower (filter ++ more) source row ≡ true
      → filter_accepts_row trimmed to_lower filter source row ≡ true
  unfolding filter_accepts_row
  filter_accepts-append filter more none row lower blank h = ground (arith, blank, h)
  filter_accepts-append filter more (some apps) row lower blank h = ground (
    arith,
    h,
    blank,
    row_matches (filter ++ more) apps row,
    row_matches filter apps row,
    ap (matches (get_elem? apps row)) lower,
    matches-append (get_elem? apps row) (to_lower filter) (to_lower more),
  )
