-- ===== src/Storage/Announcements.antt =====
-- What the signals of StorageManager.cpp tell a listener.
use nira_os.Base.{
  ◌≡◌, refl, ap, ◌∙◌, inl, inr, Bool, not, ◌&&◌, ◌||◌, Bool-cases, List, [], ◌∷◌, ◌++◌, Text,
  text_eq, text_eq_iff, mem_text, if◌then◌else◌, arith, map, keep,
}
use nira_os.Base.Sets.{of_list, same_sets}
use nira_os.Storage.{
  StorageInfo, StorageManager, Signal, drives_changed, drive_added, drive_removed, removed_signals,
  added_signals, current_paths, poll_drives, scan_drives, init,
}

unfoldable pub without : Text → List Text → List Text
without p [] = []
without p (q ∷ qs) = if text_eq q p then without p qs else q ∷ without p qs

-- A listener that keeps the announced mounts.
unfoldable pub listen : List Text → List Signal → List Text
listen shown [] = shown
listen shown (drives_changed ∷ signals) = listen shown signals
listen shown (drive_added p ∷ signals) = listen (p ∷ shown) signals
listen shown (drive_removed p ∷ signals) = listen (without p shown) signals

mem-without :
    (p q : Text) (qs : List Text) → mem_text q (without p qs) ≡ (not (text_eq p q) && mem_text q qs)
unfolding without mem_text
mem-without p q [] = ground arith
mem-without p q (r ∷ qs) =
    ground (arith, text_eq_iff r p, text_eq_iff r q, text_eq_iff p q, mem-without p q qs)

listen-append :
    (shown : List Text) (xs ys : List Signal)
    → listen shown (xs ++ ys) ≡ listen (listen shown xs) ys
unfolding listen
listen-append shown [] ys = refl
listen-append shown (drives_changed ∷ xs) ys = listen-append shown xs ys
listen-append shown (drive_added p ∷ xs) ys = listen-append (p ∷ shown) xs ys
listen-append shown (drive_removed p ∷ xs) ys = listen-append (without p shown) xs ys

-- After the signals of removed drives: what was shown and is not both known and gone.
listen-removed :
    (current known shown : List Text) (q : Text)
    → mem_text q (listen shown (removed_signals current known))
      ≡ (mem_text q shown && (mem_text q current || not (mem_text q known)))
unfolding listen removed_signals mem_text
listen-removed current [] shown q = ground arith
listen-removed current (old ∷ known) shown q = elim (Bool-cases (mem_text old current)) [
  | inl there ↦
      rw there (ground (arith, there, text_eq_iff old q, listen-removed current known shown q))
  | inr gone ↦ rw gone (
      ground (
        arith,
        gone,
        text_eq_iff old q,
        mem-without old q shown,
        listen-removed current known (without old shown) q,
      ))
]

listen-added :
    (known current shown : List Text) (q : Text)
    → mem_text q (listen shown (added_signals known current))
      ≡ (mem_text q shown || (mem_text q current && not (mem_text q known)))
unfolding listen added_signals mem_text
listen-added known [] shown q = ground arith
listen-added known (new ∷ current) shown q = elim (Bool-cases (mem_text new known)) [
  | inl old ↦ rw old (ground (arith, old, text_eq_iff new q, listen-added known current shown q))
  | inr fresh ↦
      rw fresh
        (ground (arith, fresh, text_eq_iff new q, listen-added known current (new ∷ shown) q))
]

-- The listener shows what the manager knows.
abbrev pub Shows : List Text → StorageManager → Type 0
Shows shown s = (p : Text) → mem_text p shown ≡ mem_text p s.known_paths

listen_last : (shown : List Text) → listen shown (drives_changed ∷ []) ≡ shown
unfolding listen
listen_last shown = refl

-- The volumes that count as mounted.
abbrev pub is_ready : StorageInfo → Bool
is_ready si = si.is_valid && si.is_ready

current_paths_lem :
    (mounts : List StorageInfo)
    → current_paths mounts ≡ map (λ (si : StorageInfo). si.root_path) (keep is_ready mounts)
unfolding current_paths
current_paths_lem [] = refl
current_paths_lem (si ∷ mounts) = ground (arith, current_paths_lem mounts)

module _ (fold : Text → Text) where
  poll-Shows :
      (s : StorageManager) (mounts again : List StorageInfo) (shown : List Text)
      → Shows shown s
      → Shows (listen shown (poll_drives fold s mounts again).1) (poll_drives fold s mounts again).0
  unfolding poll_drives scan_drives
  poll-Shows s mounts again shown h p =
      let gone = removed_signals (current_paths mounts) s.known_paths in
      let new = added_signals s.known_paths (current_paths mounts) in
      let kept = listen shown gone in
      let same = h p in
      rw
        (
          listen-append shown gone (new ++ drives_changed ∷ []),
          listen-append kept new (drives_changed ∷ []),
          listen_last,
        )
        (ground (
          arith,
          h p,
          listen-added s.known_paths (current_paths mounts) kept p,
          listen-removed (current_paths mounts) s.known_paths shown p,
        ))

  -- The manager after some polls, and what it signalled, from the start of the manager on.
  unfoldable pub polls :
      StorageManager → List (List StorageInfo × List StorageInfo) → StorageManager × List Signal
  polls s [] = (s, [])
  polls s ((mounts, again) ∷ later) =
      let (t, signals) = poll_drives fold s mounts again in
      let (u, more) = polls t later in (u, signals ++ more)

  polls-Shows :
      (s : StorageManager) (ps : List (List StorageInfo × List StorageInfo)) (shown : List Text)
      → Shows shown s
      → Shows (listen shown (polls s ps).1) (polls s ps).0
  unfolding polls listen
  polls-Shows s [] shown h = h
  polls-Shows s ((mounts, again) ∷ later) shown h =
      rw
        (listen-append shown (poll_drives fold s mounts again).1
          (polls (poll_drives fold s mounts again).0 later).1)
        (polls-Shows (poll_drives fold s mounts again).0 later
          (listen shown (poll_drives fold s mounts again).1) (poll-Shows s mounts again shown h))

  known-polls :
      (s : StorageManager) (ps : List (List StorageInfo × List StorageInfo))
      (mounts again : List StorageInfo)
      → (polls s (ps ++ (mounts, again) ∷ [])).0.known_paths ≡ current_paths mounts
  unfolding polls poll_drives scan_drives
  known-polls s [] mounts again = refl
  known-polls s ((m, a) ∷ ps) mounts again = known-polls (poll_drives fold s m a).0 ps mounts again

  -- Who listens from the start of the manager on, and keeps the mounts that are announced as added
  -- and not as removed, has after every poll the set of those at which a volume is valid and ready.
  pub announced_mounts :
      (start : List StorageInfo) (ps : List (List StorageInfo × List StorageInfo))
      (mounts again : List StorageInfo)
      → of_list (listen [] (polls (init fold start) (ps ++ (mounts, again) ∷ [])).1)
        ≡ of_list (map (λ (si : StorageInfo). si.root_path) (keep is_ready mounts))
  announced_mounts start ps mounts again =
      let after = init fold start in
      same_sets _ _
        (polls-Shows after (ps ++ (mounts, again) ∷ []) [] (λ q. unfold init scan_drives in refl))
      ∙ ap of_list (known-polls after ps mounts again ∙ current_paths_lem mounts)
