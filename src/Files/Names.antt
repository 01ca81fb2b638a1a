-- ===== src/Files/Names.antt =====
-- Names that the file manager accepts and invents.
use nira_os.Base.{
  ℕ, zero, suc, ◌+◌, ◌≤◌, ◌<◌, ◌≡◌, refl, inl, inr, Bool, true, false, not, ◌||◌, ◌==◌, List, [],
  ◌∷◌, ◌++◌, Text, lit, text_eq, text_eq_iff, has_char, is_empty, drop, arith, Bool-cases,
  if◌then◌else◌,
}
use nira_os.Files.System.{Paths}

-- apps/files/src/FileOperations.cpp, `isSafeName`. 47 is '/' and 92 is '\'.
abbrev cons_head : ℕ → List Text → List Text
cons_head c [] = (c ∷ []) ∷ []
cons_head c (part ∷ parts) = (c ∷ part) ∷ parts

unfoldable pub is_safe_name : Text → Bool
is_safe_name name =
    if is_empty name || text_eq name (lit ".") || text_eq name (lit "..")
    then false
    else if has_char 47 name || has_char 92 name
    then false
    else true

-- Where a path leads, as a stack of folders with the innermost first: the parts between slashes,
-- with "." for the folder itself and ".." for the one above.
unfoldable pub split_path : Text → List Text
split_path [] = [] ∷ []
split_path (c ∷ s) = if c == 47 then [] ∷ split_path s else cons_head c (split_path s)

abbrev pub enter : List Text → Text → List Text
enter folders part =
    if is_empty part || text_eq part (lit ".")
    then folders
    else if text_eq part (lit "..")
    then drop 1 folders
    else part ∷ folders

unfoldable pub walk : List Text → List Text → List Text
walk folders [] = folders
walk folders (part ∷ parts) = walk (enter folders part) parts

unfoldable pub leads_to : Text → List Text
unfolding split_path walk
leads_to path = walk [] (split_path path)

split_path_cons : (a : Text) → (p : Text) × (ps : List Text) × (split_path a ≡ p ∷ ps)
unfolding split_path
split_path_cons [] = ([], [], refl)
split_path_cons (c ∷ a) = elim (Bool-cases (c == 47)) [
  | inl slash ↦ ([], split_path a, rw slash)
  | inr other ↦ let (p, ps, e) = split_path_cons a in (c ∷ p, ps, rw (other, e))
]

split_path-slash : (a b : Text) → split_path (a ++ (47 ∷ b)) ≡ split_path a ++ split_path b
unfolding split_path
split_path-slash [] b = refl
split_path-slash (c ∷ a) b =
    let (p, ps, e) = split_path_cons a in rw (split_path-slash a b, e) (ground arith)

split_path_of_part : (s : Text) → has_char 47 s ≡ false → split_path s ≡ s ∷ []
unfolding split_path has_char
split_path_of_part [] h = refl
split_path_of_part (c ∷ s) h = ground (arith, split_path_of_part s)

walk-append : (folders xs ys : List Text) → walk folders (xs ++ ys) ≡ walk (walk folders xs) ys
unfolding walk
walk-append folders [] ys = refl
walk-append folders (x ∷ xs) ys = walk-append (enter folders x) xs ys

-- A safe name stays in its folder: `dir/name` leads to an entry of that name directly in the folder
-- that `dir` leads to.
pub safe_name_stays :
    (dir name : Text)
    → is_safe_name name ≡ true
    → leads_to (dir ++ (47 ∷ name)) ≡ name ∷ leads_to dir
unfolding leads_to is_safe_name
safe_name_stays dir name safe =
    let part : split_path name ≡ name ∷ [] = split_path_of_part name (ground arith) in
    rw (split_path-slash dir name, part, walk-append)
      (unfold walk in ground (arith, text_eq_iff name (lit ".")))

module _ (paths : Paths) where
  open paths use {arg, arg2, digits}

  -- `ext.isEmpty() ? "" : '.' + ext`
  unfoldable pub dotted : Text → Text
  dotted ext = if is_empty ext then [] else 46 ∷ ext

  -- "%1 (%2)%3", which `moveToTrash` fills in for its second and later tries.
  unfoldable pub numbered : Text → ℕ → Text → Text
  unfolding dotted
  numbered base i ext = arg (arg (arg (lit "%1 (%2)%3") base) (digits i)) (dotted ext)

  -- The names that `duplicate` tries.
  unfoldable pub copy_name : Text → Text → ℕ → Text
  unfolding dotted
  copy_name base ext i =
      if i == 1
      then arg2 (lit "%1 (copy)%2") base (dotted ext)
      else arg (arg (arg (lit "%1 (copy %2)%3") base) (digits i)) (dotted ext)

-- `for (i = first; i < first + rounds; ++i) { target = candidate(i); if (!exists(target)) break; }`,
-- from the value that `target` has before the loop.
unfoldable pub first_free : ℕ → ℕ → (ℕ → Text) → (Text → Bool) → Text → Text
first_free zero i candidate exists target = target
first_free (suc rounds) i candidate exists target =
    let rest = first_free rounds (i + 1) candidate exists (candidate i) in
    if not (exists (candidate i)) then candidate i else rest

-- If one of the names that are tried is free, the loop ends at a free name.
pub first_free-exists :
    (rounds i k : ℕ) (candidate : ℕ → Text) (exists : Text → Bool) (target : Text)
    → i ≤ k
    → k < i + rounds
    → exists (candidate k) ≡ false
    → exists (first_free rounds i candidate exists target) ≡ false
unfolding first_free
first_free-exists zero i k candidate exists target h l free = absurd (omega arith)
first_free-exists (suc rounds) i k candidate exists target h l free =
    elim (Bool-cases (exists (candidate i))) [
      | inr open_name ↦ rw open_name open_name
      | inl used ↦ rw used (
          first_free-exists rounds (i + 1) k candidate exists (candidate i) (grind arith)
            (omega arith) free)
    ]
