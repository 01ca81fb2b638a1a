-- ===== src/Notepad/Recent.antt =====
-- apps/notepad/src/main.cpp, `FileDialogHelper`: the list of recent files, and the language of a file.
use nira_os.Base.{
  ℕ, zero, suc, ◌-◌, ◌≤◌, ltb, ◌≡◌, refl, ap, sym, ◌∙◌, Bool, true, false, not, ◌&&◌, ◌||◌, List,
  [], ◌∷◌, Text, lit, is_empty, text_eq, text_eq_refl, text_eq_iff, mem_text, keep, take, length,
  length-take-le, if◌then◌else◌, arith, Bool-cases, inl, inr,
}

abbrev pub remove_last : List Text → List Text
remove_last [] = []
remove_last (x ∷ []) = []
remove_last (x ∷ y ∷ ys) = x ∷ remove_last (y ∷ ys)

-- `while (list.size() > 10) list.removeLast();`, on as much fuel as the list is long.
unfoldable pub trim : ℕ → List Text → List Text
trim zero list = list
trim (suc fuel) list =
    let rest = trim fuel (remove_last list) in if ltb 10 (length list) then rest else list

-- The list that the settings hold after the call, and whether `recentFilesChanged` is emitted.
unfoldable pub add_recent_file : List Text → Text → List Text × Bool
add_recent_file list path =
    let others = path ∷ keep (λ p. not (text_eq p path)) list in
    if is_empty path then (list, false) else (trim (length others) others, true)

unfoldable pub clear_recent_files : List Text → List Text × Bool
clear_recent_files list = ([], true)

-- By the suffix in lower case.
unfoldable pub language_for_suffix : Text → Text
language_for_suffix suffix =
    let is = λ (t : Text). text_eq suffix t in
    if is (lit "cpp") || is (lit "cxx") || is (lit "cc")
    then lit "cpp"
    else if is (lit "h") || is (lit "hpp")
    then lit "cpp"
    else if is (lit "c")
    then lit "c"
    else if is (lit "rs")
    then lit "rust"
    else if is (lit "py")
    then lit "python"
    else if is (lit "qml")
    then lit "qml"
    else if is (lit "js") || is (lit "mjs")
    then lit "js"
    else if is (lit "json")
    then lit "json"
    else if is (lit "sh") || is (lit "bash")
    then lit "sh"
    else []

abbrev pub no_repeats : List Text → Bool
no_repeats [] = true
no_repeats (path ∷ paths) = not (mem_text path paths) && no_repeats paths

length-remove_last : (xs : List Text) → length (remove_last xs) ≡ length xs - 1
length-remove_last [] = refl
length-remove_last (x ∷ []) = refl
length-remove_last (x ∷ y ∷ ys) = omega (arith, length-remove_last (y ∷ ys))

take_of_short : (n : ℕ) (xs : List Text) → length xs ≤ n → take n xs ≡ xs
take_of_short zero [] h = refl
take_of_short zero (x ∷ xs) h = absurd (omega arith)
take_of_short (suc n) [] h = refl
take_of_short (suc n) (x ∷ xs) h = ap (◌∷◌ x) (take_of_short n xs (omega arith))

take-remove_last :
    (n : ℕ) (xs : List Text) → suc n ≤ length xs → take n (remove_last xs) ≡ take n xs
take-remove_last zero xs h = refl
take-remove_last (suc n) [] h = absurd (omega arith)
take-remove_last (suc n) (x ∷ []) h = absurd (omega arith)
take-remove_last (suc n) (x ∷ y ∷ ys) h = ap (◌∷◌ x) (take-remove_last n (y ∷ ys) (omega arith))

-- The loop keeps the first ten, if the fuel is as much as the list is long.
trim-take : (fuel : ℕ) (xs : List Text) → length xs ≤ fuel → trim fuel xs ≡ take 10 xs
unfolding trim
trim-take zero [] h = refl
trim-take zero (x ∷ xs) h = absurd (omega arith)
trim-take (suc fuel) xs h = elim (Bool-cases (ltb 10 (length xs))) [
  | inl long ↦ rw long (
      trim-take fuel (remove_last xs) (omega (arith, length-remove_last xs))
      ∙ take-remove_last 10 xs (ground (arith, long)))
  | inr short ↦ rw short (sym (take_of_short 10 xs (ground (arith, short))))
]

mem_text-keep_other :
    (path q : Text) (xs : List Text)
    → mem_text q (keep (λ p. not (text_eq p path)) xs) ≡ (mem_text q xs && not (text_eq q path))
unfolding mem_text
mem_text-keep_other path q [] = refl
mem_text-keep_other path q (x ∷ xs) = elim (Bool-cases (text_eq x q)) [
  | inl here ↦
      let same : text_eq x path ≡ text_eq q path =
        ap (λ p. text_eq p path) ((text_eq_iff x q).0 here) in
      ground (arith, here, same, mem_text-keep_other path q xs)
  | inr there ↦ ground (arith, there, mem_text-keep_other path q xs)
]

no_repeats-keep :
    (path : Text) (xs : List Text)
    → no_repeats xs ≡ true
    → no_repeats (keep (λ p. not (text_eq p path)) xs) ≡ true
no_repeats-keep path [] h = refl
no_repeats-keep path (x ∷ xs) h =
    ground (arith, h, no_repeats-keep path xs, mem_text-keep_other path x xs)

mem_text-take :
    (n : ℕ) (q : Text) (xs : List Text) → mem_text q xs ≡ false → mem_text q (take n xs) ≡ false
unfolding mem_text
mem_text-take zero q xs h = refl
mem_text-take (suc n) q [] h = refl
mem_text-take (suc n) q (x ∷ xs) h = ground (arith, h, mem_text-take n q xs)

no_repeats-take : (n : ℕ) (xs : List Text) → no_repeats xs ≡ true → no_repeats (take n xs) ≡ true
no_repeats-take zero xs h = refl
no_repeats-take (suc n) [] h = refl
no_repeats-take (suc n) (x ∷ xs) h = ground (arith, h, mem_text-take n x xs, no_repeats-take n xs)

-- After a file is opened it is the first of at most ten recent files, and the others follow in the
-- order that they had; none stands twice, if none did before.
pub add_recent_file-first :
    (list : List Text) (path : Text)
    → is_empty path ≡ false
    → no_repeats list ≡ true
    → let recent = (add_recent_file list path).0 in
      (recent ≡ path ∷ take 9 (keep (λ p. not (text_eq p path)) list))
      × (length recent ≤ 10)
      × (no_repeats recent ≡ true)
unfolding add_recent_file
add_recent_file-first list path some_path h =
    let others = keep (λ p. not (text_eq p path)) list in
    let shape = trim-take (length (path ∷ others)) (path ∷ others) (omega arith) in
    let fresh : mem_text path others ≡ false =
      ground (arith, mem_text-keep_other path path list, text_eq_refl path) in
    let once : no_repeats (path ∷ others) ≡ true =
      ground (arith, fresh, no_repeats-keep path list h) in
    rw (some_path, shape)
      (refl, length-take-le 10 (path ∷ others), no_repeats-take 10 (path ∷ others) once)
