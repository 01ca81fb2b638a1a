-- ===== src/Notepad/Blocks.antt =====
-- The loop over block comments of apps/notepad/src/main.cpp ends, and what it does to the state of a
-- block.
use nira_os.Base.{
  ℕ, zero, suc, ◌+◌, ◌≤◌, ◌<◌, ◌==◌, ◌≡◌, refl, ◌⊎◌, inl, inr, Bool, true, false, not, ◌&&◌, ◌||◌,
  Bool-cases, Option-cases, Option, none, some, List, [], ◌∷◌, Text, lit, length, length-drop, drop,
  is_empty, starts_with, if◌then◌else◌, arith,
}
use nira_os.Notepad.Languages.{
  Rule, Highlighter, Language, language, with_language, set_language, configured,
}
use nira_os.Notepad.Highlight.{
  BlockState, is_inside, Format, index_of, index_from, shift, comment_until, Highlighted,
  comment_at, block_loop, block_comments, comments, highlight_block,
}

index_of-bound : (needle s : Text) (i : ℕ) → index_of needle s ≡ some i → i < length s
unfolding index_of
index_of-bound needle [] i h = cc
index_of-bound needle (c ∷ s) i h = elim (Bool-cases (starts_with (c ∷ s) needle)) [
  | inl here ↦ ground (arith, h, here)
  | inr there ↦ go (index_of needle s) (index_of-bound needle s) there h
]
  where
    go :
        (rest : Option ℕ)
        → ((j : ℕ) → rest ≡ some j → j < length s)
        → starts_with (c ∷ s) needle ≡ false
        → (if starts_with (c ∷ s) needle
            then some 0
            else elim rest [ none ↦ none | some j ↦ some (suc j) ])
          ≡ some i
        → i < suc (length s)
    go none bound there h = ground (arith, h, there)
    go (some j) bound there h = ground (arith, h, there, bound j refl)

index_from-bounds :
    (needle s : Text) (from i : ℕ) → index_from needle from s ≡ some i → (from ≤ i) × (i < length s)
unfolding index_from
index_from-bounds needle s from i h =
    go (index_of needle (drop from s)) (index_of-bound needle (drop from s)) h
  where
    go :
        (found : Option ℕ)
        → ((j : ℕ) → found ≡ some j → j < length (drop from s))
        → shift from found ≡ some i
        → (from ≤ i) × (i < length s)
    go none bound h = absurd (cc)
    go (some j) bound h =
        let same : from + j ≡ i = ground (arith, h) in
        (omega (arith, same), omega (arith, same, bound j refl, length-drop from s))

pub index_from-start : (needle s : Text) → index_of needle s ≡ none → index_from needle 0 s ≡ none
unfolding index_from
index_from-start needle s h = rw h refl

pub index_from-end :
    (needle s : Text) (from : ℕ) → length s ≤ from → index_from needle from s ≡ none
index_from-end needle s from h = elim (Option-cases (index_from needle from s)) [
  | inl e ↦ e
  | inr (i, e) ↦
      let (low, high) = index_from-bounds needle s from i e in absurd (omega (arith, low, high, h))
]

length-positive : (t : Text) → is_empty t ≡ false → 0 < length t
length-positive [] h = cc
length-positive (c ∷ t) h = omega arith

module _ (h : Highlighter) (previous : BlockState) (s : Text) where
  comment_at-advances :
      (start : ℕ)
      → is_empty h.block_end ≡ false
      → start ≤ length s
      → (start < start + (comment_at h previous s start).0)
        ⊎ (length s ≤ start + (comment_at h previous s start).0)
  unfolding comment_at
  comment_at-advances start some_end low =
      let from = if is_inside previous && (start == 0) then 0 else start + length h.block_start in
      let above : start ≤ from = ground arith in
      go (index_from h.block_end from s)
        (λ i e. omega (arith, above, (index_from-bounds h.block_end s from i e).0))
    where
      go :
          (found : Option ℕ)
          → ((i : ℕ) → found ≡ some i → start ≤ i)
          → let len = (comment_until h previous s start found).0 in
            (start < start + len) ⊎ (length s ≤ start + len)
      go none bound = inr (omega (arith, low))
      go (some end) bound =
          inl (omega (arith, bound end refl, length-positive h.block_end some_end))

  -- A place in the text for which the fuel suffices.
  abbrev Bounded : ℕ → Option ℕ → Type 0
  Bounded fuel none = Unit {0}
  Bounded fuel (some start) = (start ≤ length s) × (length s < fuel + start)

  next-Bounded :
      (fuel start from : ℕ) (next : Option ℕ)
      → index_from h.block_start from s ≡ next
      → (start < from) ⊎ (length s ≤ from)
      → length s < suc fuel + start
      → Bounded fuel next
  next-Bounded fuel start from none e far enough = tt
  next-Bounded fuel start from (some i) e (inl far) enough =
      let (low, high) = index_from-bounds h.block_start s from i e in
      (omega (arith, high), omega (arith, low, far, enough))
  next-Bounded fuel start from (some i) e (inr far) enough =
      let (low, high) = index_from-bounds h.block_start s from i e in
      absurd (omega (arith, low, high, far))

  block_loop-ends :
      (fuel : ℕ) (start : Option ℕ) (done : Highlighted)
      → is_empty h.block_end ≡ false
      → Bounded fuel start
      → (result : Highlighted) × (block_loop h previous s fuel start done ≡ some result)
  unfolding block_loop
  block_loop-ends fuel none done some_end bound = (done, refl)
  block_loop-ends zero (some start) done some_end bound = absurd (omega (arith, bound.0, bound.1))
  block_loop-ends (suc fuel) (some start) (formats, state) some_end bound =
      let len = (comment_at h previous s start).0 in
      block_loop-ends fuel (index_from h.block_start (start + len) s) _ some_end (
        next-Bounded fuel start (start + len) _ refl (comment_at-advances start some_end bound.0)
          bound.1)

  start-Bounded :
      (next : Option ℕ) → ((i : ℕ) → next ≡ some i → i ≤ length s) → Bounded (suc (length s)) next
  start-Bounded none h = tt
  start-Bounded (some i) h = (h i refl, omega arith)

  block_comments-ends :
      (formats : List Format)
      → (is_empty h.block_start || not (is_empty h.block_end)) ≡ true
      → (result : Highlighted) × (block_comments h previous s formats ≡ some result)
  unfolding block_comments
  block_comments-ends formats pairs = elim (Bool-cases (is_empty h.block_start)) [
    | inl no_blocks ↦ ((formats, none), rw no_blocks refl)
    | inr blocks ↦
        let start = if is_inside previous then some 0 else index_of h.block_start s in
        let bounded = start-Bounded start (λ i e. elim (Bool-cases (is_inside previous)) [
          | inl continued ↦ ground (arith, e, continued)
          | inr fresh ↦
              let found : index_of h.block_start s ≡ some i = ground (arith, e, fresh) in
              omega (arith, index_of-bound h.block_start s i found)
        ]) in
        let (result, e) =
          block_loop-ends (suc (length s)) start (formats, none) (ground (arith, pairs, blocks))
            bounded in
        (result, rw blocks e)
  ]

  comments-ends :
      (formats : List Format) (found : Option ℕ)
      → (is_empty h.block_start || not (is_empty h.block_end)) ≡ true
      → (result : Highlighted) × (comments h previous s formats found ≡ some result)
  unfolding comments
  comments-ends formats none pairs = block_comments-ends formats pairs
  comments-ends formats (some i) pairs = (_, refl)

-- Whoever begins block comments ends them, too.
abbrev pairs : Option Language → Bool
pairs none = true
pairs (some l) = is_empty l.opening || not (is_empty l.closing)

language-pairs : (lang : Text) → pairs (language lang) ≡ true
unfolding language
language-pairs lang =
    let slashes : is_empty (lit "*/") ≡ false = unfold lit in refl in
    let quotes : is_empty (lit "\"\"\"") ≡ false = unfold lit in refl in
    ground (arith, slashes, quotes)

with_language-pairs :
    (h : Highlighter) (l : Option Language)
    → (is_empty h.block_start || not (is_empty h.block_end)) ≡ true
    → pairs l ≡ true
    → let t = with_language h l in (is_empty t.block_start || not (is_empty t.block_end)) ≡ true
unfolding with_language
with_language-pairs h none hh hl = hh
with_language-pairs h (some l) hh hl = hl

configured-pairs :
    (to_lower : Text → Text) (langs : List Text)
    → let h = configured to_lower langs in
      (is_empty h.block_start || not (is_empty h.block_end)) ≡ true
unfolding configured set_language
configured-pairs to_lower [] = refl
configured-pairs to_lower (lang ∷ before) =
    with_language-pairs (configured to_lower before) (language (to_lower lang))
      (configured-pairs to_lower before) (language-pairs (to_lower lang))

-- Whatever languages it has been set to, in whatever state: the highlighter ends on every text.
pub highlight_block_ends :
    (to_lower : Text → Text) (langs : List Text) (previous : BlockState) (s : Text)
    (matches : Rule → Text → List (ℕ × ℕ))
    → (result : Highlighted) × (highlight_block (configured to_lower langs) previous s matches
        ≡ some result)
unfolding highlight_block
highlight_block_ends to_lower langs previous s matches =
    comments-ends (configured to_lower langs) previous s _ _ (configured-pairs to_lower langs)
