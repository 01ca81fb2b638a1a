-- ===== src/Apps/FieldCodes.antt =====
-- desktop/shell/src/AppModel.cpp, `stripExecFieldCodes`: the text without all that its pattern
-- `(?:%[uUfFdDnNvmick] ?)|(?:%%)` matches. 37 is '%'.
use nira_os.Base.{
  ℕ, ◌==◌, ◌≡◌, refl, Bool, false, ◌&&◌, ◌||◌, [], ◌∷◌, ◌++◌, Text, lit, has_char, if◌then◌else◌,
  arith, Bool-cases, inl, inr,
}

unfoldable pub is_field_code : ℕ → Bool
is_field_code c = has_char c (lit "uUfFdDnNvmick")

-- What the scan has just read: nothing to care for, a '%', or a field code, which may have a space
-- after it.
pub data Mode : Type 0 where
  plain percent after_code : Mode

unfoldable pub next_mode : Mode → ℕ → Mode
next_mode plain c = if c == 37 then percent else plain
next_mode percent c = if is_field_code c then after_code else plain
next_mode after_code c = if c == 37 then percent else plain

unfoldable pub emit : Mode → ℕ → Text
emit plain c = if c == 37 then [] else c ∷ []
emit percent c = if is_field_code c || (c == 37) then [] else 37 ∷ c ∷ []
emit after_code c = if (c == 37) || (c == 32) then [] else c ∷ []

unfoldable pub strip_from : Mode → Text → Text
strip_from percent [] = 37 ∷ []
strip_from plain [] = []
strip_from after_code [] = []
strip_from mode (c ∷ s) = emit mode c ++ strip_from (next_mode mode c) s

unfoldable pub strip_field_codes : Text → Text
strip_field_codes raw = strip_from plain raw

-- A match of the pattern, anywhere.
abbrev pub code_at_start : Text → Bool
code_at_start [] = false
code_at_start (c ∷ []) = false
code_at_start (c ∷ d ∷ s) = (c == 37) && (is_field_code d || (d == 37))

unfoldable pub has_field_code : Text → Bool
has_field_code [] = false
has_field_code (c ∷ s) = code_at_start (c ∷ s) || has_field_code s

percent_is_no_code : is_field_code 37 ≡ false
unfolding is_field_code has_char lit
percent_is_no_code = refl

has_field_code_cons :
    (c : ℕ) (s : Text)
    → (c == 37) ≡ false
    → has_field_code s ≡ false
    → has_field_code (c ∷ s) ≡ false
unfolding has_field_code
has_field_code_cons c [] h hs = refl
has_field_code_cons c (d ∷ s) h hs = ground arith

has_field_code_percent :
    (c : ℕ) (s : Text)
    → (is_field_code c || (c == 37)) ≡ false
    → has_field_code (c ∷ s) ≡ false
    → has_field_code (37 ∷ c ∷ s) ≡ false
unfolding has_field_code
has_field_code_percent c s h hs = ground arith

strip_from-has_no_field_code : (mode : Mode) (s : Text) → has_field_code (strip_from mode s) ≡ false
unfolding strip_from emit next_mode
strip_from-has_no_field_code plain [] = unfold has_field_code in refl
strip_from-has_no_field_code percent [] = unfold has_field_code in refl
strip_from-has_no_field_code after_code [] = unfold has_field_code in refl
strip_from-has_no_field_code plain (c ∷ s) = elim (Bool-cases (c == 37)) [
  | inl e ↦ rw e (strip_from-has_no_field_code percent s)
  | inr e ↦ rw e (has_field_code_cons c _ e (strip_from-has_no_field_code plain s))
]
strip_from-has_no_field_code percent (c ∷ s) = elim (Bool-cases (is_field_code c)) [
  | inl e ↦ rw e (strip_from-has_no_field_code after_code s)
  | inr e ↦ elim (Bool-cases (c == 37)) [
    | inl f ↦ rw (e, f) (strip_from-has_no_field_code plain s)
    | inr f ↦
        rw (e, f)
          (has_field_code_percent c _ (rw (e, f) refl)
            (has_field_code_cons c _ f (strip_from-has_no_field_code plain s)))
  ]
]
strip_from-has_no_field_code after_code (c ∷ s) = elim (Bool-cases (c == 37)) [
  | inl e ↦ rw e (strip_from-has_no_field_code percent s)
  | inr e ↦ elim (Bool-cases (c == 32)) [
    | inl f ↦ rw (e, f) (strip_from-has_no_field_code plain s)
    | inr f ↦ rw (e, f) (has_field_code_cons c _ e (strip_from-has_no_field_code plain s))
  ]
]

-- What is left of a command has no field code and no "%%", not even one that the removal of others
-- has put together.
pub strip-has_no_field_code : (raw : Text) → has_field_code (strip_field_codes raw) ≡ false
unfolding strip_field_codes
strip-has_no_field_code raw = strip_from-has_no_field_code plain raw
