-- ===== src/Base/Sorting.antt =====
-- `std::sort` by a comparison: the order that it asks of the comparison, and what it does then. Equal
-- elements keep their order here, which `std::sort` leaves open; no theorem says more than it does.
use mathlib.Core.Path.{◌≡◌, refl}
use mathlib.Core.Bool.{Bool, true, false}
use mathlib.Core.List.{List, [], ◌∷◌}
use mathlib.Core.Logic.{inl, inr}
use native.Mathlib.Omega.{arith}
use nira_os.Base.Tests.{if◌then◌else◌, Bool-cases}
use nira_os.Base.Lists.{All, All-map, count_if}

module _ {A : Type 0} where
  -- A strict weak order: nothing is below and above at once, and not being below is transitive.
  pub record IsWeakOrder (less : A → A → Bool) : Type 0 where
    pub asym : (a b : A) → less a b ≡ true → less b a ≡ false
    pub not_trans : (a b c : A) → less a b ≡ false → less b c ≡ false → less a c ≡ false

  pub flip-IsWeakOrder : (less : A → A → Bool) → IsWeakOrder less → IsWeakOrder (λ a b. less b a)
  flip-IsWeakOrder less h = record {
    asym = λ a b below. h.asym b a below;
    not_trans = λ a b c ab bc. h.not_trans c b a bc ab;
  }

  pub same-IsWeakOrder :
      (less other : A → A → Bool)
      → ((a b : A) → less a b ≡ other a b)
      → IsWeakOrder other
      → IsWeakOrder less
  same-IsWeakOrder less other same h = record {
    asym = λ a b below. ground (arith, same a b, same b a, h.asym a b);
    not_trans = λ a b c ab bc. ground (arith, same a b, same b c, same a c, h.not_trans a b c);
  }

  -- By the first comparison, and by the second where the first says nothing.
  abbrev pub lexicographic : (A → A → Bool) → (A → A → Bool) → A → A → Bool
  lexicographic first second a b =
      if first a b then true else if first b a then false else second a b

  pub lexicographic-IsWeakOrder :
      (first second : A → A → Bool)
      → IsWeakOrder first
      → IsWeakOrder second
      → IsWeakOrder (lexicographic first second)
  lexicographic-IsWeakOrder first second f g = record {
    asym = λ a b below. ground (arith, f.asym a b, f.asym b a, g.asym a b);
    not_trans = λ a b c ab bc. ground (
      arith,
      f.asym a b,
      f.asym b a,
      f.asym b c,
      f.asym a c,
      f.asym c a,
      f.not_trans a b c,
      f.not_trans c b a,
      f.not_trans b c a,
      f.not_trans c a b,
      f.not_trans b a c,
      f.not_trans a c b,
      g.not_trans a b c,
    );
  }

  unfoldable pub insert_sorted : (A → A → Bool) → A → List A → List A
  insert_sorted less x [] = x ∷ []
  insert_sorted less x (y ∷ ys) = if less y x then y ∷ insert_sorted less x ys else x ∷ y ∷ ys

  unfoldable pub sort : (A → A → Bool) → List A → List A
  sort less [] = []
  sort less (x ∷ xs) = insert_sorted less x (sort less xs)

  -- No element is below one that stands before it.
  abbrev pub IsSorted : (A → A → Bool) → List A → Type 0
  IsSorted less [] = Unit {0}
  IsSorted less (x ∷ xs) = All (λ y. less y x ≡ false) xs × IsSorted less xs

  All-insert_sorted :
      (P : A → Type 0) (less : A → A → Bool) (x : A) (xs : List A)
      → P x
      → All P xs
      → All P (insert_sorted less x xs)
  unfolding insert_sorted
  All-insert_sorted P less x [] px h = (px, tt)
  All-insert_sorted P less x (y ∷ ys) px h = elim (Bool-cases (less y x)) [
    | inl below ↦ rw below (h.0, All-insert_sorted P less x ys px h.1)
    | inr above ↦ rw above (px, h)
  ]

  insert_sorted-IsSorted :
      (less : A → A → Bool)
      → IsWeakOrder less
      → (x : A) (xs : List A) → IsSorted less xs
      → IsSorted less (insert_sorted less x xs)
  unfolding insert_sorted
  insert_sorted-IsSorted less weak x [] h = (tt, tt)
  insert_sorted-IsSorted less weak x (y ∷ ys) h = elim (Bool-cases (less y x)) [
    | inl below ↦ rw below (
      All-insert_sorted (λ z. less z y ≡ false) less x ys (weak.asym y x below) h.0,
      insert_sorted-IsSorted less weak x ys h.1,
    )
    | inr above ↦ rw above ((above, All-map ys (λ z zy. weak.not_trans z y x zy above) h.0), h)
  ]

  pub sort-IsSorted :
      (less : A → A → Bool) → IsWeakOrder less → (xs : List A) → IsSorted less (sort less xs)
  unfolding sort
  sort-IsSorted less weak [] = tt
  sort-IsSorted less weak (x ∷ xs) =
      insert_sorted-IsSorted less weak x (sort less xs) (sort-IsSorted less weak xs)

  pub All-sort :
      (P : A → Type 0) (less : A → A → Bool) (xs : List A) → All P xs → All P (sort less xs)
  unfolding sort
  All-sort P less [] h = tt
  All-sort P less (x ∷ xs) h =
      All-insert_sorted P less x (sort less xs) h.0 (All-sort P less xs h.1)

  -- An order that is finer sorts by the coarser one, too.
  pub IsSorted-map :
      {less coarse : A → A → Bool} (xs : List A)
      → ((a b : A) → less a b ≡ false → coarse a b ≡ false)
      → IsSorted less xs
      → IsSorted coarse xs
  IsSorted-map [] f h = tt
  IsSorted-map (x ∷ xs) f h = (All-map xs (λ y. f y x) h.0, IsSorted-map xs f h.1)

  count_if-insert_sorted :
      (p : A → Bool) (less : A → A → Bool) (x : A) (xs : List A)
      → count_if p (insert_sorted less x xs) ≡ count_if p (x ∷ xs)
  unfolding insert_sorted
  count_if-insert_sorted p less x [] = refl
  count_if-insert_sorted p less x (y ∷ ys) = ground (arith, count_if-insert_sorted p less x ys)

  -- Sorting moves elements, and neither adds nor drops any.
  pub count_if-sort :
      (p : A → Bool) (less : A → A → Bool) (xs : List A) → count_if p (sort less xs) ≡ count_if p xs
  unfolding sort
  count_if-sort p less [] = refl
  count_if-sort p less (x ∷ xs) =
      rw (count_if-insert_sorted p less x (sort less xs), count_if-sort p less xs) refl
