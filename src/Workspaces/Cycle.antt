-- ===== src/Workspaces/Cycle.antt =====
-- next and previous of WorkspaceController.cpp undo each other.
use nira_os.Base.{
  ℕ, zero, suc, ◌+◌, ◌-◌, ◌%◌, ◌<◌, ◌≡◌, refl, ap, sym, ◌∙◌, ==_iff, ℤ, pos, negsuc, int_eq, lt_int,
  is_negative, ◌+ℤ◌, ◌%ℤ◌, Bool, true, false, not, ◌||◌, Bool-cases, List, subst, Text, inl, inr,
  arith,
}
use nira_os.Workspaces.{WorkspaceController, switch_to, next, previous}
use nira_os.Workspaces.Moves.{IsWorkspace}

int_eq-eq : (a b : ℤ) → int_eq a b ≡ true → a ≡ b
unfolding int_eq
int_eq-eq (pos m) (pos n) h = ap pos ((==_iff m n).0 h)
int_eq-eq (negsuc m) (negsuc n) h = ap negsuc ((==_iff m n).0 h)
int_eq-eq (pos m) (negsuc n) h = cc
int_eq-eq (negsuc m) (pos n) h = cc

opened :
    (iface negative below : Bool)
    → iface ≡ true
    → negative ≡ false
    → below ≡ true
    → (not iface || negative || not below) ≡ false
opened iface negative below a b c = ground arith

-- With a compositor, a move to a workspace that there is makes it the current one.
switch_to-there :
    (s : WorkspaceController) (index : ℤ)
    → s.has_iface ≡ true
    → IsWorkspace s.count index
    → (switch_to s index).0 ≡ record s { current = index }
unfolding switch_to
switch_to-there s index iface (not_negative, below) =
    let inside =
      opened s.has_iface (is_negative index) (lt_int index s.count) iface not_negative below in
    elim (Bool-cases (int_eq index s.current)) [
      | inl same ↦
          rw (inside, same)
            (ap (λ i. record s { current = i }) (sym (int_eq-eq index s.current same)))
      | inr other ↦ rw (inside, other) refl
    ]

up : (k c : ℕ) → (pos k +ℤ pos 1) %ℤ pos c ≡ pos ((k + 1) % c)
unfolding ◌+ℤ◌ ◌%ℤ◌
up k c = ground arith

pos_add : (k c : ℕ) → pos k +ℤ pos c ≡ pos (k + c)
unfolding ◌+ℤ◌
pos_add k c = ground arith

pos_pred : (k : ℕ) → pos (suc k) +ℤ negsuc 0 ≡ pos k
unfolding ◌+ℤ◌
pos_pred k = ground arith

wrapped_pred : (c : ℕ) → 1 < c → negsuc 0 +ℤ pos c ≡ pos (c - 1)
unfolding ◌+ℤ◌
wrapped_pred c h = ground arith

rem_pos : (k c : ℕ) → pos k %ℤ pos c ≡ pos (k % c)
unfolding ◌%ℤ◌
rem_pos k c = ground arith

down : (k c : ℕ) → 1 < c → (pos k +ℤ negsuc 0 +ℤ pos c) %ℤ pos c ≡ pos ((k + c - 1) % c)
down zero c h =
    let first : pos 0 +ℤ negsuc 0 ≡ negsuc 0 = unfold ◌+ℤ◌ in refl in
    rw (first, wrapped_pred c h, rem_pos) (ap (λ n. pos (n % c)) (omega arith))
down (suc k) c h = rw (pos_pred, pos_add, rem_pos) (ap (λ n. pos (n % c)) (omega arith))

down_up : (k c : ℕ) → k < c → 1 < c → ((k + 1) % c + c - 1) % c ≡ k
down_up k c h two = grind arith

up_down : (k c : ℕ) → k < c → 1 < c → ((k + c - 1) % c + 1) % c ≡ k
up_down k c h two = grind arith

abbrev at : ℕ → ℕ → List Text → WorkspaceController
at c k names = record { has_iface = true; count = pos c; current = pos k; names = names }

at-IsWorkspace : (c k : ℕ) → k < c → IsWorkspace (pos c) (pos k)
at-IsWorkspace c k h = (refl, ground arith)

many : (c : ℕ) → 1 < c → lt_int (pos 1) (pos c) ≡ true
many c h = ground arith

next-at :
    (c k : ℕ) (names : List Text)
    → k < c
    → 1 < c
    → (next (at c k names)).0 ≡ at c ((k + 1) % c) names
unfolding next
next-at c k names h two =
    rw (many c two, up k c)
      (switch_to-there (at c k names) (pos ((k + 1) % c)) refl (at-IsWorkspace c _ (grind arith)))

previous-at :
    (c k : ℕ) (names : List Text)
    → k < c
    → 1 < c
    → (previous (at c k names)).0 ≡ at c ((k + c - 1) % c) names
unfolding previous
previous-at c k names h two =
    rw (many c two, down k c two)
      (switch_to-there (at c k names) (pos ((k + c - 1) % c)) refl
        (at-IsWorkspace c _ (grind arith)))

at-numbers :
    (s : WorkspaceController)
    → s.has_iface ≡ true
    → lt_int (pos 1) s.count ≡ true
    → IsWorkspace s.count s.current
    → (c : ℕ) × (k : ℕ) × (s ≡ at c k s.names) × (k < c) × (1 < c)
at-numbers s iface two (not_negative, below) = go s.count s.current refl refl two not_negative below
  where
    go :
        (count current : ℤ)
        → s.count ≡ count
        → s.current ≡ current
        → lt_int (pos 1) count ≡ true
        → is_negative current ≡ false
        → lt_int current count ≡ true
        → (c : ℕ) × (k : ℕ) × (s ≡ at c k s.names) × (k < c) × (1 < c)
    go (pos c) (pos k) hc hk t n b =
        (c, k, ground (arith, iface, hc, hk), ground arith, ground arith)
    go (negsuc c) current hc hk t n b = absurd (ground arith)
    go (pos c) (negsuc k) hc hk t n b = absurd (ground arith)

there_and_back :
    (c k : ℕ) (names : List Text)
    → k < c
    → 1 < c
    → ((previous (next (at c k names)).0).0 ≡ at c k names)
      × ((next (previous (at c k names)).0).0 ≡ at c k names)
there_and_back c k names below more =
    rw (next-at c k names below more, previous-at c k names below more)
      (
        previous-at c ((k + 1) % c) names (grind arith) more
            ∙ ap (λ j. at c j names) (down_up k c below more),
        next-at c ((k + c - 1) % c) names (grind arith) more
            ∙ ap (λ j. at c j names) (up_down k c below more),
      )

-- With a compositor and more than one workspace, from a workspace that there is: the next one and
-- then the previous one lead back, and so do the previous one and then the next one.
pub previous-next :
    (s : WorkspaceController)
    → s.has_iface ≡ true
    → lt_int (pos 1) s.count ≡ true
    → IsWorkspace s.count s.current
    → ((previous (next s).0).0 ≡ s) × ((next (previous s).0).0 ≡ s)
previous-next s iface two h =
    let (c, k, same, below, more) = at-numbers s iface two h in
    subst (λ t. ((previous (next t).0).0 ≡ t) × ((next (previous t).0).0 ≡ t)) (sym same)
      (there_and_back c k s.names below more)
