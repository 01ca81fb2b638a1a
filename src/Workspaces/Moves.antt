-- ===== src/Workspaces/Moves.antt =====
-- The moves of WorkspaceController.cpp stay in range.
use nira_os.Base.{
  ℕ, ◌≡◌, refl, sym, ◌∙◌, ℤ, pos, int_eq, lt_int, is_negative, Bool, true, false, not, ◌||◌,
  Bool-cases, none, List, [], ◌∷◌, ◌++◌, All, All-append, subst, Text, if◌then◌else◌, inl, inr,
  arith,
}
use nira_os.Workspaces.{
  WorkspaceController, Effect, switch_call, Done, Compositor, switch_to, next, previous, probe,
  read_state,
}

pub data Move : Type 0 where
  switched : ℤ → Move
  went_next went_previous : Move

unfoldable pub move : WorkspaceController → Move → Done
move s (switched index) = switch_to s index
move s went_next = next s
move s went_previous = previous s

unfoldable pub moves : WorkspaceController → List Move → Done
moves s [] = (s, [])
moves s (m ∷ ms) = let (t, effects) = move s m in let (u, more) = moves t ms in (u, effects ++ more)

-- A workspace that there is.
abbrev pub IsWorkspace : ℤ → ℤ → Type 0
IsWorkspace count index = (is_negative index ≡ false) × (lt_int index count ≡ true)

-- What the compositor is asked for.
abbrev pub AsksFor : ℤ → Effect → Type 0
AsksFor count (switch_call index) = IsWorkspace count index
AsksFor count e = Unit {0}

abbrev pub StaysInRange : WorkspaceController → Done → Type 0
StaysInRange s r =
    (r.0.count ≡ s.count) × IsWorkspace s.count r.0.current × All (AsksFor s.count) r.1

passed :
    (iface negative below : Bool)
    → (not iface || negative || not below) ≡ false
    → (iface ≡ true) × (negative ≡ false) × (below ≡ true)
passed iface negative below h = ground arith

switch_to-StaysInRange :
    (s : WorkspaceController) (index : ℤ)
    → IsWorkspace s.count s.current
    → StaysInRange s (switch_to s index)
unfolding switch_to
switch_to-StaysInRange s index h =
    elim (Bool-cases (not s.has_iface || is_negative index || not (lt_int index s.count))) [
      | inl out ↦ rw out (refl, h, tt)
      | inr inside ↦
          let (_, not_negative, below) =
            passed s.has_iface (is_negative index) (lt_int index s.count) inside in
          elim (Bool-cases (int_eq index s.current)) [
            | inl same ↦ rw (inside, same) (refl, h, ((not_negative, below), tt))
            | inr other ↦
                rw (inside, other) (refl, (not_negative, below), ((not_negative, below), (tt, tt)))
          ]
    ]

pick-StaysInRange :
    (s : WorkspaceController) (b : Bool) (x y : Done)
    → StaysInRange s x
    → StaysInRange s y
    → StaysInRange s (if b then x else y)
pick-StaysInRange s true x y hx hy = hx
pick-StaysInRange s false x y hx hy = hy

move-StaysInRange :
    (s : WorkspaceController) (m : Move) → IsWorkspace s.count s.current → StaysInRange s (move s m)
unfolding move next previous
move-StaysInRange s (switched index) h = switch_to-StaysInRange s index h
move-StaysInRange s went_next h =
    pick-StaysInRange s (not (lt_int (pos 1) s.count)) (s, []) _ (refl, h, tt)
      (switch_to-StaysInRange s _ h)
move-StaysInRange s went_previous h =
    pick-StaysInRange s (not (lt_int (pos 1) s.count)) (s, []) _ (refl, h, tt)
      (switch_to-StaysInRange s _ h)

-- From a current workspace that there is: after any moves the current workspace is one that there
-- is, and the compositor was only asked for such ones; the number of workspaces stays.
pub moves_stay_in_range :
    (s : WorkspaceController) (ms : List Move)
    → IsWorkspace s.count s.current
    → StaysInRange s (moves s ms)
unfolding moves
moves_stay_in_range s [] h = (refl, h, tt)
moves_stay_in_range s (m ∷ ms) h =
    let (same, inside, asked) = move-StaysInRange s m h in
    let (same', inside', asked') =
      moves_stay_in_range (move s m).0 ms
        (subst (λ n. IsWorkspace n (move s m).0.current) (sym same) inside) in
    (
      same' ∙ same,
      subst (λ n. IsWorkspace n (moves (move s m).0 ms).0.current) same inside',
      All-append (AsksFor s.count) (move s m).1 (moves (move s m).0 ms).1 asked
          (subst (λ n. All (AsksFor n) (moves (move s m).0 ms).1) same asked'),
    )

-- A compositor that goes away is not noticed: with an interface from an earlier probe, a probe that
-- finds no service and gets no answers changes nothing, however many workspaces are shown.
pub gone_compositor_is_kept :
    (number : ℕ → Text) (s : WorkspaceController) (c : Compositor)
    → s.has_iface ≡ true
    → c.is_registered ≡ false
    → c.count_reply ≡ none
    → c.current_reply ≡ none
    → c.names_reply ≡ none
    → probe number s c ≡ (s, [])
unfolding probe read_state
gone_compositor_is_kept number s c iface gone no_count no_current no_names =
    rw (gone, no_count, no_current, no_names) (rw iface (ground arith))
