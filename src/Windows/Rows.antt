-- ===== src/Windows/Rows.antt =====
-- The rows of the taskbar by window id: what `indexOf`, a write, an insertion and a removal do.
use nira_os.Base.{
  ℕ, zero, suc, ◌≡◌, refl, Option, none, some, List, [], ◌∷◌, ◌++◌, Text, text_eq, text_eq_iff,
  arith, set, remove_at, get_elem?, Bool-cases, inl, inr, ◌⊎◌, if◌then◌else◌,
}
use nira_os.Windows.Registry.{Window}
use nira_os.Windows.Taskbar.{WindowEntry, index_of}

abbrev pub shown : WindowEntry → Window
shown w = record {
  title = w.title;
  app_id = w.app_id;
  minimized = w.minimized;
  focused = w.focused;
}

-- What the taskbar shows under an id.
unfoldable pub entry_of : Text → List WindowEntry → Option Window
entry_of id [] = none
entry_of id (w ∷ ws) = if text_eq w.window_id id then some (shown w) else entry_of id ws

-- No id stands on two rows.
abbrev pub Distinct : List WindowEntry → Type 0
Distinct [] = Unit {0}
Distinct (w ∷ ws) = (entry_of w.window_id ws ≡ none) × Distinct ws

-- `indexOf` finds a row with the id, which shows what the id shows, or there is none.
unfoldable pub Finds : Text → List WindowEntry → Type 0
Finds id ws =
    ((index_of id ws ≡ none) × (entry_of id ws ≡ none))
    ⊎ ((i : ℕ) × (w : WindowEntry) × (index_of id ws ≡ some i)
        × (get_elem? ws i ≡ some w)
        × (w.window_id ≡ id)
        × (entry_of id ws ≡ some (shown w)))

pub index_of-Finds : (id : Text) (ws : List WindowEntry) → Finds id ws
unfolding Finds index_of entry_of
index_of-Finds id [] = inl (refl, refl)
index_of-Finds id (w ∷ ws) = elim (Bool-cases (text_eq w.window_id id)) [
  | inl hit ↦ inr (0, w, rw hit, refl, (text_eq_iff w.window_id id).0 hit, rw hit)
  | inr miss ↦ elim (index_of-Finds id ws) [
    | inl m ↦ inl (ground arith, ground arith)
    | inr (i, v, at, here, e, shows) ↦ inr (suc i, v, ground arith, here, e, ground arith)
  ]
]

pub entry_of-append :
    (id : Text) (ws : List WindowEntry) (w : WindowEntry)
    → entry_of w.window_id ws ≡ none
    → entry_of id (ws ++ (w ∷ []))
      ≡ (if text_eq w.window_id id then some (shown w) else entry_of id ws)
unfolding entry_of
entry_of-append id [] w h = refl
entry_of-append id (v ∷ ws) w h = ground (
  arith,
  entry_of-append id ws w,
  text_eq_iff w.window_id id,
  text_eq_iff v.window_id id,
  text_eq_iff v.window_id w.window_id,
)

pub entry_of-set :
    (id j : Text) (ws : List WindowEntry) {i : ℕ} (w : WindowEntry)
    → index_of id ws ≡ some i
    → w.window_id ≡ id
    → entry_of j (set ws i w) ≡ (if text_eq id j then some (shown w) else entry_of j ws)
unfolding entry_of index_of
entry_of-set id j [] w h e = cc
entry_of-set id j (v ∷ ws) {i = zero} w h e = ground (
  arith,
  text_eq_iff w.window_id j,
  text_eq_iff id j,
  text_eq_iff v.window_id j,
  text_eq_iff v.window_id id,
)
entry_of-set id j (v ∷ ws) {i = suc i} w h e = ground (
  arith,
  entry_of-set id j ws {i = i} w,
  text_eq_iff id j,
  text_eq_iff v.window_id j,
  text_eq_iff v.window_id id,
)

pub entry_of-remove_at :
    (id j : Text) (ws : List WindowEntry) {i : ℕ}
    → index_of id ws ≡ some i
    → Distinct ws
    → entry_of j (remove_at ws i) ≡ (if text_eq id j then none else entry_of j ws)
unfolding entry_of index_of
entry_of-remove_at id j [] h d = cc
entry_of-remove_at id j (v ∷ ws) {i = zero} h d =
    ground (arith, text_eq_iff id j, text_eq_iff v.window_id j, text_eq_iff v.window_id id)
entry_of-remove_at id j (v ∷ ws) {i = suc i} h d = ground (
  arith,
  entry_of-remove_at id j ws {i = i},
  text_eq_iff id j,
  text_eq_iff v.window_id j,
  text_eq_iff v.window_id id,
)

pub append-Distinct :
    (ws : List WindowEntry) (w : WindowEntry)
    → entry_of w.window_id ws ≡ none
    → Distinct ws
    → Distinct (ws ++ (w ∷ []))
unfolding entry_of
append-Distinct [] w h d = (refl, tt)
append-Distinct (v ∷ ws) w h d = ground (
  arith,
  append-Distinct ws w,
  entry_of-append v.window_id ws w,
  text_eq_iff w.window_id v.window_id,
  text_eq_iff v.window_id w.window_id,
)

pub set-Distinct :
    (id : Text) (ws : List WindowEntry) {i : ℕ} (w : WindowEntry)
    → index_of id ws ≡ some i
    → w.window_id ≡ id
    → Distinct ws
    → Distinct (set ws i w)
unfolding entry_of index_of
set-Distinct id [] w h e d = tt
set-Distinct id (v ∷ ws) {i = zero} w h e d = ground (arith, text_eq_iff v.window_id id)
set-Distinct id (v ∷ ws) {i = suc i} w h e d = ground (
  arith,
  set-Distinct id ws {i = i} w,
  entry_of-set id v.window_id ws {i = i} w,
  text_eq_iff id v.window_id,
  text_eq_iff v.window_id id,
)

pub remove_at-Distinct :
    (id : Text) (ws : List WindowEntry) {i : ℕ}
    → index_of id ws ≡ some i
    → Distinct ws
    → Distinct (remove_at ws i)
unfolding entry_of index_of
remove_at-Distinct id [] h d = tt
remove_at-Distinct id (v ∷ ws) {i = zero} h d = d.1
remove_at-Distinct id (v ∷ ws) {i = suc i} h d = ground (
  arith,
  remove_at-Distinct id ws {i = i},
  entry_of-remove_at id v.window_id ws {i = i},
  text_eq_iff id v.window_id,
  text_eq_iff v.window_id id,
)
