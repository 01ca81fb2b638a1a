-- ===== src/Notifications/Rows.antt =====
-- The rows of NotificationClient.cpp under its operations.
use nira_os.Base.{
  ℕ, suc, ◌==◌, ==_iff, ◌≡◌, refl, ap, sym, ◌∙◌, ◌⊎◌, inl, inr, ℤ, pos, negsuc, Bool, true, false,
  not, Bool-cases, Option, none, some, List, [], ◌∷◌, map, Text, length, is_empty, get_elem?,
  if◌then◌else◌, arith,
}
use nira_os.Notifications.{
  Notification, NotificationClient, Message, Signal, Done, row_changed, unread_count_changed,
  notification_added, replace, replaced, dismiss, dismiss_at, dismiss_all, add_notification,
  on_notification_added, below,
}

-- The notification with an id, the newest.
unfoldable pub find : ℕ → List Notification → Option Notification
find id [] = none
find id (n ∷ ns) = if n.id == id then some n else find id ns

abbrev pub ids : List Notification → List ℕ
ids = map (λ (n : Notification). n.id)

-- The loop finds the notification that has the id, and changes that one.
abbrev Replaces : Message → ℕ → List Notification → Option (ℕ × List Notification) → Type 0
Replaces m now ns none = find m.replaces_id ns ≡ none
Replaces m now ns (some (i, later)) =
    (n : Notification) × (find m.replaces_id ns ≡ some n)
    × (get_elem? ns i ≡ some n)
    × (find m.replaces_id later ≡ some (replaced n m now))
    × (ids later ≡ ids ns)
    × ((j : ℕ) → (j ≡ m.replaces_id) ⊎ (find j later ≡ find j ns))

below-Replaces :
    (m : Message) (now : ℕ) (n : Notification) (ns : List Notification)
    (rest : Option (ℕ × List Notification))
    → (n.id == m.replaces_id) ≡ false
    → Replaces m now ns rest
    → Replaces m now (n ∷ ns) (below n rest)
unfolding find
below-Replaces m now n ns none there h = rw there h
below-Replaces m now n ns (some (i, later)) there (x, found, at, changed, same, others) = (
  x,
  rw there found,
  at,
  rw there changed,
  ap (◌∷◌ n.id) same,
  λ j. elim (others j) [ inl e ↦ inl e | inr e ↦ inr (rw e refl) ],
)

replace-Replaces :
    (m : Message) (now : ℕ) (ns : List Notification) → Replaces m now ns (replace m now ns)
unfolding replace find
replace-Replaces m now [] = refl
replace-Replaces m now (n ∷ ns) = elim (Bool-cases (n.id == m.replaces_id)) [
  | inl here ↦ rw here (
    n,
    rw here refl,
    refl,
    rw here refl,
    refl,
    λ j. elim (Bool-cases (n.id == j)) [
      | inl own ↦ inl (omega (arith, (==_iff n.id j).0 own, (==_iff n.id m.replaces_id).0 here))
      | inr other ↦ inr (rw other refl)
    ],
  )
  | inr there ↦
      rw there (below-Replaces m now n ns (replace m now ns) there (replace-Replaces m now ns))
]

unfoldable pub emits_unread : List Signal → Bool
emits_unread [] = false
emits_unread (unread_count_changed ∷ signals) = true
emits_unread (signal ∷ signals) = emits_unread signals

length-ids : (ns : List Notification) → length (ids ns) ≡ length ns
length-ids [] = refl
length-ids (n ∷ ns) = ap suc (length-ids ns)

-- What the shell is told, and what the user does.
pub data Event : Type 0 where
  message_came : Message → ℕ → Event
  dismissed : ℤ → Event
  all_dismissed : Event

module _ (to_lower : Text → Text) where
  unfoldable pub step : NotificationClient → Event → Done
  step s (message_came m now) = on_notification_added to_lower s m now
  step s (dismissed row) = (dismiss s row).1
  step s all_dismissed = dismiss_all s

  finish : NotificationClient → Message → ℕ → Option (ℕ × List Notification) → Done
  finish s m now none = add_notification to_lower s m now
  finish s m now (some (i, later)) =
      (record s { notifications = later }, row_changed i ∷ notification_added m.summary m.body ∷ [])

  added-finish :
      (s : NotificationClient) (m : Message) (now : ℕ)
      → on_notification_added to_lower s m now
        ≡ finish s m now (if not (m.replaces_id == 0) then replace m now s.notifications else none)
  unfolding on_notification_added finish
  added-finish s m now =
      go (if not (m.replaces_id == 0) then replace m now s.notifications else none)
    where
      go :
          (found : Option (ℕ × List Notification))
          → (elim found [
            | none ↦ add_notification to_lower s m now
            | some (i, later) ↦ (
              record s { notifications = later },
              row_changed i ∷ notification_added m.summary m.body ∷ [],
            )
          ])
            ≡ finish s m now found
      go none = refl
      go (some (i, later)) = refl

  -- Replaced, in a list that is otherwise as it was.
  abbrev pub InPlace : NotificationClient → Message → ℕ → Notification → Done → Type 0
  InPlace s m now n r =
      (find m.replaces_id r.0.notifications ≡ some (replaced n m now))
      × (ids r.0.notifications ≡ ids s.notifications)
      × ((j : ℕ) → (j ≡ m.replaces_id) ⊎ (find j r.0.notifications ≡ find j s.notifications))
      × (emits_unread r.1 ≡ false)

  -- The count is as before, or it is said to have changed.
  abbrev pub Told : NotificationClient → Done → Type 0
  Told s r = (length r.0.notifications ≡ length s.notifications) ⊎ (emits_unread r.1 ≡ true)

  finish-Told :
      (s : NotificationClient) (m : Message) (now : ℕ) (found : Option (ℕ × List Notification))
      → Replaces m now s.notifications found
      → Told s (finish s m now found)
  unfolding finish add_notification emits_unread
  finish-Told s m now none h = inr refl
  finish-Told s m now (some (i, later)) (x, found, row, changed, same, others) =
      inl (sym (length-ids later) ∙ ap length same ∙ length-ids s.notifications)

  message-Told :
      (s : NotificationClient) (m : Message) (now : ℕ)
      → Told s (on_notification_added to_lower s m now)
  message-Told s m now = elim (Bool-cases (m.replaces_id == 0)) [
    | inl new ↦
        rw (added-finish s m now, new) (unfold finish add_notification emits_unread in inr refl)
    | inr old ↦
        rw (added-finish s m now, old)
          (finish-Told s m now (replace m now s.notifications)
            (replace-Replaces m now s.notifications))
  ]

  dismissed-Told :
      (s : NotificationClient) (row : ℕ) (n : Option Notification) → Told s (dismiss_at s row n).1
  unfolding dismiss_at emits_unread
  dismissed-Told s row none = inl refl
  dismissed-Told s row (some n) = inr refl

  pick-Told :
      (s : NotificationClient) (b : Bool) (x y : Done)
      → Told s x
      → Told s y
      → Told s (if b then x else y)
  pick-Told s true x y hx hy = hx
  pick-Told s false x y hx hy = hy

  -- Whatever happens: the number of unread notifications is as before, or a signal says that it has
  -- changed.
  pub step-Told : (s : NotificationClient) (e : Event) → Told s (step s e)
  unfolding step dismiss dismiss_all emits_unread
  step-Told s (message_came m now) = message-Told s m now
  step-Told s (dismissed (negsuc n)) = inl refl
  step-Told s (dismissed (pos row)) = dismissed-Told s row (get_elem? s.notifications row)
  step-Told s all_dismissed = pick-Told s (is_empty s.notifications) (s, []) _ (inl refl) (inr refl)
