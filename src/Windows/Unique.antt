-- ===== src/Windows/Unique.antt =====
-- The register of WindowManagerDBus.cpp holds no id twice.
use nira_os.Base.{
  same, Option-cases, ◌||◌, ◌≡◌, refl, ap, sym, Bool, Bool-cases, true, false, List, [], ◌∷◌, ◌⊎◌,
  inl, inr, Text, text_eq, text_eq_iff, mem_text, subst, ◌&&◌, arith,
}
use nira_os.Base.Dict
use nira_os.Windows.Registry.{
  init, register_window, unregister_window, update_window_state, update_window_metadata, Window,
  Registry, list_window_ids,
}
use nira_os.Windows.Mirror.{perform, registers, unregisters, sets_state, sets_metadata, Call}
use nira_os.Windows.Start.{UniqueIds}

mem_text-insert :
    (j k : Text) (w : Window) (d : List (Text × Window))
    → mem_text j (Dict.keys (Dict.insert k w d)) ≡ (text_eq k j || mem_text j (Dict.keys d))
unfolding Dict.insert Dict.keys mem_text
mem_text-insert j k w [] = refl
mem_text-insert j k w ((i, v) ∷ d) = elim (Bool-cases (text_eq i k)) [
  | inl here ↦
      let at : i ≡ k = (text_eq_iff i k).0 here in ground (arith, here, ap (λ a. text_eq a j) at)
  | inr there ↦ ground (arith, there, mem_text-insert j k w d)
]

insert-UniqueIds :
    (k : Text) (w : Window) (d : List (Text × Window))
    → UniqueIds (Dict.keys d)
    → UniqueIds (Dict.keys (Dict.insert k w d))
unfolding Dict.insert Dict.keys mem_text
insert-UniqueIds k w [] h = (refl, tt)
insert-UniqueIds k w ((i, v) ∷ d) (new, h) = elim (Bool-cases (text_eq i k)) [
  | inl here ↦
      rw here (subst (λ a. mem_text a (Dict.keys d) ≡ false) ((text_eq_iff i k).0 here) new, h)
  | inr there ↦ rw there (
    ground (arith, mem_text-insert i k w d, new, there, text_eq_iff i k, text_eq_iff k i),
    insert-UniqueIds k w d h,
  )
]

mem_text-erase :
    (j k : Text) (d : List (Text × Window))
    → mem_text j (Dict.keys d) ≡ false
    → mem_text j (Dict.keys (Dict.erase k d)) ≡ false
unfolding Dict.erase Dict.keys mem_text
mem_text-erase j k [] h = refl
mem_text-erase j k ((i, v) ∷ d) h = elim (Bool-cases (text_eq i k)) [
  | inl here ↦ rw here (mem_text-erase j k d (ground (arith, h)))
  | inr there ↦ ground (arith, there, h, mem_text-erase j k d (ground (arith, h)))
]

erase-UniqueIds :
    (k : Text) (d : List (Text × Window))
    → UniqueIds (Dict.keys d)
    → UniqueIds (Dict.keys (Dict.erase k d))
unfolding Dict.erase Dict.keys mem_text
erase-UniqueIds k [] h = tt
erase-UniqueIds k ((i, v) ∷ d) (new, h) = elim (Bool-cases (text_eq i k)) [
  | inl here ↦ rw here (erase-UniqueIds k d h)
  | inr there ↦ rw there (mem_text-erase i k d new, erase-UniqueIds k d h)
]

-- An update leaves the windows as they are, or writes one of them.
abbrev Writes : Registry → Text → Registry → Type 0
Writes r id r' =
    (r'.windows ≡ r.windows) ⊎ ((w : Window) × (r'.windows ≡ Dict.insert id w r.windows))

update_window_state-Writes :
    (r : Registry) (id : Text) (minimized focused : Bool)
    → Writes r id (update_window_state r id minimized focused).0
unfolding update_window_state
update_window_state-Writes r id minimized focused = elim (Option-cases (Dict.lookup id r.windows)) [
  | inl missing ↦ inl (ground (arith, missing))
  | inr (w, found) ↦ elim (Bool-cases (same w.minimized minimized && same w.focused focused)) [
    | inl unchanged ↦ inl (ground (arith, found, unchanged))
    | inr differs ↦
        inr (record w { minimized = minimized; focused = focused }, ground (arith, found, differs))
  ]
]

update_window_metadata-Writes :
    (r : Registry) (id title app_id : Text)
    → Writes r id (update_window_metadata r id title app_id).0
unfolding update_window_metadata
update_window_metadata-Writes r id title app_id = elim (Option-cases (Dict.lookup id r.windows)) [
  | inl missing ↦ inl (ground (arith, missing))
  | inr (w, found) ↦ inr (record w { title = title; app_id = app_id }, ground (arith, found))
]

written-UniqueIds :
    (r r' : Registry) (id : Text)
    → Writes r id r'
    → UniqueIds (list_window_ids r)
    → UniqueIds (list_window_ids r')
unfolding list_window_ids
written-UniqueIds r r' id (inl same) h = subst (λ ws. UniqueIds (Dict.keys ws)) (sym same) h
written-UniqueIds r r' id (inr (w, wrote)) h =
    subst (λ ws. UniqueIds (Dict.keys ws)) (sym wrote) (insert-UniqueIds id w r.windows h)

-- No call of the register makes it hold an id twice.
perform-UniqueIds :
    (r : Registry) (c : Call)
    → UniqueIds (list_window_ids r)
    → UniqueIds (list_window_ids (perform r c).0)
unfolding perform list_window_ids register_window unregister_window
perform-UniqueIds r (registers id title app_id) h = insert-UniqueIds id _ r.windows h
perform-UniqueIds r (unregisters id) h = erase-UniqueIds id r.windows h
perform-UniqueIds r (sets_state id minimized focused) h =
    written-UniqueIds r (update_window_state r id minimized focused).0 id
      (update_window_state-Writes r id minimized focused) h
perform-UniqueIds r (sets_metadata id title app_id) h =
    written-UniqueIds r (update_window_metadata r id title app_id).0 id
      (update_window_metadata-Writes r id title app_id) h

-- The register after calls.
unfoldable pub after_calls : Registry → List Call → Registry
after_calls r [] = r
after_calls r (c ∷ cs) = after_calls (perform r c).0 cs

after_calls-UniqueIds :
    (r : Registry) (cs : List Call)
    → UniqueIds (list_window_ids r)
    → UniqueIds (list_window_ids (after_calls r cs))
unfolding after_calls
after_calls-UniqueIds r [] h = h
after_calls-UniqueIds r (c ∷ cs) h =
    after_calls-UniqueIds (perform r c).0 cs (perform-UniqueIds r c h)

-- A register that began empty holds no id twice.
pub init-UniqueIds :
    (service_ok object_ok : Bool) (cs : List Call)
    → UniqueIds (list_window_ids (after_calls (init service_ok object_ok).0 cs))
unfolding list_window_ids init Dict.keys
init-UniqueIds service_ok object_ok cs =
    after_calls-UniqueIds (init service_ok object_ok).0 cs (empty service_ok object_ok)
  where
    empty : (a b : Bool) → UniqueIds (list_window_ids (init a b).0)
    empty true true = tt
    empty true false = tt
    empty false b = tt
