-- ===== src/Windows/Started.antt =====
-- What the taskbar of TaskbarModel.cpp shows after its start.
use nira_os.Base.{
  same, ℕ, ◌+◌, ◌≡◌, refl, ap, sym, ◌∙◌, Bool, Bool-cases, true, false, none, some, List, [], ◌∷◌,
  ◌⊎◌, inl, inr, Text, text_eq, text_eq_iff, mem_text, subst, ◌&&◌, if_of_true, if_of_false,
  if◌then◌else◌, arith,
}
use nira_os.Base.Dict
use nira_os.Windows.Registry.{init, Window, Registry, list_window_ids, window_value}
use nira_os.Windows.Taskbar.{Taskbar, fresh}
use nira_os.Windows.Rows.{entry_of, Distinct}
use nira_os.Windows.Mirror.{Mirrors, Call, AllNew, follow, follow-Mirrors}
use nira_os.Windows.Seeding.{
  Question, title_question, app_id_question, minimized_question, focused_question, same_question,
}
use nira_os.Windows.Start.{answer_all, times, bump, calls_for, SameCalls, UniqueIds}
use nira_os.Windows.Unique.{after_calls, init-UniqueIds}
use nira_os.Windows.Answers.{answer_all-shows, answer_all-skips, answer_all-Distinct}

four_times :
    (same : Bool) (q : Question) (n : ℕ)
    → bump (same && same_question title_question q) (
        bump (same && same_question app_id_question q) (
          bump
            (same && same_question minimized_question q)
            (bump (same && same_question focused_question q) n)))
      ≡ bump same n
four_times false q n = refl
four_times true title_question n = refl
four_times true app_id_question n = refl
four_times true minimized_question n = refl
four_times true focused_question n = refl

times-calls_for :
    (j : Text) (q : Question) (ids : List Text)
    → UniqueIds ids
    → times j q (calls_for (some ids)) ≡ (if mem_text j ids then 1 else 0)
unfolding times calls_for mem_text
times-calls_for j q [] h = refl
times-calls_for j q (id ∷ ids) (new, h) =
    four_times (text_eq id j) q (times j q (calls_for (some ids)))
    ∙ ap (bump (text_eq id j)) (times-calls_for j q ids h)
    ∙ elim (Bool-cases (text_eq id j)) [
      | inl here ↦
          let missing : mem_text j ids ≡ false =
            subst (λ k. mem_text k ids ≡ false) ((text_eq_iff id j).0 here) new in
          ground (arith, here, missing)
      | inr there ↦ ground (arith, there)
    ]

mem_text-keys :
    (j : Text) (d : List (Text × Window))
    → ((Dict.lookup j d ≡ none) × (mem_text j (Dict.keys d) ≡ false))
      ⊎ ((w : Window) × (Dict.lookup j d ≡ some w) × (mem_text j (Dict.keys d) ≡ true))
unfolding Dict.lookup Dict.keys mem_text
mem_text-keys j [] = inl (refl, refl)
mem_text-keys j ((i, w) ∷ d) = elim (Bool-cases (text_eq i j)) [
  | inl here ↦ inr (w, ground (arith, here), ground (arith, here))
  | inr there ↦ elim (mem_text-keys j d) [
    | inl (missing, out) ↦ inl (ground (arith, there, missing), ground (arith, there, out))
    | inr (v, found, listed) ↦ inr (v, ground (arith, there, found), ground (arith, there, listed))
  ]
]

sum_four : {a b c d : ℕ} → a ≡ 1 → b ≡ 1 → c ≡ 1 → d ≡ 1 → a + b + c + d ≡ 4
sum_four ha hb hc hd = omega (arith, ha, hb, hc, hd)

module _ (r : Registry) (t : Taskbar) (cs : List (Text × Question)) where
  abbrev pub started : Taskbar
  started = (answer_all r (t, λ id. fresh) cs).0

  started-agrees :
      (j : Text)
      → UniqueIds (list_window_ids r)
      → SameCalls cs (calls_for (some (list_window_ids r)))
      → Distinct t.windows
      → entry_of j t.windows ≡ none
      → entry_of j started.windows ≡ Dict.lookup j r.windows
  unfolding list_window_ids window_value
  started-agrees j unique same d missing =
      let asked : (q : Question)
          → times j q cs ≡ (if mem_text j (list_window_ids r) then 1 else 0) =
        λ q. same j q ∙ times-calls_for j q (list_window_ids r) unique in
      elim (mem_text-keys j r.windows) [
        | inl (gone, out) ↦
            answer_all-skips r j cs t (λ id. fresh) d
              (λ q. asked q ∙ if_of_false (mem_text j (Dict.keys r.windows)) 1 0 out)
            ∙ missing
            ∙ sym gone
        | inr (w, found, listed) ↦
            let once : (q : Question) → times j q cs ≡ 1 =
              λ q. asked q ∙ if_of_true (mem_text j (Dict.keys r.windows)) 1 0 listed in
            let four =
              sum_four (once title_question) (once app_id_question) (once minimized_question)
                (once focused_question) in
            answer_all-shows r j cs t (λ id. fresh) d
              (
                sym four,
                inl (once title_question),
                inl (once app_id_question),
                inl (once minimized_question),
                inl (once focused_question),
                missing,
              )
            ∙ ground (arith, found)
      ]

-- A register that began empty and has taken calls, and a taskbar that starts without windows: while
-- the register stays as it is the start-up calls are answered once each, in any order. Then the
-- taskbar shows the register, and goes on to show it after every series of calls in which no id is
-- registered while it is in use.
pub follow-started-Mirrors :
    (service_ok object_ok : Bool) (before after : List Call) (t : Taskbar)
    (cs : List (Text × Question))
    → let r = after_calls (init service_ok object_ok).0 before in
      t.windows ≡ []
      → SameCalls cs (calls_for (some (list_window_ids r)))
      → AllNew r after
      → let (r', t') = follow (r, started r t cs) after in Mirrors r' t'
follow-started-Mirrors service_ok object_ok before after t cs empty same new =
    let r = after_calls (init service_ok object_ok).0 before in
    let d : Distinct t.windows = subst Distinct (sym empty) tt in
    let none_yet : (j : Text) → entry_of j t.windows ≡ none =
      λ j. unfold entry_of in rw empty refl in
    follow-Mirrors r (started r t cs) after
      (record {
        agrees = λ j.
            started-agrees r t cs j (init-UniqueIds service_ok object_ok before) same d
              (none_yet j);
        distinct = answer_all-Distinct r cs t (λ id. fresh) d;
      })
      new
