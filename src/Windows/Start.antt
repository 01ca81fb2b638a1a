-- ===== src/Windows/Start.antt =====
-- The start of the taskbar as a whole: the constructor of TaskbarModel.cpp asks for the list of
-- windows, sends four calls for each of its ids, and takes their answers in whatever order.
use nira_os.Base.{
  ℕ, suc, ◌≡◌, Bool, true, false, Option, none, some, List, [], ◌∷◌, Text, text_eq, mem_text, ◌&&◌,
  if◌then◌else◌,
}
use nira_os.Windows.Registry.{Registry}
use nira_os.Windows.Taskbar.{Taskbar, PendingData, Reply, on_reply}
use nira_os.Windows.Seeding.{
  Question, title_question, app_id_question, minimized_question, focused_question, same_question,
  answer,
}

-- The calls that are sent when the list of ids is there; after an error none is.
unfoldable pub calls_for : Option (List Text) → List (Text × Question)
calls_for none = []
calls_for (some []) = []
calls_for (some (id ∷ ids)) =
    (id, title_question)
    ∷ (id, app_id_question)
    ∷ (id, minimized_question)
    ∷ (id, focused_question)
    ∷ calls_for (some ids)

-- What has been collected for each id.
abbrev pub Collected : Type 0
Collected = Text → PendingData

unfoldable pub on_call_finished : Taskbar × Collected → Text → Reply → Taskbar × Collected
on_call_finished (t, p) id r =
    let (t', d) = on_reply id (t, p id) r in (t', λ j. if text_eq id j then d else p j)

-- The register answers the calls in the order that is given.
unfoldable pub answer_all :
    Registry → Taskbar × Collected → List (Text × Question) → Taskbar × Collected
answer_all r s [] = s
answer_all r s ((id, q) ∷ cs) = answer_all r (on_call_finished s id (answer r id q)) cs

abbrev pub bump : Bool → ℕ → ℕ
bump true n = suc n
bump false n = n

-- How often a question about an id is among the calls.
unfoldable pub times : Text → Question → List (Text × Question) → ℕ
times j q [] = 0
times j q ((i, p) ∷ cs) = bump (text_eq i j && same_question p q) (times j q cs)

-- The same calls, in any order.
abbrev pub SameCalls : List (Text × Question) → List (Text × Question) → Type 0
SameCalls cs ds = (j : Text) (q : Question) → times j q cs ≡ times j q ds

-- No id stands twice.
abbrev pub UniqueIds : List Text → Type 0
UniqueIds [] = Unit {0}
UniqueIds (id ∷ ids) = (mem_text id ids ≡ false) × UniqueIds ids
