-- ===== src/Base/Sets.antt =====
-- Sets of texts, what a listener knows, say: lists up to order and repetition.
use mathlib.Core.Path.{◌≡◌}
use mathlib.Core.List.{List}
use mathlib.Core.Quot
use mathlib.Core.Quot.{Quot}
use nira_os.Base.Texts.{Text, mem_text}

-- The same texts are in both.
abbrev pub SameMembers : List Text → List Text → Type 0
SameMembers xs ys = (t : Text) → mem_text t xs ≡ mem_text t ys

abbrev pub TextSet : Type 0
TextSet = Quot SameMembers

abbrev pub of_list : List Text → TextSet
of_list = Quot.mk

pub same_sets : (xs ys : List Text) → SameMembers xs ys → of_list xs ≡ of_list ys
same_sets xs ys h = Quot.sound h
