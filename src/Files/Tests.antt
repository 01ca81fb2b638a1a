-- ===== src/Files/Tests.antt =====
-- Runs of the file manager's operations, and one instance of each theorem, on small file systems.
use nira_os.Base.{
  ℕ, ◌+◌, ◌*◌, ◌-◌, ◌≡◌, refl, ◌⊎◌, inl, inr, Bool, true, false, ◌&&◌, ◌||◌, not, leb, some, [],
  ◌∷◌, ◌++◌, Text, lit, has_char, starts_with, text_eq, text_eq_refl, length, drop, if◌then◌else◌,
  arith, Bool-cases,
}
use nira_os.Files.System.{FileSystem, Paths}
use nira_os.Files.Names.{is_safe_name, leads_to, split_path, walk}
use nira_os.Files.Operations.{
  delete, delete_finished, rename, rename_finished, copy, copy_finished, perform_recursive_delete,
  delete_entries,
}
use nira_os.Files.Recursion.{DeleteLaws, recursive_delete_ends}
use nira_os.Files.SelfCopy.{nested, copy_into_itself_nests}
use nira_os.Files.Trash.{KeepLaws, trashed_file_stays}
use nira_os.Files.Rename.{rename_confined}

-- Paths whose last part is one character long.
abbrev short_paths : Paths
short_paths = record {
  file_name = λ p. drop (length p - 1) p;
  complete_base_name = λ p. drop (length p - 1) p;
  suffix = λ p. [];
  absolute_file_path = λ p. p;
  absolute_path = λ p. 47 ∷ 104 ∷ [];
  absolute_in = λ d n. d ++ (47 ∷ n);
  data_location = [];
  arg = λ t a. a;
  arg2 = λ t a b. a;
  digits = λ n. n ∷ [];
}

abbrev dir_path : Text
dir_path = 47 ∷ 100 ∷ []

abbrev inner_path : Text
inner_path = 47 ∷ 100 ∷ 47 ∷ 102 ∷ []

-- A folder with at most one file in it: is the folder there, is the file.
abbrev one_folder : FileSystem
one_folder = record {
  State = Bool × Bool;
  exists = λ s p. (text_eq p dir_path && s.0) || (text_eq p inner_path && s.1);
  is_dir = λ s p. text_eq p dir_path && s.0;
  entries = λ s p.
      if text_eq p dir_path && s.1
      then record { name = 102 ∷ []; path = inner_path; is_directory = false } ∷ []
      else [];
  copy_file = λ s a b. (false, s);
  rename_file = λ s a b. (true, s);
  remove_file = λ s p. if text_eq p inner_path then (s.1, (s.0, false)) else (false, s);
  make_path = λ s p. (false, s);
  remove_dir = λ s p. if text_eq p dir_path then (not s.1, (s.1, s.1)) else (false, s);
  create_empty = λ s p. (false, s);
  gio_trash = λ s p. (false, s);
  start_detached = λ s c a. false;
  error_string = λ s p. [];
}

abbrev one_depth : Bool × Bool → Text → ℕ
one_depth s p = if text_eq p dir_path then 1 else 0

one_folder-laws : DeleteLaws one_folder one_depth
unfolding text_eq
one_folder-laws = record {
  entries_shallower = λ s p. elim (Bool-cases (text_eq p dir_path && s.1)) [
    | inl e ↦ rw e (ground arith, tt)
    | inr e ↦ rw e tt
  ];
  remove_file_depth = λ s p q. omega arith;
  remove_dir_depth = λ s p q. omega arith;
  remove_dir_gone = λ s p e. ground arith;
}

recursive_delete_ends_example :
    (done : Bool) × (t : Bool × Bool) × (perform_recursive_delete one_folder short_paths 2
        (true, true)
        dir_path
      ≡ some (done, t))
    × (done ≡ false ⊎ (text_eq dir_path dir_path && t.0) ≡ false)
recursive_delete_ends_example =
    recursive_delete_ends one_folder short_paths one_depth one_folder-laws 2 (true, true) dir_path
      (unfold text_eq in ground arith)

deleted_folder :
    perform_recursive_delete one_folder short_paths 2 (true, true) dir_path
    ≡ some (true, (false, false))
unfolding perform_recursive_delete text_eq delete_entries
deleted_folder = refl

-- A chain of folders, each of them in the one before: how many there are.
abbrev chain : FileSystem
chain = record {
  State = ℕ;
  exists = λ s p. leb (length p) (2 * s);
  is_dir = λ s p. leb (length p) (2 * s);
  entries = λ s p.
      if leb (length p + 2) (2 * s)
      then record { name = 97 ∷ []; path = p ++ (47 ∷ 97 ∷ []); is_directory = true } ∷ []
      else [];
  copy_file = λ s a b. (false, s);
  rename_file = λ s a b. (false, s);
  remove_file = λ s p. (false, s);
  make_path = λ s p. if leb 3 s then (false, s) else (true, s + 1);
  remove_dir = λ s p. (false, s);
  create_empty = λ s p. (false, s);
  gio_trash = λ s p. (false, s);
  start_detached = λ s c a. false;
  error_string = λ s p. [];
}

-- Two more folders can be made, then the disk is full.
copy_into_itself_nests_example :
    (copy chain short_paths 100 1 (47 ∷ 97 ∷ []) (47 ∷ 97 ∷ [])
      ≡ some (copy_finished false (lit "Failed to copy " ++ (97 ∷ [])) ∷ [], 3))
    × (chain.is_dir 3 (nested chain short_paths (97 ∷ []) 2 (47 ∷ 97 ∷ [])) ≡ true)
copy_into_itself_nests_example =
    copy_into_itself_nests chain short_paths (97 ∷ []) 2 100 1 (47 ∷ 97 ∷ [])
      (
        record { there = refl; no_child = refl; no_entries = refl },
        refl,
        refl,
        (
          record { there = refl; no_child = refl; no_entries = refl },
          refl,
          refl,
          (record { there = refl; no_child = refl; no_entries = refl }, refl, refl),
        ),
      )
      (omega arith) refl refl refl

-- One file, which cannot be renamed, and copies that always work.
abbrev full_disk : FileSystem
full_disk = record {
  State = Bool;
  exists = λ s p. s && text_eq p dir_path;
  is_dir = λ s p. false;
  entries = λ s p. [];
  copy_file = λ s a b. (true, s);
  rename_file = λ s a b. (false, s);
  remove_file = λ s p. (true, if text_eq p dir_path then false else s);
  make_path = λ s p. (true, s);
  remove_dir = λ s p. (false, s);
  create_empty = λ s p. (true, s);
  gio_trash = λ s p. (false, s);
  start_detached = λ s c a. false;
  error_string = λ s p. [];
}

full_disk-laws : KeepLaws full_disk short_paths
full_disk-laws = record {
  gio_keeps = λ s p e h. h;
  make_path_keeps = λ s p q h. h;
  rename_keeps = λ s p q e h. h;
  copy_keeps = λ s p q h. h;
}

trashed_file_stays_example :
    (t : Bool) × (delete full_disk short_paths 1 true dir_path false
      ≡ some (delete_finished true [] ∷ [], t))
    × ((t && text_eq dir_path dir_path) ≡ true)
trashed_file_stays_example =
    trashed_file_stays full_disk short_paths full_disk-laws 0 true dir_path
      (text_eq_refl dir_path, refl) refl refl refl

-- A name that is not safe leaves the folder.
unsafe_name_leaves : leads_to (dir_path ++ (47 ∷ 46 ∷ 46 ∷ [])) ≡ []
unfolding leads_to split_path walk text_eq lit
unsafe_name_leaves = refl

abbrev both_there : Bool × Bool
both_there = (true, true)

rename_confined_example :
    (both_there ≡ both_there)
    ⊎ ((both_there ≡ both_there)
        × (leads_to (47 ∷ 104 ∷ 47 ∷ 102 ∷ []) ≡ (102 ∷ []) ∷ leads_to (47 ∷ 104 ∷ []))
        × (one_folder.exists (true, true) (47 ∷ 104 ∷ 47 ∷ 102 ∷ []) ≡ false
            ⊎ (47 ∷ 104 ∷ 47 ∷ 102 ∷ []) ≡ dir_path))
rename_confined_example =
    rename_confined one_folder short_paths (λ p n absolute safe no_colon. unfold text_eq in refl)
      both_there both_there dir_path (102 ∷ []) (rename_finished true [] ∷ [])
      (unfold starts_with in refl) (unfold starts_with in refl)
      (unfold rename is_safe_name has_char text_eq lit in refl)
