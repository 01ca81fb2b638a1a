-- ===== src/Users.antt =====
-- desktop/greeter/src/UserModel.cpp: the users that the login screen offers, from /etc/passwd. 58 is
-- ':', 44 is ',' and 35 is '#'.
use nira_os.Base.{
  ℕ, zero, suc, ◌==◌, ltb, leb, ◌≤◌, ◌<◌, ◌≡◌, refl, Bool, true, false, not, ◌&&◌, ◌||◌, Bool-cases,
  Option-cases, inl, inr, Option, none, some, List, [], ◌∷◌, ◌++◌, Text, lit, text_eq, mem_text,
  starts_with, is_empty, length, get_elem?, All, All-append, if◌then◌else◌, arith,
}
use nira_os.Base.Sorting.{sort, IsSorted, IsWeakOrder, sort-IsSorted, All-sort}
mod Tests

pub record UserEntry : Type 0 where
  pub username : Text
  pub display_name : Text
  pub uid : ℕ
  pub home_dir : Text
  pub shell : Text
  pub avatar_path : Text

pub data Role : Type 0 where
  username_role display_name_role uid_role home_dir_role avatar_path_role other_role : Role

-- The name of a role for QML, if it has one.
unfoldable pub role_name : Role → Option Text
role_name username_role = some (lit "username")
role_name display_name_role = some (lit "displayName")
role_name uid_role = some (lit "uid")
role_name home_dir_role = some (lit "homeDir")
role_name avatar_path_role = some (lit "avatarPath")
role_name other_role = none

pub data Value : Type 0 where
  text : Text → Value
  number : ℕ → Value
  invalid : Value

-- `split(c)`: one part more than there are separators.
abbrev cons_head : ℕ → List Text → List Text
cons_head c [] = (c ∷ []) ∷ []
cons_head c (part ∷ parts) = (c ∷ part) ∷ parts

unfoldable pub split : ℕ → Text → List Text
split c [] = [] ∷ []
split c (a ∷ s) = let rest = split c s in if a == c then [] ∷ rest else cons_head a rest

-- `parts[i]`, where the code has checked that it is there.
abbrev pub part_at : List Text → ℕ → Text
part_at parts i = elim (get_elem? parts i) [ none ↦ [] | some part ↦ part ]

unfoldable pub valid_shells : List Text
valid_shells =
    lit "/bin/bash"
    ∷ lit "/bin/zsh"
    ∷ lit "/bin/fish"
    ∷ lit "/bin/sh"
    ∷ lit "/bin/dash"
    ∷ lit "/usr/bin/bash"
    ∷ lit "/usr/bin/zsh"
    ∷ lit "/usr/bin/fish"
    ∷ lit "/usr/bin/sh"
    ∷ []

unfoldable pub row_count : List UserEntry → Bool → ℕ
row_count users parent_is_valid = if parent_is_valid then 0 else length users

unfoldable pub user_data : UserEntry → Role → Value
user_data u username_role = text u.username
user_data u display_name_role = text u.display_name
user_data u uid_role = number u.uid
user_data u home_dir_role = text u.home_dir
user_data u avatar_path_role = text u.avatar_path
user_data u other_role = invalid

unfoldable pub model_data : List UserEntry → Option ℕ → Role → Value
model_data users none role = invalid
model_data users (some row) role = elim (get_elem? users row) [
  | none ↦ invalid
  | some u ↦ user_data u role
]

-- Qt's functions: `toUInt` gives nothing for a text that is no 32-bit number.
pub record Qt : Type 0 where
  pub trimmed : Text → Text
  pub to_uint : Text → Option ℕ
  pub exists : Text → Bool

module _ (qt : Qt) where
  open qt use {trimmed, to_uint, exists}

  unfoldable pub is_valid_shell : Text → Bool
  is_valid_shell shell =
      if is_empty shell
        || text_eq shell (lit "/sbin/nologin")
        || text_eq shell (lit "/usr/sbin/nologin")
        || text_eq shell (lit "/usr/bin/nologin")
        || text_eq shell (lit "/bin/false")
        || text_eq shell (lit "/usr/bin/false")
      then false
      else if mem_text shell valid_shells
      then true
      else exists shell

  unfoldable pub user_entry : List Text → ℕ → UserEntry
  user_entry parts uid =
      let gecos = part_at (split 44 (trimmed (part_at parts 4))) 0 in
      record {
        username = part_at parts 0;
        display_name = if is_empty gecos then part_at parts 0 else gecos;
        uid = uid;
        home_dir = part_at parts 5;
        shell = trimmed (part_at parts 6);
        avatar_path = lit "file:///usr/share/niraos/avatar-default.jpg";
      }

  -- The user of a line whose third part is a number.
  unfoldable pub user_with_uid : List Text → Option ℕ → List UserEntry
  user_with_uid parts none = []
  user_with_uid parts (some uid) =
      if ltb uid 1000 || leb 60000 uid
      then []
      else if not (is_valid_shell (trimmed (part_at parts 6)))
      then []
      else user_entry parts uid ∷ []

  -- One round of the loop: the users that a line adds, none or one.
  unfoldable pub parse_line : Text → List UserEntry
  parse_line raw =
      let line = trimmed raw in
      let parts = split 58 line in
      if is_empty line || starts_with line (35 ∷ [])
      then []
      else if ltb (length parts) 7
      then []
      else user_with_uid parts (to_uint (part_at parts 2))

  unfoldable pub parse_lines : List Text → List UserEntry
  parse_lines [] = []
  parse_lines (line ∷ lines) = parse_line line ++ parse_lines lines

  -- The lines of the file, if it can be opened.
  unfoldable pub parse_passwd : Option (List Text) → List UserEntry
  parse_passwd none = []
  parse_passwd (some lines) = parse_lines lines

  unfoldable pub init : Option (List Text) → List UserEntry
  init file = sort (λ (a b : UserEntry). ltb a.uid b.uid) (parse_passwd file)

  -- A user that may log in here.
  abbrev pub IsLoginUser : UserEntry → Type 0
  IsLoginUser u = (1000 ≤ u.uid) × (u.uid < 60000) × (is_valid_shell u.shell ≡ true)

  user_with_uid-login :
      (parts : List Text) (uid : Option ℕ) → All IsLoginUser (user_with_uid parts uid)
  unfolding user_with_uid user_entry
  user_with_uid-login parts none = tt
  user_with_uid-login parts (some uid) = elim (Bool-cases (ltb uid 1000 || leb 60000 uid)) [
    | inl outside ↦ rw outside tt
    | inr within ↦ elim (Bool-cases (is_valid_shell (trimmed (part_at parts 6)))) [
      | inl valid ↦ rw (within, valid) ((ground (arith, within), ground (arith, within), valid), tt)
      | inr not_valid ↦ rw (within, not_valid) tt
    ]
  ]

  pick-login :
      (b : Bool) (xs : List UserEntry) → All IsLoginUser xs → All IsLoginUser (if b then [] else xs)
  pick-login true xs h = tt
  pick-login false xs h = h

  parse_lines-login : (lines : List Text) → All IsLoginUser (parse_lines lines)
  unfolding parse_lines parse_line
  parse_lines-login [] = tt
  parse_lines-login (line ∷ lines) =
      All-append IsLoginUser (parse_line line) (parse_lines lines)
        (pick-login (is_empty (trimmed line) || starts_with (trimmed line) (35 ∷ [])) _ (
          pick-login (ltb (length (split 58 (trimmed line))) 7) _ (
            user_with_uid-login (split 58 (trimmed line))
              (to_uint (part_at (split 58 (trimmed line)) 2)))))
        (parse_lines-login lines)

  by_uid-IsWeakOrder : IsWeakOrder (λ (a b : UserEntry). ltb a.uid b.uid)
  by_uid-IsWeakOrder = record {
    asym = λ a b below. ground (arith, below);
    not_trans = λ a b c ab bc. ground (arith, ab, bc);
  }

  parse_passwd-login : (file : Option (List Text)) → All IsLoginUser (parse_passwd file)
  unfolding parse_passwd
  parse_passwd-login none = tt
  parse_passwd-login (some lines) = parse_lines-login lines

  -- Whatever the file holds: every user that the login screen offers has a user id from 1000 to
  -- 59999 and a shell that is valid, and they are sorted by their user ids.
  pub init-login :
      (file : Option (List Text))
      → All IsLoginUser (init file) × IsSorted (λ (a b : UserEntry). ltb a.uid b.uid) (init file)
  unfolding init
  init-login file = (
    All-sort IsLoginUser _ (parse_passwd file) (parse_passwd-login file),
    sort-IsSorted _ by_uid-IsWeakOrder (parse_passwd file),
  )
