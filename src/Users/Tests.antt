-- ===== src/Users/Tests.antt =====
-- A run of the parser of /etc/passwd, and one instance of the theorem.
use nira_os.Base.{
  ltb, ◌≡◌, refl, false, some, List, [], ◌∷◌, Text, lit, text_eq, mem_text, starts_with, All,
  if◌then◌else◌,
}
use nira_os.Base.Sorting.{IsSorted, sort, insert_sorted}
use nira_os.Users.{
  Qt, UserEntry, init, IsLoginUser, init-login, parse_passwd, parse_lines, parse_line,
  user_with_uid, user_entry, is_valid_shell, valid_shells, split,
}

abbrev plain : Qt
plain = record {
  trimmed = λ t. t;
  to_uint = λ t.
      if text_eq t (lit "1000")
      then some 1000
      else if text_eq t (lit "1001")
      then some 1001
      else some 65534;
  exists = λ p. false;
}

abbrev passwd : List Text
passwd =
    lit "#users"
    ∷ lit "nobody:x:65534:65534::/:/bin/sh"
    ∷ lit "eve:x:1001:1001:Eve,1:/e:/bin/sh"
    ∷ lit "ada:x:1000:1000::/a:/bin/sh"
    ∷ lit "bob:x:1001:1001::/b:/bin/false"
    ∷ []

two_users :
    init plain (some passwd)
    ≡ record {
      username = lit "ada";
      display_name = lit "ada";
      uid = 1000;
      home_dir = lit "/a";
      shell = lit "/bin/sh";
      avatar_path = lit "file:///usr/share/niraos/avatar-default.jpg";
    }
      ∷ record {
        username = lit "eve";
        display_name = lit "Eve";
        uid = 1001;
        home_dir = lit "/e";
        shell = lit "/bin/sh";
        avatar_path = lit "file:///usr/share/niraos/avatar-default.jpg";
      }
      ∷ []
unfolding init sort insert_sorted parse_passwd parse_lines parse_line user_with_uid user_entry
    is_valid_shell valid_shells split text_eq mem_text starts_with lit
two_users = refl

init-login_example :
    All (IsLoginUser plain) (init plain (some passwd))
    × IsSorted (λ (a b : UserEntry). ltb a.uid b.uid) (init plain (some passwd))
init-login_example = init-login plain (some passwd)
