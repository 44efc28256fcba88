-- ===== src/SshKeys.antt =====
-- `write_ssh_keys` of src/lib.c: adds public keys to a user's authorized_keys.
pub mod Missing
pub mod Variables
use micro_config_drive.Base.{
  ℕ, Bytes, str, clip, starts_with, path_max, Option, none, some, List, [], ◌∷◌, ◌++◌, Bool, true,
  false, ◌||◌, ◌==◌, if◌then◌else◌,
}
use micro_config_drive.System.{
  Os, Call, Stat, Passwd, o_wronly, o_creat, o_append, stat, getpwnam, read_file,
}
use micro_config_drive.System.Io.{Io, ◌>>=◌, pure, call}
use micro_config_drive.Files.{make_dir, write_file, chown_path, Chowned, mode_600, mode_700}

-- `strstr (text, part) != NULL`
unfoldable pub contains : Bytes → Bytes → Bool
contains [] part = starts_with [] part
contains (c ∷ cs) part = starts_with (c ∷ cs) part || contains cs part

-- A first line, with the others behind it.
abbrev pub cons_first : ℕ → List Bytes → List Bytes
cons_first c [] = (c ∷ []) ∷ []
cons_first c (l ∷ ls) = (c ∷ l) ∷ ls

-- `g_strsplit (text, "\n", -1)` of a text that is not empty
unfoldable pub split_lines : Bytes → List Bytes
split_lines [] = [] ∷ []
split_lines (c ∷ cs) =
    let rest = split_lines cs in if c == b'\n' then [] ∷ rest else cons_first c rest

-- The lines that the file does not contain anywhere, each with a newline.
unfoldable pub missing_keys : Bytes → List Bytes → Bytes
missing_keys content [] = []
missing_keys content (key ∷ keys) =
    let rest = missing_keys content keys in
    if contains content key then rest else key ++ (str "\n" ++ rest)

-- Appends the lines that the file lacks, once its contents are read.
unfoldable pub append_keys : Os → Bytes → Bytes → Option Bytes → Io Bool
append_keys os text path none = pure false
append_keys os text path (some content) =
    write_file os (missing_keys content (split_lines text)) path (o_append ∷ o_wronly ∷ []) mode_600

-- Writes all keys to a file that was not there, or adds to the one that was.
unfoldable pub add_keys : Os → Bytes → Bytes → Option Stat → Io Bool
add_keys os text path none = write_file os text path (o_creat ∷ o_wronly ∷ []) mode_600
add_keys os text path (some st) = do
  content ← call (read_file path) (λ t. os.contents t path)
  append_keys os text path content

unfoldable pub write_keys_file : Os → Bytes → Bytes → Io Bool
write_keys_file os text path = do
  found ← call (stat path) (λ t. os.stat_of t path)
  add_keys os text path found

abbrev pub is_done : Chowned → Bool
is_done Chowned.done = true
is_done _ = false

unfoldable pub write_keys_home : Os → Bytes → Bytes → Bytes → Io Bool
write_keys_home os text username home = do
  let ssh_dir = clip path_max (home ++ str "/.ssh/")
  made ← make_dir os ssh_dir mode_700
  if made
      then (do
        owned ← chown_path os ssh_dir username username
        if is_done owned
            then (do
              let auth_keys_file = clip path_max (ssh_dir ++ str "authorized_keys")
              wrote ← write_keys_file os text auth_keys_file
              if wrote
                  then (do
                    given ← chown_path os auth_keys_file username username
                    pure (is_done given))
                  else pure false)
            else pure false)
      else pure false

-- A user without a home directory gets no key, which is no failure.
unfoldable pub write_keys_of : Os → Bytes → Bytes → Option Bytes → Io Bool
write_keys_of os text username none = pure true
write_keys_of os text username (some home) = write_keys_home os text username home

unfoldable pub write_keys_for : Os → Bytes → Bytes → Option Passwd → Io Bool
write_keys_for os text username none = pure false
write_keys_for os text username (some pwd) = write_keys_of os text username pwd.home

unfoldable pub write_ssh_keys : Os → Bytes → Bytes → Io Bool
write_ssh_keys os text username = do
  user ← call (getpwnam username) (λ t. os.passwd_of t username)
  write_keys_for os text username user
