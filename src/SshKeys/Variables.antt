-- ===== src/SshKeys/Variables.antt =====
-- `write_ssh_keys` changes no static variable.
use micro_config_drive.Base.{Bytes, Option, none, some}
use micro_config_drive.System.{Os, Stat, Passwd}
use micro_config_drive.System.Calls.{OnlyCalls, calls_rules}
use micro_config_drive.Files.Variables.{
  make_dir-OnlyCalls, write_file-OnlyCalls, chown_path-OnlyCalls,
}
use micro_config_drive.SshKeys.{
  append_keys, add_keys, write_keys_file, write_keys_home, write_keys_of, write_keys_for,
  write_ssh_keys,
}

ruleset file_rules = (calls_rules, make_dir-OnlyCalls, write_file-OnlyCalls, chown_path-OnlyCalls)

append_keys-OnlyCalls :
    (os : Os) (text path : Bytes) (content : Option Bytes)
    → OnlyCalls (append_keys os text path content)
unfolding append_keys
append_keys-OnlyCalls os text path none = search file_rules
append_keys-OnlyCalls os text path (some content) = search file_rules

add_keys-OnlyCalls :
    (os : Os) (text path : Bytes) (found : Option Stat) → OnlyCalls (add_keys os text path found)
unfolding add_keys
add_keys-OnlyCalls os text path none = search file_rules
add_keys-OnlyCalls os text path (some st) = search (file_rules, append_keys-OnlyCalls)

write_keys_file-OnlyCalls : (os : Os) (text path : Bytes) → OnlyCalls (write_keys_file os text path)
unfolding write_keys_file
write_keys_file-OnlyCalls os text path = search (file_rules, add_keys-OnlyCalls)

write_keys_home-OnlyCalls :
    (os : Os) (text user home : Bytes) → OnlyCalls (write_keys_home os text user home)
unfolding write_keys_home
write_keys_home-OnlyCalls os text user home =
    search (file_rules, write_keys_file-OnlyCalls) depth 10

write_keys_of-OnlyCalls :
    (os : Os) (text user : Bytes) (home : Option Bytes)
    → OnlyCalls (write_keys_of os text user home)
unfolding write_keys_of
write_keys_of-OnlyCalls os text user none = search file_rules
write_keys_of-OnlyCalls os text user (some home) = write_keys_home-OnlyCalls os text user home

write_keys_for-OnlyCalls :
    (os : Os) (text user : Bytes) (p : Option Passwd) → OnlyCalls (write_keys_for os text user p)
unfolding write_keys_for
write_keys_for-OnlyCalls os text user none = search file_rules
write_keys_for-OnlyCalls os text user (some pwd) = write_keys_of-OnlyCalls os text user pwd.home

pub write_ssh_keys-OnlyCalls :
    (os : Os) (text user : Bytes) → OnlyCalls (write_ssh_keys os text user)
unfolding write_ssh_keys
write_ssh_keys-OnlyCalls os text user = search (file_rules, write_keys_for-OnlyCalls)
