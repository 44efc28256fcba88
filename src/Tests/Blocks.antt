-- ===== src/Tests/Blocks.antt =====
-- Files with a block of users and with a block of files.
use micro_config_drive.Base.{Bytes, str, str_eq, clip, some, List, [], ◌∷◌, true, false, ◌≡◌, refl}
use micro_config_drive.System.{
  o_wronly, o_creat, access, open_file, write, fchmod, close, getpwnam, getgrnam, chown,
}
use micro_config_drive.System.Io.{users_current_username}
use micro_config_drive.Strtol.{strtol, to_word}
use micro_config_drive.CloudConfig.{lookup_global, cloud_config_int_base}
use micro_config_drive.Yaml.Documents.{end, entry_list, file_events}
use micro_config_drive.Modules.Users.Plan.{
  Setting, plain, named, field, gecos, in_groups, switch, no_create_home, lock_passwd, inactive,
  ssh_keys, sudo, one, many,
}
use micro_config_drive.Modules.Users.Steps.{run, put_keys, put_rules, take_steps}
use micro_config_drive.Modules.WriteFiles.{split_owner}
use micro_config_drive.Userdata.{
  cc_module_structs, prepend_all, cloud_config_process, read_userdata,
}
use micro_config_drive.Userdata.Accounts.{accounts_items}
use micro_config_drive.Userdata.Users.{process-users}
use micro_config_drive.Userdata.Files.{file_items, process-write_files}
use micro_config_drive.Base.{map}
use micro_config_drive.Shell.Batch.{Runs}
use micro_config_drive.Modules.Commands.Lines.{itself}
use micro_config_drive.Userdata.Keyed.{keyed_items}
use micro_config_drive.Userdata.Groups.{group_commands, process-groups}
use micro_config_drive.Userdata.Services.{
  Verb, enable, disable, stop, restart, reload, isolate, mask, unmask, verb_name, Wish, act, other,
  wish_keyed, systemctl, process-service,
}
use micro_config_drive.Tests.Machine.{machine, start}

-- A user with settings in a mixed order, and an account without a name.
abbrev accounts : List (List Setting)
accounts =
    (lock_passwd true
      ∷ (plain (field gecos (str "Ada"))
          ∷ (plain (named (str "ada"))
              ∷ (ssh_keys (many (str "k1") (str "k2" ∷ []))
                  ∷ (plain (in_groups (many (str "wheel") (str "adm" ∷ [])))
                      ∷ (sudo (one (str "ALL"))
                          ∷ (inactive false ∷ (plain (switch no_create_home true) ∷ []))))))))
    ∷ ((lock_passwd true ∷ []) ∷ [])

process-users_example :
    (cloud_config_process machine
      (prepend_all cc_module_structs [])
      (read_userdata
        (file_events (entry_list (str "users") (accounts_items accounts) end))
        (str "user-data"))
      start).1
    ≡ (take_steps machine
        (run (str "/usr/sbin/useradd  -c 'Ada'  'ada'  -G 'wheel,adm'  -M ")
          ∷ (run (str "/usr/bin/passwd -l 'ada'")
              ∷ (put_keys (str "k1\nk2\n") (str "ada")
                  ∷ (put_rules (str "# Rules for ada user\nada ALL\n\n") ∷ []))))
        (record start {
          current_username = str "ada";
          global_data = (str "first_user", users_current_username) ∷ [];
        })).1
unfolding str str_eq clip lookup_global
process-users_example = process-users machine accounts (str "user-data") start (refl, (refl, tt))

-- The keys in two orders, and an item without a content.
abbrev items : List (List (Bytes × Bytes))
items =
    ((str "path", str "/etc/motd")
      ∷ ((str "content", str "hello")
          ∷ ((str "permissions", str "0640") ∷ ((str "owner", str "ada:staff") ∷ []))))
    ∷ (((str "path", str "/etc/empty") ∷ [])
        ∷ (((str "content", str "x")
              ∷ ((str "path", str "/etc/x") ∷ ((str "permissions", str "9") ∷ [])))
            ∷ []))

process-write_files_example :
    (cloud_config_process machine
      (prepend_all cc_module_structs [])
      (read_userdata
        (file_events (entry_list (str "write_files") (file_items items) end))
        (str "user-data"))
      start).1
    ≡ record start {
      trace =
          access (str "/tmp")
          ∷ (open_file (str "/etc/x") (o_wronly ∷ (o_creat ∷ [])) (some 3)
              ∷ (write 3 (str "x")
                  ∷ (close 3
                      ∷ (access (str "/tmp")
                          ∷ (open_file (str "/etc/motd") (o_wronly ∷ (o_creat ∷ [])) (some 3)
                              ∷ (write 3 (str "hello")
                                  ∷ (fchmod 3 416
                                      ∷ (close 3
                                          ∷ (getpwnam (str "ada")
                                              ∷ (getgrnam (str "staff")
                                                  ∷ (chown (str "/etc/motd") 1000 1000
                                                      ∷ [])))))))))));
    }
unfolding str str_eq split_owner cloud_config_int_base strtol to_word
process-write_files_example =
    process-write_files machine (λ p. some 3)
      (λ n. some (record { uid = 1000; gid = 1000; home = some (str "/home/clear") }))
      (λ n. some 1000) items (str "user-data") start
      (record {
        reachable = λ t d. refl;
        opens = λ t p f. refl;
        writes = λ t n text. refl;
        in_range = λ t. refl;
        users = λ t n. refl;
        groups = λ t n. refl;
      })
      (refl, (refl, (refl, tt)))

process-groups_example :
    Runs machine itself
      (cloud_config_process machine (prepend_all cc_module_structs []) (
        read_userdata
          (file_events (
            entry_list
              (str "groups")
              (keyed_items
                (record { key = str "staff"; first = str "ada"; others = str "bob" ∷ [] } ∷ []))
              end))
          (str "user-data")))
      (group_commands machine
        (record { key = str "staff"; first = str "ada"; others = str "bob" ∷ [] } ∷ []))
process-groups_example =
    process-groups machine
      (record { key = str "staff"; first = str "ada"; others = str "bob" ∷ [] } ∷ [])
      (str "user-data")

not_a_verb : (v : Verb) → str_eq (str "explode") (verb_name v) ≡ false
unfolding str_eq str
not_a_verb enable = refl
not_a_verb disable = refl
not_a_verb Verb.start = refl
not_a_verb stop = refl
not_a_verb restart = refl
not_a_verb reload = refl
not_a_verb isolate = refl
not_a_verb mask = refl
not_a_verb unmask = refl

abbrev wishes : List Wish
wishes = act unmask (str "sshd") (str "cron" ∷ []) ∷ (other (str "explode") (str "sshd") [] ∷ [])

process-service_example :
    Runs machine itself
      (cloud_config_process machine (prepend_all cc_module_structs []) (
        read_userdata
          (file_events (entry_list (str "service") (keyed_items (map wish_keyed wishes)) end))
          (str "user-data")))
      (systemctl machine unmask (str "sshd") ∷ (systemctl machine unmask (str "cron") ∷ []))
process-service_example = process-service machine wishes (str "user-data") (not_a_verb, tt)
