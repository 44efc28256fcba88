-- ===== src/Modules/Users/Steps.antt =====
-- The steps that the accounts of a block ask for, and the variables behind an account, for
-- `users_handler` of src/ccmodules/users.c.
use micro_config_drive.Base.{
  Bytes, str, clip, login_name_max, Option, none, some, List, [], ◌∷◌, ◌++◌, Bool, true, false,
}
use micro_config_drive.System.{Os, o_creat, o_append, o_wronly}
use micro_config_drive.System.Io.{World, Io, Pointer, users_current_username, ◌>>◌, skip}
use micro_config_drive.Shell.{exec_task}
use micro_config_drive.Files.{write_sudo_directives}
use micro_config_drive.SshKeys.{write_ssh_keys}
use micro_config_drive.CloudConfig.{lookup_global}
use micro_config_drive.Modules.Users.Plan.{
  CommandOption, named, field, in_groups, switch, system, Setting, plain, lock_passwd, inactive,
  ssh_keys, sudo, Texts, texts_list, arguments, as_lock, as_inactive, as_keys, as_rules, first,
}

-- The name of the user: the last one that is given, in its buffer.
abbrev pub named_last : Bytes → CommandOption → Bytes
named_last name (named n) = clip login_name_max n
named_last name (field f text) = name
named_last name (in_groups groups) = name
named_last name (switch s b) = name
named_last name (system text) = name

abbrev pub last_name : Bytes → List Setting → Bytes
last_name name [] = name
last_name name (plain o ∷ ss) = last_name (named_last name o) ss
last_name name (lock_passwd b ∷ ss) = last_name name ss
last_name name (inactive b ∷ ss) = last_name name ss
last_name name (ssh_keys texts ∷ ss) = last_name name ss
last_name name (sudo texts ∷ ss) = last_name name ss

-- The global value of the first user is set where it is not.
abbrev pub with_pointer : Option Pointer → List (Bytes × Pointer) → List (Bytes × Pointer)
with_pointer none values = (str "first_user", users_current_username) ∷ values
with_pointer (some p) values = values

abbrev pub option_global : List (Bytes × Pointer) → CommandOption → List (Bytes × Pointer)
option_global values (named n) = with_pointer (lookup_global (str "first_user") values) values
option_global values (field f text) = values
option_global values (in_groups groups) = values
option_global values (switch s b) = values
option_global values (system text) = values

abbrev pub global_behind : List (Bytes × Pointer) → List Setting → List (Bytes × Pointer)
global_behind values [] = values
global_behind values (plain o ∷ ss) = global_behind (option_global values o) ss
global_behind values (lock_passwd b ∷ ss) = global_behind values ss
global_behind values (inactive b ∷ ss) = global_behind values ss
global_behind values (ssh_keys texts ∷ ss) = global_behind values ss
global_behind values (sudo texts ∷ ss) = global_behind values ss

-- The variables when the settings of an account are read.
abbrev pub settle : List Setting → World → World
settle ss w = record w {
  current_username = last_name w.current_username ss;
  global_data = global_behind w.global_data ss;
}

pub data Step : Type 0 where
  run : Bytes → Step
  put_keys : Bytes → Bytes → Step
  put_rules : Bytes → Step

abbrev pub key_text : List Bytes → Bytes
key_text [] = []
key_text (key ∷ keys) = key ++ (str "\n" ++ key_text keys)

abbrev pub rule_text : Bytes → List Bytes → Bytes
rule_text user [] = []
rule_text user (rule ∷ rules) = user ++ (str " " ++ (rule ++ (str "\n" ++ rule_text user rules)))

-- A command that is run where a switch is on.
abbrev pub run_if : Option Bool → Bytes → List Step
run_if none command = []
run_if (some true) command = run command ∷ []
run_if (some false) command = []

abbrev pub key_steps : Bytes → Option Texts → List Step
key_steps user none = []
key_steps user (some texts) = put_keys (key_text (texts_list texts)) user ∷ []

abbrev pub rule_steps : Bytes → Option Texts → List Step
rule_steps user none = []
rule_steps user (some texts) =
    put_rules (
      str "# Rules for "
      ++ (user ++ (str " user\n" ++ (rule_text user (texts_list texts) ++ str "\n"))))
    ∷ []

abbrev pub useradd_command : Os → List Setting → Bytes
useradd_command os ss = os.useradd_path ++ (str " " ++ arguments ss)

-- The steps for an account in their order.
abbrev pub named_steps : Os → Bytes → List Setting → List Step
named_steps os user ss =
    run (useradd_command os ss)
    ∷ (run_if (first as_lock ss) (os.passwd_path ++ (str " -l '" ++ (user ++ str "'")))
        ++ (run_if (first as_inactive ss)
              (os.usermod_path ++ (str " --expiredate 1 '" ++ (user ++ str "'")))
            ++ (key_steps user (first as_keys ss) ++ rule_steps user (first as_rules ss))))

-- Without a name there are none.
abbrev pub account_steps : Os → Bytes → List Setting → List Step
account_steps os [] ss = []
account_steps os (c ∷ cs) ss = named_steps os (c ∷ cs) ss

abbrev pub take_step : Os → Step → Io (Unit {0})
take_step os (run command) = do exec_task os command; skip
take_step os (put_keys text user) = do write_ssh_keys os text user; skip
take_step os (put_rules text) = do
  write_sudo_directives os text (str "users-cloud-init") (o_creat ∷ (o_append ∷ (o_wronly ∷ [])))
  skip

abbrev pub take_steps : Os → List Step → Io (Unit {0})
take_steps os [] = skip
take_steps os (s ∷ ss) = do take_step os s; take_steps os ss

-- The accounts in their order, each with the buffer of the name emptied before it.
abbrev pub take_accounts : Os → List (List Setting) → Io (Unit {0})
take_accounts os [] w = (tt, w)
take_accounts os (account ∷ accounts) w =
    let v = settle account (record w { current_username = [] }) in
    (do take_steps os (account_steps os v.current_username account); take_accounts os accounts) v
