-- ===== src/Modules/Users/Accounts.antt =====
-- Whose keys are written: the names that the users handler leaves behind.
use micro_config_drive.Base.{
  Bytes, str, str_eq, str_eq_iff, clip, shown, login_name_max, Option, none, some, List, [], ◌∷◌,
  ◌++◌, Bool, ◌≡◌, refl, ◌∙◌, ap, arith,
}
use micro_config_drive.System.{Os, o_creat, o_append, o_wronly}
use micro_config_drive.System.Io.{World, users_current_username, ◌>>=◌, ◌>>◌, skip}
use micro_config_drive.System.Calls.{OnlyCalls, OnlyCalls-bind, OnlyCalls-seq, calls_rules}
use micro_config_drive.GNode.{GNode, null, gnode, leaves}
use micro_config_drive.Shell.{exec_task}
use micro_config_drive.Files.Variables.{write_sudo_directives-OnlyCalls}
use micro_config_drive.SshKeys.{write_ssh_keys}
use micro_config_drive.SshKeys.Variables.{write_ssh_keys-OnlyCalls}
use micro_config_drive.CloudConfig.{
  cloud_config_find, lookup_global, cloud_config_get_global, cloud_config_set_global,
}
use micro_config_drive.Modules.Keys.{key_lines, ssh_authorized_keys_handler, name_behind}
use micro_config_drive.Modules.Users.{
  lock_user, deactivate_user, add_user_keys, add_user_sudo, finish_user, users_items, users_option,
  apply_option, option_action, users_options, add_username, users_add_username, users_handler,
  keep_first, sudo_lines,
}

pub exec_task-OnlyCalls : (os : Os) (c : Bytes) → OnlyCalls (exec_task os c)
unfolding exec_task
exec_task-OnlyCalls os c = search calls_rules

pub lock_user-OnlyCalls : (os : Os) (node : GNode) (b : Bool) → OnlyCalls (lock_user os node b)
unfolding lock_user exec_task
lock_user-OnlyCalls os node b = record { vars = λ w. ground arith }

pub deactivate_user-OnlyCalls :
    (os : Os) (node : GNode) (b : Bool) → OnlyCalls (deactivate_user os node b)
unfolding deactivate_user exec_task
deactivate_user-OnlyCalls os node b = record { vars = λ w. ground arith }

pub add_user_keys-OnlyCalls : (os : Os) (node : GNode) → OnlyCalls (add_user_keys os node)
unfolding add_user_keys
add_user_keys-OnlyCalls os node = record {
  vars = λ w.
      let found = cloud_config_find node (str "ssh-authorized-keys") in
      ground (
        arith,
        (write_ssh_keys-OnlyCalls os (key_lines (leaves found.parent)) w.current_username).vars w,
      );
}

pub add_user_sudo-OnlyCalls : (os : Os) (node : GNode) → OnlyCalls (add_user_sudo os node)
unfolding add_user_sudo
add_user_sudo-OnlyCalls os node = record {
  vars = λ w.
      let found = cloud_config_find node (str "sudo") in
      let user = w.current_username in
      let text =
        str "# Rules for "
        ++ (user ++ (str " user\n" ++ (sudo_lines user (leaves found.parent) ++ str "\n"))) in
      ground (
        arith,
        (write_sudo_directives-OnlyCalls os text (str "users-cloud-init")
              (o_creat ∷ o_append ∷ o_wronly ∷ [])).vars
            w,
      );
}

-- The calls for a user whose options are read leave the name and the global data as they are.
pub finish_user-OnlyCalls :
    (os : Os) (node : GNode) (command : Option Bytes) → OnlyCalls (finish_user os node command)
unfolding finish_user
finish_user-OnlyCalls os node command = record {
  vars = λ w.
      elim w.current_username
        as (λ name.
          let r = (elim name as (λ _. Unit {0} × World) [
            | [] ↦ (tt, w)
            | c ∷ cs ↦
                (do
                  exec_task os (shown command)
                  b ← lock_user os node (os.uninitialised w.trace)
                  deactivate_user os node b
                  add_user_keys os node
                  add_user_sudo os node)
                  w
          ]) in
          r.1 ≡ record w { trace = r.1.trace }) [
            | [] ↦ refl
            | c ∷ cs ↦
                (OnlyCalls-seq (exec_task-OnlyCalls os (shown command)) (
                    OnlyCalls-bind _ _ (lock_user-OnlyCalls os node (os.uninitialised w.trace)) λ b.
                      OnlyCalls-seq (deactivate_user-OnlyCalls os node b) (
                        OnlyCalls-seq (add_user_keys-OnlyCalls os node)
                          (add_user_sudo-OnlyCalls os node)))).vars
                  w
          ];
}

-- A block of users of which only the name is given.
abbrev pub named_user : Bytes → GNode → GNode
named_user name rest =
    gnode none (gnode (some (str "name")) (gnode (some name) null null) null) rest

abbrev pub users_block : List Bytes → GNode
users_block [] = null
users_block (name ∷ names) = named_user name (users_block names)

abbrev pub FirstUserSet : World → Type 0
FirstUserSet w = lookup_global (str "first_user") w.global_data ≡ some users_current_username

name_option : option_action (str "name") users_options ≡ some (add_username (str " '") (str "' "))
unfolding option_action str_eq str
name_option = refl

keep_first_set :
    (w : World)
    → let v = (keep_first (lookup_global (str "first_user") w.global_data) w).1 in
      (v.current_username ≡ w.current_username) × FirstUserSet v
unfolding cloud_config_set_global lookup_global
keep_first_set w = ground (arith, str_eq_iff (str "first_user") (str "first_user"))

-- After the name of a user is read it is the current one, and the global pointer points at it.
users_option_name :
    (os : Os) (command : Option Bytes) (name : Bytes) (w : World)
    → let r = users_option os command (str "name") (gnode (some name) null null) w in
      (r.1.current_username ≡ clip login_name_max name) × FirstUserSet r.1
unfolding users_option apply_option users_add_username cloud_config_get_global
users_option_name os command name w =
    rw name_option (keep_first_set (record w { current_username = clip login_name_max name }))

finish_user_name :
    (os : Os) (node : GNode) (command : Option Bytes) (w : World)
    → let v = (finish_user os node command w).1 in
      (v.current_username ≡ w.current_username) × (v.global_data ≡ w.global_data)
finish_user_name os node command w =
    let e = (finish_user-OnlyCalls os node command).vars w in
    (ap (λ (u : World). u.current_username) e, ap (λ (u : World). u.global_data) e)

users_items_last :
    (os : Os) (names : List Bytes) (last : Bytes) (w : World)
    → let v = (users_items os none (users_block (names ++ (last ∷ []))) w).1 in
      (v.current_username ≡ clip login_name_max last) × FirstUserSet v
unfolding users_items
users_items_last os [] last w =
    let start = some (os.useradd_path ++ str " ") in
    let v = record w { current_username = [] } in
    let (command, u) = users_option os start (str "name") (gnode (some last) null null) v in
    let named = users_option_name os start last v in
    let kept = finish_user_name os (named_user last null) command u in
    (kept.0 ∙ named.0, ap (lookup_global (str "first_user")) kept.1 ∙ named.1)
users_items_last os (name ∷ names) last w = users_items_last os names last _

-- Behind a block of users of which each is given by its name alone, and the last one is `last`, the keys of `ssh_authorized_keys` go to
-- that last user, though the global value is called `first_user`.
pub ssh_authorized_keys_last :
    (os : Os) (d : Option Bytes) (names : List Bytes) (last : Bytes) (keys n : GNode) (w : World)
    → let v = (users_handler os (gnode d (users_block (names ++ (last ∷ []))) n) w).1 in
      ssh_authorized_keys_handler os keys v
      ≡ (do write_ssh_keys os (key_lines (leaves keys)) (clip login_name_max last); skip) v
unfolding users_handler ssh_authorized_keys_handler cloud_config_get_global name_behind
ssh_authorized_keys_last os d names last keys n w =
    let (name, pointer) = users_items_last os names last w in rw (pointer, name_behind) (rw name)
