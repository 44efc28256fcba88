-- ===== src/Start/Pending/Accounts.antt =====
-- The handlers of envar, ssh_authorized_keys, users and write_files hand no function to the pool of threads.
use micro_config_drive.Base.{
  ℕ, Bytes, str, Option, none, some, [], ◌∷◌, ◌++◌, Bool, true, false, refl, arith,
}
use micro_config_drive.System.{Os, setenv}
use micro_config_drive.System.Io.{Pointer, users_current_username}
use micro_config_drive.System.Views.{
  Keeps, Keeps-pure, Keeps-seq, Keeps-bind, the_pool, pool-call, view_rules, pool-OnlyCalls,
}
use micro_config_drive.GNode.{GNode, null, gnode, node_data, children}
use micro_config_drive.Files.Variables.{
  write_file-OnlyCalls, make_dir-OnlyCalls, chown_path-OnlyCalls,
}
use micro_config_drive.SshKeys.Variables.{write_ssh_keys-OnlyCalls}
use micro_config_drive.CloudConfig.{cloud_config_get_global, cloud_config_set_global}
use micro_config_drive.Modules.Envar.{envar_items, export_line, write_profile, envar_handler}
use micro_config_drive.Modules.Keys.{name_behind, ssh_authorized_keys_handler}
use micro_config_drive.Modules.Users.{
  OptionAction, nothing, add_username, add_groups, add_format, add_fixed, add_choice, option_action,
  users_options, users_add_username, copy_username, keep_first, apply_option, users_option,
  users_items, users_handler, set_username,
}
use micro_config_drive.Modules.Users.Accounts.{finish_user-OnlyCalls}
use micro_config_drive.Modules.WriteFiles.{
  make_parent, ensure_parent, set_permissions, chown_tokens, set_owner, finish_file, fill_file,
  write_item, write_found, write_files_item, write_files_items, write_files_handler,
}
use micro_config_drive.Start.Pending.Handlers.{exec_task-pool}

envar_items-pool :
    (os : Os) (buffer : Bytes) (name : Option Bytes) (node : GNode)
    → Keeps the_pool (envar_items os buffer name node)
unfolding envar_items
envar_items-pool os buffer name null = Keeps-pure buffer
envar_items-pool os buffer name (gnode none c n) =
    Keeps-bind _ _ (envar_items-pool os buffer name c) (λ more. envar_items-pool os more name n)
envar_items-pool os buffer none (gnode (some key) c n) =
    Keeps-bind _ _ (envar_items-pool os buffer (some key) c)
      (λ more. envar_items-pool os more none n)
envar_items-pool os buffer (some name) (gnode (some value) c n) =
    Keeps-seq (pool-call (setenv name value) (λ t. tt))
      (envar_items-pool os (buffer ++ export_line name value) (some name) n)

write_profile-pool : (os : Os) (buffer : Bytes) → Keeps the_pool (write_profile os buffer)
unfolding write_profile
write_profile-pool os buffer =
    search (view_rules, pool-OnlyCalls, write_file-OnlyCalls, make_dir-OnlyCalls) depth 12

pub envar_handler-pool : (os : Os) (node : GNode) → Keeps the_pool (envar_handler os node)
unfolding envar_handler
envar_handler-pool os node =
    Keeps-bind _ _ (envar_items-pool os [] none (children node)) (write_profile-pool os)

name_behind-pool : (user : Option Pointer) → Keeps the_pool (name_behind user)
unfolding name_behind
name_behind-pool none = record { same = λ w. refl }
name_behind-pool (some users_current_username) = record { same = λ w. refl }

get_global-pool : (key : Bytes) → Keeps the_pool (cloud_config_get_global key)
unfolding cloud_config_get_global
get_global-pool key = record { same = λ w. refl }

pub ssh_authorized_keys_handler-pool :
    (os : Os) (node : GNode) → Keeps the_pool (ssh_authorized_keys_handler os node)
unfolding ssh_authorized_keys_handler
ssh_authorized_keys_handler-pool os node =
    search (view_rules, get_global-pool, name_behind-pool, pool-OnlyCalls, write_ssh_keys-OnlyCalls)
      depth 12

copy_username-pool : (name : Option Bytes) → Keeps the_pool (copy_username name)
copy_username-pool none = record { same = λ w. refl }
copy_username-pool (some name) = record { same = λ w. refl }

keep_first-pool : (user : Option Pointer) → Keeps the_pool (keep_first user)
unfolding cloud_config_set_global
keep_first-pool none = record { same = λ w. refl }
keep_first-pool (some user) = Keeps-pure tt

users_add_username-pool :
    (os : Os) (name command : Option Bytes) (before after : Bytes)
    → Keeps the_pool (users_add_username os name command before after)
unfolding users_add_username
users_add_username-pool os name command before after =
    search (view_rules, copy_username-pool, get_global-pool, keep_first-pool) depth 12

apply_option-pool :
    (os : Os) (action : Option OptionAction) (node : GNode) (command : Option Bytes)
    → Keeps the_pool (apply_option os action node command)
unfolding apply_option
apply_option-pool os none node command = record { same = λ w. refl }
apply_option-pool os (some nothing) node command = record { same = λ w. refl }
apply_option-pool os (some (add_username before after)) node command = record {
  same = λ w. (users_add_username-pool os (node_data node) command before after).same w;
}
apply_option-pool os (some add_groups) node command = record { same = λ w. refl }
apply_option-pool os (some (add_format before after)) node command = record { same = λ w. refl }
apply_option-pool os (some (add_fixed text)) node command = record { same = λ w. refl }
apply_option-pool os (some (add_choice if_true if_false)) node command = record { same = λ w. refl }

users_option-pool :
    (os : Os) (command : Option Bytes) (key : Bytes) (value : GNode)
    → Keeps the_pool (users_option os command key value)
unfolding users_option
users_option-pool os command key null = users_add_username-pool os (some key) command [] []
users_option-pool os command key (gnode d c n) =
    apply_option-pool os (option_action key users_options) (gnode d c n) command

users_items-pool :
    (os : Os) (command : Option Bytes) (node : GNode) → Keeps the_pool (users_items os command node)
unfolding users_items
users_items-pool os command null = Keeps-pure command
users_items-pool os command (gnode (some key) c n) =
    Keeps-bind _ _ (users_option-pool os command key c) (λ longer. users_items-pool os longer n)
users_items-pool os command (gnode none c n) =
    let named : Keeps the_pool (set_username []) = record { same = λ w. refl } in
    Keeps-seq named (
      Keeps-bind _ _ (users_items-pool os (some (os.useradd_path ++ str " ")) c) (λ built.
        Keeps-seq (pool-OnlyCalls _ (finish_user-OnlyCalls os (gnode none c n) built))
          (users_items-pool os command n)))

pub users_handler-pool : (os : Os) (node : GNode) → Keeps the_pool (users_handler os node)
unfolding users_handler
users_handler-pool os node = Keeps-seq (users_items-pool os none (children node)) (Keeps-pure tt)

make_parent-pool :
    (os : Os) (dir : Bytes) (errno : Option ℕ) → Keeps the_pool (make_parent os dir errno)
unfolding make_parent
make_parent-pool os dir none = Keeps-pure true
make_parent-pool os dir (some errno) = search (view_rules, exec_task-pool) depth 10

ensure_parent-pool : (os : Os) (dir : Bytes) → Keeps the_pool (ensure_parent os dir)
unfolding ensure_parent
ensure_parent-pool os dir = search (view_rules, make_parent-pool) depth 10

set_permissions-pool :
    (os : Os) (fd : ℕ) (permissions : GNode) → Keeps the_pool (set_permissions os fd permissions)
unfolding set_permissions
set_permissions-pool os fd null = record { same = λ w. refl }
set_permissions-pool os fd (gnode d c n) = record { same = λ w. ground arith }

chown_tokens-pool : (os : Os) (path owner : Bytes) → Keeps the_pool (chown_tokens os path owner)
unfolding chown_tokens
chown_tokens-pool os path [] = Keeps-pure tt
chown_tokens-pool os path (c ∷ cs) =
    search (view_rules, pool-OnlyCalls, chown_path-OnlyCalls) depth 10

set_owner-pool : (os : Os) (path : Bytes) (owner : GNode) → Keeps the_pool (set_owner os path owner)
unfolding set_owner
set_owner-pool os path null = Keeps-pure tt
set_owner-pool os path (gnode d c n) = chown_tokens-pool os path _

finish_file-pool :
    (os : Os) (fd : ℕ) (path : Bytes) (permissions owner : GNode) (wrote : Bool)
    → Keeps the_pool (finish_file os fd path permissions owner wrote)
unfolding finish_file
finish_file-pool os fd path permissions owner false = Keeps-pure tt
finish_file-pool os fd path permissions owner true =
    search (view_rules, set_permissions-pool, set_owner-pool) depth 12

fill_file-pool :
    (os : Os) (content path : Bytes) (permissions owner : GNode) (fd : Option ℕ)
    → Keeps the_pool (fill_file os content path permissions owner fd)
unfolding fill_file
fill_file-pool os content path permissions owner none = Keeps-pure tt
fill_file-pool os content path permissions owner (some fd) =
    search (view_rules, finish_file-pool) depth 10

write_item-pool :
    (os : Os) (content path : Bytes) (permissions owner : GNode)
    → Keeps the_pool (write_item os content path permissions owner)
unfolding write_item
write_item-pool os content path permissions owner =
    search (view_rules, ensure_parent-pool, fill_file-pool) depth 12

write_found-pool :
    (os : Os) (content path permissions owner : GNode)
    → Keeps the_pool (write_found os content path permissions owner)
unfolding write_found
write_found-pool os null path permissions owner = Keeps-pure tt
write_found-pool os (gnode d c n) null permissions owner = Keeps-pure tt
write_found-pool os (gnode d c n) (gnode d' c' n') permissions owner =
    write_item-pool os _ _ permissions owner

write_files_items-pool : (os : Os) (node : GNode) → Keeps the_pool (write_files_items os node)
unfolding write_files_items write_files_item
write_files_items-pool os null = Keeps-pure tt
write_files_items-pool os (gnode d c n) =
    Keeps-seq (write_found-pool os _ _ _ _) (write_files_items-pool os n)

pub write_files_handler-pool :
    (os : Os) (node : GNode) → Keeps the_pool (write_files_handler os node)
unfolding write_files_handler
write_files_handler-pool os node = write_files_items-pool os (children node)
