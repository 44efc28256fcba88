-- ===== src/Modules/Users/Performs.antt =====
-- The handler of users.c takes the steps of the accounts in its block.
use mathlib.Core.Path.{subst}
use micro_config_drive.Base.{
  Bytes, str, shown, Option, none, some, List, [], ◌∷◌, ◌++◌, Bool, append_assoc, ◌≡◌, refl, ◌∙◌,
  ap,
}
use micro_config_drive.System.{Os}
use micro_config_drive.System.Io.{World, ◌>>=◌, ◌>>◌}
use micro_config_drive.GNode.{GNode, gnode}
use micro_config_drive.Shell.{exec_task}
use micro_config_drive.CloudConfig.{cloud_config_find}
use micro_config_drive.Modules.Users.{
  lock_user, deactivate_user, add_user_keys, add_user_sudo, finish_user, users_items, users_handler,
}
use micro_config_drive.Modules.Users.Accounts.{
  exec_task-OnlyCalls, lock_user-OnlyCalls, deactivate_user-OnlyCalls, add_user_keys-OnlyCalls,
  add_user_sudo-OnlyCalls,
}
use micro_config_drive.Modules.Users.Plan.{
  arguments, Setting, setting_nodes, account_nodes, as_lock, as_inactive, as_keys, as_rules, first,
}
use micro_config_drive.Modules.Users.Steps.{
  run, run_if, key_steps, rule_steps, useradd_command, named_steps, account_steps, take_steps,
  take_accounts, settle,
}
use micro_config_drive.Modules.Users.Lookup.{
  find_child-keys, find_child-rules, find_bool-lock, find_bool-inactive,
}
use micro_config_drive.Modules.Users.Commands.{users_items-arguments}
use micro_config_drive.Modules.Users.Takes.{
  Takes, Takes-bind, run_if-steps, run_last-steps, add_user_keys_found, add_user_sudo_found,
}

module _ (os : Os) (ss : List Setting) (n : GNode) where
  lock_user-Takes :
      (user : Bytes) (old : Bool)
      → Takes os user
          (lock_user os (gnode none (setting_nodes ss) n) old)
          (run_if (first as_lock ss) (os.passwd_path ++ (str " -l '" ++ (user ++ str "'"))))
  unfolding lock_user
  lock_user-Takes user old = record {
    takes = λ w e.
        subst
          (λ u.
            (lock_user os (gnode none (setting_nodes ss) n) old w).1
            ≡ (take_steps os
                (run_if (first as_lock ss) (os.passwd_path ++ (str " -l '" ++ (u ++ str "'"))))
                w).1)
          e
          (rw (lock_user, find_bool-lock os ss n old) (run_if-steps os (first as_lock ss) old _ w));
    only = lock_user-OnlyCalls os _ old;
  }

  deactivate_user-Takes :
      (user : Bytes) (old : Bool)
      → Takes os user (deactivate_user os (gnode none (setting_nodes ss) n) old) (
          run_if
            (first as_inactive ss)
            (os.usermod_path ++ (str " --expiredate 1 '" ++ (user ++ str "'"))))
  unfolding deactivate_user
  deactivate_user-Takes user old = record {
    takes = λ w e.
        subst
          (λ u.
            (deactivate_user os (gnode none (setting_nodes ss) n) old w).1
            ≡ (take_steps os
                (run_if (first as_inactive ss)
                  (os.usermod_path ++ (str " --expiredate 1 '" ++ (u ++ str "'"))))
                w).1)
          e
          (rw (deactivate_user, find_bool-inactive os ss n old)
            (run_last-steps os (first as_inactive ss) old _ w));
    only = deactivate_user-OnlyCalls os _ old;
  }

  add_user_keys-Takes :
      (user : Bytes)
      → Takes os user
          (add_user_keys os (gnode none (setting_nodes ss) n))
          (key_steps user (first as_keys ss))
  unfolding cloud_config_find
  add_user_keys-Takes user = record {
    takes = λ w e.
        subst
          (λ u.
            (add_user_keys os (gnode none (setting_nodes ss) n) w).1
            ≡ (take_steps os (key_steps u (first as_keys ss)) w).1)
          e
          (add_user_keys_found os _ (first as_keys ss) w (find_child-keys ss).0
            (find_child-keys ss).1);
    only = add_user_keys-OnlyCalls os _;
  }

  add_user_sudo-Takes :
      (user : Bytes)
      → Takes os user
          (add_user_sudo os (gnode none (setting_nodes ss) n))
          (rule_steps user (first as_rules ss))
  unfolding cloud_config_find
  add_user_sudo-Takes user = record {
    takes = λ w e.
        subst
          (λ u.
            (add_user_sudo os (gnode none (setting_nodes ss) n) w).1
            ≡ (take_steps os (rule_steps u (first as_rules ss)) w).1)
          e
          (add_user_sudo_found os _ (first as_rules ss) w (find_child-rules ss).0
            (find_child-rules ss).1);
    only = add_user_sudo-OnlyCalls os _;
  }

  exec_task-Takes : (user command : Bytes) → Takes os user (exec_task os command) (run command ∷ [])
  exec_task-Takes user command = record {
    takes = λ w e. refl;
    only = exec_task-OnlyCalls os command;
  }

  named_user-Takes :
      (user : Bytes) (old : Bool)
      → let node = gnode none (setting_nodes ss) n in
        Takes os user
          (do
            exec_task os (useradd_command os ss)
            b ← lock_user os node old
            deactivate_user os node b
            add_user_keys os node
            add_user_sudo os node)
          (named_steps os user ss)
  named_user-Takes user old =
      let node = gnode none (setting_nodes ss) n in
      Takes-bind os user _
        (λ _.
          lock_user os node old
          >>= (λ b. do deactivate_user os node b; add_user_keys os node; add_user_sudo os node))
        _ _ (exec_task-Takes user (useradd_command os ss))
        λ _.
          Takes-bind os user _
            (λ b. do deactivate_user os node b; add_user_keys os node; add_user_sudo os node) _ _
            (lock_user-Takes user old)
            λ b.
              Takes-bind os user _ (λ _. do add_user_keys os node; add_user_sudo os node) _ _
                (deactivate_user-Takes user b)
                λ _.
                  Takes-bind os user _ (λ _. add_user_sudo os node) _ _ (add_user_keys-Takes user)
                    (λ _. add_user_sudo-Takes user)

  abbrev if_named : World → Bytes → World
  if_named w user =
      let node = gnode none (setting_nodes ss) n in
      (elim user as (λ _. Unit {0} × World) [
        | [] ↦ (tt, w)
        | c ∷ cs ↦
            (do
              exec_task os (useradd_command os ss)
              b ← lock_user os node (os.uninitialised w.trace)
              deactivate_user os node b
              add_user_keys os node
              add_user_sudo os node)
              w
      ]).1

  finish_user-steps :
      (user : Bytes) (w : World)
      → w.current_username ≡ user
      → (finish_user os (gnode none (setting_nodes ss) n) (some (useradd_command os ss)) w).1
        ≡ (take_steps os (account_steps os user ss) w).1
  unfolding finish_user shown
  finish_user-steps [] w e = ap (if_named w) e
  finish_user-steps (c ∷ cs) w e =
      ap (if_named w) e ∙ (named_user-Takes (c ∷ cs) (os.uninitialised w.trace)).takes w e

users_items-accounts :
    (os : Os) (accounts : List (List Setting)) (w : World)
    → (users_items os none (account_nodes accounts) w).1 ≡ (take_accounts os accounts w).1
unfolding users_items
users_items-accounts os [] w = refl
users_items-accounts os (account ∷ accounts) w =
    let v = settle account (record w { current_username = [] }) in
    rw
      (
        users_items-arguments os (os.useradd_path ++ str " ") account
            (record w { current_username = [] }),
        append_assoc os.useradd_path (str " ") (arguments account),
      )
      (users_items-accounts os accounts _
        ∙ ap (λ u. (take_accounts os accounts u).1)
            (finish_user-steps os account (account_nodes accounts) v.current_username v refl))

-- On a block of accounts, each a list of settings in any order, the handler of users, whatever the calls answer,
-- takes the steps of the accounts in their order and nothing else, and leaves the variables as these steps say:
-- for an account with a name the `useradd` command with the arguments of all its settings in their order, then
-- the locking and the expiry if the first such switch is on, the keys of the first list of keys, and the rules of
-- the first list of sudo rules, all for the last name that is given, as it fits into its buffer; for an account
-- without a name nothing. The global first user is set at the first name if it was not, and kept otherwise.
pub users_handler-accounts :
    (os : Os) (name : Option Bytes) (accounts : List (List Setting)) (next : GNode) (w : World)
    → (users_handler os (gnode name (account_nodes accounts) next) w).1
      ≡ (take_accounts os accounts w).1
unfolding users_handler
users_handler-accounts os name accounts next w = users_items-accounts os accounts w
