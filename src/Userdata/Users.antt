-- ===== src/Userdata/Users.antt =====
-- A document with a `users` block, from the events of the file to the steps for its accounts.
use micro_config_drive.Base.{Bytes, str, str_eq, none, some, List, [], ◌∷◌, ◌≡◌, refl, ◌∙◌, map, ap}
use micro_config_drive.System.{Os}
use micro_config_drive.System.Io.{World}
use micro_config_drive.GNode.{null, gnode}
use micro_config_drive.Yaml.Documents.{end, entry_list, file_events}
use micro_config_drive.Modules.Users.{users_handler}
use micro_config_drive.Modules.Users.Plan.{Setting, setting_nodes, account_nodes}
use micro_config_drive.Modules.Users.Steps.{take_accounts}
use micro_config_drive.Modules.Users.Performs.{users_handler-accounts}
use micro_config_drive.Userdata.{
  cc_module_structs, prepend_all, find_handler, run_handler, process_blocks, cloud_config_process,
  read_userdata,
}
use micro_config_drive.Userdata.Runcmd.{last_first}
use micro_config_drive.Userdata.Accounts.{
  accounts_items, AllSet, item_nodes-accounts, account_nodes-AllNormal,
}
use micro_config_drive.Userdata.Blocks.{list_nodes, last_first-map, read_userdata-list}

account_nodes-list :
    (accounts : List (List Setting))
    → account_nodes accounts ≡ list_nodes (map setting_nodes accounts)
account_nodes-list [] = refl
account_nodes-list (account ∷ accounts) =
    ap (gnode none (setting_nodes account)) (account_nodes-list accounts)

read_userdata-users :
    (accounts : List (List Setting)) (filename : Bytes)
    → AllSet accounts
    → read_userdata (file_events (entry_list (str "users") (accounts_items accounts) end)) filename
      ≡ gnode
          (some filename)
          (gnode none
            (gnode (some (str "users")) (account_nodes (last_first [] accounts)) null)
            null)
          null
read_userdata-users accounts filename h =
    rw (account_nodes-list (last_first [] accounts), ← last_first-map setting_nodes [] accounts)
      (read_userdata-list (str "users") (accounts_items accounts) (map setting_nodes accounts)
        filename (item_nodes-accounts accounts ∙ account_nodes-list accounts)
        (account_nodes-AllNormal accounts h))

find_users :
    find_handler (some (str "users")) (prepend_all cc_module_structs []) ≡ some users_handler
unfolding find_handler prepend_all cc_module_structs str str_eq
find_users = refl

-- A file whose document is a `users` block, a list of accounts with at least one setting each: whatever the calls
-- answer, the steps of the accounts are taken, the last account of the file first, and nothing else. For an
-- account with a name these are the `useradd` command with the arguments of all its settings in their order,
-- then the locking and the expiry if the first such switch is on, the keys of the first list of keys, and the
-- rules of the first list of sudo rules, all for the last name that is given, as it fits into its buffer; for an
-- account without a name nothing. The global first user is set at the first name if it was not.
pub process-users :
    (os : Os) (accounts : List (List Setting)) (filename : Bytes) (w : World)
    → AllSet accounts
    → (cloud_config_process os
        (prepend_all cc_module_structs [])
        (read_userdata
          (file_events (entry_list (str "users") (accounts_items accounts) end))
          filename)
        w).1
      ≡ (take_accounts os (last_first [] accounts) w).1
unfolding cloud_config_process process_blocks run_handler
process-users os accounts filename w h =
    rw (read_userdata-users accounts filename h) (
      rw find_users
        (users_handler-accounts os (some (str "users")) (last_first [] accounts) null w))
