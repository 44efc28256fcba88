-- ===== src/Modules/Users.antt =====
-- src/ccmodules/users.c: user accounts.
pub mod Options
pub mod Accounts
pub mod Plan
pub mod Steps
pub mod Commands
pub mod Lookup
pub mod Takes
pub mod Performs
use micro_config_drive.Base.{
  ℕ, Bytes, str, str_eq, clip, shown, login_name_max, Option, none, some, List, [], ◌∷◌, ◌++◌, Bool,
  true, false, if◌then◌else◌,
}
use micro_config_drive.System.{Os, Flag, o_creat, o_append, o_wronly}
use micro_config_drive.System.Io.{
  World, Io, Pointer, users_current_username, ◌>>=◌, ◌>>◌, pure, skip,
}
use micro_config_drive.GNode.{GNode, null, gnode, node_data, children, leaves}
use micro_config_drive.Shell.{exec_task}
use micro_config_drive.Files.{write_sudo_directives}
use micro_config_drive.SshKeys.{write_ssh_keys}
use micro_config_drive.CloudConfig.{
  cloud_config_bool, Found, cloud_config_find, cloud_config_get_global, cloud_config_set_global,
}
use micro_config_drive.Modules.Keys.{key_lines}

-- What `users_options` says to do with a key. A format is kept by the texts around its `%s`; one with
-- no `%s` by its text, and the two choices of `users_add_option` apart.
pub data OptionAction : Type 0 where
  nothing : OptionAction
  add_username : Bytes → Bytes → OptionAction
  add_groups : OptionAction
  add_format : Bytes → Bytes → OptionAction
  add_fixed : Bytes → OptionAction
  add_choice : Bytes → Bytes → OptionAction

abbrev pub users_options : List (Bytes × OptionAction)
users_options =
    (str "name", add_username (str " '") (str "' "))
    ∷ (str "gecos", add_format (str " -c '") (str "' "))
    ∷ (str "homedir", add_format (str " -d '") (str "' "))
    ∷ (str "primary-group", add_format (str " -g '") (str "' "))
    ∷ (str "groups", add_groups)
    ∷ (str "lock-passwd", nothing)
    ∷ (str "inactive", nothing)
    ∷ (str "passwd", add_format (str " -p '") (str "' "))
    ∷ (str "no-create-home", add_choice (str " -M ") (str " -m "))
    ∷ (str "no-user-group", add_choice (str " -N ") (str " -U "))
    ∷ (str "no-log-init", add_choice (str " -l ") [])
    ∷ (str "expiredate", add_format (str " -e '") (str "' "))
    ∷ (str "ssh-authorized-keys", nothing)
    ∷ (str "sudo", nothing)
    ∷ (str "system", add_fixed (str " -r "))
    ∷ []

unfoldable pub option_action : Bytes → List (Bytes × OptionAction) → Option OptionAction
option_action key [] = none
option_action key ((k, a) ∷ rest) = if str_eq key k then some a else option_action key rest

-- Appends to a `GString`; a NULL one, which a text directly in the block is added to, stays NULL.
abbrev pub append_to : Option Bytes → Bytes → Option Bytes
append_to none text = none
append_to (some command) text = some (command ++ text)

abbrev pub set_username : Bytes → Io (Unit {0})
set_username name w = (tt, record w { current_username = name })

-- `g_strlcpy` into the buffer of the current user name; GLib refuses a NULL source.
abbrev pub copy_username : Option Bytes → Io (Unit {0})
copy_username none w = (tt, w)
copy_username (some name) w = (tt, record w { current_username = clip login_name_max name })

abbrev pub keep_first : Option Pointer → Io (Unit {0})
keep_first none = cloud_config_set_global (str "first_user") users_current_username
keep_first (some p) = skip

unfoldable pub users_add_username :
    Os → Option Bytes → Option Bytes → Bytes → Bytes → Io (Option Bytes)
users_add_username os name command before after = do
  copy_username name
  first ← cloud_config_get_global (str "first_user")
  keep_first first
  pure (append_to command (before ++ (shown name ++ after)))

-- The groups of a list, each with a comma behind it.
unfoldable pub group_list : GNode → Bytes
group_list null = []
group_list (gnode none c n) = str "," ++ group_list n
group_list (gnode (some group) c n) = group ++ (str "," ++ group_list n)

-- `g_string_truncate (command, command->len - 1)`
abbrev pub drop_last : Bytes → Bytes
drop_last [] = []
drop_last (c ∷ []) = []
drop_last (c ∷ (d ∷ cs)) = c ∷ drop_last (d ∷ cs)

unfoldable pub groups_text : GNode → Bytes
groups_text null = []
groups_text (gnode (some group) c n) = str " -G '" ++ (group ++ str "' ")
groups_text (gnode none null n) = []
groups_text (gnode none (gnode d c n') n) =
    drop_last (str " -G '" ++ group_list (gnode d c n')) ++ str "' "

-- The text of `users_add_option`, which does not look at whether the value was a known one.
unfoldable pub choice_text : Os → GNode → Bytes → Bytes → World → Bytes
choice_text os node if_true if_false w =
    let (known, b) = cloud_config_bool os node (os.uninitialised w.trace) in
    if b then if_true else if_false

-- The call through `users_options[i].func`.
unfoldable pub apply_option : Os → Option OptionAction → GNode → Option Bytes → Io (Option Bytes)
apply_option os none node command w = (command, w)
apply_option os (some nothing) node command w = (command, w)
apply_option os (some (add_username before after)) node command w =
    users_add_username os (node_data node) command before after w
apply_option os (some add_groups) node command w = (append_to command (groups_text node), w)
apply_option os (some (add_format before after)) node command w =
    (append_to command (before ++ (shown (node_data node) ++ after)), w)
apply_option os (some (add_fixed text)) node command w = (append_to command text, w)
apply_option os (some (add_choice if_true if_false)) node command w =
    (append_to command (choice_text os node if_true if_false w), w)

-- `users_item` on a node with data: an option with its value, or a bare user name.
unfoldable pub users_option : Os → Option Bytes → Bytes → GNode → Io (Option Bytes)
users_option os command key null = users_add_username os (some key) command [] []
users_option os command key (gnode d c n) =
    apply_option os (option_action key users_options) (gnode d c n) command

-- The value of a boolean option of the user, if it is there. `b` is the variable that both share.
unfoldable pub find_bool : Os → GNode → Bytes → Bool → Bool × Bool
find_bool os node key b = elim ((cloud_config_find node key).item) [
  | null ↦ (false, b)
  | gnode d c n ↦ let (known, b') = cloud_config_bool os (gnode d c n) b in (b', b')
]

unfoldable pub lock_user : Os → GNode → Bool → Io Bool
lock_user os node b w =
    let (locked, b') = find_bool os node (str "lock-passwd") b in
    let command = os.passwd_path ++ (str " -l '" ++ (w.current_username ++ str "'")) in
    if locked then (do exec_task os command; pure b') w else (b', w)

unfoldable pub deactivate_user : Os → GNode → Bool → Io (Unit {0})
deactivate_user os node b w =
    let (inactive, b') = find_bool os node (str "inactive") b in
    let command = os.usermod_path ++ (str " --expiredate 1 '" ++ (w.current_username ++ str "'")) in
    if inactive then (do exec_task os command; skip) w else (tt, w)

unfoldable pub add_user_keys : Os → GNode → Io (Unit {0})
add_user_keys os node w =
    let found = cloud_config_find node (str "ssh-authorized-keys") in
    elim (found.item) [
      | null ↦ (tt, w)
      | gnode d c n ↦
          (do write_ssh_keys os (key_lines (leaves found.parent)) w.current_username; skip) w
    ]

-- What `users_sudo_item` collects.
unfoldable pub sudo_lines : Bytes → List (Option Bytes) → Bytes
sudo_lines user [] = []
sudo_lines user (rule ∷ rules) =
    user ++ (str " " ++ (shown rule ++ (str "\n" ++ sudo_lines user rules)))

unfoldable pub add_user_sudo : Os → GNode → Io (Unit {0})
add_user_sudo os node w =
    let found = cloud_config_find node (str "sudo") in
    let user = w.current_username in
    elim (found.item) [
      | null ↦ (tt, w)
      | gnode d c n ↦
          (do
            write_sudo_directives os
                (str "# Rules for "
                  ++ (user
                      ++ (str " user\n" ++ (sudo_lines user (leaves found.parent) ++ str "\n"))))
                (str "users-cloud-init") (o_creat ∷ o_append ∷ o_wronly ∷ [])
            skip)
            w
    ]

-- The rest of `users_item` for a user, behind the loop over the options.
unfoldable pub finish_user : Os → GNode → Option Bytes → Io (Unit {0})
finish_user os node command w = elim w.current_username [
  | [] ↦ (tt, w)
  | c ∷ cs ↦
      (do
        exec_task os (shown command)
        b ← lock_user os node (os.uninitialised w.trace)
        deactivate_user os node b
        add_user_keys os node
        add_user_sudo os node)
        w
]

-- `users_item` on each node of a list of siblings, with the command that is built.
unfoldable pub users_items : Os → Option Bytes → GNode → Io (Option Bytes)
users_items os command null = pure command
users_items os command (gnode (some key) c n) = do
  longer ← users_option os command key c
  users_items os longer n
users_items os command (gnode none c n) = do
  set_username []
  built ← users_items os (some (os.useradd_path ++ str " ")) c
  finish_user os (gnode none c n) built
  users_items os command n

unfoldable pub users_handler : Os → GNode → Io (Unit {0})
users_handler os node = do users_items os none (children node); skip
