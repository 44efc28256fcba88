-- ===== src/Modules/Users/Plan.antt =====
-- What `users_handler` of src/ccmodules/users.c does with accounts: their settings, as the block
-- holds them, and the steps that they ask for.
use micro_config_drive.Base.{Bytes, str, Option, none, some, List, [], ◌∷◌, ◌++◌, Bool, true, false}
use micro_config_drive.GNode.{GNode, null, gnode, leaf}
use micro_config_drive.Modules.Users.Options.{group_nodes, comma_list}

-- A text, or a list of at least one.
pub data Texts : Type 0 where
  one : Bytes → Texts
  many : Bytes → List Bytes → Texts

pub data Field : Type 0 where
  gecos homedir primary_group passwd expiredate : Field

pub data Switch : Type 0 where
  no_create_home no_user_group no_log_init : Switch

-- The settings that end in the `useradd` command, and the others.
pub data CommandOption : Type 0 where
  named : Bytes → CommandOption
  field : Field → Bytes → CommandOption
  in_groups : Texts → CommandOption
  switch : Switch → Bool → CommandOption
  system : Bytes → CommandOption

pub data Setting : Type 0 where
  plain : CommandOption → Setting
  lock_passwd inactive : Bool → Setting
  ssh_keys sudo : Texts → Setting

abbrev pub field_key : Field → Bytes
field_key gecos = str "gecos"
field_key homedir = str "homedir"
field_key primary_group = str "primary-group"
field_key passwd = str "passwd"
field_key expiredate = str "expiredate"

abbrev pub switch_key : Switch → Bytes
switch_key no_create_home = str "no-create-home"
switch_key no_user_group = str "no-user-group"
switch_key no_log_init = str "no-log-init"

abbrev pub option_key : CommandOption → Bytes
option_key (named n) = str "name"
option_key (field f text) = field_key f
option_key (in_groups groups) = str "groups"
option_key (switch s b) = switch_key s
option_key (system text) = str "system"

abbrev pub setting_key : Setting → Bytes
setting_key (plain o) = option_key o
setting_key (lock_passwd b) = str "lock-passwd"
setting_key (inactive b) = str "inactive"
setting_key (ssh_keys texts) = str "ssh-authorized-keys"
setting_key (sudo texts) = str "sudo"

abbrev pub bool_node : Bool → GNode
bool_node true = leaf (str "true")
bool_node false = leaf (str "false")

abbrev pub texts_node : Texts → GNode
texts_node (one text) = leaf text
texts_node (many text texts) = gnode none (group_nodes text texts) null

abbrev pub texts_list : Texts → List Bytes
texts_list (one text) = text ∷ []
texts_list (many text texts) = text ∷ texts

abbrev pub option_value : CommandOption → GNode
option_value (named n) = leaf n
option_value (field f text) = leaf text
option_value (in_groups groups) = texts_node groups
option_value (switch s b) = bool_node b
option_value (system text) = leaf text

abbrev pub setting_value : Setting → GNode
setting_value (plain o) = option_value o
setting_value (lock_passwd b) = bool_node b
setting_value (inactive b) = bool_node b
setting_value (ssh_keys texts) = texts_node texts
setting_value (sudo texts) = texts_node texts

-- The block of some accounts.
abbrev pub setting_nodes : List Setting → GNode
setting_nodes [] = null
setting_nodes (s ∷ ss) = gnode (some (setting_key s)) (setting_value s) (setting_nodes ss)

abbrev pub account_nodes : List (List Setting) → GNode
account_nodes [] = null
account_nodes (account ∷ accounts) = gnode none (setting_nodes account) (account_nodes accounts)

-- What a setting adds to the `useradd` command.
abbrev pub field_letter : Field → Bytes
field_letter gecos = str " -c '"
field_letter homedir = str " -d '"
field_letter primary_group = str " -g '"
field_letter passwd = str " -p '"
field_letter expiredate = str " -e '"

abbrev pub switch_letter : Switch → Bool → Bytes
switch_letter no_create_home true = str " -M "
switch_letter no_create_home false = str " -m "
switch_letter no_user_group true = str " -N "
switch_letter no_user_group false = str " -U "
switch_letter no_log_init true = str " -l "
switch_letter no_log_init false = []

abbrev pub groups_list : Texts → Bytes
groups_list (one group) = group
groups_list (many group groups) = comma_list group groups

abbrev pub argument : CommandOption → Bytes
argument (named n) = str " '" ++ (n ++ str "' ")
argument (field f text) = field_letter f ++ (text ++ str "' ")
argument (in_groups groups) = str " -G '" ++ (groups_list groups ++ str "' ")
argument (switch s b) = switch_letter s b
argument (system text) = str " -r "

abbrev pub arguments : List Setting → Bytes
arguments [] = []
arguments (plain o ∷ ss) = argument o ++ arguments ss
arguments (lock_passwd b ∷ ss) = arguments ss
arguments (inactive b ∷ ss) = arguments ss
arguments (ssh_keys texts ∷ ss) = arguments ss
arguments (sudo texts ∷ ss) = arguments ss

abbrev pub as_lock : Setting → Option Bool
as_lock (plain o) = none
as_lock (lock_passwd b) = some b
as_lock (inactive b) = none
as_lock (ssh_keys texts) = none
as_lock (sudo texts) = none

abbrev pub as_inactive : Setting → Option Bool
as_inactive (plain o) = none
as_inactive (lock_passwd b) = none
as_inactive (inactive b) = some b
as_inactive (ssh_keys texts) = none
as_inactive (sudo texts) = none

abbrev pub as_keys : Setting → Option Texts
as_keys (plain o) = none
as_keys (lock_passwd b) = none
as_keys (inactive b) = none
as_keys (ssh_keys texts) = some texts
as_keys (sudo texts) = none

abbrev pub as_rules : Setting → Option Texts
as_rules (plain o) = none
as_rules (lock_passwd b) = none
as_rules (inactive b) = none
as_rules (ssh_keys texts) = none
as_rules (sudo texts) = some texts

-- The first setting of a kind.
abbrev pub first : {A : Type 0} → (Setting → Option A) → List Setting → Option A
first f [] = none
first f (s ∷ ss) = elim (f s) [ none ↦ first f ss | some a ↦ some a ]
