-- ===== src/Modules/Users/Lookup.antt =====
-- What `cloud_config_find` finds among the settings of an account.
use micro_config_drive.Base.{
  Bytes, str, str_eq, shown, Option, none, some, List, [], ◌∷◌, Bool, true, false, append-nil, ◌≡◌,
  refl, map,
}
use micro_config_drive.System.{Os}
use micro_config_drive.GNode.{GNode, null, gnode, leaves, forest_leaves}
use micro_config_drive.CloudConfig.{cloud_config_find, find_child}
use micro_config_drive.Modules.Keys.{key_lines}
use micro_config_drive.Modules.Users.{find_bool, sudo_lines}
use micro_config_drive.Modules.Users.Options.{group_nodes}
use micro_config_drive.Modules.Users.Plan.{
  CommandOption, named, field, in_groups, switch, system, gecos, homedir, primary_group, passwd,
  expiredate, no_create_home, no_user_group, no_log_init, Setting, plain, lock_passwd, inactive,
  ssh_keys, sudo, Texts, one, many, texts_list, texts_node, bool_node, option_key, setting_nodes,
  as_lock, as_inactive, as_keys, as_rules, first,
}
use micro_config_drive.Modules.Users.Steps.{key_text, rule_text}
use micro_config_drive.Modules.Users.Commands.{cloud_config_bool-node}

abbrev bool_found : Option Bool → GNode
bool_found none = null
bool_found (some b) = bool_node b

abbrev pub texts_found : Option Texts → GNode
texts_found none = null
texts_found (some texts) = texts_node texts

abbrev pub texts_leaves : Option Texts → List (Option Bytes)
texts_leaves none = []
texts_leaves (some texts) = map some (texts_list texts)

-- The keys of the command's options are other keys.
option_key-others :
    (o : CommandOption)
    → (str_eq (option_key o) (str "lock-passwd") ≡ false)
      × (str_eq (option_key o) (str "inactive") ≡ false)
      × (str_eq (option_key o) (str "ssh-authorized-keys") ≡ false)
      × (str_eq (option_key o) (str "sudo") ≡ false)
unfolding str_eq str
option_key-others (named n) = (refl, refl, refl, refl)
option_key-others (field gecos text) = (refl, refl, refl, refl)
option_key-others (field homedir text) = (refl, refl, refl, refl)
option_key-others (field primary_group text) = (refl, refl, refl, refl)
option_key-others (field passwd text) = (refl, refl, refl, refl)
option_key-others (field expiredate text) = (refl, refl, refl, refl)
option_key-others (in_groups groups) = (refl, refl, refl, refl)
option_key-others (switch no_create_home b) = (refl, refl, refl, refl)
option_key-others (switch no_user_group b) = (refl, refl, refl, refl)
option_key-others (switch no_log_init b) = (refl, refl, refl, refl)
option_key-others (system text) = (refl, refl, refl, refl)

find_child-lock :
    (ss : List Setting)
    → (find_child (str "lock-passwd") (setting_nodes ss)).item ≡ bool_found (first as_lock ss)
unfolding find_child str_eq str
find_child-lock [] = refl
find_child-lock (plain o ∷ ss) = rw ((option_key-others o).0, find_child) (find_child-lock ss)
find_child-lock (lock_passwd b ∷ ss) = refl
find_child-lock (inactive b ∷ ss) = find_child-lock ss
find_child-lock (ssh_keys texts ∷ ss) = find_child-lock ss
find_child-lock (sudo texts ∷ ss) = find_child-lock ss

find_child-inactive :
    (ss : List Setting)
    → (find_child (str "inactive") (setting_nodes ss)).item ≡ bool_found (first as_inactive ss)
unfolding find_child str_eq str
find_child-inactive [] = refl
find_child-inactive (plain o ∷ ss) =
    rw ((option_key-others o).1, find_child) (find_child-inactive ss)
find_child-inactive (lock_passwd b ∷ ss) = find_child-inactive ss
find_child-inactive (inactive b ∷ ss) = refl
find_child-inactive (ssh_keys texts ∷ ss) = find_child-inactive ss
find_child-inactive (sudo texts ∷ ss) = find_child-inactive ss

group_nodes-leaves :
    (g : Bytes) (gs : List Bytes) → forest_leaves (group_nodes g gs) ≡ map some (g ∷ gs)
unfolding forest_leaves
group_nodes-leaves g [] = refl
group_nodes-leaves g (h ∷ gs) = rw (group_nodes-leaves h gs) refl

pub leaves-texts :
    (d : Option Bytes) (texts : Texts) (n : GNode)
    → leaves (gnode d (texts_node texts) n) ≡ map some (texts_list texts)
unfolding leaves forest_leaves
leaves-texts d (one text) n = refl
leaves-texts d (many g []) n = refl
leaves-texts d (many g (h ∷ gs)) n = rw (append-nil, group_nodes-leaves h gs) refl

pub find_child-keys :
    (ss : List Setting)
    → let r = find_child (str "ssh-authorized-keys") (setting_nodes ss) in
      (r.item ≡ texts_found (first as_keys ss))
      × (leaves r.parent ≡ texts_leaves (first as_keys ss))
unfolding find_child str_eq str leaves
find_child-keys [] = (refl, refl)
find_child-keys (plain o ∷ ss) = rw ((option_key-others o).2, find_child) (find_child-keys ss)
find_child-keys (lock_passwd b ∷ ss) = find_child-keys ss
find_child-keys (inactive b ∷ ss) = find_child-keys ss
find_child-keys (ssh_keys texts ∷ ss) = (refl, leaves-texts _ texts (setting_nodes ss))
find_child-keys (sudo texts ∷ ss) = find_child-keys ss

pub find_child-rules :
    (ss : List Setting)
    → let r = find_child (str "sudo") (setting_nodes ss) in
      (r.item ≡ texts_found (first as_rules ss))
      × (leaves r.parent ≡ texts_leaves (first as_rules ss))
unfolding find_child str_eq str leaves
find_child-rules [] = (refl, refl)
find_child-rules (plain o ∷ ss) = rw ((option_key-others o).3, find_child) (find_child-rules ss)
find_child-rules (lock_passwd b ∷ ss) = find_child-rules ss
find_child-rules (inactive b ∷ ss) = find_child-rules ss
find_child-rules (ssh_keys texts ∷ ss) = find_child-rules ss
find_child-rules (sudo texts ∷ ss) = (refl, leaves-texts _ texts (setting_nodes ss))

-- A switch that is not found is off, and leaves the variable as it is.
abbrev pub switched : Option Bool → Bool → Bool × Bool
switched none old = (false, old)
switched (some b) old = (b, b)

find_bool_found :
    (os : Os) (found : Option Bool) (key : Bytes) (node : GNode) (old : Bool)
    → (cloud_config_find node key).item ≡ bool_found found
    → find_bool os node key old ≡ switched found old
unfolding find_bool
find_bool_found os none key node old e = rw (find_bool, e) refl
find_bool_found os (some true) key node old e =
    rw (find_bool, e, cloud_config_bool-node os true old) refl
find_bool_found os (some false) key node old e =
    rw (find_bool, e, cloud_config_bool-node os false old) refl

pub find_bool-lock :
    (os : Os) (ss : List Setting) (n : GNode) (old : Bool)
    → find_bool os (gnode none (setting_nodes ss) n) (str "lock-passwd") old
      ≡ switched (first as_lock ss) old
unfolding cloud_config_find
find_bool-lock os ss n old = find_bool_found os (first as_lock ss) _ _ old (find_child-lock ss)

pub find_bool-inactive :
    (os : Os) (ss : List Setting) (n : GNode) (old : Bool)
    → find_bool os (gnode none (setting_nodes ss) n) (str "inactive") old
      ≡ switched (first as_inactive ss) old
unfolding cloud_config_find
find_bool-inactive os ss n old =
    find_bool_found os (first as_inactive ss) _ _ old (find_child-inactive ss)

pub key_lines-text : (texts : List Bytes) → key_lines (map some texts) ≡ key_text texts
unfolding key_lines shown
key_lines-text [] = refl
key_lines-text (t ∷ ts) = rw (key_lines-text ts) refl

pub sudo_lines-text :
    (user : Bytes) (texts : List Bytes) → sudo_lines user (map some texts) ≡ rule_text user texts
unfolding sudo_lines shown
sudo_lines-text user [] = refl
sudo_lines-text user (t ∷ ts) = rw (sudo_lines-text user ts) refl
