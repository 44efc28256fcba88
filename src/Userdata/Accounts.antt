-- ===== src/Userdata/Accounts.antt =====
-- Accounts as the mappings of a document: their nodes, and that the simplification leaves them.
use micro_config_drive.Base.{Bytes, str, some, List, [], ◌∷◌, Bool, true, false, ◌≡◌, refl, map, ap}
use micro_config_drive.GNode.{null, gnode}
use micro_config_drive.Yaml.Documents.{
  Items, nil, text, table, Entries, end, entry, entry_list, item_nodes, entry_nodes,
}
use micro_config_drive.Simplify.Normal.{IsNormal, all_data, some_node}
use micro_config_drive.Modules.Users.Options.{group_nodes}
use micro_config_drive.Modules.Users.Plan.{
  CommandOption, named, field, in_groups, switch, system, Setting, plain, lock_passwd, inactive,
  ssh_keys, sudo, Texts, one, many, bool_node, texts_node, option_key, option_value, setting_value,
  setting_nodes, account_nodes,
}
use micro_config_drive.Userdata.Blocks.{AllNormal}
use micro_config_drive.Userdata.Runcmd.{text_items}

abbrev pub bool_entry : Bytes → Bool → Entries → Entries
bool_entry key true rest = entry key (str "true") rest
bool_entry key false rest = entry key (str "false") rest

abbrev pub texts_entry : Bytes → Texts → Entries → Entries
texts_entry key (one t) rest = entry key t rest
texts_entry key (many t ts) rest = entry_list key (text t (text_items ts)) rest

abbrev pub option_entry : CommandOption → Entries → Entries
option_entry (named n) rest = entry (str "name") n rest
option_entry (field f t) rest = entry (option_key (field f t)) t rest
option_entry (in_groups groups) rest = texts_entry (str "groups") groups rest
option_entry (switch s b) rest = bool_entry (option_key (switch s b)) b rest
option_entry (system t) rest = entry (str "system") t rest

-- An account as a mapping of the document, and a list of accounts.
abbrev pub account_entries : List Setting → Entries
account_entries [] = end
account_entries (plain o ∷ ss) = option_entry o (account_entries ss)
account_entries (lock_passwd b ∷ ss) = bool_entry (str "lock-passwd") b (account_entries ss)
account_entries (inactive b ∷ ss) = bool_entry (str "inactive") b (account_entries ss)
account_entries (ssh_keys texts ∷ ss) =
    texts_entry (str "ssh-authorized-keys") texts (account_entries ss)
account_entries (sudo texts ∷ ss) = texts_entry (str "sudo") texts (account_entries ss)

abbrev pub accounts_items : List (List Setting) → Items
accounts_items [] = nil
accounts_items (account ∷ accounts) = table (account_entries account) (accounts_items accounts)

-- Every account has a setting.
abbrev pub AllSet : List (List Setting) → Type 0
AllSet [] = Unit
AllSet (account ∷ accounts) = (some_node (setting_nodes account) ≡ true) × AllSet accounts

pub item_nodes-group_nodes :
    (t : Bytes) (ts : List Bytes) → item_nodes (text t (text_items ts)) ≡ group_nodes t ts
unfolding item_nodes
item_nodes-group_nodes t [] = refl
item_nodes-group_nodes t (u ∷ ts) = ap (gnode (some t) null) (item_nodes-group_nodes u ts)

entry_nodes-bool :
    (key : Bytes) (b : Bool) (rest : Entries)
    → entry_nodes (bool_entry key b rest) ≡ gnode (some key) (bool_node b) (entry_nodes rest)
unfolding entry_nodes
entry_nodes-bool key true rest = refl
entry_nodes-bool key false rest = refl

entry_nodes-texts :
    (key : Bytes) (texts : Texts) (rest : Entries)
    → entry_nodes (texts_entry key texts rest)
      ≡ gnode (some key) (texts_node texts) (entry_nodes rest)
unfolding entry_nodes
entry_nodes-texts key (one t) rest = refl
entry_nodes-texts key (many t ts) rest = rw (item_nodes-group_nodes t ts) refl

entry_nodes-option :
    (o : CommandOption) (rest : Entries)
    → entry_nodes (option_entry o rest)
      ≡ gnode (some (option_key o)) (option_value o) (entry_nodes rest)
unfolding entry_nodes
entry_nodes-option (named n) rest = refl
entry_nodes-option (field f t) rest = refl
entry_nodes-option (in_groups groups) rest = entry_nodes-texts (str "groups") groups rest
entry_nodes-option (switch s b) rest = entry_nodes-bool (option_key (switch s b)) b rest
entry_nodes-option (system t) rest = refl

entry_nodes-account : (ss : List Setting) → entry_nodes (account_entries ss) ≡ setting_nodes ss
unfolding entry_nodes
entry_nodes-account [] = refl
entry_nodes-account (plain o ∷ ss) =
    rw (entry_nodes-option o (account_entries ss), entry_nodes-account ss) refl
entry_nodes-account (lock_passwd b ∷ ss) =
    rw (entry_nodes-bool (str "lock-passwd") b (account_entries ss), entry_nodes-account ss) refl
entry_nodes-account (inactive b ∷ ss) =
    rw (entry_nodes-bool (str "inactive") b (account_entries ss), entry_nodes-account ss) refl
entry_nodes-account (ssh_keys texts ∷ ss) =
    rw
      (
        entry_nodes-texts (str "ssh-authorized-keys") texts (account_entries ss),
        entry_nodes-account ss,
      )
      refl
entry_nodes-account (sudo texts ∷ ss) =
    rw (entry_nodes-texts (str "sudo") texts (account_entries ss), entry_nodes-account ss) refl

pub item_nodes-accounts :
    (accounts : List (List Setting)) → item_nodes (accounts_items accounts) ≡ account_nodes accounts
unfolding item_nodes
item_nodes-accounts [] = refl
item_nodes-accounts (account ∷ accounts) =
    rw (entry_nodes-account account, item_nodes-accounts accounts) refl

bool_node-IsNormal : (b : Bool) → IsNormal (bool_node b)
bool_node-IsNormal true = (tt, tt)
bool_node-IsNormal false = (tt, tt)

pub group_nodes-IsNormal :
    (t : Bytes) (ts : List Bytes)
    → (some_node (group_nodes t ts) ≡ true)
      × (all_data (group_nodes t ts) ≡ true)
      × IsNormal (group_nodes t ts)
group_nodes-IsNormal t [] = (refl, refl, (tt, tt))
group_nodes-IsNormal t (u ∷ ts) =
    let (filled, data_all, normal) = group_nodes-IsNormal u ts in (refl, data_all, (tt, normal))

texts_node-IsNormal : (texts : Texts) → IsNormal (texts_node texts)
texts_node-IsNormal (one t) = (tt, tt)
texts_node-IsNormal (many t ts) =
    let (s, d, normal) = group_nodes-IsNormal t ts in (s, d, normal, tt)

setting_value-IsNormal : (s : Setting) → IsNormal (setting_value s)
setting_value-IsNormal (plain (named n)) = (tt, tt)
setting_value-IsNormal (plain (field f t)) = (tt, tt)
setting_value-IsNormal (plain (in_groups groups)) = texts_node-IsNormal groups
setting_value-IsNormal (plain (switch s b)) = bool_node-IsNormal b
setting_value-IsNormal (plain (system t)) = (tt, tt)
setting_value-IsNormal (lock_passwd b) = bool_node-IsNormal b
setting_value-IsNormal (inactive b) = bool_node-IsNormal b
setting_value-IsNormal (ssh_keys texts) = texts_node-IsNormal texts
setting_value-IsNormal (sudo texts) = texts_node-IsNormal texts

setting_nodes-IsNormal :
    (ss : List Setting) → (all_data (setting_nodes ss) ≡ true) × IsNormal (setting_nodes ss)
setting_nodes-IsNormal [] = (refl, tt)
setting_nodes-IsNormal (s ∷ ss) =
    let (d, normal) = setting_nodes-IsNormal ss in (d, (setting_value-IsNormal s, normal))

pub account_nodes-AllNormal :
    (accounts : List (List Setting)) → AllSet accounts → AllNormal (map setting_nodes accounts)
account_nodes-AllNormal [] h = tt
account_nodes-AllNormal (account ∷ accounts) (filled, h) =
    let (d, normal) = setting_nodes-IsNormal account in
    ((filled, d, normal), account_nodes-AllNormal accounts h)
