-- ===== src/Modules/WriteFiles/Plan.antt =====
-- What `write_files` of src/ccmodules/write_files.c does with its items.
use micro_config_drive.Base.{
  ℕ, Bytes, str, str_eq, length, Option, none, some, List, [], ◌∷◌, ◌++◌, false, if◌then◌else◌, ◌≡◌,
}
use micro_config_drive.System.{
  Os, Flag, Trace, Passwd, o_wronly, o_creat, access, open_file, write, fchmod, close, getpwnam,
  getgrnam, chown,
}
use micro_config_drive.GNode.{GNode, null, gnode, leaf}
use micro_config_drive.CloudConfig.{cloud_config_int_base}
use micro_config_drive.Modules.WriteFiles.{split_owner, or_empty}

-- An item, as its keys with their texts in their order, and the block of some items.
abbrev pub pair_nodes : List (Bytes × Bytes) → GNode
pair_nodes [] = null
pair_nodes ((key, text) ∷ entries) = gnode (some key) (leaf text) (pair_nodes entries)

abbrev pub file_nodes : List (List (Bytes × Bytes)) → GNode
file_nodes [] = null
file_nodes (item ∷ items) = gnode none (pair_nodes item) (file_nodes items)

-- The text of the first entry with a key.
abbrev pub lookup : Bytes → List (Bytes × Bytes) → Option Bytes
lookup key [] = none
lookup key ((k, text) ∷ entries) =
    let rest = lookup key entries in if str_eq k key then some text else rest

abbrev pub value_node : Option Bytes → GNode
value_node none = null
value_node (some text) = leaf text

-- The answers that stay the same while the block is processed: the directories can be written to, and
-- everything is written that is given.
pub record Steady (os : Os) (fd : Bytes → Option ℕ) (user : Bytes → Option Passwd)
    (group : Bytes → Option ℕ) : Type 0 where
  pub reachable : (t : Trace) (dir : Bytes) → os.access_errno t dir ≡ none
  pub opens : (t : Trace) (path : Bytes) (flags : List Flag) → os.open_fd t path flags ≡ fd path
  pub writes : (t : Trace) (n : ℕ) (text : Bytes) → os.written t n text ≡ some (length text)
  pub in_range : (t : Trace) → os.errno_is_erange t ≡ false
  pub users : (t : Trace) (name : Bytes) → os.passwd_of t name ≡ user name
  pub groups : (t : Trace) (name : Bytes) → os.group_of t name ≡ group name

module _ (os : Os) (fd : Bytes → Option ℕ) (user : Bytes → Option Passwd)
    (group : Bytes → Option ℕ) where
  -- Permissions that are an octal number are set.
  abbrev pub mode_calls : ℕ → Option Bytes → Trace
  mode_calls n none = []
  mode_calls n (some text) =
      let (valid, mode) = cloud_config_int_base text 8 false in
      if valid then fchmod n mode ∷ [] else []

  -- The user is looked up, then the group, and both are given the file.
  abbrev pub group_calls : Bytes → Passwd → Option ℕ → Trace
  group_calls path pwd none = []
  group_calls path pwd (some gid) = chown path pwd.uid gid ∷ []

  abbrev pub user_calls : Bytes → Bytes → Option Passwd → Trace
  user_calls path name none = []
  user_calls path name (some pwd) = getgrnam name ∷ group_calls path pwd (group name)

  abbrev pub owner_calls : Bytes → Option Bytes → Trace
  owner_calls path none = []
  owner_calls path (some []) = []
  owner_calls path (some (c ∷ cs)) =
      let (name, others) = split_owner (c ∷ cs) in
      getpwnam name ∷ user_calls path (or_empty others) (user name)

  -- A file that cannot be opened is passed over.
  abbrev pub file_calls : Bytes → Bytes → Option Bytes → Option Bytes → Option ℕ → Trace
  file_calls content path permissions owner none = []
  file_calls content path permissions owner (some n) =
      write n content ∷ (mode_calls n permissions ++ (close n ∷ owner_calls path owner))

  -- An item without a content or a path does nothing.
  abbrev pub written_calls : Option Bytes → Option Bytes → Option Bytes → Option Bytes → Trace
  written_calls none path permissions owner = []
  written_calls (some content) none permissions owner = []
  written_calls (some content) (some path) permissions owner =
      access (os.dirname path)
      ∷ (open_file path (o_wronly ∷ (o_creat ∷ [])) (fd path)
          ∷ file_calls content path permissions owner (fd path))

  abbrev pub item_calls : List (Bytes × Bytes) → Trace
  item_calls item =
      written_calls (lookup (str "content") item) (lookup (str "path") item)
        (lookup (str "permissions") item) (lookup (str "owner") item)

  abbrev pub items_calls : List (List (Bytes × Bytes)) → Trace
  items_calls [] = []
  items_calls (item ∷ items) = item_calls item ++ items_calls items
