-- ===== src/Modules/Groups.antt =====
-- src/ccmodules/groups.c: user groups and their members.
use micro_config_drive.Base.{ℕ, Bytes, str, clip, Option, none, some, ◌++◌}
use micro_config_drive.System.{Os}
use micro_config_drive.System.Io.{Io, ◌>>◌, skip}
use micro_config_drive.GNode.{GNode, null, gnode, children}
use micro_config_drive.Shell.{exec_task}

-- `COMMAND_SIZE`
abbrev pub command_size : ℕ
command_size = 256

abbrev pub groupadd : Os → Bytes → Bytes
groupadd os group = clip command_size (os.groupadd_path ++ (str " -f '" ++ (group ++ str "'")))

abbrev pub usermod : Os → Bytes → Bytes → Bytes
usermod os group user =
    clip command_size
      (os.usermod_path ++ (str " -a -G  '" ++ (group ++ (str "' '" ++ (user ++ str "'")))))

-- `groups_item` on each node of a list of siblings; the second argument is its `data`, the group.
unfoldable pub groups_items : Os → Option Bytes → GNode → Io (Unit {0})
groups_items os group null = skip
groups_items os group (gnode none c n) = do groups_items os group c; groups_items os group n
groups_items os none (gnode (some name) c n) = do
  exec_task os (groupadd os name)
  groups_items os (some name) c
  groups_items os none n
groups_items os (some group) (gnode (some user) c n) = do
  exec_task os (usermod os group user)
  groups_items os (some group) n

unfoldable pub groups_handler : Os → GNode → Io (Unit {0})
unfolding groups_items
groups_handler os node = groups_items os none (children node)
