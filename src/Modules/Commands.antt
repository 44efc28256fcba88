-- ===== src/Modules/Commands.antt =====
-- src/ccmodules/runcmd.c, fbootcmd.c, service.c and hostname.c: the directives that run commands.
pub mod Lines
pub mod Hostnames
use micro_config_drive.Base.{
  ℕ, Bytes, str, clip, shown, data_eq, line_max, Option, none, some, List, [], ◌∷◌, ◌++◌, Bool,
  true, false, ◌||◌, if◌then◌else◌,
}
use micro_config_drive.System.{Os}
use micro_config_drive.System.Io.{Io, ◌>>=◌, ◌>>◌, pure, skip}
use micro_config_drive.GNode.{GNode, null, gnode, node_data, children, leaves}
use micro_config_drive.Shell.{exec_task}
use micro_config_drive.Boot.{is_first_boot}

-- `runcmd_item` on each node of a list of siblings, with the command line that is collected. A list
-- runs what was collected up to its end, and empties the line.
unfoldable pub runcmd_items : Os → Bytes → GNode → Io Bytes
runcmd_items os command_line null = pure command_line
runcmd_items os command_line (gnode none c n) = do
  line ← runcmd_items os command_line c
  exec_task os line
  runcmd_items os [] n
runcmd_items os command_line (gnode (some word) c n) =
    runcmd_items os (command_line ++ (word ++ str " ")) n

unfoldable pub runcmd_handler : Os → GNode → Io (Unit {0})
runcmd_handler os node = do runcmd_items os [] (children node); skip

-- `fbootcmd_item`, likewise.
unfoldable pub fbootcmd_items : Os → Bytes → GNode → Io Bytes
fbootcmd_items os command_line null = pure command_line
fbootcmd_items os command_line (gnode none c n) = do
  line ← fbootcmd_items os command_line c
  exec_task os line
  fbootcmd_items os [] n
fbootcmd_items os command_line (gnode (some word) c n) =
    fbootcmd_items os (command_line ++ (word ++ str " ")) n

unfoldable pub fbootcmd_handler : Os → GNode → Io (Unit {0})
fbootcmd_handler os node = do
  first ← is_first_boot os
  if first then (do fbootcmd_items os [] (children node); skip) else skip

-- `COMMAND_SIZE` of service.c
abbrev pub service_command_size : ℕ
service_command_size = 2048

abbrev pub service_command : Os → Option Bytes → Option Bytes → Bytes
service_command os action name =
    clip service_command_size
      (os.systemctl_path ++ (str " " ++ (shown action ++ (str " " ++ shown name))))

-- The nine comparisons of `service_item`.
unfoldable pub is_service_action : Option Bytes → Bool
is_service_action action =
    data_eq action (str "enable")
    || data_eq action (str "disable")
    || data_eq action (str "start")
    || data_eq action (str "stop")
    || data_eq action (str "restart")
    || data_eq action (str "reload")
    || data_eq action (str "isolate")
    || data_eq action (str "mask")
    || data_eq action (str "unmask")

-- `service_action` on each leaf.
unfoldable pub service_actions : Os → Option Bytes → List (Option Bytes) → Io (Unit {0})
service_actions os action [] = skip
service_actions os action (name ∷ names) = do
  exec_task os (service_command os action name)
  service_actions os action names

-- The node that `service_item` looks at: of a list or a mapping its first child only.
abbrev pub service_node : GNode → GNode
service_node null = null
service_node (gnode none c n) = c
service_node (gnode (some d) c n) = gnode (some d) c n

abbrev pub has_children : GNode → Bool
has_children node = elim (children node) [ null ↦ false | gnode d c n ↦ true ]

unfoldable pub service_item : Os → GNode → Io (Unit {0})
unfolding service_actions is_service_action
service_item os node =
    let action_node = service_node node in
    if has_children action_node
    then (if is_service_action (node_data action_node)
        then service_actions os (node_data action_node) (leaves action_node)
        else skip)
    else skip

unfoldable pub service_items : Os → GNode → Io (Unit {0})
service_items os null = skip
service_items os (gnode d c n) = do service_item os (gnode d c n); service_items os n

unfoldable pub service_handler : Os → GNode → Io (Unit {0})
unfolding service_items
service_handler os node = service_items os (children node)

abbrev pub set_hostname : Os → Option Bytes → Bytes
set_hostname os name =
    clip line_max (os.hostnamectl_path ++ (str " set-hostname '" ++ (shown name ++ str "'")))

-- `hostname_item` returns true, which ends the traversal at the first leaf.
unfoldable pub hostname_leaves : Os → List (Option Bytes) → Io (Unit {0})
hostname_leaves os [] = skip
hostname_leaves os (name ∷ names) = do exec_task os (set_hostname os name); skip

unfoldable pub hostname_handler : Os → GNode → Io (Unit {0})
unfolding hostname_leaves
hostname_handler os node = hostname_leaves os (leaves node)
