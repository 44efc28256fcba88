-- ===== src/Lib.antt =====
-- Micro-config-drive: user data and metadata of a cloud instance are turned into users, files, services
-- and commands. This library models the program's own logic and proves what it does.
--
-- The parts of the program and how they interact. src/userdata.c looks at the first line of a file and
-- hands the file to src/interpreters/cloud_config.c or to src/interpreters/shell_script.c. The former
-- builds a tree from the events of libyaml, simplifies it, and calls for each block of the document the
-- handler of that name in src/ccmodules. The handlers read their block with the functions of
-- cloud_config.c and act through the helpers of src/lib.c. Handlers share static variables: whether this
-- is the first boot, whether the network was waited for, and the name of the current user.
-- src/async_task.c runs functions in threads and waits for the commands that they start.
-- src/main.c is the program ucd: by its options it takes metadata and user data from a datasource, which
-- is src/datasources/openstack.c, or from files, and hands the check of the root disk (src/disk.c) and the
-- functions for the keys of the metadata to the threads. The metadata are a JSON document, of which
-- src/json.c makes a tree of the same kind. src/ucd-data-fetch.c and the older src/ucd-aws.c are programs
-- of their own, which fetch the user data of a cloud service and start ucd.
--
-- Which module models what:
--   * Base: shared names, numbers, lists and C strings. Strtol: `strtol` of the C library.
--   * System: the calls that the program makes (Call), the answers to them (Os, a parameter whose fields
--     are functions of the calls made before), the static variables (World) and actions (System.Io).
--     System.Drive: the static variables of src/datasources/openstack.c, a part of World.
--     System.Calls, System.Views and System.Ensures: actions that leave the variables alone, or a part of
--     the world, and what holds behind an action that returns true, each with rules for `search`.
--   * GNode: the trees of GLib, as a node's data, its first child and its next sibling.
--   * Shell: `exec_task` of src/lib.c, and commands in a row.
--   * Files: `make_dir`, `write_file`, `chown_path`, `write_sudo_directives`, `copy_file` of src/lib.c.
--   * Boot: `get_boot_id`, `save_instance_id`, `is_first_boot` of src/lib.c.
--   * Mounts: `mount_filesystem`, `umount_filesystem` of src/lib.c.
--   * SshKeys: `write_ssh_keys` of src/lib.c.
--   * CloudConfig: `cloud_config_bool`, `cloud_config_int_base`, `cloud_config_find` and the global data
--     of src/interpreters/cloud_config.c. Yaml: `cloud_config_parse`. Simplify: `cloud_config_simplify`.
--   * Userdata: `userdata_process_file`, `shell_script_main`, `cloud_config_main` and
--     `cloud_config_process`, with the table of src/ccmodules.h. Userdata.Runcmd, Users,
--     Files, Groups and Services: documents of one block, from the events of libyaml to the calls.
--   * Modules: the handlers of src/ccmodules: Groups, Commands (runcmd, fbootcmd, service, hostname),
--     Network (wait_for_network, packages, package_upgrade), Envar, Keys (ssh_authorized_keys), Users and
--     WriteFiles. What a block asks for is written apart from the code in Users.Plan and Users.Steps,
--     WriteFiles.Plan, Userdata.Groups and Userdata.Services.
--   * Fetch: src/ucd-data-fetch.c: `fgets` (Fetch.Stream), the loops around `gethostbyname`
--     and `connect` (Fetch.Connect), `parse_headers`, `write_lines` and `main`.
--   * AsyncTask: src/async_task.c, as a state and the steps of its threads in any order.
--   * Aws: src/ucd-aws.c: its headers and connection loops, and `main` in Aws.Program.
--     Fetch.Main.Executed, Fetch.Main.Launch and Aws.Launch: when the two programs start ucd.
--   * Json: src/json.c, on the documents of json-glib. Json.Flat: the order of what it appends.
--   * Disk: src/disk.c: the questions to libblkid (Disk), the exceptions of libparted (Disk.Exceptions),
--     `get_rootfs_partition` and `resize_rootfs_blk_device` (Disk.Rootfs), and `disk_fix` (Disk.Fix).
--   * OpenStack: src/datasources/openstack.c: the functions for one key (OpenStack.Handlers), the tree and
--     the table of these functions (OpenStack.Tasks), `openstack_init`, `openstack_start` and the config
--     drive (OpenStack.Datasource), and what is done once in each boot with `openstack_finish`
--     (OpenStack.Process). Its other children hold proofs.
--   * Start: src/main.c: the options (Start.Options), src/default_user.h (Start.DefaultUser), and `main`.
--     Start.Pending and Start.Pool: which actions leave the pool of threads alone, and the account of it.
--   * Tests: a machine, documents and responses, and an application of each theorem to them.
--
-- Conventions. A function of the source keeps its name. A callback on the children of a node, called by
-- `g_node_children_foreach`, is a function on the list of siblings, whose name ends in `_items`. A text
-- is the list of its bytes without the NUL; a buffer of fixed size clips it (`clip`). A boolean result
-- that says success is a Bool; -1 and NULL are `none`. An uninitialised variable that the code reads is a
-- field of Os or of Net. `none` of Fetch.Main.Ending.Exit means that the program has exited with failure.
--
-- Bounds and fuel. The parser of documents, the header parsers and the copying of lines run on fuel; one
-- round more than there are events or bytes is enough, since each round takes one at least, and their
-- callers give that much. The loop that waits for a network has 3001 rounds, more than its own limit lets
-- it have. The counters of the connection loops are recursion on the number of failures that are left, but
-- for those of src/ucd-aws.c, which have no limit: there `main` takes the fuel, and stops where it runs out.
-- `openstack_init` has eight rounds. The length of the HTTP content and a sector of a disk are 64-bit
-- words that wrap.
--
-- Not modelled: logging, the release of memory, failing allocations, the locks, and the standard output
-- of commands. Parameters are the kernel, the C library beyond string functions, GLib's file and process
-- functions, libyaml (its events), json-glib (its documents), libblkid and libparted (their answers),
-- `getopt_long` (the options it finds) and the programs that are started. Functions that are handed to the
-- pool of threads are kept in World. `main` lets them run between its phases, those and in the order that a
-- parameter says, and the rest where it waits for them; that two of them run at once, or one beside a phase,
-- is only modelled by AsyncTask, which has the steps of the threads in every order. Where openstack.c follows a
-- null pointer, and where libparted stops the program at one, the trace gets the entry `crash`: the program ends
-- there, and what the model does behind that entry does not happen. In the handlers of blocks the model goes on
-- at a null pointer, as the comments say there.
pub mod Base
pub mod GNode
pub mod System
pub mod Shell
pub mod Files
pub mod Boot
pub mod Strtol
pub mod CloudConfig
pub mod SshKeys
pub mod Modules
pub mod Yaml
pub mod Fetch
pub mod Simplify
pub mod AsyncTask
pub mod Mounts
pub mod Aws
pub mod Userdata
pub mod Tests
pub mod Json
pub mod OpenStack
pub mod Disk
pub mod Start
