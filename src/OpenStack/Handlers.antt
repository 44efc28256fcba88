-- ===== src/OpenStack/Handlers.antt =====
-- The functions of src/datasources/openstack.c that work on one key of the metadata. Each is given the
-- first node below its key.
use micro_config_drive.Base.{
  Bytes, str, clip, data_eq, shown, line_max, path_max, Option, none, some, [], ◌∷◌, ◌++◌,
  if◌then◌else◌,
}
use micro_config_drive.System.{Os}
use micro_config_drive.System.Drive.{
  Drive, DataSource, config_drive, no_source, MetadataFunc, not_implemented, uuid, keys, hostname,
  public_keys, files,
}
use micro_config_drive.System.Io.{Io, ◌>>=◌, ◌>>◌, skip, crashed}
use micro_config_drive.GNode.{GNode, null, gnode, node_data}
use micro_config_drive.Shell.{exec_task}
use micro_config_drive.Files.{copy_file}
use micro_config_drive.Boot.{save_instance_id, is_first_boot}
use micro_config_drive.SshKeys.{write_ssh_keys}
use micro_config_drive.Modules.Keys.{default_user}

-- `write_ssh_keys` with `g_string_new (node->children->data)`, which is empty for NULL data. Without a child
-- the program crashes.
unfoldable pub write_key : Os → GNode → Io (Unit {0})
write_key os null = crashed
write_key os (gnode none below next) = do write_ssh_keys os [] default_user; skip
write_key os (gnode (some key) below next) = do write_ssh_keys os key default_user; skip

unfoldable pub openstack_metadata_public_keys : Os → GNode → Io (Unit {0})
openstack_metadata_public_keys os null = skip
openstack_metadata_public_keys os (gnode none below next) = openstack_metadata_public_keys os next
openstack_metadata_public_keys os (gnode (some name) below next) = do
  write_key os below
  openstack_metadata_public_keys os next

unfoldable pub openstack_metadata_keys : Os → GNode → Io (Unit {0})
openstack_metadata_keys os null = skip
openstack_metadata_keys os (gnode name below next) = do
  if data_eq name (str "data") then write_key os below else skip
  openstack_metadata_keys os next

unfoldable pub hostname_command : Os → Option Bytes → Bytes
hostname_command os name =
    clip line_max (os.hostnamectl_path ++ (str " set-hostname '" ++ (shown name ++ str "'")))

-- The node is NULL for a JSON null and for an empty list: the program follows the pointer, and crashes.
abbrev pub unless_null : GNode → Io (Unit {0}) → Io (Unit {0})
unless_null null m = crashed
unless_null (gnode name below next) m = m

-- The node is followed on the first boot only.
unfoldable pub openstack_metadata_hostname : Os → GNode → Io (Unit {0})
openstack_metadata_hostname os node = do
  first ← is_first_boot os
  if first
      then unless_null node (do exec_task os (hostname_command os (node_data node)); skip)
      else skip

-- The buffer of a text below a key: a key with nothing below it leaves it as it was, and so does a NULL text,
-- which `g_strlcpy` refuses.
abbrev pub text_below : Bytes → GNode → Bytes
text_below old null = old
text_below old (gnode none below next) = old
text_below old (gnode (some text) below next) = clip line_max text

-- `content_path` and `path`, behind the tests of a node's data.
unfoldable pub take_file_key : Option Bytes → GNode → Bytes × Bytes → Bytes × Bytes
take_file_key name below (content_path, path) =
    if data_eq name (str "content_path")
    then (text_below content_path below, path)
    else if data_eq name (str "path")
    then (content_path, text_below path below)
    else ([], [])

abbrev pub source_path : Drive → Bytes → Bytes
source_path d content_path =
    clip path_max (d.config_drive_mount_path ++ (str "/openstack/" ++ content_path))

-- The file in the drive, or the one with that very name.
unfoldable pub copy_content : Os → DataSource → Bytes → Bytes → Io (Unit {0})
copy_content os config_drive content_path path w =
    (do copy_file os (source_path w.drive content_path) path; skip) w
copy_content os no_source content_path path w = (do copy_file os content_path path; skip) w

-- Once both texts are there.
unfoldable pub copy_pair : Os → Bytes × Bytes → Io (Unit {0})
copy_pair os ([], path) w = skip w
copy_pair os (c ∷ cs, []) w = skip w
copy_pair os (c ∷ cs, p ∷ ps) w = copy_content os w.drive.data_source (c ∷ cs) (p ∷ ps) w

unfoldable pub copy_files : Os → GNode → Bytes × Bytes → Io (Unit {0})
copy_files os null paths = skip
copy_files os (gnode name below next) paths = do
  let paths' = take_file_key name below paths
  copy_pair os paths'
  copy_files os next paths'

unfoldable pub openstack_metadata_files : Os → GNode → Io (Unit {0})
openstack_metadata_files os node = copy_files os node ([], [])

-- Without a node the program crashes, and in `strlen` without data.
unfoldable pub openstack_metadata_uuid : Os → GNode → Io (Unit {0})
openstack_metadata_uuid os null = crashed
openstack_metadata_uuid os (gnode none below next) = crashed
openstack_metadata_uuid os (gnode (some id) below next) = do save_instance_id os id; skip

-- The function that a pointer of the table names. Two of them follow the pointer to the node at their
-- beginning.
unfoldable pub run_func : Os → MetadataFunc → GNode → Io (Unit {0})
run_func os not_implemented node = unless_null node skip
run_func os uuid node = openstack_metadata_uuid os node
run_func os keys node = openstack_metadata_keys os node
run_func os hostname node = openstack_metadata_hostname os node
run_func os public_keys node = unless_null node (openstack_metadata_public_keys os node)
run_func os files node = openstack_metadata_files os node
