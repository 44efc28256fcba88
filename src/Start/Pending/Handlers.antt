-- ===== src/Start/Pending/Handlers.antt =====
-- The handlers of the metadata hand no function to the pool of threads.
use micro_config_drive.Base.{Bytes, none, some, [], ◌∷◌, refl, arith, data_eq, str}
use micro_config_drive.System.{Os}
use micro_config_drive.System.Drive.{
  DataSource, config_drive, no_source, MetadataFunc, not_implemented, uuid, keys, hostname,
  public_keys, files,
}
use micro_config_drive.System.Io.{◌>>◌, Io, skip}
use micro_config_drive.System.Views.{
  Keeps, Keeps-bind, Keeps-pure, Keeps-seq, Keeps-if, the_pool, view_rules, pool-OnlyCalls,
}
use micro_config_drive.GNode.{GNode, null, gnode, node_data}
use micro_config_drive.Shell.{exec_task}
use micro_config_drive.Files.{
  write_file, write_open_file, copy_file, copy_to, copy_into, copy_open_files, make_dir,
}
use micro_config_drive.Boot.{
  save_instance_id, is_first_boot, get_boot_id, mark_first_boot, compare_boot_id,
}
use micro_config_drive.SshKeys.Variables.{write_ssh_keys-OnlyCalls}
use micro_config_drive.OpenStack.Handlers.{
  unless_null, hostname_command, write_key, openstack_metadata_public_keys, openstack_metadata_keys,
  openstack_metadata_hostname, copy_content, copy_pair, copy_files, openstack_metadata_files,
  openstack_metadata_uuid, run_func, source_path,
}

pub save_instance_id-pool : (os : Os) (id : Bytes) → Keeps the_pool (save_instance_id os id)
unfolding save_instance_id write_file write_open_file
save_instance_id-pool os id = record { same = λ w. ground arith }

pub get_boot_id-pool : (os : Os) → Keeps the_pool (get_boot_id os)
unfolding get_boot_id
get_boot_id-pool os = record { same = λ w. ground arith }

pub is_first_boot-pool : (os : Os) → Keeps the_pool (is_first_boot os)
unfolding is_first_boot mark_first_boot compare_boot_id get_boot_id write_file write_open_file
is_first_boot-pool os = record { same = λ w. ground arith }

pub copy_file-pool : (os : Os) (src dest : Bytes) → Keeps the_pool (copy_file os src dest)
unfolding copy_file copy_to copy_into copy_open_files make_dir
copy_file-pool os src dest = record { same = λ w. ground arith }

pub write_key-pool : (os : Os) (node : GNode) → Keeps the_pool (write_key os node)
unfolding write_key
write_key-pool os null = search view_rules
write_key-pool os (gnode none below next) =
    search (view_rules, pool-OnlyCalls, write_ssh_keys-OnlyCalls)
write_key-pool os (gnode (some key) below next) =
    search (view_rules, pool-OnlyCalls, write_ssh_keys-OnlyCalls)

pub public_keys-pool :
    (os : Os) (node : GNode) → Keeps the_pool (openstack_metadata_public_keys os node)
unfolding openstack_metadata_public_keys
public_keys-pool os null = Keeps-pure tt
public_keys-pool os (gnode none below next) = public_keys-pool os next
public_keys-pool os (gnode (some name) below next) =
    Keeps-seq (write_key-pool os below) (public_keys-pool os next)

pub keys-pool : (os : Os) (node : GNode) → Keeps the_pool (openstack_metadata_keys os node)
unfolding openstack_metadata_keys
keys-pool os null = Keeps-pure tt
keys-pool os (gnode name below next) =
    Keeps-seq
      (Keeps-if (data_eq name (str "data")) (write_key os below) skip (write_key-pool os below)
        (Keeps-pure tt))
      (keys-pool os next)

pub exec_task-pool : (os : Os) (command : Bytes) → Keeps the_pool (exec_task os command)
unfolding exec_task
exec_task-pool os command = search view_rules

unless_null-pool :
    (node : GNode) (m : Io (Unit {0})) → Keeps the_pool m → Keeps the_pool (unless_null node m)
unless_null-pool null m p = search view_rules
unless_null-pool (gnode name below next) m p = p

pub hostname-pool : (os : Os) (node : GNode) → Keeps the_pool (openstack_metadata_hostname os node)
unfolding openstack_metadata_hostname
hostname-pool os node =
    let set : Keeps the_pool (do exec_task os (hostname_command os (node_data node)); skip) =
      search (view_rules, exec_task-pool) in
    Keeps-bind _ _ (is_first_boot-pool os)
      (λ first. Keeps-if first _ _ (unless_null-pool node _ set) (Keeps-pure tt))

pub copy_content-pool :
    (os : Os) (source : DataSource) (content_path path : Bytes)
    → Keeps the_pool (copy_content os source content_path path)
unfolding copy_content
copy_content-pool os config_drive content_path path = record {
  same = λ w. (copy_file-pool os (source_path w.drive content_path) path).same w;
}
copy_content-pool os no_source content_path path = record {
  same = (copy_file-pool os content_path path).same;
}

pub copy_pair-pool : (os : Os) (paths : Bytes × Bytes) → Keeps the_pool (copy_pair os paths)
unfolding copy_pair
copy_pair-pool os ([], path) = record { same = λ w. refl }
copy_pair-pool os (c ∷ cs, []) = record { same = λ w. refl }
copy_pair-pool os (c ∷ cs, p ∷ ps) = record {
  same = λ w. (copy_content-pool os w.drive.data_source (c ∷ cs) (p ∷ ps)).same w;
}

pub copy_files-pool :
    (os : Os) (node : GNode) (paths : Bytes × Bytes) → Keeps the_pool (copy_files os node paths)
unfolding copy_files
copy_files-pool os null paths = Keeps-pure tt
copy_files-pool os (gnode name below next) paths =
    search (view_rules, copy_pair-pool, copy_files-pool os next)

pub uuid-pool : (os : Os) (node : GNode) → Keeps the_pool (openstack_metadata_uuid os node)
unfolding openstack_metadata_uuid
uuid-pool os null = search view_rules
uuid-pool os (gnode none below next) = search view_rules
uuid-pool os (gnode (some id) below next) = search (view_rules, save_instance_id-pool)

pub run_func-pool :
    (os : Os) (func : MetadataFunc) (node : GNode) → Keeps the_pool (run_func os func node)
unfolding run_func openstack_metadata_files
run_func-pool os not_implemented node = unless_null-pool node _ (Keeps-pure tt)
run_func-pool os uuid node = uuid-pool os node
run_func-pool os keys node = keys-pool os node
run_func-pool os hostname node = hostname-pool os node
run_func-pool os public_keys node = unless_null-pool node _ (public_keys-pool os node)
run_func-pool os files node = copy_files-pool os node ([], [])
