-- ===== src/Start/Pending.antt =====
-- The functions that the pool of threads runs hand on no others, and neither does the end of a datasource.
pub mod Handlers
pub mod Directives
pub mod Accounts
pub mod Scripts
pub mod Mounts
pub mod Drives
pub mod Disks
use micro_config_drive.Base.{
  ℕ, zero, suc, ◌+◌, Bytes, Option, none, some, List, [], ◌∷◌, ◌++◌, Bool, true, false,
  if◌then◌else◌, ◌≡◌, refl, ◌∙◌, ap, arith, data_eq, str, clip, line_max,
}
use micro_config_drive.System.{Os, Stat}
use micro_config_drive.System.Drive.{
  DataSource, config_drive, no_source, MetadataFunc, not_implemented, uuid, keys, hostname,
  public_keys, files, Task, metadata, fixdisk,
}
use micro_config_drive.System.Io.{World, Io, ◌>>=◌, ◌>>◌, pure, skip, call}
use micro_config_drive.System.Views.{
  Keeps, Keeps-pure, Keeps-seq, Keeps-if, the_pool, pool-call, pool-open, view_rules,
  pool-OnlyCalls,
}
use micro_config_drive.GNode.{GNode, null, gnode, node_data}
use micro_config_drive.Shell.{exec_task}
use micro_config_drive.Files.{
  write_file, write_open_file, copy_file, copy_to, copy_into, copy_open_files, make_dir, create_new,
  mode_600,
}
use micro_config_drive.Files.Variables.{write_file-OnlyCalls, make_dir-OnlyCalls}
use micro_config_drive.Boot.{
  save_instance_id, is_first_boot, get_boot_id, mark_first_boot, compare_boot_id,
}
use micro_config_drive.SshKeys.{write_ssh_keys}
use micro_config_drive.SshKeys.Variables.{write_ssh_keys-OnlyCalls}
use micro_config_drive.Modules.Keys.{default_user}
use micro_config_drive.OpenStack.Handlers.{
  write_key, openstack_metadata_public_keys, openstack_metadata_keys, openstack_metadata_hostname,
  hostname_command, copy_content, copy_pair, take_file_key, copy_files, openstack_metadata_files,
  openstack_metadata_uuid, run_func, source_path,
}
use micro_config_drive.Mounts.{umount_filesystem}
use micro_config_drive.Disk.{
  Blocks, blk_device_by_path, devname_of, disk_by_path, wholedisk_of, whole_name,
}
use micro_config_drive.Disk.Exceptions.{Parts, Partition, Device, Exception}
use micro_config_drive.Disk.Rootfs.{
  async_task_exec, find_rootfs, rootfs_of, get_rootfs_partition, resize_known, maximize, constrain,
  grow_to, grow_into, resize_found, resize_rootfs_blk_device,
}
use micro_config_drive.Disk.Fix.{
  resize_partition, set_geometry, fix_constrained, fix_last, fix_opened, disk_raised, fix_device,
  disk_fix,
}
use micro_config_drive.OpenStack.{Host}
use micro_config_drive.OpenStack.Process.{finish_source, openstack_finish, release}
use micro_config_drive.OpenStack.Ends.{umount_filesystem-OnlyCalls, release_lem}
use micro_config_drive.Start.{
  Computer, fix_found, async_fixdisk, run_task, run_tasks, async_task_finish, finish_handled, apply,
  process,
}
use micro_config_drive.Start.Options.{Settings, settings}
use micro_config_drive.Start.Pending.Handlers.{run_func-pool}
use micro_config_drive.Start.Pending.Disks.{disk_by_path-pool, disk_fix-pool}

fix_found-pool : (c : Computer) (disk : Option Bytes) → Keeps the_pool (fix_found c disk)
unfolding fix_found
fix_found-pool c none = Keeps-pure tt
fix_found-pool c (some disk) = search (view_rules, disk_fix-pool)

async_fixdisk-pool : (c : Computer) → Keeps the_pool (async_fixdisk c)
unfolding async_fixdisk
async_fixdisk-pool c = search (view_rules, disk_by_path-pool, fix_found-pool)

pub run_task-pool : (c : Computer) (task : Task) → Keeps the_pool (run_task c task)
unfolding run_task
run_task-pool c (metadata func node) = run_func-pool c.host.os func node
run_task-pool c fixdisk = async_fixdisk-pool c

umount-pool :
    (h : Host) (mountdir : Bytes) (loop_device : Option Bytes)
    → Keeps the_pool (umount_filesystem h.os h.devices mountdir loop_device)
umount-pool h mountdir loop_device =
    pool-OnlyCalls _ (umount_filesystem-OnlyCalls h.os h.devices mountdir loop_device)

finish_source-pool : (h : Host) (source : DataSource) → Keeps the_pool (finish_source h source)
unfolding finish_source
finish_source-pool h no_source = Keeps-pure tt
finish_source-pool h config_drive = record {
  same =
      λ w. (umount-pool h w.drive.config_drive_mount_path w.drive.config_drive_loop_device).same w;
}

pub finish_handled-pool : (h : Host) (handled : Bool) → Keeps the_pool (finish_handled h handled)
unfolding finish_handled openstack_finish
finish_handled-pool h false = Keeps-pure tt
finish_handled-pool h true = record {
  same = λ w.
      let v = (finish_source h w.drive.data_source w).1 in
      ap the_pool (release_lem v) ∙ (finish_source-pool h w.drive.data_source).same w;
}
