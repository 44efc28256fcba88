-- ===== src/Start/Pending/Disks.antt =====
-- The work on the disk hands no function to the pool of threads.
use micro_config_drive.Base.{Bytes, Option, none, some, List, Bool, true, false, arith}
use micro_config_drive.System.{
  crash, Os, stat, blkid, devno_to_devname, parted, last_partition_num, get_partition,
  partition_get_path,
}
use micro_config_drive.System.Views.{Keeps, Keeps-pure, Keeps-bind, the_pool, pool-call, view_rules}
use micro_config_drive.Disk.{
  Blocks, blk_device_by_path, devname_of, disk_by_path, wholedisk_of, whole_name,
}
use micro_config_drive.Disk.Lookups.{KeptByLookups, get_rootfs_partition-Keeps}
use micro_config_drive.Disk.Exceptions.{Parts, Partition, Device, Exception}
use micro_config_drive.Disk.Rootfs.{
  async_task_exec, resize_known, maximize, constrain, grow_to, grow_into, resize_found,
  resize_rootfs_blk_device,
}
use micro_config_drive.Disk.Fix.{
  resize_partition, set_geometry, fix_constrained, fix_last, fix_opened, disk_raised, fix_device,
  disk_fix,
}

lookups-pool : KeptByLookups the_pool
lookups-pool = record {
  by_stat = λ path answer. pool-call (stat path) answer;
  by_name = λ n answer. pool-call (blkid (devno_to_devname n)) answer;
  by_last = λ answer. pool-call (parted last_partition_num) answer;
  by_partition = λ i answer. pool-call (parted (get_partition i)) answer;
  by_path = λ i answer. pool-call (parted (partition_get_path i)) answer;
  by_crash = pool-call crash (λ t. tt);
}

pub disk_by_path-pool :
    (os : Os) (b : Blocks) (path : Bytes) → Keeps the_pool (disk_by_path os b path)
unfolding disk_by_path wholedisk_of whole_name
disk_by_path-pool os b path = record { same = λ w. ground arith }

resize_found-pool :
    (os : Os) (b : Blocks) (p : Parts) (part : Option Partition)
    → Keeps the_pool (resize_found os b p part)
unfolding resize_found grow_into grow_to constrain maximize resize_known async_task_exec
    blk_device_by_path devname_of
resize_found-pool os b p part = record { same = λ w. ground arith }

resize_rootfs-pool :
    (os : Os) (b : Blocks) (p : Parts) → Keeps the_pool (resize_rootfs_blk_device os b p)
unfolding resize_rootfs_blk_device
resize_rootfs-pool os b p =
    Keeps-bind _ _ (get_rootfs_partition-Keeps lookups-pool os b p) (resize_found-pool os b p)

fix_last-pool :
    (os : Os) (p : Parts) (dev : Device) (part : Option Partition)
    → Keeps the_pool (fix_last os p dev part)
unfolding fix_last fix_constrained set_geometry resize_partition async_task_exec
fix_last-pool os p dev part = record { same = λ w. ground arith }

fix_opened-pool :
    (os : Os) (b : Blocks) (p : Parts) (dev : Device) (resize_fs : Bool)
    → Keeps the_pool (fix_opened os b p dev resize_fs)
unfolding fix_opened
fix_opened-pool os b p dev false = resize_rootfs-pool os b p
fix_opened-pool os b p dev true = search (view_rules, fix_last-pool) depth 12

disk_raised-pool :
    (os : Os) (b : Blocks) (p : Parts) (dev : Device) (raised : List Exception)
    → Keeps the_pool (disk_raised os b p dev raised)
unfolding disk_raised
disk_raised-pool os b p dev raised = search (view_rules, fix_opened-pool) depth 12

fix_device-pool :
    (os : Os) (b : Blocks) (p : Parts) (dev : Option Device)
    → Keeps the_pool (fix_device os b p dev)
unfolding fix_device
fix_device-pool os b p none = Keeps-pure false
fix_device-pool os b p (some dev) = record {
  same = λ w. (disk_raised-pool os b p dev (p.exceptions w.trace)).same w;
}

pub disk_fix-pool :
    (os : Os) (b : Blocks) (p : Parts) (path : Bytes) → Keeps the_pool (disk_fix os b p path)
unfolding disk_fix
disk_fix-pool os b p path = search (view_rules, fix_device-pool) depth 12
