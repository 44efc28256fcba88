-- ===== src/Disk/Fix.antt =====
-- `disk_fix` of src/disk.c.
pub mod Objects
use micro_config_drive.Base.{
  ℕ, ◌+◌, ◌-◌, ◌/◌, ◌%◌, ◌^◌, Bytes, Option, none, some, List, Bool, true, false, if◌then◌else◌,
}
use micro_config_drive.System.{
  Os, Call, parted, set_handler, device_get, disk_new, last_partition_num, get_partition,
  partition_get_path, geometry_new, constraint_new, set_partition_geom, disk_commit,
  constraint_destroy, geometry_destroy,
}
use micro_config_drive.System.Io.{World, Io, ◌>>=◌, ◌>>◌, pure, call}
use micro_config_drive.Disk.{Blocks}
use micro_config_drive.Disk.Exceptions.{Parts, Partition, Device, Exception, handle_all}
use micro_config_drive.Disk.Rootfs.{
  async_task_exec, with_object, resize_command, resize_rootfs_blk_device,
}

-- `(-PED_MEGABYTE_SIZE) / dev->sector_size + dev->length`, as the bits of a 64-bit `PedSector`.
unfoldable pub end_sector : Device → ℕ
end_sector dev = (dev.size + (2 ^ 64 - 1048576 / dev.sector_size)) % 2 ^ 64

unfoldable pub resize_partition : Os → Parts → Option Bytes → Io Bool
resize_partition os p none = pure false
resize_partition os p (some path) = do async_task_exec os (resize_command p path); pure true

-- With the constraint.
unfoldable pub set_geometry : Os → Parts → Partition → ℕ → Io Bool
set_geometry os p part end = do
  set ←
      call (parted (set_partition_geom part.num part.first end)) (λ t. p.geom_set t part.first end)
  if set
      then (do
        written ← call (parted disk_commit) p.committed
        if written
            then (do
              path ← call (parted (partition_get_path part.num)) (λ t. p.partition_path t part.num)
              resize_partition os p path)
            else pure false)
      else pure false

-- The constraint, and the label `fail2`.
unfoldable pub fix_constrained : Os → Parts → Partition → ℕ → Io Bool
fix_constrained os p part end =
    with_object (λ made. parted (constraint_new part.first end made)) (parted constraint_destroy)
      p.constraint_made (set_geometry os p part end)

-- The last partition, and the label `fail1`.
unfoldable pub fix_last : Os → Parts → Device → Option Partition → Io Bool
fix_last os p dev none = pure false
fix_last os p dev (some part) =
    let end = end_sector dev in
    with_object (λ made. parted (geometry_new end made)) (parted geometry_destroy)
      (λ t. p.geometry_made t end) (fix_constrained os p part end)

-- With a disk, by `resize_fs`: where no exception was fixed, the partition of the root file system is grown
-- over the free space behind it.
unfoldable pub fix_opened : Os → Blocks → Parts → Device → Bool → Io Bool
fix_opened os b p dev false = resize_rootfs_blk_device os b p
fix_opened os b p dev true = do
  last ← call (parted last_partition_num) p.last_num
  part ← call (parted (get_partition last)) (λ t. p.partition t last)
  fix_last os p dev part

-- With the exceptions that `ped_disk_new` raises. `resize_fs` is false before.
unfoldable pub disk_raised : Os → Blocks → Parts → Device → List Exception → Io Bool
disk_raised os b p dev raised = do
  let (handlings, resize_fs) = handle_all raised false
  made ← call (parted disk_new) (λ t. p.disk_made t handlings)
  if made then fix_opened os b p dev resize_fs else pure false

unfoldable pub fix_device : Os → Blocks → Parts → Option Device → Io Bool
fix_device os b p none = pure false
fix_device os b p (some dev) = do
  raised ← (λ w. (p.exceptions w.trace, w))
  disk_raised os b p dev raised

-- The caller passes a path that is not NULL.
unfoldable pub disk_fix : Os → Blocks → Parts → Bytes → Io Bool
disk_fix os b p disk_path = do
  call (parted set_handler) (λ t. tt)
  dev ← call (parted (device_get disk_path)) (λ t. p.device t disk_path)
  fix_device os b p dev
