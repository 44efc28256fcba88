-- ===== src/Disk/Rootfs.antt =====
-- `get_rootfs_partition` and `resize_rootfs_blk_device` of src/disk.c.
use micro_config_drive.Base.{
  ℕ, zero, suc, ◌+◌, Bytes, str, clip, line_max, starts_with, Option, none, some, ◌++◌, Bool, true,
  false, if◌then◌else◌,
}
use micro_config_drive.System.{
  Os, Call, Trace, parted, spawn_async, last_partition_num, get_partition, partition_get_path,
  partition_by_sector, geometry_new, constraint_new, maximize_partition, disk_commit,
  constraint_destroy, geometry_destroy,
}
use micro_config_drive.System.Io.{Io, ◌>>=◌, ◌>>◌, pure, call, crashed}
use micro_config_drive.Disk.{Blocks, blk_device_by_path}
use micro_config_drive.Disk.Exceptions.{Parts, Partition}

-- `async_task_exec` of src/async_task.c: whether the command could be started. No caller reads the result. The
-- count of the running commands is that of AsyncTask.
unfoldable pub async_task_exec : Os → Bytes → Io Bool
async_task_exec os command =
    call (spawn_async (os.strescape command)) (λ t. os.async_started t (os.strescape command))

unfoldable pub resize_command : Parts → Bytes → Bytes
resize_command p path = clip line_max (p.resizefs_path ++ (str " " ++ path))

-- The test of a partition's path; without a path the partition is passed over.
abbrev pub is_rootfs : Bytes → Option Bytes → Bool
is_rootfs rootfs none = false
is_rootfs rootfs (some path) = starts_with path rootfs

-- The numbers from `i` on, of as many as are left, with the partition that was looked at last. With a number
-- that no partition has, `ped_partition_get_path` gets NULL, and libparted stops the program.
unfoldable pub find_rootfs : Parts → Bytes → ℕ → ℕ → Option Partition → Io (Option Partition)
find_rootfs p rootfs zero i part = pure part
find_rootfs p rootfs (suc left) i part = do
  part' ← call (parted (get_partition i)) (λ t. p.partition t i)
  elim part' [
    | none ↦ do crashed; pure none
    | some found ↦ do
      path ← call (parted (partition_get_path i)) (λ t. p.partition_path t i)
      let more = find_rootfs p rootfs left (i + 1) (some found)
      if is_rootfs rootfs path then pure (some found) else more
  ]

unfoldable pub rootfs_of : Parts → Option Bytes → Io (Option Partition)
rootfs_of p none = pure none
rootfs_of p (some rootfs) = do
  last ← call (parted last_partition_num) p.last_num
  find_rootfs p rootfs last 1 none

unfoldable pub get_rootfs_partition : Os → Blocks → Parts → Io (Option Partition)
get_rootfs_partition os b p = do rootfs ← blk_device_by_path os b (str "/"); rootfs_of p rootfs

unfoldable pub resize_known : Os → Parts → Option Bytes → Io Bool
resize_known os p none = pure false
resize_known os p (some path) = do async_task_exec os (resize_command p path); pure true

-- With the constraint: a commit that fails only writes a message.
unfoldable pub maximize : Os → Blocks → Parts → Partition → Io Bool
maximize os b p part = do
  grown ← call (parted (maximize_partition part.num)) (λ t. p.maximized t part.num)
  if grown
      then (do
        call (parted disk_commit) p.committed
        path ← blk_device_by_path os b (str "/")
        resize_known os p path)
      else pure false

-- An object of libparted that is made, used and given back; without it the result is false.
abbrev pub with_object : (Bool → Call) → Call → (Trace → Bool) → Io Bool → Io Bool
with_object new destroy answer body = do
  made ← (λ w. let made = answer w.trace in call (new made) (λ t. made) w)
  if made then (do result ← body; call destroy (λ t. tt); pure result) else pure false

-- With the geometry: the constraint, and the label `fail2`.
unfoldable pub constrain : Os → Blocks → Parts → Partition → ℕ → Io Bool
constrain os b p part end =
    with_object (λ made. parted (constraint_new part.first end made)) (parted constraint_destroy)
      p.constraint_made (maximize os b p part)

-- The geometry at the end of the free space, and the label `fail1`.
unfoldable pub grow_to : Os → Blocks → Parts → Partition → ℕ → Io Bool
grow_to os b p part end =
    with_object (λ made. parted (geometry_new end made)) (parted geometry_destroy)
      (λ t. p.geometry_made t end) (constrain os b p part end)

-- The partition behind the root file system's has to be free space.
unfoldable pub grow_into : Os → Blocks → Parts → Partition → Option Partition → Io Bool
grow_into os b p part none = pure false
grow_into os b p part (some next) =
    if next.is_freespace then grow_to os b p part next.last else pure false

unfoldable pub resize_found : Os → Blocks → Parts → Option Partition → Io Bool
resize_found os b p none = pure false
resize_found os b p (some part) = do
  next ← call (parted (partition_by_sector (part.last + 1))) (λ t. p.by_sector t (part.last + 1))
  grow_into os b p part next

unfoldable pub resize_rootfs_blk_device : Os → Blocks → Parts → Io Bool
resize_rootfs_blk_device os b p = do part ← get_rootfs_partition os b p; resize_found os b p part
