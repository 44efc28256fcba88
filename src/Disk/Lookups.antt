-- ===== src/Disk/Lookups.antt =====
-- What `get_rootfs_partition` of src/disk.c leaves alone: any part of the world that its calls leave alone.
use micro_config_drive.Base.{ℕ, zero, suc, ◌+◌, Bytes, str, Option, none, some}
use micro_config_drive.System.{
  Os, Trace, Stat, stat, blkid, devno_to_devname, parted, last_partition_num, get_partition,
  partition_get_path,
}
use micro_config_drive.System.Io.{World, call, crashed}
use micro_config_drive.System.Views.{Keeps, Keeps-pure, Keeps-bind, Keeps-if, Keeps-option}
use micro_config_drive.Disk.{Blocks, blk_device_by_path, devname_of}
use micro_config_drive.Disk.Exceptions.{Parts, Partition}
use micro_config_drive.Disk.Rootfs.{is_rootfs, find_rootfs, rootfs_of, get_rootfs_partition}

-- The calls of a look-up keep that part.
pub record KeptByLookups {X : Type 0} (view : World → X) : Type 0 where
  pub by_stat : (path : Bytes) (answer : Trace → Option Stat) → Keeps view (call (stat path) answer)
  pub by_name :
      (n : ℕ) (answer : Trace → Option Bytes)
      → Keeps view (call (blkid (devno_to_devname n)) answer)
  pub by_last : (answer : Trace → ℕ) → Keeps view (call (parted last_partition_num) answer)
  pub by_partition :
      (i : ℕ) (answer : Trace → Option Partition)
      → Keeps view (call (parted (get_partition i)) answer)
  pub by_path :
      (i : ℕ) (answer : Trace → Option Bytes)
      → Keeps view (call (parted (partition_get_path i)) answer)
  pub by_crash : Keeps view crashed

module _ {X : Type 0} {view : World → X} (k : KeptByLookups view) where
  devname_of-Keeps : (b : Blocks) (st : Option Stat) → Keeps view (devname_of b st)
  unfolding devname_of
  devname_of-Keeps b none = Keeps-pure none
  devname_of-Keeps b (some st) = k.by_name st.dev _

  pub blk_device_by_path-Keeps :
      (os : Os) (b : Blocks) (path : Bytes) → Keeps view (blk_device_by_path os b path)
  unfolding blk_device_by_path
  blk_device_by_path-Keeps os b path = Keeps-bind _ _ (k.by_stat path _) (devname_of-Keeps b)

  find_rootfs-Keeps :
      (p : Parts) (rootfs : Bytes) (left i : ℕ) (part : Option Partition)
      → Keeps view (find_rootfs p rootfs left i part)
  unfolding find_rootfs
  find_rootfs-Keeps p rootfs zero i part = Keeps-pure part
  find_rootfs-Keeps p rootfs (suc left) i part =
      Keeps-bind _ _ (k.by_partition i (λ t. p.partition t i)) λ part'.
        Keeps-option part' _ _ (Keeps-bind _ _ k.by_crash (λ _. Keeps-pure none)) λ found.
          Keeps-bind _ _ (k.by_path i (λ t. p.partition_path t i)) λ path.
            Keeps-if (is_rootfs rootfs path) _ _ (Keeps-pure (some found))
              (find_rootfs-Keeps p rootfs left (i + 1) (some found))

  rootfs_of-Keeps : (p : Parts) (rootfs : Option Bytes) → Keeps view (rootfs_of p rootfs)
  unfolding rootfs_of
  rootfs_of-Keeps p none = Keeps-pure none
  rootfs_of-Keeps p (some rootfs) = search (Keeps-bind, k.by_last, find_rootfs-Keeps) depth 12

  pub get_rootfs_partition-Keeps :
      (os : Os) (b : Blocks) (p : Parts) → Keeps view (get_rootfs_partition os b p)
  unfolding get_rootfs_partition
  get_rootfs_partition-Keeps os b p =
      Keeps-bind _ _ (blk_device_by_path-Keeps os b (str "/")) (rootfs_of-Keeps p)
