-- ===== src/Disk.antt =====
-- src/disk.c: what it asks libblkid, and its work on the partitions of the root disk with libparted.
pub mod Exceptions
pub mod Rootfs
pub mod Fix
pub mod Search
pub mod Lookups
use micro_config_drive.Base.{ℕ, Bytes, Option, none, some, Bool, true, false, if◌then◌else◌}
use micro_config_drive.System.{
  Os, Trace, Stat, stat, blkid, get_cache, probe_all, find_label, dev_devname, devno_to_devname,
  devno_to_wholedisk, new_probe, enable_partitions, do_fullprobe, lookup_type, free_probe,
}
use micro_config_drive.System.Io.{Io, ◌>>=◌, ◌>>◌, pure, call}

-- The answers of libblkid: true where a function returns 0, or a pointer that is not NULL.
pub record Blocks : Type 0 where
  pub cache_done : Trace → Bool
  pub probe_all_done : Trace → Bool
  pub labelled : Trace → Bytes → Bool
  pub devname : Trace → Option Bytes
  pub devno_name : Trace → ℕ → Option Bytes
  pub wholedisk : Trace → ℕ → Option ℕ
  pub probe_made : Trace → Bytes → Bool
  pub enable_done : Trace → Bool
  pub fullprobe_done : Trace → Bool
  pub type_value : Trace → Option Bytes

unfoldable pub devname_of : Blocks → Option Stat → Io (Option Bytes)
devname_of b none = pure none
devname_of b (some st) = call (blkid (devno_to_devname st.dev)) (λ t. b.devno_name t st.dev)

-- A NULL path ends both functions; no caller passes one.
unfoldable pub blk_device_by_path : Os → Blocks → Bytes → Io (Option Bytes)
blk_device_by_path os b path = do st ← call (stat path) (λ t. os.stat_of t path); devname_of b st

unfoldable pub whole_name : Blocks → Option ℕ → Io (Option Bytes)
whole_name b none = pure none
whole_name b (some disk) = call (blkid (devno_to_devname disk)) (λ t. b.devno_name t disk)

unfoldable pub wholedisk_of : Blocks → Option Stat → Io (Option Bytes)
wholedisk_of b none = pure none
wholedisk_of b (some st) = do
  disk ← call (blkid (devno_to_wholedisk st.dev)) (λ t. b.wholedisk t st.dev)
  whole_name b disk

unfoldable pub disk_by_path : Os → Blocks → Bytes → Io (Option Bytes)
disk_by_path os b path = do st ← call (stat path) (λ t. os.stat_of t path); wholedisk_of b st

-- `*device`, which stays NULL where the function returns false.
unfoldable pub disk_by_label : Blocks → Bytes → Io (Option Bytes)
disk_by_label b label = do
  cached ← call (blkid get_cache) b.cache_done
  if cached
      then (do
        probed ← call (blkid probe_all) b.probe_all_done
        if probed
            then (do
              found ← call (blkid (find_label label)) (λ t. b.labelled t label)
              if found then call (blkid dev_devname) b.devname else pure none)
            else pure none)
      else pure none

-- The part of `type_by_device` between the probe's making and its release.
unfoldable pub probe_type : Blocks → Io (Option Bytes)
probe_type b = do
  enabled ← call (blkid enable_partitions) b.enable_done
  if enabled
      then (do
        probed ← call (blkid do_fullprobe) b.fullprobe_done
        if probed then call (blkid lookup_type) b.type_value else pure none)
      else pure none

unfoldable pub type_by_device : Blocks → Bytes → Io (Option Bytes)
type_by_device b device = do
  made ← call (blkid (new_probe device)) (λ t. b.probe_made t device)
  if made
      then (do result ← probe_type b; call (blkid free_probe) (λ t. tt); pure result)
      else pure none
