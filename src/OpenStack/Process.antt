-- ===== src/OpenStack/Process.antt =====
-- What src/datasources/openstack.c does once in each boot, with the marks that say so, its end, and
-- `openstack_process_config_drive`.
use micro_config_drive.Base.{
  Bytes, str, data_eq, clip, path_max, Option, none, some, [], ◌∷◌, Bool, true, false,
  if◌then◌else◌,
}
use micro_config_drive.System.{Stat, stat, read_file, remove}
use micro_config_drive.System.Drive.{DataSource, config_drive, no_source}
use micro_config_drive.System.Io.{Io, ◌>>=◌, ◌>>◌, pure, skip, call, crashed}
use micro_config_drive.GNode.{null}
use micro_config_drive.Files.{write_file, create_new, mode_600}
use micro_config_drive.Boot.{get_boot_id}
use micro_config_drive.Mounts.{umount_filesystem}
use micro_config_drive.Disk.{disk_by_label}
use micro_config_drive.OpenStack.{Host, change, the_drive, metadata_id_file, user_data_id_file}
use micro_config_drive.OpenStack.Tasks.{openstack_metadata_free_options}
use micro_config_drive.OpenStack.Datasource.{
  openstack_start, openstack_process_config_drive_metadata, openstack_process_config_drive_userdata,
}

-- Whether the id that was read is that of this boot.
unfoldable pub same_boot : Host → Option Bytes → Io Bool
same_boot h none = pure false
same_boot h (some id) = do boot_id ← get_boot_id h.os; pure (data_eq boot_id id)

unfoldable pub read_mark : Host → Bytes → Option Stat → Io Bool
read_mark h path none = pure false
read_mark h path (some st) = do
  id ← call (read_file path) (λ t. h.os.contents t path)
  same_boot h id

-- Whether the file at `path` holds the id of this boot.
unfoldable pub marked : Host → Bytes → Io Bool
marked h path = do found ← call (stat path) (λ t. h.os.stat_of t path); read_mark h path found

-- With no boot id the program crashes in `strlen`.
unfoldable pub write_mark : Host → Bytes → Option Bytes → Io (Unit {0})
write_mark h path none = crashed
write_mark h path (some id) = do write_file h.os id path create_new mode_600; skip

unfoldable pub mark : Host → Bytes → Io (Unit {0})
mark h path = do boot_id ← get_boot_id h.os; write_mark h path boot_id

abbrev pub cache_metadata : Io (Unit {0})
cache_metadata = change (λ d. record d { cache_metadata_id = true })

abbrev pub cache_user_data : Io (Unit {0})
cache_user_data = change (λ d. record d { cache_user_data_id = true })

-- Behind the drive's metadata.
unfoldable pub metadata_processed : Host → Bool → Io Bool
metadata_processed h false = pure false
metadata_processed h true = do cache_metadata; mark h (metadata_id_file h.os); pure true

unfoldable pub metadata_source : Host → DataSource → Io Bool
metadata_source h no_source = pure false
metadata_source h config_drive = do
  done ← openstack_process_config_drive_metadata h
  metadata_processed h done

unfoldable pub metadata_unless : Host → Bool → Io Bool
metadata_unless h true = do cache_metadata; pure true
metadata_unless h false = do d ← the_drive; metadata_source h d.data_source

unfoldable pub metadata_uncached : Host → Bool → Io Bool
metadata_uncached h true = pure true
metadata_uncached h false = do done ← marked h (metadata_id_file h.os); metadata_unless h done

unfoldable pub openstack_process_metadata : Host → Io Bool
openstack_process_metadata h = do d ← the_drive; metadata_uncached h d.cache_metadata_id

-- The user data of the drive are marked also where they could not be processed.
unfoldable pub userdata_source : Host → DataSource → Io Bool
userdata_source h no_source = pure false
userdata_source h config_drive = do
  openstack_process_config_drive_userdata h
  cache_user_data
  mark h (user_data_id_file h.os)
  pure true

unfoldable pub userdata_unless : Host → Bool → Io Bool
userdata_unless h true = do cache_user_data; pure true
userdata_unless h false = do d ← the_drive; userdata_source h d.data_source

unfoldable pub userdata_uncached : Host → Bool → Io Bool
userdata_uncached h true = pure true
userdata_uncached h false = do done ← marked h (user_data_id_file h.os); userdata_unless h done

unfoldable pub openstack_process_userdata : Host → Io Bool
openstack_process_userdata h = do d ← the_drive; userdata_uncached h d.cache_user_data_id

-- `openstack_finish`, by `data_source`.
unfoldable pub finish_source : Host → DataSource → Io (Unit {0})
finish_source h no_source = skip
finish_source h config_drive = do
  d ← the_drive
  umount_filesystem h.os h.devices d.config_drive_mount_path d.config_drive_loop_device
  change (λ d'. record d' { config_drive_loop_device = none })

unfoldable pub remove_userdata : Bytes → Io (Unit {0})
remove_userdata [] = skip
remove_userdata (c ∷ cs) = do
  call (remove (c ∷ cs)) (λ t. tt)
  change (λ d. record d { userdata_file = [] })

-- Behind the file system: the temporary file, the tree and the table.
unfoldable pub release : Io (Unit {0})
release = do
  d ← the_drive
  remove_userdata d.userdata_file
  change (λ d'. record d' { metadata_node = null })
  openstack_metadata_free_options

unfoldable pub openstack_finish : Host → Io (Unit {0})
openstack_finish h = do d ← the_drive; finish_source h d.data_source; release

-- A path that is empty: the disk with the label is the drive, if there is one.
unfoldable pub drive_by_label : Host → Bytes → Io (Unit {0})
drive_by_label h (c ∷ cs) = skip
drive_by_label h [] = do
  device ← disk_by_label h.devices.blocks (str "config-2")
  elim device [
    | none ↦ skip
    | some name ↦ change (λ d. record d { config_drive_disk = clip path_max name })
  ]

-- `openstack_process_config_drive` from the started datasource on. Where the metadata fail, nothing is
-- finished.
unfoldable pub process_started : Host → Bool → Io Bool
process_started h false = pure false
process_started h true = do
  done ← openstack_process_config_drive_metadata h
  if done
      then (do openstack_process_config_drive_userdata h; openstack_finish h; pure true)
      else pure false

unfoldable pub openstack_process_config_drive : Host → Bytes → Io Bool
openstack_process_config_drive h path = do
  change (λ d. record d { data_source = config_drive; config_drive_disk = clip path_max path })
  drive_by_label h (clip path_max path)
  started ← openstack_start h
  process_started h started
