-- ===== src/OpenStack/Datasource.antt =====
-- The operations of the datasource of src/datasources/openstack.c, and `openstack_process_config_drive`.
use micro_config_drive.Base.{
  ℕ, zero, suc, ◌*◌, ◌^◌, Bytes, str, clip, path_max, Option, none, some, [], ◌∷◌, ◌++◌, Bool, true,
  false, if◌then◌else◌,
}
use micro_config_drive.System.{
  Stat, stat, usleep, run_system, make_temp_dir, rmdir, open_file, close, o_creat,
}
use micro_config_drive.System.Drive.{DataSource, config_drive, no_source}
use micro_config_drive.System.Io.{Io, ◌>>=◌, ◌>>◌, pure, skip, call}
use micro_config_drive.Files.{copy_file}
use micro_config_drive.Mounts.{mount_filesystem}
use micro_config_drive.Userdata.{userdata_process_file}
use micro_config_drive.Disk.{disk_by_label}
use micro_config_drive.OpenStack.{
  Host, change, the_drive, openstack_metadata_file, openstack_userdata_file,
}
use micro_config_drive.OpenStack.Tasks.{
  openstack_metadata_load_options, openstack_metadata_free_options, openstack_load_metadata_file,
  openstack_process_metadata_file, openstack_process_uuid,
}

abbrev pub sr_mod_command : Bytes
sr_mod_command = str "/sbin/modprobe sr_mod"

-- `if (tries == 0) system ("/sbin/modprobe sr_mod")`
unfoldable pub probe_module : ℕ → Io (Unit {0})
probe_module zero = call (run_system sr_mod_command) (λ t. tt)
probe_module (suc tries) = skip

-- A disk that was found becomes the drive.
unfoldable pub drive_found : Bytes → Io Bool
drive_found device = do
  change (λ d. record d { data_source = config_drive; config_drive_disk = clip path_max device })
  pure true

-- The rounds that are left, from round `tries` on. `tries > 8` is never true in the loop.
unfoldable pub init_loop : Host → ℕ → ℕ → Io Bool
init_loop h zero tries = pure false
init_loop h (suc left) tries = do
  device ← disk_by_label h.devices.blocks (str "config-2")
  let more = init_loop h left (suc tries)
  elim device [
    | some name ↦ drive_found name
    | none ↦ do probe_module tries; call (usleep (2 ^ tries * 4000)) (λ t. tt); more
  ]

unfoldable pub openstack_init : Host → Io Bool
openstack_init h = do change (λ d. record d { data_source = no_source }); init_loop h 8 0

-- `openstack_start` from the metadata file on. The instance id is the first key to be processed.
unfoldable pub load_drive : Host → Io Bool
load_drive h = do
  d ← the_drive
  loaded ← openstack_load_metadata_file h d.metadata_file
  if loaded
      then (do
        openstack_metadata_load_options
        openstack_process_uuid h
        openstack_metadata_free_options
        pure true)
      else pure false

unfoldable pub mount_drive : Host → Option Bytes → Io Bool
mount_drive h none = pure false
mount_drive h (some path) = do
  change (λ d. record d { config_drive_mount_path = path })
  d ← the_drive
  mounted ← mount_filesystem h.os h.devices d.config_drive_disk path
  if mounted
      then (do
        change (λ d'. record d' { metadata_file = clip path_max (path ++ openstack_metadata_file) })
        load_drive h)
      else (do call (rmdir path) (λ t. tt); pure false)

-- By `data_source`.
unfoldable pub start_source : Host → DataSource → Io Bool
start_source h no_source = pure false
start_source h config_drive = do
  d ← the_drive
  path ←
      call (make_temp_dir d.config_drive_mount_path) (λ t. h.temp_dir t d.config_drive_mount_path)
  mount_drive h path

unfoldable pub openstack_start : Host → Io Bool
openstack_start h = do d ← the_drive; start_source h d.data_source

unfoldable pub openstack_process_config_drive_metadata : Host → Io Bool
openstack_process_config_drive_metadata h = do
  d ← the_drive
  openstack_process_metadata_file h d.metadata_file

-- `openstack_process_config_drive_userdata` from the closed temporary file on.
unfoldable pub use_userdata : Host → Bytes → Bytes → Io Bool
use_userdata h source temp = do
  copied ← copy_file h.os source temp
  if copied then userdata_process_file h.os h.libyaml temp else pure false

-- The descriptor is kept in the trace as that of an `open`.
abbrev pub make_temp_file : Host → Bytes → Io (Option (Bytes × ℕ))
make_temp_file h template w = elim (h.temp_file w.trace template) [
  | none ↦ (none, record w { trace = w.trace ++ (open_file template (o_creat ∷ []) none ∷ []) })
  | some (name, fd) ↦ (
    some (name, fd),
    record w { trace = w.trace ++ (open_file name (o_creat ∷ []) (some fd) ∷ []) },
  )
]

unfoldable pub with_temp_file : Host → Bytes → Option (Bytes × ℕ) → Io Bool
with_temp_file h source none = pure false
with_temp_file h source (some (name, fd)) = do
  change (λ d. record d { userdata_file = name })
  closed ← call (close fd) (λ t. h.os.close_done t fd)
  if closed then use_userdata h source name else pure false

unfoldable pub userdata_found : Host → Bytes → Option Stat → Io Bool
userdata_found h source none = pure false
userdata_found h source (some st) = do
  let template = clip path_max (h.os.datadir_path ++ str "/userdata-XXXXXX")
  change (λ d. record d { userdata_file = template })
  temp ← make_temp_file h template
  with_temp_file h source temp

unfoldable pub openstack_process_config_drive_userdata : Host → Io Bool
openstack_process_config_drive_userdata h = do
  d ← the_drive
  let source = clip path_max (d.config_drive_mount_path ++ openstack_userdata_file)
  found ← call (stat source) (λ t. h.os.stat_of t source)
  userdata_found h source found
