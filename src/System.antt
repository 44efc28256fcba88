-- ===== src/System.antt =====
-- The machine that the program runs on, as its calls see it. Nothing here is code of the program:
-- every answer of the kernel, the C library, GLib, libblkid and of the programs that are started is
-- a function of the calls made before (the trace), and is a parameter of all that makes the call.
pub mod Drive
pub mod Exact
pub mod Io
pub mod Calls
pub mod Views
pub mod Ensures
use micro_config_drive.Base.{ℕ, Bytes, Option, List, Bool}

-- Flags of `open`.
pub data Flag : Type 0 where
  o_rdonly o_wronly o_creat o_trunc o_append : Flag

-- Calls of libblkid, and of libparted: partitions are known by their numbers, sectors by
-- theirs, and whether an object was made stands in the call.
pub data Blkid : Type 0 where
  get_cache probe_all : Blkid
  find_label : Bytes → Blkid
  dev_devname : Blkid
  devno_to_devname : ℕ → Blkid
  devno_to_wholedisk : ℕ → Blkid
  new_probe : Bytes → Blkid
  enable_partitions do_fullprobe lookup_type free_probe : Blkid

pub data Parted : Type 0 where
  set_handler : Parted
  device_get : Bytes → Parted
  disk_new : Parted
  last_partition_num : Parted
  get_partition : ℕ → Parted
  partition_get_path : ℕ → Parted
  partition_by_sector : ℕ → Parted
  geometry_new : ℕ → Bool → Parted
  constraint_new : ℕ → ℕ → Bool → Parted
  maximize_partition : ℕ → Parted
  set_partition_geom : ℕ → ℕ → ℕ → Parted
  disk_commit : Parted
  constraint_destroy geometry_destroy : Parted

-- The calls that the program makes, with their arguments. Files are known by their descriptors; the
-- one that `open` returned stands in its entry.
pub data Call : Type 0 where
  spawn : Bytes → Call
  spawn_async : Bytes → Call
  stat : Bytes → Call
  access : Bytes → Call
  mkdir : Bytes → ℕ → Call
  open_file : Bytes → List Flag → Option ℕ → Call
  write : ℕ → Bytes → Call
  fchmod : ℕ → ℕ → Call
  close : ℕ → Call
  fstat : ℕ → Call
  sendfile : ℕ → ℕ → ℕ → Call
  chown : Bytes → ℕ → ℕ → Call
  getpwnam : Bytes → Call
  getgrnam : Bytes → Call
  read_file : Bytes → Call
  remove : Bytes → Call
  setenv : Bytes → Bytes → Call
  resolve_name : Call
  usleep : ℕ → Call
  fopen : Bytes → Call
  realpath : Bytes → Call
  chmod : Bytes → ℕ → Call
  mount : Bytes → Bytes → Bytes → Call
  umount : Bytes → Call
  mknod : Bytes → ℕ → Call
  loop_set_fd : ℕ → ℕ → Call
  loop_set_status64 : ℕ → Bytes → Call
  loop_set_status : ℕ → Bytes → Call
  loop_clr_fd : ℕ → Call
  socket : Call
  connect : ℕ → Call
  nanosleep : ℕ → Call
  look_up : Bytes → Call
  fdopen : ℕ → Call
  fclose : ℕ → Call
  open_new : Bytes → ℕ → Call
  unlink : Bytes → Call
  exec : Bytes → List Bytes → Call
  run_system : Bytes → Call
  make_temp_dir : Bytes → Call
  rmdir : Bytes → Call
  load_json : Bytes → Call
  push_task : Call
  blkid : Blkid → Call
  parted : Parted → Call
  geteuid : Call
  -- the program follows a NULL pointer, or a library stops it: it ends here, and what the model does behind
  -- this entry does not happen
  crash : Call

abbrev pub Trace : Type 0
Trace = List Call

-- What the program reads of `struct stat`; `mode` holds the permission bits.
pub record Stat : Type 0 where
  pub is_dir : Bool
  pub is_block : Bool
  pub mode : ℕ
  pub size : ℕ
  pub dev : ℕ

-- What the program reads of `struct passwd`.
pub record Passwd : Type 0 where
  pub uid : ℕ
  pub gid : ℕ
  pub home : Option Bytes

-- `PACKAGE_MANAGER_SWUPD` and the others of config.h
pub data PackageManager : Type 0 where
  swupd yum dnf apt tdnf : PackageManager

-- The answers. The first argument is the trace before the call. An `Option` is `none` where the call
-- fails, and a `Bool` is true where it succeeds.
pub record Os : Type 0 where
  -- paths and names that `configure` writes into config.h
  pub shell_path : Bytes
  pub useradd_path : Bytes
  pub usermod_path : Bytes
  pub passwd_path : Bytes
  pub groupadd_path : Bytes
  pub hostnamectl_path : Bytes
  pub systemctl_path : Bytes
  pub sysconfdir : Bytes
  pub datadir_path : Bytes
  -- `g_strescape (s, NULL)`
  pub strescape : Bytes → Bytes
  -- `dirname` of the C library
  pub dirname : Bytes → Bytes
  -- whether `g_ascii_strncasecmp` answers 0 for a NULL text
  pub null_matches : Bool
  -- the value of a `bool` variable that the code has not initialised
  pub uninitialised : Trace → Bool
  -- `errno == ERANGE`, left by an earlier call
  pub errno_is_erange : Trace → Bool
  -- the package manager that `configure` selects
  pub package_manager : PackageManager
  -- `g_spawn_command_line_sync`: the exit status
  pub async_started : Trace → Bytes → Bool
  pub spawn_status : Trace → Bytes → Option ℕ
  pub stat_of : Trace → Bytes → Option Stat
  -- `access (path, W_OK)`: `errno`, or none where it succeeds
  pub access_errno : Trace → Bytes → Option ℕ
  -- `g_mkdir_with_parents`
  pub mkdir_done : Trace → Bytes → ℕ → Bool
  pub open_fd : Trace → Bytes → List Flag → Option ℕ
  -- `write`: the bytes that were written
  pub written : Trace → ℕ → Bytes → Option ℕ
  pub fchmod_done : Trace → ℕ → ℕ → Bool
  pub close_done : Trace → ℕ → Bool
  pub fstat_of : Trace → ℕ → Option Stat
  pub sendfile_done : Trace → ℕ → ℕ → ℕ → Bool
  pub chown_done : Trace → Bytes → ℕ → ℕ → Bool
  pub passwd_of : Trace → Bytes → Option Passwd
  -- `getgrnam_r`: the group's id
  pub group_of : Trace → Bytes → Option ℕ
  -- `g_file_get_contents`
  pub contents : Trace → Bytes → Option Bytes
  -- `gethostbyname (DNSTESTADDR) != NULL`
  pub name_resolves : Trace → Bool
  -- `fopen` for reading, the bytes of the stream, and `fclose`
  pub fopen_file : Trace → Bytes → Option ℕ
  pub stream : Trace → ℕ → Bytes
  pub fclose_done : Trace → ℕ → Bool
  pub real_path : Trace → Bytes → Option Bytes
  pub chmod_done : Trace → Bytes → ℕ → Bool
