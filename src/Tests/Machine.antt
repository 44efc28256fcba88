-- ===== src/Tests/Machine.antt =====
-- A machine on which every call succeeds, but no file is there except the kernel's boot id.
use micro_config_drive.Base.{Bytes, str, str_eq, length, none, some, [], true, false, if◌then◌else◌}
use micro_config_drive.System.{Os, swupd}
use micro_config_drive.System.Drive.{Drive, no_source}
use micro_config_drive.GNode.{null}
use micro_config_drive.System.Io.{World, FirstBoot, NetworkWait}
use micro_config_drive.Boot.{kernel_boot_id_file}

-- The boot id of this machine is a UUID of 36 characters.
abbrev pub boot_id : Bytes
boot_id = str "5f0c6a1e-52c1-4f6e-9a55-0a4b1d1b7c21"

abbrev pub machine : Os
machine = record {
  shell_path = str "/bin/sh";
  useradd_path = str "/usr/sbin/useradd";
  usermod_path = str "/usr/sbin/usermod";
  passwd_path = str "/usr/bin/passwd";
  groupadd_path = str "/usr/sbin/groupadd";
  hostnamectl_path = str "/usr/bin/hostnamectl";
  systemctl_path = str "/usr/bin/systemctl";
  sysconfdir = str "/etc";
  datadir_path = str "/var/lib/ucd";
  strescape = λ s. s;
  dirname = λ s. str "/tmp";
  null_matches = false;
  uninitialised = λ t. false;
  errno_is_erange = λ t. false;
  package_manager = swupd;
  async_started = λ t c. true;
  spawn_status = λ t c. some 0;
  stat_of = λ t p. none;
  access_errno = λ t p. none;
  mkdir_done = λ t p m. true;
  open_fd = λ t p f. some 3;
  written = λ t fd text. some (length text);
  fchmod_done = λ t fd m. true;
  close_done = λ t fd. true;
  fstat_of = λ t fd. none;
  sendfile_done = λ t a b n. true;
  chown_done = λ t p u g. true;
  passwd_of = λ t n. some (record { uid = 1000; gid = 1000; home = some (str "/home/clear") });
  group_of = λ t n. some 1000;
  contents = λ t p. if str_eq p kernel_boot_id_file then some boot_id else none;
  name_resolves = λ t. true;
  fopen_file = λ t p. some 5;
  stream = λ t fd. str "#!/bin/sh\n";
  fclose_done = λ t fd. true;
  real_path = λ t p. some p;
  chmod_done = λ t p m. true;
}

-- The variables of openstack.c at the program's start.
abbrev pub no_drive : Drive
no_drive = record {
  data_source = no_source;
  config_drive_disk = [];
  config_drive_loop_device = none;
  config_drive_mount_path = str "/var/lib/ucd/config-2-XXXXXX";
  metadata_file = [];
  userdata_file = [];
  metadata_node = null;
  options = [];
  cache_metadata_id = false;
  cache_user_data_id = false;
}

abbrev pub start : World
start = record {
  trace = [];
  cache_firstboot = FirstBoot.unset;
  cache_boot_id = [];
  current_username = [];
  global_data = [];
  do_network_wait = NetworkWait.unset;
  drive = no_drive;
  thread_pool = true;
  pushed = [];
  taken = [];
  ran = [];
}
