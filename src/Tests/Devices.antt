-- ===== src/Tests/Devices.antt =====
-- The block devices of the test machine, on which mounts fail.
use micro_config_drive.Base.{
  ℕ, Bytes, str, none, some, List, [], true, false, if◌then◌else◌, str_eq, ◌≡◌, ◌≢◌, arith,
}
use micro_config_drive.System.{Os, Trace, Flag}
use micro_config_drive.Files.Descriptors.{open_fds}
use micro_config_drive.Disk.{Blocks}
use micro_config_drive.Mounts.{Devices, mount_filesystem}
use micro_config_drive.Mounts.Balance.{mount_filesystem-open_fds}
use micro_config_drive.Tests.Machine.{machine, start}

abbrev pub blocks : Blocks
blocks = record {
  cache_done = λ t. true;
  probe_all_done = λ t. true;
  labelled = λ t l. true;
  devname = λ t. some (str "/dev/sr0");
  devno_name = λ t n. some (str "/dev/sda1");
  wholedisk = λ t n. some 2048;
  probe_made = λ t d. true;
  enable_done = λ t. true;
  fullprobe_done = λ t. true;
  type_value = λ t. some (str "iso9660");
}

abbrev pub devices : Devices
devices = record {
  blocks = blocks;
  mount_done = λ t d m. false;
  umount_done = λ t m. true;
  mknod_done = λ t p n. true;
  set_fd_done = λ t a b. true;
  set_status64_done = λ t fd. true;
  set_status_done = λ t fd. true;
  clr_fd_done = λ t fd. true;
}

-- A file that is mounted through a loop device.
abbrev with_image : Os
with_image = record machine {
  stat_of = λ t p.
      if str_eq p (str "/config.img")
      then some (record { is_dir = false; is_block = false; mode = 420; size = 65536; dev = 2049 })
      else none;
}

not_zero :
    (t : Trace) (path : Bytes) (flags : List Flag) (fd : ℕ)
    → with_image.open_fd t path flags ≡ some fd
    → fd ≢ 0
not_zero t path flags fd h = ground arith

mount_filesystem-open_fds_example :
    open_fds (mount_filesystem with_image devices (str "/config.img") (str "/mnt") start).1.trace
    ≡ []
mount_filesystem-open_fds_example =
    mount_filesystem-open_fds with_image not_zero devices (str "/config.img") (str "/mnt") start
