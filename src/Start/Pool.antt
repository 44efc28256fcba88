-- ===== src/Start/Pool.antt =====
-- The pool of threads over the whole of `main` in src/main.c.
pub mod Balance
pub mod Sources
use micro_config_drive.Base.{List, ◌∙◌, ap, clip, path_max}
use mathlib.Core.List.Perm
use mathlib.Core.List.{Perm}
use micro_config_drive.System.{geteuid, getpwnam}
use micro_config_drive.System.Drive.{Drive, DataSource, config_drive, no_source}
use micro_config_drive.System.Io.{Io, ◌>>=◌, ◌>>◌, pure, call}
use micro_config_drive.OpenStack.{Host, change}
use micro_config_drive.OpenStack.Datasource.{
  openstack_start, openstack_process_config_drive_metadata, openstack_process_config_drive_userdata,
}
use micro_config_drive.OpenStack.Process.{
  metadata_processed, metadata_source, metadata_unless, metadata_uncached,
  openstack_process_metadata, userdata_source, userdata_unless, userdata_uncached,
  openstack_process_userdata, openstack_finish, process_started, openstack_process_config_drive,
  drive_by_label,
}
use micro_config_drive.Start.{let_run, async_task_finish, finish_handled}
use micro_config_drive.Start.Pending.Drives.{
  change-pool, config_drive_userdata-pool, marked-pool, mark-pool, drive_by_label-pool,
}
use micro_config_drive.Start.Pool.Balance.{Balances-seq}
