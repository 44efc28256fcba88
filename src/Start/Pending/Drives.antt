-- ===== src/Start/Pending/Drives.antt =====
-- Of the operations of a datasource only the reading of the metadata hands functions to the pool of threads.
use micro_config_drive.Base.{
  ℕ, zero, suc, ◌*◌, ◌^◌, Bytes, str, Option, none, some, [], ◌∷◌, true, false, refl, arith,
  data_eq, clip, path_max, ◌++◌,
}
use micro_config_drive.System.{Stat, make_temp_dir, rmdir, usleep, run_system, stat}
use micro_config_drive.System.Drive.{Drive, MetadataFunc, DataSource, config_drive, no_source}
use micro_config_drive.System.Io.{◌>>◌, pure, skip, call}
use micro_config_drive.System.Views.{
  Keeps, Keeps-pure, Keeps-seq, Keeps-bind, Keeps-if, Keeps-option, the_pool, pool-call, view_rules,
  pool-OnlyCalls,
}
use micro_config_drive.GNode.{GNode, null, gnode, children}
use micro_config_drive.Files.Variables.{write_file-OnlyCalls}
use micro_config_drive.OpenStack.{Host, change, openstack_metadata_file, openstack_userdata_file}
use micro_config_drive.OpenStack.Handlers.{run_func, openstack_metadata_uuid}
use micro_config_drive.OpenStack.Tasks.{
  openstack_metadata_load_options, openstack_metadata_free_options, document_loaded,
  openstack_load_metadata_file, ensure_metadata, process_uuids, openstack_process_uuid,
}
use micro_config_drive.OpenStack.Datasource.{
  probe_module, drive_found, init_loop, openstack_init, load_drive, mount_drive, start_source,
  openstack_start, use_userdata, make_temp_file, with_temp_file, userdata_found,
  openstack_process_config_drive_userdata, sr_mod_command,
}
use micro_config_drive.OpenStack.Process.{
  same_boot, read_mark, marked, write_mark, mark, drive_by_label,
}
use micro_config_drive.Start.Pending.Handlers.{get_boot_id-pool, copy_file-pool, run_func-pool}
use micro_config_drive.Start.Pending.Mounts.{disk_by_label-pool, mount_filesystem-pool}
use micro_config_drive.Start.Pending.Scripts.{userdata_process_file-pool}

pub change-pool : (f : Drive → Drive) → Keeps the_pool (change f)
change-pool f = record { same = λ w. refl }

module _ (h : Host) where
  pub load_options-pool : Keeps the_pool openstack_metadata_load_options
  unfolding openstack_metadata_load_options
  load_options-pool = record { same = λ w. ground arith }

  pub free_options-pool : Keeps the_pool openstack_metadata_free_options
  unfolding openstack_metadata_free_options
  free_options-pool = record { same = λ w. refl }

  load_metadata-pool : (filename : Bytes) → Keeps the_pool (openstack_load_metadata_file h filename)
  unfolding openstack_load_metadata_file document_loaded
  load_metadata-pool filename = record { same = λ w. ground arith }

  pub ensure_metadata-pool :
      (filename : Bytes) (tree : GNode) → Keeps the_pool (ensure_metadata h filename tree)
  unfolding ensure_metadata
  ensure_metadata-pool filename null = load_metadata-pool filename
  ensure_metadata-pool filename (gnode name below next) = Keeps-pure true

  process_uuids-pool : (node : GNode) → Keeps the_pool (process_uuids h node)
  unfolding process_uuids run_func openstack_metadata_uuid
  process_uuids-pool null = Keeps-pure null
  process_uuids-pool (gnode key below next) =
      Keeps-if (data_eq key (str "uuid")) _ _
        (Keeps-seq (run_func-pool h.os MetadataFunc.uuid below) (process_uuids-pool next))
        (Keeps-bind _ _ (process_uuids-pool next) (λ rest. Keeps-pure (gnode key below rest)))

  process_uuid-pool : Keeps the_pool (openstack_process_uuid h)
  unfolding openstack_process_uuid
  process_uuid-pool = record {
    same = λ w. (process_uuids-pool (children w.drive.metadata_node)).same w;
  }

  probe_module-pool : (tries : ℕ) → Keeps the_pool (probe_module tries)
  unfolding probe_module
  probe_module-pool zero = pool-call (run_system sr_mod_command) (λ t. tt)
  probe_module-pool (suc tries) = Keeps-pure tt

  drive_found-pool : (device : Bytes) → Keeps the_pool (drive_found device)
  unfolding drive_found
  drive_found-pool device = record { same = λ w. refl }

  init_loop-pool : (left tries : ℕ) → Keeps the_pool (init_loop h left tries)
  unfolding init_loop
  init_loop-pool zero tries = Keeps-pure false
  init_loop-pool (suc left) tries =
      Keeps-bind _ _ (disk_by_label-pool h.devices.blocks (str "config-2")) (λ device.
        Keeps-option device _ drive_found
          (Keeps-seq (probe_module-pool tries) (
            Keeps-seq (pool-call (usleep (2 ^ tries * 4000)) (λ t. tt))
              (init_loop-pool left (suc tries))))
          drive_found-pool)

  pub openstack_init-pool : Keeps the_pool (openstack_init h)
  unfolding openstack_init
  openstack_init-pool = Keeps-seq (change-pool _) (init_loop-pool 8 0)

  load_drive-pool : Keeps the_pool (load_drive h)
  unfolding load_drive
  load_drive-pool = record {
    same = λ w.
        let loaded = load_metadata-pool w.drive.metadata_file in
        let behind : Keeps the_pool (do
          openstack_metadata_load_options
          openstack_process_uuid h
          openstack_metadata_free_options
          pure true) =
          search (view_rules, load_options-pool, process_uuid-pool, free_options-pool) depth 12 in
        (Keeps-bind _ _ loaded (λ b. Keeps-if b _ _ behind (Keeps-pure false))).same w;
  }

  mount_drive-pool : (path : Option Bytes) → Keeps the_pool (mount_drive h path)
  unfolding mount_drive
  mount_drive-pool none = Keeps-pure false
  mount_drive-pool (some path) = record {
    same = λ w.
        let mounted = mount_filesystem-pool h.os h.devices w.drive.config_drive_disk path in
        let loaded : Keeps the_pool (do
          change (λ d. record d { metadata_file = clip path_max (path ++ openstack_metadata_file) })
          load_drive h) =
          Keeps-seq (change-pool _) load_drive-pool in
        let failed : Keeps the_pool (do call (rmdir path) (λ t. tt); pure false) =
          search view_rules in
        (Keeps-bind _ _ mounted (λ b. Keeps-if b _ _ loaded failed)).same
          (record w { drive = record w.drive { config_drive_mount_path = path } });
  }

  start_source-pool : (source : DataSource) → Keeps the_pool (start_source h source)
  unfolding start_source
  start_source-pool no_source = Keeps-pure false
  start_source-pool config_drive = record {
    same = λ w.
        (Keeps-bind _ _
            (pool-call (make_temp_dir w.drive.config_drive_mount_path)
              (λ t. h.temp_dir t w.drive.config_drive_mount_path))
            mount_drive-pool).same
          w;
  }

  pub openstack_start-pool : Keeps the_pool (openstack_start h)
  unfolding openstack_start
  openstack_start-pool = record { same = λ w. (start_source-pool w.drive.data_source).same w }

  use_userdata-pool : (source temp : Bytes) → Keeps the_pool (use_userdata h source temp)
  unfolding use_userdata
  use_userdata-pool source temp =
      search (view_rules, copy_file-pool, userdata_process_file-pool) depth 10

  temp_file-pool : (template : Bytes) → Keeps the_pool (make_temp_file h template)
  temp_file-pool template = record { same = λ w. ground arith }

  with_temp_file-pool :
      (source : Bytes) (temp : Option (Bytes × ℕ)) → Keeps the_pool (with_temp_file h source temp)
  unfolding with_temp_file
  with_temp_file-pool source none = Keeps-pure false
  with_temp_file-pool source (some (name, fd)) =
      search (view_rules, change-pool, use_userdata-pool) depth 12

  userdata_found-pool :
      (source : Bytes) (found : Option Stat) → Keeps the_pool (userdata_found h source found)
  unfolding userdata_found
  userdata_found-pool source none = Keeps-pure false
  userdata_found-pool source (some st) =
      search (view_rules, change-pool, temp_file-pool, with_temp_file-pool) depth 12

  pub config_drive_userdata-pool : Keeps the_pool (openstack_process_config_drive_userdata h)
  unfolding openstack_process_config_drive_userdata
  config_drive_userdata-pool = record {
    same = λ w.
        let source = clip path_max (w.drive.config_drive_mount_path ++ openstack_userdata_file) in
        (Keeps-bind _ _ (pool-call (stat source) (λ t. h.os.stat_of t source))
            (userdata_found-pool source)).same
          w;
  }

  same_boot-pool : (id : Option Bytes) → Keeps the_pool (same_boot h id)
  unfolding same_boot
  same_boot-pool none = Keeps-pure false
  same_boot-pool (some id) = search (view_rules, get_boot_id-pool) depth 10

  read_mark-pool : (path : Bytes) (found : Option Stat) → Keeps the_pool (read_mark h path found)
  unfolding read_mark
  read_mark-pool path none = Keeps-pure false
  read_mark-pool path (some st) = search (view_rules, same_boot-pool) depth 10

  pub marked-pool : (path : Bytes) → Keeps the_pool (marked h path)
  unfolding marked
  marked-pool path = search (view_rules, read_mark-pool) depth 10

  write_mark-pool : (path : Bytes) (id : Option Bytes) → Keeps the_pool (write_mark h path id)
  unfolding write_mark
  write_mark-pool path none = search view_rules
  write_mark-pool path (some id) =
      search (view_rules, pool-OnlyCalls, write_file-OnlyCalls) depth 10

  pub mark-pool : (path : Bytes) → Keeps the_pool (mark h path)
  unfolding mark
  mark-pool path = search (view_rules, get_boot_id-pool, write_mark-pool) depth 10

  pub drive_by_label-pool : (path : Bytes) → Keeps the_pool (drive_by_label h path)
  unfolding drive_by_label
  drive_by_label-pool (c ∷ cs) = Keeps-pure tt
  drive_by_label-pool [] =
      Keeps-bind _ _ (disk_by_label-pool h.devices.blocks (str "config-2")) (λ device.
        Keeps-option device skip
          (λ name. change (λ d. record d { config_drive_disk = clip path_max name }))
          (Keeps-pure tt) (λ name. change-pool _))
