-- ===== src/Start/Pool/Sources.antt =====
-- The operations of a datasource keep the account of the pool.
use micro_config_drive.Base.{Bytes, Bool, true, false, clip, path_max}
use micro_config_drive.System.Drive.{DataSource, config_drive, no_source}
use micro_config_drive.System.Io.{◌>>◌, pure}
use micro_config_drive.System.Views.{Keeps, Keeps-pure, Keeps-seq, Keeps-bind, the_pool, view_rules}
use micro_config_drive.OpenStack.{Host}
use micro_config_drive.OpenStack.Datasource.{
  openstack_process_config_drive_metadata, openstack_process_config_drive_userdata,
}
use micro_config_drive.OpenStack.Process.{
  metadata_processed, metadata_source, metadata_unless, metadata_uncached,
  openstack_process_metadata, userdata_source, userdata_unless, userdata_uncached,
  openstack_process_userdata, openstack_finish, process_started, openstack_process_config_drive,
}
use micro_config_drive.Start.{finish_handled}
use micro_config_drive.Start.Pending.{finish_handled-pool}
use micro_config_drive.Start.Pending.Drives.{
  change-pool, openstack_start-pool, config_drive_userdata-pool, marked-pool, mark-pool,
  drive_by_label-pool,
}
use micro_config_drive.Start.Pool.Balance.{
  Balances, Balances-Keeps, Balances-bind, Balances-seq, Balances-if, metadata_file-Balances,
}

module _ (h : Host) where
  drive_metadata-Balances : Balances (openstack_process_config_drive_metadata h)
  unfolding openstack_process_config_drive_metadata
  drive_metadata-Balances = record {
    balanced = λ w p. (metadata_file-Balances h w.drive.metadata_file).balanced w p;
  }

  finish-Balances : Balances (openstack_finish h)
  unfolding finish_handled
  finish-Balances = Balances-Keeps _ (finish_handled-pool h true)

  process_started-Balances : (started : Bool) → Balances (process_started h started)
  unfolding process_started
  process_started-Balances false = Balances-Keeps _ (Keeps-pure false)
  process_started-Balances true =
      let last : Balances
          (do openstack_process_config_drive_userdata h; openstack_finish h; pure true) =
        Balances-seq _ _ (Balances-Keeps _ (config_drive_userdata-pool h))
          (Balances-seq _ _ finish-Balances (Balances-Keeps _ (Keeps-pure true))) in
      Balances-bind _ _ drive_metadata-Balances
        (λ done. Balances-if done _ _ last (Balances-Keeps _ (Keeps-pure false)))

  pub config_drive-Balances : (path : Bytes) → Balances (openstack_process_config_drive h path)
  unfolding openstack_process_config_drive
  config_drive-Balances path = Balances-seq _ _ (Balances-Keeps _ (change-pool _)) (
      Balances-seq _ _ (Balances-Keeps _ (drive_by_label-pool h (clip path_max path)))
        (Balances-bind _ _ (Balances-Keeps _ (openstack_start-pool h)) process_started-Balances))

  metadata_processed-pool : (done : Bool) → Keeps the_pool (metadata_processed h done)
  unfolding metadata_processed
  metadata_processed-pool false = Keeps-pure false
  metadata_processed-pool true = search (view_rules, change-pool, mark-pool) depth 10

  metadata_source-Balances : (source : DataSource) → Balances (metadata_source h source)
  unfolding metadata_source
  metadata_source-Balances no_source = Balances-Keeps _ (Keeps-pure false)
  metadata_source-Balances config_drive =
      Balances-bind _ _ drive_metadata-Balances
        (λ done. Balances-Keeps _ (metadata_processed-pool done))

  metadata_unless-Balances : (done : Bool) → Balances (metadata_unless h done)
  unfolding metadata_unless
  metadata_unless-Balances true = Balances-Keeps _ (Keeps-seq (change-pool _) (Keeps-pure true))
  metadata_unless-Balances false = record {
    balanced = λ w p. (metadata_source-Balances w.drive.data_source).balanced w p;
  }

  metadata_uncached-Balances : (cached : Bool) → Balances (metadata_uncached h cached)
  unfolding metadata_uncached
  metadata_uncached-Balances true = Balances-Keeps _ (Keeps-pure true)
  metadata_uncached-Balances false =
      Balances-bind _ _ (Balances-Keeps _ (marked-pool h _)) metadata_unless-Balances

  pub process_metadata-Balances : Balances (openstack_process_metadata h)
  unfolding openstack_process_metadata
  process_metadata-Balances = record {
    balanced = λ w p. (metadata_uncached-Balances w.drive.cache_metadata_id).balanced w p;
  }

  userdata_source-pool : (source : DataSource) → Keeps the_pool (userdata_source h source)
  unfolding userdata_source
  userdata_source-pool no_source = Keeps-pure false
  userdata_source-pool config_drive =
      search (view_rules, config_drive_userdata-pool, change-pool, mark-pool) depth 12

  userdata_unless-pool : (done : Bool) → Keeps the_pool (userdata_unless h done)
  unfolding userdata_unless
  userdata_unless-pool true = Keeps-seq (change-pool _) (Keeps-pure true)
  userdata_unless-pool false = record {
    same = λ w. (userdata_source-pool w.drive.data_source).same w;
  }

  userdata_uncached-pool : (cached : Bool) → Keeps the_pool (userdata_uncached h cached)
  unfolding userdata_uncached
  userdata_uncached-pool true = Keeps-pure true
  userdata_uncached-pool false = Keeps-bind _ _ (marked-pool h _) userdata_unless-pool

  pub process_userdata-pool : Keeps the_pool (openstack_process_userdata h)
  unfolding openstack_process_userdata
  process_userdata-pool = record {
    same = λ w. (userdata_uncached-pool w.drive.cache_user_data_id).same w;
  }
