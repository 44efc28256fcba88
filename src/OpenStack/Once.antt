-- ===== src/OpenStack/Once.antt =====
-- The metadata and the user data of a drive are processed once.
use micro_config_drive.Base.{Bytes, Option, none, some, Bool, true, false, ◌≡◌, refl, ap, arith}
use micro_config_drive.System.{Os}
use micro_config_drive.System.Drive.{Drive, DataSource, config_drive, no_source}
use micro_config_drive.System.Io.{World}
use micro_config_drive.System.Views.{Keeps, the_vars, view_rules, vars-OnlyCalls}
use micro_config_drive.Files.Variables.{write_file-OnlyCalls}
use micro_config_drive.Boot.{get_boot_id}
use micro_config_drive.OpenStack.{Host, metadata_id_file}
use micro_config_drive.OpenStack.Datasource.{openstack_process_config_drive_metadata}
use micro_config_drive.OpenStack.Process.{
  write_mark, mark, metadata_processed, metadata_source, metadata_unless, metadata_uncached,
  openstack_process_metadata, marked,
}

get_boot_id-vars : (os : Os) → Keeps the_vars (get_boot_id os)
unfolding get_boot_id
get_boot_id-vars os = record { same = λ w. ground arith }

write_mark-vars :
    (h : Host) (path : Bytes) (id : Option Bytes) → Keeps the_vars (write_mark h path id)
unfolding write_mark
write_mark-vars h path none = search view_rules
write_mark-vars h path (some id) = search (view_rules, vars-OnlyCalls, write_file-OnlyCalls)

mark-vars : (h : Host) (path : Bytes) → Keeps the_vars (mark h path)
unfolding mark
mark-vars h path = search (view_rules, get_boot_id-vars, write_mark-vars)

-- Success leaves the variable set.
metadata_processed-cached :
    (h : Host) (done : Bool) (w : World)
    → (metadata_processed h done w).0 ≡ true
    → (metadata_processed h done w).1.drive.cache_metadata_id ≡ true
unfolding metadata_processed
metadata_processed-cached h false w e = cc
metadata_processed-cached h true w e =
    ap (λ (d : _). d.cache_metadata_id) ((mark-vars h (metadata_id_file h.os)).same _)

metadata_source-cached :
    (h : Host) (source : DataSource) (w : World)
    → (metadata_source h source w).0 ≡ true
    → (metadata_source h source w).1.drive.cache_metadata_id ≡ true
unfolding metadata_source
metadata_source-cached h no_source w e = cc
metadata_source-cached h config_drive w e =
    let (done, v) = openstack_process_config_drive_metadata h w in
    metadata_processed-cached h done v e

metadata_unless-cached :
    (h : Host) (done : Bool) (w : World)
    → (metadata_unless h done w).0 ≡ true
    → (metadata_unless h done w).1.drive.cache_metadata_id ≡ true
unfolding metadata_unless
metadata_unless-cached h true w e = refl
metadata_unless-cached h false w e = metadata_source-cached h w.drive.data_source w e

metadata_uncached-cached :
    (h : Host) (cached : Bool) (w : World)
    → w.drive.cache_metadata_id ≡ cached
    → (metadata_uncached h cached w).0 ≡ true
    → (metadata_uncached h cached w).1.drive.cache_metadata_id ≡ true
unfolding metadata_uncached
metadata_uncached-cached h true w c e = c
metadata_uncached-cached h false w c e =
    let (done, v) = marked h (metadata_id_file h.os) w in metadata_unless-cached h done v e

-- Once `openstack_process_metadata` has returned true, a second call returns true and does nothing at all:
-- it makes no call, hands no function to the pool and changes no variable.
pub openstack_process_metadata_twice :
    (h : Host) (w : World)
    → (openstack_process_metadata h w).0 ≡ true
    → let w' = (openstack_process_metadata h w).1 in openstack_process_metadata h w' ≡ (true, w')
unfolding openstack_process_metadata metadata_uncached
openstack_process_metadata_twice h w e =
    let w' = (openstack_process_metadata h w).1 in
    rw (metadata_uncached-cached h w.drive.cache_metadata_id w refl e) refl
