-- ===== src/OpenStack/Ends.antt =====
-- How the datasource of src/datasources/openstack.c ends.
use micro_config_drive.Base.{
  ℕ, Bytes, Option, none, some, [], ◌∷◌, ◌++◌, true, false, ◌≡◌, refl, ◌∙◌, ap, arith, append-nil,
}
use micro_config_drive.System.{Os, Trace, remove}
use micro_config_drive.System.Drive.{Drive, DataSource, config_drive, no_source}
use micro_config_drive.System.Io.{World}
use micro_config_drive.System.Calls.{OnlyCalls, OnlyCalls-pure, calls_rules}
use micro_config_drive.GNode.{null}
use micro_config_drive.Mounts.{Devices, umount_filesystem, release_loop, clear_loop}
use micro_config_drive.OpenStack.{Host}
use micro_config_drive.OpenStack.Tasks.{openstack_metadata_free_options}
use micro_config_drive.OpenStack.Process.{finish_source, remove_userdata, release, openstack_finish}

clear_loop-OnlyCalls :
    (os : Os) (dev : Devices) (loop_device : Bytes) (fd : Option ℕ)
    → OnlyCalls (clear_loop os dev loop_device fd)
unfolding clear_loop
clear_loop-OnlyCalls os dev loop_device none = OnlyCalls-pure false
clear_loop-OnlyCalls os dev loop_device (some fd) = search calls_rules depth 12

release_loop-OnlyCalls :
    (os : Os) (dev : Devices) (loop_device : Option Bytes)
    → OnlyCalls (release_loop os dev loop_device)
unfolding release_loop
release_loop-OnlyCalls os dev none = OnlyCalls-pure true
release_loop-OnlyCalls os dev (some loop_device) = search (calls_rules, clear_loop-OnlyCalls)

pub umount_filesystem-OnlyCalls :
    (os : Os) (dev : Devices) (mountdir : Bytes) (loop_device : Option Bytes)
    → OnlyCalls (umount_filesystem os dev mountdir loop_device)
unfolding umount_filesystem
umount_filesystem-OnlyCalls os dev mountdir loop_device =
    search (calls_rules, release_loop-OnlyCalls) depth 12

-- The call that removes a file, if there is one.
abbrev pub removal : Bytes → Trace
removal [] = []
removal (c ∷ cs) = remove (c ∷ cs) ∷ []

-- The variables of a datasource that holds nothing.
abbrev pub released : Drive → Drive
released d = record d {
  config_drive_loop_device = none;
  userdata_file = [];
  metadata_node = null;
  options = [];
}

remove_userdata_lem :
    (file : Bytes) (w : World)
    → w.drive.userdata_file ≡ file
    → (remove_userdata file w).1
      ≡ record w { drive = record w.drive { userdata_file = [] }; trace = w.trace ++ removal file }
unfolding remove_userdata
remove_userdata_lem [] w e = ground (arith, append-nil w.trace)
remove_userdata_lem (c ∷ cs) w e = refl

pub release_lem :
    (w : World)
    → (release w).1 ≡ record w {
      drive = record w.drive { userdata_file = []; metadata_node = null; options = [] };
      trace = w.trace ++ removal w.drive.userdata_file;
    }
unfolding release openstack_metadata_free_options
release_lem w = rw (remove_userdata_lem w.drive.userdata_file w refl) refl

finish_source_lem :
    (h : Host) (source : DataSource) (w : World)
    → source ≡ config_drive
    → let mountdir = w.drive.config_drive_mount_path in
      let loop_device = w.drive.config_drive_loop_device in
      (finish_source h source w).1 ≡ record w {
        drive = record w.drive { config_drive_loop_device = none };
        trace = (umount_filesystem h.os h.devices mountdir loop_device w).1.trace;
      }
unfolding finish_source
finish_source_lem h no_source w e = cc
finish_source_lem h config_drive w e =
    let mountdir = w.drive.config_drive_mount_path in
    let loop_device = w.drive.config_drive_loop_device in
    ap (λ (u : World). record u { drive = record u.drive { config_drive_loop_device = none } })
      ((umount_filesystem-OnlyCalls h.os h.devices mountdir loop_device).vars w)

-- `openstack_finish` on a config drive: the file system is unmounted, the temporary file of the user data is
-- removed if there is one, and the loop device's name, the tree of the metadata and the table are given up,
-- whatever the unmounting comes to. Nothing else changes: functions that the pool has yet to run stay
-- there.
pub openstack_finish-released :
    (h : Host) (w : World)
    → w.drive.data_source ≡ config_drive
    → let d = w.drive in
      let mountdir = d.config_drive_mount_path in
      (openstack_finish h w).1 ≡ record w {
        drive = released d;
        trace =
            (umount_filesystem h.os h.devices mountdir d.config_drive_loop_device w).1.trace
            ++ removal d.userdata_file;
      }
unfolding openstack_finish
openstack_finish-released h w e =
    ap (λ (u : World). (release u).1) (finish_source_lem h w.drive.data_source w e) ∙ release_lem _
