-- ===== src/Tests/Drives.antt =====
-- A config drive with metadata, on the example machine.
use micro_config_drive.Base.{
  str, str_eq, clip, none, some, [], ◌∷◌, ◌++◌, true, false, ◌≡◌, refl, if◌then◌else◌,
}
use micro_config_drive.System.{Os, Stat, stat, read_file}
use micro_config_drive.Boot.{get_boot_id, is_first_boot, compare_boot_id}
use micro_config_drive.System.Drive.{config_drive}
use micro_config_drive.System.Io.{World}
use micro_config_drive.GNode.{null, gnode}
use micro_config_drive.Mounts.{
  umount_filesystem, mount_filesystem, mount_found, mount_known, mount_typed,
}
use micro_config_drive.Disk.{type_by_device, probe_type}
use micro_config_drive.Json.{Members, object, array, no_member, member, json_parse}
use micro_config_drive.Json.Roundtrip.{
  read_value, read_value-json_parse, plain_object, plain_member, plain_none, plain_text,
}
use micro_config_drive.Json.Shape.{IsShaped, json_parse-IsShaped}
use micro_config_drive.OpenStack.{Host, metadata_id_file}
use micro_config_drive.OpenStack.Boots.{Begins, openstack_process_metadata_again}
use micro_config_drive.OpenStack.Handlers.{openstack_metadata_files}
use micro_config_drive.OpenStack.Tasks.{
  openstack_process_metadata_file, openstack_metadata_load_options, ensure_metadata,
  openstack_load_metadata_file, document_loaded,
}
use micro_config_drive.OpenStack.Datasource.{
  openstack_init, openstack_start, start_source, mount_drive, load_drive,
  openstack_process_config_drive_metadata,
}
use micro_config_drive.OpenStack.Process.{
  openstack_process_metadata, openstack_finish, metadata_uncached, marked, read_mark,
  metadata_unless, metadata_source, metadata_processed,
}
use micro_config_drive.OpenStack.Once.{openstack_process_metadata_twice}
use micro_config_drive.OpenStack.Copies.{
  content_first, path_first, entry_array, copy_entries, files-copies, text,
}
use micro_config_drive.OpenStack.Pushed.{member_tasks, process_metadata_file-pushed}
use micro_config_drive.OpenStack.Ends.{released, removal, openstack_finish-released}
use micro_config_drive.OpenStack.Init.{Searched, openstack_init-Searched}
use micro_config_drive.OpenStack.Uuid.{NoUuid, openstack_start-NoUuid}
use micro_config_drive.Tests.Machine.{machine, start, no_drive}
use micro_config_drive.Tests.Devices.{devices}

abbrev pub members : Members
members = member (str "uuid") (text (str "i-1")) (
    member (str "hostname") (text (str "clear")) (
      member (str "public_keys") (object (member (str "mykey") (text (str "ssh-rsa A")) no_member))
        no_member))

abbrev pub host : Host
host = record {
  os = machine;
  devices = devices;
  libyaml = λ t p. [];
  json = λ t p. some (object members);
  temp_dir = λ t p. some (str "/var/lib/ucd/config-2-abcdef");
  temp_file = λ t p. some (str "/var/lib/ucd/userdata-abcdef", 4);
  task_pushed = λ t. true;
}

abbrev pub mounted : World
mounted = record start {
  drive = record no_drive {
    data_source = config_drive;
    config_drive_mount_path = str "/var/lib/ucd/config-2-abcdef";
    metadata_file = str "/var/lib/ucd/config-2-abcdef/openstack/latest/meta_data.json";
    userdata_file = str "/var/lib/ucd/userdata-abcdef";
  };
}

read_value-json_parse_example : read_value (json_parse (object members) false null) ≡ object members
read_value-json_parse_example = read_value-json_parse (object members) (
    plain_object _ (
      plain_member _ _ _ (plain_text _) (
        plain_member _ _ _ (plain_text _) (
          plain_member _ _ _ (plain_object _ (plain_member _ _ _ (plain_text _) plain_none))
            plain_none))))

json_parse-IsShaped_example : IsShaped (json_parse (object members) false null)
json_parse-IsShaped_example = json_parse-IsShaped (object members) false

process_metadata_file-pushed_example :
    let (r, v) = openstack_process_metadata_file host (str "/m.json") start in
    (r ≡ true)
    × (v.pushed ≡ member_tasks members)
    × (v.drive.options ≡ [])
    × (v.drive.metadata_node
        ≡ gnode (some (str "/m.json")) (json_parse (object members) false null) null)
process_metadata_file-pushed_example =
    process_metadata_file-pushed host (str "/m.json") members start (λ t. refl) refl refl refl refl

files-copies_example :
    let files =
      content_first (str "content/0000") (str "/etc/motd")
      ∷ path_first (str "content/0001") (str "/etc/issue")
      ∷ [] in
    openstack_metadata_files machine (json_parse (array (entry_array files)) false null) mounted
    ≡ copy_entries machine files mounted
unfolding str
files-copies_example =
    files-copies machine
      (content_first (str "content/0000") (str "/etc/motd")
        ∷ path_first (str "content/0001") (str "/etc/issue")
        ∷ [])
      mounted ((λ e. cc, λ e. cc), ((λ e. cc, λ e. cc), tt))

openstack_init-Searched_example : Searched 1020000 1 start (openstack_init host start)
openstack_init-Searched_example = openstack_init-Searched host start

openstack_finish-released_example : (openstack_finish host mounted).1 ≡ record mounted {
  drive = released mounted.drive;
  trace =
      (umount_filesystem machine devices mounted.drive.config_drive_mount_path none mounted).1.trace
      ++ removal mounted.drive.userdata_file;
}
openstack_finish-released_example = openstack_finish-released host mounted refl

processed : (openstack_process_metadata host mounted).0 ≡ true
unfolding openstack_process_metadata metadata_uncached marked read_mark metadata_unless
    metadata_source metadata_processed openstack_process_config_drive_metadata
    openstack_process_metadata_file openstack_metadata_load_options ensure_metadata
    openstack_load_metadata_file document_loaded
processed = refl

openstack_process_metadata_twice_example :
    let w' = (openstack_process_metadata host mounted).1 in
    openstack_process_metadata host w' ≡ (true, w')
openstack_process_metadata_twice_example = openstack_process_metadata_twice host mounted processed

-- A disk that can be mounted.
abbrev pub disk_os : Os
disk_os = record machine {
  stat_of = λ t p.
      if str_eq p (str "/dev/sr0")
      then some (record { is_dir = false; is_block = true; mode = 432; size = 0; dev = 5 })
      else none;
}

abbrev pub disk_host : Host
disk_host = record host { os = disk_os; devices = record devices { mount_done = λ t d m. true } }

abbrev found : World
found = record start {
  drive = record no_drive { data_source = config_drive; config_drive_disk = str "/dev/sr0" };
}

started : (openstack_start disk_host found).0 ≡ true
unfolding openstack_start start_source mount_drive mount_filesystem mount_found type_by_device
    probe_type mount_known mount_typed load_drive openstack_load_metadata_file document_loaded
    str_eq str
started = refl

openstack_start-NoUuid_example : NoUuid (openstack_start disk_host found).1
openstack_start-NoUuid_example = openstack_start-NoUuid disk_host found started

-- Each file holds the id of the boot.
abbrev some_stat : Stat
some_stat = record { is_dir = false; is_block = false; mode = 420; size = 6; dev = 0 }

abbrev booted : Host
booted = record host {
  os = record machine {
    contents = λ t path. some (str "boot-1");
    stat_of = λ t path. some some_stat;
  };
}

start-Begins : Begins booted.os (str "boot-1") start
start-Begins = record {
  unset = refl;
  unread = refl;
  reads = λ t. refl;
  marks = λ t. (str "boot-1", refl);
}

boot_id_held : some (str "boot-1") ≡ (get_boot_id booted.os (is_first_boot booted.os start).1).0
unfolding get_boot_id is_first_boot compare_boot_id str str_eq clip
boot_id_held = refl

openstack_process_metadata_again_example :
    let path = metadata_id_file booted.os in
    let v = (is_first_boot booted.os start).1 in
    openstack_process_metadata booted v ≡ (
      true,
      record v {
        drive = record v.drive { cache_metadata_id = true };
        trace = v.trace ++ (stat path ∷ (read_file path ∷ []));
      },
    )
unfolding str is_first_boot compare_boot_id get_boot_id str_eq
openstack_process_metadata_again_example =
    openstack_process_metadata_again booted booted (b'b') (str "oot-1") start start some_stat
      start-Begins start-Begins (λ t. refl) (λ t. boot_id_held) refl
