-- ===== src/Tests/Programs.antt =====
-- The program ucd and its work on a disk, on the example machine.
use micro_config_drive.Base.{
  ℕ, ◌+◌, ◌-◌, ◌*◌, ◌/◌, ◌++◌, ◌≤◌, ◌<◌, ◌^◌, Bytes, str, Option, none, some, [], ◌∷◌, true, false,
  ◌≡◌, ◌⊎◌, refl, arith,
}
use micro_config_drive.System.{Os}
use micro_config_drive.Disk.{blk_device_by_path, devname_of}
use micro_config_drive.Disk.Exceptions.{Parts, Partition, Device}
use micro_config_drive.Disk.Rootfs.{get_rootfs_partition}
use micro_config_drive.Disk.Search.{IsFirst, NoneMatches, get_rootfs_partition_cases}
use micro_config_drive.Disk.Fix.{disk_fix, end_sector}
use micro_config_drive.Disk.Fix.Objects.{objects, disk_fix-objects, end_sector_cases}
use micro_config_drive.Start.Metadata.{all_held}
use micro_config_drive.Base.{str_eq}
use micro_config_drive.OpenStack.{openstack_metadata_options}
use micro_config_drive.GNode.{append_node}
use micro_config_drive.Json.{json_parse, parse_members}
use micro_config_drive.OpenStack.Tasks.{find_option}
use micro_config_drive.Start.{Computer, process, run_tasks}
use micro_config_drive.Start.Options.{no_settings, settings}
use micro_config_drive.Start.Phases.{process_first_boot_setup}
use micro_config_drive.Start.Metadata.{reading, with_metadata, process_metadata}
use micro_config_drive.OpenStack.Tasks.{openstack_process_metadata_file}
use micro_config_drive.OpenStack.Pushed.{member_tasks}
use micro_config_drive.Tests.Machine.{machine, start}
use micro_config_drive.Tests.Devices.{blocks}
use micro_config_drive.Tests.Drives.{host, members}

-- Two partitions, of which the second holds the root file system.
abbrev part_of : ℕ → Option Partition
part_of n =
    some (record { num = n; first = n * 2048; last = n * 2048 + 2047; is_freespace = false })

abbrev path_of : ℕ → Option Bytes
path_of n = some (str "/dev/sda" ++ ((b'0' + n) ∷ []))

abbrev pub parts : Parts
parts = record {
  resizefs_path = str "/usr/sbin/resize2fs";
  device = λ t p. some (record { sector_size = 512; size = 20971520 });
  exceptions = λ t.
      record {
        message = str "Not all of the space available to /dev/sda";
        is_warning = true;
        can_fix = true;
      }
      ∷ [];
  disk_made = λ t hs. true;
  last_num = λ t. 2;
  partition = λ t n. part_of n;
  partition_path = λ t n. path_of n;
  by_sector = λ t n. none;
  geometry_made = λ t n. true;
  constraint_made = λ t. true;
  maximized = λ t n. true;
  geom_set = λ t a b. true;
  committed = λ t. true;
}

abbrev root_os : Os
root_os = record machine {
  stat_of =
      λ t p. some (record { is_dir = true; is_block = false; mode = 493; size = 0; dev = 2050 });
}

abbrev computer : Computer
computer = record { host = host; parts = parts; pool_made = λ t. true; picks = λ t. 1 ∷ (0 ∷ []) }

known : (blk_device_by_path root_os blocks (str "/") start).0 ≡ some (str "/dev/sda1")
unfolding blk_device_by_path devname_of
known = refl

get_rootfs_partition_cases_example :
    let r = (get_rootfs_partition root_os blocks parts start).0 in
    IsFirst part_of path_of (str "/dev/sda1") 1 (1 + 2) r
    ⊎ (NoneMatches path_of (str "/dev/sda1") 1 (1 + 2) × (r ≡ part_of 2))
get_rootfs_partition_cases_example =
    get_rootfs_partition_cases parts part_of path_of (λ t i. refl) (λ t i. refl) (str "/dev/sda1")
      root_os blocks start 1 (λ t. refl) known (λ k a b. (_, refl))

disk_fix-objects_example : objects (disk_fix root_os blocks parts (str "/dev/sda") start).1 ≡ (0, 0)
disk_fix-objects_example = disk_fix-objects root_os blocks parts (str "/dev/sda") start

end_sector_cases_example :
    let dev : Device = record { sector_size = 512; size = 20971520 } in
    (1048576 / 512 ≤ 20971520 → end_sector dev + 1048576 / 512 ≡ 20971520)
    × (20971520 < 1048576 / 512 → end_sector dev + (1048576 / 512 - 20971520) ≡ 2 ^ 64)
end_sector_cases_example =
    end_sector_cases (record { sector_size = 512; size = 20971520 }) (omega arith)

abbrev idle_computer : Computer
idle_computer = record computer { picks = λ t. [] }

held : all_held (member_tasks members) ≡ true
unfolding json_parse parse_members find_option openstack_metadata_options str_eq str append_node
held = refl

process_metadata_example :
    let path = str "/etc/meta_data.json" in
    let read =
      reading idle_computer path path members
        (λ t. refl)
        (λ t. refl)
        (λ t. refl)
        (λ t. refl)
        (λ t. refl)
        start in
    let v = (openstack_process_metadata_file host path read).1 in
    process idle_computer (settings (with_metadata path)) start ≡ (
      0,
      (run_tasks idle_computer
          (member_tasks members)
          (record v { thread_pool = false; pushed = [] })).1,
    )
process_metadata_example =
    process_metadata idle_computer (str "/etc/meta_data.json") (str "/etc/meta_data.json") members
      (λ t. refl) (λ t. refl) (λ t. refl) (λ t. refl) (λ t. refl) start refl refl refl held

process_first_boot_setup_example :
    process computer
      (settings (record no_settings { first_boot_setup = true; fix_disk = true }))
      start
    ≡ process computer (settings (record no_settings { fix_disk = true })) start
process_first_boot_setup_example =
    process_first_boot_setup computer
      (record no_settings { first_boot_setup = true; fix_disk = true }) start refl refl refl
