-- ===== src/Tests/Boots.antt =====
-- The boot, the files and the network of the example machine.
use micro_config_drive.Base.{str, str_eq, take, none, some, [], ◌∷◌, true, ◌≡◌, refl, ◌⊎◌, ◌↔◌}
use micro_config_drive.System.{stat}
use micro_config_drive.System.Io.{FirstBoot, NetworkWait}
use micro_config_drive.Boot.{get_boot_id, is_first_boot, first_boot_id_file, kernel_boot_id_file}
use micro_config_drive.Boot.Ids.{after, SameBoot, get_boot_id_twice, is_first_boot_iff}
use micro_config_drive.Tests.Machine.{machine, start}

get_boot_id_twice_example :
    let w' = record (get_boot_id machine start).1 { do_network_wait = NetworkWait.waited } in
    ((get_boot_id machine start).0 ≡ some (str "5f0c6a1e-52c1-4f6e-9a55-0a4b1d1b7c21"))
    × (get_boot_id machine w' ≡ (some (take 31 (str "5f0c6a1e-52c1-4f6e-9a55-0a4b1d1b7c21")), w'))
unfolding str str_eq kernel_boot_id_file
get_boot_id_twice_example =
    get_boot_id_twice machine start
      (record (get_boot_id machine start).1 { do_network_wait = NetworkWait.waited }) 53
      (str "f0c6a1e-52c1-4f6e-9a55-0a4b1d1b7c21") refl refl refl

is_first_boot_iff_example :
    let mark = first_boot_id_file machine in
    ((is_first_boot machine start).0 ≡ true) ↔ (
      (machine.stat_of [] mark ≡ none)
      ⊎ ((start.cache_firstboot ≡ FirstBoot.first)
          ⊎ ((start.cache_firstboot ≡ FirstBoot.unset)
              × SameBoot machine (after start (stat mark ∷ [])))))
is_first_boot_iff_example = is_first_boot_iff machine start
