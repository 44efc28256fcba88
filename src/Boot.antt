-- ===== src/Boot.antt =====
-- Which boot this is: `get_boot_id`, `save_instance_id` and `is_first_boot` of src/lib.c.
pub mod Ids
use micro_config_drive.Base.{
  ℕ, Bytes, str, str_eq, clip, Option, none, some, List, [], ◌∷◌, ◌++◌, Bool, true, false,
  if◌then◌else◌,
}
use micro_config_drive.System.{Os, Call, stat, read_file, remove}
use micro_config_drive.System.Io.{World, Io, FirstBoot, ◌>>=◌, ◌>>◌, pure, call}
use micro_config_drive.Files.{write_file, create_new, mode_600}

-- `BOOT_ID_SIZE`
abbrev pub boot_id_size : ℕ
boot_id_size = 32

-- `KERNEL_BOOT_ID_FILE`, `INSTANCE_ID_FILE` and `FIRST_BOOT_ID_FILE`
unfoldable pub kernel_boot_id_file : Bytes
unfolding str
kernel_boot_id_file = str "/proc/sys/kernel/random/boot_id"

abbrev pub instance_id_file : Os → Bytes
instance_id_file os = os.datadir_path ++ str "/instance-id"

abbrev pub first_boot_id_file : Os → Bytes
first_boot_id_file os = os.datadir_path ++ str "/first-boot-id"

-- NULL is `none`. The first success fills the static buffer, and later calls are served from it.
unfoldable pub get_boot_id : Os → Io (Option Bytes)
get_boot_id os w = elim w.cache_boot_id [
  | c ∷ cs ↦ (some (c ∷ cs), w)
  | [] ↦
      (do
        boot_id ← call (read_file kernel_boot_id_file) (λ t. os.contents t kernel_boot_id_file)
        elim boot_id [
          | none ↦ pure none
          | some id ↦ λ v. (some id, record v { cache_boot_id = clip boot_id_size id })
        ])
        w
]

-- `save_instance_id`: a new instance id also removes the mark of the first boot.
unfoldable pub save_instance_id : Os → Bytes → Io Bool
save_instance_id os instance_id = do
  let path = instance_id_file os
  found ← call (stat path) (λ t. os.stat_of t path)
  elim found [
    | none ↦ write_file os instance_id path create_new mode_600
    | some st ↦ do
      last ← call (read_file path) (λ t. os.contents t path)
      elim last [
        | none ↦ pure false
        | some last_instance_id ↦ if str_eq instance_id last_instance_id then pure true else do
          saved ← write_file os instance_id path create_new mode_600
          if saved
              then (do call (remove (first_boot_id_file os)) (λ t. tt); pure true)
              else pure false
      ]
  ]

abbrev pub set_firstboot : FirstBoot → Io (Unit {0})
set_firstboot v w = (tt, record w { cache_firstboot = v })

-- The value of `cache_firstboot` as the result.
abbrev pub cached_firstboot : Io Bool
cached_firstboot w = (elim w.cache_firstboot [ FirstBoot.first ↦ true | _ ↦ false ], w)

-- The branch of `is_first_boot` where the mark is there and nothing is cached.
unfoldable pub compare_boot_id : Os → Io (Unit {0})
compare_boot_id os = do
  let path = first_boot_id_file os
  stored ← call (read_file path) (λ t. os.contents t path)
  elim stored [
    | none ↦ pure tt
    | some first_boot_id ↦ do
      boot_id ← get_boot_id os
      elim boot_id [
        | none ↦ set_firstboot FirstBoot.no_boot
        | some id ↦
            if str_eq first_boot_id id
            then set_firstboot FirstBoot.first
            else set_firstboot FirstBoot.no_boot
      ]
  ]

-- The branch of `is_first_boot` where there is no mark: this boot is the first, and is marked.
unfoldable pub mark_first_boot : Os → Io (Unit {0})
mark_first_boot os = do
  set_firstboot FirstBoot.first
  boot_id ← get_boot_id os
  elim boot_id [
    | none ↦ pure tt
    | some id ↦ do write_file os id (first_boot_id_file os) create_new mode_600; pure tt
  ]

unfoldable pub is_first_boot : Os → Io Bool
is_first_boot os = do
  let path = first_boot_id_file os
  found ← call (stat path) (λ t. os.stat_of t path)
  elim found [
    | none ↦ mark_first_boot os
    | some st ↦ λ w. elim w.cache_firstboot [ FirstBoot.unset ↦ compare_boot_id os w | _ ↦ (tt, w) ]
  ]
  cached_firstboot
