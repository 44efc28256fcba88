-- ===== src/Start/Pending/Mounts.antt =====
-- The mounting of a drive hands no function to the pool of threads.
use micro_config_drive.Base.{ℕ, zero, suc, ◌+◌, Bytes, Option, none, some, Bool, true, false, refl}
use micro_config_drive.System.{Os, Stat, stat}
use micro_config_drive.System.Io.{pure}
use micro_config_drive.System.Views.{
  Keeps, Keeps-pure, Keeps-bind, Keeps-option, the_pool, pool-call, view_rules, pool-OnlyCalls,
}
use micro_config_drive.Files.Variables.{make_dir-OnlyCalls}
use micro_config_drive.Disk.{Blocks, disk_by_label, type_by_device, probe_type}
use micro_config_drive.Mounts.{
  Devices, find_loop, loop_name, close_nonzero, set_status, hand_back, mount_loop, attach,
  with_loop, open_loop, make_loop, mount_typed, mount_known, mount_found, mount_filesystem,
}

pub disk_by_label-pool : (b : Blocks) (label : Bytes) → Keeps the_pool (disk_by_label b label)
unfolding disk_by_label
disk_by_label-pool b label = search view_rules depth 14

type_by_device-pool : (b : Blocks) (device : Bytes) → Keeps the_pool (type_by_device b device)
unfolding type_by_device probe_type
type_by_device-pool b device = search view_rules depth 14

module _ (os : Os) (dev : Devices) where
  find_loop-pool : (left minor_id : ℕ) → Keeps the_pool (find_loop os left minor_id)
  unfolding find_loop
  find_loop-pool zero minor_id = Keeps-pure none
  find_loop-pool (suc left) minor_id =
      let name = loop_name minor_id in
      Keeps-bind _ _ (pool-call (stat name) (λ t. os.stat_of t name)) (λ found.
        Keeps-option found (pure (some minor_id)) (λ st. find_loop os left (minor_id + 1))
          (Keeps-pure (some minor_id)) (λ st. find_loop-pool left (minor_id + 1)))

  close_nonzero-pool : (fd : ℕ) → Keeps the_pool (close_nonzero os fd)
  unfolding close_nonzero
  close_nonzero-pool fd = search view_rules depth 10

  set_status-pool :
      (device loop_device : Bytes) (loopfd : ℕ)
      → Keeps the_pool (set_status dev device loop_device loopfd)
  unfolding set_status
  set_status-pool device loop_device loopfd = search view_rules depth 12

  hand_back-pool : (loop_device : Bytes) → Keeps the_pool (hand_back loop_device)
  hand_back-pool loop_device = record { same = λ w. refl }

  mount_loop-pool :
      (device mountdir devtype loop_device : Bytes) (loopfd : ℕ)
      → Keeps the_pool (mount_loop os dev device mountdir devtype loop_device loopfd)
  unfolding mount_loop
  mount_loop-pool device mountdir devtype loop_device loopfd =
      search (view_rules, set_status-pool, hand_back-pool, pool-OnlyCalls, make_dir-OnlyCalls) depth
        14

  attach-pool :
      (device mountdir devtype loop_device : Bytes) (loopfd : ℕ) (file : Option ℕ)
      → Keeps the_pool (attach os dev device mountdir devtype loop_device loopfd file)
  unfolding attach
  attach-pool device mountdir devtype loop_device loopfd none = Keeps-pure false
  attach-pool device mountdir devtype loop_device loopfd (some fd) =
      search (view_rules, mount_loop-pool, close_nonzero-pool) depth 12

  with_loop-pool :
      (device mountdir devtype loop_device : Bytes) (loopfd : Option ℕ)
      → Keeps the_pool (with_loop os dev device mountdir devtype loop_device loopfd)
  unfolding with_loop
  with_loop-pool device mountdir devtype loop_device none = search view_rules depth 10
  with_loop-pool device mountdir devtype loop_device (some fd) =
      search (view_rules, attach-pool, close_nonzero-pool) depth 12

  make_loop-pool :
      (device mountdir devtype : Bytes) (minor_id : Option ℕ)
      → Keeps the_pool (make_loop os dev device mountdir devtype minor_id)
  unfolding make_loop open_loop
  make_loop-pool device mountdir devtype none = Keeps-pure false
  make_loop-pool device mountdir devtype (some minor_id) =
      search (view_rules, with_loop-pool) depth 14

  mount_typed-pool :
      (device mountdir devtype : Bytes) (block : Bool)
      → Keeps the_pool (mount_typed os dev device mountdir devtype block)
  unfolding mount_typed
  mount_typed-pool device mountdir devtype true = pool-call _ _
  mount_typed-pool device mountdir devtype false =
      Keeps-bind _ _ (find_loop-pool 8 0) (make_loop-pool device mountdir devtype)

  mount_known-pool :
      (device mountdir : Bytes) (st : Stat) (devtype : Option Bytes)
      → Keeps the_pool (mount_known os dev device mountdir st devtype)
  unfolding mount_known
  mount_known-pool device mountdir st none = Keeps-pure false
  mount_known-pool device mountdir st (some devtype) = mount_typed-pool device mountdir devtype _

  mount_found-pool :
      (device mountdir : Bytes) (found : Option Stat)
      → Keeps the_pool (mount_found os dev device mountdir found)
  unfolding mount_found
  mount_found-pool device mountdir none = Keeps-pure false
  mount_found-pool device mountdir (some st) =
      Keeps-bind _ _ (type_by_device-pool dev.blocks device) (mount_known-pool device mountdir st)

  pub mount_filesystem-pool :
      (device mountdir : Bytes) → Keeps the_pool (mount_filesystem os dev device mountdir)
  unfolding mount_filesystem
  mount_filesystem-pool device mountdir = search (view_rules, mount_found-pool) depth 10
