-- ===== src/Modules/Network.antt =====
-- src/ccmodules/wait-for-network.c, packages.c and package_upgrade.c.
pub mod Wait
use micro_config_drive.Base.{
  ℕ, zero, suc, ◌+◌, ◌*◌, Bytes, str, clip, shown, Option, none, some, List, [], ◌∷◌, ◌++◌, Bool,
  true, false, ltb, if◌then◌else◌,
}
use micro_config_drive.System.{
  Os, Call, PackageManager, swupd, yum, dnf, apt, tdnf, resolve_name, usleep,
}
use micro_config_drive.System.Io.{World, Io, NetworkWait, ◌>>=◌, ◌>>◌, pure, skip, call}
use micro_config_drive.GNode.{GNode, null, gnode, children, leaves}
use micro_config_drive.Shell.{exec_task}
use micro_config_drive.CloudConfig.{cloud_config_bool}

abbrev pub set_network_wait : NetworkWait → Io (Unit {0})
set_network_wait v w = (tt, record w { do_network_wait = v })

-- The loop of `wait_for_network` on fuel; `none` means that the fuel ran out.
unfoldable pub wait_loop : ℕ → Os → ℕ → ℕ → Io (Option (Unit {0}))
wait_loop zero os slept times = pure none
wait_loop (suc fuel) os slept times = do
  found ← call resolve_name os.name_resolves
  let times' = if ltb times 10 then times + 1 else times
  let slept' = slept + times'
  if found then pure (some tt) else elim (ltb 3000 slept') [
    | true ↦ pure (some tt)
    | false ↦ do call (usleep (times' * 100000)) (λ t. tt); wait_loop fuel os slept' times'
  ]

-- Each round sleeps for at least one tenth of a second, so 3001 rounds are enough.
abbrev pub wait_fuel : ℕ
wait_fuel = 3001

abbrev pub must_wait : NetworkWait → Bool
must_wait NetworkWait.unset = true
must_wait NetworkWait.dont_wait = false
must_wait NetworkWait.wait = true
must_wait NetworkWait.waited = false

unfoldable pub wait_for_network : Os → Io (Unit {0})
wait_for_network os w =
    if must_wait w.do_network_wait
    then (do set_network_wait NetworkWait.waited; wait_loop wait_fuel os 0 0; skip) w
    else (tt, w)

unfoldable pub wait_for_network_handler : Os → GNode → Io (Unit {0})
wait_for_network_handler os node w = elim (children node) [
  | null ↦ (tt, w)
  | gnode d c n ↦
      let (known, do_wait) = cloud_config_bool os (gnode d c n) (os.uninitialised w.trace) in
      if known
      then (if do_wait
          then (do set_network_wait NetworkWait.wait; wait_for_network os) w
          else set_network_wait NetworkWait.dont_wait w)
      else (tt, w)
]

-- `COMMAND_SIZE` of packages.c
abbrev pub package_command_size : ℕ
package_command_size = 256

abbrev pub install_prefix : PackageManager → Bytes
install_prefix swupd = str "/usr/bin/swupd bundle-add "
install_prefix yum = str "/usr/bin/yum --assumeyes install "
install_prefix dnf = str "/usr/bin/dnf install "
install_prefix apt = str "/usr/bin/apt-get install "
install_prefix tdnf = str "/usr/bin/tdnf --assumeyes install "

abbrev pub install_command : Os → Option Bytes → Bytes
install_command os name =
    clip package_command_size (install_prefix os.package_manager ++ shown name)

-- `packages_item` on each leaf.
unfoldable pub packages_items : Os → List (Option Bytes) → Io (Unit {0})
packages_items os [] = skip
packages_items os (name ∷ names) = do
  wait_for_network os
  exec_task os (install_command os name)
  packages_items os names

unfoldable pub packages_handler : Os → GNode → Io (Unit {0})
packages_handler os node = packages_items os (leaves node)

abbrev pub upgrade_command : PackageManager → Bytes
upgrade_command swupd = str "/usr/bin/swupd update"
upgrade_command yum = str "/usr/bin/yum update"
upgrade_command dnf = str "/usr/bin/dnf update --refresh"
upgrade_command apt = str "/usr/bin/apt-get upgrade"
upgrade_command tdnf = str "/usr/bin/tdnf update --refresh --assumeyes"

unfoldable pub package_upgrade_handler : Os → GNode → Io (Unit {0})
package_upgrade_handler os node w = elim (children node) [
  | null ↦ (tt, w)
  | gnode d c n ↦
      let (known, do_upgrade) = cloud_config_bool os (gnode d c n) (os.uninitialised w.trace) in
      if known
      then (if do_upgrade
          then (do wait_for_network os; exec_task os (upgrade_command os.package_manager); skip) w
          else (tt, w))
      else (tt, w)
]
