-- ===== src/Start/Pending/Directives.antt =====
-- The handlers of the blocks hand no function to the pool of threads.
use micro_config_drive.Base.{
  ℕ, zero, suc, Bytes, str, Option, none, some, List, [], ◌∷◌, ◌++◌, Bool, true, false, refl, ltb,
  if◌then◌else◌, ◌∙◌, ◌*◌, ◌+◌, Bool-cases, inl, inr,
}
use micro_config_drive.System.{Os, resolve_name, usleep}
use micro_config_drive.System.Io.{Io, NetworkWait, pure}
use micro_config_drive.System.Views.{
  Keeps, Keeps-pure, Keeps-seq, Keeps-bind, Keeps-if, the_pool, pool-call, view_rules,
}
use micro_config_drive.GNode.{GNode, null, gnode, children, leaves}
use micro_config_drive.CloudConfig.{cloud_config_bool}
use micro_config_drive.Modules.Groups.{groups_items, groups_handler}
use micro_config_drive.Modules.Commands.{
  runcmd_items, runcmd_handler, fbootcmd_items, fbootcmd_handler, service_actions, service_item,
  service_items, service_handler, hostname_leaves, hostname_handler,
}
use micro_config_drive.Modules.Network.{
  wait_loop, wait_for_network, wait_for_network_handler, packages_items, packages_handler,
  package_upgrade_handler, wait_fuel, must_wait,
}
use micro_config_drive.Start.Pending.Handlers.{exec_task-pool, is_first_boot-pool}

groups_items-pool :
    (os : Os) (group : Option Bytes) (node : GNode) → Keeps the_pool (groups_items os group node)
unfolding groups_items
groups_items-pool os group null = Keeps-pure tt
groups_items-pool os group (gnode none c n) =
    Keeps-seq (groups_items-pool os group c) (groups_items-pool os group n)
groups_items-pool os none (gnode (some name) c n) =
    Keeps-seq (exec_task-pool os _)
      (Keeps-seq (groups_items-pool os (some name) c) (groups_items-pool os none n))
groups_items-pool os (some group) (gnode (some user) c n) =
    Keeps-seq (exec_task-pool os _) (groups_items-pool os (some group) n)

pub groups_handler-pool : (os : Os) (node : GNode) → Keeps the_pool (groups_handler os node)
unfolding groups_handler
groups_handler-pool os node = groups_items-pool os none (children node)

runcmd_items-pool :
    (os : Os) (line : Bytes) (node : GNode) → Keeps the_pool (runcmd_items os line node)
unfolding runcmd_items
runcmd_items-pool os line null = Keeps-pure line
runcmd_items-pool os line (gnode none c n) =
    Keeps-bind _ _ (runcmd_items-pool os line c)
      (λ line'. Keeps-seq (exec_task-pool os line') (runcmd_items-pool os [] n))
runcmd_items-pool os line (gnode (some word) c n) =
    runcmd_items-pool os (line ++ (word ++ str " ")) n

pub runcmd_handler-pool : (os : Os) (node : GNode) → Keeps the_pool (runcmd_handler os node)
unfolding runcmd_handler
runcmd_handler-pool os node = Keeps-seq (runcmd_items-pool os [] (children node)) (Keeps-pure tt)

fbootcmd_items-pool :
    (os : Os) (line : Bytes) (node : GNode) → Keeps the_pool (fbootcmd_items os line node)
unfolding fbootcmd_items
fbootcmd_items-pool os line null = Keeps-pure line
fbootcmd_items-pool os line (gnode none c n) =
    Keeps-bind _ _ (fbootcmd_items-pool os line c)
      (λ line'. Keeps-seq (exec_task-pool os line') (fbootcmd_items-pool os [] n))
fbootcmd_items-pool os line (gnode (some word) c n) =
    fbootcmd_items-pool os (line ++ (word ++ str " ")) n

pub fbootcmd_handler-pool : (os : Os) (node : GNode) → Keeps the_pool (fbootcmd_handler os node)
unfolding fbootcmd_handler
fbootcmd_handler-pool os node =
    search (view_rules, is_first_boot-pool, fbootcmd_items-pool) depth 12

service_actions-pool :
    (os : Os) (action : Option Bytes) (names : List (Option Bytes))
    → Keeps the_pool (service_actions os action names)
unfolding service_actions
service_actions-pool os action [] = Keeps-pure tt
service_actions-pool os action (name ∷ names) =
    Keeps-seq (exec_task-pool os _) (service_actions-pool os action names)

service_item-pool : (os : Os) (node : GNode) → Keeps the_pool (service_item os node)
unfolding service_item
service_item-pool os node = search (view_rules, service_actions-pool) depth 12

service_items-pool : (os : Os) (node : GNode) → Keeps the_pool (service_items os node)
unfolding service_items
service_items-pool os null = Keeps-pure tt
service_items-pool os (gnode d c n) =
    Keeps-seq (service_item-pool os (gnode d c n)) (service_items-pool os n)

pub service_handler-pool : (os : Os) (node : GNode) → Keeps the_pool (service_handler os node)
unfolding service_handler
service_handler-pool os node = service_items-pool os (children node)

hostname_leaves-pool :
    (os : Os) (names : List (Option Bytes)) → Keeps the_pool (hostname_leaves os names)
unfolding hostname_leaves
hostname_leaves-pool os [] = Keeps-pure tt
hostname_leaves-pool os (name ∷ names) = Keeps-seq (exec_task-pool os _) (Keeps-pure tt)

pub hostname_handler-pool : (os : Os) (node : GNode) → Keeps the_pool (hostname_handler os node)
unfolding hostname_handler
hostname_handler-pool os node = hostname_leaves-pool os (leaves node)

wait_again-pool :
    (over : Bool) (again : Io (Option (Unit {0})))
    → Keeps the_pool again
    → Keeps the_pool
        (elim over as (λ _. Io (Option (Unit {0}))) [ true ↦ pure (some tt) | false ↦ again ])
wait_again-pool true again p = Keeps-pure (some tt)
wait_again-pool false again p = p

wait_loop-pool :
    (fuel : ℕ) (os : Os) (slept times : ℕ) → Keeps the_pool (wait_loop fuel os slept times)
unfolding wait_loop
wait_loop-pool zero os slept times = Keeps-pure none
wait_loop-pool (suc fuel) os slept times =
    let times' = if ltb times 10 then times + 1 else times in
    Keeps-bind _ _ (pool-call resolve_name os.name_resolves) (λ found.
      Keeps-if found _ _ (Keeps-pure (some tt)) (
        wait_again-pool (ltb 3000 (slept + times')) _ (
          Keeps-seq (pool-call (usleep (times' * 100000)) (λ t. tt))
            (wait_loop-pool fuel os (slept + times') times'))))

pub wait_for_network-pool : (os : Os) → Keeps the_pool (wait_for_network os)
unfolding wait_for_network
wait_for_network-pool os = record {
  same = λ w. elim (Bool-cases (must_wait w.do_network_wait)) [
    | inl y ↦
        rw (wait_for_network, y)
          ((wait_loop-pool wait_fuel os 0 0).same
            (record w { do_network_wait = NetworkWait.waited }))
    | inr n ↦ rw (wait_for_network, n) refl
  ];
}

packages_items-pool :
    (os : Os) (names : List (Option Bytes)) → Keeps the_pool (packages_items os names)
unfolding packages_items
packages_items-pool os [] = Keeps-pure tt
packages_items-pool os (name ∷ names) =
    Keeps-seq (wait_for_network-pool os)
      (Keeps-seq (exec_task-pool os _) (packages_items-pool os names))

pub packages_handler-pool : (os : Os) (node : GNode) → Keeps the_pool (packages_handler os node)
unfolding packages_handler
packages_handler-pool os node = packages_items-pool os (leaves node)

pub wait_for_network_handler-pool :
    (os : Os) (node : GNode) → Keeps the_pool (wait_for_network_handler os node)
unfolding wait_for_network_handler
wait_for_network_handler-pool os null = record { same = λ w. refl }
wait_for_network_handler-pool os (gnode d null n) = record { same = λ w. refl }
wait_for_network_handler-pool os (gnode d (gnode e c n') n) = record {
  same = λ w.
      let parsed = cloud_config_bool os (gnode e c n') (os.uninitialised w.trace) in
      elim (Bool-cases (parsed.0)) [
        | inl y ↦ elim (Bool-cases (parsed.1)) [
          | inl z ↦
              rw (wait_for_network_handler, y, z)
                ((wait_for_network-pool os).same (record w { do_network_wait = NetworkWait.wait }))
          | inr z ↦ rw (wait_for_network_handler, y, z) refl
        ]
        | inr y ↦ rw (wait_for_network_handler, y) refl
      ];
}

pub package_upgrade_handler-pool :
    (os : Os) (node : GNode) → Keeps the_pool (package_upgrade_handler os node)
unfolding package_upgrade_handler
package_upgrade_handler-pool os null = record { same = λ w. refl }
package_upgrade_handler-pool os (gnode d null n) = record { same = λ w. refl }
package_upgrade_handler-pool os (gnode d (gnode e c n') n) = record {
  same = λ w.
      let parsed = cloud_config_bool os (gnode e c n') (os.uninitialised w.trace) in
      elim (Bool-cases (parsed.0)) [
        | inl y ↦ elim (Bool-cases (parsed.1)) [
          | inl z ↦
              rw (package_upgrade_handler, y, z)
                ((exec_task-pool os _).same _ ∙ (wait_for_network-pool os).same w)
          | inr z ↦ rw (package_upgrade_handler, y, z) refl
        ]
        | inr y ↦ rw (package_upgrade_handler, y) refl
      ];
}
