-- ===== src/Modules/Commands/Hostnames.antt =====
-- Which host name is set.
use micro_config_drive.Base.{take, [], ◌∷◌}
use micro_config_drive.System.{Os}
use micro_config_drive.GNode.{GNode, leaves}
use micro_config_drive.Shell.Batch.{Runs, Runs-skip, Runs-cons}
use micro_config_drive.Modules.Commands.{set_hostname, hostname_leaves, hostname_handler}

-- The hostname handler sets the name of the first leaf of its block, and no other.
hostname_handler-Runs :
    (os : Os) (node : GNode)
    → Runs os (set_hostname os) (hostname_handler os node) (take 1 (leaves node))
unfolding hostname_handler
hostname_handler-Runs os node =
    elim (leaves node) as (λ ls. Runs os (set_hostname os) (hostname_leaves os ls) (take 1 ls)) [
      | [] ↦ Runs-skip os (set_hostname os)
      | name ∷ names ↦ Runs-cons os (set_hostname os) name (Runs-skip os (set_hostname os))
    ]
