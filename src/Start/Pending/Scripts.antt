-- ===== src/Start/Pending/Scripts.antt =====
-- A file of user data hands no function to the pool of threads.
use micro_config_drive.Base.{
  ℕ, Bytes, Option, none, some, List, [], ◌∷◌, Bool, true, false, refl, data_eq, Bool-cases, inl,
  inr,
}
use micro_config_drive.System.{Os, Trace, fopen, fclose}
use micro_config_drive.System.Io.{World, skip, call}
use micro_config_drive.System.Views.{
  Keeps, Keeps-pure, Keeps-seq, Keeps-bind, Keeps-option, the_pool, pool-call, view_rules,
}
use micro_config_drive.GNode.{GNode, null, gnode}
use micro_config_drive.Yaml.{Event}
use micro_config_drive.Fetch.Stream.{Line}
use micro_config_drive.Userdata.{
  Handler, cc_module_structs, prepend_all, find_handler, run_handler, process_blocks, clear_global,
  read_userdata, cloud_config_process, cloud_config_main, run_script, make_executable,
  shell_script_main, interpret, close_and_interpret, process_open_file, userdata_process_file,
}
use micro_config_drive.Start.Pending.Handlers.{exec_task-pool}
use micro_config_drive.Start.Pending.Directives.{
  groups_handler-pool, runcmd_handler-pool, fbootcmd_handler-pool, service_handler-pool,
  hostname_handler-pool, packages_handler-pool, package_upgrade_handler-pool,
  wait_for_network_handler-pool,
}
use micro_config_drive.Start.Pending.Accounts.{
  envar_handler-pool, ssh_authorized_keys_handler-pool, users_handler-pool,
  write_files_handler-pool,
}

-- Every handler of the list keeps the pool.
abbrev AllKeep : List (Bytes × Handler) → Type 0
AllKeep [] = Unit
AllKeep (h ∷ hs) = ((os : Os) (node : GNode) → Keeps the_pool (h.1 os node)) × AllKeep hs

AllKeep-prepend_all :
    (hs handlers : List (Bytes × Handler))
    → AllKeep hs
    → AllKeep handlers
    → AllKeep (prepend_all hs handlers)
unfolding prepend_all
AllKeep-prepend_all [] handlers p q = q
AllKeep-prepend_all (h ∷ hs) handlers p q = AllKeep-prepend_all hs (h ∷ handlers) p.1 (p.0, q)

AllKeep-cc_module_structs : AllKeep cc_module_structs
unfolding cc_module_structs
AllKeep-cc_module_structs = (
  package_upgrade_handler-pool,
  (
    write_files_handler-pool,
    (
      packages_handler-pool,
      (
        groups_handler-pool,
        (
          users_handler-pool,
          (
            ssh_authorized_keys_handler-pool,
            (
              service_handler-pool,
              (
                hostname_handler-pool,
                (
                  runcmd_handler-pool,
                  (
                    envar_handler-pool,
                    (fbootcmd_handler-pool, (wait_for_network_handler-pool, tt)),
                  ),
                ),
              ),
            ),
          ),
        ),
      ),
    ),
  ),
)

found_handler-pool :
    (os : Os) (name : Option Bytes) (hs : List (Bytes × Handler)) (node : GNode)
    → AllKeep hs
    → Keeps the_pool (run_handler os (find_handler name hs) node)
unfolding find_handler run_handler
found_handler-pool os name [] node p = Keeps-pure tt
found_handler-pool os name ((n, h) ∷ hs) node p = elim (Bool-cases (data_eq name n)) [
  | inl e ↦ rw (e, find_handler) (p.0 os node)
  | inr e ↦ rw (e, find_handler) (found_handler-pool os name hs node p.1)
]

process_blocks-pool :
    (os : Os) (hs : List (Bytes × Handler)) (node : GNode)
    → AllKeep hs
    → Keeps the_pool (process_blocks os hs node)
unfolding process_blocks
process_blocks-pool os hs null p = Keeps-pure tt
process_blocks-pool os hs (gnode d c n) p =
    Keeps-seq (found_handler-pool os d hs (gnode d c n) p) (process_blocks-pool os hs n p)

cloud_config_process-pool :
    (os : Os) (userdata : GNode)
    → Keeps the_pool (cloud_config_process os (prepend_all cc_module_structs []) userdata)
unfolding cloud_config_process
cloud_config_process-pool os userdata =
    process_blocks-pool os _ _
      (AllKeep-prepend_all cc_module_structs [] AllKeep-cc_module_structs tt)

clear_global-pool : Keeps the_pool clear_global
clear_global-pool = record { same = λ w. refl }

module _ (os : Os) (libyaml : Trace → Bytes → List Event) (filename : Bytes) where
  cloud_config_main-pool : Keeps the_pool (cloud_config_main os libyaml filename)
  unfolding cloud_config_main
  cloud_config_main-pool =
      let read : Keeps the_pool (λ (w : World). (libyaml w.trace filename, w)) = record {
        same = λ w. refl;
      } in
      Keeps-seq clear_global-pool (
        Keeps-bind _ _ (pool-call (fopen filename) (λ t. os.fopen_file t filename)) (λ file.
          Keeps-bind _ _ read (λ events.
            Keeps-seq
              (Keeps-option file skip (λ fd. call (fclose fd) (λ t. tt)) (Keeps-pure tt)
                (λ fd. pool-call (fclose fd) (λ t. tt)))
              (Keeps-seq (cloud_config_process-pool os (read_userdata events filename))
                (Keeps-seq clear_global-pool (Keeps-pure 0))))))

  run_script-pool : (path : Bytes) (changed : Bool) → Keeps the_pool (run_script os path changed)
  unfolding run_script
  run_script-pool path false = Keeps-pure 1
  run_script-pool path true = Keeps-seq (exec_task-pool os path) (Keeps-pure 0)

  make_executable-pool : (path : Option Bytes) → Keeps the_pool (make_executable os path)
  unfolding make_executable
  make_executable-pool none = Keeps-pure 1
  make_executable-pool (some path) = search (view_rules, run_script-pool) depth 10

  shell_script_main-pool : Keeps the_pool (shell_script_main os filename)
  unfolding shell_script_main
  shell_script_main-pool = search (view_rules, make_executable-pool) depth 10

  interpret-pool : (shebang : Bytes) → Keeps the_pool (interpret os libyaml filename shebang)
  unfolding interpret
  interpret-pool shebang =
      search (view_rules, cloud_config_main-pool, shell_script_main-pool) depth 12

  close_and_interpret-pool :
      (fd : ℕ) (line : Option Line)
      → Keeps the_pool (close_and_interpret os libyaml filename fd line)
  unfolding close_and_interpret
  close_and_interpret-pool fd none = Keeps-pure false
  close_and_interpret-pool fd (some l) = search (view_rules, interpret-pool) depth 12

  process_open_file-pool :
      (file : Option ℕ) → Keeps the_pool (process_open_file os libyaml filename file)
  unfolding process_open_file
  process_open_file-pool none = Keeps-pure false
  process_open_file-pool (some fd) = record { same = λ w. (close_and_interpret-pool fd _).same w }

  pub userdata_process_file-pool : Keeps the_pool (userdata_process_file os libyaml filename)
  unfolding userdata_process_file
  userdata_process_file-pool = search (view_rules, process_open_file-pool) depth 10
