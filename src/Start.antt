-- ===== src/Start.antt =====
-- src/main.c: the program ucd, from its options to its exit status.
pub mod Options
pub mod DefaultUser
pub mod Phases
pub mod Pending
pub mod Pool
pub mod Metadata
use micro_config_drive.Base.{
  ℕ, zero, suc, Bytes, str, clip, line_max, Option, none, some, List, [], ◌∷◌, ◌++◌, Bool, true,
  false, ◌&&◌, ◌||◌, not, if◌then◌else◌,
}
use micro_config_drive.System.{Os, Trace, Passwd, realpath, geteuid, getpwnam}
use micro_config_drive.System.Drive.{Task, metadata, fixdisk}
use micro_config_drive.System.Io.{World, Io, ◌>>=◌, ◌>>◌, pure, skip, call}
use micro_config_drive.Files.{make_dir, write_sudo_directives, create_new, mode_700}
use micro_config_drive.Shell.{exec_task}
use micro_config_drive.Boot.{is_first_boot}
use micro_config_drive.Userdata.{userdata_process_file}
use micro_config_drive.Modules.Keys.{default_user}
use micro_config_drive.Disk.{disk_by_path}
use micro_config_drive.Disk.Exceptions.{Parts}
use micro_config_drive.Disk.Fix.{disk_fix}
use micro_config_drive.OpenStack.{Host}
use micro_config_drive.OpenStack.Handlers.{run_func}
use micro_config_drive.OpenStack.Tasks.{push, openstack_process_metadata_file}
use micro_config_drive.OpenStack.Datasource.{openstack_init, openstack_start}
use micro_config_drive.OpenStack.Process.{
  openstack_process_metadata, openstack_process_userdata, openstack_finish,
  openstack_process_config_drive,
}
use micro_config_drive.Start.DefaultUser.{
  default_user_home_dir, default_user_groups, default_user_inactive, default_user_expiredate,
  default_user_shell, default_user_gecos, default_user_password, default_user_sudo,
}
use micro_config_drive.Start.Options.{
  Opt, Settings, Parsed, settings, exits, no_settings, read_options,
}

-- The machine with libparted, whether the pool of threads can be made, and which of the functions that wait
-- in the pool its threads run before the main thread comes to its next phase: the place of each among
-- those that wait, from the first that is run on.
pub record Computer : Type 0 where
  pub host : Host
  pub parts : Parts
  pub pool_made : Trace → Bool
  pub picks : Trace → List ℕ

unfoldable pub fix_found : Computer → Option Bytes → Io (Unit {0})
fix_found c none = skip
fix_found c (some root_disk) = do disk_fix c.host.os c.host.devices.blocks c.parts root_disk; skip

-- `async_fixdisk`, whose result the pool drops.
unfoldable pub async_fixdisk : Computer → Io (Unit {0})
async_fixdisk c = do
  root_disk ← disk_by_path c.host.os c.host.devices.blocks (str "/")
  fix_found c root_disk

unfoldable pub run_task : Computer → Task → Io (Unit {0})
run_task c (metadata func node) = run_func c.host.os func node
run_task c fixdisk = async_fixdisk c

abbrev pub note_ran : Task → Io (Unit {0})
note_ran task w = (tt, record w { ran = w.ran ++ (task ∷ []) })

unfoldable pub run_tasks : Computer → List Task → Io (Unit {0})
run_tasks c [] = skip
run_tasks c (task ∷ tasks) = do run_task c task; note_ran task; run_tasks c tasks

-- `async_task_init`
abbrev pub init_pool : Computer → Io (Unit {0})
init_pool c w = (tt, record w { thread_pool = c.pool_made w.trace })

-- One of the functions that wait, and the others.
unfoldable pub pick : ℕ → List Task → Option (Task × List Task)
pick n [] = none
pick zero (task ∷ tasks) = some (task, tasks)
pick (suc n) (task ∷ tasks) = elim (pick n tasks) [
  | none ↦ none
  | some (found, others) ↦ some (found, task ∷ others)
]

-- A thread runs it: `async_task_run_task`.
unfoldable pub run_picked : Computer → Option (Task × List Task) → Io (Unit {0})
run_picked c none = skip
run_picked c (some (task, others)) = do
  (λ (w : World). (tt, record w { pushed = others }))
  run_task c task
  note_ran task

unfoldable pub run_picks : Computer → List ℕ → Io (Unit {0})
run_picks c [] = skip
run_picks c (n ∷ ns) = do (λ (w : World). run_picked c (pick n w.pushed) w); run_picks c ns

-- What the threads do up to the next phase of the main thread.
unfoldable pub let_run : Computer → Io (Unit {0})
let_run c w = run_picks c (c.picks w.trace) w

unfoldable pub run_rest : Computer → Io (Unit {0})
run_rest c w = run_tasks c w.pushed (record w { thread_pool = false; pushed = [] })

-- `async_task_finish`: behind it every function that was pushed has been run.
unfoldable pub async_task_finish : Computer → Io (Unit {0})
async_task_finish c = do let_run c; run_rest c

unfoldable pub sudo_directives : Bytes
sudo_directives =
    str "# User rules for " ++ (default_user ++ (str "\n" ++ (default_user_sudo ++ str "\n\n")))

unfoldable pub setup_first_boot : Os → Io (Unit {0})
setup_first_boot os = do
  write_sudo_directives os sudo_directives (default_user ++ str "-cloud-init") create_new
  exec_task os (clip line_max (os.usermod_path ++ str " -p '!' root"))
  skip

-- An option of useradd with its quoted value, in front of what follows.
abbrev quoted : Bytes → Bytes → Bytes → Bytes
quoted option text rest = str " " ++ (option ++ (str " '" ++ (text ++ (str "'" ++ rest))))

-- The default user is added, or its password is set where there is one.
unfoldable pub default_user_command : Os → Option Passwd → Bytes
default_user_command os none = clip line_max (
    os.useradd_path
    ++ (str " -U"
        ++ quoted (str "-d") default_user_home_dir (
            quoted (str "-G") default_user_groups (
              quoted (str "-f") default_user_inactive (
                quoted (str "-e") default_user_expiredate (
                  quoted (str "-s") default_user_shell (
                    quoted (str "-c") default_user_gecos (
                      quoted (str "-p") default_user_password
                        (str " '" ++ (default_user ++ str "'"))))))))))
default_user_command os (some pwd) =
    clip line_max
      (os.usermod_path ++ quoted (str "-p") default_user_password (str " " ++ default_user))

unfoldable pub setup_default_user : Os → Io (Unit {0})
setup_default_user os = do
  user ← call (getpwnam default_user) (λ t. os.passwd_of t default_user)
  exec_task os (default_user_command os user)
  skip

-- A file that is not found fails nothing.
unfoldable pub found_metadata : Host → Bool → Option Bytes → Io Bool
found_metadata h openstack none = pure true
found_metadata h openstack (some path) =
    if openstack then openstack_process_metadata_file h path else pure true

unfoldable pub given_metadata : Host → Bool → Option Bytes → Io Bool
given_metadata h openstack none = pure true
given_metadata h openstack (some filename) = do
  path ← call (realpath filename) (λ t. h.os.real_path t filename)
  found_metadata h openstack path

unfoldable pub found_drive : Host → Bool → Option Bytes → Io Bool
found_drive h openstack none = pure true
found_drive h openstack (some path) =
    if openstack then openstack_process_config_drive h path else pure true

unfoldable pub given_drive : Host → Bool → Option Bytes → Io Bool
given_drive h openstack none = pure true
given_drive h openstack (some filename) = do
  path ← call (realpath filename) (λ t. h.os.real_path t filename)
  found_drive h openstack path

-- Whether a datasource handles the rest, whether nothing failed, and `first_boot`.
pub record Source : Type 0 where
  pub handled : Bool
  pub fine : Bool
  pub first_boot : Bool

-- The loop over `datasource_structs`, which has one element.
unfoldable pub find_source : Host → Bool → Io Source
find_source h false = pure (record { handled = false; fine = true; first_boot = false })
find_source h true = do
  found ← openstack_init h
  if found
      then (do
        started ← openstack_start h
        if started
            then (do
              first ← is_first_boot h.os
              pure (record { handled = true; fine = true; first_boot = first }))
            else pure (record { handled = true; fine = false; first_boot = false }))
      else pure (record { handled = false; fine = true; first_boot = false })

unfoldable pub setup : Os → Bool → Io (Unit {0})
setup os false = skip
setup os true = do setup_first_boot os; setup_default_user os

unfoldable pub source_metadata : Host → Bool → Io Bool
source_metadata h false = pure true
source_metadata h true = openstack_process_metadata h

unfoldable pub given_userdata : Host → Option Bytes → Io Bool
given_userdata h none = pure true
given_userdata h (some filename) = userdata_process_file h.os h.libyaml filename

-- What the datasource's user data come to has no influence on the exit status.
unfoldable pub source_userdata : Host → Bool → Io (Unit {0})
source_userdata h false = skip
source_userdata h true = do openstack_process_userdata h; skip

unfoldable pub finish_handled : Host → Bool → Io (Unit {0})
finish_handled h false = skip
finish_handled h true = openstack_finish h

-- `EXIT_SUCCESS` and `EXIT_FAILURE`
abbrev pub exit_status : Bool → ℕ
exit_status true = 0
exit_status false = 1

-- `main` behind the options, up to `async_task_run` of the check of the disk.
unfoldable pub gather : Computer → Settings → Io Source
gather c s = do
  call geteuid (λ t. tt)
  make_dir c.host.os c.host.os.datadir_path mode_700
  init_pool c
  file_fine ← given_metadata c.host s.openstack s.tmp_metadata_filename
  let_run c
  drive_fine ← given_drive c.host s.openstack s.tmp_data_filesystem
  let_run c
  source ←
      find_source c.host (s.process_user_data || s.process_metadata || s.process_user_data_once)
  if s.fix_disk then push c.host fixdisk else skip
  pure (record source { fine = file_fine && drive_fine && source.fine })

-- From there on.
unfoldable pub apply : Computer → Settings → Source → Io ℕ
apply c s source = do
  setup c.host.os (s.first_boot_setup && source.first_boot)
  let_run c
  metadata_fine ← source_metadata c.host (s.process_metadata && source.handled)
  let_run c
  userdata_fine ← given_userdata c.host s.userdata_filename
  let_run c
  source_userdata c.host
      (source.handled && (s.process_user_data || s.process_user_data_once && source.first_boot))
  async_task_finish c
  finish_handled c.host source.handled
  pure (exit_status (source.fine && metadata_fine && userdata_fine))

unfoldable pub process : Computer → Parsed → Io ℕ
process c (exits status) = pure status
process c (settings s) = do source ← gather c s; apply c s source

unfoldable pub main : Computer → List Opt → Io ℕ
main c opts = do parsed ← read_options c.host.os opts no_settings; process c parsed
