-- ===== src/Userdata.antt =====
-- From a file of user data to its handlers: src/userdata.c, src/interpreters/shell_script.c, and
-- `cloud_config_main` and `cloud_config_process` of src/interpreters/cloud_config.c.
pub mod Accounts
pub mod Blocks
pub mod Files
pub mod Groups
pub mod Keyed
pub mod Services
pub mod Runcmd
pub mod Scripts
pub mod Users
use micro_config_drive.Base.{
  ℕ, zero, suc, Bytes, str, starts_with, data_eq, length, line_max, Option, none, some, List, [],
  ◌∷◌, ◌++◌, Bool, true, false, not, if◌then◌else◌,
}
use micro_config_drive.System.{Os, Trace, fopen, fclose, realpath, chmod}
use micro_config_drive.System.Io.{World, Io, ◌>>=◌, ◌>>◌, pure, skip, call}
use micro_config_drive.GNode.{GNode, null, gnode, children}
use micro_config_drive.Shell.{exec_task}
use micro_config_drive.Yaml.{Event, parse_file}
use micro_config_drive.Simplify.{simplify}
use micro_config_drive.Fetch.Stream.{Line, fgets}
use micro_config_drive.Modules.Network.{
  package_upgrade_handler, packages_handler, wait_for_network_handler,
}
use micro_config_drive.Modules.WriteFiles.{write_files_handler}
use micro_config_drive.Modules.Groups.{groups_handler}
use micro_config_drive.Modules.Users.{users_handler}
use micro_config_drive.Modules.Keys.{ssh_authorized_keys_handler}
use micro_config_drive.Modules.Commands.{
  service_handler, hostname_handler, runcmd_handler, fbootcmd_handler,
}
use micro_config_drive.Modules.Envar.{envar_handler}

-- `struct cc_module_handler_struct`
abbrev pub Handler : Type 0
Handler = Os → GNode → Io (Unit {0})

-- `cc_module_structs`, with the names that the modules give.
unfoldable pub cc_module_structs : List (Bytes × Handler)
cc_module_structs =
    (str "package_upgrade", package_upgrade_handler)
    ∷ (str "write_files", write_files_handler)
    ∷ (str "packages", packages_handler)
    ∷ (str "groups", groups_handler)
    ∷ (str "users", users_handler)
    ∷ (str "ssh_authorized_keys", ssh_authorized_keys_handler)
    ∷ (str "service", service_handler)
    ∷ (str "hostname", hostname_handler)
    ∷ (str "runcmd", runcmd_handler)
    ∷ (str "envar", envar_handler)
    ∷ (str "fbootcmd", fbootcmd_handler)
    ∷ (str "wait_for_network", wait_for_network_handler)
    ∷ []

-- `g_list_prepend` of each
unfoldable pub prepend_all :
    List (Bytes × Handler) → List (Bytes × Handler) → List (Bytes × Handler)
prepend_all [] handlers = handlers
prepend_all (h ∷ hs) handlers = prepend_all hs (h ∷ handlers)

-- The first handler with that name.
unfoldable pub find_handler : Option Bytes → List (Bytes × Handler) → Option Handler
find_handler name [] = none
find_handler name ((n, h) ∷ hs) = if data_eq name n then some h else find_handler name hs

unfoldable pub run_handler : Os → Option Handler → GNode → Io (Unit {0})
run_handler os none node = skip
run_handler os (some h) node = h os node

-- The loop over the blocks.
unfoldable pub process_blocks : Os → List (Bytes × Handler) → GNode → Io (Unit {0})
process_blocks os handlers null = skip
process_blocks os handlers (gnode d c n) = do
  run_handler os (find_handler d handlers) (gnode d c n)
  process_blocks os handlers n

unfoldable pub cloud_config_process : Os → List (Bytes × Handler) → GNode → Io (Unit {0})
cloud_config_process os handlers userdata =
    process_blocks os handlers (children (children userdata))

abbrev pub clear_global : Io (Unit {0})
clear_global w = (tt, record w { global_data = [] })

-- The tree of the file, for the events that libyaml reads from it. Each round of the parser takes an
-- event, so the fuel is enough.
unfoldable pub read_userdata : List Event → Bytes → GNode
read_userdata events filename = elim (parse_file (suc (length events)) filename events) [
  | none ↦ gnode (some filename) null null
  | some userdata ↦ (simplify userdata).0
]

-- `cloud_config_main`, which returns 0. `libyaml` are the events of the file, by the calls before.
unfoldable pub cloud_config_main : Os → (Trace → Bytes → List Event) → Bytes → Io ℕ
cloud_config_main os libyaml filename = do
  clear_global
  file ← call (fopen filename) (λ t. os.fopen_file t filename)
  events ← (λ w. (libyaml w.trace filename, w))
  elim file [ none ↦ skip | some fd ↦ call (fclose fd) (λ t. tt) ]
  cloud_config_process os (prepend_all cc_module_structs []) (read_userdata events filename)
  clear_global
  pure 0

-- `S_IRUSR|S_IWUSR|S_IXUSR`
abbrev pub owner_all : ℕ
owner_all = 448

unfoldable pub run_script : Os → Bytes → Bool → Io ℕ
run_script os path false = pure 1
run_script os path true = do exec_task os path; pure 0

unfoldable pub make_executable : Os → Option Bytes → Io ℕ
make_executable os none = pure 1
make_executable os (some path) = do
  changed ← call (chmod path owner_all) (λ t. os.chmod_done t path owner_all)
  run_script os path changed

-- `shell_script_main`
unfoldable pub shell_script_main : Os → Bytes → Io ℕ
shell_script_main os filename = do
  full_path ← call (realpath filename) (λ t. os.real_path t filename)
  make_executable os full_path

-- `handler (filename) != EXIT_SUCCESS ? false : true`
abbrev is_success : ℕ → Bool
is_success zero = true
is_success (suc n) = false

-- The loop over `interpreter_structs`, by the first line of the file.
unfoldable pub interpret : Os → (Trace → Bytes → List Event) → Bytes → Bytes → Io Bool
interpret os libyaml filename shebang =
    if starts_with shebang (str "#cloud-config")
    then (do r ← cloud_config_main os libyaml filename; pure (is_success r))
    else if starts_with shebang (str "#!")
    then (do r ← shell_script_main os filename; pure (is_success r))
    else pure false

-- What follows the reading of the first line.
unfoldable pub close_and_interpret :
    Os → (Trace → Bytes → List Event) → Bytes → ℕ → Option Line → Io Bool
close_and_interpret os libyaml filename fd none = pure false
close_and_interpret os libyaml filename fd (some l) = do
  closed ← call (fclose fd) (λ t. os.fclose_done t fd)
  if closed then interpret os libyaml filename l.text else pure false

unfoldable pub process_open_file : Os → (Trace → Bytes → List Event) → Bytes → Option ℕ → Io Bool
process_open_file os libyaml filename none = pure false
process_open_file os libyaml filename (some fd) = do
  line ← (λ w. (fgets line_max false (os.stream w.trace fd), w))
  close_and_interpret os libyaml filename fd line

unfoldable pub userdata_process_file : Os → (Trace → Bytes → List Event) → Bytes → Io Bool
userdata_process_file os libyaml filename = do
  file ← call (fopen filename) (λ t. os.fopen_file t filename)
  process_open_file os libyaml filename file
