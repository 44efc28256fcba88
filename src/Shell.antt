-- ===== src/Shell.antt =====
-- `exec_task` of src/lib.c: runs a command line through the shell and waits for it.
pub mod Batch
use micro_config_drive.Base.{ℕ, Bytes, str, Option, none, some, Bool, false, ◌++◌, ◌==◌}
use micro_config_drive.System.{Os, Call, spawn}
use micro_config_drive.System.Io.{Io, ◌>>=◌, pure, call}

-- The command line that is spawned for a command.
abbrev pub shell_line : Os → Bytes → Bytes
shell_line os command = os.shell_path ++ (str " -c \"" ++ (os.strescape command ++ str "\""))

abbrev pub succeeded : Option ℕ → Bool
succeeded none = false
succeeded (some status) = status == 0

-- Succeeds exactly when the command could be spawned and exits with status 0.
unfoldable pub exec_task : Os → Bytes → Io Bool
exec_task os command_line = do
  let line = shell_line os command_line
  status ← call (spawn line) (λ t. os.spawn_status t line)
  pure (succeeded status)
