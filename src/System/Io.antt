-- ===== src/System/Io.antt =====
-- Actions of the program: they make calls and change the static variables. Calls of the C library
-- and of GLib are wrapped here, each adding itself to the trace.
use micro_config_drive.Base.{ℕ, Bytes, Option, List, Bool, [], ◌∷◌, ◌++◌}
use micro_config_drive.System.Drive.{Drive, Task}
use micro_config_drive.System.{Os, Call, Trace, Flag, open_file, crash}

-- `cache_firstboot` of lib.c: -1, 0 and 1.
pub data FirstBoot : Type 0 where
  unset no_boot first : FirstBoot

-- `do_network_wait` of wait-for-network.c: -1, 0, 1 and 2.
pub data NetworkWait : Type 0 where
  unset dont_wait wait waited : NetworkWait

-- Values of `cloud_config_global_data` are pointers; the program only stores this one, of users.c.
pub data Pointer : Type 0 where
  users_current_username : Pointer

pub record World : Type 0 where
  pub trace : Trace
  -- lib.c: `cache_firstboot`, `cache_boot_id`
  pub cache_firstboot : FirstBoot
  pub cache_boot_id : Bytes
  -- users.c: the buffer `users_current_username`
  pub current_username : Bytes
  -- cloud_config.c: `cloud_config_global_data`
  pub global_data : List (Bytes × Pointer)
  -- wait-for-network.c: `do_network_wait`
  pub do_network_wait : NetworkWait
  -- openstack.c
  pub drive : Drive
  -- async_task.c: `thread_pool` is not NULL, and the functions pushed to it, in their order
  pub thread_pool : Bool
  pub pushed : List Task
  -- for what is proved of the pool: all functions that it has taken, and those that its threads have run
  pub taken : List Task
  pub ran : List Task

abbrev pub Io : Type 0 → Type 0
Io A = World → A × World

infixl 5 ◌>>=◌ ◌>>◌
abbrev pub ◌>>=◌ : {A B : Type 0} → Io A → (A → Io B) → Io B
◌>>=◌ m f w = let (a, w') = m w in f a w'

abbrev pub ◌>>◌ : {A B : Type 0} → Io A → Io B → Io B
◌>>◌ m k w = let (_, w') = m w in k w'

abbrev pub pure : {A : Type 0} → A → Io A
pure a w = (a, w)

abbrev pub skip : Io (Unit {0})
skip w = (tt, w)

-- Makes a call, and reads its answer off the trace before it.
abbrev pub call : {A : Type 0} → Call → (Trace → A) → Io A
call c answer w = (answer w.trace, record w { trace = w.trace ++ (c ∷ []) })

-- The end of the program at a NULL pointer.
abbrev pub crashed : Io (Unit {0})
crashed = call crash (λ t. tt)

-- `open`, whose answer is kept in the trace.
abbrev pub open_path : Os → Bytes → List Flag → Io (Option ℕ)
open_path os path flags w =
    let fd = os.open_fd w.trace path flags in
    (fd, record w { trace = w.trace ++ (open_file path flags fd ∷ []) })
