-- ===== src/Fetch/Connect.antt =====
-- The connection of src/ucd-data-fetch.c: the loops around `gethostbyname` and `connect`, and the socket.
use micro_config_drive.Base.{ℕ, zero, suc, ◌+◌, Bytes, Option, none, some, Bool, if◌then◌else◌}
use micro_config_drive.System.{Trace, socket, connect, nanosleep, look_up}
use micro_config_drive.Fetch.Main.Ending.{Exit, ◌>>=◌, ◌>>◌, pure, exit_failure, make}

-- What `gethostbyname` answers: an address, no address, or NULL with an error that is tried again or
-- one that is not.
pub data LookUp : Type 0 where
  address no_address try_again fails : LookUp

-- What `connect` answers; `retry` stands for EAGAIN, ENETUNREACH and ETIMEDOUT.
pub data Connected : Type 0 where
  connected retry refuses : Connected

-- The network, as the program's calls see it.
pub record Net : Type 0 where
  -- `BINDIR` of config.h
  pub bindir : Bytes
  -- whether `inet_addr` reads the text as an address
  pub is_address : Bytes → Bool
  pub socket_fd : Trace → Option ℕ
  pub looked_up : Trace → Bytes → LookUp
  pub connect_done : Trace → ℕ → Connected
  pub fdopen_done : Trace → ℕ → Bool
  -- the bytes that the socket delivers, and whether they end with a read error
  pub response : Trace → ℕ → Bytes
  pub broken : Trace → ℕ → Bool
  -- `errno` is EINVAL or ERANGE from an earlier call
  pub errno_is_set : Trace → Bool
  -- what an unset buffer and an unset length hold
  pub unset_buffer : Trace → Bytes
  pub unset_length : ℕ
  pub open_new_fd : Trace → Bytes → Option ℕ
  -- whether `execl` replaces the program
  pub exec_done : Trace → Bytes → Bool

-- The 50 milliseconds of `ts`, in nanoseconds.
abbrev pub nap : ℕ
nap = 50000000

-- The loop around `gethostbyname`, which returns the number of failures that were still allowed; the
-- counter `n` is 2000 less this number.
unfoldable pub look_up_loop : Net → Bytes → ℕ → Exit ℕ
look_up_loop net ip zero = do
  found ← make (look_up ip) (λ t. net.looked_up t ip)
  elim found [
    | address ↦ pure 0
    | no_address ↦ exit_failure
    | fails ↦ exit_failure
    | try_again ↦ do make (nanosleep nap) (λ t. tt); exit_failure
  ]
look_up_loop net ip (suc left) = do
  found ← make (look_up ip) (λ t. net.looked_up t ip)
  let again = look_up_loop net ip left
  elim found [
    | address ↦ pure (suc left)
    | no_address ↦ exit_failure
    | fails ↦ exit_failure
    | try_again ↦ do make (nanosleep nap) (λ t. tt); again
  ]

-- The number of failures that the first `connect` loop allows: 2400 less those of the look-up.
unfoldable pub resolve : Net → Bytes → Exit ℕ
resolve net ip =
    if net.is_address ip then pure 2400 else do left ← look_up_loop net ip 2000; pure (400 + left)

-- The loop around `connect`; the counter `n` is the limit less `left`.
unfoldable pub connect_loop : Net → ℕ → ℕ → Exit (Unit {0})
connect_loop net fd zero = do
  r ← make (connect fd) (λ t. net.connect_done t fd)
  elim r [
    | connected ↦ pure tt
    | refuses ↦ exit_failure
    | retry ↦ do make (nanosleep nap) (λ t. tt); exit_failure
  ]
connect_loop net fd (suc left) = do
  r ← make (connect fd) (λ t. net.connect_done t fd)
  let again = connect_loop net fd left
  elim r [
    | connected ↦ pure tt
    | refuses ↦ exit_failure
    | retry ↦ do make (nanosleep nap) (λ t. tt); again
  ]

-- The address of the server and the first connection, which share the counter `n`.
unfoldable pub connect_server : Net → Bytes → ℕ → Exit (Unit {0})
connect_server net ip fd = do left ← resolve net ip; connect_loop net fd left

unfoldable pub socket_opened : Option ℕ → Exit ℕ
socket_opened none = exit_failure
socket_opened (some fd) = pure fd

unfoldable pub open_socket : Net → Exit ℕ
open_socket net = do fd ← make socket net.socket_fd; socket_opened fd

-- "reopen socket"
unfoldable pub reopen : Net → Exit ℕ
reopen net = do fd ← open_socket net; connect_loop net fd 200; pure fd
