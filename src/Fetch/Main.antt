-- ===== src/Fetch/Main.antt =====
-- `main` of src/ucd-data-fetch.c, from the look-up of the service to the start of ucd.
pub mod Ending
pub mod Executed
pub mod Launch
pub mod Naps
use micro_config_drive.Base.{
  ℕ, zero, suc, ◌+◌, Bytes, str, str_eq, length, Option, none, some, List, [], ◌∷◌, ◌++◌, Bool,
  true, false, if◌then◌else◌,
}
use micro_config_drive.System.{
  Os, Call, Trace, socket, connect, nanosleep, look_up, fdopen, fclose, close, mkdir, open_new,
  unlink, exec,
}
use micro_config_drive.System.Io.{World, Io, call}
use micro_config_drive.Files.{mode_600}
use micro_config_drive.Fetch.{CloudStruct, config, find_config}
use micro_config_drive.Fetch.Headers.{Answer, error, refused, content, parse_headers}
use micro_config_drive.Fetch.Lines.{write_all, write_lines}
use micro_config_drive.Fetch.Main.Ending.{
  Exit, ◌>>=◌, ◌>>◌, pure, exit_failure, lift, make, when_fails,
}
use micro_config_drive.Fetch.Connect.{
  LookUp, Connected, Net, nap, look_up_loop, resolve, connect_loop, connect_server, socket_opened,
  open_socket, reopen, address, no_address, try_again, fails, connected, retry, refuses,
}

-- `USER_DATA_PATH`
abbrev pub user_data_path : Bytes
user_data_path = str "/var/lib/cloud"

abbrev pub is_test : CloudStruct → Bool
is_test c = str_eq c.name (str "test")

-- `outpath`
abbrev pub output_path : CloudStruct → Bytes
output_path c =
    let name = c.name ++ str "-user-data" in
    if is_test c then name else user_data_path ++ (str "/" ++ name)

-- The request for the keys, and the requests for the rest, which have a blank behind the host.
abbrev pub key_request : CloudStruct → Bytes
key_request c =
    str "GET "
    ++ (c.request_sshkey_path
        ++ (str " HTTP/1.1\r\nhost: " ++ (c.ip ++ str "\r\nConnection: keep-alive\r\n\r\n")))

abbrev pub part_request : CloudStruct → Bytes → Bytes
part_request c path =
    str "GET "
    ++ (path ++ (str " HTTP/1.1\r\nhost: " ++ (c.ip ++ str " \r\nConnection: keep-alive\r\n\r\n")))

-- `parse_headers (f, &cl)` on the stream of the socket; the fuel is enough for every stream.
unfoldable pub read_headers : Net → ℕ → ℕ → Exit Answer
read_headers net fd cl w =
    let s = net.response w.trace fd in
    let a =
      parse_headers (suc (length s)) (net.errno_is_set w.trace) (net.unset_buffer w.trace)
        (net.broken w.trace fd) cl s in
    (some (elim a [ none ↦ error | some a ↦ a ]), w)

-- `write_lines (out, f, cl, prefix)`, likewise.
unfoldable pub copy_lines : Os → Net → ℕ → ℕ → Option Bytes → ℕ → Bytes → Exit Bool
copy_lines os net out fd prefix cl rest w =
    let (ok, v) = write_lines (suc (length rest)) os out prefix (net.broken w.trace fd) cl rest w in
    (some (elim ok [ none ↦ false | some b ↦ b ]), v)

-- Sends a request and opens the stream.
unfoldable pub send_request : Os → Net → ℕ → Bytes → Exit (Unit {0})
send_request os net fd request = do
  sent ← lift (write_all os fd request)
  when_fails sent (make (close fd) (λ t. tt))
  opened ← make (fdopen fd) (λ t. net.fdopen_done t fd)
  when_fails opened (make (close fd) (λ t. tt))

-- The new file of the user data.
unfoldable pub output_opened : ℕ → Option ℕ → Exit ℕ
output_opened fd none = do make (fclose fd) (λ t. tt); exit_failure
output_opened fd (some out) = pure out

unfoldable pub create_output : Net → CloudStruct → ℕ → Exit ℕ
create_output net c fd = do
  make (mkdir user_data_path 0) (λ t. tt)
  make (unlink (output_path c)) (λ t. tt)
  out ← make (open_new (output_path c) mode_600) (λ t. net.open_new_fd t (output_path c))
  output_opened fd out

-- The clean-up where writing has failed.
unfoldable pub discard : CloudStruct → ℕ → ℕ → Exit (Unit {0})
discard c out fd = do
  make (close out) (λ t. tt)
  make (fclose fd) (λ t. tt)
  make (unlink (output_path c)) (λ t. tt)

unfoldable pub write_keys : Os → Net → CloudStruct → ℕ → ℕ → Bytes → Exit ℕ
write_keys os net c fd cl rest = do
  out ← create_output net c fd
  began ← lift (write_all os out c.cloud_config_header)
  when_fails began (discard c out fd)
  wrote ← copy_lines os net out fd (some (str "  - ")) cl rest
  when_fails wrote (discard c out fd)
  make (close fd) (λ t. tt)
  pure out

-- What follows the headers of the keys: only a status that is accepted goes on.
unfoldable pub keys_answered : Os → Net → CloudStruct → ℕ → Answer → Exit (ℕ × ℕ)
keys_answered os net c fd error = do make (fclose fd) (λ t. tt); exit_failure
keys_answered os net c fd (refused cl rest) = do make (fclose fd) (λ t. tt); exit_failure
keys_answered os net c fd (content cl rest) = do
  out ← write_keys os net c fd cl rest
  pure (out, cl)

unfoldable pub fetch_keys : Os → Net → CloudStruct → ℕ → Exit (ℕ × ℕ)
fetch_keys os net c fd = do
  send_request os net fd (key_request c)
  answer ← read_headers net fd net.unset_length
  keys_answered os net c fd answer

-- What follows the headers of the host name or of the user data: a status that is refused is no
-- failure, and adds nothing. It returns the length that is known by then.
unfoldable pub part_answered : Os → Net → CloudStruct → ℕ → Option Bytes → ℕ → Answer → Exit ℕ
part_answered os net c out prefix fd error = do
  make (fclose fd) (λ t. tt)
  make (close out) (λ t. tt)
  exit_failure
part_answered os net c out prefix fd (refused cl rest) = pure cl
part_answered os net c out prefix fd (content cl rest) = do
  wrote ← copy_lines os net out fd prefix cl rest
  when_fails wrote (discard c out fd)
  pure cl

unfoldable pub fetch_part : Os → Net → CloudStruct → ℕ → Bytes → Option Bytes → ℕ → ℕ → Exit ℕ
fetch_part os net c out path prefix cl fd = do
  send_request os net fd (part_request c path)
  answer ← read_headers net fd cl
  part_answered os net c out prefix fd answer

-- The host name, if the service has one; it returns the socket of the next request and the length.
unfoldable pub fetch_hostname : Os → Net → CloudStruct → ℕ → ℕ → Option Bytes → ℕ → Exit (ℕ × ℕ)
fetch_hostname os net c out cl none fd = pure (fd, cl)
fetch_hostname os net c out cl (some path) fd = do
  cl' ← fetch_part os net c out path (some (str "hostname: ")) cl fd
  make (fclose fd) (λ t. tt)
  fd' ← reopen net
  pure (fd', cl')

unfoldable pub fetch_userdata : Os → Net → CloudStruct → ℕ → ℕ → Option Bytes → ℕ → Exit (Unit {0})
fetch_userdata os net c out cl none fd = pure tt
fetch_userdata os net c out cl (some path) fd = do
  fetch_part os net c out path none cl fd
  make (close out) (λ t. tt)
  make (fclose fd) (λ t. tt)

-- The label `finish`: ucd takes over, but not for the service `test`.
unfoldable pub start_ucd : Net → CloudStruct → Exit (Unit {0})
start_ucd net c = if is_test c then pure tt else do
  let ucd = net.bindir ++ str "/ucd"
  replaced ← make (exec ucd (ucd ∷ str "-u" ∷ output_path c ∷ [])) (λ t. net.exec_done t ucd)
  when_fails replaced (pure tt)

-- `main` for a service of the table.
unfoldable pub fetch : Os → Net → CloudStruct → Exit (Unit {0})
fetch os net c = do
  fd ← open_socket net
  connect_server net c.ip fd
  (out, cl) ← fetch_keys os net c fd
  fd' ← reopen net
  (fd'', cl') ← fetch_hostname os net c out cl c.request_hostname_path fd'
  fetch_userdata os net c out cl' c.request_userdata_path fd''
  start_ucd net c

-- `main` with its one argument, which is not `--help` or `-h`.
unfoldable pub main : Os → Net → Bytes → Exit (Unit {0})
main os net service = elim (find_config service config) [
  | none ↦ exit_failure
  | some c ↦ fetch os net c
]
