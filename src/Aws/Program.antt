-- ===== src/Aws/Program.antt =====
-- `main` of src/ucd-aws.c: the key and the user data of the service, and the start of ucd.
use micro_config_drive.Base.{
  ℕ, zero, suc, Bytes, str, length, Option, none, some, [], ◌∷◌, ◌++◌, Bool, true, false,
}
use micro_config_drive.System.{
  Os, socket, fdopen, fclose, close, mkdir, open_new, unlink, write, exec,
}
use micro_config_drive.System.Io.{Io}
use micro_config_drive.Files.{mode_600}
use micro_config_drive.Fetch.Stream.{fgets}
use micro_config_drive.Fetch.Headers.{Answer, error, refused, content}
use micro_config_drive.Fetch.Lines.{c_string, write_all, less}
use micro_config_drive.Fetch.Main.{user_data_path}
use micro_config_drive.Fetch.Connect.{Net}
use micro_config_drive.Fetch.Main.Ending.{
  Exit, ◌>>=◌, ◌>>◌, pure, exit_failure, lift, make, when_fails,
}
use micro_config_drive.Aws.{connect_loop, parse_headers}

-- `AWS_IP`, and `AWS_REQUEST_SSHKEY` and `AWS_REQUEST_USERDATA`
abbrev pub aws_ip : Bytes
aws_ip = str "169.254.169.254"

abbrev pub aws_request_sshkey : Bytes
aws_request_sshkey =
    str "GET /latest/meta-data/public-keys/0/openssh-key HTTP/1.0\r\nhost: "
    ++ (aws_ip ++ str "\r\nConnection: keep-alive\r\n\r\n")

abbrev pub aws_request_userdata : Bytes
aws_request_userdata =
    str "GET /latest/user-data HTTP/1.0\r\nhost: "
    ++ (aws_ip ++ str "\r\nConnection: close\r\n\r\n")

abbrev pub aws_user_data : Bytes
aws_user_data = user_data_path ++ str "/aws-user-data"

abbrev pub cloud_config_ssh_header : Bytes
cloud_config_ssh_header = str "#cloud-config\nssh_authorized_keys:\n  - "

-- The result of `connect_loop`: where its fuel runs out, the program is taken to go no further.
abbrev pub is_connected : Option Bool → Exit (Unit {0})
is_connected none = exit_failure
is_connected (some false) = exit_failure
is_connected (some true) = pure tt

unfoldable pub opened_socket : Option ℕ → Exit ℕ
opened_socket none = exit_failure
opened_socket (some fd) = pure fd

-- A socket that is connected.
unfoldable pub connect_socket : ℕ → Net → Exit ℕ
unfolding ◌>>=◌
connect_socket fuel net = do
  made ← make socket net.socket_fd
  fd ← opened_socket made
  r ← lift (connect_loop fuel net fd)
  is_connected r
  pure fd

-- Sends a request and opens the stream.
unfoldable pub request : Os → Net → ℕ → Bytes → Exit (Unit {0})
request os net fd text = do
  sent ← lift (write_all os fd text)
  when_fails sent (make (close fd) (λ t. tt))
  opened ← make (fdopen fd) (λ t. net.fdopen_done t fd)
  when_fails opened (make (close fd) (λ t. tt))

-- `parse_headers (f, &cl)`; the fuel is enough for every stream.
unfoldable pub headers : Net → ℕ → ℕ → Exit Answer
headers net fd cl w =
    let s = net.response w.trace fd in
    let a =
      parse_headers (suc (length s)) (net.errno_is_set w.trace) (net.unset_buffer w.trace)
        (net.broken w.trace fd) cl s in
    (some (elim a [ none ↦ error | some a ↦ a ]), w)

-- The loop that copies the key, on fuel: false where a line could not be written.
unfoldable pub copy_key : ℕ → Os → ℕ → Bool → ℕ → Bytes → Io Bool
copy_key zero os out broken cl s w = (true, w)
copy_key (suc fuel) os out broken zero s w = (true, w)
copy_key (suc fuel) os out broken (suc cl) s w = elim (fgets 512 broken s) [
  | none ↦ (true, w)
  | some l ↦
      let text = c_string l.text in
      let (wrote, v) = write_all os out text w in
      elim wrote [
        | false ↦ (false, v)
        | true ↦ copy_key fuel os out broken (less (suc cl) (length text)) l.rest v
      ]
]

-- The loop that copies the user data, which does not look at the length.
unfoldable pub copy_all : ℕ → Os → ℕ → Bool → Bytes → Io Bool
copy_all zero os out broken s w = (true, w)
copy_all (suc fuel) os out broken s w = elim (fgets 512 broken s) [
  | none ↦ (true, w)
  | some l ↦
      let (wrote, v) = write_all os out (c_string l.text) w in
      elim wrote [ false ↦ (false, v) | true ↦ copy_all fuel os out broken l.rest v ]
]

-- The clean-up where writing has failed.
unfoldable pub give_up : ℕ → ℕ → Exit (Unit {0})
give_up out fd = do
  make (close out) (λ t. tt)
  make (fclose fd) (λ t. tt)
  make (unlink aws_user_data) (λ t. tt)

unfoldable pub opened_output : Option ℕ → Exit ℕ
opened_output none = exit_failure
opened_output (some out) = pure out

unfoldable pub new_output : Net → Exit ℕ
new_output net = do
  make (mkdir user_data_path 0) (λ t. tt)
  make (unlink aws_user_data) (λ t. tt)
  out ← make (open_new aws_user_data mode_600) (λ t. net.open_new_fd t aws_user_data)
  opened_output out

-- What follows the headers of the key. The socket is closed before the key is read: of what is behind the
-- headers the stream delivers only what it holds in its buffer, and then fails.
unfoldable pub key_answered : (Bytes → Bytes) → Os → Net → ℕ → Answer → Exit (ℕ × ℕ)
key_answered buffered os net fd error = do make (close fd) (λ t. tt); exit_failure
key_answered buffered os net fd (refused cl rest) = do make (close fd) (λ t. tt); exit_failure
key_answered buffered os net fd (content cl rest) = do
  make (close fd) (λ t. tt)
  out ← new_output net
  make (write out cloud_config_ssh_header) (λ t. tt)
  wrote ← lift (copy_key (suc (length (buffered rest))) os out true cl (buffered rest))
  when_fails wrote (give_up out fd)
  pure (out, cl)

-- What follows the headers of the user data: a status that is refused adds nothing.
unfoldable pub userdata_answered : Os → Net → ℕ → ℕ → Answer → Exit (Unit {0})
userdata_answered os net out fd error = do
  make (fclose fd) (λ t. tt)
  make (close out) (λ t. tt)
  exit_failure
userdata_answered os net out fd (refused cl rest) = pure tt
userdata_answered os net out fd (content cl rest) = do
  broken ← (λ w. (some (net.broken w.trace fd), w))
  wrote ← lift (copy_all (suc (length rest)) os out broken rest)
  when_fails wrote (give_up out fd)

unfoldable pub start_program : Net → Exit (Unit {0})
start_program net = do
  let ucd = net.bindir ++ str "/ucd"
  replaced ← make (exec ucd (ucd ∷ str "-u" ∷ aws_user_data ∷ [])) (λ t. net.exec_done t ucd)
  when_fails replaced (pure tt)

unfoldable pub main : ℕ → (Bytes → Bytes) → Os → Net → Exit (Unit {0})
main fuel buffered os net = do
  fd ← connect_socket fuel net
  request os net fd aws_request_sshkey
  answer ← headers net fd net.unset_length
  (out, cl) ← key_answered buffered os net fd answer
  fd' ← connect_socket fuel net
  request os net fd' aws_request_userdata
  answer' ← headers net fd' cl
  userdata_answered os net out fd' answer'
  make (close out) (λ t. tt)
  make (fclose fd') (λ t. tt)
  start_program net
