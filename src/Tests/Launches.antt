-- ===== src/Tests/Launches.antt =====
-- The start of ucd by the two programs that fetch user data, with a server that answers.
use micro_config_drive.Base.{
  Bytes, str, str_eq, none, some, [], ◌∷◌, ◌++◌, true, false, ◌≡◌, ◌⊎◌, refl,
}
use micro_config_drive.System.Io.{World}
use micro_config_drive.Fetch.{CloudStruct}
use micro_config_drive.Fetch.Connect.{Net, address, connected}
use micro_config_drive.Fetch.Main.{fetch, is_test}
use micro_config_drive.Fetch.Main.Executed.{executed}
use micro_config_drive.Fetch.Main.Launch.{exec_service, fetch-executed}
use micro_config_drive.Aws.Program.{main}
use micro_config_drive.Aws.Launch.{main-executed, exec_ucd}
use micro_config_drive.Tests.Machine.{machine, start}

abbrev online : Bytes → Net
online text = record {
  bindir = str "/usr/bin";
  is_address = λ ip. true;
  socket_fd = λ t. some 3;
  looked_up = λ t ip. address;
  connect_done = λ t fd. connected;
  fdopen_done = λ t fd. true;
  response = λ t fd. text;
  broken = λ t fd. false;
  errno_is_set = λ t. false;
  unset_buffer = λ t. [];
  unset_length = 0;
  open_new_fd = λ t p. some 4;
  exec_done = λ t p. true;
}

abbrev oci : CloudStruct
oci = record {
  name = str "oci";
  ip = str "169.254.169.254";
  port = 80;
  request_sshkey_path = str "/opc/v1/instance/metadata/ssh_authorized_keys";
  request_hostname_path = none;
  request_userdata_path = none;
  cloud_config_header = str "#cloud-config\nusers:\n";
}

oci_not_test : is_test oci ≡ false
unfolding str str_eq
oci_not_test = refl

main-executed_example :
    let net = online (str "HTTP/1.0 200 OK\r\n\r\nssh-rsa A\n") in
    let (r, v) = main 1 (λ rest. rest) machine net start in
    ((r ≡ none) × (executed v ≡ executed start))
    ⊎ ((u : World) × (executed u ≡ executed start)
        × (v ≡ record u { trace = u.trace ++ (exec_ucd net ∷ []) }))
main-executed_example =
    main-executed 1 (λ rest. rest) machine (online (str "HTTP/1.0 200 OK\r\n\r\nssh-rsa A\n")) start

fetch-executed_example :
    let net = online (str "HTTP/1.1 200 OK\r\n\r\nssh-rsa A\n") in
    let (r, v) = fetch machine net oci start in
    ((r ≡ none) × (executed v ≡ executed start))
    ⊎ ((u : World) × (executed u ≡ executed start)
        × (v ≡ record u { trace = u.trace ++ (exec_service net oci ∷ []) }))
fetch-executed_example =
    fetch-executed machine (online (str "HTTP/1.1 200 OK\r\n\r\nssh-rsa A\n")) oci start
      oci_not_test
