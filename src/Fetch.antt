-- ===== src/Fetch.antt =====
-- src/ucd-data-fetch.c: a separate program that fetches keys, host name and user data of a cloud
-- service over HTTP. This file holds the services it knows.
pub mod Stream
pub mod Connect
pub mod Headers
pub mod Lines
pub mod Main
use micro_config_drive.Base.{
  ℕ, Bytes, str, str_eq, Option, none, some, List, [], ◌∷◌, ◌++◌, if◌then◌else◌,
}

-- `struct cloud_struct`
pub record CloudStruct : Type 0 where
  pub name : Bytes
  pub ip : Bytes
  pub port : ℕ
  pub request_sshkey_path : Bytes
  pub request_hostname_path : Option Bytes
  pub request_userdata_path : Option Bytes
  pub cloud_config_header : Bytes

-- The header with one user, and with more lines about that user.
abbrev users_header : Bytes → Bytes → Bytes
users_header user more =
    str "#cloud-config\nusers:\n  - name: "
    ++ (user ++ (str "\n    groups: wheelnopw\n" ++ (more ++ str "ssh_authorized_keys:\n")))

abbrev pub config : List CloudStruct
config =
    record {
      name = str "aws";
      ip = str "169.254.169.254";
      port = 80;
      request_sshkey_path = str "/latest/meta-data/public-keys/0/openssh-key";
      request_hostname_path = some (str "/latest/meta-data/hostname");
      request_userdata_path = some (str "/latest/user-data");
      cloud_config_header = users_header (str "clear") [];
    }
    ∷ record {
      name = str "oci";
      ip = str "169.254.169.254";
      port = 80;
      request_sshkey_path = str "/opc/v1/instance/metadata/ssh_authorized_keys";
      request_hostname_path = none;
      request_userdata_path = none;
      cloud_config_header = users_header (str "opc") (str "    gecos: Oracle Public Cloud User\n");
    }
    ∷ record {
      name = str "tencent";
      ip = str "169.254.0.23";
      port = 80;
      request_sshkey_path = str "/latest/meta-data/public-keys/0/openssh-key";
      request_hostname_path = none;
      request_userdata_path = none;
      cloud_config_header = users_header (str "tencent") [];
    }
    ∷ record {
      name = str "aliyun";
      ip = str "100.100.100.200";
      port = 80;
      request_sshkey_path = str "/latest/meta-data/public-keys/0/openssh-key";
      request_hostname_path = none;
      request_userdata_path = none;
      cloud_config_header = users_header (str "aliyun") [];
    }
    ∷ record {
      name = str "equinix";
      ip = str "metadata.platformequinix.com";
      port = 80;
      request_sshkey_path = str "/2009-04-04/meta-data/public-keys";
      request_hostname_path = some (str "/2009-04-04/meta-data/hostname");
      request_userdata_path = some (str "/userdata");
      cloud_config_header = users_header (str "clear") [];
    }
    ∷ record {
      name = str "test";
      ip = str "127.0.0.254";
      port = 8123;
      request_sshkey_path = str "/public-keys";
      request_hostname_path = some (str "/hostname");
      request_userdata_path = some (str "/user-data");
      cloud_config_header = users_header (str "clear") [];
    }
    ∷ []

-- The first service with that name.
unfoldable pub find_config : Bytes → List CloudStruct → Option CloudStruct
find_config service [] = none
find_config service (c ∷ cs) = if str_eq service c.name then some c else find_config service cs
