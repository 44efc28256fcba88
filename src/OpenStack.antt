-- ===== src/OpenStack.antt =====
-- The datasource of src/datasources/openstack.c: what it takes from its drive, and its static variables.
pub mod Handlers
pub mod Tasks
pub mod Datasource
pub mod Process
pub mod Once
pub mod Copies
pub mod Pushed
pub mod Ends
pub mod Init
pub mod Uuid
pub mod Boots
use micro_config_drive.Base.{ℕ, Bytes, str, Option, List, Bool, ◌++◌, ◌∷◌, []}
use micro_config_drive.System.{Os, Trace}
use micro_config_drive.System.Drive.{
  Drive, MetadataFunc, not_implemented, uuid, keys, hostname, public_keys, files,
}
use micro_config_drive.System.Io.{World, Io}
use micro_config_drive.Mounts.{Devices}
use micro_config_drive.Yaml.{Event}
use micro_config_drive.Json.{JsonNode}

-- The machine with the libraries that the datasource uses.
pub record Host : Type 0 where
  pub os : Os
  pub devices : Devices
  pub libyaml : Trace → Bytes → List Event
  -- the document of `json_parser_load_from_file`, if there is no error
  pub json : Trace → Bytes → Option JsonNode
  -- `mkdtemp` and `mkstemp`: the name, and the descriptor
  pub temp_dir : Trace → Bytes → Option Bytes
  pub temp_file : Trace → Bytes → Option (Bytes × ℕ)
  -- whether `g_thread_pool_push` reports no error
  pub task_pushed : Trace → Bool

-- Changes the variables of openstack.c.
abbrev pub change : (Drive → Drive) → Io (Unit {0})
change f w = (tt, record w { drive = f w.drive })

-- Reads them.
abbrev pub the_drive : Io Drive
the_drive w = (w.drive, w)

-- `OPENSTACK_METADATA_FILE`, `OPENSTACK_USERDATA_FILE`, `OPENSTACK_METADATA_ID_FILE` and
-- `OPENSTACK_USER_DATA_ID_FILE`
abbrev pub openstack_metadata_file : Bytes
openstack_metadata_file = str "/openstack/latest/meta_data.json"

abbrev pub openstack_userdata_file : Bytes
openstack_userdata_file = str "/openstack/latest/user_data"

abbrev pub metadata_id_file : Os → Bytes
metadata_id_file os = os.datadir_path ++ str "/openstack_metadata_id"

abbrev pub user_data_id_file : Os → Bytes
user_data_id_file os = os.datadir_path ++ str "/openstack_user_data_id"

unfoldable pub openstack_metadata_options : List (Bytes × MetadataFunc)
openstack_metadata_options =
    (str "random_seed", not_implemented)
    ∷ (str "uuid", uuid)
    ∷ (str "availability_zone", not_implemented)
    ∷ (str "keys", keys)
    ∷ (str "hostname", hostname)
    ∷ (str "launch_index", not_implemented)
    ∷ (str "public_keys", public_keys)
    ∷ (str "project_id", not_implemented)
    ∷ (str "name", not_implemented)
    ∷ (str "files", files)
    ∷ (str "meta", not_implemented)
    ∷ []
