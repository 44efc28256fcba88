-- ===== src/Start/Options.antt =====
-- The options of `main` in src/main.c.
use micro_config_drive.Base.{ℕ, Bytes, Option, none, some, List, [], ◌∷◌, Bool, true, false}
use micro_config_drive.System.{Os, realpath}
use micro_config_drive.System.Io.{Io, ◌>>=◌, pure, call}

-- What `getopt_long` finds in the arguments, one after the other; `unknown` is its answer `?`.
pub data Opt : Type 0 where
  user_data_file : Bytes → Opt
  opt_openstack_metadata_file : Bytes → Opt
  opt_openstack_config_drive : Bytes → Opt
  opt_user_data opt_user_data_once opt_metadata help version opt_fix_disk opt_first_boot_setup
        unknown :
      Opt

-- The variables of `main` that the options set. `openstack` is `datasource == DS_OPENSTACK`.
pub record Settings : Type 0 where
  pub openstack : Bool
  pub fix_disk : Bool
  pub first_boot_setup : Bool
  pub userdata_filename : Option Bytes
  pub tmp_metadata_filename : Option Bytes
  pub tmp_data_filesystem : Option Bytes
  pub process_user_data : Bool
  pub process_user_data_once : Bool
  pub process_metadata : Bool

abbrev pub no_settings : Settings
no_settings = record {
  openstack = false;
  fix_disk = false;
  first_boot_setup = false;
  userdata_filename = none;
  tmp_metadata_filename = none;
  tmp_data_filesystem = none;
  process_user_data = false;
  process_user_data_once = false;
  process_metadata = false;
}

-- The options end, or one of them ends the program with a status.
pub data Parsed : Type 0 where
  settings : Settings → Parsed
  exits : ℕ → Parsed

-- The loop over the options. The files' names are taken as they are; only that of the user data is looked up
-- here.
unfoldable pub read_options : Os → List Opt → Settings → Io Parsed
read_options os [] s = pure (settings s)
read_options os (user_data_file path ∷ opts) s = do
  found ← call (realpath path) (λ t. os.real_path t path)
  read_options os opts (record s { userdata_filename = found })
read_options os (help ∷ opts) s = pure (exits 0)
read_options os (version ∷ opts) s = pure (exits 0)
read_options os (unknown ∷ opts) s = pure (exits 1)
read_options os (opt_openstack_metadata_file path ∷ opts) s =
    read_options os opts (record s { openstack = true; tmp_metadata_filename = some path })
read_options os (opt_openstack_config_drive path ∷ opts) s =
    read_options os opts (record s { openstack = true; tmp_data_filesystem = some path })
read_options os (opt_user_data ∷ opts) s =
    read_options os opts (record s { process_user_data = true })
read_options os (opt_user_data_once ∷ opts) s =
    read_options os opts (record s { process_user_data_once = true })
read_options os (opt_metadata ∷ opts) s =
    read_options os opts (record s { process_metadata = true })
read_options os (opt_fix_disk ∷ opts) s = read_options os opts (record s { fix_disk = true })
read_options os (opt_first_boot_setup ∷ opts) s =
    read_options os opts (record s { first_boot_setup = true })
