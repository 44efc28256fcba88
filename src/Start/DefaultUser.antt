-- ===== src/Start/DefaultUser.antt =====
-- The values of src/default_user.h, where `configure` gives no others.
use micro_config_drive.Base.{Bytes, str, ◌++◌}
use micro_config_drive.Modules.Keys.{default_user}

abbrev pub default_user_home_dir : Bytes
default_user_home_dir = str "/home/clear"

abbrev pub default_user_groups : Bytes
default_user_groups = str "wheel"

abbrev pub default_user_inactive : Bytes
default_user_inactive = str "-1"

abbrev pub default_user_expiredate : Bytes
default_user_expiredate = str ""

abbrev pub default_user_shell : Bytes
default_user_shell = str "/bin/bash"

abbrev pub default_user_gecos : Bytes
default_user_gecos = str "Clear Linux"

abbrev pub default_user_password : Bytes
default_user_password = str "!"

abbrev pub default_user_sudo : Bytes
default_user_sudo = default_user ++ str " ALL=(ALL) NOPASSWD:ALL"
