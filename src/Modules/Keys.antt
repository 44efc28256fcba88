-- ===== src/Modules/Keys.antt =====
-- src/ccmodules/ssh_authorized_keys.c: public keys for the first user of the document.
use micro_config_drive.Base.{Bytes, str, shown, Option, none, some, List, [], ◌∷◌, ◌++◌}
use micro_config_drive.System.{Os}
use micro_config_drive.System.Io.{Io, Pointer, users_current_username, ◌>>=◌, ◌>>◌, skip}
use micro_config_drive.GNode.{GNode, leaves}
use micro_config_drive.CloudConfig.{cloud_config_get_global}
use micro_config_drive.SshKeys.{write_ssh_keys}

-- The leaves, each on a line: what `ssh_authorized_keys_item` collects.
unfoldable pub key_lines : List (Option Bytes) → Bytes
key_lines [] = []
key_lines (key ∷ keys) = shown key ++ (str "\n" ++ key_lines keys)

-- `DEFAULT_USER_USERNAME` of default_user.h
abbrev pub default_user : Bytes
default_user = str "clear"

-- Reads the text behind the pointer, at the time of the call.
unfoldable pub name_behind : Option Pointer → Io Bytes
name_behind none w = (default_user, w)
name_behind (some users_current_username) w = (w.current_username, w)

unfoldable pub ssh_authorized_keys_handler : Os → GNode → Io (Unit {0})
ssh_authorized_keys_handler os node = do
  user ← cloud_config_get_global (str "first_user")
  username ← name_behind user
  write_ssh_keys os (key_lines (leaves node)) username
  skip
