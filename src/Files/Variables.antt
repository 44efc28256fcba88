-- ===== src/Files/Variables.antt =====
-- The helpers of src/lib.c change no static variable.
use micro_config_drive.Base.{ℕ, Bytes, List, arith}
use micro_config_drive.System.{Os, Flag}
use micro_config_drive.System.Calls.{OnlyCalls, calls_rules}
use micro_config_drive.Files.{
  make_dir, write_file, write_open_file, chown_ids, chown_user, chown_path, write_sudo_directives,
}

pub make_dir-OnlyCalls : (os : Os) (path : Bytes) (mode : ℕ) → OnlyCalls (make_dir os path mode)
unfolding make_dir
make_dir-OnlyCalls os path mode = record { vars = λ w. ground arith }

pub write_file-OnlyCalls :
    (os : Os) (text path : Bytes) (flags : List Flag) (mode : ℕ)
    → OnlyCalls (write_file os text path flags mode)
unfolding write_file write_open_file
write_file-OnlyCalls os text path flags mode = record { vars = λ w. ground arith }

pub chown_path-OnlyCalls :
    (os : Os) (path owner group : Bytes) → OnlyCalls (chown_path os path owner group)
unfolding chown_path chown_user chown_ids
chown_path-OnlyCalls os path owner group = record { vars = λ w. ground arith }

pub write_sudo_directives-OnlyCalls :
    (os : Os) (text filename : Bytes) (flags : List Flag)
    → OnlyCalls (write_sudo_directives os text filename flags)
unfolding write_sudo_directives
write_sudo_directives-OnlyCalls os text filename flags =
    search (calls_rules, make_dir-OnlyCalls, write_file-OnlyCalls)
