-- ===== src/Modules/WriteFiles.antt =====
-- src/ccmodules/write_files.c: files with given contents, permissions and owners.
pub mod Leaks
pub mod Performs
pub mod Plan
use micro_config_drive.Base.{
  ℕ, ◌/◌, ◌%◌, Bytes, str, clip, line_max, length, Option, none, some, List, [], ◌∷◌, ◌++◌, Bool,
  true, false, ◌||◌, ltb, not, ◌==◌, if◌then◌else◌,
}
use micro_config_drive.System.{Os, Call, Flag, o_wronly, o_creat, access, write, fchmod, close}
use micro_config_drive.System.Io.{Io, ◌>>=◌, ◌>>◌, pure, skip, call, open_path}
use micro_config_drive.GNode.{GNode, null, gnode, node_data, children}
use micro_config_drive.Shell.{exec_task}
use micro_config_drive.Files.{chown_path}
use micro_config_drive.CloudConfig.{cloud_config_find, cloud_config_int_base}

-- `errno & ENOENT`, with `ENOENT` 2
abbrev pub has_enoent_bit : ℕ → Bool
has_enoent_bit errno = errno / 2 % 2 == 1

-- The data of a value that is there; the code dereferences it.
abbrev pub text_of : GNode → Bytes
text_of null = []
text_of (gnode none c n) = []
text_of (gnode (some text) c n) = text

-- The check of the directory, with `errno` where it cannot be written to. False ends the item.
unfoldable pub make_parent : Os → Bytes → Option ℕ → Io Bool
make_parent os dir none = pure true
make_parent os dir (some errno) =
    if has_enoent_bit errno
    then (do exec_task os (clip line_max (str "mkdir -p " ++ dir)); pure true)
    else pure false

unfoldable pub ensure_parent : Os → Bytes → Io Bool
ensure_parent os dir = do
  errno ← call (access dir) (λ t. os.access_errno t dir)
  make_parent os dir errno

-- Whether `write` wrote all bytes: it compares the result, which is -1 on an error, with the length.
abbrev pub all_written : Bytes → Option ℕ → Bool
all_written content none = false
all_written content (some n) = not (ltb n (length content))

unfoldable pub set_permissions : Os → ℕ → GNode → Io (Unit {0})
set_permissions os fd null w = (tt, w)
set_permissions os fd (gnode d c n) w =
    let (valid, mode) =
      cloud_config_int_base (text_of (gnode d c n)) 8 (os.errno_is_erange w.trace) in
    if valid then (do call (fchmod fd mode) (λ t. os.fchmod_done t fd mode); skip) w else (tt, w)

-- `g_strsplit_set (owner, ":.", 2)`
unfoldable pub split_owner : Bytes → Bytes × Option Bytes
split_owner [] = ([], none)
split_owner (c ∷ cs) =
    let (user, group) = split_owner cs in
    if c == b':' || c == b'.' then ([], some cs) else (c ∷ user, group)

abbrev pub or_empty : Option Bytes → Bytes
or_empty none = []
or_empty (some text) = text

-- An empty owner has no token, and is left alone.
unfoldable pub chown_tokens : Os → Bytes → Bytes → Io (Unit {0})
chown_tokens os path [] = skip
chown_tokens os path (c ∷ cs) =
    let (user, group) = split_owner (c ∷ cs) in do chown_path os path user (or_empty group); skip

unfoldable pub set_owner : Os → Bytes → GNode → Io (Unit {0})
set_owner os path null = skip
set_owner os path (gnode d c n) = chown_tokens os path (text_of (gnode d c n))

-- The part behind the writing of the contents. A short write ends the item.
unfoldable pub finish_file : Os → ℕ → Bytes → GNode → GNode → Bool → Io (Unit {0})
finish_file os fd path permissions owner false = skip
finish_file os fd path permissions owner true = do
  set_permissions os fd permissions
  call (close fd) (λ t. os.close_done t fd)
  set_owner os path owner

unfoldable pub fill_file : Os → Bytes → Bytes → GNode → GNode → Option ℕ → Io (Unit {0})
fill_file os content path permissions owner none = skip
fill_file os content path permissions owner (some fd) = do
  wrote ← call (write fd content) (λ t. os.written t fd content)
  finish_file os fd path permissions owner (all_written content wrote)

unfoldable pub write_item : Os → Bytes → Bytes → GNode → GNode → Io (Unit {0})
write_item os content path permissions owner = do
  ready ← ensure_parent os (os.dirname path)
  if ready
      then (do
        fd ← open_path os path (o_wronly ∷ o_creat ∷ [])
        fill_file os content path permissions owner fd)
      else skip

-- `write_files_item` with what `cloud_config_find` finds: content, path, permissions and owner.
unfoldable pub write_found : Os → GNode → GNode → GNode → GNode → Io (Unit {0})
write_found os null path permissions owner = skip
write_found os (gnode d c n) null permissions owner = skip
write_found os (gnode d c n) (gnode d' c' n') permissions owner =
    write_item os (text_of (gnode d c n)) (text_of (gnode d' c' n')) permissions owner

unfoldable pub write_files_item : Os → GNode → Io (Unit {0})
write_files_item os node =
    write_found os ((cloud_config_find node (str "content")).item)
      ((cloud_config_find node (str "path")).item)
      ((cloud_config_find node (str "permissions")).item)
      ((cloud_config_find node (str "owner")).item)

unfoldable pub write_files_items : Os → GNode → Io (Unit {0})
write_files_items os null = skip
write_files_items os (gnode d c n) = do write_files_item os (gnode d c n); write_files_items os n

unfoldable pub write_files_handler : Os → GNode → Io (Unit {0})
write_files_handler os node = write_files_items os (children node)
