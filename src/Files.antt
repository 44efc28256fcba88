-- ===== src/Files.antt =====
-- The file helpers of src/lib.c: directories, whole files, owners, copies and sudo rules.
pub mod Descriptors
pub mod Variables
pub mod Keeps
use micro_config_drive.Base.{
  ℕ, Bytes, str, clip, path_max, Option, none, some, List, [], ◌∷◌, ◌++◌, Bool, true, false, not,
  ◌&&◌, if◌then◌else◌,
}
use micro_config_drive.System.{
  Os, Call, Stat, Passwd, Flag, o_rdonly, o_wronly, o_creat, o_trunc, stat, mkdir, write, fchmod,
  close, fstat, sendfile, chown, getpwnam, getgrnam,
}
use micro_config_drive.System.Io.{Io, ◌>>=◌, ◌>>◌, pure, call, open_path}

-- `S_IRUSR | S_IWUSR` and the other permission sets that the program writes, in decimal.
abbrev pub mode_600 : ℕ
mode_600 = 384

abbrev pub mode_700 : ℕ
mode_700 = 448

abbrev pub mode_440 : ℕ
mode_440 = 288

abbrev pub mode_755 : ℕ
mode_755 = 493

-- `O_CREAT | O_TRUNC | O_WRONLY`
abbrev pub create_new : List Flag
create_new = o_creat ∷ o_trunc ∷ o_wronly ∷ []

-- `make_dir`: true for the return value 0. A directory that is there is left as it is.
unfoldable pub make_dir : Os → Bytes → ℕ → Io Bool
make_dir os pathname mode = do
  found ← call (stat pathname) (λ t. os.stat_of t pathname)
  elim found [
    | none ↦ call (mkdir pathname mode) (λ t. os.mkdir_done t pathname mode)
    | some st ↦ pure st.is_dir
  ]

abbrev pub is_some {ℓ} : {A : Type ℓ} → Option A → Bool
is_some none = false
is_some (some a) = true

-- `write_file` once the file is open: each call is made, whatever those before it returned.
unfoldable pub write_open_file : Os → Bytes → ℕ → ℕ → Io Bool
write_open_file os text mode fd = do
  wrote ← call (write fd text) (λ t. os.written t fd text)
  changed ← call (fchmod fd mode) (λ t. os.fchmod_done t fd mode)
  closed ← call (close fd) (λ t. os.close_done t fd)
  pure (is_some wrote && (changed && closed))

unfoldable pub write_file : Os → Bytes → Bytes → List Flag → ℕ → Io Bool
write_file os text file_path oflags mode = do
  opened ← open_path os file_path oflags
  elim opened [ none ↦ pure false | some fd ↦ write_open_file os text mode fd ]

-- What `chown_path` returns: 0 and -1 are those of `chown`, and 1 is its own.
pub data Chowned : Type 0 where
  done failed not_found : Chowned

-- `chown_path` behind the look-up of the group.
unfoldable pub chown_ids : Os → Bytes → Passwd → Option ℕ → Io Chowned
chown_ids os pathname pwd none = pure not_found
chown_ids os pathname pwd (some gid) = do
  changed ← call (chown pathname pwd.uid gid) (λ t. os.chown_done t pathname pwd.uid gid)
  pure (if changed then done else failed)

-- `chown_path` behind the look-up of the user.
unfoldable pub chown_user : Os → Bytes → Bytes → Option Passwd → Io Chowned
chown_user os pathname groupname none = pure not_found
chown_user os pathname groupname (some pwd) = do
  group ← call (getgrnam groupname) (λ t. os.group_of t groupname)
  chown_ids os pathname pwd group

unfoldable pub chown_path : Os → Bytes → Bytes → Bytes → Io Chowned
chown_path os pathname ownername groupname = do
  user ← call (getpwnam ownername) (λ t. os.passwd_of t ownername)
  chown_user os pathname groupname user

unfoldable pub write_sudo_directives : Os → Bytes → Bytes → List Flag → Io Bool
write_sudo_directives os text filename oflags = do
  let sudoers_path = clip path_max (os.sysconfdir ++ str "/sudoers.d/")
  made ← make_dir os sudoers_path mode_755
  if made
      then write_file os text (clip path_max (sudoers_path ++ filename)) oflags mode_440
      else pure false

-- The part of `copy_file` between the opening and the closing of the destination.
unfoldable pub copy_open_files : Os → ℕ → ℕ → Stat → Io Bool
copy_open_files os fd_src fd_dest st = do
  sent ← call (sendfile fd_dest fd_src st.size) (λ t. os.sendfile_done t fd_dest fd_src st.size)
  if sent then call (fchmod fd_dest st.mode) (λ t. os.fchmod_done t fd_dest st.mode) else pure false

-- The part of `copy_file` from the opening of the destination to its closing.
unfoldable pub copy_into : Os → ℕ → Bytes → Stat → Io Bool
copy_into os fd_src dest st = do
  opened ← open_path os dest (o_wronly ∷ o_creat ∷ o_trunc ∷ [])
  elim opened [
    | none ↦ pure false
    | some fd_dest ↦ do
      result ← copy_open_files os fd_src fd_dest st
      call (close fd_dest) (λ t. os.close_done t fd_dest)
      pure result
  ]

-- The part of `copy_file` between the opening and the closing of the source.
unfoldable pub copy_to : Os → ℕ → Bytes → Option Stat → Io Bool
copy_to os fd_src dest none = pure false
copy_to os fd_src dest (some st) = do
  made ← make_dir os (os.dirname (clip path_max dest)) st.mode
  if made then copy_into os fd_src dest st else pure false

unfoldable pub copy_file : Os → Bytes → Bytes → Io Bool
copy_file os src dest = do
  opened ← open_path os src (o_rdonly ∷ [])
  elim opened [
    | none ↦ pure false
    | some fd_src ↦ do
      found ← call (fstat fd_src) (λ t. os.fstat_of t fd_src)
      result ← copy_to os fd_src dest found
      call (close fd_src) (λ t. os.close_done t fd_src)
      pure result
  ]
