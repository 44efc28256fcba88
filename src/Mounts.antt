-- ===== src/Mounts.antt =====
-- `mount_filesystem` and `umount_filesystem` of src/lib.c: a block device, or a file behind a loop
-- device.
pub mod Balance
pub mod Unmounting
use micro_config_drive.Base.{
  ℕ, zero, suc, ◌+◌, Bytes, str, clip, path_max, Option, none, some, List, [], ◌∷◌, ◌++◌, Bool,
  true, false, ◌==◌, if◌then◌else◌,
}
use micro_config_drive.System.{
  Os, Call, Trace, Stat, o_rdonly, stat, close, remove, mount, umount, mknod, loop_set_fd,
  loop_set_status64, loop_set_status, loop_clr_fd,
}
use micro_config_drive.System.Io.{Io, ◌>>=◌, ◌>>◌, pure, skip, call, open_path}
use micro_config_drive.Files.{make_dir}
use micro_config_drive.Disk.{Blocks, type_by_device}

-- What the calls about devices answer: true where they succeed.
pub record Devices : Type 0 where
  pub blocks : Blocks
  pub mount_done : Trace → Bytes → Bytes → Bool
  pub umount_done : Trace → Bytes → Bool
  pub mknod_done : Trace → Bytes → ℕ → Bool
  pub set_fd_done : Trace → ℕ → ℕ → Bool
  pub set_status64_done : Trace → ℕ → Bool
  pub set_status_done : Trace → ℕ → Bool
  pub clr_fd_done : Trace → ℕ → Bool

-- The name of a loop device with a number of one digit.
abbrev pub loop_name : ℕ → Bytes
loop_name minor_id = str "/dev/loop" ++ ((b'0' + minor_id) ∷ [])

-- The first number from `minor_id` on whose device is not there, of as many as are left.
unfoldable pub find_loop : Os → ℕ → ℕ → Io (Option ℕ)
find_loop os zero minor_id = pure none
find_loop os (suc left) minor_id = do
  found ← call (stat (loop_name minor_id)) (λ t. os.stat_of t (loop_name minor_id))
  let more = find_loop os left (minor_id + 1)
  elim found [ none ↦ pure (some minor_id) | some st ↦ more ]

-- `if (fd) close (fd)`
unfoldable pub close_nonzero : Os → ℕ → Io (Unit {0})
close_nonzero os fd = if fd == 0 then skip else do call (close fd) (λ t. os.close_done t fd); skip

-- The status of the loop device, in the first of two forms that is taken. If none is, the device is
-- cleared and removed.
unfoldable pub set_status : Devices → Bytes → Bytes → ℕ → Io Bool
set_status dev device loop_device loopfd = do
  new_form ← call (loop_set_status64 loopfd device) (λ t. dev.set_status64_done t loopfd)
  if new_form then pure true else do
    old_form ← call (loop_set_status loopfd device) (λ t. dev.set_status_done t loopfd)
    if old_form then pure true else do
      call (loop_clr_fd loopfd) (λ t. dev.clr_fd_done t loopfd)
      call (remove loop_device) (λ t. tt)
      pure false

-- `*loop_device_ = …`: the only caller passes the address of `config_drive_loop_device`.
abbrev pub hand_back : Bytes → Io (Unit {0})
hand_back loop_device w = (
  tt,
  record w {
    drive = record w.drive { config_drive_loop_device = some (clip path_max loop_device) };
  },
)

-- What is done with a loop device that the file is attached to.
unfoldable pub mount_loop : Os → Devices → Bytes → Bytes → Bytes → Bytes → ℕ → Io Bool
mount_loop os dev device mountdir devtype loop_device loopfd = do
  configured ← set_status dev device loop_device loopfd
  if configured
      then (do
        -- `S_IRUSR`
        made ← make_dir os mountdir 256
        if made
            then (do
              mounted ←
                  call (mount loop_device mountdir devtype)
                    (λ t. dev.mount_done t loop_device mountdir)
              if mounted then (do hand_back loop_device; pure true) else pure false)
            else pure false)
      else pure false

-- From the opened file on, with the label `fail3`.
unfoldable pub attach : Os → Devices → Bytes → Bytes → Bytes → Bytes → ℕ → Option ℕ → Io Bool
attach os dev device mountdir devtype loop_device loopfd none = pure false
attach os dev device mountdir devtype loop_device loopfd (some filefd) = do
  set ← call (loop_set_fd loopfd filefd) (λ t. dev.set_fd_done t loopfd filefd)
  if set
      then (do
        call (close filefd) (λ t. os.close_done t filefd)
        mount_loop os dev device mountdir devtype loop_device loopfd)
      else (do close_nonzero os filefd; pure false)

-- From the opened loop device on, with the label `fail2`.
unfoldable pub with_loop : Os → Devices → Bytes → Bytes → Bytes → Bytes → Option ℕ → Io Bool
with_loop os dev device mountdir devtype loop_device none = do
  call (remove loop_device) (λ t. tt)
  pure false
with_loop os dev device mountdir devtype loop_device (some loopfd) = do
  filefd ← open_path os device (o_rdonly ∷ [])
  result ← attach os dev device mountdir devtype loop_device loopfd filefd
  close_nonzero os loopfd
  pure result

unfoldable pub open_loop : Os → Devices → Bytes → Bytes → Bytes → Bytes → Io Bool
open_loop os dev device mountdir devtype loop_device = do
  loopfd ← open_path os loop_device (o_rdonly ∷ [])
  with_loop os dev device mountdir devtype loop_device loopfd

unfoldable pub make_loop : Os → Devices → Bytes → Bytes → Bytes → Option ℕ → Io Bool
make_loop os dev device mountdir devtype none = pure false
make_loop os dev device mountdir devtype (some minor_id) = do
  let loop_device = loop_name minor_id
  created ← call (mknod loop_device minor_id) (λ t. dev.mknod_done t loop_device minor_id)
  if created then open_loop os dev device mountdir devtype loop_device else pure false

-- With the type and the state of the device. The eight numbers are those up to `LOOP_MAJOR_ID`.
unfoldable pub mount_typed : Os → Devices → Bytes → Bytes → Bytes → Bool → Io Bool
mount_typed os dev device mountdir devtype true =
    call (mount device mountdir devtype) (λ t. dev.mount_done t device mountdir)
mount_typed os dev device mountdir devtype false = do
  minor_id ← find_loop os 8 0
  make_loop os dev device mountdir devtype minor_id

unfoldable pub mount_known : Os → Devices → Bytes → Bytes → Stat → Option Bytes → Io Bool
mount_known os dev device mountdir st none = pure false
mount_known os dev device mountdir st (some devtype) =
    mount_typed os dev device mountdir devtype st.is_block

unfoldable pub mount_found : Os → Devices → Bytes → Bytes → Option Stat → Io Bool
mount_found os dev device mountdir none = pure false
mount_found os dev device mountdir (some st) = do
  devtype ← type_by_device dev.blocks device
  mount_known os dev device mountdir st devtype

-- `mount_filesystem`
unfoldable pub mount_filesystem : Os → Devices → Bytes → Bytes → Io Bool
mount_filesystem os dev device mountdir = do
  found ← call (stat device) (λ t. os.stat_of t device)
  mount_found os dev device mountdir found

-- The part of `umount_filesystem` for a loop device: false ends the function.
unfoldable pub clear_loop : Os → Devices → Bytes → Option ℕ → Io Bool
clear_loop os dev loop_device none = pure false
clear_loop os dev loop_device (some fd) = do
  cleared ← call (loop_clr_fd fd) (λ t. dev.clr_fd_done t fd)
  call (close fd) (λ t. os.close_done t fd)
  if cleared then (do call (remove loop_device) (λ t. tt); pure true) else pure false

unfoldable pub release_loop : Os → Devices → Option Bytes → Io Bool
release_loop os dev none = pure true
release_loop os dev (some loop_device) = do
  fd ← open_path os loop_device (o_rdonly ∷ [])
  clear_loop os dev loop_device fd

unfoldable pub umount_filesystem : Os → Devices → Bytes → Option Bytes → Io Bool
umount_filesystem os dev mountdir loop_device = do
  released ← release_loop os dev loop_device
  if released
      then (do
        gone ← call (umount mountdir) (λ t. dev.umount_done t mountdir)
        if gone then (do call (remove mountdir) (λ t. tt); pure true) else pure false)
      else pure false
