-- ===== src/Mounts/Unmounting.antt =====
-- The descriptors that unmounting opens.
use micro_config_drive.Base.{
  ℕ, Bytes, Option, none, some, List, [], ◌∷◌, ◌++◌, true, ◌≡◌, ◌∙◌, inl, inr, Bool-cases,
  Option-cases,
}
use micro_config_drive.System.{Os, o_rdonly, open_file, close, remove, loop_clr_fd}
use micro_config_drive.System.Io.{World, ◌>>=◌}
use micro_config_drive.Files.Descriptors.{open_fds, open_fds-append, open_fds-close, opened}
use micro_config_drive.Files.Keeps.{KeepsFds, KeepsFds-pure, KeepsFds-call, keeps_rules}
use micro_config_drive.Mounts.{Devices, clear_loop, release_loop, umount_filesystem}

clear_loop-open_fds :
    (os : Os) (dev : Devices) (loop_device : Bytes) (fd : ℕ) (fds : List ℕ) (w : World)
    → open_fds w.trace ≡ fd ∷ fds
    → open_fds (clear_loop os dev loop_device (some fd) w).1.trace ≡ fds
unfolding clear_loop
clear_loop-open_fds os dev loop_device fd fds w e =
    let v = record w { trace = w.trace ++ (loop_clr_fd fd ∷ []) } in
    let u = record v { trace = v.trace ++ (close fd ∷ []) } in
    let closed = open_fds-close v.trace fd fds (open_fds-append w.trace (loop_clr_fd fd) ∙ e) in
    elim (Bool-cases (dev.clr_fd_done w.trace fd)) [
      | inl s ↦ rw (s, ◌>>=◌) (open_fds-append u.trace (remove loop_device) ∙ closed)
      | inr s ↦ rw (s, ◌>>=◌) closed
    ]

release_loop-KeepsFds :
    (os : Os) (dev : Devices) (loop_device : Option Bytes)
    → KeepsFds (release_loop os dev loop_device)
unfolding release_loop clear_loop
release_loop-KeepsFds os dev none = KeepsFds-pure true
release_loop-KeepsFds os dev (some loop_device) = record {
  fds = λ w. elim (Option-cases (os.open_fd w.trace loop_device (o_rdonly ∷ []))) [
    | inl n ↦
        rw (n, clear_loop) (open_fds-append w.trace (open_file loop_device (o_rdonly ∷ []) none))
    | inr (fd, n) ↦ rw n (
        clear_loop-open_fds os dev loop_device fd (open_fds w.trace)
          (opened loop_device (o_rdonly ∷ []) (some fd) w)
          (open_fds-append w.trace (open_file loop_device (o_rdonly ∷ []) (some fd))))
  ];
}

-- Whatever fails on the way, `umount_filesystem` leaves the same descriptors open as before.
pub umount_filesystem-open_fds :
    (os : Os) (dev : Devices) (mountdir : Bytes) (loop_device : Option Bytes) (w : World)
    → open_fds (umount_filesystem os dev mountdir loop_device w).1.trace ≡ open_fds w.trace
unfolding umount_filesystem
umount_filesystem-open_fds os dev mountdir loop_device w =
    let umounted : KeepsFds (umount_filesystem os dev mountdir loop_device) =
      search (keeps_rules, KeepsFds-call, release_loop-KeepsFds) depth 12 in
    umounted.fds w
