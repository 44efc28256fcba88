-- ===== src/Mounts/Balance.antt =====
-- The descriptors that mounting and unmounting open.
use micro_config_drive.Base.{
  ℕ, zero, suc, ◌+◌, Bytes, Option, none, some, List, [], ◌∷◌, ◌++◌, Bool, true, false, ◌≡◌, ◌≢◌,
  refl, ◌∙◌, arith, inl, inr, Bool-cases, Option-cases, ap,
}
use micro_config_drive.System.{
  Os, Trace, Flag, Stat, o_rdonly, open_file, stat, close, remove, mknod, loop_set_fd,
}
use micro_config_drive.System.Io.{World, Io, ◌>>=◌, pure}
use micro_config_drive.Files.Descriptors.{open_fds, open_fds-append, open_fds-close, opened}
use micro_config_drive.Files.Keeps.{
  KeepsFds, KeepsFds-pure, KeepsFds-call, KeepsFds-bind, KeepsFds-if, KeepsFds-after, keeps_rules,
}
use micro_config_drive.Disk.{Blocks, type_by_device, probe_type}
use micro_config_drive.Mounts.{
  Devices, find_loop, loop_name, close_nonzero, set_status, hand_back, mount_loop, attach,
  with_loop, open_loop, make_loop, mount_typed, mount_known, mount_found, mount_filesystem,
}

type_by_device-KeepsFds : (b : Blocks) (device : Bytes) → KeepsFds (type_by_device b device)
unfolding type_by_device probe_type
type_by_device-KeepsFds b device = search (keeps_rules, KeepsFds-call) depth 14

loop_found-KeepsFds :
    (os : Os) (left minor_id : ℕ) (found : Option Stat) (m : Io (Option ℕ))
    → KeepsFds m
    → KeepsFds {A = Option ℕ} (elim found [ none ↦ pure (some minor_id) | some st ↦ m ])
loop_found-KeepsFds os left minor_id none m p = KeepsFds-pure (some minor_id)
loop_found-KeepsFds os left minor_id (some st) m p = p

find_loop-KeepsFds : (os : Os) (left minor_id : ℕ) → KeepsFds (find_loop os left minor_id)
unfolding find_loop
find_loop-KeepsFds os zero minor_id = KeepsFds-pure none
find_loop-KeepsFds os (suc left) minor_id =
    KeepsFds-after (stat (loop_name minor_id)) (λ t. os.stat_of t (loop_name minor_id)) _
      (λ fds. refl)
      (λ found.
        loop_found-KeepsFds os left minor_id found _ (find_loop-KeepsFds os left (minor_id + 1)))

set_status-KeepsFds :
    (dev : Devices) (device loop_device : Bytes) (loopfd : ℕ)
    → KeepsFds (set_status dev device loop_device loopfd)
unfolding set_status
set_status-KeepsFds dev device loop_device loopfd = search (keeps_rules, KeepsFds-call) depth 12

hand_back-KeepsFds : (loop_device : Bytes) → KeepsFds (hand_back loop_device)
hand_back-KeepsFds loop_device = record { fds = λ w. refl }

mount_loop-KeepsFds :
    (os : Os) (dev : Devices) (device mountdir devtype loop_device : Bytes) (loopfd : ℕ)
    → KeepsFds (mount_loop os dev device mountdir devtype loop_device loopfd)
unfolding mount_loop
mount_loop-KeepsFds os dev device mountdir devtype loop_device loopfd =
    search (keeps_rules, KeepsFds-call, set_status-KeepsFds, hand_back-KeepsFds) depth 14

close_nonzero_close :
    (os : Os) (fd : ℕ) (w : World)
    → fd ≢ 0
    → (close_nonzero os fd w).1 ≡ record w { trace = w.trace ++ (close fd ∷ []) }
unfolding close_nonzero
close_nonzero_close os fd w h = ground arith

-- The file's descriptor is closed on both ways.
attach-open_fds :
    (os : Os) (dev : Devices) (device mountdir devtype loop_device : Bytes) (loopfd filefd : ℕ)
    (fds : List ℕ) (w : World)
    → filefd ≢ 0
    → open_fds w.trace ≡ filefd ∷ fds
    → open_fds (attach os dev device mountdir devtype loop_device loopfd (some filefd) w).1.trace
      ≡ fds
unfolding attach
attach-open_fds os dev device mountdir devtype loop_device loopfd filefd fds w h e =
    let v = record w { trace = w.trace ++ (loop_set_fd loopfd filefd ∷ []) } in
    let u = record v { trace = v.trace ++ (close filefd ∷ []) } in
    let closed =
      open_fds-close v.trace filefd fds (open_fds-append w.trace (loop_set_fd loopfd filefd) ∙ e) in
    elim (Bool-cases (dev.set_fd_done w.trace loopfd filefd)) [
      | inl s ↦
          rw (s, ◌>>=◌)
            ((mount_loop-KeepsFds os dev device mountdir devtype loop_device loopfd).fds u ∙ closed)
      | inr s ↦ rw (s, ◌>>=◌) (rw (close_nonzero_close os filefd v h) closed)
    ]

module _ (os : Os)
    (some_fd : (t : Trace) (path : Bytes) (flags : List Flag) (fd : ℕ)
      → os.open_fd t path flags ≡ some fd
      → fd ≢ 0) where
  with_loop-open_fds :
      (dev : Devices) (device mountdir devtype loop_device : Bytes) (loopfd : ℕ) (fds : List ℕ)
      (w : World)
      → loopfd ≢ 0
      → open_fds w.trace ≡ loopfd ∷ fds
      → open_fds (with_loop os dev device mountdir devtype loop_device (some loopfd) w).1.trace
        ≡ fds
  unfolding with_loop attach
  with_loop-open_fds dev device mountdir devtype loop_device loopfd fds w h e =
      let file = os.open_fd w.trace device (o_rdonly ∷ []) in
      let v = opened device (o_rdonly ∷ []) file w in
      let u = (attach os dev device mountdir devtype loop_device loopfd file v).1 in
      elim (Option-cases file) [
        | inl n ↦ rw n (
            rw (close_nonzero_close os loopfd (opened device (o_rdonly ∷ []) none w) h) (
              open_fds-close (opened device (o_rdonly ∷ []) none w).trace loopfd fds
                (open_fds-append w.trace (open_file device (o_rdonly ∷ []) none) ∙ e)))
        | inr (filefd, n) ↦ rw (close_nonzero_close os loopfd u h) (
            open_fds-close u.trace loopfd fds (
              rw n (
                attach-open_fds os dev device mountdir devtype loop_device loopfd filefd
                  (loopfd ∷ fds) (opened device (o_rdonly ∷ []) (some filefd) w)
                  (some_fd w.trace device (o_rdonly ∷ []) filefd n)
                  (open_fds-append w.trace _ ∙ ap (λ (x : List ℕ). filefd ∷ x) e))))
      ]

  loop_opened-open_fds :
      (dev : Devices) (device mountdir devtype loop_device : Bytes) (fd : Option ℕ) (w : World)
      → os.open_fd w.trace loop_device (o_rdonly ∷ []) ≡ fd
      → open_fds
          (with_loop os dev device mountdir devtype loop_device fd
            (opened loop_device (o_rdonly ∷ []) fd w)).1.trace
        ≡ open_fds w.trace
  unfolding with_loop
  loop_opened-open_fds dev device mountdir devtype loop_device none w e =
      let v = opened loop_device (o_rdonly ∷ []) none w in
      open_fds-append v.trace (remove loop_device)
      ∙ open_fds-append w.trace (open_file loop_device (o_rdonly ∷ []) none)
  loop_opened-open_fds dev device mountdir devtype loop_device (some fd) w e =
      with_loop-open_fds dev device mountdir devtype loop_device fd (open_fds w.trace)
        (opened loop_device (o_rdonly ∷ []) (some fd) w)
        (some_fd w.trace loop_device (o_rdonly ∷ []) fd e)
        (open_fds-append w.trace (open_file loop_device (o_rdonly ∷ []) (some fd)))

  open_loop-KeepsFds :
      (dev : Devices) (device mountdir devtype loop_device : Bytes)
      → KeepsFds (open_loop os dev device mountdir devtype loop_device)
  unfolding open_loop
  open_loop-KeepsFds dev device mountdir devtype loop_device = record {
    fds = λ w.
        loop_opened-open_fds dev device mountdir devtype loop_device
          (os.open_fd w.trace loop_device (o_rdonly ∷ [])) w refl;
  }

  make_loop-KeepsFds :
      (dev : Devices) (device mountdir devtype : Bytes) (minor_id : Option ℕ)
      → KeepsFds (make_loop os dev device mountdir devtype minor_id)
  unfolding make_loop
  make_loop-KeepsFds dev device mountdir devtype none = KeepsFds-pure false
  make_loop-KeepsFds dev device mountdir devtype (some minor_id) =
      let loop_device = loop_name minor_id in
      KeepsFds-after (mknod loop_device minor_id) (λ t. dev.mknod_done t loop_device minor_id) _
        (λ fds. refl)
        (λ created.
          KeepsFds-if created (open_loop os dev device mountdir devtype loop_device) (pure false)
            (open_loop-KeepsFds dev device mountdir devtype loop_device) (KeepsFds-pure false))

  mount_typed-KeepsFds :
      (dev : Devices) (device mountdir devtype : Bytes) (block : Bool)
      → KeepsFds (mount_typed os dev device mountdir devtype block)
  unfolding mount_typed
  mount_typed-KeepsFds dev device mountdir devtype true = search (keeps_rules, KeepsFds-call)
  mount_typed-KeepsFds dev device mountdir devtype false =
      KeepsFds-bind _ _ (find_loop-KeepsFds os 8 0) (make_loop-KeepsFds dev device mountdir devtype)

  mount_known-KeepsFds :
      (dev : Devices) (device mountdir : Bytes) (st : Stat) (devtype : Option Bytes)
      → KeepsFds (mount_known os dev device mountdir st devtype)
  unfolding mount_known
  mount_known-KeepsFds dev device mountdir st none = KeepsFds-pure false
  mount_known-KeepsFds dev device mountdir st (some devtype) =
      mount_typed-KeepsFds dev device mountdir devtype st.is_block

  mount_found-KeepsFds :
      (dev : Devices) (device mountdir : Bytes) (found : Option Stat)
      → KeepsFds (mount_found os dev device mountdir found)
  unfolding mount_found
  mount_found-KeepsFds dev device mountdir none = KeepsFds-pure false
  mount_found-KeepsFds dev device mountdir (some st) =
      KeepsFds-bind _ _ (type_by_device-KeepsFds dev.blocks device)
        (mount_known-KeepsFds dev device mountdir st)

  -- Whatever fails on the way, `mount_filesystem` leaves the same descriptors open as before, if `open`
  -- never answers descriptor 0, which the code takes for none.
  pub mount_filesystem-open_fds :
      (dev : Devices) (device mountdir : Bytes) (w : World)
      → open_fds (mount_filesystem os dev device mountdir w).1.trace ≡ open_fds w.trace
  unfolding mount_filesystem
  mount_filesystem-open_fds dev device mountdir w =
      (KeepsFds-after (stat device) (λ t. os.stat_of t device) _ (λ fds. refl)
          (mount_found-KeepsFds dev device mountdir)).fds
        w
