-- ===== src/Fetch/Main/Naps/Loops.antt =====
-- How often the loops around `gethostbyname` and `connect` sleep.
use micro_config_drive.Base.{
  ℕ, zero, suc, ◌+◌, ◌≤◌, Bytes, Option, none, some, [], ◌∷◌, ◌++◌, Bool, true, false,
  if◌then◌else◌, arith,
}
use micro_config_drive.System.{nanosleep, connect, look_up}
use micro_config_drive.System.Io.{World}
use micro_config_drive.Fetch.Connect.{
  Net, nap, look_up_loop, resolve, connect_loop, connect_server, socket_opened, open_socket, reopen,
}
use micro_config_drive.Fetch.Main.Ending.{◌>>=◌, ◌>>◌, pure}
use micro_config_drive.Fetch.Main.Naps.{
  naps, naps-append, NapsAtMost, NapsAtMost-pure, NapsAtMost-exit, NapsAtMost-bind, NapsAtMost-seq,
  nap_rules,
}

-- The failures that the look-up leaves over are not slept for yet.
look_up_loop-naps :
    (net : Net) (ip : Bytes) (left : ℕ) (w : World)
    → naps (look_up_loop net ip left w).1.trace
        + elim (look_up_loop net ip left w).0 [ none ↦ 0 | some n ↦ n + 1 ]
      ≤ naps w.trace + (left + 1)
unfolding look_up_loop ◌>>=◌ ◌>>◌ naps
look_up_loop-naps net ip zero w =
    let v = record w { trace = w.trace ++ (look_up ip ∷ []) } in
    ground (arith, naps-append w.trace (look_up ip ∷ []), naps-append v.trace (nanosleep nap ∷ []))
look_up_loop-naps net ip (suc left) w =
    let v = record w { trace = w.trace ++ (look_up ip ∷ []) } in
    let u = record v { trace = v.trace ++ (nanosleep nap ∷ []) } in
    ground (
      arith,
      naps-append w.trace (look_up ip ∷ []),
      naps-append v.trace (nanosleep nap ∷ []),
      look_up_loop-naps net ip left u,
    )

connect_loop-naps : (net : Net) (fd left : ℕ) → NapsAtMost (left + 1) (connect_loop net fd left)
unfolding connect_loop ◌>>=◌ ◌>>◌ naps
connect_loop-naps net fd zero = record {
  bound = λ w.
      let v = record w { trace = w.trace ++ (connect fd ∷ []) } in
      ground
        (arith, naps-append w.trace (connect fd ∷ []), naps-append v.trace (nanosleep nap ∷ []));
}
connect_loop-naps net fd (suc left) = record {
  bound = λ w.
      let v = record w { trace = w.trace ++ (connect fd ∷ []) } in
      let u = record v { trace = v.trace ++ (nanosleep nap ∷ []) } in
      ground (
        arith,
        naps-append w.trace (connect fd ∷ []),
        naps-append v.trace (nanosleep nap ∷ []),
        (connect_loop-naps net fd left).bound u,
      );
}

connect_more-naps :
    (net : Net) (fd left : ℕ) (v w : World)
    → naps v.trace + (left + 1) ≤ naps w.trace + 2001
    → naps (connect_loop net fd (400 + left) v).1.trace ≤ naps w.trace + 2401
connect_more-naps net fd left v w h = omega (arith, (connect_loop-naps net fd (400 + left)).bound v)

connect_left-naps :
    (net : Net) (fd : ℕ) (r : Option ℕ × World) (w : World)
    → naps r.1.trace + elim r.0 [ none ↦ 0 | some n ↦ n + 1 ] ≤ naps w.trace + 2001
    → naps (((λ _. r) >>= (λ left. pure (400 + left)) >>= connect_loop net fd) w).1.trace
      ≤ naps w.trace + 2401
unfolding ◌>>=◌
connect_left-naps net fd (none, v) w h = omega arith
connect_left-naps net fd (some left, v) w h = connect_more-naps net fd left v w h

resolved-naps :
    (net : Net) (ip : Bytes) (fd : ℕ) (direct : Bool) (w : World)
    → naps
        (((if direct then pure 2400 else do left ← look_up_loop net ip 2000; pure (400 + left))
            >>= connect_loop net fd)
          w).1.trace
      ≤ naps w.trace + 2401
unfolding ◌>>=◌
resolved-naps net ip fd true w = (connect_loop-naps net fd 2400).bound w
resolved-naps net ip fd false w =
    connect_left-naps net fd (look_up_loop net ip 2000 w) w (look_up_loop-naps net ip 2000 w)

pub connect_server-naps :
    (net : Net) (ip : Bytes) (fd : ℕ) → NapsAtMost 2401 (connect_server net ip fd)
unfolding connect_server resolve
connect_server-naps net ip fd = record {
  bound = λ w. resolved-naps net ip fd (net.is_address ip) w;
}

socket_opened-naps : (fd : Option ℕ) → NapsAtMost 0 (socket_opened fd)
unfolding socket_opened
socket_opened-naps none = NapsAtMost-exit
socket_opened-naps (some fd) = NapsAtMost-pure fd

pub open_socket-naps : (net : Net) → NapsAtMost 0 (open_socket net)
unfolding open_socket naps
open_socket-naps net = search (nap_rules, socket_opened-naps)

pub reopen-naps : (net : Net) → NapsAtMost 201 (reopen net)
unfolding reopen
reopen-naps net =
    NapsAtMost-bind {j = 0} {k = 201} (open_socket-naps net)
      (λ fd. NapsAtMost-seq {j = 201} {k = 0} (connect_loop-naps net fd 200) (NapsAtMost-pure fd))
