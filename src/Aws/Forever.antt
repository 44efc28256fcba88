-- ===== src/Aws/Forever.antt =====
-- The loops have no time-out.
use micro_config_drive.Base.{ℕ, zero, suc, ◌+◌, none, [], ◌∷◌, ◌++◌, ◌≡◌, refl, arith}
use micro_config_drive.System.{Trace, connect, nanosleep}
use micro_config_drive.System.Io.{World}
use micro_config_drive.Fetch.Connect.{Net, retry, nap}
use micro_config_drive.Fetch.Main.Naps.{naps, naps-append}
use micro_config_drive.Aws.{connect_loop}

-- As long as the server is unreachable or does not answer, the loop does not end, after any number of
-- rounds: whatever the fuel, it runs out, and each round has slept once.
pub connect_loop_forever :
    (fuel : ℕ) (net : Net) (fd : ℕ) (w : World)
    → ((t : Trace) → net.connect_done t fd ≡ retry)
    → let (r, v) = connect_loop fuel net fd w in (r ≡ none) × (naps v.trace ≡ naps w.trace + fuel)
unfolding connect_loop naps
connect_loop_forever zero net fd w h = (refl, omega arith)
connect_loop_forever (suc fuel) net fd w h =
    let v = record w { trace = w.trace ++ (connect fd ∷ []) } in
    let u = record v { trace = v.trace ++ (nanosleep nap ∷ []) } in
    let (rest, slept) = connect_loop_forever fuel net fd u h in
    rw (h w.trace) (
      rest,
      omega (
        arith,
        slept,
        naps-append w.trace (connect fd ∷ []),
        naps-append v.trace (nanosleep nap ∷ []),
      ),
    )
