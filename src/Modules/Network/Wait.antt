-- ===== src/Modules/Network/Wait.antt =====
-- How long the program waits for a network.
use micro_config_drive.Base.{
  ℕ, zero, suc, ◌+◌, ◌*◌, ◌-◌, ◌≤◌, ◌<◌, Bytes, Option, some, List, [], ◌∷◌, ◌++◌, ltb,
  if◌then◌else◌, ◌≡◌, arith,
}
use micro_config_drive.System.{Os, Trace, usleep, resolve_name, spawn}
use micro_config_drive.System.Io.{World, Io, NetworkWait, ◌>>◌}
use micro_config_drive.Shell.{exec_task, shell_line}
use micro_config_drive.GNode.{GNode, leaves}
use micro_config_drive.Modules.Network.{
  wait_loop, wait_fuel, wait_for_network, must_wait, packages_items, packages_handler,
  install_command,
}

-- The microseconds that the calls of a trace sleep.
unfoldable pub slept_time : Trace → ℕ
slept_time [] = 0
slept_time (usleep n ∷ t) = n + slept_time t
slept_time (_ ∷ t) = slept_time t

pub slept_time-append : (s t : Trace) → slept_time (s ++ t) ≡ slept_time s + slept_time t
unfolding slept_time
slept_time-append [] t = omega arith
slept_time-append (usleep n ∷ s) t = omega (arith, slept_time-append s t)
slept_time-append (_ ∷ s) t = omega (arith, slept_time-append s t)

-- The state of the next round.
abbrev next_times : ℕ → ℕ
next_times times = if ltb times 10 then times + 1 else times

-- What a waiting action keeps: it ends, sleeps at most `budget` microseconds, and leaves the mark.
abbrev pub Bounded : ℕ → World → Option (Unit {0}) × World → Type 0
Bounded budget w r =
    (r.0 ≡ some tt)
    × (slept_time r.1.trace ≤ slept_time w.trace + budget)
    × (r.1.do_network_wait ≡ w.do_network_wait)

wait_loop-Bounded :
    (fuel : ℕ) (os : Os) (slept times : ℕ) (w : World)
    → slept ≤ 3000
    → 3000 < slept + fuel
    → Bounded ((3000 - slept) * 100000) w (wait_loop fuel os slept times w)
unfolding wait_loop slept_time
wait_loop-Bounded zero os slept times w h k = absurd (omega arith)
wait_loop-Bounded (suc fuel) os slept times w h k =
    let t = next_times times in
    let v = record w { trace = w.trace ++ (resolve_name ∷ []) } in
    let u = record v { trace = v.trace ++ (usleep (t * 100000) ∷ []) } in
    ground (
      arith,
      slept_time-append w.trace (resolve_name ∷ []),
      slept_time-append v.trace (usleep (t * 100000) ∷ []),
      wait_loop-Bounded fuel os (slept + t) t u,
    )

-- The loop ends by its own tests, before its fuel does, after five minutes of sleep at most.
pub wait_loop_total : (os : Os) (w : World) → Bounded 300000000 w (wait_loop wait_fuel os 0 0 w)
wait_loop_total os w = wait_loop-Bounded wait_fuel os 0 0 w (omega arith) (omega arith)

-- The sleep that is still to be spent: five minutes until the first wait, nothing after it.
abbrev pub budget : World → ℕ
budget w = if must_wait w.do_network_wait then 300000000 else 0

-- An action sleeps no longer than the budget that it uses up.
pub record WithinBudget {A : Type 0} (m : Io A) : Type 0 where
  pub within :
      (w : World) → slept_time (m w).1.trace + budget (m w).1 ≤ slept_time w.trace + budget w

wait_for_network-WithinBudget : (os : Os) → WithinBudget (wait_for_network os)
unfolding wait_for_network
wait_for_network-WithinBudget os = record {
  within = λ w.
      let v = record w { do_network_wait = NetworkWait.waited } in
      ground (arith, wait_loop_total os v);
}

exec_task-WithinBudget : (os : Os) (c : Bytes) → WithinBudget (exec_task os c)
unfolding exec_task slept_time
exec_task-WithinBudget os c = record {
  within = λ w. omega (arith, slept_time-append w.trace (spawn (shell_line os c) ∷ []));
}

>>-WithinBudget :
    {A B : Type 0} {m : Io A} {k : Io B} → WithinBudget m → WithinBudget k → WithinBudget (m >> k)
>>-WithinBudget {m} {k} p q = record { within = λ w. omega (arith, p.within w, q.within (m w).1) }

packages_items-WithinBudget :
    (os : Os) (names : List (Option Bytes)) → WithinBudget (packages_items os names)
unfolding packages_items
packages_items-WithinBudget os [] = record { within = λ w. omega arith }
packages_items-WithinBudget os (name ∷ names) = >>-WithinBudget (wait_for_network-WithinBudget os) (
    >>-WithinBudget (exec_task-WithinBudget os (install_command os name))
      (packages_items-WithinBudget os names))

-- A `packages` block of any length sleeps for five minutes at most, and for no time at all where the
-- program has waited before or was told not to wait.
pub packages_handler-WithinBudget :
    (os : Os) (node : GNode) → WithinBudget (packages_handler os node)
unfolding packages_handler
packages_handler-WithinBudget os node = packages_items-WithinBudget os (leaves node)
