-- ===== src/AsyncTask/Reachable.antt =====
-- The counter of tasks, and the end of the main loop.
use micro_config_drive.Base.{◌+◌, ◌^◌, ◌<◌, ◌≡◌, ◌↔◌, arith}
use micro_config_drive.AsyncTask.{
  Phase, State, async_task_run, start_task, end_task, spawn_child, count_task, async_task_callback,
  free_pool, enter_loop, leave, Step, run, start, stop, spawn, count, free, enter, callback, end,
  Reached, init, next,
}

-- Where the counter is exact: it counts the children, but for those whose call has yet to count them.
abbrev pub IsExact : State → Type 0
IsExact s = (s.tasks + s.uncounted ≡ s.children) × (s.children < 2 ^ 32)

-- Nothing is left to be counted, and a child is left to be waited for.
abbrev pub IsWaiting : State → Type 0
IsWaiting s = IsExact s × (s.uncounted ≡ 0) × (0 < s.children)

abbrev pub IsDone : State → Type 0
IsDone s = (s.tasks ≡ 0) × (s.uncounted ≡ 0) × (s.children ≡ 0)

-- What holds in each phase.
pub record IsValid (s : State) : Type 0 where
  pub holds :
      (s.phase ≡ Phase.working → IsExact s)
      × (s.phase ≡ Phase.pool_ended → IsExact s × (s.uncounted ≡ 0))
      × (s.phase ≡ Phase.looping → IsWaiting s)
      × (s.phase ≡ Phase.loop_quit → IsDone s)
      × (s.phase ≡ Phase.finished → IsDone s)

step-IsValid : (s t : State) → Step s t → IsValid s → IsValid t
unfolding async_task_run start_task end_task spawn_child count_task async_task_callback free_pool
    enter_loop leave
step-IsValid s t (run s' pushed p) v = let before = v.holds.0 p in record { holds = ground arith }
step-IsValid s t (start s' h p) v = let before = v.holds.0 p in record { holds = ground arith }
step-IsValid s t (stop s' h p) v = let before = v.holds.0 p in record { holds = ground arith }
step-IsValid s t (spawn s' spawned p h) v =
    let before = v.holds.0 p in record { holds = ground arith }
step-IsValid s t (count s' h p) v = let before = v.holds.0 p in record { holds = ground arith }
step-IsValid s t (free s' p q r u) v = let before = v.holds.0 p in record { holds = ground arith }
step-IsValid s t (enter s' p) v = let before = v.holds.1 p in record { holds = ground arith }
step-IsValid s t (callback s' p h) v = let before = v.holds.2 p in record { holds = ground arith }
step-IsValid s t (end s' p) v = let before = v.holds.3 p in record { holds = ground arith }

-- Over every order of the threads' steps.
Reached-IsValid : (s : State) → Reached s → IsValid s
Reached-IsValid s init = record { holds = ground arith }
Reached-IsValid t (next s t' r step) = step-IsValid s t step (Reached-IsValid s r)

-- When `async_task_finish` has returned, in whatever order the threads made their steps: every child
-- that was started has ended, all were counted, and the counter is 0.
pub async_task_finish_waits : (s : State) → Reached s → s.phase ≡ Phase.finished → IsDone s
async_task_finish_waits s r p = (Reached-IsValid s r).holds.4 p

-- While the main loop runs there is a child to wait for, and the callback for a child takes it off the
-- children and ends the loop exactly if it was the last one.
pub async_task_callback_last :
    (s : State)
    → Reached s
    → s.phase ≡ Phase.looping
    → let t = async_task_callback s in
      (0 < s.children)
      × (t.children + 1 ≡ s.children)
      × ((t.phase ≡ Phase.loop_quit) ↔ (s.children ≡ 1))
unfolding async_task_callback
async_task_callback_last s r p = let before = (Reached-IsValid s r).holds.2 p in ground arith
