-- ===== src/Tests/Tasks.antt =====
-- One function that starts one command.
use micro_config_drive.Base.{refl, true, false, arith}
use micro_config_drive.AsyncTask.{
  Phase, State, async_task_init, async_task_run, start_task, end_task, spawn_child, count_task,
  async_task_callback, free_pool, enter_loop, leave, run, start, stop, spawn, count, free, enter,
  callback, end, Reached, init, next,
}
use micro_config_drive.AsyncTask.Reachable.{IsDone, async_task_finish_waits}

abbrev pushed : State
pushed = record async_task_init { queued = 1 }

abbrev started : State
started = record async_task_init { running = 1 }

abbrev spawned : State
spawned = record started { children = 1; uncounted = 1 }

abbrev counted : State
counted = record started { children = 1; tasks = 1 }

abbrev stopped : State
stopped = record counted { running = 0 }

abbrev freed : State
freed = record stopped { thread_pool = false; phase = Phase.pool_ended }

abbrev in_loop : State
in_loop = record freed { phase = Phase.looping }

abbrev quit : State
quit = record in_loop { children = 0; tasks = 0; phase = Phase.loop_quit }

abbrev over : State
over = record quit { phase = Phase.finished }

stopped-Reached : Reached stopped
unfolding async_task_run start_task spawn_child count_task end_task
stopped-Reached =
    next counted stopped
      (next spawned counted
        (next started spawned
          (next pushed started (next async_task_init pushed init (run async_task_init true refl))
            (start pushed (omega arith) refl))
          (spawn started true refl (omega arith)))
        (count spawned (omega arith) refl))
      (stop counted (omega arith) refl)

in_loop-Reached : Reached in_loop
unfolding free_pool enter_loop
in_loop-Reached =
    next freed in_loop (next stopped freed stopped-Reached (free stopped refl refl refl refl))
      (enter freed refl)

over-Reached : Reached over
unfolding async_task_callback leave
over-Reached =
    next quit over (next in_loop quit in_loop-Reached (callback in_loop refl (omega arith)))
      (end quit refl)

async_task_finish_waits_example : IsDone over
async_task_finish_waits_example = async_task_finish_waits over over-Reached refl
