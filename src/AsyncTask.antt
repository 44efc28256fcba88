-- ===== src/AsyncTask.antt =====
-- src/async_task.c: functions run by a pool of threads, commands started as children, and the main loop
-- that waits for the children.
pub mod Reachable
use micro_config_drive.Base.{
  ℕ, ◌+◌, ◌-◌, ◌%◌, ◌^◌, ◌<◌, Bool, true, false, ◌==◌, if◌then◌else◌, ◌≡◌,
}

-- Where the main thread is: before `async_task_finish`, behind the end of the pool, in the main loop,
-- behind its end, and behind the function.
pub data Phase : Type 0 where
  working pool_ended looping loop_quit finished : Phase

-- The static variables, with what the threads and the kernel hold.
pub record State : Type 0 where
  -- `thread_pool` is not NULL
  pub thread_pool : Bool
  -- functions pushed and not started, and functions that run
  pub queued : ℕ
  pub running : ℕ
  -- children that are watched, and calls of `async_task_exec` that have yet to count theirs
  pub children : ℕ
  pub uncounted : ℕ
  -- the variable `tasks`, a 32-bit word
  pub tasks : ℕ
  pub phase : Phase

-- `async_task_init`, where both allocations succeed.
abbrev pub async_task_init : State
async_task_init = record {
  thread_pool = true;
  queued = 0;
  running = 0;
  children = 0;
  uncounted = 0;
  tasks = 0;
  phase = Phase.working;
}

-- `async_task_run`, by whether GLib takes the function.
unfoldable pub async_task_run : Bool → State → Bool × State
async_task_run pushed s =
    if s.thread_pool
    then (if pushed then (true, record s { queued = s.queued + 1 }) else (false, s))
    else (false, s)

-- A thread of the pool takes a function up, and ends it: `async_task_run_task`.
unfoldable pub start_task : State → State
start_task s = record s { queued = s.queued - 1; running = s.running + 1 }

unfoldable pub end_task : State → State
end_task s = record s { running = s.running - 1 }

-- `async_task_exec` up to `g_child_watch_add`, by whether the child could be started.
unfoldable pub spawn_child : Bool → State → State
spawn_child spawned s =
    if spawned then record s { children = s.children + 1; uncounted = s.uncounted + 1 } else s

-- `++tasks`, the end of `async_task_exec`.
unfoldable pub count_task : State → State
count_task s = record s { uncounted = s.uncounted - 1; tasks = (s.tasks + 1) % 2 ^ 32 }

-- `async_task_callback`, for a child that has ended.
unfoldable pub async_task_callback : State → State
async_task_callback s =
    let tasks = (s.tasks + (2 ^ 32 - 1)) % 2 ^ 32 in
    record s {
      children = s.children - 1;
      tasks = tasks;
      phase = if tasks == 0 then Phase.loop_quit else s.phase;
    }

-- `async_task_finish`: the end of the pool, the test of `tasks`, and the end of the function.
unfoldable pub free_pool : State → State
free_pool s = record s { thread_pool = false; phase = Phase.pool_ended }

unfoldable pub enter_loop : State → State
enter_loop s = record s { phase = if s.tasks == 0 then Phase.loop_quit else Phase.looping }

unfoldable pub leave : State → State
leave s = record s { tasks = 0; phase = Phase.finished }

-- The steps of the threads, in any order. `g_thread_pool_free (pool, false, true)` returns when no
-- function is queued or runs, and then no call of `async_task_exec` is under way. Callbacks only come
-- from the main loop, for children. There are always fewer than 2 ^ 32 children.
pub data Step : State → State → Type 0 where
  run : (s : State) (pushed : Bool) → s.phase ≡ Phase.working → Step s ((async_task_run pushed s).1)
  start : (s : State) → 0 < s.queued → s.phase ≡ Phase.working → Step s (start_task s)
  stop : (s : State) → 0 < s.running → s.phase ≡ Phase.working → Step s (end_task s)
  spawn :
      (s : State) (spawned : Bool)
      → s.phase ≡ Phase.working
      → s.children + 1 < 2 ^ 32
      → Step s (spawn_child spawned s)
  count : (s : State) → 0 < s.uncounted → s.phase ≡ Phase.working → Step s (count_task s)
  free :
      (s : State)
      → s.phase ≡ Phase.working
      → s.queued ≡ 0
      → s.running ≡ 0
      → s.uncounted ≡ 0
      → Step s (free_pool s)
  enter : (s : State) → s.phase ≡ Phase.pool_ended → Step s (enter_loop s)
  callback : (s : State) → s.phase ≡ Phase.looping → 0 < s.children → Step s (async_task_callback s)
  end : (s : State) → s.phase ≡ Phase.loop_quit → Step s (leave s)

-- The states that the program comes to.
pub data Reached : State → Type 0 where
  init : Reached async_task_init
  next : (s t : State) → Reached s → Step s t → Reached t
