-- ===== src/Scheduler/Preemption.antt =====
-- src/concurrency/task.h and task.cc: the tracking of the current task and the preemption thread of
-- `TaskScheduler`. Each section that `current_task_mutex` guards, each read of the clock and each turn of
-- the thread's loops is a step of its own. The clock is outside: it passes by events and never goes back.
pub mod Late
pub mod Scan
mod Tests
use kode.Prelude.{
  ℕ, zero, suc, ◌+◌, Bool, true, false, List, [], ◌∷◌, Option, none, some, ltb, if◌then◌else◌,
  length, get_elem?, replicate,
}

-- What `WorkerThread` has on its current task.
pub record Tracking : Type 0 where
  pub current_task : Option ℕ
  pub current_task_start_time : Option ℕ
  pub preemption_requested : Bool

abbrev pub no_task : Tracking
no_task = record {
  current_task = none;
  current_task_start_time = none;
  preemption_requested = false;
}

-- `worker_loop` before the switch to a task, and behind it.
unfoldable pub track : ℕ → ℕ → Tracking → Tracking
track now id worker = record {
  current_task = some id;
  current_task_start_time = some now;
  preemption_requested = false;
}

unfoldable pub clear : Tracking → Tracking
clear worker = record worker { current_task = none; current_task_start_time = none }

-- The two tests of `preempt_long_running_tasks`.
unfoldable pub is_over : ℕ → ℕ → Option ℕ → Option ℕ → Bool
is_over time_slice now (some id) (some start_time) = ltb (start_time + time_slice) now
is_over time_slice now _ _ = false

unfoldable pub request_preemption : ℕ → ℕ → Tracking → Tracking
unfolding is_over
request_preemption time_slice now worker =
    if is_over time_slice now worker.current_task worker.current_task_start_time
    then record worker { preemption_requested = true }
    else worker

-- Where the preemption thread stands: before its test of `preemption_stop_`, in `sleep_for`, before the
-- worker `i` of the loop in `preempt_long_running_tasks` with its `now`, or behind its loop.
pub data Place : Type 0 where
  tests : Place
  sleeps : Place
  scans : ℕ → ℕ → Place
  returned : Place

pub record Watched : Type 0 where
  pub clock : ℕ
  pub workers : List Tracking
  pub place : Place
  pub preemption_stop : Bool

-- `setup_preemption` in `start`.
unfoldable pub setup_preemption : ℕ → Watched
setup_preemption num_workers = record {
  clock = 0;
  workers = replicate num_workers no_task;
  place = tests;
  preemption_stop = false;
}

pub data Moment : Type 0 where
  passes : ℕ → Moment
  tracks : ℕ → ℕ → Moment
  clears : ℕ → Moment
  stops : Moment
  goes_on : Moment

-- The worker with the number `i`, changed in place.
unfoldable pub update : (Tracking → Tracking) → ℕ → List Tracking → List Tracking
update f i [] = []
update f zero (x ∷ xs) = f x ∷ xs
update f (suc i) (x ∷ xs) = x ∷ update f i xs

-- The next step of the preemption thread.
unfoldable pub preempt : ℕ → Place → Watched → Watched
unfolding update
preempt time_slice tests s = record s { place = if s.preemption_stop then returned else sleeps }
preempt time_slice sleeps s = record s { place = scans s.clock 0 }
preempt time_slice (scans now i) s =
    if ltb i (length s.workers)
    then record s {
      workers = update (request_preemption time_slice now) i s.workers;
      place = scans now (i + 1);
    }
    else record s { place = tests }
preempt time_slice returned s = s

unfoldable pub step : ℕ → Moment → Watched → Watched
unfolding preempt update
step time_slice (passes time) s = record s { clock = s.clock + time }
step time_slice (tracks w id) s = record s { workers = update (track s.clock id) w s.workers }
step time_slice (clears w) s = record s { workers = update clear w s.workers }
step time_slice stops s = record s { preemption_stop = true }
step time_slice goes_on s = preempt time_slice s.place s

unfoldable pub run : ℕ → List Moment → Watched → Watched
unfolding step
run time_slice [] s = s
run time_slice (m ∷ ms) s = run time_slice ms (step time_slice m s)
