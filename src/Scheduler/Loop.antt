-- ===== src/Scheduler/Loop.antt =====
-- src/concurrency/task.cc: the threads of the scheduler, interleaved. A worker's thread runs
-- `worker_loop`; any thread may be inside `spawn` or `cancel_task`.
use kode.Prelude.{
  ℕ, Bool, false, not, ◌&&◌, ◌||◌, ◌==◌, List, [], ◌∷◌, Option, none, some, get_elem?, set,
  replicate, if◌then◌else◌, extract,
}
use kode.Scheduler.{
  Task, prepare, is_runnable, Act, resume, act, Scheduler, start, set_task, new_id, schedule_task,
  size_max, register, cancel_task, pop_global, pop_local, pop_overloaded, steal_task_fast, put_back,
}

-- Where a worker's loop stands, with its variable `task`: looking for one, before the switch to it,
-- inside it, and behind the switch.
pub data Phase : Type 0 where
  idle : Phase
  found : ℕ → Phase
  inside : ℕ → Phase
  behind : ℕ → Phase

-- `spawning` and `registering` are the tasks in the middle of `spawn`; `ended` records those dropped.
-- `astray`: a task has ended on a worker that did not start it, so that its `uc_link` has taken this
-- worker's thread into the loop of another worker. From there on two threads share a stack, and the
-- other fields say no more of the program.
pub record System : Type 0 where
  pub scheduler : Scheduler
  pub phases : List Phase
  pub spawning : List ℕ
  pub registering : List ℕ
  pub ended : List ℕ
  pub astray : Bool

pub data Event : Type 0 where
  spawns : Event
  schedules : ℕ → Event
  registers : ℕ → Event
  cancels : ℕ → Event
  takes_local : ℕ → Event
  steals : ℕ → Bool → List (ℕ × Bool) → List Bool → Event
  steals_global : ℕ → Event
  steals_from : ℕ → ℕ → Event
  steals_overloaded : ℕ → ℕ → Event
  switches : ℕ → Event
  acts : ℕ → Act → Event
  puts_back : ℕ → Event

abbrev pub init : ℕ → System
init num_workers = record {
  scheduler = start num_workers;
  phases = replicate num_workers idle;
  spawning = [];
  registering = [];
  ended = [];
  astray = false;
}

-- A worker that looks for a task takes the one that was found.
unfoldable pub take_task : ℕ → Option Phase → Option (ℕ × Scheduler) → System → System
take_task worker (some idle) (some (id, after)) s = record s {
  scheduler = after;
  phases = set s.phases worker (found id);
}
take_task worker _ _ s = s

abbrev pub phase_of : ℕ → System → Option Phase
phase_of worker s = get_elem? s.phases worker

-- Whether a task that has ended or not leaves the loop of the worker that it ran on.
unfoldable pub strays : ℕ → Bool → Task → Bool
strays worker goes_on t = not goes_on && not (t.uc_link == worker)

-- Behind the switch of the other worker's loop, with what that has in its variable `task`.
abbrev landing : Option Phase → Phase
landing (some (found id)) = behind id
landing (some (inside id)) = behind id
landing (some (behind id)) = behind id
landing _ = idle

-- Where the thread of a worker is when the task has given up control.
unfoldable pub comes_back : ℕ → ℕ → Bool → Task → System → Phase
unfolding strays
comes_back worker id goes_on t s =
    if strays worker goes_on t then landing (phase_of t.uc_link s) else behind id

-- Into the task: its body goes on, or control comes back at once.
unfoldable pub switch_to : ℕ → Option Phase → System → System
unfolding strays prepare comes_back
switch_to worker (some (found id)) s =
    let (t, goes_on) = resume (prepare worker (s.scheduler.tasks id)) in
    record s {
      astray = s.astray || strays worker goes_on t;
      scheduler = set_task id t s.scheduler;
      phases =
          set s.phases worker (if goes_on then inside id else comes_back worker id goes_on t s);
    }
switch_to worker _ s = s

unfoldable pub act_inside : ℕ → Act → Option Phase → System → System
unfolding strays is_runnable comes_back
act_inside worker a (some (inside id)) s =
    let t = act a (s.scheduler.tasks id) in
    record s {
      scheduler = set_task id t s.scheduler;
      phases = set s.phases worker (comes_back worker id (is_runnable t.state) t s);
      astray = s.astray || strays worker (is_runnable t.state) t;
    }
act_inside worker a _ s = s

unfoldable pub finish_round : ℕ → Option Phase → System → System
finish_round worker (some (behind id)) s =
    let (after, done) = put_back worker id s.scheduler in
    record s {
      scheduler = after;
      phases = set s.phases worker idle;
      ended = if done then id ∷ s.ended else s.ended;
    }
finish_round worker _ s = s

unfoldable pub schedule_next : Option (ℕ × List ℕ) → System → System
schedule_next none s = s
schedule_next (some (id, rest)) s = record s {
  scheduler = schedule_task id size_max s.scheduler;
  spawning = rest;
  registering = id ∷ s.registering;
}

unfoldable pub register_next : Option (ℕ × List ℕ) → System → System
register_next none s = s
register_next (some (id, rest)) s = record s {
  scheduler = register id s.scheduler;
  registering = rest;
}

unfoldable pub step : Event → System → System
step spawns s =
    let (id, after) = new_id s.scheduler in
    record s { scheduler = after; spawning = id ∷ s.spawning }
step (schedules k) s = schedule_next (extract k s.spawning) s
step (registers k) s = register_next (extract k s.registering) s
step (cancels id) s = record s { scheduler = cancel_task id s.ended s.scheduler }
step (takes_local w) s = take_task w (phase_of w s) (pop_local w s.scheduler) s
step (steals w global_free targets locks) s =
    take_task w (phase_of w s) (steal_task_fast w global_free targets locks s.scheduler) s
step (steals_global w) s = take_task w (phase_of w s) (pop_global s.scheduler) s
step (steals_from w target) s = take_task w (phase_of w s) (pop_local target s.scheduler) s
step (steals_overloaded w target) s =
    take_task w (phase_of w s) (pop_overloaded target s.scheduler) s
step (switches w) s = switch_to w (phase_of w s) s
step (acts w a) s = act_inside w a (phase_of w s) s
step (puts_back w) s = finish_round w (phase_of w s) s

unfoldable pub run : List Event → System → System
run [] s = s
run (e ∷ es) s = run es (step e s)
