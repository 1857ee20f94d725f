-- ===== src/Scheduler.antt =====
-- src/concurrency/task.h and task.cc: `TaskScheduler` and the states of a `Task`.
-- Each section that one mutex guards, and each atomic operation, is a function of its own here, so
-- Scheduler/Loop can interleave the threads between them. `workers_` is split by field: `queues` has each
-- worker's `local_queue`. The body of a task is outside: what it does when it has control is an
-- argument, and an exception in it ends it.
pub mod Loop
pub mod Conserved
pub mod Stack
pub mod Timeout
pub mod Preemption
pub mod Steps
pub mod Once
pub mod Stop
pub mod Changes
pub mod Parked
pub mod Stopped
pub mod Ended
pub mod Contexts
pub mod Pinned
pub mod Steal
mod Tests
use kode.Prelude.{
  ℕ, ◌+◌, ◌-◌, ◌^◌, Bool, true, false, ◌&&◌, not, List, [], ◌∷◌, ◌++◌, Option, none, some, ltb,
  ◌==◌, ◌%◌, if◌then◌else◌, length, get_or, set, replicate,
}

-- `Task::State`.
pub data TaskState : Type 0 where
  created runnable running blocked completed cancelled : TaskState

-- `started` is `uctx_initialized_`; `uc_link` is the worker whose `sched_ctx` the member of that name in
-- `uctx_` points to.
pub record Task : Type 0 where
  pub state : TaskState
  pub cancel_requested : Bool
  pub started : Bool
  pub uc_link : ℕ

abbrev pub new_task : Task
new_task = record { state = created; cancel_requested = false; started = false; uc_link = 0 }

-- `Task::cancel`.
unfoldable pub cancel : Task → Task
cancel t = record t { cancel_requested = true; state = cancelled }

-- What the body of a task does with the control that it has: it calls `yield`, or it returns or throws.
-- `overtaken` is a `yield` whose test of `cancelled_` came before a `cancel` that came before its store
-- of the state.
pub data Act : Type 0 where
  yields overtaken ends : Act

-- `Task::invoke` up to the call of the body, and `Task::yield` behind the switch: whether the body
-- goes on. An exception at a yield ends the task in the handler of `invoke`.
unfoldable pub resume : Task → Task × Bool
resume t =
    if t.started
    then if t.cancel_requested then (record t { state = completed }, false) else (t, true)
    else if t.cancel_requested
    then (record t { state = cancelled; started = true }, false)
    else (record t { state = running; started = true }, true)

-- `worker_loop` before the switch: a task that has not run gets the context of this worker as its
-- `uc_link`, once and for all.
unfoldable pub prepare : ℕ → Task → Task
prepare worker t = if t.started then t else record t { uc_link = worker }

-- `Task::yield` up to the switch, and `Task::invoke` behind the body.
unfoldable pub act : Act → Task → Task
act ends t = record t { state = completed }
act overtaken t = record t { state = runnable }
act yields t =
    if t.cancel_requested then record t { state = completed } else record t { state = runnable }

pub record Scheduler : Type 0 where
  pub next_task_id : ℕ
  pub active_tasks : ℕ
  pub global_queue : List ℕ
  pub queues : List (List ℕ)
  pub active_task_map : List ℕ
  pub tasks : ℕ → Task

-- The constructor and `start`, with what `hardware_concurrency` says.
unfoldable pub worker_count : ℕ → ℕ → ℕ
worker_count hardware n = if n == 0 then if hardware == 0 then 4 else hardware else n

unfoldable pub start : ℕ → Scheduler
start num_workers = record {
  next_task_id = 1;
  active_tasks = 0;
  global_queue = [];
  queues = replicate num_workers [];
  active_task_map = [];
  tasks = λ id. new_task;
}

abbrev pub set_task : ℕ → Task → Scheduler → Scheduler
set_task id t s = record s { tasks = λ other. if id == other then t else s.tasks other }

-- `spawn` in its three steps: the counters, `schedule_task`, and the entry in the map.
unfoldable pub new_id : Scheduler → ℕ × Scheduler
new_id s = (
  s.next_task_id,
  record s { next_task_id = s.next_task_id + 1; active_tasks = s.active_tasks + 1 },
)

unfoldable pub schedule_task : ℕ → ℕ → Scheduler → Scheduler
schedule_task id preferred_worker s =
    if ltb preferred_worker (length s.queues)
    then record s {
      queues = set s.queues preferred_worker (get_or s.queues preferred_worker [] ++ id ∷ []);
    }
    else record s { global_queue = s.global_queue ++ id ∷ [] }

-- `SIZE_MAX`.
abbrev pub size_max : ℕ
size_max = 2 ^ 64 - 1

unfoldable pub register : ℕ → Scheduler → Scheduler
register id s = record s { active_task_map = id ∷ s.active_task_map }

unfoldable pub spawn : Scheduler → ℕ × Scheduler
unfolding new_id schedule_task register
spawn s = let (id, t) = new_id s in (id, register id (schedule_task id size_max t))

unfoldable pub member : ℕ → List ℕ → Bool
member id [] = false
member id (x ∷ xs) = if x == id then true else member id xs

unfoldable pub without : ℕ → List ℕ → List ℕ
without id [] = []
without id (x ∷ xs) = let rest = without id xs in if x == id then rest else x ∷ rest

-- `lock` of the weak pointer fails for a task that was dropped.
cancel_found : ℕ → Bool → Scheduler → Scheduler
cancel_found id true s = s
cancel_found id false s = set_task id (cancel (s.tasks id)) s

-- A task stays reachable by its weak pointer until it is dropped; `ended` are the tasks dropped.
unfoldable pub cancel_task : ℕ → List ℕ → Scheduler → Scheduler
unfolding cancel member without cancel_found
cancel_task id ended s =
    if member id s.active_task_map
    then cancel_found id (member id ended)
        (record s { active_task_map = without id s.active_task_map })
    else s

-- `front` and `pop` of a queue that is not empty.
abbrev pub pop : List ℕ → Option (ℕ × List ℕ)
pop [] = none
pop (id ∷ rest) = some (id, rest)

unfoldable pub pop_global : Scheduler → Option (ℕ × Scheduler)
pop_global s = elim (pop s.global_queue) [
  | none ↦ none
  | some (id, rest) ↦ some (id, record s { global_queue = rest })
]

unfoldable pub pop_local : ℕ → Scheduler → Option (ℕ × Scheduler)
pop_local worker s = elim (pop (get_or s.queues worker [])) [
  | none ↦ none
  | some (id, rest) ↦ some (id, record s { queues = set s.queues worker rest })
]

-- The third strategy: only from a queue of two or more.
unfoldable pub pop_overloaded : ℕ → Scheduler → Option (ℕ × Scheduler)
unfolding pop_local
pop_overloaded worker s =
    if ltb 1 (length (get_or s.queues worker [])) then pop_local worker s else none

abbrev pub or_else : Option (ℕ × Scheduler) → Option (ℕ × Scheduler) → Option (ℕ × Scheduler)
or_else none next = next
or_else (some found) next = some found

-- The random targets, each with whether its mutex was free.
unfoldable pub steal_random : List (ℕ × Bool) → Scheduler → Option (ℕ × Scheduler)
unfolding pop_local
steal_random [] s = none
steal_random ((target, free) ∷ targets) s =
    or_else (if free then pop_local target s else none) (steal_random targets s)

-- The scan from worker `worker + i` on.
unfoldable pub steal_scan : ℕ → ℕ → List Bool → Scheduler → Option (ℕ × Scheduler)
unfolding pop_overloaded
steal_scan worker i [] s = none
steal_scan worker i (free ∷ locks) s =
    or_else (if free then pop_overloaded ((worker + i) % length s.queues) s else none)
      (steal_scan worker (i + 1) locks s)

-- `steal_task_fast`, with the mutexes that `try_to_lock` found free and the random targets.
unfoldable pub steal_task_fast :
    ℕ → Bool → List (ℕ × Bool) → List Bool → Scheduler → Option (ℕ × Scheduler)
unfolding pop_global steal_random steal_scan
steal_task_fast worker global_free targets locks s =
    or_else (if global_free then pop_global s else none)
      (or_else (steal_random targets s) (steal_scan worker 1 locks s))

-- `worker_loop` behind the switch: back to the own queue, or done. The Boolean says that it is done.
unfoldable pub is_runnable : TaskState → Bool
is_runnable runnable = true
is_runnable _ = false

unfoldable pub put_back : ℕ → ℕ → Scheduler → Scheduler × Bool
unfolding is_runnable
put_back worker id s =
    if is_runnable (s.tasks id).state
    then (record s { queues = set s.queues worker (get_or s.queues worker [] ++ id ∷ []) }, false)
    else (record s { active_tasks = s.active_tasks - 1 }, true)

-- `wait_all` returns.
unfoldable pub all_done : Scheduler → Bool
all_done s = s.active_tasks == 0
