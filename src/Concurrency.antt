-- ===== src/Concurrency.antt =====
-- src/concurrency/task.cc: the class `ConcurrencyRuntime`, over the scheduler and its threads. `scheduler_`
-- that is null is `none`.
pub mod Shutdown
mod Tests
use kode.Prelude.{
  ℕ, Bool, true, false, List, [], ◌∷◌, ◌++◌, Option, none, some, ◌≡◌, is_some, length,
}
use kode.Text.{Bytes, codes}
use kode.Text.Decimal.{to_string}
use kode.Scheduler.{worker_count, all_done}
use kode.Scheduler.Loop.{
  Phase, idle, found, inside, behind, spawns, schedules, registers, acts, phase_of,
}
use kode.Scheduler.{yields}
use kode.Scheduler.Stop.{Pool, pool, Move, threads, run_moves, is_joined}

-- `initialize`, with what `hardware_concurrency` says; it returns true.
unfoldable pub initialize : ℕ → ℕ → Option Pool × Bool
initialize hardware num_workers = (some (pool (worker_count hardware num_workers)), true)

pub data Started : Type 0 where
  throws : Bytes → Started
  task : ℕ → Pool → Started

-- `kode`: the id that `spawn` returns.
unfoldable pub kode_task : Option Pool → Started
kode_task none = throws (codes "ConcurrencyRuntime not initialized")
kode_task (some p) =
    task p.system.scheduler.next_task_id
      (run_moves (threads spawns ∷ threads (schedules 0) ∷ threads (registers 0) ∷ []) p)

current_task : Option Phase → List Move → List Move
current_task (some (inside id)) yield_moves = yield_moves
current_task _ yield_moves = []

-- `yield`, through `yield_current_task`, called on the thread of a worker, or on another one: only the
-- thread of a worker that has a task gives it up.
unfoldable pub yield_task : Option ℕ → Option Pool → List Move
unfolding current_task
yield_task caller none = []
yield_task none (some p) = []
yield_task (some worker) (some p) =
    current_task (phase_of worker p.system) (threads (acts worker yields) ∷ [])

-- `join_all` returns.
unfoldable pub may_join : Option Pool → Bool
may_join none = true
may_join (some p) = all_done p.system.scheduler

unfoldable pub get_task_count : Option Pool → ℕ
get_task_count none = 0
get_task_count (some p) = p.system.scheduler.active_tasks

unfoldable pub print_stats : Option Pool → List Bytes
print_stats none = []
print_stats (some p) =
    (codes "[Stats] Active tasks: " ++ to_string p.system.scheduler.active_tasks)
    ∷ (codes "[Stats] Worker threads: " ++ to_string (length p.places))
    ∷ []

-- `shutdown` of a scheduler that is there: what all threads do until `wait_all` returns, and what they do
-- until `stop` has joined the workers.
pub data ShutsDown (p : Pool) : Pool → Type 0 where
  shut :
      (waiting stopping : List Move)
      → all_done (run_moves waiting p).system.scheduler ≡ true
      → is_joined (run_moves stopping (run_moves waiting p)) ≡ true
      → ShutsDown p (run_moves stopping (run_moves waiting p))
