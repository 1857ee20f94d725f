-- ===== src/Concurrency/Tests.antt =====
-- Runs of the concurrency runtime.
use kode.Prelude.{◌≡◌, refl, List, [], ◌∷◌, none, arith, extract}
use kode.Text.{codes}
use kode.Text.Decimal.{to_string}
use kode.Scheduler.{
  ends, all_done, start, new_id, schedule_task, register, pop_global, resume, act, put_back,
  prepare, is_runnable, worker_count,
}
use kode.Scheduler.Conserved.{weigh, weigh_live}
use kode.Scheduler.Once.{indicator}
use kode.Scheduler.Loop.{
  spawns, schedules, registers, steals_global, switches, acts, puts_back, take_task, switch_to,
  act_inside, finish_round, schedule_next, register_next, step, strays, comes_back,
}
use kode.Scheduler.Stop.{
  Pool, pool, Move, threads, tests_flag, signals, run_moves, move, may, worker_of, is_inside,
  end_round, go_to_test, test_flag, all_gone, is_joined,
}
use kode.Concurrency.{initialize, throws, kode_task, print_stats, get_task_count, ShutsDown, shut}
use kode.Concurrency.Shutdown.{shutdown_lem}

abbrev one_task : List Move
one_task = threads spawns ∷ threads (schedules 0) ∷ threads (registers 0) ∷ []

abbrev runs_it : List Move
runs_it =
    tests_flag 0
    ∷ threads (steals_global 0)
    ∷ threads (switches 0)
    ∷ threads (acts 0 ends)
    ∷ threads (puts_back 0)
    ∷ []

abbrev stops : List Move
stops = signals 0 ∷ tests_flag 0 ∷ []

abbrev stopped : Pool
stopped = run_moves stops (run_moves runs_it (run_moves one_task (pool 1)))

shuts_down : ShutsDown (run_moves one_task (pool 1)) stopped
unfolding is_joined run_moves move may worker_of is_inside end_round go_to_test test_flag all_gone
    all_done step start new_id extract schedule_next schedule_task register_next register pop_global
    take_task switch_to resume act_inside act finish_round put_back prepare strays comes_back
    is_runnable
shuts_down = shut runs_it stops refl refl

shutdown_example :
    (weigh_live (indicator 1) stopped.system ≡ 0) × (weigh (indicator 1) stopped.system.ended ≡ 1)
unfolding run_moves move may worker_of step start new_id extract schedule_next schedule_task
    register_next register end_round test_flag go_to_test is_inside take_task switch_to pop_global
    resume prepare strays comes_back act_inside act is_runnable finish_round put_back
shutdown_example = shutdown_lem 1 one_task stopped 1 shuts_down refl (omega arith) (omega arith)

not_initialized : kode_task none ≡ throws (codes "ConcurrencyRuntime not initialized")
unfolding kode_task
not_initialized = refl

two_idle_workers :
    (get_task_count (initialize 2 0).0 ≡ 0)
    × (print_stats (initialize 2 0).0
        ≡ codes "[Stats] Active tasks: 0" ∷ codes "[Stats] Worker threads: 2" ∷ [])
unfolding get_task_count initialize worker_count print_stats to_string start
two_idle_workers = (refl, refl)
