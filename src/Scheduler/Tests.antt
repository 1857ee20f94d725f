-- ===== src/Scheduler/Tests.antt =====
-- The scheduler's theorems at concrete inputs.
use kode.Prelude.{◌⊎◌, false, not, true, ◌||◌, refl, ◌+◌, ◌≡◌, List, [], ◌∷◌, arith, extract}
use kode.Scheduler.Timeout.{
  Tick, throws, end_of, tests, wakes, over, test, wake, tick, watch, armed, count, is_late,
  watch_lem,
}
use kode.Scheduler.Stack.{Stack, IsGrown, grow_stack_if_needed, grow_stack_if_needed_lem}
use kode.Scheduler.{
  Task, act, yields, ends, start, resume, all_done, new_task, new_id, schedule_task, register,
  pop_global, pop_local, steal_task_fast, steal_random, steal_scan, put_back, prepare, is_runnable,
}
use kode.Scheduler.Loop.{
  Event, spawns, schedules, registers, takes_local, steals, steals_global, steals_from, switches,
  acts, puts_back, init, run, step, take_task, switch_to, act_inside, finish_round, schedule_next,
  register_next, strays, comes_back,
}
use kode.Scheduler.Conserved.{weigh, weigh_live, weigh_queued}
use kode.Scheduler.Stop.{
  Move, threads, tests_flag, signals, pool, run_moves, move, may, worker_of, is_inside, end_round,
  go_to_test, test_flag, all_gone, is_joined,
}
use kode.Scheduler.Stopped.{run_moves-is_joined}
use kode.Scheduler.Pinned.{is_pinned, is_own, switches_own, run-is_pinned}
use kode.Scheduler.Steps.{one}
use kode.Scheduler.Once.{indicator, run-once, run-all_done}

-- A task that yields once, on the second of two workers, whose entry in the map is made late.
abbrev round : List Event
round =
    spawns
    ∷ schedules 0
    ∷ steals_global 1
    ∷ switches 1
    ∷ acts 1 yields
    ∷ puts_back 1
    ∷ registers 0
    ∷ takes_local 1
    ∷ switches 1
    ∷ acts 1 ends
    ∷ puts_back 1
    ∷ []

run-once_example :
    weigh_live (indicator 1) (run round (init 2)) + weigh (indicator 1) (run round (init 2)).ended
    ≡ 1
unfolding run step start new_id extract schedule_next schedule_task register_next register
    pop_global pop_local take_task switch_to resume act_inside act finish_round put_back prepare
    strays comes_back is_runnable
run-once_example = run-once 2 round 1 refl (omega arith)

run-all_done_example :
    (weigh_live one (run round (init 2)) ≡ 0) × (weigh (indicator 1) (run round (init 2)).ended ≡ 1)
unfolding all_done run step start new_id extract schedule_next schedule_task register_next register
    pop_global pop_local take_task switch_to resume act_inside act finish_round put_back prepare
    strays comes_back is_runnable
run-all_done_example = run-all_done 2 round 1 refl refl (omega arith) (omega arith)

abbrev waiting_task : Task
waiting_task = act yields (resume new_task).0

-- 256 KB at the address 4096, with the stack pointer within the last 1 KB.
abbrev low_stack : Stack
low_stack = record {
  size = 262144;
  pointer = 266224;
  base = 4096;
  top = 266224;
  context_size = 262144;
  rsp = 5000;
}

grow_stack_if_needed_example :
    IsGrown 999999 low_stack
      (grow_stack_if_needed 999999 low_stack).0
      (grow_stack_if_needed 999999 low_stack).1
grow_stack_if_needed_example =
    grow_stack_if_needed_lem 999999 low_stack (omega arith) (omega arith) (omega arith)
      (omega arith)

-- The task is still busy at the second wake-up, and throws when it has been cancelled.
abbrev ticks : List Tick
ticks = tests ∷ wakes 3 ∷ tests ∷ wakes 9 ∷ throws ∷ []

cancelled_late :
    watch 5 ticks armed
    ≡ record { completed = true; timed_out = true; phase = over; cancels = 1; complaints = 0 }
unfolding watch tick test wake
cancelled_late = refl

watch_lem_example :
    (let w = watch 5 ticks armed in
      (w.cancels ≡ count w.timed_out)
      × ((not w.timed_out || is_late 5 ticks) ≡ true)
      × ((watch 5 (end_of false ∷ tests ∷ wakes 7 ∷ tests ∷ []) w).phase ≡ over))
watch_lem_example = watch_lem 5 7 ticks false

-- One worker runs the first of two tasks to its end and is told to stop.
abbrev stopped_early : List Move
stopped_early =
    threads spawns
    ∷ threads (schedules 0)
    ∷ threads (registers 0)
    ∷ threads spawns
    ∷ threads (schedules 0)
    ∷ tests_flag 0
    ∷ threads (steals_global 0)
    ∷ threads (switches 0)
    ∷ threads (acts 0 ends)
    ∷ signals 0
    ∷ threads (puts_back 0)
    ∷ tests_flag 0
    ∷ []

run_moves-is_joined_example :
    weigh_queued (indicator 2) (run_moves stopped_early (pool 1)).system.scheduler
      + weigh (indicator 2) (run_moves stopped_early (pool 1)).system.spawning
      + weigh (indicator 2) (run_moves stopped_early (pool 1)).system.ended
    ≡ 1
unfolding is_joined run_moves move may worker_of is_inside end_round go_to_test test_flag all_gone
    step start new_id extract schedule_next schedule_task register_next register pop_global
    pop_local take_task switch_to resume act_inside act finish_round put_back prepare strays
    comes_back is_runnable
run_moves-is_joined_example =
    run_moves-is_joined 1 stopped_early 2 refl refl (omega arith) (omega arith)

-- A task that has yielded on the first worker is stolen by the second and ends there.
abbrev stolen : List Event
stolen =
    spawns
    ∷ schedules 0
    ∷ steals_global 0
    ∷ switches 0
    ∷ acts 0 yields
    ∷ puts_back 0
    ∷ steals_from 1 0
    ∷ switches 1
    ∷ acts 1 ends
    ∷ []

goes_astray :
    ((run stolen (init 2)).astray ≡ true) × (weigh_live (indicator 1) (run stolen (init 2)) ≡ 0)
unfolding run step start new_id extract schedule_next schedule_task pop_global pop_local take_task
    switch_to resume prepare strays comes_back act_inside act is_runnable finish_round put_back
goes_astray = (refl, refl)

-- A task that the second worker steals before it has started, and that yields there, ends there.
abbrev stolen_early : List Event
stolen_early =
    spawns
    ∷ schedules 0
    ∷ steals 1 true [] []
    ∷ switches 1
    ∷ acts 1 yields
    ∷ puts_back 1
    ∷ takes_local 1
    ∷ switches 1
    ∷ acts 1 ends
    ∷ puts_back 1
    ∷ []

run-is_pinned_example :
    ((run stolen_early (init 2)).astray ≡ false)
    × ((((run stolen_early (init 2)).scheduler.tasks 1).started ≡ false)
        ⊎ (((run stolen_early (init 2)).scheduler.tasks 1).uc_link ≡ 1))
unfolding is_pinned is_own switches_own run step start new_id extract schedule_next schedule_task
    pop_global pop_local steal_task_fast steal_random steal_scan take_task switch_to resume prepare
    strays comes_back act_inside act is_runnable finish_round put_back
run-is_pinned_example = run-is_pinned (λ id. 1) 2 stolen_early 1 refl
