-- ===== src/Scheduler/Preemption/Tests.antt =====
-- The preemption thread at a concrete run.
use kode.Prelude.{◌≡◌, refl, ◌+◌, true, List, [], ◌∷◌, some, ltb}
use kode.Scheduler.Preemption.{
  Tracking, track, clear, is_over, request_preemption, setup_preemption, Moment, passes, tracks,
  clears, goes_on, update, preempt, step, run,
}
use kode.Scheduler.Preemption.Scan.{run-whole_scan}

-- The first worker has been on one task for 22 ms, with a request from an earlier scan; the second is on its
-- second task.
abbrev busy : List Moment
busy =
    tracks 0 1
    ∷ tracks 1 2
    ∷ goes_on
    ∷ passes 14
    ∷ goes_on
    ∷ goes_on
    ∷ clears 1
    ∷ tracks 1 3
    ∷ goes_on
    ∷ goes_on
    ∷ goes_on
    ∷ passes 8
    ∷ []

abbrev first_worker : Tracking
first_worker = record {
  current_task = some 1;
  current_task_start_time = some 0;
  preemption_requested = true;
}

run-whole_scan_example :
    first_worker.preemption_requested ≡ ltb (0 + 10) (run 10 busy (setup_preemption 2)).clock
unfolding run step preempt update track clear request_preemption is_over setup_preemption
run-whole_scan_example = run-whole_scan 10 2 busy 0 0 first_worker refl refl refl
