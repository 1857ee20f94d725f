-- ===== src/Host/Scope/Tests.antt =====
-- Scripts with scopes.
use kode.Prelude.{◌≡◌, refl, true, false, [], ◌∷◌, List}
use kode.Host.Scope.{
  closed, Task, at_start, async, Event, opens, asks, scope_goes_on, task_goes_on, run,
  active_operations, rejects, already_failed,
}
use kode.Host.Scope.Counted.{open_scopes, open_tasks, active_operations-run}
use kode.Host.Scope.Failed.{was_rejected, async-run}

-- A scope with two tasks, the first of which throws.
abbrev one_fails : List Event
one_fails =
    opens true
    ∷ scope_goes_on 0 true
    ∷ asks true 0
    ∷ asks true 0
    ∷ task_goes_on 0 false
    ∷ task_goes_on 1 true
    ∷ task_goes_on 0 false
    ∷ task_goes_on 0 false
    ∷ task_goes_on 0 false
    ∷ []

active_operations-run_example :
    active_operations (run one_fails at_start)
    ≡ (open_scopes (run one_fails at_start).scopes, open_tasks (run one_fails at_start).tasks)
active_operations-run_example = active_operations-run one_fails

one_left : active_operations (run one_fails at_start) ≡ (1, 1)
unfolding active_operations run
one_left = refl

abbrev thrown : Task
thrown = record { scope = 0; stage = closed false }

async-run_example :
    async true thrown.scope (run one_fails at_start)
    ≡ (run one_fails at_start, rejects already_failed)
unfolding run was_rejected
async-run_example = async-run one_fails 0 thrown refl refl

-- A scope ends with its function's promise, and leaves its tasks running.
scope_leaves_task :
    active_operations (
      run
        (opens true
          ∷ scope_goes_on 0 true
          ∷ asks true 0
          ∷ scope_goes_on 0 true
          ∷ scope_goes_on 0 true
          ∷ [])
        at_start)
    ≡ (0, 1)
unfolding active_operations run
scope_leaves_task = refl
