-- ===== src/Scheduler/Steal.antt =====
-- src/concurrency/task.cc: `steal_task`, which no function calls.
use kode.Prelude.{ℕ, Bool, true, false, List, [], ◌∷◌, Option, none, ◌==◌, if◌then◌else◌}
use kode.Scheduler.{Scheduler, pop_global, pop_local, or_else}
use kode.Scheduler.Conserved.{Gives, pop_global-Gives, pop_local-Gives, or_else-Gives}

-- The attempts, with the workers that `gen` chose.
unfoldable pub steal_from : ℕ → List ℕ → Scheduler → Option (ℕ × Scheduler)
steal_from worker [] s = none
steal_from worker (target ∷ targets) s =
    let rest = steal_from worker targets s in
    if target == worker then rest else or_else (pop_local target s) rest

unfoldable pub steal_task : ℕ → List ℕ → Scheduler → Option (ℕ × Scheduler)
unfolding steal_from
steal_task worker targets s = or_else (pop_global s) (steal_from worker targets s)

module _ (weight : ℕ → ℕ) where
  either_Gives :
      (b : Bool) (s : Scheduler) (o p : Option (ℕ × Scheduler))
      → Gives weight s o
      → Gives weight s p
      → Gives weight s (if b then o else p)
  either_Gives true s o p h k = h
  either_Gives false s o p h k = k

  steal_from-Gives :
      (worker : ℕ) (targets : List ℕ) (s : Scheduler) → Gives weight s (steal_from worker targets s)
  unfolding steal_from
  steal_from-Gives worker [] s = tt
  steal_from-Gives worker (target ∷ targets) s =
      let rest = steal_from-Gives worker targets s in
      either_Gives (target == worker) s _ _ rest
        (or_else-Gives weight s _ _ (pop_local-Gives weight target s) rest)

  -- `steal_task` takes one task out of one queue, or changes nothing.
  pub steal_task-Gives :
      (worker : ℕ) (targets : List ℕ) (s : Scheduler) → Gives weight s (steal_task worker targets s)
  unfolding steal_task
  steal_task-Gives worker targets s =
      or_else-Gives weight s _ _ (pop_global-Gives weight s) (steal_from-Gives worker targets s)
