-- ===== src/Host/Scope/Counted.antt =====
-- `Kode.activeOperations` is exact.
use kode.Prelude.{
  ℕ, zero, suc, ◌+◌, ◌≡◌, refl, Bool, true, false, List, [], ◌∷◌, ◌++◌, Option, none, some, arith,
  get_elem?, set, length, ltb, inl, inr, Bool-cases,
}
use kode.Host.Scope.{
  Stage, queued, running, settled, caught, closed, Scope, Task, Bootstrap, at_start, scope, async,
  start_task, has_failed, scope_runs, fail, catch_error, task_runs, Event, opens, asks,
  scope_goes_on, task_goes_on, step, run, active_operations,
}

-- 1 for a chain whose `finally` has not run.
abbrev pub open_stage : Stage → ℕ
open_stage (closed r) = 0
open_stage _ = 1

abbrev pub open_scopes : List Scope → ℕ
open_scopes [] = 0
open_scopes (s ∷ ss) = open_stage s.stage + open_scopes ss

abbrev pub open_tasks : List Task → ℕ
open_tasks [] = 0
open_tasks (t ∷ ts) = open_stage t.stage + open_tasks ts

record IsCounted (b : Bootstrap) : Type 0 where
  scopes_counted : b.active_scopes ≡ open_scopes b.scopes
  tasks_counted : b.active_tasks ≡ open_tasks b.tasks

open_scopes-append : (ss ts : List Scope) → open_scopes (ss ++ ts) ≡ open_scopes ss + open_scopes ts
open_scopes-append [] ts = omega arith
open_scopes-append (s ∷ ss) ts = omega (arith, open_scopes-append ss ts)

open_tasks-append : (ss ts : List Task) → open_tasks (ss ++ ts) ≡ open_tasks ss + open_tasks ts
open_tasks-append [] ts = omega arith
open_tasks-append (s ∷ ss) ts = omega (arith, open_tasks-append ss ts)

open_scopes-set :
    (ss : List Scope) (i : ℕ) (s t : Scope)
    → get_elem? ss i ≡ some s
    → open_scopes (set ss i t) + open_stage s.stage ≡ open_scopes ss + open_stage t.stage
open_scopes-set [] i s t e = ground arith
open_scopes-set (r ∷ ss) zero s t e = ground arith
open_scopes-set (r ∷ ss) (suc i) s t e = omega (arith, open_scopes-set ss i s t e)

open_tasks-set :
    (ss : List Task) (i : ℕ) (s t : Task)
    → get_elem? ss i ≡ some s
    → open_tasks (set ss i t) + open_stage s.stage ≡ open_tasks ss + open_stage t.stage
open_tasks-set [] i s t e = ground arith
open_tasks-set (r ∷ ss) zero s t e = ground arith
open_tasks-set (r ∷ ss) (suc i) s t e = omega (arith, open_tasks-set ss i s t e)

scope_runs-IsCounted :
    (i : ℕ) (ok : Bool) (o : Option Scope) (b : Bootstrap)
    → get_elem? b.scopes i ≡ o
    → IsCounted b
    → IsCounted (scope_runs i ok o b)
unfolding scope_runs
scope_runs-IsCounted i ok none b e h = h
scope_runs-IsCounted i ok (some s) b e h = go s.stage refl
  where
    go : (stage : Stage) → s.stage ≡ stage → IsCounted (scope_runs i ok (some s) b)
    go queued q =
        let moved = open_scopes-set b.scopes i s (record s { stage = running }) e in ground arith
    go running q =
        let moved = open_scopes-set b.scopes i s (record s { stage = settled ok }) e in ground arith
    go (settled r) q =
        let moved = open_scopes-set b.scopes i s (record s { stage = closed r }) e in ground arith
    go (caught r) q = rw q h
    go (closed r) q = rw q h

fail-open_scopes :
    (i : ℕ) (o : Option Scope) (ss : List Scope)
    → get_elem? ss i ≡ o
    → open_scopes (fail i o ss) ≡ open_scopes ss
unfolding fail
fail-open_scopes i none ss e = refl
fail-open_scopes i (some s) ss e =
    omega (arith, open_scopes-set ss i s (record s { failed = true }) e)

catch_error-open_scopes :
    (r : Bool) (i : ℕ) (ss : List Scope) → open_scopes (catch_error r i ss) ≡ open_scopes ss
unfolding catch_error
catch_error-open_scopes true i ss = refl
catch_error-open_scopes false i ss = fail-open_scopes i _ ss refl

task_runs-IsCounted :
    (j : ℕ) (ok : Bool) (o : Option Task) (b : Bootstrap)
    → get_elem? b.tasks j ≡ o
    → IsCounted b
    → IsCounted (task_runs j ok o b)
unfolding task_runs
task_runs-IsCounted j ok none b e h = h
task_runs-IsCounted j ok (some t) b e h = go t.stage refl
  where
    go : (stage : Stage) → t.stage ≡ stage → IsCounted (task_runs j ok (some t) b)
    go queued q =
        let moved = open_tasks-set b.tasks j t (record t { stage = running }) e in ground arith
    go running q =
        let moved = open_tasks-set b.tasks j t (record t { stage = settled ok }) e in ground arith
    go (settled r) q =
        let moved = open_tasks-set b.tasks j t (record t { stage = caught r }) e in
        let kept = catch_error-open_scopes r t.scope b.scopes in ground arith
    go (caught r) q =
        let moved = open_tasks-set b.tasks j t (record t { stage = closed r }) e in ground arith
    go (closed r) q = rw q h

async-IsCounted :
    (is_function : Bool) (i : ℕ) (b : Bootstrap) → IsCounted b → IsCounted (async is_function i b).0
unfolding async start_task
async-IsCounted false i b h = h
async-IsCounted true i b h = elim (Bool-cases (has_failed (get_elem? b.scopes i))) [
  | inl e ↦ rw e h
  | inr e ↦ rw e (record {
    scopes_counted = h.scopes_counted;
    tasks_counted = omega (
      arith,
      h.tasks_counted,
      open_tasks-append b.tasks (record { scope = i; stage = queued } ∷ []),
    );
  })
]

step-IsCounted : (e : Event) (b : Bootstrap) → IsCounted b → IsCounted (step e b)
unfolding step scope
step-IsCounted (opens true) b h = record {
  scopes_counted = omega (
    arith,
    h.scopes_counted,
    open_scopes-append b.scopes (record { failed = false; stage = queued } ∷ []),
  );
  tasks_counted = h.tasks_counted;
}
step-IsCounted (opens false) b h = h
step-IsCounted (asks is_function i) b h = elim (Bool-cases (ltb i (length b.scopes))) [
  | inl e ↦ rw e (async-IsCounted is_function i b h)
  | inr e ↦ rw e h
]
step-IsCounted (scope_goes_on i ok) b h = scope_runs-IsCounted i ok _ b refl h
step-IsCounted (task_goes_on j ok) b h = task_runs-IsCounted j ok _ b refl h

run-IsCounted : (es : List Event) (b : Bootstrap) → IsCounted b → IsCounted (run es b)
unfolding run
run-IsCounted [] b h = h
run-IsCounted (e ∷ es) b h = run-IsCounted es (step e b) (step-IsCounted e b h)

-- Whatever scopes and tasks a script starts, in whatever order their promises go on and however they
-- end: `Kode.activeOperations` gives the number of scopes and the number of tasks whose `finally` has
-- not run.
pub active_operations-run :
    (es : List Event)
    → active_operations (run es at_start)
      ≡ (open_scopes (run es at_start).scopes, open_tasks (run es at_start).tasks)
unfolding active_operations
active_operations-run es =
    let h = run-IsCounted es at_start (record { scopes_counted = refl; tasks_counted = refl }) in
    ground arith
