-- ===== src/Host/Scope.antt =====
-- src/v8/kode_host.cc: the script of `InstallKodeRuntimeBootstrap`, its functions `Kode.scope`,
-- `scope.async` and `Kode.activeOperations`. A scope and a task are chains of promises; the order in
-- which their reactions run, and how the functions that are passed in end, are a list of events.
pub mod Counted
pub mod Failed
mod Tests
use kode.Prelude.{
  ℕ, ◌+◌, ◌-◌, Bool, true, false, not, List, [], ◌∷◌, ◌++◌, Option, none, some, get_elem?, set,
  length, ltb, if◌then◌else◌,
}
use kode.Text.{Bytes, codes}

-- How far a chain has come: before the call of the function, with the promise that it gave pending,
-- settled, behind `catch`, and behind `finally`. The Boolean is false for a rejection.
pub data Stage : Type 0 where
  queued running : Stage
  settled caught closed : Bool → Stage

-- `state.failed`, and the chain that `Kode.scope` returns.
pub record Scope : Type 0 where
  pub failed : Bool
  pub stage : Stage

-- The chain that `scope.async` returns, and its scope.
pub record Task : Type 0 where
  pub scope : ℕ
  pub stage : Stage

-- `activeScopes` and `activeTasks`, and what was created so far.
pub record Bootstrap : Type 0 where
  pub active_scopes : ℕ
  pub active_tasks : ℕ
  pub scopes : List Scope
  pub tasks : List Task

abbrev pub at_start : Bootstrap
at_start = record { active_scopes = 0; active_tasks = 0; scopes = []; tasks = [] }

-- `runtimeError`: the code, the message and the operation.
pub record RuntimeError : Type 0 where
  pub code : Bytes
  pub message : Bytes
  pub operation : Bytes

pub data Answer : Type 0 where
  throws rejects : RuntimeError → Answer
  promises : ℕ → Answer

-- `Kode.scope`, with whether its argument is a function.
unfoldable pub scope : Bool → Bootstrap → Bootstrap × Answer
scope false b = (
  b,
  throws (record {
    code = codes "EINVAL";
    message = codes "Kode.scope requires a function";
    operation = codes "Kode.scope";
  }),
)
scope true b = (
  record b {
    active_scopes = b.active_scopes + 1;
    scopes = b.scopes ++ record { failed = false; stage = queued } ∷ [];
  },
  promises (length b.scopes),
)

abbrev pub already_failed : RuntimeError
already_failed = record {
  code = codes "ECANCELED";
  message = codes "Scope already failed";
  operation = codes "scope.async";
}

start_task : ℕ → Bootstrap → Bootstrap × Answer
start_task i b = (
  record b {
    active_tasks = b.active_tasks + 1;
    tasks = b.tasks ++ record { scope = i; stage = queued } ∷ [];
  },
  promises (length b.tasks),
)

has_failed : Option Scope → Bool
has_failed none = false
has_failed (some s) = s.failed

-- `scope.async` of scope `i`.
unfoldable pub async : Bool → ℕ → Bootstrap → Bootstrap × Answer
unfolding start_task has_failed
async false i b = (
  b,
  throws (record {
    code = codes "EINVAL";
    message = codes "scope.async requires a function";
    operation = codes "scope.async";
  }),
)
async true i b =
    if has_failed (get_elem? b.scopes i) then (b, rejects already_failed) else start_task i b

-- The reactions of a scope's chain: `then(() => fn(scope))` and `finally`. A function that ends says how.
unfoldable pub scope_runs : ℕ → Bool → Option Scope → Bootstrap → Bootstrap
scope_runs i ok none b = b
scope_runs i ok (some s) b = elim s.stage [
  | queued ↦ record b { scopes = set b.scopes i (record s { stage = running }) }
  | running ↦ record b { scopes = set b.scopes i (record s { stage = settled ok }) }
  | settled r ↦ record b {
    active_scopes = b.active_scopes - 1;
    scopes = set b.scopes i (record s { stage = closed r });
  }
  | caught r ↦ b
  | closed r ↦ b
]

-- `state.failed = true`.
unfoldable pub fail : ℕ → Option Scope → List Scope → List Scope
fail i none scopes = scopes
fail i (some s) scopes = set scopes i (record s { failed = true })

catch_error : Bool → ℕ → List Scope → List Scope
unfolding fail
catch_error true i scopes = scopes
catch_error false i scopes = fail i (get_elem? scopes i) scopes

-- The reactions of a task's chain: `then(taskFn)`, `catch` and `finally`.
unfoldable pub task_runs : ℕ → Bool → Option Task → Bootstrap → Bootstrap
unfolding catch_error
task_runs j ok none b = b
task_runs j ok (some t) b = elim t.stage [
  | queued ↦ record b { tasks = set b.tasks j (record t { stage = running }) }
  | running ↦ record b { tasks = set b.tasks j (record t { stage = settled ok }) }
  | settled r ↦ record b {
    scopes = catch_error r t.scope b.scopes;
    tasks = set b.tasks j (record t { stage = caught r });
  }
  | caught r ↦ record b {
    active_tasks = b.active_tasks - 1;
    tasks = set b.tasks j (record t { stage = closed r });
  }
  | closed r ↦ b
]

-- `scope.async` is asked of a scope that is there.
pub data Event : Type 0 where
  opens : Bool → Event
  asks : Bool → ℕ → Event
  scope_goes_on task_goes_on : ℕ → Bool → Event

unfoldable pub step : Event → Bootstrap → Bootstrap
unfolding scope async scope_runs task_runs
step (opens is_function) b = (scope is_function b).0
step (asks is_function i) b = if ltb i (length b.scopes) then (async is_function i b).0 else b
step (scope_goes_on i ok) b = scope_runs i ok (get_elem? b.scopes i) b
step (task_goes_on j ok) b = task_runs j ok (get_elem? b.tasks j) b

unfoldable pub run : List Event → Bootstrap → Bootstrap
unfolding step
run [] b = b
run (e ∷ es) b = run es (step e b)

-- `Kode.activeOperations`: the scopes and the tasks.
unfoldable pub active_operations : Bootstrap → ℕ × ℕ
active_operations b = (b.active_scopes, b.active_tasks)
