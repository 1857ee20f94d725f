-- ===== src/Host/Scope/Failed.antt =====
-- A scope in which a task was rejected starts no further task.
use kode.Prelude.{
  ℕ, zero, suc, ◌≤◌, ◌<◌, ◌≡◌, refl, ap, Bool, true, false, List, [], ◌∷◌, ◌++◌, Option, none, some,
  arith, get_elem?, set, length, ltb, ltb→lt, length-append, All, All-append, All-set,
  All-get_elem?, All-weaken, inl, inr, Bool-cases,
}
use kode.Host.Scope.{
  Stage, queued, running, settled, caught, closed, Scope, Task, Bootstrap, at_start, scope, async,
  start_task, has_failed, scope_runs, fail, catch_error, task_runs, Event, opens, asks,
  scope_goes_on, task_goes_on, step, run, rejects, already_failed,
}

-- Behind `catch` after a rejection.
unfoldable pub was_rejected : Stage → Bool
was_rejected (caught false) = true
was_rejected (closed false) = true
was_rejected _ = false

has_failed-set :
    (ss : List Scope) (i k : ℕ) (s t : Scope)
    → get_elem? ss i ≡ some s
    → (s.failed ≡ true → t.failed ≡ true)
    → has_failed (get_elem? ss k) ≡ true
    → has_failed (get_elem? (set ss i t) k) ≡ true
unfolding has_failed
has_failed-set [] i k s t e keep h = h
has_failed-set (r ∷ ss) zero zero s t e keep h = keep (ground arith)
has_failed-set (r ∷ ss) zero (suc k) s t e keep h = h
has_failed-set (r ∷ ss) (suc i) zero s t e keep h = h
has_failed-set (r ∷ ss) (suc i) (suc k) s t e keep h = has_failed-set ss i k s t e keep h

has_failed-append :
    (ss ts : List Scope) (k : ℕ)
    → has_failed (get_elem? ss k) ≡ true
    → has_failed (get_elem? (ss ++ ts) k) ≡ true
unfolding has_failed
has_failed-append [] ts k h = ground arith
has_failed-append (s ∷ ss) ts zero h = h
has_failed-append (s ∷ ss) ts (suc k) h = has_failed-append ss ts k h

has_failed-fail :
    (ss : List Scope) (i : ℕ) (s : Scope)
    → get_elem? ss i ≡ some s
    → has_failed (get_elem? (set ss i (record s { failed = true })) i) ≡ true
unfolding has_failed
has_failed-fail [] i s e = ground arith
has_failed-fail (r ∷ ss) zero s e = refl
has_failed-fail (r ∷ ss) (suc i) s e = has_failed-fail ss i s e

-- Each task has a scope, and those that were rejected have a scope that failed.
abbrev Shows : List Scope → Task → Type 0
Shows ss t =
    (t.scope < length ss) × (was_rejected t.stage ≡ true → has_failed (get_elem? ss t.scope) ≡ true)

-- A list of scopes with no fewer scopes, and no fewer failures.
abbrev Grows : List Scope → List Scope → Type 0
Grows ss us =
    (length ss ≤ length us)
    × ((k : ℕ) → has_failed (get_elem? ss k) ≡ true → has_failed (get_elem? us k) ≡ true)

Grows-Shows : (ss us : List Scope) → Grows ss us → (t : Task) → Shows ss t → Shows us t
Grows-Shows ss us g t (within, failed) = (omega (arith, g.0, within), λ r. g.1 t.scope (failed r))

length-set_scope : (ss : List Scope) (i : ℕ) (s : Scope) → length (set ss i s) ≡ length ss
length-set_scope [] i s = refl
length-set_scope (r ∷ ss) zero s = refl
length-set_scope (r ∷ ss) (suc i) s = ap suc (length-set_scope ss i s)

set-Grows :
    (ss : List Scope) (i : ℕ) (s t : Scope)
    → get_elem? ss i ≡ some s
    → (s.failed ≡ true → t.failed ≡ true)
    → Grows ss (set ss i t)
set-Grows ss i s t e keep =
    (omega (arith, length-set_scope ss i t), λ k h. has_failed-set ss i k s t e keep h)

record IsShown (b : Bootstrap) : Type 0 where
  shown : All (Shows b.scopes) b.tasks

-- A change of the scopes that loses no failure.
grow :
    (b : Bootstrap) (us : List Scope) (n : ℕ)
    → Grows b.scopes us
    → IsShown b
    → IsShown (record b { active_scopes = n; scopes = us })
grow b us n g h = record {
  shown = All-weaken (Shows b.scopes) (Shows us) b.tasks (Grows-Shows b.scopes us g) h.shown;
}

scope_runs-IsShown :
    (i : ℕ) (ok : Bool) (o : Option Scope) (b : Bootstrap)
    → get_elem? b.scopes i ≡ o
    → IsShown b
    → IsShown (scope_runs i ok o b)
unfolding scope_runs
scope_runs-IsShown i ok none b e h = h
scope_runs-IsShown i ok (some s) b e h = go s.stage refl
  where
    go : (stage : Stage) → s.stage ≡ stage → IsShown (scope_runs i ok (some s) b)
    go queued q = rw q (grow b _ b.active_scopes (set-Grows b.scopes i s _ e (λ f. f)) h)
    go running q = rw q (grow b _ b.active_scopes (set-Grows b.scopes i s _ e (λ f. f)) h)
    go (settled r) q = rw q (grow b _ _ (set-Grows b.scopes i s _ e (λ f. f)) h)
    go (caught r) q = rw q h
    go (closed r) q = rw q h

scope_there : (ss : List Scope) (i : ℕ) → i < length ss → (s : Scope) × (get_elem? ss i ≡ some s)
scope_there [] i h = absurd (omega arith)
scope_there (s ∷ ss) zero h = (s, refl)
scope_there (s ∷ ss) (suc i) h = scope_there ss i (omega arith)

catch_error-Grows :
    (r : Bool) (i : ℕ) (ss : List Scope) → i < length ss → Grows ss (catch_error r i ss)
unfolding catch_error fail
catch_error-Grows true i ss h = (omega arith, λ k f. f)
catch_error-Grows false i ss h =
    let (s, e) = scope_there ss i h in rw e (set-Grows ss i s _ e (λ f. refl))

catch_error-has_failed :
    (i : ℕ) (ss : List Scope)
    → i < length ss
    → has_failed (get_elem? (catch_error false i ss) i) ≡ true
unfolding catch_error fail
catch_error-has_failed i ss h =
    let (s, e) = scope_there ss i h in rw (e, fail) (has_failed-fail ss i s e)

-- Behind `catch`.
caught-Shows :
    (r : Bool) (t : Task) (ss : List Scope)
    → t.scope < length ss
    → Shows (catch_error r t.scope ss) (record t { stage = caught r })
unfolding was_rejected catch_error
caught-Shows true t ss h = (h, λ r. cc)
caught-Shows false t ss h = (
  omega (arith, (catch_error-Grows false t.scope ss h).0),
  λ r. catch_error-has_failed t.scope ss h,
)

stays-IsShown :
    (j n : ℕ) (t : Task) (b : Bootstrap)
    → Shows b.scopes t
    → IsShown b
    → IsShown (record b { active_tasks = n; tasks = set b.tasks j t })
stays-IsShown j n t b p h = record { shown = All-set (Shows b.scopes) b.tasks j t h.shown p }

task_runs-IsShown :
    (j : ℕ) (ok : Bool) (o : Option Task) (b : Bootstrap)
    → get_elem? b.tasks j ≡ o
    → IsShown b
    → IsShown (task_runs j ok o b)
unfolding task_runs was_rejected
task_runs-IsShown j ok none b e h = h
task_runs-IsShown j ok (some t) b e h = go t.stage refl
  where
    was : Shows b.scopes t
    was = All-get_elem? (Shows b.scopes) b.tasks j t h.shown e

    go : (stage : Stage) → t.stage ≡ stage → IsShown (task_runs j ok (some t) b)
    go queued q = rw q (stays-IsShown j b.active_tasks _ b (was.0, λ r. cc) h)
    go running q = rw q (stays-IsShown j b.active_tasks _ b (was.0, λ r. cc) h)
    go (settled r) q =
        let g = catch_error-Grows r t.scope b.scopes was.0 in
        rw q (
          stays-IsShown j b.active_tasks _ (record b { scopes = catch_error r t.scope b.scopes })
            (caught-Shows r t b.scopes was.0) (grow b _ b.active_scopes g h))
    go (caught true) q = rw q (stays-IsShown j _ _ b (was.0, λ r. cc) h)
    go (caught false) q = rw q (stays-IsShown j _ _ b (was.0, λ r. was.1 (rw q refl)) h)
    go (closed r) q = rw q h

step-IsShown : (e : Event) (b : Bootstrap) → IsShown b → IsShown (step e b)
unfolding step scope async start_task was_rejected
step-IsShown (opens true) b h =
    grow b _ _
      (
        omega (arith, length-append b.scopes (record { failed = false; stage = queued } ∷ [])),
        λ k f. has_failed-append b.scopes _ k f,
      )
      h
step-IsShown (opens false) b h = h
step-IsShown (asks false i) b h = elim (Bool-cases (ltb i (length b.scopes))) [
  | inl e ↦ rw e h
  | inr e ↦ rw e h
]
step-IsShown (asks true i) b h = elim (Bool-cases (ltb i (length b.scopes))) [
  | inr e ↦ rw e h
  | inl e ↦ elim (Bool-cases (has_failed (get_elem? b.scopes i))) [
    | inl f ↦ rw (e, f) h
    | inr f ↦
        rw (e, f)
          (record {
            shown =
                All-append (Shows b.scopes) b.tasks (record { scope = i; stage = queued } ∷ [])
                  h.shown ((ltb→lt i _ e, λ (r : was_rejected queued ≡ true). cc), tt);
          })
  ]
]
step-IsShown (scope_goes_on i ok) b h = scope_runs-IsShown i ok _ b refl h
step-IsShown (task_goes_on j ok) b h = task_runs-IsShown j ok _ b refl h

run-IsShown : (es : List Event) (b : Bootstrap) → IsShown b → IsShown (run es b)
unfolding run
run-IsShown [] b h = h
run-IsShown (e ∷ es) b h = run-IsShown es (step e b) (step-IsShown e b h)

-- Once the rejection of a task has gone through its `catch`, whatever else happened before and since,
-- `scope.async` of its scope rejects at once, and starts nothing.
pub async-run :
    (es : List Event) (j : ℕ) (t : Task)
    → get_elem? (run es at_start).tasks j ≡ some t
    → was_rejected t.stage ≡ true
    → async true t.scope (run es at_start) ≡ (run es at_start, rejects already_failed)
unfolding async
async-run es j t e r =
    let h = run-IsShown es at_start (record { shown = tt }) in
    let shown = All-get_elem? (Shows (run es at_start).scopes) _ j t h.shown e in
    rw (shown.1 r) refl
