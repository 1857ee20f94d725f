-- ===== src/Scheduler/Ended.antt =====
-- src/concurrency/task.cc: a task that was dropped stays dropped, and a thread astray stays astray.
use kode.Prelude.{◌≡◌, false, ℕ, ◌≤◌, List, [], ◌∷◌, Option, none, some, arith, extract}
use kode.Scheduler.{Scheduler, Act}
use kode.Scheduler.Loop.{
  Phase, idle, found, inside, behind, System, Event, spawns, schedules, registers, cancels,
  takes_local, steals, steals_global, steals_from, steals_overloaded, switches, acts, puts_back,
  step, run, take_task, switch_to, act_inside, finish_round, schedule_next, register_next,
}
use kode.Scheduler.Conserved.{weigh}

-- A step with no thread astray behind it has none before it.
abbrev Kept : System → System → Type 0
Kept s t = t.astray ≡ false → s.astray ≡ false

take_task-Kept :
    (w : ℕ) (phase : Option Phase) (r : Option (ℕ × Scheduler)) (s : System)
    → Kept s (take_task w phase r s)
unfolding take_task
take_task-Kept w none r s h = h
take_task-Kept w (some idle) none s h = h
take_task-Kept w (some idle) (some (id, after)) s h = h
take_task-Kept w (some (found x)) r s h = h
take_task-Kept w (some (inside x)) r s h = h
take_task-Kept w (some (behind x)) r s h = h

switch_to-Kept : (w : ℕ) (phase : Option Phase) (s : System) → Kept s (switch_to w phase s)
unfolding switch_to
switch_to-Kept w none s h = h
switch_to-Kept w (some idle) s h = h
switch_to-Kept w (some (found x)) s h = ground (arith, h)
switch_to-Kept w (some (inside x)) s h = h
switch_to-Kept w (some (behind x)) s h = h

act_inside-Kept :
    (w : ℕ) (a : Act) (phase : Option Phase) (s : System) → Kept s (act_inside w a phase s)
unfolding act_inside
act_inside-Kept w a none s h = h
act_inside-Kept w a (some idle) s h = h
act_inside-Kept w a (some (found x)) s h = h
act_inside-Kept w a (some (inside x)) s h = ground (arith, h)
act_inside-Kept w a (some (behind x)) s h = h

finish_round-Kept : (w : ℕ) (phase : Option Phase) (s : System) → Kept s (finish_round w phase s)
unfolding finish_round
finish_round-Kept w none s h = h
finish_round-Kept w (some idle) s h = h
finish_round-Kept w (some (found x)) s h = h
finish_round-Kept w (some (inside x)) s h = h
finish_round-Kept w (some (behind x)) s h = h

next-Kept :
    (r : Option (ℕ × List ℕ)) (s : System) → Kept s (schedule_next r s) × Kept s (register_next r s)
unfolding schedule_next register_next
next-Kept none s = (λ h. h, λ h. h)
next-Kept (some x) s = (λ h. h, λ h. h)

pub step-astray : (e : Event) (s : System) → (step e s).astray ≡ false → s.astray ≡ false
unfolding step
step-astray spawns s h = h
step-astray (schedules k) s h = (next-Kept (extract k s.spawning) s).0 h
step-astray (registers k) s h = (next-Kept (extract k s.registering) s).1 h
step-astray (cancels id) s h = h
step-astray (takes_local w) s h = take_task-Kept w _ _ s h
step-astray (steals w free targets locks) s h = take_task-Kept w _ _ s h
step-astray (steals_global w) s h = take_task-Kept w _ _ s h
step-astray (steals_from w target) s h = take_task-Kept w _ _ s h
step-astray (steals_overloaded w target) s h = take_task-Kept w _ _ s h
step-astray (switches w) s h = switch_to-Kept w _ s h
step-astray (acts w a) s h = act_inside-Kept w a _ s h
step-astray (puts_back w) s h = finish_round-Kept w _ s h

pub run-astray : (es : List Event) (s : System) → (run es s).astray ≡ false → s.astray ≡ false
unfolding run
run-astray [] s h = h
run-astray (e ∷ es) s h = step-astray e s (run-astray es (step e s) h)

module _ (weight : ℕ → ℕ) where
  abbrev Keeps : System → System → Type 0
  Keeps s t = weigh weight s.ended ≤ weigh weight t.ended

  take_task-Keeps :
      (w : ℕ) (phase : Option Phase) (r : Option (ℕ × Scheduler)) (s : System)
      → Keeps s (take_task w phase r s)
  unfolding take_task
  take_task-Keeps w none r s = omega arith
  take_task-Keeps w (some idle) none s = omega arith
  take_task-Keeps w (some idle) (some (id, after)) s = omega arith
  take_task-Keeps w (some (found x)) r s = omega arith
  take_task-Keeps w (some (inside x)) r s = omega arith
  take_task-Keeps w (some (behind x)) r s = omega arith

  switch_to-Keeps : (w : ℕ) (phase : Option Phase) (s : System) → Keeps s (switch_to w phase s)
  unfolding switch_to
  switch_to-Keeps w none s = omega arith
  switch_to-Keeps w (some idle) s = omega arith
  switch_to-Keeps w (some (found x)) s = omega arith
  switch_to-Keeps w (some (inside x)) s = omega arith
  switch_to-Keeps w (some (behind x)) s = omega arith

  act_inside-Keeps :
      (w : ℕ) (a : Act) (phase : Option Phase) (s : System) → Keeps s (act_inside w a phase s)
  unfolding act_inside
  act_inside-Keeps w a none s = omega arith
  act_inside-Keeps w a (some idle) s = omega arith
  act_inside-Keeps w a (some (found x)) s = omega arith
  act_inside-Keeps w a (some (inside x)) s = omega arith
  act_inside-Keeps w a (some (behind x)) s = omega arith

  finish_round-Keeps :
      (w : ℕ) (phase : Option Phase) (s : System) → Keeps s (finish_round w phase s)
  unfolding finish_round
  finish_round-Keeps w none s = omega arith
  finish_round-Keeps w (some idle) s = omega arith
  finish_round-Keeps w (some (found x)) s = omega arith
  finish_round-Keeps w (some (inside x)) s = omega arith
  finish_round-Keeps w (some (behind x)) s = ground arith

  next-Keeps :
      (r : Option (ℕ × List ℕ)) (s : System)
      → Keeps s (schedule_next r s) × Keeps s (register_next r s)
  unfolding schedule_next register_next
  next-Keeps none s = omega arith
  next-Keeps (some x) s = omega arith

  step-Keeps : (e : Event) (s : System) → Keeps s (step e s)
  unfolding step
  step-Keeps spawns s = omega arith
  step-Keeps (schedules k) s = (next-Keeps (extract k s.spawning) s).0
  step-Keeps (registers k) s = (next-Keeps (extract k s.registering) s).1
  step-Keeps (cancels id) s = omega arith
  step-Keeps (takes_local w) s = take_task-Keeps w _ _ s
  step-Keeps (steals w free targets locks) s = take_task-Keeps w _ _ s
  step-Keeps (steals_global w) s = take_task-Keeps w _ _ s
  step-Keeps (steals_from w target) s = take_task-Keeps w _ _ s
  step-Keeps (steals_overloaded w target) s = take_task-Keeps w _ _ s
  step-Keeps (switches w) s = switch_to-Keeps w _ s
  step-Keeps (acts w a) s = act_inside-Keeps w a _ s
  step-Keeps (puts_back w) s = finish_round-Keeps w _ s

  -- No step takes a task off the list of those dropped.
  pub run-ended :
      (es : List Event) (s : System) → weigh weight s.ended ≤ weigh weight (run es s).ended
  unfolding run
  run-ended [] s = omega arith
  run-ended (e ∷ es) s = omega (arith, step-Keeps e s, run-ended es (step e s))
