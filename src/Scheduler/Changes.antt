-- ===== src/Scheduler/Changes.antt =====
-- src/concurrency/task.cc: what one thread's step does to the other workers: nothing.
use kode.Prelude.{ℕ, ◌≡◌, refl, List, Option, none, some, inl, inr, set, extract, ◌⊎◌}
use kode.Scheduler.{Scheduler}
use kode.Scheduler.Loop.{
  Phase, idle, found, inside, behind, System, Event, spawns, schedules, registers, cancels,
  takes_local, steals, steals_global, steals_from, steals_overloaded, switches, acts, puts_back,
  step, take_task, switch_to, act_inside, finish_round, schedule_next, register_next,
}
use kode.Scheduler.Stop.{worker_of}

-- What a step does to the phases: nothing, or a change of its own worker's.
abbrev pub Changes : Option ℕ → System → System → Type 0
Changes none s t = t.phases ≡ s.phases
Changes (some w) s t = (t.phases ≡ s.phases) ⊎ ((y : Phase) × (t.phases ≡ set s.phases w y))

take_task-Changes :
    (w : ℕ) (phase : Option Phase) (r : Option (ℕ × Scheduler)) (s : System)
    → Changes (some w) s (take_task w phase r s)
unfolding take_task
take_task-Changes w none r s = inl refl
take_task-Changes w (some idle) none s = inl refl
take_task-Changes w (some idle) (some (id, after)) s = inr (found id, refl)
take_task-Changes w (some (found x)) r s = inl refl
take_task-Changes w (some (inside x)) r s = inl refl
take_task-Changes w (some (behind x)) r s = inl refl

switch_to-Changes :
    (w : ℕ) (phase : Option Phase) (s : System) → Changes (some w) s (switch_to w phase s)
unfolding switch_to
switch_to-Changes w none s = inl refl
switch_to-Changes w (some idle) s = inl refl
switch_to-Changes w (some (found x)) s = inr (_, refl)
switch_to-Changes w (some (inside x)) s = inl refl
switch_to-Changes w (some (behind x)) s = inl refl

act_inside-Changes :
    (w : ℕ) (a : _) (phase : Option Phase) (s : System)
    → Changes (some w) s (act_inside w a phase s)
unfolding act_inside
act_inside-Changes w a none s = inl refl
act_inside-Changes w a (some idle) s = inl refl
act_inside-Changes w a (some (found x)) s = inl refl
act_inside-Changes w a (some (inside x)) s = inr (_, refl)
act_inside-Changes w a (some (behind x)) s = inl refl

finish_round-Changes :
    (w : ℕ) (phase : Option Phase) (s : System) → Changes (some w) s (finish_round w phase s)
unfolding finish_round
finish_round-Changes w none s = inl refl
finish_round-Changes w (some idle) s = inl refl
finish_round-Changes w (some (found x)) s = inl refl
finish_round-Changes w (some (inside x)) s = inl refl
finish_round-Changes w (some (behind x)) s = inr (_, refl)

schedule_next-Changes : (r : Option (ℕ × List ℕ)) (s : System) → Changes none s (schedule_next r s)
unfolding schedule_next
schedule_next-Changes none s = refl
schedule_next-Changes (some x) s = refl

register_next-Changes : (r : Option (ℕ × List ℕ)) (s : System) → Changes none s (register_next r s)
unfolding register_next
register_next-Changes none s = refl
register_next-Changes (some x) s = refl

pub step-Changes : (e : Event) (s : System) → Changes (worker_of e) s (step e s)
unfolding step worker_of
step-Changes spawns s = refl
step-Changes (schedules k) s = schedule_next-Changes (extract k s.spawning) s
step-Changes (registers k) s = register_next-Changes (extract k s.registering) s
step-Changes (cancels id) s = refl
step-Changes (takes_local w) s = take_task-Changes w _ _ s
step-Changes (steals w free targets locks) s = take_task-Changes w _ _ s
step-Changes (steals_global w) s = take_task-Changes w _ _ s
step-Changes (steals_from w target) s = take_task-Changes w _ _ s
step-Changes (steals_overloaded w target) s = take_task-Changes w _ _ s
step-Changes (switches w) s = switch_to-Changes w _ s
step-Changes (acts w a) s = act_inside-Changes w a _ s
step-Changes (puts_back w) s = finish_round-Changes w _ s
