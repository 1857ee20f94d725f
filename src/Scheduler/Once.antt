-- ===== src/Scheduler/Once.antt =====
-- Where the tasks are, after any interleaving of the threads.
use kode.Prelude.{
  ℕ, zero, suc, ◌+◌, ◌≤◌, ◌<◌, ◌≡◌, refl, sym, ◌∙◌, true, false, List, [], ◌∷◌, arith, replicate,
  ltb, if◌then◌else◌, length-replicate, ◌==◌,
}
use kode.Scheduler.{start, all_done}
use kode.Scheduler.Loop.{Phase, idle, found, inside, behind, System, Event, init, step, run}
use kode.Scheduler.Conserved.{weigh, weigh_queues, weigh_phases, weigh_live}
use kode.Scheduler.Ended.{run-astray}
use kode.Scheduler.Steps.{one, weigh_issued, IsCounted, step-IsMoved}

-- With no weight on a task that has not been spawned, what is live and what has ended is what was
-- spawned.
pub record IsWhole (weight : ℕ → ℕ) (s : System) : Type 0 where
  pub whole :
      weigh_live weight s + weigh weight s.ended ≡ weigh_issued weight s.scheduler.next_task_id

weigh_issued-one : (n : ℕ) → 0 < n → weigh_issued one n + 1 ≡ n
weigh_issued-one zero h = omega arith
weigh_issued-one (suc zero) h = refl
weigh_issued-one (suc (suc n)) h = ground (arith, weigh_issued-one (suc n) (omega arith))

pub step-IsCounted :
    (e : Event) (s : System) → IsCounted s → (step e s).astray ≡ false → IsCounted (step e s)
step-IsCounted e s c h =
    let m = step-IsMoved one e s c h in
    let issued = weigh_issued-one s.scheduler.next_task_id c.issues in
    let issued_then =
      weigh_issued-one (step e s).scheduler.next_task_id (omega (arith, m.next, c.issues)) in
    record {
      counted = omega (arith, m.live, m.active, c.counted);
      issues = omega (arith, m.next, c.issues);
      paired = omega (arith, m.queues, m.phases, c.paired);
    }

step-IsWhole :
    (weight : ℕ → ℕ) (e : Event) (s : System)
    → IsCounted s
    → IsWhole weight s
    → (step e s).astray ≡ false
    → IsWhole weight (step e s)
step-IsWhole weight e s c h a = record {
  whole = omega (arith, (step-IsMoved weight e s c a).live, h.whole);
}

run-IsWhole_from :
    (weight : ℕ → ℕ) (es : List Event) (s : System)
    → IsCounted s
    → IsWhole weight s
    → (run es s).astray ≡ false
    → IsCounted (run es s) × IsWhole weight (run es s)
unfolding run
run-IsWhole_from weight [] s c h a = (c, h)
run-IsWhole_from weight (e ∷ es) s c h a =
    let b = run-astray es (step e s) a in
    run-IsWhole_from weight es (step e s) (step-IsCounted e s c b) (step-IsWhole weight e s c h b) a

weigh_queues-replicate : (weight : ℕ → ℕ) (n : ℕ) → weigh_queues weight (replicate n []) ≡ 0
weigh_queues-replicate weight zero = refl
weigh_queues-replicate weight (suc n) = omega (arith, weigh_queues-replicate weight n)

weigh_phases-replicate : (weight : ℕ → ℕ) (n : ℕ) → weigh_phases weight (replicate n idle) ≡ 0
weigh_phases-replicate weight zero = refl
weigh_phases-replicate weight (suc n) = omega (arith, weigh_phases-replicate weight n)

pub run-IsWhole :
    (weight : ℕ → ℕ) (n : ℕ) (es : List Event)
    → (run es (init n)).astray ≡ false
    → IsCounted (run es (init n)) × IsWhole weight (run es (init n))
unfolding start
run-IsWhole weight n es a =
    let queues = weigh_queues-replicate in
    let phases = weigh_phases-replicate in
    run-IsWhole_from weight es (init n)
      (record {
        counted = omega (arith, queues one n, phases one n);
        issues = omega arith;
        paired = length-replicate n [] ∙ sym (length-replicate n idle);
      })
      (record { whole = omega (arith, queues weight n, phases weight n) }) a

next_from :
    (es : List Event) (s : System)
    → IsCounted s
    → (run es s).astray ≡ false
    → s.scheduler.next_task_id ≤ (run es s).scheduler.next_task_id
unfolding run
next_from [] s c a = omega arith
next_from (e ∷ es) s c a =
    let b = run-astray es (step e s) a in
    omega
      (arith, (step-IsMoved one e s c b).next, next_from es (step e s) (step-IsCounted e s c b) a)

-- The ids that `spawn` gives out only grow.
pub run-next_task_id :
    (n : ℕ) (es fs : List Event)
    → (run fs (run es (init n))).astray ≡ false
    → (run es (init n)).scheduler.next_task_id ≤ (run fs (run es (init n))).scheduler.next_task_id
run-next_task_id n es fs a =
    let b = run-astray fs (run es (init n)) a in
    next_from fs (run es (init n)) (run-IsWhole one n es b).0 a

-- How often a task is in a list.
abbrev pub indicator : ℕ → ℕ → ℕ
indicator id other = if other == id then 1 else 0

weigh_issued-indicator :
    (id n : ℕ) → 0 < id → weigh_issued (indicator id) n ≡ (if ltb id n then 1 else 0)
weigh_issued-indicator id zero h = ground arith
weigh_issued-indicator id (suc n) h = ground (arith, weigh_issued-indicator id n h)

-- After any interleaving of the threads in which each task that has ended did so on the worker that
-- started it, each task that was spawned is in exactly one place (about to be queued, in one queue, or
-- with one worker), or has been dropped once; and no other task is anywhere.
pub run-once :
    (n : ℕ) (es : List Event) (id : ℕ)
    → (run es (init n)).astray ≡ false
    → 0 < id
    → weigh_live (indicator id) (run es (init n)) + weigh (indicator id) (run es (init n)).ended
      ≡ (if ltb id (run es (init n)).scheduler.next_task_id then 1 else 0)
run-once n es id a h = (run-IsWhole (indicator id) n es a).1.whole ∙ weigh_issued-indicator id _ h

indicator_bound : (id other : ℕ) → indicator id other ≤ 1
indicator_bound id other = ground arith

module _ (id : ℕ) where
  weigh_bound : (xs : List ℕ) → weigh (indicator id) xs ≤ weigh one xs
  weigh_bound [] = omega arith
  weigh_bound (x ∷ xs) = omega (arith, weigh_bound xs, indicator_bound id x)

  weigh_queues_bound : (qs : List (List ℕ)) → weigh_queues (indicator id) qs ≤ weigh_queues one qs
  weigh_queues_bound [] = omega arith
  weigh_queues_bound (q ∷ qs) = omega (arith, weigh_queues_bound qs, weigh_bound q)

  weigh_phases_bound : (ps : List Phase) → weigh_phases (indicator id) ps ≤ weigh_phases one ps
  weigh_phases_bound [] = omega arith
  weigh_phases_bound (idle ∷ ps) = omega (arith, weigh_phases_bound ps)
  weigh_phases_bound (found x ∷ ps) = omega (arith, weigh_phases_bound ps, indicator_bound id x)
  weigh_phases_bound (inside x ∷ ps) = omega (arith, weigh_phases_bound ps, indicator_bound id x)
  weigh_phases_bound (behind x ∷ ps) = omega (arith, weigh_phases_bound ps, indicator_bound id x)

  weigh_live_bound : (s : System) → weigh_live (indicator id) s ≤ weigh_live one s
  weigh_live_bound s = omega (
    arith,
    weigh_bound s.scheduler.global_queue,
    weigh_queues_bound s.scheduler.queues,
    weigh_phases_bound s.phases,
    weigh_bound s.spawning,
  )

-- `wait_all` returns only when no task is left: after any interleaving of the threads that brings
-- `active_tasks_` to 0, and in which tasks end on the worker that started them, no task is live, and each task that was spawned has been dropped exactly once.
pub run-all_done :
    (n : ℕ) (es : List Event) (id : ℕ)
    → (run es (init n)).astray ≡ false
    → all_done (run es (init n)).scheduler ≡ true
    → 0 < id
    → id < (run es (init n)).scheduler.next_task_id
    → (weigh_live one (run es (init n)) ≡ 0) × (weigh (indicator id) (run es (init n)).ended ≡ 1)
unfolding all_done
run-all_done n es id a d h k =
    let t = run es (init n) in
    let issued : ltb id t.scheduler.next_task_id ≡ true = ground (arith, k) in
    let once : weigh_live (indicator id) t + weigh (indicator id) t.ended ≡ 1 =
      run-once n es id a h ∙ rw issued in
    let none_left : weigh_live one t ≡ 0 =
      sym (run-IsWhole one n es a).0.counted ∙ ground (arith, d) in
    (none_left, omega (arith, weigh_live_bound id t))
