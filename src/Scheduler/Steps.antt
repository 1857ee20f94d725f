-- ===== src/Scheduler/Steps.antt =====
-- No task is lost and none runs twice at once, and `active_tasks_` counts those that are left.
use kode.Prelude.{
  ℕ, zero, suc, ◌+◌, ◌≤◌, ◌<◌, ◌≡◌, refl, Bool, ◌||◌, false, List, [], ◌∷◌, ◌++◌, Option, none,
  some, arith, length, get_or, get_elem?, inl, inr, Bool-cases, Option-cases, ltb, if◌then◌else◌,
  ◌==◌, extract,
}
use native.Mathlib.Numerals.{add-one}
use kode.Scheduler.{
  Task, Act, act, is_runnable, prepare, resume, Scheduler, new_id, schedule_task, size_max,
  register, cancel_task, cancel_found, put_back,
}
use kode.Scheduler.Loop.{
  Phase, idle, found, inside, behind, System, Event, spawns, schedules, registers, cancels,
  takes_local, steals, steals_global, steals_from, steals_overloaded, switches, acts, puts_back,
  take_task, phase_of, switch_to, act_inside, finish_round, schedule_next, register_next, step,
  strays, comes_back,
}
use kode.Scheduler.Conserved.{
  weigh, weigh_live, weigh-append, weigh-extract, weigh_queues-push, weigh_phases-set, Gives,
  pop_global-Gives, pop_local-Gives, pop_overloaded-Gives, steal_task_fast-Gives, length-set,
}

-- One for each task.
abbrev pub one : ℕ → ℕ
one id = 1

-- The sum over the ids below `n` that `spawn` gives out; it starts at 1.
abbrev pub weigh_issued : (ℕ → ℕ) → ℕ → ℕ
weigh_issued weight zero = 0
weigh_issued weight (suc n) = (if n == 0 then 0 else weight n) + weigh_issued weight n

-- What no step changes, for a weight.
pub record IsMoved (weight : ℕ → ℕ) (s t : System) : Type 0 where
  pub live :
      weigh_live weight t + weigh weight t.ended + weigh_issued weight s.scheduler.next_task_id
      ≡ weigh_live weight s + weigh weight s.ended + weigh_issued weight t.scheduler.next_task_id
  pub active :
      t.scheduler.active_tasks + weigh one t.ended + s.scheduler.next_task_id
      ≡ s.scheduler.active_tasks + weigh one s.ended + t.scheduler.next_task_id
  pub next : s.scheduler.next_task_id ≤ t.scheduler.next_task_id
  pub queues : length t.scheduler.queues ≡ length s.scheduler.queues
  pub phases : length t.phases ≡ length s.phases

-- `active_tasks_` is the number of tasks that are live.
pub record IsCounted (s : System) : Type 0 where
  pub counted : s.scheduler.active_tasks ≡ weigh_live one s
  pub issues : 0 < s.scheduler.next_task_id
  pub paired : length s.scheduler.queues ≡ length s.phases

get_elem?-within : (ps : List Phase) (i : ℕ) {p : Phase} → get_elem? ps i ≡ some p → i < length ps
get_elem?-within [] i e = ground arith
get_elem?-within (q ∷ ps) zero e = omega arith
get_elem?-within (q ∷ ps) (suc i) {p = p} e = omega (arith, get_elem?-within ps i {p = p} e)

-- A task that does not stray leaves its worker behind the switch.
comes_back-behind :
    (w id : ℕ) (goes_on : Bool) (t : Task) (s : System)
    → (s.astray || strays w goes_on t) ≡ false
    → comes_back w id goes_on t s ≡ behind id
unfolding comes_back
comes_back-behind w id goes_on t s h =
    let stays_here : strays w goes_on t ≡ false = ground (arith, h) in rw stays_here refl

module _ (weight : ℕ → ℕ) where
  stays : (s : System) → IsMoved weight s s
  stays s = record { live = refl; active = refl; next = omega arith; queues = refl; phases = refl }

  take_task-IsMoved :
      (w : ℕ) (p : Option Phase) (o : Option (ℕ × Scheduler)) (s : System)
      → phase_of w s ≡ p
      → Gives weight s.scheduler o
      → IsMoved weight s (take_task w p o s)
  unfolding take_task
  take_task-IsMoved w (some idle) (some (id, after)) s e g =
      let moved = weigh_phases-set weight s.phases w (found id) {q = idle} e in
      let size = length-set s.phases w (found id) in ground arith
  take_task-IsMoved w (some idle) none s e g = stays s
  take_task-IsMoved w none o s e g = stays s
  take_task-IsMoved w (some (found id)) o s e g = stays s
  take_task-IsMoved w (some (inside id)) o s e g = stays s
  take_task-IsMoved w (some (behind id)) o s e g = stays s

  switch_to-IsMoved :
      (w : ℕ) (p : Option Phase) (s : System)
      → phase_of w s ≡ p
      → (switch_to w p s).astray ≡ false
      → IsMoved weight s (switch_to w p s)
  unfolding switch_to
  switch_to-IsMoved w (some (found id)) s e h =
      let t = resume (prepare w (s.scheduler.tasks id)) in
      let back = comes_back-behind w id t.1 t.0 s h in
      let moved =
        weigh_phases-set weight s.phases w (if t.1 then inside id else behind id) {q = found id}
          e in
      let size = length-set s.phases w (if t.1 then inside id else behind id) in
      rw back (ground arith)
  switch_to-IsMoved w none s e h = stays s
  switch_to-IsMoved w (some idle) s e h = stays s
  switch_to-IsMoved w (some (inside id)) s e h = stays s
  switch_to-IsMoved w (some (behind id)) s e h = stays s

  act_inside-IsMoved :
      (w : ℕ) (a : Act) (p : Option Phase) (s : System)
      → phase_of w s ≡ p
      → (act_inside w a p s).astray ≡ false
      → IsMoved weight s (act_inside w a p s)
  unfolding act_inside
  act_inside-IsMoved w a (some (inside id)) s e h =
      let t = act a (s.scheduler.tasks id) in
      let back = comes_back-behind w id (is_runnable t.state) t s h in
      let moved = weigh_phases-set weight s.phases w (behind id) {q = inside id} e in
      let size = length-set s.phases w (behind id) in rw back (ground arith)
  act_inside-IsMoved w a none s e h = stays s
  act_inside-IsMoved w a (some idle) s e h = stays s
  act_inside-IsMoved w a (some (found id)) s e h = stays s
  act_inside-IsMoved w a (some (behind id)) s e h = stays s

  -- A task that comes back goes to the worker's own queue, or is dropped and counted off.
  finish_round-IsMoved :
      (w : ℕ) (p : Option Phase) (s : System)
      → IsCounted s
      → phase_of w s ≡ p
      → IsMoved weight s (finish_round w p s)
  unfolding finish_round put_back
  finish_round-IsMoved w (some (behind id)) s c e =
      let moved = weigh_phases-set weight s.phases w idle {q = behind id} e in
      let counts = weigh_phases-set one s.phases w idle {q = behind id} e in
      let size = length-set s.phases w idle in
      let within = get_elem?-within s.phases w {p = behind id} e in
      let back = weigh_queues-push weight s.scheduler.queues w id (omega (arith, c.paired)) in
      let kept = length-set s.scheduler.queues w (get_or s.scheduler.queues w [] ++ id ∷ []) in
      ground (arith, c.counted)
  finish_round-IsMoved w none s c e = stays s
  finish_round-IsMoved w (some idle) s c e = stays s
  finish_round-IsMoved w (some (found id)) s c e = stays s
  finish_round-IsMoved w (some (inside id)) s c e = stays s

  schedule_task-IsMoved :
      (k : ℕ) (o : Option (ℕ × List ℕ)) (s : System)
      → extract k s.spawning ≡ o
      → IsMoved weight s (schedule_next o s)
  unfolding schedule_next schedule_task
  schedule_task-IsMoved k none s e = stays s
  schedule_task-IsMoved k (some (id, rest)) s e =
      let taken = weigh-extract weight k s.spawning {y = id} {ys = rest} e in
      let put = weigh-append weight s.scheduler.global_queue (id ∷ []) in
      let kept =
        length-set s.scheduler.queues size_max (get_or s.scheduler.queues size_max [] ++ id ∷ []) in
      elim (Bool-cases (ltb size_max (length s.scheduler.queues))) [
        | inl b ↦
            let back =
              weigh_queues-push weight s.scheduler.queues size_max id (ground (arith, b)) in
            ground (arith, b)
        | inr b ↦ ground (arith, b)
      ]

  cancels-IsMoved : (id : ℕ) (s : System) → IsMoved weight s (step (cancels id) s)
  unfolding step cancel_task cancel_found
  cancels-IsMoved id s = ground arith

  weigh_issued_next :
      (n : ℕ) → 0 < n → weigh_issued weight (n + 1) ≡ weight n + weigh_issued weight n
  weigh_issued_next n h =
      let later : (n == 0) ≡ false = ground arith in rw (add-one, weigh_issued, later)

  spawns-IsMoved : (s : System) → IsCounted s → IsMoved weight s (step spawns s)
  unfolding step new_id
  spawns-IsMoved s c =
      let fresh = weigh_issued_next s.scheduler.next_task_id c.issues in ground arith

  pub step-IsMoved :
      (e : Event) (s : System)
      → IsCounted s
      → (step e s).astray ≡ false
      → IsMoved weight s (step e s)
  unfolding step
  step-IsMoved spawns s c h = spawns-IsMoved s c
  step-IsMoved (schedules k) s c h = schedule_task-IsMoved k (extract k s.spawning) s refl
  step-IsMoved (registers k) s c h = elim (Option-cases (extract k s.registering)) [
    | inl e ↦ rw e (unfold register_next in stays s)
    | inr (p, e) ↦ rw e (
        unfold register_next register in
        record { live = refl; active = refl; next = omega arith; queues = refl; phases = refl })
  ]
  step-IsMoved (cancels id) s c h = cancels-IsMoved id s
  step-IsMoved (takes_local w) s c h =
      take_task-IsMoved w (phase_of w s) _ s refl (pop_local-Gives weight w s.scheduler)
  step-IsMoved (steals w global_free targets locks) s c h =
      take_task-IsMoved w (phase_of w s) _ s refl
        (steal_task_fast-Gives weight w global_free targets locks s.scheduler)
  step-IsMoved (steals_global w) s c h =
      take_task-IsMoved w (phase_of w s) _ s refl (pop_global-Gives weight s.scheduler)
  step-IsMoved (steals_from w target) s c h =
      take_task-IsMoved w (phase_of w s) _ s refl (pop_local-Gives weight target s.scheduler)
  step-IsMoved (steals_overloaded w target) s c h =
      take_task-IsMoved w (phase_of w s) _ s refl (pop_overloaded-Gives weight target s.scheduler)
  step-IsMoved (switches w) s c h = switch_to-IsMoved w (phase_of w s) s refl h
  step-IsMoved (acts w a) s c h = act_inside-IsMoved w a (phase_of w s) s refl h
  step-IsMoved (puts_back w) s c h = finish_round-IsMoved w (phase_of w s) s c refl
