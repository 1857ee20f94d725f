-- ===== src/Scheduler/Pinned.antt =====
-- src/concurrency/task.cc: tasks that one worker alone switches to, whatever queues they pass through, and
-- where they end.
use kode.Prelude.{
  ◌∙◌, ℕ, zero, suc, ◌≡◌, ◌⊎◌, refl, sym, inl, inr, Bool, true, false, ◌&&◌, ◌==◌, List, [], ◌∷◌,
  Option, none, some, arith, set, if◌then◌else◌, extract, Bool-cases,
}
use kode.Scheduler.{
  Task, prepare, resume, Act, act, Scheduler, start, register, new_id, is_runnable,
}
use kode.Scheduler.Conserved.{
  Gives, pop_global-Gives, pop_local-Gives, pop_overloaded-Gives, steal_task_fast-Gives,
}
use kode.Scheduler.Steps.{one}
use kode.Scheduler.Loop.{
  Phase, idle, found, inside, behind, System, Event, spawns, schedules, registers, cancels,
  takes_local, steals, steals_global, steals_from, steals_overloaded, switches, acts, puts_back,
  init, phase_of, step, run, take_task, switch_to, act_inside, finish_round, schedule_next,
  register_next,
}
use kode.Scheduler.Contexts.{
  get_elem?-set, tasks-put_back, tasks-schedule_task, cancel_task_lem, not_inside, resume-prepare,
  act_lem, comes_back_lem, started_at, link_home, at_phase, none_inside,
}

-- Whether a step is no switch to a task by a worker other than its owner.
unfoldable pub switches_own : (ℕ → ℕ) → ℕ → Option Phase → Bool
switches_own owner worker (some (found id)) = owner id == worker
switches_own owner worker _ = true

unfoldable pub is_own : (ℕ → ℕ) → Event → System → Bool
unfolding switches_own
is_own owner (switches w) s = switches_own owner w (phase_of w s)
is_own owner _ s = true

-- Whether each task is switched to by its owner only.
unfoldable pub is_pinned : (ℕ → ℕ) → List Event → System → Bool
unfolding is_own
is_pinned owner [] s = true
is_pinned owner (e ∷ es) s = is_own owner e s && is_pinned owner es (step e s)

module _ (owner : ℕ → ℕ) where
  -- What holds of a task: once it has started, its context leads back to its owner.
  abbrev LeadsHome : ℕ → Task → Type 0
  LeadsHome id t = t.started ≡ true → t.uc_link ≡ owner id

  record IsHome (s : System) : Type 0 where
    leads : (id : ℕ) → LeadsHome id (s.scheduler.tasks id)
    owned :
        (w id : ℕ)
        → phase_of w s ≡ some (inside id)
        → (owner id ≡ w) × ((s.scheduler.tasks id).started ≡ true)
    stays : s.astray ≡ false

  take_task-IsHome :
      (w : ℕ) (phase : Option Phase) (r : Option (ℕ × Scheduler)) (s : System)
      → Gives one s.scheduler r
      → IsHome s
      → IsHome (take_task w phase r s)
  unfolding take_task
  take_task-IsHome w none r s g h = h
  take_task-IsHome w (some idle) none s g h = h
  take_task-IsHome w (some idle) (some (id, after)) s (_, _, _, _, same) h = record {
    leads = rw same h.leads;
    owned =
        λ v x e. rw same (h.owned v x (not_inside s.phases w v x id (found id) (inr (inl refl)) e));
    stays = h.stays;
  }
  take_task-IsHome w (some (found x)) r s g h = h
  take_task-IsHome w (some (inside x)) r s g h = h
  take_task-IsHome w (some (behind x)) r s g h = h

  -- One task changes, and its context leads to its owner.
  set_leads :
      (id : ℕ) (t : Task) (s : System)
      → t.uc_link ≡ owner id
      → IsHome s
      → (x : ℕ) → LeadsHome x (if id == x then t else s.scheduler.tasks x)
  set_leads id t s e h x k = elim (Bool-cases (id == x)) [
    | inl q ↦ let same : id ≡ x = ground (arith, q) in rw (q, ← same) e
    | inr q ↦ rw q (h.leads x (rw q at k))
  ]

  -- What a switch to a task, or a step inside it, leaves: one task changes, and the worker's phase.
  moved-IsHome :
      (w id : ℕ) (t : Task) (p : Phase) (s u : System)
      → IsHome s
      → t.uc_link ≡ owner id
      → t.started ≡ true
      → owner id ≡ w
      → (p ≡ inside id) ⊎ (p ≡ behind id)
      → u.scheduler.tasks ≡ (λ x. if id == x then t else s.scheduler.tasks x)
      → u.phases ≡ set s.phases w p
      → u.astray ≡ false
      → IsHome u
  moved-IsHome w id t p s u h link begun own q tasks phases stays = record {
    leads = rw tasks (set_leads id t s link h);
    owned = λ v x e. elim (get_elem?-set s.phases w v p (inside x) (rw phases at e)) [
      | inl k ↦ elim q [
        | inl i ↦
            let same : x ≡ id = cc in
            let hit : (id == x) ≡ true = ground (arith, same) in
            (rw same (own ∙ sym k.1), rw (tasks, hit) begun)
        | inr i ↦ cc
      ]
      | inr k ↦
          let (at, on) = h.owned v x k in
          (at, rw tasks (started_at (id == x) t (s.scheduler.tasks x) begun on))
    ];
    stays = stays;
  }

  switch_to-IsHome :
      (w : ℕ) (phase : Option Phase) (s : System)
      → phase ≡ phase_of w s
      → switches_own owner w phase ≡ true
      → IsHome s
      → IsHome (switch_to w phase s)
  unfolding switch_to switches_own
  switch_to-IsHome w none s e own h = h
  switch_to-IsHome w (some idle) s e own h = h
  switch_to-IsHome w (some (found id)) s e own h =
      let before = s.scheduler.tasks id in
      let t = (resume (prepare w before)).0 in
      let goes_on = (resume (prepare w before)).1 in
      let (begun, link) = resume-prepare w before in
      let mine : owner id ≡ w = ground (arith, own) in
      let leads : t.uc_link ≡ w =
        link ∙ link_home before.started before.uc_link w (λ k. h.leads id k ∙ mine) in
      let (stays, back) = comes_back_lem w id goes_on t s leads in
      moved-IsHome w id t _ s _ h (leads ∙ sym mine) begun mine (at_phase goes_on id _ back) refl
        refl (rw (h.stays, stays) refl)
  switch_to-IsHome w (some (inside x)) s e own h = h
  switch_to-IsHome w (some (behind x)) s e own h = h

  act_inside-IsHome :
      (w : ℕ) (a : Act) (phase : Option Phase) (s : System)
      → phase ≡ phase_of w s
      → IsHome s
      → IsHome (act_inside w a phase s)
  unfolding act_inside
  act_inside-IsHome w a none s e h = h
  act_inside-IsHome w a (some idle) s e h = h
  act_inside-IsHome w a (some (found x)) s e h = h
  act_inside-IsHome w a (some (inside id)) s e h =
      let before = s.scheduler.tasks id in
      let (mine, begun) = h.owned w id (sym e) in
      let (same, link) = act_lem a before in
      let leads : (act a before).uc_link ≡ w = link ∙ h.leads id begun ∙ mine in
      let (stays, back) =
        comes_back_lem w id (is_runnable (act a before).state) (act a before) s leads in
      moved-IsHome w id (act a before) _ s _ h (leads ∙ sym mine) (same ∙ begun) mine (inr back)
        refl refl (rw (h.stays, stays) refl)
  act_inside-IsHome w a (some (behind x)) s e h = h

  finish_round-IsHome :
      (w : ℕ) (phase : Option Phase) (s : System) → IsHome s → IsHome (finish_round w phase s)
  unfolding finish_round
  finish_round-IsHome w none s h = h
  finish_round-IsHome w (some idle) s h = h
  finish_round-IsHome w (some (found x)) s h = h
  finish_round-IsHome w (some (inside x)) s h = h
  finish_round-IsHome w (some (behind id)) s h = record {
    leads = rw (tasks-put_back w id s.scheduler) h.leads;
    owned = λ v x e.
        rw (tasks-put_back w id s.scheduler)
          (h.owned v x (not_inside s.phases w v x id idle (inl refl) e));
    stays = h.stays;
  }

  schedule_next-IsHome :
      (r : Option (ℕ × List ℕ)) (s : System) → IsHome s → IsHome (schedule_next r s)
  unfolding schedule_next
  schedule_next-IsHome none s h = h
  schedule_next-IsHome (some (id, rest)) s h = record {
    leads = rw (tasks-schedule_task id s.scheduler) h.leads;
    owned = rw (tasks-schedule_task id s.scheduler) h.owned;
    stays = h.stays;
  }

  register_next-IsHome :
      (r : Option (ℕ × List ℕ)) (s : System) → IsHome s → IsHome (register_next r s)
  unfolding register_next register
  register_next-IsHome none s h = h
  register_next-IsHome (some x) s h = record { leads = h.leads; owned = h.owned; stays = h.stays }

  cancels-IsHome : (id : ℕ) (s : System) → IsHome s → IsHome (step (cancels id) s)
  unfolding step
  cancels-IsHome id s h = record {
    leads = λ x k.
        (cancel_task_lem id x s.ended s.scheduler).1
        ∙ h.leads x (sym (cancel_task_lem id x s.ended s.scheduler).0 ∙ k);
    owned = λ w x e.
        let (at, on) = h.owned w x e in (at, (cancel_task_lem id x s.ended s.scheduler).0 ∙ on);
    stays = h.stays;
  }

  step-IsHome : (e : Event) (s : System) → is_own owner e s ≡ true → IsHome s → IsHome (step e s)
  unfolding step is_own new_id
  step-IsHome spawns s own h = record { leads = h.leads; owned = h.owned; stays = h.stays }
  step-IsHome (schedules k) s own h = schedule_next-IsHome (extract k s.spawning) s h
  step-IsHome (registers k) s own h = register_next-IsHome (extract k s.registering) s h
  step-IsHome (cancels id) s own h = cancels-IsHome id s h
  step-IsHome (takes_local w) s own h =
      take_task-IsHome w _ _ s (pop_local-Gives one w s.scheduler) h
  step-IsHome (steals w free targets locks) s own h =
      take_task-IsHome w _ _ s (steal_task_fast-Gives one w free targets locks s.scheduler) h
  step-IsHome (steals_global w) s own h =
      take_task-IsHome w _ _ s (pop_global-Gives one s.scheduler) h
  step-IsHome (steals_from w target) s own h =
      take_task-IsHome w _ _ s (pop_local-Gives one target s.scheduler) h
  step-IsHome (steals_overloaded w target) s own h =
      take_task-IsHome w _ _ s (pop_overloaded-Gives one target s.scheduler) h
  step-IsHome (switches w) s own h = switch_to-IsHome w (phase_of w s) s refl own h
  step-IsHome (acts w a) s own h = act_inside-IsHome w a (phase_of w s) s refl h
  step-IsHome (puts_back w) s own h = finish_round-IsHome w (phase_of w s) s h

  run-IsHome :
      (es : List Event) (s : System) → is_pinned owner es s ≡ true → IsHome s → IsHome (run es s)
  unfolding run is_pinned
  run-IsHome [] s p h = h
  run-IsHome (e ∷ es) s p h =
      run-IsHome es (step e s) (ground (arith, p)) (step-IsHome e s (ground (arith, p)) h)

  init-IsHome : (n : ℕ) → IsHome (init n)
  unfolding start
  init-IsHome n = record {
    leads = λ id k. cc;
    owned = λ w id e. let no : zero ≡ suc zero = none_inside n w id e in absurd cc;
    stays = refl;
  }

  -- Under every interleaving in which each task is switched to by one worker only, from the start on,
  -- whatever queues it passes through and whoever steals it before it has started: every task that has
  -- ended did so in the loop of the worker that it ran on, and each task has not started or has the
  -- context of its worker as its `uc_link`.
  pub run-is_pinned :
      (n : ℕ) (es : List Event) (id : ℕ)
      → is_pinned owner es (init n) ≡ true
      → ((run es (init n)).astray ≡ false)
        × ((((run es (init n)).scheduler.tasks id).started ≡ false)
            ⊎ (((run es (init n)).scheduler.tasks id).uc_link ≡ owner id))
  run-is_pinned n es id p =
      let home = run-IsHome es (init n) p (init-IsHome n) in
      (
        home.stays,
        elim (Bool-cases ((run es (init n)).scheduler.tasks id).started) [
          | inl k ↦ inr (home.leads id k)
          | inr k ↦ inl k
        ],
      )
