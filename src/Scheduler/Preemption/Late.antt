-- ===== src/Scheduler/Preemption/Late.antt =====
-- src/concurrency/task.cc: whom the preemption thread makes a request of.
use kode.Prelude.{
  ◌⊎◌, ℕ, zero, suc, ◌+◌, ◌<◌, ◌≤◌, ◌≡◌, refl, true, false, List, [], ◌∷◌, Option, none, some,
  arith, inl, inr, Bool-cases, length, replicate, All, All-weaken, ltb, if◌then◌else◌,
}
use kode.Scheduler.Preemption.{
  Tracking, no_task, track, clear, is_over, request_preemption, Place, tests, sleeps, scans,
  returned, Watched, setup_preemption, Moment, passes, tracks, clears, stops, goes_on, update,
  preempt, step, run,
}

module _ (time_slice : ℕ) where
  -- A worker with a start has a task, and a request of it was made in time.
  pub record IsDue (clock : ℕ) (worker : Tracking) : Type 0 where
    pub has_task :
        (t : ℕ)
        → worker.current_task_start_time ≡ some t
        → (id : ℕ) × (worker.current_task ≡ some id)
    pub late :
        (t : ℕ)
        → worker.current_task_start_time ≡ some t
        → worker.preemption_requested ≡ true
        → t + time_slice < clock

  -- What the thread's `now` is.
  pub IsPast : ℕ → Place → Type 0
  IsPast clock (scans now i) = now ≤ clock
  IsPast clock _ = Unit

  pub record IsWatched (s : Watched) : Type 0 where
    pub due : All (IsDue s.clock) s.workers
    pub past : IsPast s.clock s.place

  All-update :
      (Holds : Tracking → Type 0) (f : Tracking → Tracking)
      → ((x : Tracking) → Holds x → Holds (f x))
      → (i : ℕ) (xs : List Tracking) → All Holds xs
      → All Holds (update f i xs)
  unfolding update
  All-update Holds f h i [] a = tt
  All-update Holds f h zero (x ∷ xs) (a, rest) = (h x a, rest)
  All-update Holds f h (suc i) (x ∷ xs) (a, rest) = (a, All-update Holds f h i xs rest)

  track-IsDue : (clock id : ℕ) (x : Tracking) → IsDue clock (track clock id x)
  unfolding track
  track-IsDue clock id x = record {
    has_task = λ t e. (id, refl);
    late = λ t e (r : false ≡ true). cc;
  }

  clear-IsDue : (clock : ℕ) (x : Tracking) → IsDue clock (clear x)
  unfolding clear
  clear-IsDue clock x = record {
    has_task = λ t (e : none ≡ some t). cc;
    late = λ t (e : none ≡ some t) r. cc;
  }

  pub is_over-lt :
      (now : ℕ) (id start_time : Option ℕ) (t : ℕ)
      → is_over time_slice now id start_time ≡ true
      → start_time ≡ some t
      → t + time_slice < now
  unfolding is_over
  is_over-lt now none s t o e = cc
  is_over-lt now (some id) none t o e = cc
  is_over-lt now (some id) (some u) t o e = ground (arith, o)

  request_preemption-IsDue :
      (clock now : ℕ) (x : Tracking)
      → now ≤ clock
      → IsDue clock x
      → IsDue clock (request_preemption time_slice now x)
  unfolding request_preemption
  request_preemption-IsDue clock now x h d =
      go (Bool-cases (is_over time_slice now x.current_task x.current_task_start_time))
    where
      go :
          let over = is_over time_slice now x.current_task x.current_task_start_time in
          (over ≡ true) ⊎ (over ≡ false)
          → IsDue clock (if over then record x { preemption_requested = true } else x)
      go (inr e) = rw e d
      go (inl e) = rw e (record {
        has_task = d.has_task;
        late = λ t f r.
            let lt = is_over-lt now x.current_task x.current_task_start_time t e f in
            omega (arith, lt, h);
      })

  later-IsDue : (clock time : ℕ) (x : Tracking) → IsDue clock x → IsDue (clock + time) x
  later-IsDue clock time x d = record {
    has_task = d.has_task;
    late = λ t e r. let lt = d.late t e r in omega (arith, lt);
  }

  later-IsPast : (clock time : ℕ) (p : Place) → IsPast clock p → IsPast (clock + time) p
  unfolding IsPast
  later-IsPast clock time tests h = tt
  later-IsPast clock time sleeps h = tt
  later-IsPast clock time (scans now i) h = omega (arith, h)
  later-IsPast clock time returned h = tt

  preempt-IsWatched :
      (p : Place) (s : Watched)
      → IsPast s.clock p
      → IsWatched s
      → IsWatched (preempt time_slice p s)
  unfolding preempt IsPast
  preempt-IsWatched tests s h w = record {
    due = w.due;
    past = elim (Bool-cases s.preemption_stop) [ inl e ↦ rw e tt | inr e ↦ rw e tt ];
  }
  preempt-IsWatched sleeps s h w = record { due = w.due; past = omega arith }
  preempt-IsWatched (scans now i) s h w = elim (Bool-cases (ltb i (length s.workers))) [
    | inr e ↦ rw e (record { due = w.due; past = tt })
    | inl e ↦
        let due =
          All-update (IsDue s.clock) (request_preemption time_slice now)
            (λ x. request_preemption-IsDue s.clock now x h) i s.workers w.due in
        rw e (record { due = due; past = h })
  ]
  preempt-IsWatched returned s h w = w

  step-IsWatched : (m : Moment) (s : Watched) → IsWatched s → IsWatched (step time_slice m s)
  unfolding step
  step-IsWatched (passes time) s w = record {
    due =
        All-weaken (IsDue s.clock) (IsDue (s.clock + time)) s.workers (later-IsDue s.clock time)
          w.due;
    past = later-IsPast s.clock time s.place w.past;
  }
  step-IsWatched (tracks i id) s w = record {
    due = All-update (IsDue s.clock) _ (λ x h. track-IsDue s.clock id x) i s.workers w.due;
    past = w.past;
  }
  step-IsWatched (clears i) s w = record {
    due = All-update (IsDue s.clock) _ (λ x h. clear-IsDue s.clock x) i s.workers w.due;
    past = w.past;
  }
  step-IsWatched stops s w = record { due = w.due; past = w.past }
  step-IsWatched goes_on s w = preempt-IsWatched s.place s w.past w

  pub run-IsWatched :
      (ms : List Moment) (s : Watched) → IsWatched s → IsWatched (run time_slice ms s)
  unfolding run
  run-IsWatched [] s w = w
  run-IsWatched (m ∷ ms) s w = run-IsWatched ms (step time_slice m s) (step-IsWatched m s w)

  no_task-IsDue : (n : ℕ) → All (IsDue 0) (replicate n no_task)
  unfolding clear
  no_task-IsDue zero = tt
  no_task-IsDue (suc n) = (clear-IsDue 0 no_task, no_task-IsDue n)

  pub setup_preemption-IsWatched : (n : ℕ) → IsWatched (setup_preemption n)
  unfolding setup_preemption IsPast
  setup_preemption-IsWatched n = record { due = no_task-IsDue n; past = tt }
