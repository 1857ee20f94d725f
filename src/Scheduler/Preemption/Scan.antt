-- ===== src/Scheduler/Preemption/Scan.antt =====
-- src/concurrency/task.cc: one whole call of `preempt_long_running_tasks`.
use kode.Prelude.{
  ℕ, zero, suc, ◌+◌, ◌<◌, ◌≤◌, ◌≡◌, refl, sym, ap, ◌∙◌, true, false, List, [], ◌∷◌, map, some,
  arith, inl, inr, Bool-cases, get_elem?, length, replicate, All-get_elem?, ltb,
}
use kode.Scheduler.Preemption.{
  Tracking, is_over, request_preemption, tests, sleeps, scans, Watched, setup_preemption, Moment,
  goes_on, update, preempt, step, run,
}
use kode.Scheduler.Preemption.Late.{IsDue, run-IsWatched, setup_preemption-IsWatched}

-- Until the thread is back at its test.
abbrev pub whole_scan : ℕ → Watched → Watched
whole_scan time_slice s = run time_slice (replicate (suc (suc (length s.workers))) goes_on) s

update_from : (Tracking → Tracking) → ℕ → List Tracking → List Tracking
update_from f i [] = []
update_from f zero (x ∷ xs) = map f (x ∷ xs)
update_from f (suc i) (x ∷ xs) = x ∷ update_from f i xs

update_from-zero : (f : Tracking → Tracking) (xs : List Tracking) → update_from f 0 xs ≡ map f xs
unfolding update_from
update_from-zero f [] = refl
update_from-zero f (x ∷ xs) = refl

update_from-update :
    (f : Tracking → Tracking) (i : ℕ) (xs : List Tracking)
    → update_from f (suc i) (update f i xs) ≡ update_from f i xs
unfolding update_from update
update_from-update f i [] = refl
update_from-update f zero (x ∷ xs) = ap (λ r. f x ∷ r) (update_from-zero f xs)
update_from-update f (suc i) (x ∷ xs) = ap (λ r. x ∷ r) (update_from-update f i xs)

update_from-length :
    (f : Tracking → Tracking) (i : ℕ) (xs : List Tracking) → length xs ≤ i → update_from f i xs ≡ xs
unfolding update_from
update_from-length f i [] h = refl
update_from-length f zero (x ∷ xs) h = absurd (omega (arith, h))
update_from-length f (suc i) (x ∷ xs) h =
    ap (λ r. x ∷ r) (update_from-length f i xs (omega (arith, h)))

length-update :
    (f : Tracking → Tracking) (i : ℕ) (xs : List Tracking) → length (update f i xs) ≡ length xs
unfolding update
length-update f i [] = refl
length-update f zero (x ∷ xs) = refl
length-update f (suc i) (x ∷ xs) = ap suc (length-update f i xs)

module _ (time_slice now i : ℕ) (s : Watched) (p : s.place ≡ scans now i) where
  preempt_worker :
      i < length s.workers
      → preempt time_slice s.place s ≡ record s {
        workers = update (request_preemption time_slice now) i s.workers;
        place = scans now (suc i);
      }
  unfolding preempt
  preempt_worker h =
      let before : ltb i (length s.workers) ≡ true = ground (arith, h) in
      let one_more : i + 1 ≡ suc i = omega arith in rw (p, before, one_more) refl

  preempt_end : length s.workers ≤ i → preempt time_slice s.place s ≡ record s { place = tests }
  unfolding preempt
  preempt_end h =
      let behind : ltb i (length s.workers) ≡ false = ground (arith, h) in rw (p, behind) refl

-- From the worker `i` on, each is tested once, at the same `now`.
scan_rest :
    (time_slice m now i : ℕ) (s : Watched)
    → s.place ≡ scans now i
    → i + m ≡ length s.workers
    → (run time_slice (replicate (suc m) goes_on) s).workers
      ≡ update_from (request_preemption time_slice now) i s.workers
unfolding run step
scan_rest time_slice zero now i s p e =
    ap (λ r. r.workers) (preempt_end time_slice now i s p (omega (arith, e)))
    ∙ sym (update_from-length (request_preemption time_slice now) i s.workers (omega (arith, e)))
scan_rest time_slice (suc m) now i s p e =
    let f = request_preemption time_slice now in
    let next = record s { workers = update f i s.workers; place = scans now (suc i) } in
    ap (λ r. (run time_slice (replicate (suc m) goes_on) r).workers)
      (preempt_worker time_slice now i s p (omega (arith, e)))
    ∙ scan_rest time_slice m now (suc i) next refl (omega (arith, e, length-update f i s.workers))
    ∙ update_from-update f i s.workers

preempt_woken :
    (time_slice : ℕ) (s : Watched)
    → s.place ≡ sleeps
    → preempt time_slice s.place s ≡ record s { place = scans s.clock 0 }
unfolding preempt
preempt_woken time_slice s p = rw p refl

whole_scan_lem :
    (time_slice : ℕ) (s : Watched)
    → s.place ≡ sleeps
    → (whole_scan time_slice s).workers ≡ map (request_preemption time_slice s.clock) s.workers
unfolding run step
whole_scan_lem time_slice s p =
    let f = request_preemption time_slice s.clock in
    let woken = record s { place = scans s.clock 0 } in
    ap (λ r. (run time_slice (replicate (suc (length s.workers)) goes_on) r).workers)
      (preempt_woken time_slice s p)
    ∙ scan_rest time_slice (length s.workers) s.clock 0 woken refl (omega arith)
    ∙ update_from-zero f s.workers

get_elem?-map :
    (f : Tracking → Tracking) (xs : List Tracking) (w : ℕ) (x : Tracking)
    → get_elem? (map f xs) w ≡ some x
    → (y : Tracking) × (get_elem? xs w ≡ some y) × (f y ≡ x)
get_elem?-map f [] w x e = cc
get_elem?-map f (y ∷ xs) zero x e = (y, refl, cc)
get_elem?-map f (y ∷ xs) (suc w) x e = get_elem?-map f xs w x e

request_preemption-current_task_start_time :
    (time_slice now : ℕ) (y : Tracking)
    → (request_preemption time_slice now y).current_task_start_time ≡ y.current_task_start_time
unfolding request_preemption
request_preemption-current_task_start_time time_slice now y = ground arith

-- A request is there just when the task is over its slice.
request_preemption_lem :
    (time_slice clock t : ℕ) (y : Tracking)
    → IsDue time_slice clock y
    → y.current_task_start_time ≡ some t
    → (request_preemption time_slice clock y).preemption_requested ≡ ltb (t + time_slice) clock
unfolding request_preemption is_over
request_preemption_lem time_slice clock t y d e =
    let (id, c) = d.has_task t e in
    elim (Bool-cases (ltb (t + time_slice) clock)) [
      | inl over ↦ rw (c, e, over) refl
      | inr within ↦
          rw (c, e, within)
            (elim (Bool-cases y.preemption_requested) [
              | inr none_made ↦ none_made
              | inl made ↦ let lt = d.late t e made in absurd (ground (arith, within, lt))
            ])
    ]

-- `preempt_long_running_tasks` finds the tasks over their slice, and only these: after any
-- interleaving of the workers, `stop` and the preemption thread that leaves the thread in its sleep, and
-- one whole scan from there, a worker with a start time has a request just when its task has had control
-- for longer than `time_slice_`.
pub run-whole_scan :
    (time_slice n : ℕ) (ms : List Moment) (w t : ℕ) (worker : Tracking)
    → (run time_slice ms (setup_preemption n)).place ≡ sleeps
    → get_elem? (whole_scan time_slice (run time_slice ms (setup_preemption n))).workers w
      ≡ some worker
    → worker.current_task_start_time ≡ some t
    → worker.preemption_requested
      ≡ ltb (t + time_slice) (run time_slice ms (setup_preemption n)).clock
run-whole_scan time_slice n ms w t worker p e h =
    let s = run time_slice ms (setup_preemption n) in
    let f = request_preemption time_slice s.clock in
    let watched =
      run-IsWatched time_slice ms (setup_preemption n) (setup_preemption-IsWatched time_slice n) in
    let (y, here, same) =
      get_elem?-map f s.workers w worker
        (ap (λ r. get_elem? r w) (sym (whole_scan_lem time_slice s p)) ∙ e) in
    let due = All-get_elem? (IsDue time_slice s.clock) s.workers w y watched.due here in
    let kept = request_preemption-current_task_start_time time_slice s.clock y in
    sym (ap (λ r. r.preemption_requested) same)
    ∙ request_preemption_lem time_slice s.clock t y due
        (sym kept ∙ ap (λ r. r.current_task_start_time) same ∙ h)
