-- ===== src/Scheduler/Contexts.antt =====
-- src/concurrency/task.cc: what the operations of the scheduler keep of a task's context, and where a switch
-- comes back.
use kode.Prelude.{
  ltb, length, ℕ, zero, suc, ◌≡◌, ◌⊎◌, refl, inl, inr, Bool, true, false, ◌==◌, List, [], ◌∷◌, some,
  arith, get_elem?, set, replicate, if◌then◌else◌, Bool-cases,
}
use kode.Scheduler.{
  TaskState, Task, prepare, resume, Act, yields, overtaken, ends, act, Scheduler, cancel_task,
  member, put_back, schedule_task, size_max, is_runnable,
}
use kode.Scheduler.Loop.{Phase, idle, found, inside, behind, System, strays, comes_back}

pub get_elem?-set {ℓ} :
    {A : Type ℓ} (xs : List A) (i j : ℕ) (v x : A)
    → get_elem? (set xs i v) j ≡ some x
    → ((x ≡ v) × (j ≡ i)) ⊎ (get_elem? xs j ≡ some x)
get_elem?-set [] i j v x e = inr e
get_elem?-set (y ∷ xs) zero zero v x e = inl (cc, refl)
get_elem?-set (y ∷ xs) zero (suc j) v x e = inr e
get_elem?-set (y ∷ xs) (suc i) zero v x e = inr e
get_elem?-set (y ∷ xs) (suc i) (suc j) v x e = elim (get_elem?-set xs i j v x e) [
  | inl h ↦ inl (h.0, cc)
  | inr h ↦ inr h
]

pub tasks-put_back : (w id : ℕ) (s : Scheduler) → (put_back w id s).0.tasks ≡ s.tasks
unfolding put_back
tasks-put_back w id s = elim (Bool-cases (is_runnable (s.tasks id).state)) [
  | inl e ↦ rw e refl
  | inr e ↦ rw e refl
]

pub tasks-schedule_task : (id : ℕ) (s : Scheduler) → (schedule_task id size_max s).tasks ≡ s.tasks
unfolding schedule_task
tasks-schedule_task id s = elim (Bool-cases (ltb size_max (length s.queues))) [
  | inl e ↦ rw e refl
  | inr e ↦ rw e refl
]

-- A call of `cancel_task` keeps whether a task has started, and where its context leads.
pub cancel_task_lem :
    (id x : ℕ) (ended : List ℕ) (s : Scheduler)
    → (((cancel_task id ended s).tasks x).started ≡ (s.tasks x).started)
      × (((cancel_task id ended s).tasks x).uc_link ≡ (s.tasks x).uc_link)
unfolding cancel_task
cancel_task_lem id x ended s = elim (Bool-cases (member id s.active_task_map)) [
  | inl e ↦ elim (Bool-cases (member id ended)) [
    | inl d ↦ rw (e, d) (refl, refl)
    | inr d ↦ elim (Bool-cases (id == x)) [
      | inl q ↦ let same : id ≡ x = ground (arith, q) in rw (e, d, q, same) (refl, refl)
      | inr q ↦ rw (e, d, q) (refl, refl)
    ]
  ]
  | inr e ↦ rw e (refl, refl)
]

-- A phase that is set and is not inside a task.
pub not_inside :
    (ps : List Phase) (w v id x : ℕ) (p : Phase)
    → (p ≡ idle) ⊎ ((p ≡ found x) ⊎ (p ≡ behind x))
    → get_elem? (set ps w p) v ≡ some (inside id)
    → get_elem? ps v ≡ some (inside id)
not_inside ps w v id x p h e = elim (get_elem?-set ps w v p (inside id) e) [
  | inl k ↦ elim h [ inl q ↦ cc | inr (inl q) ↦ cc | inr (inr q) ↦ cc ]
  | inr k ↦ k
]

-- A task that has been switched to has started, and its context leads to where it did, or to the worker.
pub resume-prepare :
    (w : ℕ) (t : Task)
    → ((resume (prepare w t)).0.started ≡ true)
      × ((resume (prepare w t)).0.uc_link ≡ (if t.started then t.uc_link else w))
unfolding resume prepare
resume-prepare w t = go t.state t.cancel_requested t.started t.uc_link
  where
    go :
        (state : TaskState) (cancel_requested started : Bool) (uc_link : ℕ)
        → (let t : Task = record {
          state = state;
          cancel_requested = cancel_requested;
          started = started;
          uc_link = uc_link;
        } in
            ((resume (prepare w t)).0.started ≡ true)
            × ((resume (prepare w t)).0.uc_link ≡ (if started then uc_link else w)))
    go state true true uc_link = (refl, refl)
    go state true false uc_link = (refl, refl)
    go state false true uc_link = (refl, refl)
    go state false false uc_link = (refl, refl)

pub act_lem :
    (a : Act) (t : Task) → ((act a t).started ≡ t.started) × ((act a t).uc_link ≡ t.uc_link)
unfolding act
act_lem ends t = (refl, refl)
act_lem overtaken t = (refl, refl)
act_lem yields t = elim (Bool-cases t.cancel_requested) [
  | inl e ↦ rw e (refl, refl)
  | inr e ↦ rw e (refl, refl)
]

-- A task whose context leads to the worker that ran it comes back there.
pub comes_back_lem :
    (w id : ℕ) (goes_on : Bool) (t : Task) (s : System)
    → t.uc_link ≡ w
    → (strays w goes_on t ≡ false) × (comes_back w id goes_on t s ≡ behind id)
unfolding comes_back strays
comes_back_lem w id goes_on t s e =
    let stays : strays w goes_on t ≡ false = ground (arith, e) in (stays, rw stays refl)

-- Behind the change of one task to one that has started.
pub started_at :
    (b : Bool) (t u : Task)
    → t.started ≡ true
    → u.started ≡ true
    → (if b then t else u).started ≡ true
started_at true t u h k = h
started_at false t u h k = k

pub link_home : (b : Bool) (link w : ℕ) → (b ≡ true → link ≡ w) → (if b then link else w) ≡ w
link_home true link w h = h refl
link_home false link w h = refl

pub at_phase :
    (b : Bool) (id : ℕ) (p : Phase)
    → p ≡ behind id
    → ((if b then inside id else p) ≡ inside id) ⊎ ((if b then inside id else p) ≡ behind id)
at_phase true id p e = inl refl
at_phase false id p e = inr e

pub none_inside : (n w id : ℕ) → get_elem? (replicate n idle) w ≡ some (inside id) → zero ≡ suc zero
none_inside zero w id e = cc
none_inside (suc n) zero id e = cc
none_inside (suc n) (suc w) id e = none_inside n w id e
