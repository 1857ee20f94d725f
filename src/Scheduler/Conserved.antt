-- ===== src/Scheduler/Conserved.antt =====
-- Every step of every thread keeps the tasks that there are. A weight for each task id is summed over
-- the places where a task can be: that the sum is kept, for every weight, says that no task is lost
-- and none doubled.
use kode.Prelude.{
  ℕ, zero, suc, ◌+◌, ◌<◌, ◌≡◌, refl, ap, Bool, true, false, List, [], ◌∷◌, ◌++◌, Option, none, some,
  arith, length, get_or, get_elem?, set, inl, inr, Option-cases, ltb, if◌then◌else◌, extract,
}
use kode.Scheduler.{
  Scheduler, pop, pop_global, pop_local, pop_overloaded, steal_random, steal_scan, steal_task_fast,
  or_else,
}
use kode.Scheduler.Loop.{Phase, idle, found, inside, behind, System}

pub length-set {ℓ} : {A : Type ℓ} (xs : List A) (i : ℕ) (v : A) → length (set xs i v) ≡ length xs
length-set [] i v = refl
length-set (x ∷ xs) zero v = refl
length-set (x ∷ xs) (suc i) v = ap suc (length-set xs i v)

module _ (weight : ℕ → ℕ) where
  abbrev pub weigh : List ℕ → ℕ
  weigh [] = 0
  weigh (id ∷ ids) = weight id + weigh ids

  abbrev pub weigh_queues : List (List ℕ) → ℕ
  weigh_queues [] = 0
  weigh_queues (q ∷ qs) = weigh q + weigh_queues qs

  abbrev pub weigh_phase : Phase → ℕ
  weigh_phase idle = 0
  weigh_phase (found id) = weight id
  weigh_phase (inside id) = weight id
  weigh_phase (behind id) = weight id

  abbrev pub weigh_phases : List Phase → ℕ
  weigh_phases [] = 0
  weigh_phases (p ∷ ps) = weigh_phase p + weigh_phases ps

  -- In a queue.
  abbrev pub weigh_queued : Scheduler → ℕ
  weigh_queued s = weigh s.global_queue + weigh_queues s.queues

  -- In a queue, with a worker, or about to be queued.
  abbrev pub weigh_live : System → ℕ
  weigh_live s = weigh_queued s.scheduler + weigh_phases s.phases + weigh s.spawning

  pub weigh-append : (xs ys : List ℕ) → weigh (xs ++ ys) ≡ weigh xs + weigh ys
  weigh-append [] ys = omega arith
  weigh-append (x ∷ xs) ys = omega (arith, weigh-append xs ys)

  pub weigh-extract :
      (k : ℕ) (xs : List ℕ) {y : ℕ} {ys : List ℕ}
      → extract k xs ≡ some (y, ys)
      → weigh xs ≡ weight y + weigh ys
  unfolding extract
  weigh-extract k [] e = ground arith
  weigh-extract zero (x ∷ xs) e = ground arith
  weigh-extract (suc k) (x ∷ xs) e = elim (Option-cases (extract k xs)) [
    | inl m ↦ ground arith
    | inr (p, m) ↦ ground (arith, weigh-extract k xs {y = p.0} {ys = p.1} m)
  ]

  pub weigh_queues-pop :
      (qs : List (List ℕ)) (i id : ℕ) (rest : List ℕ)
      → get_or qs i [] ≡ id ∷ rest
      → weigh_queues qs ≡ weight id + weigh_queues (set qs i rest)
  weigh_queues-pop [] i id rest e = ground arith
  weigh_queues-pop (q ∷ qs) zero id rest e = ground arith
  weigh_queues-pop (q ∷ qs) (suc i) id rest e = omega (arith, weigh_queues-pop qs i id rest e)

  pub weigh_queues-push :
      (qs : List (List ℕ)) (i id : ℕ)
      → i < length qs
      → weigh_queues (set qs i (get_or qs i [] ++ id ∷ [])) ≡ weigh_queues qs + weight id
  weigh_queues-push [] i id h = ground arith
  weigh_queues-push (q ∷ qs) zero id h = omega (arith, weigh-append q (id ∷ []))
  weigh_queues-push (q ∷ qs) (suc i) id h = omega (arith, weigh_queues-push qs i id (omega arith))

  pub weigh_phases-set :
      (ps : List Phase) (i : ℕ) (p : Phase) {q : Phase}
      → get_elem? ps i ≡ some q
      → weigh_phases (set ps i p) + weigh_phase q ≡ weigh_phases ps + weigh_phase p
  weigh_phases-set [] i p e = ground arith
  weigh_phases-set (r ∷ ps) zero p e = ground arith
  weigh_phases-set (r ∷ ps) (suc i) p {q = q} e = omega (arith, weigh_phases-set ps i p {q = q} e)

  -- A queue that gives a task, and the task.
  abbrev pub Gives : Scheduler → Option (ℕ × Scheduler) → Type 0
  Gives s none = Unit
  Gives s (some (id, after)) =
      (weigh_queued s ≡ weight id + weigh_queued after)
      × (length after.queues ≡ length s.queues)
      × (after.active_tasks ≡ s.active_tasks)
      × (after.next_task_id ≡ s.next_task_id)
      × (after.tasks ≡ s.tasks)

  if_Gives :
      (b : Bool) (s : Scheduler) (o : Option (ℕ × Scheduler))
      → Gives s o
      → Gives s (if b then o else none)
  if_Gives true s o h = h
  if_Gives false s o h = tt

  pub or_else-Gives :
      (s : Scheduler) (o p : Option (ℕ × Scheduler)) → Gives s o → Gives s p → Gives s (or_else o p)
  or_else-Gives s none p h k = k
  or_else-Gives s (some taken) p h k = h

  pub pop_global-Gives : (s : Scheduler) → Gives s (pop_global s)
  unfolding pop_global
  pop_global-Gives s = go s.global_queue refl
    where
      go :
          (q : List ℕ)
          → s.global_queue ≡ q
          → Gives s (elim (pop q) [
            | none ↦ none
            | some (id, rest) ↦ some (id, record s { global_queue = rest })
          ])
      go [] e = tt
      go (id ∷ rest) e = (rw e (omega arith), refl, refl, refl, refl)

  pub pop_local-Gives : (i : ℕ) (s : Scheduler) → Gives s (pop_local i s)
  unfolding pop_local
  pop_local-Gives i s = go (get_or s.queues i []) refl
    where
      go :
          (q : List ℕ)
          → get_or s.queues i [] ≡ q
          → Gives s (elim (pop q) [
            | none ↦ none
            | some (id, rest) ↦ some (id, record s { queues = set s.queues i rest })
          ])
      go [] e = tt
      go (id ∷ rest) e = (
        omega (arith, weigh_queues-pop s.queues i id rest e),
        length-set s.queues i rest,
        refl,
        refl,
        refl,
      )

  pub pop_overloaded-Gives : (i : ℕ) (s : Scheduler) → Gives s (pop_overloaded i s)
  unfolding pop_overloaded
  pop_overloaded-Gives i s =
      if_Gives (ltb 1 (length (get_or s.queues i []))) s (pop_local i s) (pop_local-Gives i s)

  steal_random-Gives :
      (targets : List (ℕ × Bool)) (s : Scheduler) → Gives s (steal_random targets s)
  unfolding steal_random
  steal_random-Gives [] s = tt
  steal_random-Gives ((target, free) ∷ targets) s =
      or_else-Gives s _ _ (if_Gives free s _ (pop_local-Gives target s))
        (steal_random-Gives targets s)

  steal_scan-Gives :
      (w i : ℕ) (locks : List Bool) (s : Scheduler) → Gives s (steal_scan w i locks s)
  unfolding steal_scan
  steal_scan-Gives w i [] s = tt
  steal_scan-Gives w i (free ∷ locks) s =
      or_else-Gives s _ _ (if_Gives free s _ (pop_overloaded-Gives _ s))
        (steal_scan-Gives w (i + 1) locks s)

  -- `steal_task_fast` takes one task out of one queue, or changes nothing.
  pub steal_task_fast-Gives :
      (w : ℕ) (global_free : Bool) (targets : List (ℕ × Bool)) (locks : List Bool) (s : Scheduler)
      → Gives s (steal_task_fast w global_free targets locks s)
  unfolding steal_task_fast
  steal_task_fast-Gives w global_free targets locks s =
      or_else-Gives s _ _ (if_Gives global_free s _ (pop_global-Gives s))
        (or_else-Gives s _ _ (steal_random-Gives targets s) (steal_scan-Gives w 1 locks s))
