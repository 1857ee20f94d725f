-- ===== src/Concurrency/Shutdown.antt =====
-- What `shutdown` leaves behind.
use kode.Prelude.{
  ℕ, ◌+◌, ◌<◌, ◌≤◌, ◌≡◌, refl, ap, sym, ◌∙◌, true, false, List, [], ◌∷◌, ◌++◌, arith, ltb, lt→ltb,
}
use kode.Scheduler.{all_done}
use kode.Scheduler.Loop.{System, Event, init, run}
use kode.Scheduler.Conserved.{weigh, weigh_live}
use kode.Scheduler.Once.{indicator, run-once, run-all_done, run-next_task_id}
use kode.Scheduler.Ended.{run-ended, run-astray}
use kode.Scheduler.Stop.{Pool, pool, Move, run_moves}
use kode.Scheduler.Stopped.{log, run_moves-log}
use kode.Concurrency.{ShutsDown, shut}

run-append : (es fs : List Event) (s : System) → run (es ++ fs) s ≡ run fs (run es s)
unfolding run
run-append [] fs s = refl
run-append (e ∷ es) fs s = run-append es fs _

-- After `wait_all`, whatever the threads do.
after_waiting :
    (n : ℕ) (es fs : List Event) (id : ℕ)
    → (run fs (run es (init n))).astray ≡ false
    → all_done (run es (init n)).scheduler ≡ true
    → 0 < id
    → id < (run es (init n)).scheduler.next_task_id
    → (weigh_live (indicator id) (run fs (run es (init n))) ≡ 0)
      × (weigh (indicator id) (run fs (run es (init n))).ended ≡ 1)
after_waiting n es fs id a d h k =
    let next = run-next_task_id n es fs a in
    let before = (run-all_done n es id (run-astray fs (run es (init n)) a) d h k).1 in
    let keeps = run-ended (indicator id) fs (run es (init n)) in
    let issued : ltb id (run fs (run es (init n))).scheduler.next_task_id ≡ true =
      lt→ltb _ _ (omega (arith, next, k)) in
    let joined = run-append es fs (init n) in
    let once = run-once n (es ++ fs) id (rw joined a) h in
    let one_place : weigh_live (indicator id) (run fs (run es (init n)))
          + weigh (indicator id) (run fs (run es (init n))).ended
        ≡ 1 =
      rw (joined, issued) at once in
    omega (arith, before, keeps, one_place)

three_parts :
    (n : ℕ) (es fs gs : List Event) (a b c : System) (id : ℕ)
    → run es (init n) ≡ a
    → run fs a ≡ b
    → run gs b ≡ c
    → c.astray ≡ false
    → all_done b.scheduler ≡ true
    → 0 < id
    → id < a.scheduler.next_task_id
    → (weigh_live (indicator id) c ≡ 0) × (weigh (indicator id) c.ended ≡ 1)
three_parts n es fs gs a b c id ea eb ec stays d h k =
    let to_b : run (es ++ fs) (init n) ≡ b = run-append es fs (init n) ∙ ap (run fs) ea ∙ eb in
    let stays_b : b.astray ≡ false = run-astray gs b (rw ec stays) in
    let issued : a.scheduler.next_task_id ≤ b.scheduler.next_task_id =
      rw (ea, eb) at (run-next_task_id n es fs (rw (ea, eb) stays_b)) in
    rw (to_b, ec) at
      (after_waiting n (es ++ fs) gs id (rw (to_b, ec) stays) (rw to_b d) h
        (rw to_b (omega (arith, issued, k))))

-- When `shutdown` is through, each task that was spawned before it was called has been dropped exactly
-- once, and is in no queue and with no worker; for every order in which the threads go on and tasks end on
-- the worker that started them.
pub shutdown_lem :
    (n : ℕ) (ms : List Move) (q : Pool) (id : ℕ)
    → ShutsDown (run_moves ms (pool n)) q
    → q.system.astray ≡ false
    → 0 < id
    → id < (run_moves ms (pool n)).system.scheduler.next_task_id
    → (weigh_live (indicator id) q.system ≡ 0) × (weigh (indicator id) q.system.ended ≡ 1)
shutdown_lem n ms q id (shut waiting stopping done joined) a h k =
    let p = run_moves ms (pool n) in
    let r = run_moves waiting p in
    three_parts n (log ms (pool n)) (log waiting p) (log stopping r) p.system r.system _ id
      (sym (run_moves-log ms (pool n))) (sym (run_moves-log waiting p))
      (sym (run_moves-log stopping r)) a done h k
