-- ===== src/Scheduler/Stopped.antt =====
-- src/concurrency/task.cc: what `stop` leaves behind.
use kode.Prelude.{
  ap, ℕ, ◌+◌, ◌<◌, ◌≡◌, refl, ◌∙◌, Bool, true, false, List, [], ◌∷◌, Option, none, some, arith,
  if◌then◌else◌, ltb,
}
use kode.Scheduler.Loop.{
  Phase, idle, found, inside, behind, System, Event, spawns, schedules, registers, cancels,
  takes_local, steals, steals_global, steals_from, steals_overloaded, switches, acts, puts_back,
  step, run,
}
use kode.Scheduler.Conserved.{weigh, weigh_queued, weigh_phases, weigh_live}
use kode.Scheduler.Parked.{IsParked, weigh_phases-gone, run_moves-IsParked, pool-IsParked}
use kode.Scheduler.Once.{indicator, run-once}
use kode.Scheduler.Stop.{
  Place, at_test, in_round, gone, Pool, pool, Move, threads, finds_nothing, tests_flag, signals,
  worker_of, may, go_to_test, end_round, test_flag, move, run_moves, is_joined,
}

-- The steps of the threads in a list of moves.
unfoldable pub log : List Move → Pool → List Event
log [] p = []
log (threads e ∷ ms) p =
    let rest = log ms (move (threads e) p) in if may (worker_of e) p then e ∷ rest else rest
log (m ∷ ms) p = log ms (move m p)

go_to_test-system :
    (w : ℕ) (place : Place) (phase : Option Phase) (p : Pool)
    → (go_to_test w place phase p).system ≡ p.system
unfolding go_to_test
go_to_test-system w at_test phase p = refl
go_to_test-system w gone phase p = refl
go_to_test-system w in_round none p = refl
go_to_test-system w in_round (some idle) p = refl
go_to_test-system w in_round (some (found id)) p = refl
go_to_test-system w in_round (some (inside id)) p = refl
go_to_test-system w in_round (some (behind id)) p = refl

end_round-system : (e : Event) (p : Pool) → (end_round e p).system ≡ p.system
unfolding end_round
end_round-system (puts_back w) p = go_to_test-system w _ _ p
end_round-system spawns p = refl
end_round-system (schedules k) p = refl
end_round-system (registers k) p = refl
end_round-system (cancels id) p = refl
end_round-system (takes_local w) p = refl
end_round-system (steals w free targets locks) p = refl
end_round-system (steals_global w) p = refl
end_round-system (steals_from w target) p = refl
end_round-system (steals_overloaded w target) p = refl
end_round-system (switches w) p = refl
end_round-system (acts w a) p = refl

test_flag-system : (w : ℕ) (place : Place) (p : Pool) → (test_flag w place p).system ≡ p.system
unfolding test_flag
test_flag-system w at_test p = refl
test_flag-system w in_round p = refl
test_flag-system w gone p = refl

log_event :
    (e : Event) (ms : List Move) (p : Pool) (b : Bool)
    → ((q : Pool) → (run_moves ms q).system ≡ run (log ms q) q.system)
    → (run_moves ms (if b then end_round e (record p { system = step e p.system }) else p)).system
      ≡ run
          (if b
            then e ∷ log ms (if b then end_round e (record p { system = step e p.system }) else p)
            else log ms (if b then end_round e (record p { system = step e p.system }) else p))
          p.system
unfolding run
log_event e ms p false rest = rest p
log_event e ms p true rest =
    let q = end_round e (record p { system = step e p.system }) in
    rest q ∙ ap (run (log ms q)) (end_round-system e _)

-- The threads of a pool take the steps of Scheduler/Loop, and no others.
pub run_moves-log : (ms : List Move) (p : Pool) → (run_moves ms p).system ≡ run (log ms p) p.system
unfolding run_moves log run move
run_moves-log [] p = refl
run_moves-log (threads e ∷ ms) p = log_event e ms p (may (worker_of e) p) (run_moves-log ms)
run_moves-log (finds_nothing w ∷ ms) p =
    run_moves-log ms (move (finds_nothing w) p) ∙ ap (run (log ms _)) (go_to_test-system w _ _ p)
run_moves-log (tests_flag w ∷ ms) p =
    run_moves-log ms (move (tests_flag w) p) ∙ ap (run (log ms _)) (test_flag-system w _ p)
run_moves-log (signals w ∷ ms) p = run_moves-log ms (move (signals w) p)

not_in_hands :
    (id : ℕ) (s : System)
    → weigh_phases (indicator id) s.phases ≡ 0
    → weigh_live (indicator id) s + weigh (indicator id) s.ended
      ≡ (if ltb id s.scheduler.next_task_id then 1 else 0)
    → id < s.scheduler.next_task_id
    → weigh_queued (indicator id) s.scheduler
        + weigh (indicator id) s.spawning
        + weigh (indicator id) s.ended
      ≡ 1
not_in_hands id s idle_phases once k =
    let issued : ltb id s.scheduler.next_task_id ≡ true = ground (arith, k) in
    let one_place : weigh_live (indicator id) s + weigh (indicator id) s.ended ≡ 1 =
      once ∙ rw issued in
    omega (arith, idle_phases, one_place)

-- When `stop` has joined every worker, whatever the threads did before, as long as tasks ended on the
-- worker that started them: each task that was spawned has
-- been dropped exactly once, or it is still in exactly one queue or about to be queued.
pub run_moves-is_joined :
    (n : ℕ) (ms : List Move) (id : ℕ)
    → (run_moves ms (pool n)).system.astray ≡ false
    → is_joined (run_moves ms (pool n)) ≡ true
    → 0 < id
    → id < (run_moves ms (pool n)).system.scheduler.next_task_id
    → weigh_queued (indicator id) (run_moves ms (pool n)).system.scheduler
        + weigh (indicator id) (run_moves ms (pool n)).system.spawning
        + weigh (indicator id) (run_moves ms (pool n)).system.ended
      ≡ 1
unfolding is_joined IsParked
run_moves-is_joined n ms id a j h k =
    not_in_hands id (run_moves ms (pool n)).system
      (weigh_phases-gone (indicator id) _ _ j (run_moves-IsParked ms (pool n) (pool-IsParked n)))
      (rw (run_moves-log ms (pool n))
        (run-once n (log ms (pool n)) id (rw (run_moves-log ms (pool n)) at a) h))
      k
