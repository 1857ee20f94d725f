-- ===== src/Scheduler/Parked.antt =====
-- src/concurrency/task.cc: a worker outside the body of its loop has no task in its hands.
use kode.Prelude.{
  ℕ, zero, suc, ◌≡◌, refl, Bool, true, false, ◌&&◌, List, [], ◌∷◌, Option, none, some, arith, inl,
  inr, Bool-cases, get_or, get_elem?, set,
}
use kode.Scheduler.Loop.{
  Phase, idle, found, inside, behind, System, Event, spawns, schedules, registers, cancels,
  takes_local, steals, steals_global, steals_from, steals_overloaded, switches, acts, puts_back,
  step, phase_of,
}
use kode.Scheduler.Conserved.{weigh_phases}
use kode.Scheduler.Changes.{Changes, step-Changes}
use kode.Scheduler.Stop.{
  Place, at_test, in_round, gone, Pool, pool, Move, threads, finds_nothing, tests_flag, signals,
  worker_of, place_of, is_inside, may, go_to_test, end_round, test_flag, move, run_moves, all_gone,
}

-- A worker that is not in its loop's body has no task.
unfoldable pub rests : Place → Phase → Bool
rests in_round phase = true
rests place idle = true
rests place phase = false

unfoldable pub all_rest : List Place → List Phase → Bool
unfolding rests
all_rest [] [] = true
all_rest [] (y ∷ ys) = false
all_rest (x ∷ xs) [] = false
all_rest (x ∷ xs) (y ∷ ys) = rests x y && all_rest xs ys

all_rest-phase :
    (xs : List Place) (ys : List Phase) (w : ℕ) (y : Phase)
    → get_or xs w gone ≡ in_round
    → all_rest xs ys ≡ true
    → all_rest xs (set ys w y) ≡ true
unfolding all_rest
all_rest-phase [] ys w y e h = ground arith
all_rest-phase (x ∷ xs) [] w y e h = ground arith
all_rest-phase (in_round ∷ xs) (z ∷ ys) zero y e h = h
all_rest-phase (at_test ∷ xs) (z ∷ ys) zero y e h = ground arith
all_rest-phase (gone ∷ xs) (z ∷ ys) zero y e h = ground arith
all_rest-phase (x ∷ xs) (z ∷ ys) (suc w) y e h = ground (arith, all_rest-phase xs ys w y e)

rests-idle : (x : Place) → rests x idle ≡ true
unfolding rests
rests-idle at_test = refl
rests-idle in_round = refl
rests-idle gone = refl

-- A worker with no task in hand may be anywhere.
all_rest-place :
    (xs : List Place) (ys : List Phase) (w : ℕ) (x : Place)
    → get_elem? ys w ≡ some idle
    → all_rest xs ys ≡ true
    → all_rest (set xs w x) ys ≡ true
unfolding all_rest
all_rest-place [] ys w x e h = h
all_rest-place (z ∷ xs) [] w x e h = ground arith
all_rest-place (z ∷ xs) (idle ∷ ys) zero x e h = ground (arith, rests-idle x, rests-idle z)
all_rest-place (z ∷ xs) (found id ∷ ys) zero x e h = ground arith
all_rest-place (z ∷ xs) (inside id ∷ ys) zero x e h = ground arith
all_rest-place (z ∷ xs) (behind id ∷ ys) zero x e h = ground arith
all_rest-place (z ∷ xs) (y ∷ ys) (suc w) x e h = ground (arith, all_rest-place xs ys w x e)

all_rest-test :
    (xs : List Place) (ys : List Phase) (w : ℕ) (x : Place)
    → get_or xs w gone ≡ at_test
    → all_rest xs ys ≡ true
    → all_rest (set xs w x) ys ≡ true
unfolding all_rest
all_rest-test [] ys w x e h = h
all_rest-test (z ∷ xs) [] w x e h = ground arith
all_rest-test (in_round ∷ xs) (y ∷ ys) zero x e h = ground arith
all_rest-test (gone ∷ xs) (y ∷ ys) zero x e h = ground arith
all_rest-test (at_test ∷ xs) (idle ∷ ys) zero x e h = rw (rests-idle x) h
all_rest-test (at_test ∷ xs) (found id ∷ ys) zero x e h = ground arith
all_rest-test (at_test ∷ xs) (inside id ∷ ys) zero x e h = ground arith
all_rest-test (at_test ∷ xs) (behind id ∷ ys) zero x e h = ground arith
all_rest-test (z ∷ xs) (y ∷ ys) (suc w) x e h = ground (arith, all_rest-test xs ys w x e)

pub weigh_phases-gone :
    (weight : ℕ → ℕ) (xs : List Place) (ys : List Phase)
    → all_gone xs ≡ true
    → all_rest xs ys ≡ true
    → weigh_phases weight ys ≡ 0
unfolding all_gone all_rest
weigh_phases-gone weight [] [] g h = refl
weigh_phases-gone weight [] (y ∷ ys) g h = ground arith
weigh_phases-gone weight (x ∷ xs) [] g h = ground arith
weigh_phases-gone weight (gone ∷ xs) (idle ∷ ys) g h =
    omega (arith, weigh_phases-gone weight xs ys g h)
weigh_phases-gone weight (gone ∷ xs) (found id ∷ ys) g h = ground arith
weigh_phases-gone weight (gone ∷ xs) (inside id ∷ ys) g h = ground arith
weigh_phases-gone weight (gone ∷ xs) (behind id ∷ ys) g h = ground arith
weigh_phases-gone weight (at_test ∷ xs) (y ∷ ys) g h = ground arith
weigh_phases-gone weight (in_round ∷ xs) (y ∷ ys) g h = ground arith

unfoldable pub IsParked : Pool → Type 0
IsParked p = all_rest p.places p.system.phases ≡ true

is_inside-in_round : (x : Place) → is_inside x ≡ true → x ≡ in_round
unfolding is_inside
is_inside-in_round at_test h = ground arith
is_inside-in_round in_round h = refl
is_inside-in_round gone h = ground arith

change-IsParked :
    (w : Option ℕ) (p : Pool) (t : System)
    → Changes w p.system t
    → may w p ≡ true
    → IsParked p
    → IsParked (record p { system = t })
unfolding may IsParked
change-IsParked none p t e m h = rw e h
change-IsParked (some w) p t (inl e) m h = rw e h
change-IsParked (some w) p t (inr (y, e)) m h =
    rw e (all_rest-phase p.places p.system.phases w y (is_inside-in_round _ m) h)

go_to_test-IsParked :
    (w : ℕ) (place : Place) (phase : Option Phase) (p : Pool)
    → phase_of w p.system ≡ phase
    → IsParked p
    → IsParked (go_to_test w place phase p)
unfolding go_to_test IsParked
go_to_test-IsParked w at_test phase p e h = h
go_to_test-IsParked w gone phase p e h = h
go_to_test-IsParked w in_round none p e h = h
go_to_test-IsParked w in_round (some idle) p e h =
    all_rest-place p.places p.system.phases w at_test e h
go_to_test-IsParked w in_round (some (found id)) p e h = h
go_to_test-IsParked w in_round (some (inside id)) p e h = h
go_to_test-IsParked w in_round (some (behind id)) p e h = h

test_flag-IsParked :
    (w : ℕ) (place : Place) (p : Pool)
    → place_of w p ≡ place
    → IsParked p
    → IsParked (test_flag w place p)
unfolding test_flag IsParked
test_flag-IsParked w at_test p e h = all_rest-test p.places p.system.phases w _ e h
test_flag-IsParked w in_round p e h = h
test_flag-IsParked w gone p e h = h

end_round-IsParked : (e : Event) (p : Pool) → IsParked p → IsParked (end_round e p)
unfolding end_round
end_round-IsParked (puts_back w) p h = go_to_test-IsParked w (place_of w p) _ p refl h
end_round-IsParked spawns p h = h
end_round-IsParked (schedules k) p h = h
end_round-IsParked (registers k) p h = h
end_round-IsParked (cancels id) p h = h
end_round-IsParked (takes_local w) p h = h
end_round-IsParked (steals w free targets locks) p h = h
end_round-IsParked (steals_global w) p h = h
end_round-IsParked (steals_from w target) p h = h
end_round-IsParked (steals_overloaded w target) p h = h
end_round-IsParked (switches w) p h = h
end_round-IsParked (acts w a) p h = h

move-IsParked : (m : Move) (p : Pool) → IsParked p → IsParked (move m p)
unfolding move IsParked
move-IsParked (threads e) p h = elim (Bool-cases (may (worker_of e) p)) [
  | inl m ↦ rw m (
      end_round-IsParked e _
        (change-IsParked (worker_of e) p (step e p.system) (step-Changes e p.system) m h))
  | inr m ↦ rw m h
]
move-IsParked (finds_nothing w) p h = go_to_test-IsParked w (place_of w p) _ p refl h
move-IsParked (tests_flag w) p h = test_flag-IsParked w _ p refl h
move-IsParked (signals w) p h = h

pub run_moves-IsParked : (ms : List Move) (p : Pool) → IsParked p → IsParked (run_moves ms p)
unfolding run_moves
run_moves-IsParked [] p h = h
run_moves-IsParked (m ∷ ms) p h = run_moves-IsParked ms (move m p) (move-IsParked m p h)

pub pool-IsParked : (n : ℕ) → IsParked (pool n)
unfolding IsParked all_rest rests
pool-IsParked zero = refl
pool-IsParked (suc n) = pool-IsParked n
