-- ===== src/Scheduler/Stop.antt =====
-- src/concurrency/task.cc: `stop`, and the test of `should_stop` at the head of `worker_loop`, put around
-- the threads of Scheduler/Loop.
use kode.Prelude.{
  ℕ, Bool, true, false, List, [], ◌∷◌, Option, none, some, get_or, set, replicate, if◌then◌else◌,
}
use kode.Scheduler.Loop.{
  Phase, idle, System, Event, takes_local, steals, steals_global, steals_from, steals_overloaded,
  switches, acts, puts_back, init, step, phase_of,
}

-- Where a worker's thread is: at the test of its loop, in the loop's body, or behind the loop.
pub data Place : Type 0 where
  at_test in_round gone : Place

pub record Pool : Type 0 where
  pub system : System
  pub should_stop : List Bool
  pub places : List Place

-- `start`.
abbrev pub pool : ℕ → Pool
pool num_workers = record {
  system = init num_workers;
  should_stop = replicate num_workers false;
  places = replicate num_workers at_test;
}

-- `signals` is a round of the first loop of `stop`. A worker that `finds_nothing` has an empty queue and
-- no task from `steal_task_fast`.
pub data Move : Type 0 where
  threads : Event → Move
  finds_nothing tests_flag signals : ℕ → Move

-- The worker whose thread does it.
unfoldable pub worker_of : Event → Option ℕ
worker_of (takes_local w) = some w
worker_of (steals w free targets locks) = some w
worker_of (steals_global w) = some w
worker_of (steals_from w target) = some w
worker_of (steals_overloaded w target) = some w
worker_of (switches w) = some w
worker_of (acts w a) = some w
worker_of (puts_back w) = some w
worker_of _ = none

abbrev pub place_of : ℕ → Pool → Place
place_of w p = get_or p.places w gone

unfoldable pub is_inside : Place → Bool
is_inside in_round = true
is_inside _ = false

-- Only in its loop's body does a worker do anything.
unfoldable pub may : Option ℕ → Pool → Bool
unfolding is_inside
may none p = true
may (some w) p = is_inside (place_of w p)

unfoldable pub go_to_test : ℕ → Place → Option Phase → Pool → Pool
go_to_test w in_round (some idle) p = record p { places = set p.places w at_test }
go_to_test w _ _ p = p

-- Behind the body of the loop.
unfoldable pub end_round : Event → Pool → Pool
unfolding go_to_test
end_round (puts_back w) p = go_to_test w (place_of w p) (phase_of w p.system) p
end_round _ p = p

unfoldable pub test_flag : ℕ → Place → Pool → Pool
test_flag w at_test p = record p {
  places = set p.places w (if get_or p.should_stop w false then gone else in_round);
}
test_flag w _ p = p

unfoldable pub move : Move → Pool → Pool
unfolding may end_round test_flag go_to_test
move (threads e) p =
    if may (worker_of e) p then end_round e (record p { system = step e p.system }) else p
move (finds_nothing w) p = go_to_test w (place_of w p) (phase_of w p.system) p
move (tests_flag w) p = test_flag w (place_of w p) p
move (signals w) p = record p { should_stop = set p.should_stop w true }

unfoldable pub run_moves : List Move → Pool → Pool
unfolding move
run_moves [] p = p
run_moves (m ∷ ms) p = run_moves ms (move m p)

-- The second loop of `stop` is through: every `join` has returned.
unfoldable pub all_gone : List Place → Bool
all_gone [] = true
all_gone (gone ∷ places) = all_gone places
all_gone (_ ∷ places) = false

unfoldable pub is_joined : Pool → Bool
unfolding all_gone
is_joined p = all_gone p.places
