-- ===== src/Scheduler/Timeout.antt =====
-- src/concurrency/task.cc: `ConcurrencyRuntime::with_timeout`, the task and its watchdog. They share two
-- atomic flags; each round of the watchdog's test and of its sleep is a step, and so is the end of the task
-- with all that its handler does. The time that has gone by at a step is an argument.
use kode.Prelude.{
  ℕ, ◌+◌, ◌≡◌, refl, inl, inr, Bool-cases, Bool, true, false, not, ◌||◌, List, [], ◌∷◌, arith, ltb,
  if◌then◌else◌,
}

-- Where the loop of the watchdog stands: at the test of `completed`, in its sleep, or behind.
pub data Phase : Type 0 where
  testing sleeping over : Phase

-- `cancels` counts the calls of `cancel_task`, `complaints` the exceptions that the task reports.
pub record Watch : Type 0 where
  pub completed : Bool
  pub timed_out : Bool
  pub phase : Phase
  pub cancels : ℕ
  pub complaints : ℕ

-- The body of the task returns or throws; the watchdog tests, or wakes from its sleep at a time.
pub data Tick : Type 0 where
  returns throws tests : Tick
  wakes : ℕ → Tick

-- The loop's test.
unfoldable pub test : Phase → Watch → Watch
test testing w = if w.completed then record w { phase = over } else record w { phase = sleeping }
test sleeping w = w
test over w = w

-- The rest of the loop's body.
unfoldable pub wake : ℕ → ℕ → Phase → Watch → Watch
wake timeout elapsed testing w = w
wake timeout elapsed sleeping w =
    if ltb timeout elapsed
    then record w { timed_out = true; cancels = w.cancels + 1; phase = over }
    else record w { phase = testing }
wake timeout elapsed over w = w

-- One step, of the task or of the watchdog.
unfoldable pub tick : ℕ → Tick → Watch → Watch
unfolding test wake
tick timeout returns w = record w { completed = true }
tick timeout throws w = record w {
  completed = true;
  complaints = if w.timed_out then w.complaints else w.complaints + 1;
}
tick timeout tests w = test w.phase w
tick timeout (wakes elapsed) w = wake timeout elapsed w.phase w

unfoldable pub watch : ℕ → List Tick → Watch → Watch
unfolding tick
watch timeout [] w = w
watch timeout (t ∷ ts) w = watch timeout ts (tick timeout t w)

abbrev pub armed : Watch
armed = record {
  completed = false;
  timed_out = false;
  phase = testing;
  cancels = 0;
  complaints = 0;
}

-- Whether the watchdog ever woke when the time was over.
unfoldable pub is_late : ℕ → List Tick → Bool
is_late timeout [] = false
is_late timeout (wakes elapsed ∷ ts) = ltb timeout elapsed || is_late timeout ts
is_late timeout (returns ∷ ts) = is_late timeout ts
is_late timeout (throws ∷ ts) = is_late timeout ts
is_late timeout (tests ∷ ts) = is_late timeout ts

abbrev pub count : Bool → ℕ
count true = 1
count false = 0

-- The cancellation goes with the flag, and ends the watchdog.
record IsHonest (w : Watch) : Type 0 where
  counted : w.cancels ≡ count w.timed_out
  ended : w.timed_out ≡ true → w.phase ≡ over

test-IsHonest : (p : Phase) (w : Watch) → w.phase ≡ p → IsHonest w → IsHonest (test p w)
unfolding test
test-IsHonest testing w e h = ground (arith, h.counted, h.ended)
test-IsHonest sleeping w e h = h
test-IsHonest over w e h = h

wake-IsHonest :
    (timeout elapsed : ℕ) (p : Phase) (w : Watch)
    → w.phase ≡ p
    → IsHonest w
    → IsHonest (wake timeout elapsed p w)
unfolding wake
wake-IsHonest timeout elapsed testing w e h = h
wake-IsHonest timeout elapsed sleeping w e h = ground (arith, h.counted, h.ended)
wake-IsHonest timeout elapsed over w e h = h

tick-IsHonest : (timeout : ℕ) (t : Tick) (w : Watch) → IsHonest w → IsHonest (tick timeout t w)
unfolding tick
tick-IsHonest timeout returns w h = record { counted = h.counted; ended = h.ended }
tick-IsHonest timeout throws w h = record { counted = h.counted; ended = h.ended }
tick-IsHonest timeout tests w h = test-IsHonest w.phase w refl h
tick-IsHonest timeout (wakes elapsed) w h = wake-IsHonest timeout elapsed w.phase w refl h

watch-IsHonest :
    (timeout : ℕ) (ts : List Tick) (w : Watch) → IsHonest w → IsHonest (watch timeout ts w)
unfolding watch
watch-IsHonest timeout [] w h = h
watch-IsHonest timeout (t ∷ ts) w h = watch-IsHonest timeout ts _ (tick-IsHonest timeout t w h)

test-timed_out : (p : Phase) (w : Watch) → (test p w).timed_out ≡ w.timed_out
unfolding test
test-timed_out testing w = ground arith
test-timed_out sleeping w = refl
test-timed_out over w = refl

wake-timed_out :
    (timeout elapsed : ℕ) (p : Phase) (w : Watch)
    → (wake timeout elapsed p w).timed_out ≡ true
    → (w.timed_out || ltb timeout elapsed) ≡ true
unfolding wake
wake-timed_out timeout elapsed testing w h = ground (arith, h)
wake-timed_out timeout elapsed sleeping w h = ground (arith, h)
wake-timed_out timeout elapsed over w h = ground (arith, h)

-- The flag is set only by a wake-up that is late.
watch-timed_out :
    (timeout : ℕ) (ts : List Tick) (w : Watch)
    → (watch timeout ts w).timed_out ≡ true
    → (w.timed_out || is_late timeout ts) ≡ true
unfolding watch tick is_late
watch-timed_out timeout [] w h = ground (arith, h)
watch-timed_out timeout (returns ∷ ts) w h = watch-timed_out timeout ts _ h
watch-timed_out timeout (throws ∷ ts) w h = watch-timed_out timeout ts _ h
watch-timed_out timeout (tests ∷ ts) w h =
    rw (test-timed_out w.phase w) at (watch-timed_out timeout ts _ h)
watch-timed_out timeout (wakes elapsed ∷ ts) w h =
    let later = watch-timed_out timeout ts _ h in
    ground (arith, later, wake-timed_out timeout elapsed w.phase w)

-- How the body of the task ends.
unfoldable pub end_of : Bool → Tick
end_of true = returns
end_of false = throws

ends_over :
    (timeout elapsed : ℕ) (well : Bool) (p : Phase) (completed timed_out : Bool)
    (cancels complaints : ℕ)
    → (watch timeout (end_of well ∷ tests ∷ wakes elapsed ∷ tests ∷ []) (record {
      completed = completed;
      timed_out = timed_out;
      phase = p;
      cancels = cancels;
      complaints = complaints;
    })).phase
      ≡ over
unfolding watch tick test wake end_of
ends_over timeout elapsed true testing c t n m = refl
ends_over timeout elapsed false testing c t n m = refl
ends_over timeout elapsed true over c t n m = refl
ends_over timeout elapsed false over c t n m = refl
ends_over timeout elapsed true sleeping c t n m = elim (Bool-cases (ltb timeout elapsed)) [
  | inl e ↦ rw e refl
  | inr e ↦ rw e refl
]
ends_over timeout elapsed false sleeping c t n m = elim (Bool-cases (ltb timeout elapsed)) [
  | inl e ↦ rw e refl
  | inr e ↦ rw e refl
]

-- Whatever the task and its watchdog do, in whatever order: the task is cancelled once if the timeout was
-- noticed and not at all otherwise; it is noticed only where the watchdog woke after the time; and once
-- the task has returned or thrown, the watchdog ends within one more round.
pub watch_lem :
    (timeout elapsed : ℕ) (ts : List Tick) (well : Bool)
    → (let w = watch timeout ts armed in
        (w.cancels ≡ count w.timed_out)
        × ((not w.timed_out || is_late timeout ts) ≡ true)
        × ((watch timeout (end_of well ∷ tests ∷ wakes elapsed ∷ tests ∷ []) w).phase ≡ over))
watch_lem timeout elapsed ts well =
    let w = watch timeout ts armed in
    let honest =
      watch-IsHonest timeout ts armed
        (record { counted = refl; ended = λ e. absurd (ground (arith, e)) }) in
    (
      honest.counted,
      ground (arith, watch-timed_out timeout ts armed),
      ends_over timeout elapsed well w.phase w.completed w.timed_out w.cancels w.complaints,
    )
