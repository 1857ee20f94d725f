-- ===== src/Runtime/Timers.antt =====
-- src/core/runtime.cc: `setTimeout`, `onTimer` and `RunEventLoop`. Which timer libuv calls back next, and when
-- it calls back a handle that was closed, are events.
pub mod Fired
use kode.Prelude.{
  ℕ, ◌+◌, ◌-◌, ◌^◌, ◌%◌, List, [], ◌∷◌, ◌++◌, Option, none, some, ℤ, pos, negsuc, extract, length,
  replicate, Bool, true, false,
}
use kode.Text.{Bytes, codes}
use kode.Text.Decimal.{to_string_int}

-- A timer with its `TimerData`; `due` is the argument of `uv_timer_start`.
pub record Timer : Type 0 where
  pub message : Bytes
  pub due : ℕ

-- The timers that run, the handles that are closed and not deleted yet, those deleted, and the lines on
-- `std::cout`. `made` is how often `setTimeout` was called.
pub record Timers : Type 0 where
  pub made : ℕ
  pub running : List (ℕ × Timer)
  pub closing : List (ℕ × Timer)
  pub deleted : List (ℕ × Timer)
  pub lines : List Bytes

abbrev pub no_timers : Timers
no_timers = record { made = 0; running = []; closing = []; deleted = []; lines = [] }

-- An `int` as `uint64_t`.
unfoldable pub to_uint64 : ℤ → ℕ
to_uint64 (pos n) = n % 2 ^ 64
to_uint64 (negsuc n) = 2 ^ 64 - 1 - n % 2 ^ 64

-- `setTimeout`.
unfoldable pub set_timeout : Bytes → ℤ → Timers → Timers
unfolding to_uint64
set_timeout message delay_ms t = record t {
  made = t.made + 1;
  running = t.running ++ (t.made, record { message = message; due = to_uint64 delay_ms }) ∷ [];
  lines =
      t.lines
      ++ (codes "Timer set for " ++ (to_string_int delay_ms ++ (codes "ms: " ++ message))) ∷ [];
}

-- `onTimer` of a timer that runs.
unfoldable pub on_timer : Option ((ℕ × Timer) × List (ℕ × Timer)) → Timers → Timers
on_timer none t = t
on_timer (some ((id, timer), rest)) t = record t {
  running = rest;
  closing = t.closing ++ (id, timer) ∷ [];
  lines = t.lines ++ (codes "Timer fired: " ++ timer.message) ∷ [];
}

-- The callback of `uv_close`.
unfoldable pub on_close : Option ((ℕ × Timer) × List (ℕ × Timer)) → Timers → Timers
on_close none t = t
on_close (some ((id, timer), rest)) t = record t {
  closing = rest;
  deleted = t.deleted ++ (id, timer) ∷ [];
}

pub data Event : Type 0 where
  sets : Bytes → ℤ → Event
  fires : ℕ → Event
  closes : ℕ → Event

unfoldable pub step : Event → Timers → Timers
unfolding set_timeout on_timer on_close
step (sets message delay_ms) t = set_timeout message delay_ms t
step (fires k) t = on_timer (extract k t.running) t
step (closes k) t = on_close (extract k t.closing) t

unfoldable pub run : List Event → Timers → Timers
unfolding step
run [] t = t
run (e ∷ es) t = run es (step e t)

none_left : List (ℕ × Timer) → List (ℕ × Timer) → Bool
none_left [] [] = true
none_left (x ∷ xs) closing = false
none_left [] (x ∷ xs) = false

-- No handle runs or closes.
unfoldable pub is_done : Timers → Bool
unfolding none_left
is_done t = none_left t.running t.closing

-- `RunEventLoop`. `uv_run` is outside: the callbacks that it makes, in its order, and the timers that
-- are set meanwhile.
unfoldable pub run_event_loop : (Timers → List Event) → Timers → Timers
unfolding run
run_event_loop uv_run t = run (uv_run t) t
