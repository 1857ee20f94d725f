-- ===== src/Host/Timeout.antt =====
-- src/v8/kode_host.cc: `Kode.timeout` of the script of `InstallKodeRuntimeBootstrap`. What a script does with
-- the signal is a list of events; a script that writes to `aborted` or `reason` itself is left out.
pub mod Aborts
mod Tests
use kode.Prelude.{ℕ, Bool, true, false, List, [], ◌∷◌, ◌++◌, Option, none, some, if◌then◌else◌}
use kode.Text.{Bytes, codes}
use kode.Host.Scope.{RuntimeError}

-- The argument: no number, a negative one, 0, or any other, also NaN.
pub data Delay : Type 0 where
  no_number negative zero_ms other_ms : Delay

-- `signal`. `onabort` says whether it holds a function, and `calls` are the reasons that it was called with.
pub record Signal : Type 0 where
  pub aborted : Bool
  pub reason : Option RuntimeError
  pub onabort : Bool
  pub calls : List RuntimeError

abbrev pub fresh : Signal
fresh = record { aborted = false; reason = none; onabort = false; calls = [] }

abbrev pub cancelled : RuntimeError
cancelled = record {
  code = codes "ECANCELED";
  message = codes "Operation cancelled";
  operation = codes "Kode.timeout";
}

-- `abort`. What a handler does with the signal comes after its call.
unfoldable pub abort : Signal → Signal
abort s = if s.aborted then s else record s {
  aborted = true;
  reason = some cancelled;
  calls = if s.onabort then s.calls ++ cancelled ∷ [] else s.calls;
}

pub data Made : Type 0 where
  throws : RuntimeError → Made
  makes : Signal → Made

abbrev bad_delay : RuntimeError
bad_delay = record {
  code = codes "EINVAL";
  message = codes "Kode.timeout requires a non-negative number";
  operation = codes "Kode.timeout";
}

-- `Kode.timeout`.
unfoldable pub timeout : Delay → Made
unfolding abort
timeout no_number = throws bad_delay
timeout negative = throws bad_delay
timeout zero_ms = makes (abort fresh)
timeout other_ms = makes fresh

pub data Event : Type 0 where
  sets_onabort : Bool → Event
  cancels : Event

unfoldable pub step : Event → Signal → Signal
unfolding abort
step (sets_onabort is_function) s = record s { onabort = is_function }
step cancels s = abort s

unfoldable pub run : List Event → Signal → Signal
unfolding step
run [] s = s
run (e ∷ es) s = run es (step e s)
