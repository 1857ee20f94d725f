-- ===== src/Engine.antt =====
-- src/v8/engine.cc, and `FormatTryCatch` of src/v8/v8_helpers.cc: the life of the engine, and what a script
-- gives. V8 is outside: what it answers at each call is an argument. A text that V8 cannot make, and
-- `undefined`, are `none`.
pub mod Failures
mod Tests
use kode.Prelude.{
  ℕ, Bool, true, false, not, List, [], ◌∷◌, ◌++◌, Option, none, some, ◌==◌, ltb, if◌then◌else◌,
}
use kode.Text.{Bytes, codes, is_empty}
use kode.Text.Decimal.{to_string}

-- Whether `g_isolate`, `g_context` and `g_loop` are set.
pub record State : Type 0 where
  pub isolate : Bool
  pub context : Bool
  pub loop : Bool

abbrev pub fresh : State
fresh = record { isolate = false; context = false; loop = false }

-- `setEventLoop`.
unfoldable pub set_event_loop : State → State
set_event_loop s = record s { loop = true }

-- What V8 answers while the engine is set up: whether there is an isolate, the error of the
-- bootstrap, and whether the host's functions could be installed.
pub record Setup : Type 0 where
  pub isolate_made : Bool
  pub bootstrap_error : Option Bytes
  pub host_installed : Bool

install : State → Option Bytes → Bool → State × Option Bytes
install s (some error) host = (s, some error)
install s none false = (s, some (codes "Failed to install Kode host APIs"))
install s none true = (record s { context = true }, none)

-- `initialize`: the error, or none for true.
unfoldable pub initialize : Setup → State → State × Option Bytes
unfolding install
initialize v s =
    let (t, error) = install (record s { isolate = true }) v.bootstrap_error v.host_installed in
    if s.isolate
    then (s, none)
    else if not v.isolate_made
    then (s, some (codes "Failed to create V8 Isolate"))
    else (t, error)

-- `shutdown`.
unfoldable pub shutdown : State → State
shutdown s = if s.isolate then fresh else s

-- `PromiseResultToString`.
unfoldable pub to_text : Option Bytes → Bytes
to_text none = []
to_text (some text) = text

pub data PromiseState : Type 0 where
  pending : PromiseState
  fulfilled rejected : Option Bytes → PromiseState

-- The value of the script; a promise comes with its state after each turn of the event loop, for as
-- long as the loop is there and alive.
pub data Value : Type 0 where
  plain : Option Bytes → Value
  promise : PromiseState → List PromiseState → Value

-- The loop of `ResolveTopLevelPromise`.
unfoldable pub run_turns : PromiseState → List PromiseState → PromiseState
run_turns pending [] = pending
run_turns pending (state ∷ turns) = run_turns state turns
run_turns (fulfilled v) turns = fulfilled v
run_turns (rejected v) turns = rejected v

unfoldable pub settled_text : PromiseState → Bytes × Bytes
unfolding to_text
settled_text pending = ([], [])
settled_text (fulfilled v) = (to_text v, [])
settled_text (rejected v) =
    ([], if is_empty (to_text v) then codes "Promise rejected" else to_text v)

-- `ResolveTopLevelPromise`: the result and the error.
unfoldable pub resolve_top_level_promise : Value → Bytes × Bytes
unfolding run_turns settled_text to_text
resolve_top_level_promise (plain v) = (to_text v, [])
resolve_top_level_promise (promise state turns) = settled_text (run_turns state turns)

-- What a `TryCatch` holds: the script's name and the line of the message, if there is one, and the text
-- of the exception.
pub record Caught : Type 0 where
  pub message : Option (Bytes × ℕ)
  pub exception : Bytes

format_at : Bytes → ℕ → Bytes → Bytes
format_at file line text =
    if ltb 0 line
    then file ++ (codes ":" ++ (to_string line ++ (codes ": " ++ text)))
    else file ++ (codes ": " ++ text)

abbrev text_of : Bytes → Bytes
text_of exception = if is_empty exception then codes "JavaScript error" else exception

-- `FormatTryCatch`.
unfoldable pub format_try_catch : Bytes → Caught → Bytes
unfolding format_at
format_try_catch file c = elim c.message [
  | none ↦ format_at file 0 (text_of c.exception)
  | some (resource, line) ↦
      format_at (if is_empty resource then file else resource) line (text_of c.exception)
]

-- How far a script comes.
pub data Run : Type 0 where
  bad_source : Run
  not_compiled not_run : Caught → Run
  gives : Value → Run

unfoldable pub run_compiled : Bytes → Run → Bytes × Bytes
unfolding format_try_catch resolve_top_level_promise
run_compiled file bad_source = ([], codes "Failed to create V8 source string")
run_compiled file (not_compiled c) = ([], format_try_catch file c)
run_compiled file (not_run c) = ([], format_try_catch file c)
run_compiled file (gives v) = resolve_top_level_promise v

-- `runScript`, on a file's normalized name: the result and the error.
unfoldable pub run_script : State → Bytes → Run → Bytes × Bytes
unfolding run_compiled
run_script s file r = if s.isolate then run_compiled file r else ([], codes "V8 not initialized")
