-- ===== src/Runtime/Tests.antt =====
-- The theorems of the runtime at concrete inputs.
use kode.Prelude.{
  length, ◌*◌, ◌≡◌, refl, ◌^◌, ◌-◌, count, extract, negsuc, inl, inr, true, false, List, [], ◌∷◌,
  All, map, arith, pos, none,
}
use kode.Text.{Bytes, codes, find, contains, starts_with}
use kode.Text.Decimal.{to_string_int}
use kode.Text.Avoids.{has_neither, has_neither-All, NoNewline-of}
use kode.Parser.Line.{is_callback_pattern, contains_any}
use kode.Parser.Line.Calls.{
  ApiCall, create_channel, send_to_channel, receive_from_channel, IsApiCall, source_of, yields,
  statement_of,
}
use kode.Parser.Clean.Lines.{unlines}
use kode.Parser.Program.{parse}
use kode.Parser.Program.Filter.{IsPlain}
use kode.Runtime.{Runtime, finished, prints}
use kode.Runtime.Pipeline.{relay, received, execute_all, execute-relay}
use kode.Runtime.Parsed.{execute_parsed}
use kode.Runtime.Script.{Engine}
use kode.Runtime.Timers
use kode.Runtime.Timers.Fired.{run_event_loop_lem}

abbrev values : List Bytes
values = codes "first job" ∷ codes "last job" ∷ []

one_line :
    (line : Bytes)
    → has_neither b'\n' b'\n' line ≡ true
    → contains (codes "=>") line ≡ false
    → contains (codes "function") line ≡ false
    → is_callback_pattern line ≡ false
    → IsPlain line
one_line line newline arrow word pattern_free = record {
  no_newline = NoNewline-of line (has_neither-All b'\n' b'\n' line newline);
  no_arrow = arrow;
  no_function = word;
  no_pattern = pattern_free;
}

abbrev calls : List ApiCall
calls = relay b'\'' (codes "jobs") 2 values

abbrev IsReadable : ApiCall → Type 0
IsReadable c = IsApiCall c × IsPlain (source_of c)

create_IsReadable : IsReadable (create_channel b'\'' (codes "jobs") (pos 2))
unfolding has_neither find starts_with is_callback_pattern contains_any to_string_int
create_IsReadable = (
  ((inl refl, has_neither-All b'\'' b'\\' (codes "jobs") refl), omega arith),
  one_line (source_of (create_channel b'\'' (codes "jobs") (pos 2))) refl refl refl refl,
)

receive_IsReadable : IsReadable (receive_from_channel b'\'' (codes "jobs"))
unfolding has_neither find starts_with is_callback_pattern contains_any
receive_IsReadable = (
  (inl refl, has_neither-All b'\'' b'\\' (codes "jobs") refl),
  one_line (source_of (receive_from_channel b'\'' (codes "jobs"))) refl refl refl refl,
)

first_IsReadable : IsReadable (send_to_channel b'\'' (codes "jobs") b'\'' (codes "first job"))
unfolding has_neither find starts_with is_callback_pattern contains_any
first_IsReadable = (
  (
    (inl refl, has_neither-All b'\'' b'\\' (codes "jobs") refl),
    (inl refl, has_neither-All b'\'' b'\\' (codes "first job") refl),
  ),
  one_line (source_of (send_to_channel b'\'' (codes "jobs") b'\'' (codes "first job"))) refl refl
      refl refl,
)

last_IsReadable : IsReadable (send_to_channel b'\'' (codes "jobs") b'\'' (codes "last job"))
unfolding has_neither find starts_with is_callback_pattern contains_any
last_IsReadable = (
  (
    (inl refl, has_neither-All b'\'' b'\\' (codes "jobs") refl),
    (inl refl, has_neither-All b'\'' b'\\' (codes "last job") refl),
  ),
  one_line (source_of (send_to_channel b'\'' (codes "jobs") b'\'' (codes "last job"))) refl refl
      refl refl,
)

calls-IsReadable : All IsReadable calls
calls-IsReadable = (
  create_IsReadable,
  (first_IsReadable, (last_IsReadable, (receive_IsReadable, (receive_IsReadable, tt)))),
)

abbrev empty_runtime : Runtime
empty_runtime = record { channels = []; concurrent = true; log = [] }

execute-relay_example :
    (after : Runtime) × (execute_all
        (λ path. [])
        (parse (unlines (map source_of calls)))
        empty_runtime
      ≡ finished after true)
    × (after.log ≡ received values)
unfolding find starts_with to_string_int
execute-relay_example =
    execute-relay (λ path. []) b'\'' (codes "jobs") 2 values empty_runtime refl (refl, (refl, tt))
      (inr (omega arith)) (omega arith) calls-IsReadable refl

unknown_type :
    execute_parsed (λ path. []) (statement_of yields)
    ≡ (prints (codes "[Parser] Unknown statement type") ∷ [], false)
unfolding execute_parsed
unknown_type = refl

abbrev echo_engine : Engine
echo_engine = record {
  use_v8 = none;
  available = true;
  run_script = λ source filename. (source, []);
}

abbrev two_timers : List Timers.Event
two_timers = Timers.sets (codes "a") (pos 5) ∷ Timers.sets (codes "b") (pos 1) ∷ Timers.fires 1 ∷ []

-- It calls back the timer that is left, and the handles of both.
abbrev the_rest : Timers.Timers → List Timers.Event
the_rest t = Timers.fires 0 ∷ Timers.closes 0 ∷ Timers.closes 0 ∷ []

run_event_loop_example :
    (count 0 (Timers.run_event_loop the_rest (Timers.run two_timers Timers.no_timers)).deleted ≡ 1)
    × (length (Timers.run_event_loop the_rest (Timers.run two_timers Timers.no_timers)).lines
        ≡ 2 * (Timers.run_event_loop the_rest (Timers.run two_timers Timers.no_timers)).made)
unfolding Timers.run_event_loop Timers.run Timers.step Timers.set_timeout Timers.on_timer
    Timers.on_close Timers.is_done extract
run_event_loop_example = run_event_loop_lem the_rest two_timers 0 refl (omega arith)

negative_delay : Timers.to_uint64 (negsuc 4) ≡ 2 ^ 64 - 5
unfolding Timers.to_uint64
negative_delay = refl
