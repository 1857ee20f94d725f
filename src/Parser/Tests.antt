-- ===== src/Parser/Tests.antt =====
-- The parser's theorems at concrete inputs.
use kode.Prelude.{◌≡◌, refl, inl, inr, false, List, [], ◌∷◌, map, All, pos, arith, ◌==◌}
use kode.Text.{Bytes, codes, find, starts_with}
use kode.Text.Avoids.{has_neither, has_neither-All, NoNewline-of}
use kode.Parser.Clean.{is_blank, remove_comments}
use kode.Parser.Clean.Comments.{strip_comments, remove_comments-strip_comments}
use kode.Parser.Clean.Lines.{unlines}
use kode.Parser.Arguments.{extract_function_arguments}
use kode.Parser.Arguments.Written.{Argument, literal, word, IsWritable, is_special}
use kode.Parser.Arguments.RoundTrip.{call, extract_function_arguments-call}
use kode.Parser.Line.{is_callback_pattern, contains_any}
use kode.Parser.Line.Calls.{
  ApiCall, spawns, send_to_channel, with_timeout_ms, IsApiCall, source_of, statement_of,
}
use kode.Parser.Line.Kinds.{is_console_error}
use kode.Parser.Program.{parse}
use kode.Parser.Program.Filter.{IsPlain, parse-no_error, parse-calls}

abbrev greeting : Bytes
greeting = codes "console.log('hi'); // greets"

remove_comments-strip_comments_example : remove_comments greeting ≡ strip_comments false greeting
remove_comments-strip_comments_example = remove_comments-strip_comments greeting

abbrev send_arguments : List Argument
send_arguments = literal b'\'' (codes "a, b)") ∷ word (codes "12") ∷ []

abbrev spawn_call : ApiCall
spawn_call = spawns b'\'' (codes "work()")

abbrev send_call : ApiCall
send_call = send_to_channel b'\'' (codes "jobs") b'"' (codes "first one")

abbrev timed_call : ApiCall
timed_call = with_timeout_ms (pos 250) b'`' (codes "work()")

send_name : All (λ c. (c == b'(') ≡ false) (codes "sendToChannel")
send_name = (
  refl,
  (
    refl,
    (refl, (refl, (refl, (refl, (refl, (refl, (refl, (refl, (refl, (refl, (refl, tt))))))))))),
  ),
)

send_arguments-All : All IsWritable send_arguments
unfolding has_neither is_special is_blank
send_arguments-All = (
  (inl refl, has_neither-All b'\'' b'\\' (codes "a, b)") refl),
  (((λ e. cc), (refl, (refl, tt))), tt),
)

extract_function_arguments-call_example :
    extract_function_arguments (call (codes "sendToChannel") send_arguments)
    ≡ codes "'a, b)'" ∷ codes "12" ∷ []
extract_function_arguments-call_example =
    extract_function_arguments-call (codes "sendToChannel") send_arguments send_name
      send_arguments-All

timed_call-IsApiCall : IsApiCall timed_call
unfolding has_neither
timed_call-IsApiCall =
    (omega arith, (inr (inr refl), has_neither-All b'`' b'\\' (codes "work()") refl))

parse-no_error_example :
    All (λ stmt. is_console_error stmt.type ≡ false) (parse (codes "console.error('lost')"))
parse-no_error_example = parse-no_error (codes "console.error('lost')")

abbrev program : List ApiCall
program = spawn_call ∷ send_call ∷ []

spawn_call-IsPlain : IsPlain (source_of spawn_call)
unfolding has_neither find starts_with is_callback_pattern contains_any
spawn_call-IsPlain = record {
  no_newline =
      NoNewline-of (source_of spawn_call) (has_neither-All b'\n' b'\n' (source_of spawn_call) refl);
  no_arrow = refl;
  no_function = refl;
  no_pattern = refl;
}

send_call-IsPlain : IsPlain (source_of send_call)
unfolding has_neither find starts_with is_callback_pattern contains_any
send_call-IsPlain = record {
  no_newline =
      NoNewline-of (source_of send_call) (has_neither-All b'\n' b'\n' (source_of send_call) refl);
  no_arrow = refl;
  no_function = refl;
  no_pattern = refl;
}

program-All : All (λ c. IsApiCall c × IsPlain (source_of c)) program
unfolding has_neither
program-All = (
  ((inl refl, has_neither-All b'\'' b'\\' (codes "work()") refl), spawn_call-IsPlain),
  (
    (
      (
        (inl refl, has_neither-All b'\'' b'\\' (codes "jobs") refl),
        (inr (inl refl), has_neither-All b'"' b'\\' (codes "first one") refl),
      ),
      send_call-IsPlain,
    ),
    tt,
  ),
)

parse-calls_example : parse (unlines (map source_of program)) ≡ map statement_of program
unfolding find starts_with
parse-calls_example = parse-calls program program-All refl
