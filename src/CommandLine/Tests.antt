-- ===== src/CommandLine/Tests.antt =====
-- Runs and witnesses of the command line.
use kode.Prelude.{
  All, ◌≢◌, leb, Bool, not, ◌&&◌, ◌==◌, arith, ◌≡◌, ◌↔◌, refl, true, false, List, [], ◌∷◌, none,
  some, if◌then◌else◌,
}
use kode.Text.{Bytes, c_string, codes, is_empty, equal}
use kode.Runtime.Script.{out, is_disabled, execute_string, execute_file}
use kode.CommandLine.{
  Surroundings, Step, invoked, prints, runs_event_loop, stops_concurrency, shuts_v8, closes_loop,
  main, read_arguments, initialize, is_file_name,
}
use kode.Engine
use kode.Engine.{gives, promise, pending, rejected}
use kode.Engine.Failures.{works}
use kode.CommandLine.Whole
use kode.CommandLine.Whole.{World, main_script}
use kode.CommandLine.Arguments.{seen_args, main_args}
use kode.CommandLine.Modes.{complains, main-complains, main_file}

-- V8 says the text of what it is given, or fails on no text.
abbrev surroundings : Surroundings
surroundings = record {
  engine = record {
    use_v8 = none;
    available = true;
    run_script = λ source name. if is_empty source then ([], codes "empty") else (source, []);
  };
  files = λ name. if equal name (codes "a.js") then some (codes "1+1") else none;
  concurrency = true;
  v8_error = none;
}

abbrev script_args : List Bytes
script_args = codes "a.js" ∷ codes "--help" ∷ []

script_run : main surroundings (codes "kode") script_args ≡ (
  invoked (codes "kode") (codes "a.js") (codes "--help" ∷ [])
      ∷ prints (out (codes "[ModernFS] Next-generation file system initialized"))
      ∷ prints (out (codes "1+1"))
      ∷ runs_event_loop
      ∷ stops_concurrency
      ∷ shuts_v8
      ∷ closes_loop
      ∷ [],
  0,
)
unfolding main equal is_disabled read_arguments initialize execute_string execute_file
script_run = refl

lone_e : (main surroundings (codes "kode") (codes "-e" ∷ [])).1 ≡ 1
unfolding main equal is_disabled read_arguments initialize
lone_e = refl

main-complains_example : complains (main surroundings (codes "kode") (codes "-e" ∷ [])).0 ≡ true
main-complains_example = main-complains surroundings (codes "kode") (codes "-e" ∷ []) lone_e

main_file_example :
    ((steps : List Step) × ((main surroundings (codes "kode") script_args).0
        ≡ invoked (codes "kode") (codes "a.js") (codes "--help" ∷ []) ∷ steps))
    × (((main surroundings (codes "kode") script_args).1 ≡ 0) ↔ (
        (surroundings.concurrency ≡ true)
        × (is_disabled surroundings.engine.use_v8 ≡ false)
        × (surroundings.engine.available ≡ true)
        × (is_empty (surroundings.engine.run_script (codes "1+1") (codes "a.js")).1 ≡ true)))
unfolding is_file_name equal
main_file_example =
    main_file surroundings (codes "kode") (codes "a.js") (codes "1+1") (codes "--help" ∷ []) refl
      refl

-- A script whose promise is rejected in the second turn.
abbrev world : World
world = record {
  here = codes "/home";
  use_v8 = none;
  files = λ name. if equal name (codes "a.js") then some (codes "later()") else none;
  concurrency = true;
  setup = record { isolate_made = true; bootstrap_error = none; host_installed = true };
  behaves = λ source name. gives (promise pending (pending ∷ rejected none ∷ []));
}

main_script_example : ((main (Whole.surroundings world) (codes "kode") script_args).1 ≡ 0) ↔ (
    (world.concurrency ≡ true)
    × (is_disabled world.use_v8 ≡ false)
    × (works (world.behaves (c_string (codes "later()")) (codes "a.js")) ≡ true))
unfolding is_file_name equal Engine.initialize Engine.set_event_loop
main_script_example =
    main_script world (codes "kode") (codes "a.js") (codes "later()") (codes "--help" ∷ []) refl
      refl refl

no_zero : Bytes → Bool
no_zero [] = true
no_zero (c ∷ s) = not (c == 0) && no_zero s

-- Each byte that is not ASCII becomes the replacement character.
replaced : Bytes → Bytes
replaced [] = []
replaced (c ∷ s) = let rest = replaced s in if leb 128 c then 239 ∷ 191 ∷ 189 ∷ rest else c ∷ rest

no_zero_lem : (s : Bytes) → no_zero s ≡ true → All (λ c. c ≢ 0) s
unfolding no_zero
no_zero_lem [] h = tt
no_zero_lem (c ∷ s) h = (ground (arith, h), no_zero_lem s (ground (arith, h)))

main_args_example :
    (seen_args replaced (main surroundings (codes "kode") script_args).0
      ≡ some (record {
        executable = codes "kode";
        script = some (codes "a.js");
        values = codes "--help" ∷ [];
      }))
    × (seen_args replaced
          (main surroundings (codes "kode") (codes "-e" ∷ codes "1" ∷ codes "--help" ∷ [])).0
        ≡ some (record { executable = codes "kode"; script = none; values = codes "--help" ∷ [] }))
unfolding is_file_name no_zero replaced
main_args_example =
    main_args replaced surroundings (codes "kode") (codes "a.js") (codes "1") (codes "--help" ∷ [])
      refl (no_zero_lem (codes "kode") refl, refl) (no_zero_lem (codes "a.js") refl, refl)
      ((no_zero_lem (codes "--help") refl, refl), tt)
