-- ===== src/CommandLine/Whole.antt =====
-- src/main.cc, src/core/runtime.cc and src/v8/engine.cc put together: `main` with the engine of Engine.
use kode.Prelude.{
  ◌≡◌, refl, sym, ◌∙◌, ◌↔◌, Bool, true, false, List, ◌∷◌, Option, none, some, if◌then◌else◌,
}
use kode.Text.{Bytes, is_empty, c_string}
use kode.Paths.{normalize_path}
use kode.Runtime.Script.{is_disabled}
use kode.Engine
use kode.Engine.{Setup, State, fresh, set_event_loop, Run, run_script}
use kode.Engine.Failures.{works, run_compiled-is_empty}
use kode.CommandLine.{Surroundings, main, is_file_name}
use kode.CommandLine.Modes.{main_file}

-- Outside of the program: the directory, the value of KODE_USE_V8, the files, whether the concurrency
-- runtime starts, what V8 answers while it is set up, and how far it comes with a source under a name.
pub record World : Type 0 where
  pub here : Bytes
  pub use_v8 : Option Bytes
  pub files : Bytes → Option Bytes
  pub concurrency : Bool
  pub setup : Setup
  pub behaves : Bytes → Bytes → Run

-- The engine behind `Initialize`, which does not set it up where V8 is disabled.
unfoldable pub engine_state : World → State
engine_state w =
    if is_disabled w.use_v8 then fresh else (Engine.initialize w.setup (set_event_loop fresh)).0

-- What `main` finds in a build with V8, where `available` is true.
unfoldable pub surroundings : World → Surroundings
unfolding engine_state
surroundings w = record {
  engine = record {
    use_v8 = w.use_v8;
    available = true;
    run_script = λ source name.
        run_script (engine_state w) (normalize_path w.here name) (w.behaves (c_string source) name);
  };
  files = w.files;
  concurrency = w.concurrency;
  v8_error = (Engine.initialize w.setup (set_event_loop fresh)).1;
}

set_up_fields :
    (made : Bool) (error : Option Bytes) (host : Bool)
    → (let v : Setup = record {
      isolate_made = made;
      bootstrap_error = error;
      host_installed = host;
    } in
        (Engine.initialize v (set_event_loop fresh)).1 ≡ none
        → (Engine.initialize v (set_event_loop fresh)).0.isolate ≡ true)
unfolding Engine.initialize set_event_loop
set_up_fields false error host h = cc
set_up_fields true none true h = refl
set_up_fields true none false h = refl
set_up_fields true (some text) host h = refl

set_up_isolate :
    (v : Setup)
    → (Engine.initialize v (set_event_loop fresh)).1 ≡ none
    → (Engine.initialize v (set_event_loop fresh)).0.isolate ≡ true
set_up_isolate v h = set_up_fields v.isolate_made v.bootstrap_error v.host_installed h

-- The error of `runScript` is empty just when there is an isolate and the script works.
run_script-is_empty :
    (s : State) (file : Bytes) (r : Run)
    → s.isolate ≡ true
    → is_empty (run_script s file r).1 ≡ works r
unfolding run_script
run_script-is_empty s file r h = rw h (run_compiled-is_empty file r)

-- `kode` on the name of a script that can be read, with any arguments behind it, where V8 is set up
-- without an error: the exit code is 0 just when the concurrency runtime starts, KODE_USE_V8 is not 0,
-- and the script, up to its first zero byte, is compiled, runs, and gives no promise that is rejected.
pub main_script :
    (w : World) (program file source : Bytes) (rest : List Bytes)
    → is_file_name file ≡ true
    → w.files file ≡ some source
    → (Engine.initialize w.setup (set_event_loop fresh)).1 ≡ none
    → ((main (surroundings w) program (file ∷ rest)).1 ≡ 0) ↔ (
        (w.concurrency ≡ true)
        × (is_disabled w.use_v8 ≡ false)
        × (works (w.behaves (c_string source) file) ≡ true))
unfolding surroundings engine_state
main_script w program file source rest h f e =
    let exits = (main_file (surroundings w) program file source rest h f).1 in
    let isolate = set_up_isolate w.setup e in
    let same : is_disabled w.use_v8 ≡ false
        → is_empty
            (run_script (engine_state w) (normalize_path w.here file)
              (w.behaves (c_string source) file)).1
          ≡ works (w.behaves (c_string source) file) =
      λ d. run_script-is_empty (engine_state w) _ _ (rw d isolate) in
    (
      λ z. let (c, d, _, r) = exits.0 z in (c, d, sym (same d) ∙ r),
      λ x. let (c, d, r) = x in exits.1 (c, d, refl, same d ∙ r),
    )
