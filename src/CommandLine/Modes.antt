-- ===== src/CommandLine/Modes.antt =====
-- What a run of `main` does for a command line.
use kode.Prelude.{
  ℕ, ◌+◌, ◌≡◌, ◌↔◌, refl, ap, Bool, true, false, not, List, [], ◌∷◌, ◌++◌, Option, none, some, map,
  arith,
}
use kode.Text.{Bytes, codes, is_empty, equal}
use kode.Runtime.Script.{
  Output, out, err, Engine, execute_string, execute_source, execute_file, show_result, is_disabled,
  execute_file-true,
}
use kode.CommandLine.{
  Options, no_options, is_file_name, read_plain, read_code, read_arguments, Surroundings, Step,
  invoked, prints, runs_event_loop, initialize, shutdown, dispatch, run, main,
}

abbrev pub flag : Bool → ℕ
flag true = 1
flag false = 0

-- The arguments choose one of the six modes, and only one.
pub read_arguments_one_mode :
    (args : List Bytes)
    → (let o = read_arguments args in
        flag o.show_demo
        + flag o.show_help
        + flag o.show_version
        + flag o.execute_code
        + flag (not (is_empty o.script))
        + flag o.unknown_option)
      ≡ 1
unfolding read_arguments read_code read_plain is_file_name
read_arguments_one_mode [] = refl
read_arguments_one_mode ([] ∷ []) = ground arith
read_arguments_one_mode ([] ∷ code ∷ rest) = ground arith
read_arguments_one_mode ((c ∷ arg) ∷ []) = ground arith
read_arguments_one_mode ((c ∷ arg) ∷ code ∷ rest) = ground arith

-- Whether a line was written to `std::cerr`.
unfoldable pub complains : List Step → Bool
complains [] = false
complains (prints (err line) ∷ steps) = true
complains (step ∷ steps) = complains steps

complains-append :
    (xs : List Output) (ys : List Step)
    → complains ys ≡ true
    → complains (map prints xs ++ ys) ≡ true
unfolding complains
complains-append [] ys h = h
complains-append (out line ∷ xs) ys h = complains-append xs ys h
complains-append (err line ∷ xs) ys h = refl

complains-map :
    (xs ys : List Output) (zs : List Step)
    → complains (map prints ys) ≡ true
    → complains (map prints (xs ++ ys) ++ zs) ≡ true
unfolding complains
complains-map [] [] zs h = absurd (ground arith)
complains-map [] (out line ∷ ys) zs h = complains-map [] ys zs h
complains-map [] (err line ∷ ys) zs h = refl
complains-map (out line ∷ xs) ys zs h = complains-map xs ys zs h
complains-map (err line ∷ xs) ys zs h = refl

show_result-complains :
    (result error : Bytes)
    → (show_result result error).1 ≡ false
    → complains (map prints (show_result result error).0) ≡ true
unfolding complains show_result
show_result-complains result error h = ground arith

execute_string-complains :
    (engine : Engine) (source name : Bytes)
    → (execute_string engine source name).1 ≡ false
    → complains (map prints (execute_string engine source name).0) ≡ true
unfolding complains execute_string
execute_string-complains engine source name h = ground (
  arith,
  show_result-complains (engine.run_script source name).0 (engine.run_script source name).1,
)

execute_file-complains :
    (engine : Engine) (files : Bytes → Option Bytes) (name : Bytes)
    → (execute_file engine files name).1 ≡ false
    → complains (map prints (execute_file engine files name).0) ≡ true
unfolding execute_file complains
execute_file-complains engine files name h = go (files name) h
  where
    go :
        (text : Option Bytes)
        → (execute_source engine name text).1 ≡ false
        → complains (map prints (execute_source engine name text).0) ≡ true
    go none k = refl
    go (some source) k = execute_string-complains engine source name k

dispatch-complains :
    (e : Surroundings) (program : Bytes) (o : Options)
    → (dispatch e program o).1 ≡ false
    → complains (map prints (dispatch e program o).0) ≡ true
unfolding dispatch complains
dispatch-complains e program o h = ground (
  arith,
  execute_string-complains e.engine o.code (codes "command-line"),
  execute_file-complains e.engine e.files o.script,
)

complains_end :
    (xs : List Output) (line : Bytes) → complains (map prints (xs ++ err line ∷ [])) ≡ true
unfolding complains
complains_end [] line = refl
complains_end (out other ∷ xs) line = complains_end xs line
complains_end (err other ∷ xs) line = refl

run-complains :
    (e : Surroundings) (program : Bytes) (o : Options) (printed : List Output) (b : Bool)
    → (run e program o printed b).1 ≡ 1
    → complains (run e program o printed b).0 ≡ true
unfolding run
run-complains e program o printed false h = complains_end printed _
run-complains e program o printed true h =
    complains-map printed _ _ (dispatch-complains e program o (ground arith))

-- A run of `main` that exits with 1 has written a line to `std::cerr`.
pub main-complains :
    (e : Surroundings) (program : Bytes) (args : List Bytes)
    → (main e program args).1 ≡ 1
    → complains (main e program args).0 ≡ true
unfolding main complains
main-complains e program args h = run-complains e program (read_arguments args) _ _ h

initialize-true : (e : Surroundings) → e.concurrency ≡ true → (initialize e).1 ≡ true
unfolding initialize
initialize-true e h = ground arith

run_drains :
    (e : Surroundings) (program : Bytes) (o : Options) (printed : List Output) (b : Bool)
    → b ≡ true
    → (output : List Output) × ((run e program o printed b).0
        ≡ map prints output ++ runs_event_loop ∷ shutdown e)
unfolding run
run_drains e program o printed true h = (printed ++ (dispatch e program o).0, refl)
run_drains e program o printed false h = absurd (ground arith)

-- Once the concurrency runtime has started, every run of `main` hands over the script and its
-- arguments first, and ends by running the event loop and then shutting down; between, it only prints.
pub main_drains :
    (e : Surroundings) (program : Bytes) (args : List Bytes)
    → e.concurrency ≡ true
    → (output : List Output) × ((main e program args).0
        ≡ invoked program (read_arguments args).script (read_arguments args).user_args
          ∷ (map prints output ++ runs_event_loop ∷ shutdown e))
unfolding main
main_drains e program args h =
    let o = read_arguments args in
    let (output, q) = run_drains e program o _ _ (initialize-true e h) in
    (output, ap (◌∷◌ (invoked program o.script o.user_args)) q)

abbrev pub for_script : Bytes → List Bytes → Options
for_script file rest = record no_options { script = file; user_args = rest }

pub read_arguments_script :
    (file : Bytes) (rest : List Bytes)
    → is_file_name file ≡ true
    → read_arguments (file ∷ rest) ≡ for_script file rest
unfolding read_arguments read_code read_plain is_file_name equal
read_arguments_script [] rest h = absurd (ground arith)
read_arguments_script (c ∷ file) [] h = ground arith
read_arguments_script (c ∷ file) (code ∷ rest) h = ground arith

dispatch_script :
    (e : Surroundings) (program file : Bytes) (rest : List Bytes)
    → is_file_name file ≡ true
    → dispatch e program (for_script file rest) ≡ execute_file e.engine e.files file
unfolding dispatch is_file_name
dispatch_script e program [] rest h = absurd (ground arith)
dispatch_script e program (c ∷ file) rest h = refl

run_zero :
    (e : Surroundings) (program : Bytes) (o : Options) (printed : List Output) (b : Bool)
    → ((run e program o printed b).1 ≡ 0) ↔ ((b ≡ true) × ((dispatch e program o).1 ≡ true))
unfolding run
run_zero e program o printed true = ground arith
run_zero e program o printed false = ground arith

initialize_iff : (e : Surroundings) → (initialize e).1 ≡ e.concurrency
unfolding initialize
initialize_iff e = ground arith

-- A run of `main` on the name of a file that can be read exits with 0 just when the concurrency runtime
-- starts, V8 is not disabled and there, and V8 gives no error for the text of the file; the script is
-- handed over with all that follows its name for arguments, options included.
pub main_file :
    (e : Surroundings) (program file source : Bytes) (rest : List Bytes)
    → is_file_name file ≡ true
    → e.files file ≡ some source
    → ((steps : List Step) × ((main e program (file ∷ rest)).0 ≡ invoked program file rest ∷ steps))
      × (((main e program (file ∷ rest)).1 ≡ 0) ↔ (
          (e.concurrency ≡ true)
          × (is_disabled e.engine.use_v8 ≡ false)
          × (e.engine.available ≡ true)
          × (is_empty (e.engine.run_script source file).1 ≡ true)))
unfolding main
main_file e program file source rest h f =
    let r = read_arguments_script file rest h in
    let d = dispatch_script e program file rest h in
    let z = run_zero e program (read_arguments (file ∷ rest)) (initialize e).0 (initialize e).1 in
    let x = execute_file-true e.engine e.files file source f in
    let d' : (dispatch e program (read_arguments (file ∷ rest))).1
        ≡ (execute_file e.engine e.files file).1 =
      rw r (ap (λ p. p.1) d) in
    let steps =
      (run e program (read_arguments (file ∷ rest)) (initialize e).0 (initialize e).1).0 in
    (
      (steps, ap (λ (o : Options). invoked program o.script o.user_args ∷ steps) r),
      ground (arith, z, x, d', initialize_iff e),
    )
