-- ===== src/CommandLine.antt =====
-- src/main.cc, and `Initialize` and `Shutdown` of src/core/runtime.cc: the command line of the runtime.
-- What the concurrency runtime, V8 and the files give is an argument; the order of what happens is a
-- list of steps.
pub mod Modes
pub mod Whole
pub mod Arguments
mod Tests
use kode.Prelude.{
  ℕ, Bool, true, false, ◌&&◌, ◌||◌, not, List, [], ◌∷◌, ◌++◌, Option, none, some, ◌==◌, map,
  if◌then◌else◌,
}
use kode.Text.{Bytes, codes, is_empty, equal}
use kode.Runtime.Script.{Output, out, err, Engine, execute_string, execute_file, is_disabled}

-- The variables that the loop over the arguments sets.
pub record Options : Type 0 where
  pub script : Bytes
  pub code : Bytes
  pub unknown : Bytes
  pub user_args : List Bytes
  pub execute_code : Bool
  pub show_demo : Bool
  pub show_help : Bool
  pub show_version : Bool
  pub unknown_option : Bool

abbrev pub no_options : Options
no_options = record {
  script = [];
  code = [];
  unknown = [];
  user_args = [];
  execute_code = false;
  show_demo = false;
  show_help = false;
  show_version = false;
  unknown_option = false;
}

-- `!arg.empty() && arg[0] != '-'`.
unfoldable pub is_file_name : Bytes → Bool
is_file_name [] = false
is_file_name (c ∷ arg) = not (c == b'-')

unfoldable pub read_plain : Bytes → List Bytes → Options
unfolding is_file_name
read_plain arg rest =
    if is_file_name arg
    then record no_options { script = arg; user_args = rest }
    else record no_options { unknown_option = true; unknown = arg }

-- `-e`, which wants an argument behind it.
unfoldable pub read_code : Bytes → List Bytes → Options
unfolding read_plain
read_code arg [] = read_plain arg []
read_code arg (code ∷ rest) =
    if equal arg (codes "-e")
    then record no_options { code = code; execute_code = true; user_args = rest }
    else read_plain arg (code ∷ rest)

-- The loop, on the arguments behind the program's name: each branch of its body leaves it.
unfoldable pub read_arguments : List Bytes → Options
unfolding read_code
read_arguments [] = record no_options { show_demo = true }
read_arguments (arg ∷ rest) =
    if equal arg (codes "-h") || equal arg (codes "--help")
    then record no_options { show_help = true }
    else if equal arg (codes "-v") || equal arg (codes "--version")
    then record no_options { show_version = true }
    else read_code arg rest

-- `concurrency` is what `concurrency_runtime->initialize()` returns, `v8_error` the message of a V8 that
-- cannot be set up.
pub record Surroundings : Type 0 where
  pub engine : Engine
  pub files : Bytes → Option Bytes
  pub concurrency : Bool
  pub v8_error : Option Bytes

pub data Step : Type 0 where
  invoked : Bytes → Bytes → List Bytes → Step
  prints : Output → Step
  runs_event_loop stops_concurrency shuts_v8 closes_loop : Step

unfoldable pub v8_started : Option Bytes → List Output
v8_started none = []
v8_started (some message) = err (codes "V8 init failed: " ++ message) ∷ []

abbrev initialized_files : Output
initialized_files = out (codes "[ModernFS] Next-generation file system initialized")

-- `Initialize`.
unfoldable pub initialize : Surroundings → List Output × Bool
unfolding v8_started is_disabled
initialize e =
    if not e.concurrency
    then (initialized_files ∷ err (codes "Failed to initialize concurrency runtime") ∷ [], false)
    else if not (is_disabled e.engine.use_v8) && e.engine.available
    then (initialized_files ∷ v8_started e.v8_error, true)
    else (initialized_files ∷ [], true)

-- `Shutdown`.
unfoldable pub shutdown : Surroundings → List Step
shutdown e =
    stops_concurrency
    ∷ (if e.engine.available then shuts_v8 ∷ closes_loop ∷ [] else closes_loop ∷ [])

unfoldable pub print_usage : Bytes → List Output
print_usage program =
    out (codes "Usage: " ++ (program ++ codes " [options] [script.js]"))
    ∷ out (codes "Options:")
    ∷ out (codes "  -h, --help     Show this help message")
    ∷ out (codes "  -v, --version  Show version information")
    ∷ out (codes "  -e <code>      Execute JavaScript code directly")
    ∷ out []
    ∷ out (codes "Examples:")
    ∷ out (codes "  " ++ (program ++ codes " script.js"))
    ∷ out (codes "  " ++ (program ++ codes " -e \"console.log('Hello World')\""))
    ∷ []

abbrev demo_code : Surroundings → Bytes → List Output
demo_code e source = (execute_string e.engine source (codes "script")).0

abbrev heading : Bytes → List Output
heading line = out line ∷ []

-- What the demo prints; the results of its scripts are not looked at.
unfoldable demo : Surroundings → Bytes → List Output
unfolding print_usage execute_string
demo e program =
    print_usage program
    ++ (heading []
        ++ (heading (codes "=== Demo Mode - Learning How Node.js Works ===")
            ++ (heading (codes "\n1. Synchronous operations:")
                ++ (demo_code e (codes "console.log('Hello from Kode!')")
                    ++ (demo_code e (codes "1 + 1")
                        ++ (heading (codes "\n2. Asynchronous operations (setTimeout):")
                            ++ (demo_code e (codes "setTimeout()")
                                ++ (heading (codes "\n3. File system operations:")
                                    ++ (heading (codes "   a) Synchronous file read (blocks):")
                                        ++ (demo_code e (codes "fs.readFileSync()")
                                            ++ (heading (
                                                  codes
                                                    "\n   b) Asynchronous file read (non-blocking):")
                                                ++ (demo_code e (codes "fs.readFile()")
                                                    ++ (heading
                                                          (codes "\n   c) Asynchronous file write:")
                                                        ++ demo_code e
                                                            (codes "fs.writeFile()"))))))))))))))

abbrev version : List Output
version =
    out (codes "Kode Runtime v0.1.0")
    ∷ out (codes "Learning JavaScript runtime built with libuv")
    ∷ out (codes "Modular architecture: Core + Parser + FileSystem + Examples")
    ∷ []

-- The branches behind `Initialize`: what is printed, and `success`.
unfoldable pub dispatch : Surroundings → Bytes → Options → List Output × Bool
unfolding demo print_usage execute_string execute_file
dispatch e program o =
    if o.show_demo
    then (demo e program, true)
    else if o.show_help
    then (print_usage program, true)
    else if o.show_version
    then (version, true)
    else if o.execute_code
    then execute_string e.engine o.code (codes "command-line")
    else if not (is_empty o.script)
    then execute_file e.engine e.files o.script
    else if o.unknown_option
    then (err (codes "Unknown option: " ++ o.unknown) ∷ print_usage program, false)
    else ([], true)

-- The end of `main`, with the exit code.
unfoldable pub run : Surroundings → Bytes → Options → List Output → Bool → List Step × ℕ
unfolding dispatch shutdown
run e program o printed false =
    (map prints (printed ++ err (codes "Failed to initialize runtime") ∷ []), 1)
run e program o printed true =
    let (output, success) = dispatch e program o in
    (map prints (printed ++ output) ++ runs_event_loop ∷ shutdown e, if success then 0 else 1)

-- `main`, with the arguments behind the program's name.
unfoldable pub main : Surroundings → Bytes → List Bytes → List Step × ℕ
unfolding run read_arguments initialize
main e program args =
    let o = read_arguments args in
    let (printed, initialized) = initialize e in
    let (steps, code) = run e program o printed initialized in
    (invoked program o.script o.user_args ∷ steps, code)
