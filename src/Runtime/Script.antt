-- ===== src/Runtime/Script.antt =====
-- src/core/runtime.cc: `ExecuteString` and `ExecuteFile`. V8 is outside: whether it is there, and what a
-- script gives (a result and an error text), are arguments, and so are the environment and the files.
use kode.Prelude.{
  ◌≡◌, ◌↔◌, Bool, true, false, not, List, [], ◌∷◌, Option, none, some, arith, ◌++◌, if◌then◌else◌,
}
use kode.Text.{Bytes, codes, is_empty, equal}

-- A line for `std::cout`, or for `std::cerr`.
pub data Output : Type 0 where
  out err : Bytes → Output

-- The value of KODE_USE_V8, `available`, and `runScript`.
pub record Engine : Type 0 where
  pub use_v8 : Option Bytes
  pub available : Bool
  pub run_script : Bytes → Bytes → Bytes × Bytes

unfoldable pub is_disabled : Option Bytes → Bool
is_disabled none = false
is_disabled (some value) = equal value (codes "0")

-- Behind `runScript`.
unfoldable pub show_result : Bytes → Bytes → List Output × Bool
show_result result error =
    if not (is_empty error)
    then (err (codes "[V8] Error: " ++ error) ∷ [], false)
    else if not (is_empty result)
    then (out result ∷ [], true)
    else ([], true)

unfoldable pub execute_string : Engine → Bytes → Bytes → List Output × Bool
unfolding is_disabled show_result
execute_string engine source filename =
    let (result, error) = engine.run_script source filename in
    if is_disabled engine.use_v8
    then (err (codes "V8 is required for JavaScript execution") ∷ [], false)
    else if not engine.available
    then (err (codes "V8 is required for JavaScript execution") ∷ [], false)
    else show_result result error

unfoldable pub execute_source : Engine → Bytes → Option Bytes → List Output × Bool
unfolding execute_string
execute_source engine filename none = (err (codes "Cannot open file: " ++ filename) ∷ [], false)
execute_source engine filename (some source) = execute_string engine source filename

-- With the files as a function.
unfoldable pub execute_file : Engine → (Bytes → Option Bytes) → Bytes → List Output × Bool
unfolding execute_source
execute_file engine files filename = execute_source engine filename (files filename)

-- A file runs with success just when V8 is not disabled, is there, and gives no error for the text of
-- the file.
pub execute_file-true :
    (engine : Engine) (files : Bytes → Option Bytes) (filename source : Bytes)
    → files filename ≡ some source
    → ((execute_file engine files filename).1 ≡ true) ↔ (
        (is_disabled engine.use_v8 ≡ false)
        × (engine.available ≡ true)
        × (is_empty (engine.run_script source filename).1 ≡ true))
unfolding execute_file show_result
execute_file-true engine files filename source e = rw e (ground arith)
