-- ===== src/CommandLine/Arguments.antt =====
-- src/v8/kode_host.cc and src/core/runtime.cc: `Kode.args`, from the command line to the object that a
-- script sees.
use kode.Prelude.{
  true, false, ◌≡◌, ◌≢◌, refl, ap, ◌∙◌, List, [], ◌∷◌, Option, none, some, map, All, arith,
  if◌then◌else◌,
}
use kode.Text.{Bytes, codes, is_empty, equal, c_string, v8_string}
use kode.CommandLine.{
  Options, Surroundings, Step, invoked, no_options, is_file_name, read_arguments, read_code, main,
}
use kode.CommandLine.Modes.{read_arguments_script}

pub record Args : Type 0 where
  pub executable : Bytes
  pub script : Option Bytes
  pub values : List Bytes

-- `InstallKodeHostApis`, with the `RuntimeOptions`: an empty script is undefined. `from_utf8` is what
-- `NewFromUtf8` makes of a text, as the UTF-8 bytes of the string.
unfoldable pub install_args : (Bytes → Bytes) → Bytes → Bytes → List Bytes → Args
install_args from_utf8 executable script args = record {
  executable = from_utf8 (v8_string executable);
  script = if is_empty script then none else some (from_utf8 (v8_string script));
  values = map (λ arg. from_utf8 (v8_string arg)) args;
}

-- `setRuntimeOptions` in `Initialize`, with what `SetInvocation` was told.
unfoldable pub seen_args : (Bytes → Bytes) → List Step → Option Args
unfolding install_args
seen_args from_utf8 (invoked executable script args ∷ steps) =
    some (install_args from_utf8 executable script args)
seen_args from_utf8 _ = none

-- An argument of a process has no zero byte; where it is UTF-8, V8 takes it as it is.
abbrev pub IsArgument : (Bytes → Bytes) → Bytes → Type 0
IsArgument from_utf8 s = All (λ c. c ≢ 0) s × (from_utf8 s ≡ s)

if_file_name : (file : Bytes) → is_file_name file ≡ true → is_empty file ≡ false
unfolding is_file_name
if_file_name [] h = absurd (ground (arith, h))
if_file_name (c ∷ file) h = refl

v8_string-whole : (s : Bytes) → All (λ c. c ≢ 0) s → v8_string s ≡ s
unfolding c_string
v8_string-whole [] h = refl
v8_string-whole (c ∷ s) h = rw (v8_string-whole s h.1) (ground (arith, h.0))

module _ (from_utf8 : Bytes → Bytes) where
  taken : (s : Bytes) → IsArgument from_utf8 s → from_utf8 (v8_string s) ≡ s
  taken s h = ap from_utf8 (v8_string-whole s h.0) ∙ h.1

  map_taken :
      (args : List Bytes)
      → All (IsArgument from_utf8) args
      → map (λ arg. from_utf8 (v8_string arg)) args ≡ args
  map_taken [] h = refl
  map_taken (arg ∷ args) h = rw (taken arg h.0, map_taken args h.1) refl

  install_args-script :
      (program script : Bytes) (args : List Bytes)
      → IsArgument from_utf8 program
      → All (IsArgument from_utf8) args
      → IsArgument from_utf8 script
      → install_args from_utf8 program script args ≡ record {
        executable = program;
        script = if is_empty script then none else some script;
        values = args;
      }
  unfolding install_args
  install_args-script program script args p a s =
      rw (taken program p, taken script s, map_taken args a) refl

  install_args-none :
      (program : Bytes) (args : List Bytes)
      → IsArgument from_utf8 program
      → All (IsArgument from_utf8) args
      → install_args from_utf8 program [] args
        ≡ record { executable = program; script = none; values = args }
  unfolding install_args
  install_args-none program args p a = rw (taken program p, map_taken args a) refl

  seen_args-main :
      (e : Surroundings) (program : Bytes) (args : List Bytes) (o : Options)
      → read_arguments args ≡ o
      → seen_args from_utf8 (main e program args).0
        ≡ some (install_args from_utf8 program o.script o.user_args)
  unfolding main seen_args
  seen_args-main e program args o h =
      ap (λ (o : Options). some (install_args from_utf8 program o.script o.user_args)) h

for_code : Bytes → List Bytes → Options
for_code code rest = record no_options { code = code; execute_code = true; user_args = rest }

read_arguments_code :
    (code : Bytes) (rest : List Bytes)
    → read_arguments (codes "-e" ∷ code ∷ rest) ≡ for_code code rest
unfolding read_arguments read_code equal for_code
read_arguments_code code rest = refl

-- What `Kode.args` is to a script, where no argument has a zero byte and V8 takes each as it is, as it
-- does with UTF-8: behind the name of a script, which begins with no dash, and behind `-e` and a text,
-- its values are all the arguments that follow; its script is there just in the first case, and is that
-- name.
pub main_args :
    (from_utf8 : Bytes → Bytes) (e : Surroundings) (program file code : Bytes) (rest : List Bytes)
    → is_file_name file ≡ true
    → IsArgument from_utf8 program
    → IsArgument from_utf8 file
    → All (IsArgument from_utf8) rest
    → (seen_args from_utf8 (main e program (file ∷ rest)).0
        ≡ some (record { executable = program; script = some file; values = rest }))
      × (seen_args from_utf8 (main e program (codes "-e" ∷ code ∷ rest)).0
          ≡ some (record { executable = program; script = none; values = rest }))
unfolding for_code
main_args from_utf8 e program file code rest h p f a =
    let named = install_args-script from_utf8 program file rest p a f in
    (
      seen_args-main from_utf8 e program (file ∷ rest) _ (read_arguments_script file rest h)
          ∙ ap some (rw (if_file_name file h) at named),
      seen_args-main from_utf8 e program (codes "-e" ∷ code ∷ rest) _
            (read_arguments_code code rest)
          ∙ ap some (install_args-none from_utf8 program rest p a),
    )
