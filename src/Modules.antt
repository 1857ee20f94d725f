-- ===== src/Modules.antt =====
-- src/v8/module_loader.cc: `require`, the cache of modules and the stack of their directories.
-- V8 is outside: `compile` says what it makes of a source text, and the body of a module is the
-- sequence of the effects that the loader can see. The files and the current directory are arguments.
pub mod Extends
pub mod Loading
pub mod Cached
pub mod Ends
mod Tests
use kode.Prelude.{
  ℕ, zero, suc, Bool, true, false, ◌||◌, List, [], ◌∷◌, ◌++◌, Option, none, some, if◌then◌else◌,
  length, get_or, set, drop,
}
use kode.Text.{Bytes, codes, is_empty, equal, starts_with, ends_in, v8_string}
use kode.Text.Dict.{lookup, insert, erase}
use kode.Paths.{append, normalize_path, dirname, extension}

-- `CreateKodeError`: the code, the message, the operation and the path.
pub record KodeError : Type 0 where
  pub code : Bytes
  pub message : Bytes
  pub operation : Bytes
  pub path : Bytes

-- What `require` gives: a value; nothing, which the script sees as `undefined`; an error of the
-- loader; or an exception of the script's.
pub data Answer (V : Type 0) : Type 0 where
  value : V → Answer V
  undefined throws : Answer V
  fails : KodeError → Answer V

-- The body of a module. `sets_exports h` stores into the module object `h`, where `none` is a property
-- whose getter throws; `sets_require` replaces the global `require` by a function, or by no function.
pub data Script (V : Type 0) : Type 0 where
  returns raises : Script V
  requires : Option Bytes → (Answer V → Script V) → Script V
  sets_exports : ℕ → Option V → Script V → Script V
  sets_require : Bool → Script V → Script V

-- `Compile` and `Run` of the wrapped text; a function takes the exports, the module object, the
-- file's name and its directory.
pub data Compiled (V : Type 0) : Type 0 where
  syntax_error not_a_function : Compiled V
  function : (V → ℕ → Bytes → Bytes → Script V) → Compiled V

-- `heap` holds the `exports` of each module object. The cache holds module objects, by file.
pub record Loader (V : Type 0) : Type 0 where
  pub cache : List (Bytes × ℕ)
  pub dir_stack : List Bytes
  pub entry_dir : Bytes
  pub heap : List (Option V)
  pub require_callable : Bool

-- What the loader uses of its surroundings. `object h` is the object that a new module `h` exports.
pub record World (V : Type 0) : Type 0 where
  pub here : Bytes
  pub is_regular_file : Bytes → Bool
  pub read_file_text : Bytes → Option Bytes
  pub compile : Bytes → Bytes → Compiled V
  pub object : ℕ → V
  pub path_module : V
  pub crypto_module : V
  pub encoding_module : V
  pub fs_module : V

-- `require`, as the loader and the bodies call it; `none` where the fuel is out.
abbrev pub Require : Type 0 → Type 0
Require V = Option Bytes → Loader V → Option (Loader V × Answer V)

unfoldable pub is_local_specifier : Bytes → Bool
is_local_specifier specifier =
    starts_with (codes "./") specifier || starts_with (codes "../") specifier

-- The text that is compiled for a module's source.
unfoldable pub wrap : Bytes → Bytes
wrap source =
    let wrapped = codes "(function(exports, require, module, __filename, __dirname) {" ++ source in
    if ends_in 10 wrapped then wrapped ++ codes "})" else wrapped ++ (10 ∷ codes "})")

module _ {V : Type 0} where
  -- `g_module_dir_stack`, with its back first.
  unfoldable pub base_dir : Loader V → Bytes
  base_dir s = elim s.dir_stack [ [] ↦ s.entry_dir | dir ∷ rest ↦ dir ]

  unfoldable pub set_module_entry_directory : World V → Bytes → Loader V → Loader V
  set_module_entry_directory w file s = record s {
    entry_dir = dirname (normalize_path w.here file);
  }

  unfoldable pub clear_module_cache : Loader V → Loader V
  clear_module_cache s = record s { cache = []; dir_stack = []; entry_dir = [] }

  unfoldable pub resolve_local_module_path : World V → Bytes → Bytes → Bytes
  resolve_local_module_path w base specifier =
      let literal = normalize_path w.here (append base specifier) in
      if w.is_regular_file literal
      then literal
      else if is_empty (extension literal)
      then literal ++ codes ".js"
      else literal

  -- `Get(…, "exports")` of a module object.
  unfoldable pub exports_of : Loader V → ℕ → Answer V
  exports_of s h = elim (get_or s.heap h none) [ none ↦ throws | some v ↦ value v ]

  -- What the loader does with a file it does not know, up to the call of the function: a module object
  -- with an empty `exports`, in the cache.
  unfoldable pub enter : World V → Bytes → Loader V → Loader V
  enter w file s = record s {
    cache = insert file (length s.heap) s.cache;
    heap = s.heap ++ some (w.object (length s.heap)) ∷ [];
  }

  unfoldable pub forget : Bytes → Loader V → Loader V
  forget file s = record s { cache = erase file s.cache }

  abbrev pub push_dir : Bytes → Loader V → Loader V
  push_dir dir s = record s { dir_stack = dir ∷ s.dir_stack }

  unfoldable pub pop_dir : Loader V → Loader V
  pop_dir s = record s { dir_stack = drop 1 s.dir_stack }

  abbrev pub loader_error : Bytes → Bytes → Bytes → Answer V
  loader_error code message path = fails (record {
    code = v8_string code;
    message = v8_string message;
    operation = v8_string (codes "module.require");
    path = v8_string path;
  })

  abbrev pub no_require : Bytes → Answer V
  no_require file = loader_error (codes "EINTERNAL") (codes "Global require is not available") file

  -- How a body ends: whether by an exception.
  unfoldable pub execute : Require V → Script V → Loader V → Option (Loader V × Bool)
  execute require returns s = some (s, true)
  execute require raises s = some (s, false)
  execute require (requires name next) s = elim (require name s) [
    | none ↦ none
    | some (t, answer) ↦ execute require (next answer) t
  ]
  execute require (sets_exports h v next) s =
      execute require next (record s { heap = set s.heap h v })
  execute require (sets_require b next) s = execute require next (record s { require_callable = b })

  -- The end of `LoadLocalModule`, once the directory is off the stack.
  unfoldable pub finish : Bytes → Loader V → Option V → Loader V × Answer V
  unfolding forget
  finish file s none = (forget file s, throws)
  finish file s (some v) = (s, value v)

  unfoldable pub after_call : Bytes → ℕ → Option (Loader V × Bool) → Option (Loader V × Answer V)
  unfolding pop_dir finish
  after_call file h none = none
  after_call file h (some (s, false)) = some (forget file (pop_dir s), throws)
  after_call file h (some (s, true)) = some (finish file (pop_dir s) (get_or s.heap h none))

  unfoldable pub call_compiled :
      World V → Require V → Bytes → ℕ → Loader V → Compiled V → Option (Loader V × Answer V)
  unfolding forget after_call execute
  call_compiled w require file h s syntax_error = some (forget file s, throws)
  call_compiled w require file h s not_a_function = some (forget file s, undefined)
  call_compiled w require file h s (function body) =
      let called =
        execute require (body (w.object h) h (v8_string file) (v8_string (dirname file)))
          (push_dir (dirname file) s) in
      if s.require_callable then after_call file h called else some (forget file s, no_require file)

  unfoldable pub load_text :
      World V → Require V → Bytes → Bytes → Loader V → Option Bytes → Option (Loader V × Answer V)
  unfolding enter call_compiled wrap
  load_text w require specifier file s none = some (
    s,
    loader_error (codes "EMODULE_NOT_FOUND")
        (codes "Cannot find module '" ++ (specifier ++ codes "'")) file,
  )
  load_text w require specifier file s (some text) =
      call_compiled w require file (length s.heap) (enter w file s)
        (w.compile (v8_string file) (v8_string (wrap text)))

  unfoldable pub load_file :
      World V → Require V → Bytes → Bytes → Loader V → Option (Loader V × Answer V)
  unfolding load_text exports_of
  load_file w require specifier file s = elim (lookup file s.cache) [
    | some h ↦ some (s, exports_of s h)
    | none ↦ load_text w require specifier file s (w.read_file_text file)
  ]

  -- `LoadLocalModule`.
  unfoldable pub load_local_module :
      World V → Require V → Bytes → Loader V → Option (Loader V × Answer V)
  unfolding load_file base_dir
  load_local_module w require specifier s =
      load_file w require specifier (resolve_local_module_path w (base_dir s) specifier) s

  -- The modules that are built in, in the order of the tests.
  unfoldable pub built_in : World V → Bytes → Option V
  built_in w name =
      if equal name (codes "kode:path")
      then some w.path_module
      else if equal name (codes "kode:crypto")
      then some w.crypto_module
      else if equal name (codes "kode:encoding")
      then some w.encoding_module
      else if equal name (codes "fs") || equal name (codes "kode:fs")
      then some w.fs_module
      else none

  unfoldable pub require_named :
      World V → Require V → Bytes → Loader V → Option V → Bool → Option (Loader V × Answer V)
  unfolding load_local_module
  require_named w require name s (some v) local = some (s, value v)
  require_named w require name s none true = load_local_module w require name s
  require_named w require name s none false = some (
    s,
    loader_error (codes "EUNSUPPORTED_MODULE") (codes "Unsupported module '" ++ (name ++ codes "'"))
        name,
  )

  -- `RequireCallback`; the argument is `none` where it is missing or not a string.
  unfoldable pub require_callback : World V → Require V → Require V
  unfolding require_named built_in
  require_callback w require none s =
      some (s, loader_error (codes "EINVAL") (codes "require requires a module string") [])
  require_callback w require (some name) s =
      require_named w require name s (built_in w name) (is_local_specifier name)

  -- `require`, where a body can call it again: `fuel` bounds how deep files load each other.
  unfoldable pub require : World V → ℕ → Require V
  unfolding require_callback
  require w zero name s = none
  require w (suc fuel) name s = require_callback w (require w fuel) name s
