-- ===== src/Modules/Tests.antt =====
-- Runs and witnesses of the module loader: two files that require each other, and one that throws.
use kode.Prelude.{
  ◌⊎◌, ℕ, ◌+◌, ◌≡◌, refl, Bool, true, List, [], ◌∷◌, none, some, arith, ◌||◌, if◌then◌else◌,
}
use kode.Text.{Bytes, c_string, codes, equal, starts_with, ends_in, back?, find_last}
use kode.Text.Find.{equal_iff}
use kode.Text.Dict
use kode.Text.Dict.{lookup, insert, Unique}
use kode.Paths.{
  append, is_absolute, filename, normalize_path, lexically_normal, extension, dirname, parent_path,
  trim_trailing_separators,
}
use kode.Modules.{
  Loader, World, Script, returns, raises, requires, sets_exports, Answer, value, undefined, throws,
  fails, Compiled, function, require, is_local_specifier, resolve_local_module_path, base_dir,
  load_local_module, built_in,
}
use kode.Modules.Loading.{require_keeps}
use kode.Modules.Ends.{listed, require_ends}
use kode.Modules.Cached.{load_local_module_again, load_local_module_failed, is_value}

abbrev file_a : Bytes
file_a = codes "/app/a.js"

abbrev file_b : Bytes
file_b = codes "/app/b.js"

abbrev file_c : Bytes
file_c = codes "/app/c.js"

-- `module.exports = require(name) + 1`, and an error of the callee is thrown on.
abbrev add_one : ℕ → Answer ℕ → Script ℕ
add_one h (value v) = sets_exports h (some (v + 1)) returns
add_one h undefined = raises
add_one h throws = raises
add_one h (fails e) = raises

abbrev requires_plus : Bytes → ℕ → ℕ → Bytes → Bytes → Script ℕ
requires_plus name object h file dir = requires (some name) (add_one h)

abbrev compile_test : Bytes → Bytes → Compiled ℕ
compile_test file text =
    if equal file file_a
    then function (requires_plus (codes "./b"))
    else if equal file file_b
    then function (requires_plus (codes "./a.js"))
    else function (λ object h file dir. sets_exports h (some 7) raises)

abbrev is_test_file : Bytes → Bool
is_test_file file = equal file file_a || equal file file_b || equal file file_c

abbrev world : World ℕ
world = record {
  here = codes "/";
  is_regular_file = is_test_file;
  read_file_text = λ file. if is_test_file file then some [] else none;
  compile = compile_test;
  object = λ h. 100 + h;
  path_module = 1;
  crypto_module = 2;
  encoding_module = 3;
  fs_module = 4;
}

abbrev start : Loader ℕ
start = record {
  cache = [];
  dir_stack = [];
  entry_dir = codes "/app";
  heap = [];
  require_callable = true;
}

-- Both files of the cycle are loaded; the inner `require("./a.js")` sees the exports of an `a` that has
-- not run to its end.
abbrev loaded : Loader ℕ
loaded = record {
  cache = (file_a, 0) ∷ (file_b, 1) ∷ [];
  dir_stack = [];
  entry_dir = codes "/app";
  heap = some 102 ∷ some 101 ∷ [];
  require_callable = true;
}

cycle : load_local_module world (require world 4) (codes "./a") start ≡ some (loaded, value 102)
unfolding load_local_module require equal starts_with ends_in back? find_last lookup insert append
    is_absolute filename normalize_path lexically_normal extension dirname parent_path
    trim_trailing_separators is_local_specifier resolve_local_module_path base_dir c_string
cycle = refl

abbrev after_throw : Loader ℕ
after_throw = record loaded { heap = some 102 ∷ some 101 ∷ some 7 ∷ [] }

require_throws : require world 2 (some (codes "./c")) loaded ≡ some (after_throw, throws)
unfolding load_local_module require equal starts_with ends_in back? find_last lookup insert append
    is_absolute filename normalize_path lexically_normal extension dirname parent_path
    trim_trailing_separators is_local_specifier resolve_local_module_path base_dir built_in
    Dict.erase c_string
require_throws = refl

require_keeps_example :
    (after_throw.dir_stack ≡ loaded.dir_stack)
    × (after_throw.entry_dir ≡ loaded.entry_dir)
    × ((lookup file_b loaded.cache ≡ none)
        ⊎ (lookup file_b after_throw.cache ≡ lookup file_b loaded.cache))
unfolding lookup equal
require_keeps_example =
    require_keeps world 2 (some (codes "./c")) loaded after_throw throws require_throws file_b

abbrev test_files : List Bytes
test_files = file_a ∷ file_b ∷ file_c ∷ []

test_files_known :
    (file text : Bytes) → world.read_file_text file ≡ some text → listed test_files file ≡ true
unfolding listed
test_files_known file text e = ground (
  arith,
  equal_iff file_a file,
  equal_iff file_b file,
  equal_iff file_c file,
  equal_iff file file_a,
  equal_iff file file_b,
  equal_iff file file_c,
)

require_ends_example :
    (t : Loader ℕ) × (a : Answer ℕ) × (require world 4 (some (codes "./a")) start ≡ some (t, a))
require_ends_example =
    require_ends world test_files test_files_known 4 (omega arith) (some (codes "./a")) start

load_local_module_again_example :
    load_local_module world (require world 0) (codes "./a") loaded ≡ some (loaded, value 102)
unfolding Unique
load_local_module_again_example =
    load_local_module_again world 4 (codes "./a") start loaded 102 tt cycle (require world 0)

load_throws :
    load_local_module world (require world 1) (codes "./c") loaded ≡ some (after_throw, throws)
unfolding load_local_module require equal starts_with ends_in back? find_last lookup insert append
    is_absolute filename normalize_path lexically_normal extension dirname parent_path
    trim_trailing_separators is_local_specifier resolve_local_module_path base_dir Dict.erase
    c_string
load_throws = refl

load_local_module_failed_example :
    lookup (resolve_local_module_path world (base_dir loaded) (codes "./c")) after_throw.cache
    ≡ none
unfolding lookup equal Unique is_value resolve_local_module_path append normalize_path
    lexically_normal is_absolute filename extension base_dir find_last ends_in back?
load_local_module_failed_example =
    load_local_module_failed world 1 (codes "./c") loaded after_throw throws (refl, (refl, tt)) refl
      load_throws refl
