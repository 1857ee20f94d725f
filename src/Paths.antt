-- ===== src/Paths.antt =====
-- src/v8/v8_helpers.cc and src/v8/builtins/path.cc: the path functions of the module `kode:path`, and the
-- two that the module loader uses. `std::filesystem::path` is the text of the path, in the standard's
-- generic format with `/` for the separator; the current directory is an argument.
pub mod Trim
pub mod Stack
pub mod Normal
pub mod Callbacks
mod Tests
use mathlib.Core.List.{reverse}
use kode.Prelude.{
  ℕ, Bool, true, false, ◌&&◌, ◌||◌, not, List, [], ◌∷◌, ◌++◌, Option, none, some, ◌==◌, take, drop,
  if◌then◌else◌, ◌+◌,
}
use kode.Text.{Bytes, codes, is_empty, equal, find_last, ends_in}

abbrev pub slash : ℕ
slash = 47

abbrev backslash : ℕ
backslash = 92

abbrev pub dot : Bytes
dot = codes "."

abbrev pub dot_dot : Bytes
dot_dot = codes ".."

-- `is_absolute`.
unfoldable pub is_absolute : Bytes → Bool
is_absolute [] = false
is_absolute (c ∷ path) = c == slash

-- `operator/`: a separator is put in unless the left side is empty or ends in one.
unfoldable pub append : Bytes → Bytes → Bytes
unfolding is_absolute
append base path =
    if is_absolute path
    then path
    else if is_empty base || ends_in slash base
    then base ++ path
    else base ++ slash ∷ path

-- `filename`: what stands behind the last separator.
unfoldable pub filename : Bytes → Bytes
filename path = elim (find_last (λ c. c == slash) path) [ none ↦ path | some i ↦ drop (i + 1) path ]

-- The text without the separators at its end.
unfoldable pub trim_end : Bytes → Bytes
trim_end [] = []
trim_end (c ∷ path) =
    let rest = trim_end path in if c == slash && is_empty rest then [] else c ∷ rest

-- `TrimTrailingSeparators`: the first byte stays, whatever it is.
unfoldable pub trim_trailing_separators : Bytes → Bytes
unfolding trim_end
trim_trailing_separators [] = []
trim_trailing_separators (c ∷ path) = c ∷ trim_end path

-- `parent_path`: what stands before the last separators, or the root.
unfoldable pub parent_path : Bytes → Bytes
unfolding trim_trailing_separators
parent_path path = elim (find_last (λ c. c == slash) path) [
  | none ↦ []
  | some i ↦ trim_trailing_separators (take (i + 1) path)
]

-- `extension` of a file's name, which a dot at its front does not begin.
extension_of : Bytes → Bytes → Option ℕ → Bytes
extension_of path name none = []
extension_of path name (some i) =
    if equal name dot_dot then [] else if i == 0 then [] else drop i name

unfoldable pub extension : Bytes → Bytes
unfolding extension_of filename
extension path =
    let name = filename path in extension_of path name (find_last (λ c. c == b'.') name)

-- The names of a path, without the empty ones.
abbrev pub keep : Bytes → List Bytes → List Bytes
keep name names = if is_empty name then names else name ∷ names

unfoldable pub names_from : Bytes → Bytes → List Bytes
names_from name [] = keep name []
names_from name (c ∷ path) = elim (c == slash) [
  | true ↦ keep name (names_from [] path)
  | false ↦ names_from (name ++ c ∷ []) path
]

-- `..` takes the name before it away; above the root it is nothing.
unfoldable pub climb : Bool → List Bytes → List Bytes
climb true [] = []
climb false [] = dot_dot ∷ []
climb rooted (top ∷ stack) = if equal top dot_dot then dot_dot ∷ top ∷ stack else stack

unfoldable pub push_name : Bool → List Bytes → Bytes → List Bytes
unfolding climb
push_name rooted stack name =
    if equal name dot
    then stack
    else if equal name dot_dot
    then climb rooted stack
    else name ∷ stack

unfoldable pub reduce : Bool → List Bytes → List Bytes → List Bytes
unfolding push_name
reduce rooted stack [] = stack
reduce rooted stack (name ∷ names) = reduce rooted (push_name rooted stack name) names

unfoldable pub join_names : List Bytes → Bytes
join_names [] = []
join_names (name ∷ []) = name
join_names (name ∷ next ∷ names) = name ++ slash ∷ join_names (next ∷ names)

-- Whether the last part of a path names a directory: it is empty, `.` or `..`.
unfoldable pub ends_as_directory : Bytes → Bool
ends_as_directory path =
    let name = filename path in is_empty name || equal name dot || equal name dot_dot

unfoldable pub end_mark : Bool → List Bytes → Bytes
end_mark directory [] = []
end_mark directory (top ∷ stack) = if directory && not (equal top dot_dot) then slash ∷ [] else []

-- The names that are left, the last first, as a path.
unfoldable pub render : Bool → List Bytes → Bytes
unfolding join_names
render true stack = slash ∷ join_names (reverse stack)
render false [] = dot
render false (top ∷ stack) = join_names (reverse (top ∷ stack))

-- `lexically_normal`.
unfoldable pub lexically_normal : Bytes → Bytes
unfolding reduce names_from render end_mark ends_as_directory
lexically_normal path =
    let stack = reduce (is_absolute path) [] (names_from [] path) in
    if is_empty path
    then []
    else render (is_absolute path) stack ++ end_mark (ends_as_directory path) stack

-- `LexicalPath`.
unfoldable pub lexical_path : Bytes → Bytes
lexical_path path =
    let normalized = trim_trailing_separators (lexically_normal path) in
    if is_empty normalized then dot else normalized

-- `NormalizePath`, in the directory `here`, and `Dirname`.
unfoldable pub normalize_path : Bytes → Bytes → Bytes
normalize_path here path = lexically_normal (append here path)

unfoldable pub dirname : Bytes → Bytes
unfolding parent_path
dirname path = parent_path path

-- `PathDirname` and `PathBasename`.
unfoldable pub path_dirname : Bytes → Bytes
path_dirname path =
    let clean = trim_trailing_separators path in
    let parent = parent_path clean in
    if equal clean (slash ∷ []) then clean else if is_empty parent then dot else parent

unfoldable pub path_basename : Bytes → Bytes
path_basename path =
    let clean = trim_trailing_separators path in
    if equal clean (slash ∷ []) then clean else filename clean

-- The loop of `PathJoinCallback` that takes the separators off a later part.
unfoldable pub strip_front : Bytes → Bytes
strip_front [] = []
strip_front (c ∷ part) =
    let rest = strip_front part in if c == slash || c == backslash then rest else c ∷ part

join_rest : Bytes → List Bytes → Bytes
join_rest path [] = path
join_rest path (part ∷ parts) = join_rest (append path (strip_front part)) parts

-- `PathJoinCallback`.
unfoldable pub join : List Bytes → Bytes
unfolding join_rest
join [] = lexical_path []
join (part ∷ parts) = lexical_path (join_rest (append [] part) parts)

resolve_rest : Bytes → List Bytes → Bytes
resolve_rest path [] = path
resolve_rest path (part ∷ parts) =
    resolve_rest (if is_absolute part then part else append path part) parts

-- `PathResolveCallback`.
unfoldable pub resolve : Bytes → List Bytes → Bytes
unfolding resolve_rest
resolve here parts = lexical_path (resolve_rest here parts)
