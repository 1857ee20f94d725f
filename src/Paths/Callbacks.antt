-- ===== src/Paths/Callbacks.antt =====
-- src/v8/builtins/path.cc: the callbacks of `kode:path`, from their arguments on.
use kode.Prelude.{Bool, List, [], ◌∷◌, ◌++◌, if◌then◌else◌}
use kode.Text.{Bytes, codes, v8_string}
use kode.Values.{Input, string, Result, returns, throws, kode_error, read_string_arg}
use kode.Paths.{
  append, strip_front, lexical_path, path_dirname, path_basename, extension, is_absolute,
}

with_string {ℓ} : {A : Type ℓ} → (Bytes → A) → Result Bytes → Result A
with_string f (returns text) = returns (f text)
with_string f (throws error) = throws error

-- The callbacks that read one argument.
unfoldable pub normalize_callback : List Input → Result Bytes
unfolding with_string
normalize_callback args =
    with_string (λ path. v8_string (lexical_path path))
      (read_string_arg (codes "kode:path.normalize") args)

unfoldable pub dirname_callback : List Input → Result Bytes
unfolding with_string
dirname_callback args =
    with_string (λ path. v8_string (path_dirname path))
      (read_string_arg (codes "kode:path.dirname") args)

unfoldable pub basename_callback : List Input → Result Bytes
unfolding with_string
basename_callback args =
    with_string (λ path. v8_string (path_basename path))
      (read_string_arg (codes "kode:path.basename") args)

unfoldable pub extname_callback : List Input → Result Bytes
unfolding with_string
extname_callback args =
    with_string (λ path. v8_string (extension path))
      (read_string_arg (codes "kode:path.extname") args)

unfoldable pub is_absolute_callback : List Input → Result Bool
unfolding with_string
is_absolute_callback args =
    with_string is_absolute (read_string_arg (codes "kode:path.isAbsolute") args)

-- The loop of a callback that reads all its arguments, with the body behind the read. The list is not
-- empty where `read_string_arg` is called.
unfoldable pub read_parts : Bytes → (Bytes → Bytes → Bytes) → Bytes → List Input → Result Bytes
read_parts operation body path [] = returns (v8_string (lexical_path path))
read_parts operation body path (string part ∷ args) =
    read_parts operation body (body path part) args
read_parts operation body path (arg ∷ args) =
    throws
      (kode_error (codes "EINVAL") (operation ++ codes " requires string arguments") operation [])

abbrev join_part : Bytes → Bytes → Bytes
join_part path part = append path (strip_front part)

-- `PathJoinCallback`: the first part is taken as it is.
unfoldable pub join_callback : List Input → Result Bytes
unfolding read_parts
join_callback [] = returns (v8_string (lexical_path []))
join_callback (string part ∷ args) =
    read_parts (codes "kode:path.join") join_part (append [] part) args
join_callback (arg ∷ args) = read_parts (codes "kode:path.join") join_part [] (arg ∷ args)

abbrev resolve_part : Bytes → Bytes → Bytes
resolve_part path part = if is_absolute part then part else append path part

-- `PathResolveCallback`, in the current directory.
unfoldable pub resolve_callback : Bytes → List Input → Result Bytes
resolve_callback here args = read_parts (codes "kode:path.resolve") resolve_part here args
