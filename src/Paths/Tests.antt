-- ===== src/Paths/Tests.antt =====
-- Runs and witnesses of the path functions.
use kode.Prelude.{◌≡◌, refl, List, [], ◌∷◌}
use kode.Text.{codes, equal, find_last, back?, ends_in}
use kode.Values.{Input, string, undefined, throws, kode_error}
use kode.Paths.Callbacks.{join_callback, read_parts}
use kode.Paths.Normal.{lexical_path-lexical_path}
use kode.Paths.{
  lexically_normal, lexical_path, join, resolve, path_dirname, path_basename, extension, append,
  strip_front, is_absolute, filename, trim_trailing_separators, parent_path,
}

normal_keeps_mark : lexically_normal (codes "a/.///b/../") ≡ codes "a/"
unfolding lexically_normal lexical_path join resolve path_dirname path_basename extension append
    strip_front is_absolute filename trim_trailing_separators parent_path equal find_last back?
    ends_in
normal_keeps_mark = refl

normal_root : lexically_normal (codes "/../x/./../y") ≡ codes "/y"
unfolding lexically_normal lexical_path join resolve path_dirname path_basename extension append
    strip_front is_absolute filename trim_trailing_separators parent_path equal find_last back?
    ends_in
normal_root = refl

normal_up : lexically_normal (codes "a/../../b/..") ≡ codes ".."
unfolding lexically_normal lexical_path join resolve path_dirname path_basename extension append
    strip_front is_absolute filename trim_trailing_separators parent_path equal find_last back?
    ends_in
normal_up = refl

joins : join (codes "/usr/" ∷ codes "/lib" ∷ codes "../bin/" ∷ []) ≡ codes "/usr/bin"
unfolding lexically_normal lexical_path join resolve path_dirname path_basename extension append
    strip_front is_absolute filename trim_trailing_separators parent_path equal find_last back?
    ends_in
joins = refl

resolves : resolve (codes "/home/me") (codes "x" ∷ codes "/etc" ∷ codes "../a" ∷ []) ≡ codes "/a"
unfolding lexically_normal lexical_path join resolve path_dirname path_basename extension append
    strip_front is_absolute filename trim_trailing_separators parent_path equal find_last back?
    ends_in
resolves = refl

parts :
    path_dirname (codes "/a/b.c/")
      ∷ path_basename (codes "/a/b.c/")
      ∷ extension (codes "/a/b.c")
      ∷ []
    ≡ codes "/a" ∷ codes "b.c" ∷ codes ".c" ∷ []
unfolding lexically_normal lexical_path join resolve path_dirname path_basename extension append
    strip_front is_absolute filename trim_trailing_separators parent_path equal find_last back?
    ends_in
parts = refl

lexical_path-lexical_path_example :
    lexical_path (lexical_path (codes "a/./../../b//")) ≡ lexical_path (codes "a/./../../b//")
lexical_path-lexical_path_example = lexical_path-lexical_path (codes "a/./../../b//")

abbrev mixed : List Input
mixed = string (codes "a") ∷ undefined ∷ []

joins_mixed :
    join_callback mixed
    ≡ throws (
        kode_error
          (codes "EINVAL")
          (codes "kode:path.join requires string arguments")
          (codes "kode:path.join")
          [])
unfolding join_callback read_parts
joins_mixed = refl
