-- ===== src/Parser/Clean.antt =====
-- src/parser/parser.cc: `TrimWhitespace`, `RemoveComments`, `RemoveSemicolons`, `SplitIntoLines`.
pub mod Trim
pub mod Comments
pub mod Lines
use kode.Prelude.{
  ℕ, zero, suc, ◌+◌, ◌-◌, Bool, true, false, ◌||◌, not, List, [], ◌∷◌, ◌++◌, Option, none, some,
  ◌==◌, if◌then◌else◌, take, drop, length,
}
use kode.Text.{
  Bytes, codes, is_empty, find_from, find_first, find_last, substr, erase, ends_in, pop_back,
}

-- The bytes of " \t\r\n".
unfoldable pub is_blank : ℕ → Bool
is_blank c = c == b' ' || c == b'\t' || c == b'\r' || c == b'\n'

abbrev pub not_blank : ℕ → Bool
not_blank c = not (is_blank c)

-- From the first byte that is not blank to the last; `npos` as the end would take all that is left.
trim_between : Bytes → Option ℕ → Option ℕ → Bytes
trim_between s none end = []
trim_between s (some start) none = drop start s
trim_between s (some start) (some end) = substr s start (end - start + 1)

unfoldable pub trim_whitespace : Bytes → Bytes
unfolding trim_between
trim_whitespace s = trim_between s (find_first not_blank s) (find_last not_blank s)

-- One round of the loop for each comment; `pos` stays at the newline that ended the last one.
unfoldable pub remove_comments_from : ℕ → Bytes → ℕ → Bytes
remove_comments_from zero result pos = result
remove_comments_from (suc fuel) result pos = elim (find_from (codes "//") result pos) [
  | none ↦ result
  | some start ↦ elim (find_from (codes "\n") result start) [
    | none ↦ substr result 0 start
    | some end_line ↦ remove_comments_from fuel (erase result start (end_line - start)) start
  ]
]

-- Each round removes two bytes at least, so a round for each byte is enough.
unfoldable pub remove_comments : Bytes → Bytes
unfolding remove_comments_from
remove_comments code = remove_comments_from (length code + 1) code 0

unfoldable pub remove_semicolons : Bytes → Bytes
remove_semicolons s = if ends_in b';' s then pop_back s else s

-- `std::getline` until it fails: a last line with no newline counts if it has a byte.
unfoldable pub split_from : Bytes → Bytes → List Bytes
split_from line [] = if is_empty line then [] else line ∷ []
split_from line (c ∷ s) = elim (c == b'\n') [
  | true ↦ line ∷ split_from [] s
  | false ↦ split_from (line ++ c ∷ []) s
]

unfoldable pub split_into_lines : Bytes → List Bytes
unfolding split_from
split_into_lines code = split_from [] code
