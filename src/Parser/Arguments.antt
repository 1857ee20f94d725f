-- ===== src/Parser/Arguments.antt =====
-- src/parser/parser.cc: `ExtractFunctionArguments` and `ExtractStringLiteral`.
pub mod Literals
pub mod Written
pub mod RoundTrip
use kode.Prelude.{
  ℕ, zero, suc, ◌+◌, ◌-◌, Bool, true, false, ◌||◌, ◌&&◌, not, List, [], ◌∷◌, ◌++◌, Option, none,
  some, ◌==◌, ltb, leb, if◌then◌else◌, length,
}
use kode.Text.{Bytes, is_empty, find_first, find_last, substr, ends_in}
use kode.Parser.Clean.{trim_whitespace}

-- The variables of the loop over the text between the parentheses.
pub record Scanner : Type 0 where
  pub args : List Bytes
  pub cur : Bytes
  pub in_single : Bool
  pub in_double : Bool
  pub in_backtick : Bool
  pub escape : Bool
  pub depth : ℕ

abbrev pub start : Scanner
start = record {
  args = [];
  cur = [];
  in_single = false;
  in_double = false;
  in_backtick = false;
  escape = false;
  depth = 0;
}

-- `cur.push_back(c)`.
abbrev pub keep : Scanner → ℕ → Scanner
keep s c = record s { cur = s.cur ++ c ∷ [] }

-- Outside every quote.
unfoldable pub scan_plain : Scanner → ℕ → Scanner
scan_plain s c =
    if c == b'\''
    then record (keep s c) { in_single = true }
    else if c == b'"'
    then record (keep s c) { in_double = true }
    else if c == b'`'
    then record (keep s c) { in_backtick = true }
    else if c == b'('
    then record (keep s c) { depth = s.depth + 1 }
    else if c == b')'
    then record (keep s c) { depth = if ltb 0 s.depth then s.depth - 1 else s.depth }
    else if c == b',' && s.depth == 0
    then record s { args = s.args ++ trim_whitespace s.cur ∷ []; cur = [] }
    else keep s c

-- The body of the loop.
unfoldable pub scan_byte : Scanner → ℕ → Scanner
unfolding scan_plain
scan_byte s c =
    if s.escape
    then record (keep s c) { escape = false }
    else if c == b'\\'
    then record (keep s c) { escape = true }
    else if s.in_single
    then record (keep s c) { in_single = not (c == b'\'') }
    else if s.in_double
    then record (keep s c) { in_double = not (c == b'"') }
    else if s.in_backtick
    then record (keep s c) { in_backtick = not (c == b'`') }
    else scan_plain s c

unfoldable pub scan : Scanner → Bytes → Scanner
scan s [] = s
scan s (c ∷ t) = scan (scan_byte s c) t

-- The end of the loop, for the text `t` that it ran over.
unfoldable pub finish : Bytes → Scanner → List Bytes
finish t s =
    if not (is_empty s.cur) || not (is_empty t)
    then s.args ++ trim_whitespace s.cur ∷ []
    else s.args

unfoldable pub split_arguments : Bytes → List Bytes
unfolding finish scan scan_byte
split_arguments t = finish t (scan start t)

between : Bytes → Option ℕ → Option ℕ → List Bytes
unfolding split_arguments
between line none end = []
between line (some first) none = []
between line (some first) (some end) =
    if leb end first then [] else split_arguments (substr line (first + 1) (end - first - 1))

unfoldable pub extract_function_arguments : Bytes → List Bytes
unfolding between
extract_function_arguments line =
    between line (find_first (λ c. c == b'(') line) (find_last (λ c. c == b')') line)

-- `trimmed.length() >= 2 && trimmed.front() == q && trimmed.back() == q`.
unfoldable pub is_quoted : ℕ → Bytes → Bool
is_quoted q [] = false
is_quoted q (c ∷ t) = leb 2 (length (c ∷ t)) && c == q && ends_in q (c ∷ t)

unfoldable pub extract_string_literal : Bytes → Bytes
extract_string_literal str =
    let trimmed = trim_whitespace str in
    if is_quoted b'\'' trimmed
    then substr trimmed 1 (length trimmed - 2)
    else if is_quoted b'"' trimmed
    then substr trimmed 1 (length trimmed - 2)
    else if is_quoted b'`' trimmed
    then substr trimmed 1 (length trimmed - 2)
    else trimmed
