-- ===== src/Parser/Program.antt =====
-- src/parser/parser.cc: `Parse`, the loop over the lines of a program.
pub mod Filter
use kode.Prelude.{
  ℕ, zero, suc, ◌+◌, Bool, true, false, ◌||◌, ◌&&◌, not, List, [], ◌∷◌, ◌++◌, ℤ, pos, negsuc, ◌==◌,
  if◌then◌else◌,
}
use kode.Text.{Bytes, codes, is_empty, contains}
use kode.Parser.{StatementType, unknown, Statement}
use kode.Parser.Clean.{trim_whitespace, remove_comments, split_into_lines}
use kode.Parser.Line.{is_callback_pattern, parse_line}

-- The variables of the loop.
pub record ParseState : Type 0 where
  pub statements : List Statement
  pub inside_callback : Bool
  pub brace_depth : ℤ

unfoldable pub increment : ℤ → ℤ
increment (pos n) = pos (n + 1)
increment (negsuc zero) = pos 0
increment (negsuc (suc n)) = negsuc n

unfoldable pub decrement : ℤ → ℤ
decrement (pos zero) = negsuc 0
decrement (pos (suc n)) = pos n
decrement (negsuc n) = negsuc (suc n)

-- `brace_depth > 0`.
unfoldable pub is_positive : ℤ → Bool
is_positive (pos zero) = false
is_positive (pos (suc n)) = true
is_positive (negsuc n) = false

unfoldable pub count_braces : ℤ → Bytes → ℤ
unfolding increment decrement
count_braces depth [] = depth
count_braces depth (c ∷ s) =
    count_braces
      (if c == b'{' then increment depth else if c == b'}' then decrement depth else depth) s

unfoldable pub is_unknown : StatementType → Bool
is_unknown unknown = true
is_unknown _ = false

-- `if (stmt.type != Statement::UNKNOWN) statements.push_back(stmt);`.
unfoldable pub push_known : ParseState → Statement → ParseState
unfolding is_unknown
push_known p stmt =
    if is_unknown stmt.type then p else record p { statements = p.statements ++ stmt ∷ [] }

-- The body of the loop, for a line that is trimmed and not empty.
unfoldable pub parse_trimmed_line : ParseState → Bytes → ParseState
unfolding push_known
parse_trimmed_line p trimmed =
    let depth = count_braces p.brace_depth trimmed in
    let inside =
      p.inside_callback || contains (codes "=>") trimmed || contains (codes "function") trimmed in
    let q = record p { brace_depth = depth; inside_callback = inside } in
    if inside
    then if is_positive depth then q else record q { inside_callback = false }
    else if is_callback_pattern trimmed
    then q
    else push_known q (parse_line trimmed)

unfoldable pub parse_next : ParseState → Bytes → ParseState
parse_next p line =
    let trimmed = trim_whitespace line in
    if is_empty trimmed then p else parse_trimmed_line p trimmed

unfoldable pub parse_lines : ParseState → List Bytes → ParseState
parse_lines p [] = p
parse_lines p (line ∷ lines) = parse_lines (parse_next p line) lines

-- Before the first line.
abbrev begin : ParseState
begin = record { statements = []; inside_callback = false; brace_depth = pos 0 }

unfoldable pub parse : Bytes → List Statement
unfolding parse_lines
parse code = (parse_lines begin (split_into_lines (remove_comments code))).statements
