-- ===== src/Parser/Line.antt =====
-- src/parser/parser.cc: `IsCallbackPattern` and `ParseLine`.
pub mod Calls
pub mod Kinds
use kode.Prelude.{
  ℕ, ◌+◌, ◌-◌, Bool, true, false, ◌||◌, ◌&&◌, not, List, [], ◌∷◌, ◌++◌, Option, none, some, ℤ, pos,
  ltb, leb, ◌==◌, if◌then◌else◌, length, get_or, drop,
}
use kode.Text.{
  Bytes, codes, is_empty, equal, starts_with, find, contains, find_first, find_last, substr,
}
use kode.Text.Dict.{insert}
use kode.Text.Decimal.{stoi, to_string_int}
use kode.Parser.{
  StatementType, console_log, console_error, console_warn, console_info, set_timeout, kode_spawn,
  ch_create, ch_send, ch_recv, yield_op, with_timeout, fs_read_file, fs_write_file,
  fs_read_file_sync, require, const_declaration, let_declaration, var_declaration, unknown,
  Statement, blank,
}
use kode.Parser.Clean.{trim_whitespace, remove_semicolons}
use kode.Parser.Arguments.{extract_function_arguments, extract_string_literal}

abbrev patterns : List Bytes
patterns =
    codes "if (err)"
    ∷ codes "if (error)"
    ∷ codes "} else {"
    ∷ codes "} catch"
    ∷ codes "} finally"
    ∷ codes "return;"
    ∷ codes "throw"
    ∷ codes "break;"
    ∷ codes "continue;"
    ∷ codes "err"
    ∷ codes "error"
    ∷ codes "data.toString()"
    ∷ codes ".then("
    ∷ codes ".catch("
    ∷ []

unfoldable pub contains_any : List Bytes → Bytes → Bool
contains_any [] line = false
contains_any (p ∷ ps) line = contains p line || contains_any ps line

unfoldable pub is_callback_pattern : Bytes → Bool
unfolding contains_any
is_callback_pattern line = contains_any patterns line

-- `stmt.options[name] = value`.
abbrev pub with_option : Bytes → Bytes → Statement → Statement
with_option name value stmt = record stmt { options = insert name value stmt.options }

abbrev pub arg : List Bytes → ℕ → Bytes
arg args i = get_or args i []

-- `try { … std::stoi(text) … } catch (...) { default }`.
abbrev pub stoi_or : ℤ → Bytes → ℤ
stoi_or default text = elim (stoi text) [ none ↦ default | some z ↦ z ]

-- `if (!args.empty()) stmt.content = ExtractStringLiteral(args[0]);`.
abbrev pub first_literal : List Bytes → Bytes
first_literal args = if is_empty args then [] else extract_string_literal (arg args 0)

unfoldable pub parse_kode : List Bytes → Statement
parse_kode args = record (blank kode_spawn) { content = first_literal args }

unfoldable pub parse_create_channel : List Bytes → Statement
parse_create_channel args =
    let named =
      if is_empty args
      then blank ch_create
      else with_option (codes "name") (extract_string_literal (arg args 0)) (blank ch_create) in
    if ltb 1 (length args)
    then with_option (codes "capacity")
        (elim (stoi (arg args 1)) [ none ↦ codes "0" | some z ↦ to_string_int z ]) named
    else with_option (codes "capacity") (codes "0") named

unfoldable pub parse_send_to_channel : List Bytes → Statement
parse_send_to_channel args =
    if leb 2 (length args)
    then with_option (codes "value") (extract_string_literal (arg args 1))
        (with_option (codes "name") (extract_string_literal (arg args 0)) (blank ch_send))
    else blank ch_send

unfoldable pub parse_receive_from_channel : List Bytes → Statement
parse_receive_from_channel args =
    if is_empty args
    then blank ch_recv
    else with_option (codes "name") (extract_string_literal (arg args 0)) (blank ch_recv)

unfoldable pub parse_with_timeout : List Bytes → Statement
parse_with_timeout args =
    let ms = if is_empty args then pos 0 else stoi_or (pos 0) (arg args 0) in
    let timed = with_option (codes "timeout") (to_string_int ms) (blank with_timeout) in
    if ltb 1 (length args)
    then record timed { content = extract_string_literal (arg args 1) }
    else timed

console_type : Bytes → StatementType
console_type trimmed =
    if contains (codes "console.error") trimmed
    then console_error
    else if contains (codes "console.warn") trimmed
    then console_warn
    else if contains (codes "console.info") trimmed
    then console_info
    else console_log

console_content : Bytes → Option ℕ → Option ℕ → Bytes
console_content trimmed none end = []
console_content trimmed (some first) none = []
console_content trimmed (some first) (some end) =
    if ltb first end
    then extract_string_literal (substr trimmed (first + 1) (end - first - 1))
    else []

unfoldable pub parse_console : Bytes → Statement
unfolding console_type console_content
parse_console trimmed = record (blank (console_type trimmed)) {
  content = console_content trimmed (find (codes "(") trimmed) (find_last (λ c. c == b')') trimmed);
}

unfoldable pub parse_timer : List Bytes → Statement
parse_timer args =
    let delay = if ltb 1 (length args) then stoi_or (pos 1000) (arg args 1) else pos 1000 in
    with_option (codes "delay") (to_string_int delay)
      (record (blank set_timeout) { content = codes "Timer callback executed!" })

-- `if (stmt.content.empty()) stmt.content = "index.js";`.
abbrev pub or_index : Bytes → Bytes
or_index content = if is_empty content then codes "index.js" else content

-- `if (args.size() > i)`, the encoding, unless it is empty.
abbrev pub with_encoding : ℕ → List Bytes → Statement → Statement
with_encoding i args stmt =
    let encoding = extract_string_literal (arg args i) in
    if ltb i (length args) && not (is_empty encoding)
    then with_option (codes "encoding") encoding stmt
    else stmt

unfoldable pub parse_read_file : List Bytes → Statement
parse_read_file args =
    with_encoding 1 args (record (blank fs_read_file) { content = or_index (first_literal args) })

unfoldable pub parse_read_file_sync : List Bytes → Statement
parse_read_file_sync args = record (blank fs_read_file_sync) {
  content = or_index (first_literal args);
}

unfoldable pub parse_write_file : List Bytes → Statement
parse_write_file args = with_encoding 2 args (
    if leb 2 (length args)
    then with_option (codes "content") (extract_string_literal (arg args 1))
        (record (blank fs_write_file) { content = extract_string_literal (arg args 0) })
    else blank fs_write_file)

module_name : Bytes → Option ℕ → Bytes
module_name trimmed none = []
module_name trimmed (some from) = extract_string_literal (trim_whitespace (drop (from + 5) trimmed))

unfoldable pub parse_require : Bytes → Statement
unfolding module_name
parse_require trimmed =
    if contains (codes "require(") trimmed
    then record (blank require) { content = first_literal (extract_function_arguments trimmed) }
    else record (blank require) { content = module_name trimmed (find (codes "from ") trimmed) }

-- The chain that starts at the console operations.
unfoldable pub parse_operation : Bytes → Statement
parse_operation trimmed =
    if starts_with (codes "console.") trimmed
    then parse_console trimmed
    else if starts_with (codes "setTimeout") trimmed || starts_with (codes "setInterval") trimmed
    then parse_timer (extract_function_arguments trimmed)
    else if starts_with (codes "fs.readFile") trimmed && not (contains (codes "Sync") trimmed)
    then parse_read_file (extract_function_arguments trimmed)
    else if starts_with (codes "fs.readFileSync") trimmed
    then parse_read_file_sync (extract_function_arguments trimmed)
    else if starts_with (codes "fs.writeFile") trimmed
    then parse_write_file (extract_function_arguments trimmed)
    else if starts_with (codes "require(") trimmed || starts_with (codes "import ") trimmed
    then parse_require trimmed
    else if starts_with (codes "const ") trimmed
    then record (blank const_declaration) { content = trimmed }
    else if starts_with (codes "let ") trimmed
    then record (blank let_declaration) { content = trimmed }
    else if starts_with (codes "var ") trimmed
    then record (blank var_declaration) { content = trimmed }
    else blank unknown

-- `ParseLine`, on the line without its semicolon and blanks.
unfoldable pub parse_trimmed : Bytes → Statement
parse_trimmed trimmed =
    if starts_with (codes "kode(") trimmed
    then parse_kode (extract_function_arguments trimmed)
    else if starts_with (codes "createChannel(") trimmed
    then parse_create_channel (extract_function_arguments trimmed)
    else if starts_with (codes "sendToChannel(") trimmed
    then parse_send_to_channel (extract_function_arguments trimmed)
    else if starts_with (codes "receiveFromChannel(") trimmed
    then parse_receive_from_channel (extract_function_arguments trimmed)
    else if equal trimmed (codes "yield()") || starts_with (codes "yield(") trimmed
    then blank yield_op
    else if starts_with (codes "withTimeout(") trimmed
    then parse_with_timeout (extract_function_arguments trimmed)
    else parse_operation trimmed

unfoldable pub parse_line : Bytes → Statement
parse_line line = parse_trimmed (trim_whitespace (remove_semicolons line))
