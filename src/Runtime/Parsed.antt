-- ===== src/Runtime/Parsed.antt =====
-- src/parser/parser.cc: `KodeParser::ExecuteStatement`, the parser's own version of the execution, and
-- how it differs from `KodeRuntime::ExecuteStatement`.
use kode.Prelude.{Bool, true, false, List, [], ◌∷◌, ◌++◌}
use kode.Text.{Bytes, codes}
use kode.Parser.{
  StatementType, console_log, console_error, console_warn, console_info, set_timeout, fs_read_file,
  fs_read_file_sync, fs_write_file, require, const_declaration, let_declaration, var_declaration,
  Statement,
}
use kode.Runtime.{Action, prints, reads_file, writes_file, option_or, print_file}

-- What is asked for and printed, in order, and the Boolean.
unfoldable pub execute_parsed_as : (Bytes → Bytes) → StatementType → Statement → List Action × Bool
execute_parsed_as read_file_sync console_log stmt = (prints stmt.content ∷ [], true)
execute_parsed_as read_file_sync console_error stmt = (prints stmt.content ∷ [], true)
execute_parsed_as read_file_sync console_warn stmt = (prints stmt.content ∷ [], true)
execute_parsed_as read_file_sync console_info stmt = (prints stmt.content ∷ [], true)
execute_parsed_as read_file_sync set_timeout stmt =
    (prints (codes "[Parser] setTimeout detected - would set timer") ∷ [], true)
execute_parsed_as read_file_sync fs_read_file stmt = (
  prints (codes "[Parser] Reading file asynchronously: " ++ stmt.content)
      ∷ reads_file stmt.content
      ∷ [],
  true,
)
execute_parsed_as read_file_sync fs_read_file_sync stmt = (
  prints (codes "[Parser] Reading file synchronously: " ++ stmt.content)
      ∷ print_file stmt.content (read_file_sync stmt.content)
      ∷ [],
  true,
)
execute_parsed_as read_file_sync fs_write_file stmt = (
  prints (codes "[Parser] Writing file asynchronously: " ++ stmt.content)
      ∷ writes_file stmt.content
          (option_or (codes "content") (codes "Hello from Kode Runtime!") stmt)
      ∷ [],
  true,
)
execute_parsed_as read_file_sync require stmt =
    (prints (codes "[Parser] Requiring module: " ++ stmt.content) ∷ [], true)
execute_parsed_as read_file_sync const_declaration stmt =
    (prints (codes "[Parser] Variable declaration: " ++ stmt.content) ∷ [], true)
execute_parsed_as read_file_sync let_declaration stmt =
    (prints (codes "[Parser] Variable declaration: " ++ stmt.content) ∷ [], true)
execute_parsed_as read_file_sync var_declaration stmt =
    (prints (codes "[Parser] Variable declaration: " ++ stmt.content) ∷ [], true)
execute_parsed_as read_file_sync _ stmt =
    (prints (codes "[Parser] Unknown statement type") ∷ [], false)

unfoldable pub execute_parsed : (Bytes → Bytes) → Statement → List Action × Bool
unfolding execute_parsed_as
execute_parsed read_file_sync stmt = execute_parsed_as read_file_sync stmt.type stmt
