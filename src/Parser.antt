-- ===== src/Parser.antt =====
-- src/parser/parser.h and parser.cc: the statement parser `KodeParser`. This file has the type of a
-- statement; the children have the helpers, `ParseLine` and `Parse`, and their proofs.
pub mod Clean
pub mod Arguments
pub mod Line
pub mod Program
mod Tests
use kode.Prelude.{List, []}
use kode.Text.{Bytes}

-- `Statement::Type`.
pub data StatementType : Type 0 where
  console_log console_error console_warn console_info : StatementType
  set_timeout set_interval clear_timeout clear_interval : StatementType
  kode_spawn ch_create ch_send ch_recv yield_op with_timeout : StatementType
  fs_read_file fs_write_file fs_read_file_sync fs_write_file_sync : StatementType
  fs_exists fs_mkdir fs_readdir fs_stat : StatementType
  require import export : StatementType
  const_declaration let_declaration var_declaration : StatementType
  function_declaration arrow_function class_declaration : StatementType
  method_call property_access : StatementType
  if_statement for_loop while_loop try_catch : StatementType
  assignment binary_operation unary_operation : StatementType
  string_literal number_literal boolean_literal null_literal : StatementType
  async_function await_expression promise_then promise_catch : StatementType
  template_literal destructuring spread_operator : StatementType
  unknown error : StatementType

-- The fields of `Statement` that the parser writes or the runtime reads.
pub record Statement : Type 0 where
  pub type : StatementType
  pub content : Bytes
  pub options : List (Bytes × Bytes)

-- `Statement stmt; stmt.type = …;`.
abbrev pub blank : StatementType → Statement
blank t = record { type = t; content = []; options = [] }
