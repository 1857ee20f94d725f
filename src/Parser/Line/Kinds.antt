-- ===== src/Parser/Line/Kinds.antt =====
-- Which statements `ParseLine` makes, and of which lines.
use kode.Prelude.{◌≡◌, refl, Bool, true, false, List, arith, if◌then◌else◌}
use kode.Text.{Bytes, codes, contains}
use kode.Parser.{
  Statement, StatementType, console_error, set_timeout, kode_spawn, ch_create, ch_send, ch_recv,
  with_timeout, fs_read_file, fs_write_file, fs_read_file_sync, require, const_declaration,
  let_declaration, var_declaration, unknown, yield_op,
}
use kode.Parser.Line.{
  parse_kode, parse_create_channel, parse_send_to_channel, parse_receive_from_channel,
  parse_with_timeout, parse_console, parse_timer, parse_read_file, parse_read_file_sync,
  parse_write_file, parse_require, parse_operation, parse_trimmed,
}

abbrev pub is_console_error : StatementType → Bool
is_console_error console_error = true
is_console_error _ = false

-- A statement of type CONSOLE_ERROR comes only from a line with "console.error" in it.
pub record Named (t : Bytes) (stmt : Statement) : Type 0 where
  pub named : is_console_error stmt.type ≡ true → contains (codes "console.error") t ≡ true

if_Named :
    (t : Bytes) (b : Bool) (x y : Statement) → Named t x → Named t y → Named t (if b then x else y)
if_Named t true x y h k = h
if_Named t false x y h k = k

other_type :
    (t : Bytes) (x : Statement) (k : StatementType)
    → x.type ≡ k
    → is_console_error k ≡ false
    → Named t x
other_type t x k e n = record { named = λ h. cc }

parse_console-Named : (t : Bytes) → Named t (parse_console t)
unfolding parse_console
parse_console-Named t = record { named = λ h. ground arith }

parse_timer-type : (items : List Bytes) → (parse_timer items).type ≡ set_timeout
unfolding parse_timer
parse_timer-type items = refl

parse_read_file-type : (items : List Bytes) → (parse_read_file items).type ≡ fs_read_file
unfolding parse_read_file
parse_read_file-type items = ground arith

parse_read_file_sync-type :
    (items : List Bytes) → (parse_read_file_sync items).type ≡ fs_read_file_sync
unfolding parse_read_file_sync
parse_read_file_sync-type items = refl

parse_write_file-type : (items : List Bytes) → (parse_write_file items).type ≡ fs_write_file
unfolding parse_write_file
parse_write_file-type items = ground arith

parse_require-type : (t : Bytes) → (parse_require t).type ≡ require
unfolding parse_require
parse_require-type t = ground arith

parse_kode-type : (items : List Bytes) → (parse_kode items).type ≡ kode_spawn
unfolding parse_kode
parse_kode-type items = refl

parse_create_channel-type : (items : List Bytes) → (parse_create_channel items).type ≡ ch_create
unfolding parse_create_channel
parse_create_channel-type items = ground arith

parse_send_to_channel-type : (items : List Bytes) → (parse_send_to_channel items).type ≡ ch_send
unfolding parse_send_to_channel
parse_send_to_channel-type items = ground arith

parse_receive_from_channel-type :
    (items : List Bytes) → (parse_receive_from_channel items).type ≡ ch_recv
unfolding parse_receive_from_channel
parse_receive_from_channel-type items = ground arith

parse_with_timeout-type : (items : List Bytes) → (parse_with_timeout items).type ≡ with_timeout
unfolding parse_with_timeout
parse_with_timeout-type items = ground arith

parse_operation-Named : (t : Bytes) → Named t (parse_operation t)
unfolding parse_operation
parse_operation-Named t = if_Named t _ _ _ (parse_console-Named t) (
    if_Named t _ _ _ (other_type t _ set_timeout (parse_timer-type _) refl) (
      if_Named t _ _ _ (other_type t _ fs_read_file (parse_read_file-type _) refl) (
        if_Named t _ _ _ (other_type t _ fs_read_file_sync (parse_read_file_sync-type _) refl) (
          if_Named t _ _ _ (other_type t _ fs_write_file (parse_write_file-type _) refl) (
            if_Named t _ _ _ (other_type t _ require (parse_require-type _) refl) (
              if_Named t _ _ _ (other_type t _ const_declaration refl refl) (
                if_Named t _ _ _ (other_type t _ let_declaration refl refl) (
                  if_Named t _ _ _ (other_type t _ var_declaration refl refl)
                    (other_type t _ unknown refl refl)))))))))

pub parse_trimmed-Named : (t : Bytes) → Named t (parse_trimmed t)
unfolding parse_trimmed
parse_trimmed-Named t = if_Named t _ _ _ (other_type t _ kode_spawn (parse_kode-type _) refl) (
    if_Named t _ _ _ (other_type t _ ch_create (parse_create_channel-type _) refl) (
      if_Named t _ _ _ (other_type t _ ch_send (parse_send_to_channel-type _) refl) (
        if_Named t _ _ _ (other_type t _ ch_recv (parse_receive_from_channel-type _) refl) (
          if_Named t _ _ _ (other_type t _ yield_op refl refl) (
            if_Named t _ _ _ (other_type t _ with_timeout (parse_with_timeout-type _) refl)
              (parse_operation-Named t))))))
