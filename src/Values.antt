-- ===== src/Values.antt =====
-- src/v8/v8_helpers.cc: what V8 says of the arguments of a callback, and what a callback gives. Strings are
-- their UTF-8 bytes.
use kode.Prelude.{ℕ, List, [], ◌∷◌, ◌++◌}
use kode.Text.{Bytes, codes, v8_string}
use kode.Modules.{KodeError}

-- A `view` is a Uint8Array or a DataView: its buffer, its offset and its length.
pub data Input : Type 0 where
  undefined : Input
  string : Bytes → Input
  view : Bytes → ℕ → ℕ → Input
  array_buffer : Bytes → Input
  other : Input

pub data Result {ℓ} (A : Type ℓ) : Type ℓ where
  returns : A → Result A
  throws : KodeError → Result A

-- `CreateKodeError`.
abbrev pub kode_error : Bytes → Bytes → Bytes → Bytes → KodeError
kode_error code message operation path = record {
  code = v8_string code;
  message = v8_string message;
  operation = v8_string operation;
  path = v8_string path;
}

-- `ReadStringArg`, for the argument at the head of the list.
unfoldable pub read_string_arg : Bytes → List Input → Result Bytes
read_string_arg operation (string bytes ∷ args) = returns bytes
read_string_arg operation _ =
    throws
      (kode_error (codes "EINVAL") (operation ++ codes " requires string arguments") operation [])
