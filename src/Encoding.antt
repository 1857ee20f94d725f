-- ===== src/Encoding.antt =====
-- src/v8/builtins/encoding.cc: the module `kode:encoding`, `Kode.text`, `TextEncoder` and `TextDecoder`.
-- Strings are their UTF-8 bytes; the string that V8 makes of bytes is an argument.
mod Views
mod Tests
use kode.Prelude.{
  ℕ, ◌+◌, ◌≡◌, refl, ap, Bool, true, false, ◌&&◌, ◌||◌, not, List, [], ◌∷◌, ◌++◌, Option, none,
  some, map, take, drop, length, leb, if◌then◌else◌, drop_past, take-length_append, arith,
}
use kode.Text.{Bytes, codes, equal}
use kode.Modules.{KodeError}
use kode.Values.{
  Input, undefined, string, view, array_buffer, other, Result, returns, throws, kode_error,
  read_string_arg,
}

unfoldable pub read_byte_input : Bytes → Input → Result Bytes
read_byte_input operation (view bytes offset size) = returns (take size (drop offset bytes))
read_byte_input operation (array_buffer bytes) = returns bytes
read_byte_input operation _ = throws (
    kode_error (codes "EINVAL") (codes "Expected Uint8Array, ArrayBuffer, or DataView") operation
      [])

-- A new array on a copy of the text.
unfoldable pub encode_utf8 : Bytes → Input
encode_utf8 bytes = view bytes 0 (length bytes)

unfoldable pub encode_with_operation : Bytes → List Input → Result Input
unfolding encode_utf8
encode_with_operation operation args = elim (read_string_arg operation args) [
  | returns bytes ↦ returns (encode_utf8 bytes)
  | throws error ↦ throws error
]

unfoldable pub decode_bytes : (Bytes → Option Bytes) → Bytes → Result Bytes → Result Bytes
decode_bytes from_utf8 operation (throws error) = throws error
decode_bytes from_utf8 operation (returns bytes) = elim (from_utf8 bytes) [
  | some decoded ↦ returns decoded
  | none ↦ throws (kode_error (codes "EINVAL") (codes "Invalid UTF-8 input") operation [])
]

unfoldable pub decode_with_operation : (Bytes → Option Bytes) → Bytes → List Input → Result Bytes
unfolding decode_bytes
decode_with_operation from_utf8 operation [] =
    throws (kode_error (codes "EINVAL") (codes "Missing byte input") operation [])
decode_with_operation from_utf8 operation (value ∷ args) =
    decode_bytes from_utf8 operation (read_byte_input operation value)

unfoldable pub ascii_lowercase : Bytes → Bytes
ascii_lowercase = map (λ c. if leb b'A' c && leb c b'Z' then c + 32 else c)

check_label : Result Bytes → Option KodeError
check_label (throws error) = some error
check_label (returns label) =
    let normalized = ascii_lowercase label in
    if equal normalized (codes "utf-8") || equal normalized (codes "utf8")
    then none
    else some (
        kode_error (codes "EUNSUPPORTED_ENCODING")
          (codes "Unsupported encoding '" ++ (label ++ codes "'")) (codes "TextDecoder") label)

-- `TextDecoderConstructor` behind the test for `new`.
unfoldable pub decoder_label : List Input → Option KodeError
unfolding check_label
decoder_label [] = none
decoder_label (undefined ∷ args) = none
decoder_label args = check_label (read_string_arg (codes "TextDecoder") args)

-- The constructors: the error, if there is one. The Boolean is `IsConstructCall`.
unfoldable pub text_decoder : Bool → List Input → Option KodeError
unfolding decoder_label
text_decoder true args = decoder_label args
text_decoder false args =
    some (kode_error (codes "EINVAL") (codes "TextDecoder requires new") (codes "TextDecoder") [])

unfoldable pub text_encoder : Bool → Option KodeError
text_encoder true = none
text_encoder false =
    some (kode_error (codes "EINVAL") (codes "TextEncoder requires new") (codes "TextEncoder") [])
