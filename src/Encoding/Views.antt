-- ===== src/Encoding/Views.antt =====
-- src/v8/builtins/encoding.cc: decoding reads the bytes of a view, and undoes encoding.
use kode.Prelude.{
  ◌≡◌, refl, ap, [], ◌∷◌, ◌++◌, Option, some, take, drop, length, take-length_append,
}
use kode.Text.{Bytes}
use kode.Values.{view, array_buffer, returns}
use kode.Encoding.{read_byte_input, encode_utf8, decode_bytes, decode_with_operation}

drop-length : (front back : Bytes) → drop (length front) (front ++ back) ≡ back
drop-length [] back = refl
drop-length (x ∷ front) back = drop-length front back

-- A view anywhere in a buffer is decoded as a buffer of just its bytes is.
decode-view :
    (from_utf8 : Bytes → Option Bytes) (operation front bytes back : Bytes)
    → decode_with_operation from_utf8 operation
        (view (front ++ (bytes ++ back)) (length front) (length bytes) ∷ [])
      ≡ decode_with_operation from_utf8 operation (array_buffer bytes ∷ [])
unfolding decode_with_operation read_byte_input
decode-view from_utf8 operation front bytes back =
    rw (drop-length front (bytes ++ back), take-length_append bytes back) refl

take-all : (bytes : Bytes) → take (length bytes) bytes ≡ bytes
take-all [] = refl
take-all (x ∷ bytes) = ap (◌∷◌ x) (take-all bytes)

-- What `encodeUtf8` gives, `decodeUtf8` turns back into the same text, where V8 decodes the text's bytes.
decode-encode :
    (from_utf8 : Bytes → Option Bytes) (operation bytes : Bytes)
    → from_utf8 bytes ≡ some bytes
    → decode_with_operation from_utf8 operation (encode_utf8 bytes ∷ []) ≡ returns bytes
unfolding decode_with_operation read_byte_input encode_utf8 decode_bytes
decode-encode from_utf8 operation bytes e = rw (take-all bytes, e) refl
