-- ===== src/Encoding/Tests.antt =====
-- Runs of the encoding module.
use kode.Prelude.{◌≡◌, refl, true, [], ◌∷◌, none, some}
use kode.Text.{codes, equal}
use kode.Values.{string, view, returns, read_string_arg, kode_error}
use kode.Encoding.{text_decoder, ascii_lowercase, decode_with_operation, read_byte_input}

label_in_capitals : text_decoder true (string (codes "UTF-8") ∷ []) ≡ none
unfolding text_decoder ascii_lowercase equal read_string_arg
label_in_capitals = refl

other_label :
    text_decoder true (string (codes "latin1") ∷ [])
    ≡ some (
        kode_error
          (codes "EUNSUPPORTED_ENCODING")
          (codes "Unsupported encoding 'latin1'")
          (codes "TextDecoder")
          (codes "latin1"))
unfolding text_decoder ascii_lowercase equal read_string_arg
other_label = refl

inner_view :
    decode_with_operation some (codes "TextDecoder.decode") (view (codes "xabcy") 1 3 ∷ [])
    ≡ returns (codes "abc")
unfolding decode_with_operation read_byte_input
inner_view = refl
