-- ===== src/Http/Response.antt =====
-- The bytes of a response, as a client reads them: the head up to the first empty line, and the body.
use kode.Prelude.{
  ℕ, ◌+◌, ◌≡◌, ◌≢◌, refl, Bool, true, not, ◌&&◌, List, [], ◌∷◌, ◌++◌, map, Option, none, some,
  arith, append_assoc, length, All, All-append, take, drop, take-length_append, drop_past, ◌==◌, ℤ,
  pos, negsuc,
}
use kode.Text.{Bytes, codes, find}
use kode.Text.Decimal.{to_string, to_string_int, to_string-AllDigits, AllDigits, is_digit}
use kode.Http.{Reply, crlf, header_lines, status_text, serialize}
use kode.Http.Lines.{NoReturn, IsLine, joined, blank_line, find-joined}

abbrev pub header_line : Bytes × Bytes → Bytes
header_line (name, value) = name ++ (codes ": " ++ value)

abbrev pub status_line : Reply → Bytes
status_line r = codes "HTTP/1.1 " ++ (to_string_int r.status ++ (codes " " ++ status_text r.status))

-- The headers, with their own between the type and the length.
abbrev pub other_lines : Reply → List Bytes
other_lines r =
    codes "Connection: close"
    ∷ (codes "Content-Type: " ++ r.content_type)
    ∷ (map header_line r.headers ++ ((codes "Content-Length: " ++ to_string (length r.body)) ∷ []))

-- The lines of the head.
abbrev pub head_lines : Reply → List Bytes
head_lines r = status_line r ∷ other_lines r

joined_more :
    (line last : Bytes) (lines : List Bytes)
    → joined (line ∷ (lines ++ (last ∷ []))) ≡ line ++ (crlf ++ joined (lines ++ (last ∷ [])))
joined_more line last [] = refl
joined_more line last (next ∷ lines) = refl

joined-header_lines :
    (hs : List (Bytes × Bytes)) (last s : Bytes)
    → header_lines hs ++ (last ++ s) ≡ joined (map header_line hs ++ (last ∷ [])) ++ s
unfolding header_lines
joined-header_lines [] last s = refl
joined-header_lines ((name, value) ∷ hs) last s =
    rw (joined_more (header_line (name, value)) last (map header_line hs))
      (simp (append_assoc, joined-header_lines hs last s))

-- A response is its head, an empty line, and the body.
serialize-head_lines :
    (r : Reply) → serialize r ≡ joined (head_lines r) ++ (crlf ++ (crlf ++ r.body))
unfolding serialize
serialize-head_lines r =
    rw
      (
        joined_more (codes "Content-Type: " ++ r.content_type)
            (codes "Content-Length: " ++ to_string (length r.body)) (map header_line r.headers),
        joined-header_lines r.headers (codes "Content-Length: " ++ to_string (length r.body))
            (crlf ++ (crlf ++ r.body)),
        serialize,
      )
      (simp append_assoc)

abbrev pub no_return : Bytes → Bool
no_return [] = true
no_return (c ∷ s) = not (c == b'\r') && no_return s

pub no_return-NoReturn : (s : Bytes) → no_return s ≡ true → NoReturn s
no_return-NoReturn [] h = tt
no_return-NoReturn (c ∷ s) h = (ground arith, no_return-NoReturn s (ground arith))

AllDigits-NoReturn : (s : Bytes) → AllDigits s → NoReturn s
unfolding is_digit
AllDigits-NoReturn [] h = tt
AllDigits-NoReturn (c ∷ s) h = let digit = h.0 in (ground arith, AllDigits-NoReturn s h.1)

NoReturn-to_string_int : (n : ℤ) → NoReturn (to_string_int n)
unfolding to_string_int
NoReturn-to_string_int (pos n) = AllDigits-NoReturn _ (to_string-AllDigits n).0
NoReturn-to_string_int (negsuc n) =
    (ground arith, AllDigits-NoReturn _ (to_string-AllDigits (n + 1)).0)

no_return-status_text : (n : ℤ) → no_return (status_text n) ≡ true
unfolding status_text
no_return-status_text n = ground arith

-- What a handler must not do: a carriage return in a header or in the type.
abbrev pub IsPlain : Reply → Type 0
IsPlain r = NoReturn r.content_type × All (λ kv. NoReturn kv.0 × NoReturn kv.1) r.headers

prefix-IsLine :
    (c : ℕ) (p s : Bytes) → no_return (c ∷ p) ≡ true → NoReturn s → IsLine ((c ∷ p) ++ s)
prefix-IsLine c p s h k = (ground arith, All-append _ (c ∷ p) s (no_return-NoReturn (c ∷ p) h) k)

append_not_empty : (name s : Bytes) (c : ℕ) → (name ++ (c ∷ s)) ≢ []
append_not_empty [] s c e = cc
append_not_empty (d ∷ name) s c e = cc

header_lines-IsLine :
    (hs : List (Bytes × Bytes))
    → All (λ kv. NoReturn kv.0 × NoReturn kv.1) hs
    → All IsLine (map header_line hs)
header_lines-IsLine [] h = tt
header_lines-IsLine ((name, value) ∷ hs) h = (
  (
    append_not_empty name (b' ' ∷ value) b':',
    All-append _ name (codes ": " ++ value) h.0.0
        (All-append _ (codes ": ") value (no_return-NoReturn (codes ": ") refl) h.0.1),
  ),
  header_lines-IsLine hs h.1,
)

head_lines-IsLine : (r : Reply) → IsPlain r → All IsLine (head_lines r)
head_lines-IsLine r h = (
  prefix-IsLine b'H' (codes "TTP/1.1 ") _ refl (
      All-append _ (to_string_int r.status) _ (NoReturn-to_string_int r.status) (
        All-append _ (codes " ") _ (no_return-NoReturn (codes " ") refl)
          (no_return-NoReturn (status_text r.status) (no_return-status_text r.status)))),
  (
    prefix-IsLine b'C' (codes "onnection: close") [] refl tt,
    (
      prefix-IsLine b'C' (codes "ontent-Type: ") _ refl h.0,
      All-append _ (map header_line r.headers) _ (header_lines-IsLine r.headers h.1) (
        prefix-IsLine b'C' (codes "ontent-Length: ") _ refl
            (AllDigits-NoReturn _ (to_string-AllDigits (length r.body)).0),
        tt,
      ),
    ),
  ),
)

-- A client's view: the head before the first empty line, and all the bytes after it.
unfoldable pub read_response : Bytes → Option (Bytes × Bytes)
read_response s = elim (find blank_line s) [
  | none ↦ none
  | some i ↦ some (take i s, drop (i + 4) s)
]

read_response_lines :
    (line : Bytes) (lines : List Bytes) (body : Bytes)
    → All IsLine (line ∷ lines)
    → read_response (joined (line ∷ lines) ++ (crlf ++ (crlf ++ body)))
      ≡ some (joined (line ∷ lines), body)
unfolding read_response
read_response_lines line lines body h = rw (
  find-joined line lines body h,
  take-length_append (joined (line ∷ lines)) (crlf ++ (crlf ++ body)),
  drop_past (joined (line ∷ lines)) (crlf ++ (crlf ++ body)) 4,
  read_response,
)

-- A client that cuts a response at its first empty line gets the head line by line as written and
-- the body byte for byte, where no header and no content type has a carriage return: so the length
-- that the last line of the head announces is that of the body it gets.
pub read_response-serialize :
    (r : Reply) → IsPlain r → read_response (serialize r) ≡ some (joined (head_lines r), r.body)
unfolding read_response
read_response-serialize r h =
    rw (serialize-head_lines r)
      (read_response_lines (status_line r) (other_lines r) r.body (head_lines-IsLine r h))
