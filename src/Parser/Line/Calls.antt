-- ===== src/Parser/Line/Calls.antt =====
-- `ParseLine` on the calls of the concurrency API, written out with any names, values and numbers.
use kode.Prelude.{
  ℕ, ◌+◌, ◌≡◌, ◌≢◌, refl, sym, ap, true, false, List, [], ◌∷◌, ◌++◌, map, ℤ, pos, negsuc, arith,
  All, ◌==◌, append_assoc,
}
use kode.Text.{Bytes, codes, starts_with, equal, pop_back}
use kode.Text.Dict.{insert}
use kode.Text.Decimal.{
  is_digit, starts_digit, to_string_int, Fits, AllDigits, stoi-to_string, to_string-AllDigits,
}
use kode.Parser.{Statement, kode_spawn, ch_create, ch_send, ch_recv, yield_op, with_timeout, blank}
use kode.Parser.Clean.{is_blank, trim_whitespace, remove_semicolons}
use kode.Parser.Clean.Trim.{StartsSolid, trim_whitespace_solid}
use kode.Parser.Arguments.{extract_function_arguments}
use kode.Parser.Arguments.Literals.{
  IsQuote, ends_in-append, EndsSolid-append, extract_string_literal-quoted,
}
use kode.Parser.Arguments.Written.{
  Argument, literal, word, IsWritable, IsBody, IsWord, is_special, written,
}
use kode.Parser.Arguments.RoundTrip.{join, call, extract_function_arguments-call}
use kode.Parser.Line.{
  parse_line, parse_trimmed, parse_kode, parse_create_channel, parse_send_to_channel,
  parse_receive_from_channel, parse_with_timeout,
}

-- A call of the API; each text with the quote that it is written with.
pub data ApiCall : Type 0 where
  spawns : ℕ → Bytes → ApiCall
  create_channel : ℕ → Bytes → ℤ → ApiCall
  send_to_channel : ℕ → Bytes → ℕ → Bytes → ApiCall
  receive_from_channel : ℕ → Bytes → ApiCall
  yields : ApiCall
  with_timeout_ms : ℤ → ℕ → Bytes → ApiCall

abbrev name_of : ApiCall → Bytes
name_of (spawns q code) = codes "kode"
name_of (create_channel q name n) = codes "createChannel"
name_of (send_to_channel q name r value) = codes "sendToChannel"
name_of (receive_from_channel q name) = codes "receiveFromChannel"
name_of yields = codes "yield"
name_of (with_timeout_ms ms q code) = codes "withTimeout"

abbrev number : ℤ → Argument
number z = word (to_string_int z)

abbrev arguments_of : ApiCall → List Argument
arguments_of (spawns q code) = literal q code ∷ []
arguments_of (create_channel q name n) = literal q name ∷ number n ∷ []
arguments_of (send_to_channel q name r value) = literal q name ∷ literal r value ∷ []
arguments_of (receive_from_channel q name) = literal q name ∷ []
arguments_of yields = []
arguments_of (with_timeout_ms ms q code) = number ms ∷ literal q code ∷ []

abbrev pub source_of : ApiCall → Bytes
source_of c = call (name_of c) (arguments_of c)

abbrev IsText : ℕ → Bytes → Type 0
IsText q body = IsQuote q × IsBody q body

-- The texts hold neither their quote nor a backslash, and the numbers fit an `int`.
abbrev pub IsApiCall : ApiCall → Type 0
IsApiCall (spawns q code) = IsText q code
IsApiCall (create_channel q name n) = IsText q name × Fits 31 n
IsApiCall (send_to_channel q name r value) = IsText q name × IsText r value
IsApiCall (receive_from_channel q name) = IsText q name
IsApiCall yields = Unit
IsApiCall (with_timeout_ms ms q code) = Fits 31 ms × IsText q code

-- What each call means.
abbrev pub statement_of : ApiCall → Statement
statement_of (spawns q code) = record { type = kode_spawn; content = code; options = [] }
statement_of (create_channel q name n) = record {
  type = ch_create;
  content = [];
  options = (codes "name", name) ∷ (codes "capacity", to_string_int n) ∷ [];
}
statement_of (send_to_channel q name r value) = record {
  type = ch_send;
  content = [];
  options = (codes "name", name) ∷ (codes "value", value) ∷ [];
}
statement_of (receive_from_channel q name) = record {
  type = ch_recv;
  content = [];
  options = (codes "name", name) ∷ [];
}
statement_of yields = blank yield_op
statement_of (with_timeout_ms ms q code) = record {
  type = with_timeout;
  content = code;
  options = (codes "timeout", to_string_int ms) ∷ [];
}

digits-special : (s : Bytes) → AllDigits s → All (λ c. is_special c ≡ false) s
unfolding is_digit is_special is_blank
digits-special [] h = tt
digits-special (c ∷ s) h = (ground arith, digits-special s h.1)

starts_digit-ne-nil : (s : Bytes) → starts_digit s ≡ true → s ≢ []
unfolding starts_digit
starts_digit-ne-nil s h e = ground arith

IsWord-to_string_int : (z : ℤ) → IsWord (to_string_int z)
unfolding to_string_int
IsWord-to_string_int (pos n) =
    let (h, k) = to_string-AllDigits n in (starts_digit-ne-nil _ k, digits-special _ h)
IsWord-to_string_int (negsuc n) =
    let (h, k) = to_string-AllDigits (n + 1) in
    ((λ e. cc), (unfold is_special is_blank in refl, digits-special _ h))

IsApiCall-IsWritable : (c : ApiCall) → IsApiCall c → All IsWritable (arguments_of c)
IsApiCall-IsWritable (spawns q code) h = (h, tt)
IsApiCall-IsWritable (create_channel q name n) h = (h.0, (IsWord-to_string_int n, tt))
IsApiCall-IsWritable (send_to_channel q name r value) h = (h.0, (h.1, tt))
IsApiCall-IsWritable (receive_from_channel q name) h = (h, tt)
IsApiCall-IsWritable yields h = tt
IsApiCall-IsWritable (with_timeout_ms ms q code) h = (IsWord-to_string_int ms, (h.1, tt))

name-plain : (c : ApiCall) → All (λ d. (d == b'(') ≡ false) (name_of c)
name-plain (spawns q code) = ground arith
name-plain (create_channel q name n) = ground arith
name-plain (send_to_channel q name r value) = ground arith
name-plain (receive_from_channel q name) = ground arith
name-plain yields = ground arith
name-plain (with_timeout_ms ms q code) = ground arith

arguments-read :
    (c : ApiCall)
    → IsApiCall c
    → extract_function_arguments (source_of c) ≡ map written (arguments_of c)
arguments-read c h =
    extract_function_arguments-call (name_of c) (arguments_of c) (name-plain c)
      (IsApiCall-IsWritable c h)

pub pop_back-append : (s : Bytes) (d : ℕ) → pop_back (s ++ d ∷ []) ≡ s
unfolding pop_back
pop_back-append [] d = refl
pop_back-append (c ∷ []) d = refl
pop_back-append (c ∷ e ∷ s) d = ap (◌∷◌ c) (pop_back-append (e ∷ s) d)

remove_semicolons-semicolon : (s : Bytes) → remove_semicolons (s ++ b';' ∷ []) ≡ s
unfolding remove_semicolons
remove_semicolons-semicolon s = rw (ends_in-append b';' s b';') (pop_back-append s b';')

call-append :
    (name : Bytes) (items : List Argument)
    → call name items ≡ (name ++ b'(' ∷ join items) ++ b')' ∷ []
call-append name items = sym (append_assoc name (b'(' ∷ join items) (b')' ∷ []))

remove_semicolons-call :
    (name : Bytes) (items : List Argument) → remove_semicolons (call name items) ≡ call name items
unfolding remove_semicolons
remove_semicolons-call name items =
    rw (call-append name items) (rw (ends_in-append b';' (name ++ b'(' ∷ join items) b')') refl)

source_of-StartsSolid : (c : ApiCall) → StartsSolid (source_of c)
unfolding is_blank
source_of-StartsSolid (spawns q code) = refl
source_of-StartsSolid (create_channel q name n) = refl
source_of-StartsSolid (send_to_channel q name r value) = refl
source_of-StartsSolid (receive_from_channel q name) = refl
source_of-StartsSolid yields = refl
source_of-StartsSolid (with_timeout_ms ms q code) = refl

pub trim-source_of : (c : ApiCall) → trim_whitespace (source_of c) ≡ source_of c
trim-source_of c = trim_whitespace_solid (source_of c) (source_of-StartsSolid c) (
    rw (call-append (name_of c) (arguments_of c))
      (EndsSolid-append (name_of c ++ b'(' ∷ join (arguments_of c)) b')' (unfold is_blank in refl)))

parse_trimmed-call : (c : ApiCall) → IsApiCall c → parse_trimmed (source_of c) ≡ statement_of c
unfolding parse_trimmed starts_with equal parse_kode parse_create_channel parse_send_to_channel
    parse_receive_from_channel parse_with_timeout insert
parse_trimmed-call (spawns q code) h =
    rw (arguments-read (spawns q code) h, extract_string_literal-quoted q code h.0) refl
parse_trimmed-call (create_channel q name n) h =
    rw
      (
        arguments-read (create_channel q name n) h,
        extract_string_literal-quoted q name h.0.0,
        stoi-to_string n h.1,
      )
      refl
parse_trimmed-call (send_to_channel q name r value) h =
    rw
      (
        arguments-read (send_to_channel q name r value) h,
        extract_string_literal-quoted q name h.0.0,
        extract_string_literal-quoted r value h.1.0,
      )
      refl
parse_trimmed-call (receive_from_channel q name) h =
    rw (arguments-read (receive_from_channel q name) h, extract_string_literal-quoted q name h.0)
      refl
parse_trimmed-call yields h = refl
parse_trimmed-call (with_timeout_ms ms q code) h =
    rw (arguments-read (with_timeout_ms ms q code) h, extract_string_literal-quoted q code h.1.0)
      (ground (arith, stoi-to_string ms h.0))

-- `ParseLine` reads every call of the concurrency API back, with or without a semicolon: the type of
-- the statement, and each text and number as it was written; for texts with neither their own quote
-- nor a backslash inside, and numbers that fit an `int`.
pub parse_line-source_of :
    (c : ApiCall)
    → IsApiCall c
    → (parse_line (source_of c) ≡ statement_of c)
      × (parse_line (source_of c ++ b';' ∷ []) ≡ statement_of c)
unfolding parse_line
parse_line-source_of c h = (
  rw (remove_semicolons-call (name_of c) (arguments_of c), trim-source_of c)
      (parse_trimmed-call c h),
  rw (remove_semicolons-semicolon (source_of c), trim-source_of c) (parse_trimmed-call c h),
)
