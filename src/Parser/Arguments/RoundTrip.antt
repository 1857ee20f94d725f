-- ===== src/Parser/Arguments/RoundTrip.antt =====
-- `ExtractFunctionArguments` reads back the arguments of a call as they were written.
use kode.Prelude.{
  suc, ◌+◌, ◌-◌, ◌≡◌, refl, sym, ap, ◌∙◌, Bool, true, false, List, [], ◌∷◌, ◌++◌, some, map, arith,
  length, length-append, take-length_append, append_assoc, drop_past, ◌==◌, All,
}
use kode.Text.{Bytes, is_empty}
use kode.Text.Find.{find_first-append, find_last-append}
use kode.Parser.Clean.{is_blank, trim_whitespace}
use kode.Parser.Clean.Trim.{trim_whitespace_blank}
use kode.Parser.Arguments.{
  scan_byte, scan, finish, split_arguments, between, extract_function_arguments,
}
use kode.Parser.Arguments.Written.{
  plain, Argument, literal, word, IsWritable, written, scan-append, scan-written, trim-written,
}

-- The text of a call's arguments, `a, b, c`.
abbrev pub join : List Argument → Bytes
join [] = []
join (a ∷ []) = written a
join (a ∷ b ∷ rest) = written a ++ (b',' ∷ b' ' ∷ join (b ∷ rest))

-- What stands before an argument: nothing, or the space behind a comma.
abbrev lead : Bool → Bytes
lead true = []
lead false = b' ' ∷ []

trim-lead :
    (first : Bool) (a : Argument)
    → IsWritable a
    → trim_whitespace (lead first ++ written a) ≡ written a
unfolding is_blank
trim-lead true a h = trim-written a h
trim-lead false a h = trim_whitespace_blank b' ' (written a) refl ∙ trim-written a h

scan_byte-comma :
    (args : List Bytes) (cur : Bytes)
    → scan_byte (plain args cur) b',' ≡ plain (args ++ trim_whitespace cur ∷ []) []
unfolding scan_byte
scan_byte-comma args cur = refl

scan_byte-space : (args : List Bytes) → scan_byte (plain args []) b' ' ≡ plain args (b' ' ∷ [])
unfolding scan_byte
scan_byte-space args = refl

is_empty-lead :
    (first : Bool) (a : Argument) → IsWritable a → is_empty (lead first ++ written a) ≡ false
is_empty-lead false a h = refl
is_empty-lead true (literal q body) h = refl
is_empty-lead true (word []) h = absurd (h.0 refl)
is_empty-lead true (word (c ∷ w)) h = refl

scan-comma :
    (a b : Argument) (rest : List Argument) (done : List Bytes) (first : Bool)
    → IsWritable a
    → scan (plain done (lead first ++ written a)) (b',' ∷ b' ' ∷ join (b ∷ rest))
      ≡ scan (plain (done ++ written a ∷ []) (b' ' ∷ [])) (join (b ∷ rest))
unfolding scan
scan-comma a b rest done first h =
    ap (λ s. scan (scan_byte s b' ') (join (b ∷ rest)))
      (scan_byte-comma done (lead first ++ written a)
        ∙ ap (λ w. plain (done ++ w ∷ []) []) (trim-lead first a h))
    ∙ ap (λ s. scan s (join (b ∷ rest))) (scan_byte-space (done ++ written a ∷ []))

-- From one argument to the end of the text, whatever text `t` the loop was started on.
scan-join :
    (a : Argument) (rest : List Argument) (done : List Bytes) (first : Bool) (t : Bytes)
    → All IsWritable (a ∷ rest)
    → finish t (scan (plain done (lead first)) (join (a ∷ rest))) ≡ done ++ map written (a ∷ rest)
unfolding finish
scan-join a [] done first t h =
    rw (scan-written a done (lead first) h.0, is_empty-lead first a h.0, trim-lead first a h.0) refl
scan-join a (b ∷ rest) done first t h =
    ap (finish t) (
      scan-append (written a) (b',' ∷ b' ' ∷ join (b ∷ rest)) (plain done (lead first))
      ∙ ap (λ s. scan s (b',' ∷ b' ' ∷ join (b ∷ rest))) (scan-written a done (lead first) h.0)
      ∙ scan-comma a b rest done first h.0)
    ∙ scan-join b rest (done ++ written a ∷ []) false t h.1
    ∙ append_assoc done (written a ∷ []) (map written (b ∷ rest))

split_arguments-join :
    (items : List Argument)
    → All IsWritable items
    → split_arguments (join items) ≡ map written items
unfolding split_arguments
split_arguments-join [] h = unfold scan finish in refl
split_arguments-join (a ∷ rest) h = scan-join a rest [] true (join (a ∷ rest)) h

-- A call as it is written: `name(a, b, c)`.
abbrev pub call : Bytes → List Argument → Bytes
call name items = name ++ (b'(' ∷ (join items ++ b')' ∷ []))

-- The text between two positions of a line.
between-split :
    (name body : Bytes)
    → between
        (name ++ (b'(' ∷ (body ++ b')' ∷ [])))
        (some (length name))
        (some (length (name ++ b'(' ∷ body)))
      ≡ split_arguments body
unfolding between
between-split name body =
    let long : length (name ++ b'(' ∷ body) ≡ length name + suc (length body) =
      length-append name (b'(' ∷ body) in
    let size : length (name ++ b'(' ∷ body) - length name - 1 ≡ length body = omega (arith, long) in
    rw (size, drop_past name (b'(' ∷ (body ++ b')' ∷ [])) 1, take-length_append body (b')' ∷ []))
      (ground (arith, long))

-- `ExtractFunctionArguments` gives the arguments of a call back, each as it was written: quoted text
-- with no quote of its kind and no backslash inside, and words with no quote, parenthesis, comma,
-- backslash or blank; for a name with no parenthesis.
pub extract_function_arguments-call :
    (name : Bytes) (items : List Argument)
    → All (λ c. (c == b'(') ≡ false) name
    → All IsWritable items
    → extract_function_arguments (call name items) ≡ map written items
unfolding extract_function_arguments
extract_function_arguments-call name items h k =
    rw
      (
        find_first-append (λ c. c == b'(') name b'(' (join items ++ b')' ∷ []) h refl,
        sym (append_assoc name (b'(' ∷ join items) (b')' ∷ [])),
        find_last-append (λ c. c == b')') (name ++ b'(' ∷ join items) b')' refl,
        append_assoc name (b'(' ∷ join items) (b')' ∷ []),
      )
      (between-split name (join items) ∙ split_arguments-join items k)
