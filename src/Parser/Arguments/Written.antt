-- ===== src/Parser/Arguments/Written.antt =====
-- `ExtractFunctionArguments` reads one argument as it was written.
use kode.Prelude.{
  ℕ, ◌≡◌, ◌≢◌, refl, ap, ◌∙◌, Bool, false, ◌||◌, List, [], ◌∷◌, ◌++◌, arith, append_assoc,
  append-nil, ◌==◌, All,
}
use kode.Text.{Bytes}
use kode.Parser.Clean.{is_blank, trim_whitespace}
use kode.Parser.Clean.Trim.{StartsSolid, EndsSolid, trim_whitespace_solid}
use kode.Parser.Arguments.Literals.{IsQuote, quoted, trim-quoted}
use kode.Parser.Arguments.{Scanner, start, scan_byte, scan}

abbrev pub plain : List Bytes → Bytes → Scanner
plain args cur = record start { args = args; cur = cur }

abbrev inside : ℕ → List Bytes → Bytes → Scanner
inside q args cur = record start {
  args = args;
  cur = cur;
  in_single = q == b'\'';
  in_double = q == b'"';
  in_backtick = q == b'`';
}

-- A byte with no meaning inside the quotes `q`; a byte with none outside every quote.
abbrev pub IsBody : ℕ → Bytes → Type 0
IsBody q = All (λ c. (c ≢ q) × (c ≢ b'\\'))

unfoldable pub is_special : ℕ → Bool
is_special c =
    c == b'\''
    || c == b'"'
    || c == b'`'
    || c == b'('
    || c == b')'
    || c == b','
    || c == b'\\'
    || is_blank c

abbrev pub IsWord : Bytes → Type 0
IsWord w = (w ≢ []) × All (λ c. is_special c ≡ false) w

pub data Argument : Type 0 where
  literal : ℕ → Bytes → Argument
  word : Bytes → Argument

abbrev pub IsWritable : Argument → Type 0
IsWritable (literal q body) = IsQuote q × IsBody q body
IsWritable (word w) = IsWord w

abbrev pub written : Argument → Bytes
written (literal q body) = quoted q body
written (word w) = w

pub scan-append : (a b : Bytes) (s : Scanner) → scan s (a ++ b) ≡ scan (scan s a) b
unfolding scan
scan-append [] b s = refl
scan-append (c ∷ a) b s = scan-append a b (scan_byte s c)

scan_byte-open :
    (q : ℕ) (args : List Bytes) (cur : Bytes)
    → IsQuote q
    → scan_byte (plain args cur) q ≡ inside q args (cur ++ q ∷ [])
unfolding scan_byte
scan_byte-open q args cur h = ground arith

scan_byte-body :
    (q c : ℕ) (args : List Bytes) (cur : Bytes)
    → IsQuote q
    → c ≢ q
    → c ≢ b'\\'
    → scan_byte (inside q args cur) c ≡ inside q args (cur ++ c ∷ [])
unfolding scan_byte
scan_byte-body q c args cur h n m = ground arith

scan_byte-close :
    (q : ℕ) (args : List Bytes) (cur : Bytes)
    → IsQuote q
    → scan_byte (inside q args cur) q ≡ plain args (cur ++ q ∷ [])
unfolding scan_byte
scan_byte-close q args cur h = ground arith

scan_byte-word :
    (c : ℕ) (args : List Bytes) (cur : Bytes)
    → is_special c ≡ false
    → scan_byte (plain args cur) c ≡ plain args (cur ++ c ∷ [])
unfolding scan_byte is_special
scan_byte-word c args cur h = ground arith

scan-body :
    (q : ℕ) (body : Bytes) (args : List Bytes) (cur : Bytes)
    → IsQuote q
    → IsBody q body
    → scan (inside q args cur) body ≡ inside q args (cur ++ body)
unfolding scan
scan-body q [] args cur h k = rw append-nil
scan-body q (c ∷ body) args cur h k =
    ap (λ s. scan s body) (scan_byte-body q c args cur h k.0.0 k.0.1)
    ∙ scan-body q body args (cur ++ c ∷ []) h k.1
    ∙ ap (inside q args) (append_assoc cur (c ∷ []) body)

scan-word :
    (w : Bytes) (args : List Bytes) (cur : Bytes)
    → All (λ c. is_special c ≡ false) w
    → scan (plain args cur) w ≡ plain args (cur ++ w)
unfolding scan
scan-word [] args cur k = rw append-nil
scan-word (c ∷ w) args cur k =
    ap (λ s. scan s w) (scan_byte-word c args cur k.0)
    ∙ scan-word w args (cur ++ c ∷ []) k.1
    ∙ ap (plain args) (append_assoc cur (c ∷ []) w)

-- An argument is read whole, and leaves the scanner outside every quote and parenthesis.
pub scan-written :
    (a : Argument) (args : List Bytes) (cur : Bytes)
    → IsWritable a
    → scan (plain args cur) (written a) ≡ plain args (cur ++ written a)
scan-written (word w) args cur h = scan-word w args cur h.1
scan-written (literal q body) args cur h =
    unfold scan in
    (ap (λ s. scan s (body ++ q ∷ [])) (scan_byte-open q args cur h.0)
      ∙ scan-append body (q ∷ []) (inside q args (cur ++ q ∷ []))
      ∙ ap (λ s. scan s (q ∷ [])) (scan-body q body args (cur ++ q ∷ []) h.0 h.1)
      ∙ scan_byte-close q args ((cur ++ q ∷ []) ++ body) h.0
      ∙ ap (plain args) (simp append_assoc))

StartsSolid-special : (w : Bytes) → All (λ c. is_special c ≡ false) w → StartsSolid w
unfolding is_special
StartsSolid-special [] h = tt
StartsSolid-special (c ∷ w) h = ground arith

EndsSolid-special : (w : Bytes) → All (λ c. is_special c ≡ false) w → EndsSolid w
unfolding is_special
EndsSolid-special [] h = tt
EndsSolid-special (c ∷ []) h = ground arith
EndsSolid-special (c ∷ d ∷ w) h = EndsSolid-special (d ∷ w) h.1

pub trim-written : (a : Argument) → IsWritable a → trim_whitespace (written a) ≡ written a
trim-written (word w) h =
    trim_whitespace_solid w (StartsSolid-special w h.1) (EndsSolid-special w h.1)
trim-written (literal q body) h = trim-quoted q body h.0
