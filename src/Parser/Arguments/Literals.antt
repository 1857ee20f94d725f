-- ===== src/Parser/Arguments/Literals.antt =====
-- `ExtractStringLiteral` on quoted text.
use kode.Prelude.{
  ℕ, ◌-◌, ◌≡◌, ◌⊎◌, refl, false, [], ◌∷◌, ◌++◌, arith, length, length-append, take-length_append,
  ◌==◌,
}
use kode.Text.{Bytes, ends_in, substr}
use kode.Parser.Clean.{is_blank, trim_whitespace}
use kode.Parser.Clean.Trim.{EndsSolid, trim_whitespace_solid}
use kode.Parser.Arguments.{is_quoted, extract_string_literal}

-- The three quotes.
abbrev pub IsQuote : ℕ → Type 0
IsQuote q = (q ≡ b'\'') ⊎ (q ≡ b'"') ⊎ (q ≡ b'`')

abbrev pub quoted : ℕ → Bytes → Bytes
quoted q body = q ∷ (body ++ q ∷ [])

pub ends_in-append : (q : ℕ) (s : Bytes) (d : ℕ) → ends_in q (s ++ d ∷ []) ≡ (d == q)
unfolding ends_in
ends_in-append q [] d = refl
ends_in-append q (c ∷ []) d = refl
ends_in-append q (c ∷ e ∷ s) d = ends_in-append q (e ∷ s) d

pub EndsSolid-append : (s : Bytes) (d : ℕ) → is_blank d ≡ false → EndsSolid (s ++ d ∷ [])
EndsSolid-append [] d h = h
EndsSolid-append (c ∷ []) d h = h
EndsSolid-append (c ∷ e ∷ s) d h = EndsSolid-append (e ∷ s) d h

quote-solid : (q : ℕ) → IsQuote q → is_blank q ≡ false
unfolding is_blank
quote-solid q h = ground arith

pub trim-quoted :
    (q : ℕ) (body : Bytes) → IsQuote q → trim_whitespace (quoted q body) ≡ quoted q body
trim-quoted q body h =
    trim_whitespace_solid (quoted q body) (quote-solid q h)
      (EndsSolid-append (q ∷ body) q (quote-solid q h))

is_quoted-quoted : (p q : ℕ) (body : Bytes) → is_quoted p (quoted q body) ≡ (q == p)
unfolding is_quoted
is_quoted-quoted p q body =
    ground (arith, ends_in-append p (q ∷ body) q, length-append body (q ∷ []))

inside-quoted :
    (q : ℕ) (body : Bytes) → substr (quoted q body) 1 (length (quoted q body) - 2) ≡ body
inside-quoted q body =
    let same : length (quoted q body) - 2 ≡ length body =
      omega (arith, length-append body (q ∷ [])) in
    rw same (take-length_append body (q ∷ []))

-- A text between two equal quotes is taken out whole, whatever it holds.
pub extract_string_literal-quoted :
    (q : ℕ) (body : Bytes) → IsQuote q → extract_string_literal (quoted q body) ≡ body
unfolding extract_string_literal
extract_string_literal-quoted q body h = rw (trim-quoted q body h) (
    ground (
      arith,
      is_quoted-quoted b'\'' q body,
      is_quoted-quoted b'"' q body,
      is_quoted-quoted b'`' q body,
      inside-quoted q body,
    ))
