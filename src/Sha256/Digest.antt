-- ===== src/Sha256/Digest.antt =====
-- The form of a digest: 32 bytes, written with 64 hexadecimal digits.
use kode.Prelude.{
  ℕ, zero, suc, ◌+◌, ◌*◌, ◌/◌, ◌%◌, ◌<◌, ◌≤◌, ◌≡◌, refl, ◌⊎◌, [], ◌∷◌, ◌++◌, arith, length,
  length-append, All, All-append,
}
use kode.Text.{Bytes}
use kode.Sha256.Padding.{length-big_endian}
use kode.Sha256.{sha256, pad, compress_all, initial, big_endian, to_hex, hex_digit}

abbrev IsByte : ℕ → Type 0
IsByte n = n < 256

big_endian-IsByte : (i n : ℕ) → All IsByte (big_endian i n)
unfolding big_endian
big_endian-IsByte zero n = tt
big_endian-IsByte (suc i) n = (omega arith, big_endian-IsByte i n)

-- The digits 0 to 9 and a to f.
abbrev pub IsHexDigit : ℕ → Type 0
IsHexDigit c = ((b'0' ≤ c) × (c ≤ b'9')) ⊎ ((b'a' ≤ c) × (c ≤ b'f'))

hex_digit-IsHexDigit : (n : ℕ) → n < 16 → IsHexDigit (hex_digit n)
unfolding hex_digit
hex_digit-IsHexDigit n h = ground arith

to_hex-IsHexDigit :
    (bytes : Bytes)
    → All IsByte bytes
    → (length (to_hex bytes) ≡ 2 * length bytes) × All IsHexDigit (to_hex bytes)
unfolding to_hex
to_hex-IsHexDigit [] h = (refl, tt)
to_hex-IsHexDigit (byte ∷ bytes) (first, rest) =
    let (long, digits) = to_hex-IsHexDigit bytes rest in
    (
      omega (arith, long),
      (
        hex_digit-IsHexDigit (byte / 16) (omega (arith, first)),
        (hex_digit-IsHexDigit (byte % 16) (omega arith), digits),
      ),
    )

record IsPart (n : ℕ) (part : Bytes) : Type 0 where
  pub long : length part ≡ n
  pub bytes : All IsByte part

part : (n : ℕ) → IsPart 4 (big_endian 4 n)
part n = record { long = length-big_endian 4 n; bytes = big_endian-IsByte 4 n }

part-append : (m n : ℕ) (xs ys : Bytes) → IsPart m xs → IsPart n ys → IsPart (m + n) (xs ++ ys)
part-append m n xs ys p q = record {
  long = omega (arith, length-append xs ys, p.long, q.long);
  bytes = All-append IsByte xs ys p.bytes q.bytes;
}

sha256-IsPart : (input : Bytes) → IsPart 32 (sha256 input)
unfolding sha256
sha256-IsPart input =
    let s = compress_all (length (pad input) / 64) (pad input) initial in
    part-append 4 28 _ _ (part s.a) (
      part-append 4 24 _ _ (part s.b) (
        part-append 4 20 _ _ (part s.c) (
          part-append 4 16 _ _ (part s.d) (
            part-append 4 12 _ _ (part s.e)
              (part-append 4 8 _ _ (part s.f) (part-append 4 4 _ _ (part s.g) (part s.h)))))))

-- The digest of every input has 32 bytes, and is printed as 64 digits from 0 to 9 and a to f.
sha256-to_hex :
    (input : Bytes)
    → (length (sha256 input) ≡ 32)
      × All (λ n. n < 256) (sha256 input)
      × (length (to_hex (sha256 input)) ≡ 64)
      × All IsHexDigit (to_hex (sha256 input))
sha256-to_hex input =
    let whole = sha256-IsPart input in
    let (twice, digits) = to_hex-IsHexDigit (sha256 input) whole.bytes in
    (whole.long, whole.bytes, omega (arith, twice, whole.long), digits)
