-- ===== src/Sha256.antt =====
-- src/v8/builtins/crypto.cc: `RotateRight`, `Sha256` and `ToHex`. Words are numbers below 2 ^ 32, with the
-- wrap-around of their sums written out.
pub mod Padding
pub mod Digest
pub mod Callback
mod Tests
use Prim.Native.Nat.{bit_and, bit_or, bit_xor}
use kode.Prelude.{
  ℕ, zero, suc, ◌+◌, ◌-◌, ◌*◌, ◌/◌, ◌%◌, ◌^◌, List, [], ◌∷◌, ◌++◌, ltb, ◌==◌, if◌then◌else◌, length,
  get_or, take, drop,
}
use kode.Text.{Bytes}

abbrev pub word : ℕ → ℕ
word n = n % 2 ^ 32

abbrev constants : List ℕ
constants =
    0x428a2f98 ∷ 0x71374491 ∷ 0xb5c0fbcf ∷ 0xe9b5dba5 ∷ 0x3956c25b ∷ 0x59f111f1 ∷ 0x923f82a4
    ∷ 0xab1c5ed5 ∷ 0xd807aa98 ∷ 0x12835b01 ∷ 0x243185be ∷ 0x550c7dc3 ∷ 0x72be5d74 ∷ 0x80deb1fe
    ∷ 0x9bdc06a7 ∷ 0xc19bf174 ∷ 0xe49b69c1 ∷ 0xefbe4786 ∷ 0x0fc19dc6 ∷ 0x240ca1cc ∷ 0x2de92c6f
    ∷ 0x4a7484aa ∷ 0x5cb0a9dc ∷ 0x76f988da ∷ 0x983e5152 ∷ 0xa831c66d ∷ 0xb00327c8 ∷ 0xbf597fc7
    ∷ 0xc6e00bf3 ∷ 0xd5a79147 ∷ 0x06ca6351 ∷ 0x14292967 ∷ 0x27b70a85 ∷ 0x2e1b2138 ∷ 0x4d2c6dfc
    ∷ 0x53380d13 ∷ 0x650a7354 ∷ 0x766a0abb ∷ 0x81c2c92e ∷ 0x92722c85 ∷ 0xa2bfe8a1 ∷ 0xa81a664b
    ∷ 0xc24b8b70 ∷ 0xc76c51a3 ∷ 0xd192e819 ∷ 0xd6990624 ∷ 0xf40e3585 ∷ 0x106aa070 ∷ 0x19a4c116
    ∷ 0x1e376c08 ∷ 0x2748774c ∷ 0x34b0bcb5 ∷ 0x391c0cb3 ∷ 0x4ed8aa4a ∷ 0x5b9cca4f ∷ 0x682e6ff3
    ∷ 0x748f82ee ∷ 0x78a5636f ∷ 0x84c87814 ∷ 0x8cc70208 ∷ 0x90befffa ∷ 0xa4506ceb ∷ 0xbef9a3f7
    ∷ 0xc67178f2 ∷ []

unfoldable pub rotate_right : ℕ → ℕ → ℕ
rotate_right value bits = bit_or (value / 2 ^ bits) (word (value * 2 ^ (32 - bits)))

-- The loop that pushes zeros; 64 rounds are enough.
unfoldable pub fill : ℕ → Bytes → Bytes
fill zero bytes = bytes
fill (suc fuel) bytes =
    let more = fill fuel (bytes ++ 0 ∷ []) in if length bytes % 64 == 56 then bytes else more

-- The bytes of a number, from byte `i - 1` down to byte 0.
unfoldable pub big_endian : ℕ → ℕ → Bytes
big_endian zero n = []
big_endian (suc i) n = n / 2 ^ (i * 8) % 256 ∷ big_endian i n

unfoldable pub pad : Bytes → Bytes
unfolding fill big_endian
pad input = fill 64 (input ++ 0x80 ∷ []) ++ big_endian 8 (length input * 8 % 2 ^ 64)

-- `words[0]` to `words[n - 1]`, from the bytes of a chunk.
unfoldable pub load_words : ℕ → Bytes → List ℕ
load_words zero bytes = []
load_words (suc n) bytes =
    bit_or (get_or bytes 0 0 * 2 ^ 24)
      (bit_or (get_or bytes 1 0 * 2 ^ 16) (bit_or (get_or bytes 2 0 * 2 ^ 8) (get_or bytes 3 0)))
    ∷ load_words n (drop 4 bytes)

-- The next `n` words behind `words`, the first of which is at `i`.
unfoldable pub extend_words : ℕ → ℕ → List ℕ → List ℕ
unfolding rotate_right
extend_words zero i words = words
extend_words (suc n) i words =
    let w15 = get_or words (i - 15) 0 in
    let w2 = get_or words (i - 2) 0 in
    let s0 = bit_xor (bit_xor (rotate_right w15 7) (rotate_right w15 18)) (w15 / 2 ^ 3) in
    let s1 = bit_xor (bit_xor (rotate_right w2 17) (rotate_right w2 19)) (w2 / 2 ^ 10) in
    extend_words n (i + 1)
      (words ++ word (get_or words (i - 16) 0 + s0 + get_or words (i - 7) 0 + s1) ∷ [])

pub record Hash : Type 0 where
  pub a : ℕ
  pub b : ℕ
  pub c : ℕ
  pub d : ℕ
  pub e : ℕ
  pub f : ℕ
  pub g : ℕ
  pub h : ℕ

abbrev pub initial : Hash
initial = record {
  a = 0x6a09e667;
  b = 0xbb67ae85;
  c = 0x3c6ef372;
  d = 0xa54ff53a;
  e = 0x510e527f;
  f = 0x9b05688c;
  g = 0x1f83d9ab;
  h = 0x5be0cd19;
}

-- `~x` on 32 bits is the distance from the largest word.
unfoldable pub round : ℕ → ℕ → Hash → Hash
unfolding rotate_right
round k w s =
    let s1 = bit_xor (bit_xor (rotate_right s.e 6) (rotate_right s.e 11)) (rotate_right s.e 25) in
    let ch = bit_xor (bit_and s.e s.f) (bit_and (2 ^ 32 - 1 - s.e) s.g) in
    let temp1 = word (s.h + s1 + ch + k + w) in
    let s0 = bit_xor (bit_xor (rotate_right s.a 2) (rotate_right s.a 13)) (rotate_right s.a 22) in
    let maj = bit_xor (bit_xor (bit_and s.a s.b) (bit_and s.a s.c)) (bit_and s.b s.c) in
    let temp2 = word (s0 + maj) in
    record {
      a = word (temp1 + temp2);
      b = s.a;
      c = s.b;
      d = s.c;
      e = word (s.d + temp1);
      f = s.e;
      g = s.f;
      h = s.g;
    }

unfoldable pub rounds : List ℕ → List ℕ → Hash → Hash
rounds [] words s = s
rounds (k ∷ ks) [] s = s
rounds (k ∷ ks) (w ∷ words) s = rounds ks words (round k w s)

abbrev pub add_hash : Hash → Hash → Hash
add_hash s t = record {
  a = word (s.a + t.a);
  b = word (s.b + t.b);
  c = word (s.c + t.c);
  d = word (s.d + t.d);
  e = word (s.e + t.e);
  f = word (s.f + t.f);
  g = word (s.g + t.g);
  h = word (s.h + t.h);
}

unfoldable pub compress : Bytes → Hash → Hash
unfolding load_words extend_words rounds
compress chunk s = add_hash s (rounds constants (extend_words 48 16 (load_words 16 chunk)) s)

-- The loop over `n` chunks.
unfoldable pub compress_all : ℕ → Bytes → Hash → Hash
unfolding compress
compress_all zero bytes s = s
compress_all (suc n) bytes s = compress_all n (drop 64 bytes) (compress (take 64 bytes) s)

unfoldable pub sha256 : Bytes → Bytes
unfolding pad compress_all big_endian
sha256 input =
    let bytes = pad input in
    let s = compress_all (length bytes / 64) bytes initial in
    big_endian 4 s.a
    ++ big_endian 4 s.b
    ++ big_endian 4 s.c
    ++ big_endian 4 s.d
    ++ big_endian 4 s.e
    ++ big_endian 4 s.f
    ++ big_endian 4 s.g
    ++ big_endian 4 s.h

unfoldable pub hex_digit : ℕ → ℕ
hex_digit n = if ltb n 10 then b'0' + n else b'a' + (n - 10)

unfoldable pub to_hex : Bytes → Bytes
unfolding hex_digit
to_hex [] = []
to_hex (byte ∷ bytes) = hex_digit (byte / 16) ∷ hex_digit (byte % 16) ∷ to_hex bytes
