-- ===== src/Sha256/Padding.antt =====
-- The padding: whole chunks, from which the message can be read back.
use native.Mathlib.Nat.{div-div-eq-div-mul, pow-suc}
use kode.Prelude.{
  ℕ, zero, suc, ◌+◌, ◌-◌, ◌*◌, ◌/◌, ◌%◌, ◌^◌, ◌≤◌, ◌<◌, ◌≡◌, refl, sym, ap, ◌∙◌, inl, inr,
  Bool-cases, [], ◌∷◌, ◌++◌, arith, ◌==◌, length, length-append, append_assoc, append-nil, take,
  drop, take-length_append, drop-length_append,
}
use kode.Text.{Bytes}
use kode.Sha256.{fill, big_endian, pad}

-- What is left to fill, up to 56 of 64.
abbrev gap : ℕ → ℕ
gap n = (120 - n % 64) % 64

fill-length : (f : ℕ) (bytes : Bytes) → gap (length bytes) ≤ f → length (fill f bytes) % 64 ≡ 56
unfolding fill
fill-length zero bytes h = omega arith
fill-length (suc f) bytes h = elim (Bool-cases (length bytes % 64 == 56)) [
  | inl e ↦ rw e (ground (arith, e))
  | inr e ↦
      let longer = length-append bytes (0 ∷ []) in
      let open_gap : gap (length (bytes ++ 0 ∷ [])) ≤ f = ground (arith, e, longer, h) in
      rw e (fill-length f (bytes ++ 0 ∷ []) open_gap)
]

fill-append : (f : ℕ) (bytes : Bytes) → (zeros : Bytes) × (fill f bytes ≡ bytes ++ zeros)
unfolding fill
fill-append zero bytes = ([], sym (append-nil bytes))
fill-append (suc f) bytes = elim (Bool-cases (length bytes % 64 == 56)) [
  | inl e ↦ ([], rw e (sym (append-nil bytes)))
  | inr e ↦
      let (zeros, q) = fill-append f (bytes ++ 0 ∷ []) in
      (0 ∷ zeros, rw e (q ∙ append_assoc bytes (0 ∷ []) zeros))
]

pub length-big_endian : (i n : ℕ) → length (big_endian i n) ≡ i
unfolding big_endian
length-big_endian zero n = refl
length-big_endian (suc i) n = ap suc (length-big_endian i n)

-- The number that bytes stand for, the first of them the highest.
unfoldable pub be_value : ℕ → Bytes → ℕ
be_value acc [] = acc
be_value acc (b ∷ bytes) = be_value (acc * 256 + b) bytes

power_step : (i : ℕ) → 2 ^ (suc i * 8) ≡ 2 ^ (i * 8) * 256
power_step i =
    let exponent : suc i * 8 ≡ suc (suc (suc (suc (suc (suc (suc (suc (i * 8)))))))) =
      omega arith in
    ap (λ e. 2 ^ e) exponent ∙ eight (i * 8)
  where
    eight : (k : ℕ) → 2 ^ suc (suc (suc (suc (suc (suc (suc (suc k))))))) ≡ 2 ^ k * 256
    eight k = simp pow-suc (omega arith)

divide : (n p q : ℕ) → q ≡ p * 256 → n / q * 256 + n / p % 256 ≡ n / p
divide n p q e = rw (e, sym (div-div-eq-div-mul n p 256)) (omega arith)

top_byte : (i n : ℕ) → n / 2 ^ (suc i * 8) * 256 + n / 2 ^ (i * 8) % 256 ≡ n / 2 ^ (i * 8)
top_byte i n = divide n (2 ^ (i * 8)) (2 ^ (suc i * 8)) (power_step i)

be_value-big_endian : (i n : ℕ) → be_value (n / 2 ^ (i * 8)) (big_endian i n) ≡ n
unfolding be_value big_endian
be_value-big_endian zero n = omega arith
be_value-big_endian (suc i) n = rw (be_value, top_byte i n) (be_value-big_endian i n)

length_field : (n : ℕ) → n < 2 ^ 64 → be_value 0 (big_endian 8 (n % 2 ^ 64)) ≡ n
length_field n h =
    let same : n % 2 ^ 64 ≡ n = omega arith in
    let none_above : n / 2 ^ (8 * 8) ≡ 0 = omega arith in
    ap (λ m. be_value 0 (big_endian 8 m)) same
    ∙ ap (λ acc. be_value acc (big_endian 8 n)) (sym none_above)
    ∙ be_value-big_endian 8 n

-- What a reader does: the length is in the last eight bytes.
unfoldable pub read_message : Bytes → Bytes
unfolding be_value
read_message padded = take (be_value 0 (drop (length padded - 8) padded) / 8) padded

read_split :
    (input rest tail : Bytes)
    → length tail ≡ 8
    → be_value 0 tail ≡ length input * 8
    → read_message ((input ++ rest) ++ tail) ≡ input
unfolding read_message
read_split input rest tail eight value =
    let start : length ((input ++ rest) ++ tail) - 8 ≡ length (input ++ rest) =
      omega (arith, length-append (input ++ rest) tail, eight) in
    let size : length input * 8 / 8 ≡ length input = omega arith in
    rw (start, drop-length_append (input ++ rest) tail, value, size, append_assoc input rest tail)
      (take-length_append input (rest ++ tail))

-- The padding fills whole chunks of 64 bytes, and a reader that takes the length from the last eight
-- bytes gets the message back, so two messages never have the same padding; for a message whose length in
-- bits fits 64 bits.
pub read_message-pad :
    (input : Bytes)
    → length input * 8 < 2 ^ 64
    → (length (pad input) % 64 ≡ 0) × (read_message (pad input) ≡ input)
unfolding pad read_message
read_message-pad input h =
    let last = length-big_endian 8 (length input * 8 % 2 ^ 64) in
    let whole =
      length-append (fill 64 (input ++ 0x80 ∷ [])) (big_endian 8 (length input * 8 % 2 ^ 64)) in
    let room = fill-length 64 (input ++ 0x80 ∷ []) (omega arith) in
    let (zeros, front) = fill-append 64 (input ++ 0x80 ∷ []) in
    (
      omega (arith, last, whole, room),
      rw (front, append_assoc input (0x80 ∷ []) zeros)
          (read_split input (0x80 ∷ zeros) (big_endian 8 (length input * 8 % 2 ^ 64)) last
            (length_field (length input * 8) h)),
    )
