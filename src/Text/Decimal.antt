-- ===== src/Text/Decimal.antt =====
-- `std::to_string` and `std::stoi`, `std::stoll`: decimal text of integers. A reader returns `none`
-- where the library function throws, on no digits or on a value out of range.
use kode.Prelude.{
  ℕ, zero, suc, ◌+◌, ◌-◌, ◌*◌, ◌/◌, ◌%◌, ◌^◌, ◌<◌, ◌≡◌, refl, ◌∙◌, Bool, true, false, ◌&&◌, ◌||◌,
  [], ◌∷◌, ◌++◌, Option, none, some, ℤ, pos, negsuc, arith, ltb, leb, ◌==◌, if◌then◌else◌,
  Bool-cases, All, inl, inr,
}
use native.Mathlib.Numerals.{add-one}
use kode.Text.{Bytes, codes}

unfoldable pub is_digit : ℕ → Bool
is_digit c = leb b'0' c && leb c b'9'

-- `isspace` in the C locale.
unfoldable pub is_space : ℕ → Bool
is_space c = c == b' ' || (leb 9 c && leb c 13)

-- The digits of `n`, most significant first, on fuel; `n + 1` is enough.
unfoldable pub digits_of : ℕ → ℕ → Bytes
digits_of zero n = []
digits_of (suc f) n =
    let higher = digits_of f (n / 10) ++ (b'0' + n % 10) ∷ [] in
    if ltb n 10 then (b'0' + n) ∷ [] else higher

unfoldable pub to_string : ℕ → Bytes
unfolding digits_of
to_string n = digits_of (n + 1) n

unfoldable pub to_string_int : ℤ → Bytes
unfolding to_string
to_string_int (pos n) = to_string n
to_string_int (negsuc n) = b'-' ∷ to_string (n + 1)

-- The value of the leading digits, and whether there is one.
unfoldable pub read_digits : ℕ → Bytes → ℕ
read_digits acc [] = acc
read_digits acc (c ∷ s) =
    let more = read_digits (acc * 10 + (c - b'0')) s in if is_digit c then more else acc

unfoldable pub starts_digit : Bytes → Bool
starts_digit [] = false
starts_digit (c ∷ s) = is_digit c

unfoldable pub skip_spaces : Bytes → Bytes
skip_spaces [] = []
skip_spaces (c ∷ s) = let rest = skip_spaces s in if is_space c then rest else c ∷ s

-- A value that fits a signed type of `w + 1` bits.
read_signed : ℕ → Bool → Bytes → Option ℤ
unfolding starts_digit
read_signed w negative s =
    let n = read_digits 0 s in
    if starts_digit s
    then if negative
      then if n == 0 then some (pos 0) else if leb n (2 ^ w) then some (negsuc (n - 1)) else none
      else if ltb n (2 ^ w)
      then some (pos n)
      else none
    else none

read_sign : ℕ → Bytes → Option ℤ
unfolding read_signed
read_sign w [] = none
read_sign w (c ∷ s) =
    if c == b'-'
    then read_signed w true s
    else if c == b'+'
    then read_signed w false s
    else read_signed w false (c ∷ s)

unfoldable pub stoi : Bytes → Option ℤ
unfolding read_sign is_digit is_space read_digits skip_spaces
stoi s = read_sign 31 (skip_spaces s)

unfoldable pub stoll : Bytes → Option ℤ
unfolding read_sign is_digit is_space read_digits skip_spaces
stoll s = read_sign 63 (skip_spaces s)

test_read : stoi (codes " -120x") ≡ some (negsuc 119)
unfolding stoi
test_read = refl

test_print : to_string 1024 ≡ codes "1024"
unfolding to_string
test_print = refl

abbrev pub AllDigits : Bytes → Type 0
AllDigits = All (λ c. is_digit c ≡ true)

read_digits-append :
    (s t : Bytes) (acc : ℕ)
    → AllDigits s
    → read_digits acc (s ++ t) ≡ read_digits (read_digits acc s) t
unfolding read_digits
read_digits-append [] t acc h = refl
read_digits-append (c ∷ s) t acc h = rw h.0 (read_digits-append s t _ h.1)

pub digit-is_digit : (d : ℕ) → d < 10 → is_digit (b'0' + d) ≡ true
unfolding is_digit
digit-is_digit d h = ground arith

AllDigits-append : (s t : Bytes) → AllDigits s → AllDigits t → AllDigits (s ++ t)
AllDigits-append [] t h k = k
AllDigits-append (c ∷ s) t h k = (h.0, AllDigits-append s t h.1 k)

digits_of-AllDigits : (f n : ℕ) → AllDigits (digits_of f n)
unfolding digits_of
digits_of-AllDigits zero n = tt
digits_of-AllDigits (suc f) n = elim (Bool-cases (ltb n 10)) [
  | inl e ↦ rw e (digit-is_digit n (ground arith), tt)
  | inr e ↦ rw e (
      AllDigits-append _ _ (digits_of-AllDigits f (n / 10))
        (digit-is_digit (n % 10) (omega arith), tt))
]

read_digits_one : (acc d : ℕ) → d < 10 → read_digits acc ((b'0' + d) ∷ []) ≡ acc * 10 + d
unfolding read_digits
read_digits_one acc d h = rw (digit-is_digit d h) (omega arith)

read_digits-digits_of : (f n : ℕ) → n < f → read_digits 0 (digits_of f n) ≡ n
unfolding digits_of
read_digits-digits_of zero n h = absurd (omega arith)
read_digits-digits_of (suc f) n h = elim (Bool-cases (ltb n 10)) [
  | inl e ↦ rw e (read_digits_one 0 n (ground arith) ∙ omega arith)
  | inr e ↦ rw e (
      read_digits-append _ _ 0 (digits_of-AllDigits f (n / 10))
      ∙ read_digits_one (read_digits 0 (digits_of f (n / 10))) (n % 10) (omega arith)
      ∙ omega (arith, read_digits-digits_of f (n / 10) (ground arith)))
]

starts_digit-digits_of : (f n : ℕ) → starts_digit (digits_of (suc f) n) ≡ true
unfolding digits_of
starts_digit-digits_of zero n = elim (Bool-cases (ltb n 10)) [
  | inl e ↦ rw e (unfold starts_digit in digit-is_digit n (ground arith))
  | inr e ↦ rw e (unfold starts_digit in digit-is_digit (n % 10) (omega arith))
]
starts_digit-digits_of (suc f) n = elim (Bool-cases (ltb n 10)) [
  | inl e ↦ rw e (unfold starts_digit in digit-is_digit n (ground arith))
  | inr e ↦ rw e (starts_digit-append _ _ (starts_digit-digits_of f (n / 10)))
]
  where
    starts_digit-append : (s t : Bytes) → starts_digit s ≡ true → starts_digit (s ++ t) ≡ true
    starts_digit-append [] t h = unfold starts_digit in cc
    starts_digit-append (c ∷ s) t h = unfold starts_digit in h

-- A text that begins with a digit has no space to skip and no sign.
read_sign_digit :
    (w : ℕ) (s : Bytes)
    → starts_digit s ≡ true
    → read_sign w (skip_spaces s) ≡ read_signed w false s
unfolding read_sign skip_spaces is_digit is_space starts_digit
read_sign_digit w [] h = cc
read_sign_digit w (c ∷ s) h = ground arith

-- The integers of a two's complement type of `w + 1` bits.
abbrev pub Fits : ℕ → ℤ → Type 0
Fits w (pos n) = n < 2 ^ w
Fits w (negsuc n) = n < 2 ^ w

module _ (w : ℕ) where
  to_string-starts_digit : (n : ℕ) → starts_digit (to_string n) ≡ true
  unfolding to_string
  to_string-starts_digit n = rw add-one (starts_digit-digits_of n n)

  read_digits-to_string : (n : ℕ) → read_digits 0 (to_string n) ≡ n
  unfolding to_string
  read_digits-to_string n = read_digits-digits_of (n + 1) n (omega arith)

  read_sign-to_string : (z : ℤ) → Fits w z → read_sign w (skip_spaces (to_string_int z)) ≡ some z
  unfolding to_string_int
  read_sign-to_string (pos n) h =
      read_sign_digit w (to_string n) (to_string-starts_digit n)
      ∙ (unfold read_signed in ground (arith, to_string-starts_digit n, read_digits-to_string n))
  read_sign-to_string (negsuc n) h =
      unfold read_sign skip_spaces is_space read_signed in
      ground (arith, to_string-starts_digit (n + 1), read_digits-to_string (n + 1))

-- `std::stoi` and `std::stoll` read back what `std::to_string` writes.
pub stoi-to_string : (z : ℤ) → Fits 31 z → stoi (to_string_int z) ≡ some z
unfolding stoi
stoi-to_string z h = read_sign-to_string 31 z h

pub stoll-to_string : (z : ℤ) → Fits 63 z → stoll (to_string_int z) ≡ some z
unfolding stoll
stoll-to_string z h = read_sign-to_string 63 z h

-- The text of an integer: not empty, and digits but for a leading sign.
pub to_string-AllDigits : (n : ℕ) → AllDigits (to_string n) × (starts_digit (to_string n) ≡ true)
unfolding to_string
to_string-AllDigits n = (digits_of-AllDigits (n + 1) n, rw add-one (starts_digit-digits_of n n))
