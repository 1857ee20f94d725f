-- ===== src/Text.antt =====
-- `std::string` as the sources use it: a list of bytes, with the searches and cuts that they call.
-- A position that the source compares with `npos` is an `Option`.
pub mod Avoids
pub mod Find
pub mod Dict
pub mod Decimal
use Prim.Native.Char.{code}
use Prim.Native.String.{String}
use mathlib.Core.Option
use kode.Prelude.{
  ℕ, ◌+◌, Bool, true, false, ◌&&◌, List, [], ◌∷◌, ◌++◌, Option, none, some, ◌==◌, if◌then◌else◌,
  take, drop, is_some,
}

abbrev pub Bytes : Type 0
Bytes = List ℕ

-- The bytes of an ASCII literal.
abbrev pub codes : String → Bytes
codes String.[] = []
codes (String.◌∷◌ c s) = code c ∷ codes s

abbrev pub is_empty {ℓ} : {A : Type ℓ} → List A → Bool
is_empty [] = true
is_empty (x ∷ xs) = false

-- A text that is handed over as a C string ends at its first zero byte.
unfoldable pub c_string : Bytes → Bytes
c_string [] = []
c_string (c ∷ s) = let rest = c_string s in if c == 0 then [] else c ∷ rest

-- `V8String` of src/v8/v8_helpers.cc.
abbrev pub v8_string : Bytes → Bytes
v8_string value = c_string value

-- `==`.
unfoldable pub equal : Bytes → Bytes → Bool
equal [] [] = true
equal [] (y ∷ ys) = false
equal (x ∷ xs) [] = false
equal (x ∷ xs) (y ∷ ys) = x == y && equal xs ys

-- `s.rfind(p, 0) == 0`, and `s.find(p) == 0`.
unfoldable pub starts_with : Bytes → Bytes → Bool
starts_with [] s = true
starts_with (x ∷ p) [] = false
starts_with (x ∷ p) (y ∷ s) = x == y && starts_with p s

-- `s.find(p)`: where the first occurrence begins.
unfoldable pub find : Bytes → Bytes → Option ℕ
unfolding starts_with
find p [] = if starts_with p [] then some 0 else none
find p (c ∷ s) = if starts_with p (c ∷ s) then some 0 else Option.map (λ i. i + 1) (find p s)

-- `s.find(p, pos)`.
unfoldable pub find_from : Bytes → Bytes → ℕ → Option ℕ
unfolding find
find_from p s pos = Option.map (λ i. pos + i) (find p (drop pos s))

-- `s.find(p) != npos`.
abbrev pub contains : Bytes → Bytes → Bool
contains p s = is_some (find p s)

later : Option ℕ → Bool → Option ℕ
later (some i) here = some (i + 1)
later none true = some 0
later none false = none

-- The first, and the last, position whose byte passes the test.
unfoldable pub find_first : (ℕ → Bool) → Bytes → Option ℕ
find_first test [] = none
find_first test (c ∷ s) = if test c then some 0 else Option.map (λ i. i + 1) (find_first test s)

unfoldable pub find_last : (ℕ → Bool) → Bytes → Option ℕ
unfolding later
find_last test [] = none
find_last test (c ∷ s) = later (find_last test s) (test c)

-- `s.substr(pos, n)` and `s.erase(pos, n)`.
abbrev pub substr : Bytes → ℕ → ℕ → Bytes
substr s pos n = take n (drop pos s)

abbrev pub erase : Bytes → ℕ → ℕ → Bytes
erase s pos n = take pos s ++ drop (pos + n) s

-- `s.back()`, and `s.pop_back()`.
unfoldable pub back? : Bytes → Option ℕ
back? [] = none
back? (c ∷ []) = some c
back? (c ∷ d ∷ s) = back? (d ∷ s)

unfoldable pub pop_back : Bytes → Bytes
pop_back [] = []
pop_back (c ∷ []) = []
pop_back (c ∷ d ∷ s) = c ∷ pop_back (d ∷ s)

-- `!s.empty() && s.back() == c`.
unfoldable pub ends_in : ℕ → Bytes → Bool
unfolding back?
ends_in c s = elim (back? s) [ none ↦ false | some d ↦ d == c ]
