-- ===== src/Prelude/Lists.antt =====
-- Lists measured and indexed by native numbers, under the library's names.
use Prim.Native.Nat.{ℕ, zero, suc, ◌+◌, ◌-◌, min}
use mathlib.Core.Path.{◌≡◌, refl, ap, subst}
use mathlib.Core.List.{List, [], ◌∷◌, ◌++◌}
use mathlib.Core.Option.{Option, none, some}
use native.Mathlib.Omega.{arith}
use native.Mathlib.Nat.{zero-add, suc-add}

module _ {ℓ} {A : Type ℓ} where
  abbrev pub length : List A → ℕ
  length [] = 0
  length (x ∷ xs) = suc (length xs)

  abbrev pub get_elem? : List A → ℕ → Option A
  get_elem? [] i = none
  get_elem? (x ∷ xs) zero = some x
  get_elem? (x ∷ xs) (suc i) = get_elem? xs i

  abbrev pub get_or : List A → ℕ → A → A
  get_or [] i d = d
  get_or (x ∷ xs) zero d = x
  get_or (x ∷ xs) (suc i) d = get_or xs i d

  -- A write out of bounds changes nothing.
  abbrev pub set : List A → ℕ → A → List A
  set [] i v = []
  set (x ∷ xs) zero v = v ∷ xs
  set (x ∷ xs) (suc i) v = x ∷ set xs i v

  abbrev pub take : ℕ → List A → List A
  take zero xs = []
  take (suc n) [] = []
  take (suc n) (x ∷ xs) = x ∷ take n xs

  abbrev pub drop : ℕ → List A → List A
  drop zero xs = xs
  drop (suc n) [] = []
  drop (suc n) (x ∷ xs) = drop n xs

  abbrev pub replicate : ℕ → A → List A
  replicate zero a = []
  replicate (suc n) a = a ∷ replicate n a

  -- Entry `k`, or the last, and the list without it.
  unfoldable pub extract : ℕ → List A → Option (A × List A)
  extract k [] = none
  extract zero (x ∷ xs) = some (x, xs)
  extract (suc k) (x ∷ xs) = elim (extract k xs) [
    | none ↦ some (x, xs)
    | some (y, ys) ↦ some (y, x ∷ ys)
  ]

  pub length-append : (xs ys : List A) → length (xs ++ ys) ≡ length xs + length ys
  length-append [] ys = omega arith
  length-append (x ∷ xs) ys = omega (arith, length-append xs ys)

  pub length-take : (n : ℕ) (xs : List A) → length (take n xs) ≡ min n (length xs)
  length-take zero xs = omega arith
  length-take (suc n) [] = omega arith
  length-take (suc n) (x ∷ xs) = omega (arith, length-take n xs)

  pub length-drop : (n : ℕ) (xs : List A) → length (drop n xs) ≡ length xs - n
  length-drop zero xs = omega arith
  length-drop (suc n) [] = omega arith
  length-drop (suc n) (x ∷ xs) = omega (arith, length-drop n xs)

  pub take-append-drop : (n : ℕ) (xs : List A) → take n xs ++ drop n xs ≡ xs
  take-append-drop zero xs = refl
  take-append-drop (suc n) [] = refl
  take-append-drop (suc n) (x ∷ xs) = rw (take-append-drop n xs)

  pub length-replicate : (n : ℕ) (a : A) → length (replicate n a) ≡ n
  length-replicate zero a = refl
  length-replicate (suc n) a = ap suc (length-replicate n a)

  pub drop-length_append : (xs ys : List A) → drop (length xs) (xs ++ ys) ≡ ys
  drop-length_append [] ys = refl
  drop-length_append (x ∷ xs) ys = drop-length_append xs ys

  pub take-length_append : (xs ys : List A) → take (length xs) (xs ++ ys) ≡ xs
  take-length_append [] ys = refl
  take-length_append (x ∷ xs) ys = ap (◌∷◌ x) (take-length_append xs ys)

pub take_past {ℓ} :
    {A : Type ℓ} (a s : List A) (i : ℕ) → take (length a + i) (a ++ s) ≡ a ++ take i s
take_past [] s i = rw zero-add
take_past (x ∷ a) s i = rw suc-add (ap (◌∷◌ x) (take_past a s i))

pub drop_past {ℓ} : {A : Type ℓ} (a s : List A) (i : ℕ) → drop (length a + i) (a ++ s) ≡ drop i s
drop_past [] s i = rw zero-add
drop_past (x ∷ a) s i = rw suc-add (drop_past a s i)

pub drop-drop {ℓ} : {A : Type ℓ} (s : List A) (i j : ℕ) → drop j (drop i s) ≡ drop (i + j) s
drop-drop s zero j = rw zero-add
drop-drop [] (suc i) zero = rw suc-add
drop-drop [] (suc i) (suc j) = rw suc-add
drop-drop (x ∷ s) (suc i) j = rw suc-add (drop-drop s i j)

-- A predicate on every entry, computed to a tuple.
abbrev pub All {ℓ κ} : {A : Type ℓ} → (A → Type κ) → List A → Type κ
All Holds [] = Unit
All Holds (a ∷ rest) = Holds a × All Holds rest

pub All-append {ℓ κ} :
    {A : Type ℓ} (Holds : A → Type κ) (front back : List A)
    → All Holds front
    → All Holds back
    → All Holds (front ++ back)
All-append Holds [] back h k = k
All-append Holds (a ∷ front) back (first, rest) k = (first, All-append Holds front back rest k)

pub All-set {ℓ κ} :
    {A : Type ℓ} (Holds : A → Type κ) (xs : List A) (i : ℕ) (x : A)
    → All Holds xs
    → Holds x
    → All Holds (set xs i x)
All-set Holds [] i x h p = h
All-set Holds (y ∷ xs) zero x (first, rest) p = (p, rest)
All-set Holds (y ∷ xs) (suc i) x (first, rest) p = (first, All-set Holds xs i x rest p)

pub All-get_elem? {ℓ κ} :
    {A : Type ℓ} (Holds : A → Type κ) (xs : List A) (i : ℕ) (x : A)
    → All Holds xs
    → get_elem? xs i ≡ some x
    → Holds x
All-get_elem? Holds [] i x h e = cc
All-get_elem? Holds (y ∷ xs) zero x (first, rest) e = subst Holds (cc) first
All-get_elem? Holds (y ∷ xs) (suc i) x (first, rest) e = All-get_elem? Holds xs i x rest e

pub All-weaken {ℓ κ} :
    {A : Type ℓ} (Holds Keeps : A → Type κ) (xs : List A)
    → ((x : A) → Holds x → Keeps x)
    → All Holds xs
    → All Keeps xs
All-weaken Holds Keeps [] f h = tt
All-weaken Holds Keeps (x ∷ xs) f (first, rest) = (f x first, All-weaken Holds Keeps xs f rest)
