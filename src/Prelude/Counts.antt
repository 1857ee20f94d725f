-- ===== src/Prelude/Counts.antt =====
-- How often a number is on a list whose entries begin with one.
use Prim.Native.Nat.{ℕ, zero, suc, ◌+◌}
use mathlib.Core.Path.{◌≡◌}
use mathlib.Core.Logic.{inl, inr}
use mathlib.Core.Bool.{Bool, true, false}
use mathlib.Core.Option.{some}
use mathlib.Core.List.{List, [], ◌∷◌, ◌++◌}
use native.Mathlib.Omega.{arith}
use kode.Prelude.Tests.{◌==◌, Option-cases}
use kode.Prelude.Lists.{extract}

abbrev pub one_if : Bool → ℕ
one_if true = 1
one_if false = 0

-- How often a number heads an entry.
unfoldable pub count {ℓ} : {A : Type ℓ} → ℕ → List (ℕ × A) → ℕ
count id [] = 0
count id ((j, a) ∷ xs) = one_if (j == id) + count id xs

module _ {ℓ} {A : Type ℓ} where
  pub count-append :
      (id : ℕ) (xs : List (ℕ × A)) (j : ℕ) (a : A)
      → count id (xs ++ (j, a) ∷ []) ≡ count id xs + one_if (j == id)
  unfolding count
  count-append id [] j a = omega arith
  count-append id ((i, b) ∷ xs) j a = omega (arith, count-append id xs j a)

  -- What `extract` takes off a list.
  pub extract-count :
      (id k : ℕ) (xs ys : List (ℕ × A)) (j : ℕ) (a : A)
      → extract k xs ≡ some ((j, a), ys)
      → count id xs ≡ one_if (j == id) + count id ys
  unfolding count extract
  extract-count id k [] ys j a e = absurd (ground arith)
  extract-count id zero ((i, b) ∷ xs) ys j a e = ground arith
  extract-count id (suc k) ((i, b) ∷ xs) ys j a e = elim (Option-cases (extract k xs)) [
    | inl m ↦ ground arith
    | inr (((h, c), zs), m) ↦ ground (arith, extract-count id k xs zs h c m)
  ]
