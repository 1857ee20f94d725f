-- ===== src/Text/Find.antt =====
-- The laws of the searches.
use kode.Prelude.{
  ℕ, ◌≡◌, ◌↔◌, refl, ap, inl, inr, Bool, true, false, [], ◌∷◌, ◌++◌, some, arith, append_assoc,
  append-nil, length, Bool-cases, ◌==◌, All,
}
use native.Mathlib.Numerals.{add-one}
use kode.Text.{Bytes, equal, starts_with, find, contains, find_first, find_last}

pub equal_iff : (s t : Bytes) → (equal s t ≡ true) ↔ (s ≡ t)
unfolding equal
equal_iff [] [] = ground arith
equal_iff [] (d ∷ t) = ground arith
equal_iff (c ∷ s) [] = ground arith
equal_iff (c ∷ s) (d ∷ t) = ground (arith, equal_iff s t)

pub equal_self : (a : Bytes) → equal a a ≡ true
equal_self a = (equal_iff a a).1 refl

pub starts_with-append : (p s : Bytes) → starts_with p (p ++ s) ≡ true
unfolding starts_with
starts_with-append [] s = refl
starts_with-append (x ∷ p) s = ground (arith, starts_with-append p s)

pub starts_with-split : (p s : Bytes) → starts_with p s ≡ true → (t : Bytes) × (s ≡ p ++ t)
unfolding starts_with
starts_with-split [] s h = (s, refl)
starts_with-split (x ∷ p) [] h = cc
starts_with-split (x ∷ p) (y ∷ s) h =
    let (t, e) = starts_with-split p s (ground arith) in (t, ground arith)

pub find-split :
    (p s : Bytes) → contains p s ≡ true → (a : Bytes) × (b : Bytes) × (s ≡ a ++ (p ++ b))
unfolding find
find-split p [] h = elim (Bool-cases (starts_with p [])) [
  | inl e ↦ let (t, q) = starts_with-split p [] e in ([], t, q)
  | inr e ↦ absurd (ground arith)
]
find-split p (c ∷ s) h = elim (Bool-cases (starts_with p (c ∷ s))) [
  | inl e ↦ let (t, q) = starts_with-split p (c ∷ s) e in ([], t, q)
  | inr e ↦ let (a, b, q) = find-split p s (ground arith) in (c ∷ a, b, ap (◌∷◌ c) q)
]

contains-prefix : (p s : Bytes) → starts_with p s ≡ true → contains p s ≡ true
unfolding find
contains-prefix p [] h = ground arith
contains-prefix p (c ∷ s) h = ground arith

pub contains-append : (p a b : Bytes) → contains p (a ++ (p ++ b)) ≡ true
unfolding find
contains-append p [] b = contains-prefix p (p ++ b) (starts_with-append p b)
contains-append p (c ∷ a) b = ground (arith, contains-append p a b)

-- What a part of a text contains, the text contains.
pub contains-middle : (p c q d : Bytes) → contains p q ≡ true → contains p (c ++ (q ++ d)) ≡ true
contains-middle p c q d h =
    let (a, b, e) = find-split p q h in rw (regroup a b e) (contains-append p (c ++ a) (b ++ d))
  where
    regroup : (a b : Bytes) → q ≡ a ++ (p ++ b) → c ++ (q ++ d) ≡ (c ++ a) ++ (p ++ (b ++ d))
    regroup a b e = rw e (simp append_assoc)

pub contains-suffix : (p c q : Bytes) → contains p q ≡ true → contains p (c ++ q) ≡ true
contains-suffix p c q h = rw (append-nil q) at (contains-middle p c q [] h)

pub contains-front : (p q d : Bytes) → contains p q ≡ true → contains p (q ++ d) ≡ true
contains-front p q d h = contains-middle p [] q d h

-- A text that contains `q` contains every part of `q`.
pub contains_trans :
    (p q s : Bytes) → contains p q ≡ true → contains q s ≡ true → contains p s ≡ true
contains_trans p q s h k = let (c, d, f) = find-split q s k in rw f (contains-middle p c q d h)

pub contains-starts_with :
    (p q s : Bytes) → contains p q ≡ true → starts_with q s ≡ true → contains p s ≡ true
contains-starts_with p q s h k = contains_trans p q s h (contains-prefix q s k)

pub find_first-append :
    (p : ℕ → Bool) (a : Bytes) (c : ℕ) (b : Bytes)
    → All (λ d. p d ≡ false) a
    → p c ≡ true
    → find_first p (a ++ c ∷ b) ≡ some (length a)
unfolding find_first
find_first-append p [] c b h k = rw k
find_first-append p (d ∷ a) c b h k = rw (h.0, find_first-append p a c b h.1 k) (rw add-one)

pub find_last-append :
    (p : ℕ → Bool) (a : Bytes) (c : ℕ) → p c ≡ true → find_last p (a ++ c ∷ []) ≡ some (length a)
unfolding find_last
find_last-append p [] c k = rw k
find_last-append p (d ∷ a) c k = rw (find_last-append p a c k) (rw add-one)

-- A search for one byte.
pub find-find_first : (c : ℕ) (s : Bytes) → find (c ∷ []) s ≡ find_first (λ d. c == d) s
unfolding find find_first starts_with
find-find_first c [] = refl
find-find_first c (d ∷ s) = ground (arith, find-find_first c s)
