-- ===== src/Paths/Stack.antt =====
-- The stack of names that `lexically_normal` keeps.
use mathlib.Core.List.{reverse, reverse-cons}
use kode.Prelude.{
  ◌≡◌, refl, ◌∙◌, inl, inr, Bool, true, false, List, [], ◌∷◌, ◌++◌, arith, All, All-append,
  Bool-cases,
}
use kode.Text.{Bytes, equal}
use kode.Text.Find.{equal_iff}
use kode.Paths.{dot, dot_dot, climb, push_name, reduce}
use kode.Paths.Trim.{IsName}

-- A stack of names, the last on top: no `.`, and `..` only below all others, and not above a root.
unfoldable pub IsNormal : Bool → List Bytes → Type 0
IsNormal rooted [] = Unit
IsNormal rooted (name ∷ stack) =
    IsName name
    × (equal name dot ≡ false)
    × ((equal name dot_dot ≡ true)
        → (rooted ≡ false) × All (λ (other : Bytes). equal other dot_dot ≡ true) stack)
    × IsNormal rooted stack

dot_dot-IsName : IsName dot_dot
dot_dot-IsName = record { some_byte = refl; plain = (refl, (refl, tt)) }

climb-IsNormal :
    (rooted : Bool) (stack : List Bytes)
    → IsNormal rooted stack
    → IsNormal rooted (climb rooted stack)
unfolding IsNormal climb equal
climb-IsNormal true [] h = tt
climb-IsNormal false [] h = (dot_dot-IsName, refl, (λ e. (refl, tt)), tt)
climb-IsNormal rooted (top ∷ stack) h = elim (Bool-cases (equal top dot_dot)) [
  | inl e ↦ rw (e, climb) (dot_dot-IsName, refl, (λ f. ((h.2 e).0, (e, (h.2 e).1))), h)
  | inr e ↦ rw (e, climb) h.3
]

push_name-IsNormal :
    (rooted : Bool) (stack : List Bytes) (name : Bytes)
    → IsName name
    → IsNormal rooted stack
    → IsNormal rooted (push_name rooted stack name)
unfolding IsNormal push_name
push_name-IsNormal rooted stack name k h = elim (Bool-cases (equal name dot)) [
  | inl e ↦ rw (e, push_name) h
  | inr e ↦ elim (Bool-cases (equal name dot_dot)) [
    | inl f ↦ rw (e, f, push_name) (climb-IsNormal rooted stack h)
    | inr f ↦ rw (e, f, push_name) (k, e, (λ g. absurd (ground (arith, f, g))), h)
  ]
]

pub reduce-IsNormal :
    (rooted : Bool) (stack names : List Bytes)
    → All IsName names
    → IsNormal rooted stack
    → IsNormal rooted (reduce rooted stack names)
unfolding reduce
reduce-IsNormal rooted stack [] k h = h
reduce-IsNormal rooted stack (name ∷ names) (k, l) h =
    reduce-IsNormal rooted (push_name rooted stack name) names l
      (push_name-IsNormal rooted stack name k h)

reduce-append :
    (rooted : Bool) (stack names : List Bytes) (name : Bytes)
    → reduce rooted stack (names ++ name ∷ []) ≡ push_name rooted (reduce rooted stack names) name
unfolding reduce
reduce-append rooted stack [] name = refl
reduce-append rooted stack (other ∷ names) name =
    reduce-append rooted (push_name rooted stack other) names name

climb_top :
    (stack : List Bytes)
    → All (λ (other : Bytes). equal other dot_dot ≡ true) stack
    → climb false stack ≡ dot_dot ∷ stack
unfolding climb
climb_top [] h = refl
climb_top (top ∷ stack) (e, h) = rw (e, climb) refl

push_name-top :
    (rooted : Bool) (stack : List Bytes) (name : Bytes)
    → IsNormal rooted (name ∷ stack)
    → push_name rooted stack name ≡ name ∷ stack
unfolding IsNormal push_name
push_name-top rooted stack name h = elim (Bool-cases (equal name dot_dot)) [
  | inr f ↦ rw (h.1, f, push_name) refl
  | inl f ↦
      let same : name ≡ dot_dot = (equal_iff name dot_dot).0 f in
      let top : climb rooted stack ≡ name ∷ stack =
        rw ((h.2 f).0, same) (climb_top stack (h.2 f).1) in
      rw (h.1, f, push_name) top
]

pub reduce-reverse :
    (rooted : Bool) (stack : List Bytes)
    → IsNormal rooted stack
    → reduce rooted [] (reverse stack) ≡ stack
unfolding reduce IsNormal
reduce-reverse rooted [] h = refl
reduce-reverse rooted (name ∷ stack) h = rw (reverse-cons name stack) (
    reduce-append rooted [] (reverse stack) name
    ∙ rw (reduce-reverse rooted stack h.3) (push_name-top rooted stack name h))

pub IsNormal-reverse :
    (rooted : Bool) (stack : List Bytes) → IsNormal rooted stack → All IsName (reverse stack)
unfolding IsNormal
IsNormal-reverse rooted [] h = tt
IsNormal-reverse rooted (name ∷ stack) h =
    rw (reverse-cons name stack)
      (All-append IsName (reverse stack) (name ∷ []) (IsNormal-reverse rooted stack h.3) (h.0, tt))
