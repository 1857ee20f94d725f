-- ===== src/Text/Dict.antt =====
-- `std::map` and `std::unordered_map` with string keys: an association list with one entry a key.
use kode.Prelude.{◌≡◌, refl, false, List, [], ◌∷◌, Option, none, some, arith, if◌then◌else◌}
use kode.Text.{Bytes, equal}
use kode.Text.Find.{equal_iff}

module _ {ℓ} {V : Type ℓ} where
  -- `m.find(k)`.
  unfoldable pub lookup : Bytes → List (Bytes × V) → Option V
  lookup k [] = none
  lookup k ((j, v) ∷ m) = if equal j k then some v else lookup k m

  -- `m[k] = v`.
  unfoldable pub insert : Bytes → V → List (Bytes × V) → List (Bytes × V)
  insert k v [] = (k, v) ∷ []
  insert k v ((j, w) ∷ m) = if equal j k then (k, v) ∷ m else (j, w) ∷ insert k v m

  -- `m.erase(k)`.
  unfoldable pub erase : Bytes → List (Bytes × V) → List (Bytes × V)
  erase k [] = []
  erase k ((j, w) ∷ m) = if equal j k then m else (j, w) ∷ erase k m

  -- What an insertion does to every look-up.
  pub lookup-insert :
      (name other : Bytes) (value : V) (dict : List (Bytes × V))
      → lookup other (insert name value dict)
        ≡ (if equal name other then some value else lookup other dict)
  unfolding insert lookup
  lookup-insert name other value [] = refl
  lookup-insert name other value ((first, x) ∷ dict) = ground (
    arith,
    lookup-insert name other value dict,
    equal_iff first name,
    equal_iff first other,
    equal_iff name other,
  )

  -- An erasure leaves the other keys.
  pub lookup-erase :
      (name other : Bytes) (dict : List (Bytes × V))
      → equal name other ≡ false
      → lookup other (erase name dict) ≡ lookup other dict
  unfolding erase lookup
  lookup-erase name other [] h = refl
  lookup-erase name other ((first, x) ∷ dict) h = ground (
    arith,
    lookup-erase name other dict h,
    equal_iff first name,
    equal_iff first other,
    equal_iff name other,
  )

  -- One entry a key.
  unfoldable pub Unique : List (Bytes × V) → Type ℓ
  Unique [] = Unit
  Unique ((k, v) ∷ dict) = (lookup k dict ≡ none) × Unique dict

  pub insert-Unique :
      (name : Bytes) (value : V) (dict : List (Bytes × V))
      → Unique dict
      → Unique (insert name value dict)
  unfolding insert lookup Unique
  insert-Unique name value [] h = (refl, tt)
  insert-Unique name value ((first, x) ∷ dict) h = ground (
    arith,
    insert-Unique name value dict h.1,
    lookup-insert name first value dict,
    equal_iff first name,
    equal_iff name first,
  )

  pub erase-Unique :
      (name : Bytes) (dict : List (Bytes × V)) → Unique dict → Unique (erase name dict)
  unfolding erase lookup Unique
  erase-Unique name [] h = h
  erase-Unique name ((first, x) ∷ dict) h = ground (
    arith,
    erase-Unique name dict h.1,
    lookup-erase name first dict,
    equal_iff first name,
    equal_iff name first,
  )

  pub lookup-erase_self :
      (name : Bytes) (dict : List (Bytes × V)) → Unique dict → lookup name (erase name dict) ≡ none
  unfolding erase lookup Unique
  lookup-erase_self name [] h = refl
  lookup-erase_self name ((first, x) ∷ dict) h =
      ground (arith, lookup-erase_self name dict h.1, equal_iff first name)
