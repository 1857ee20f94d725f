-- ===== src/Host/Environment.antt =====
-- What a script gets for the name of an environment variable.
use kode.Prelude.{
  ℕ, ◌+◌, ◌≡◌, refl, ap, ◌∙◌, inl, inr, true, false, ◌&&◌, not, List, [], ◌∷◌, Option, none, some,
  arith, ◌==◌, take, drop, Option-cases, if◌then◌else◌,
}
use native.Mathlib.Numerals.{add-one}
use kode.Text.{Bytes, equal, find_first}
use kode.Text.Dict.{lookup, lookup-insert}
use kode.Text.Find.{find-find_first}
use kode.Host.{Snapshot, capture_entry, capture_from, capture_environment, env_get}

-- The value that an entry gives a name: what follows the name and the first `=`.
unfoldable pub value_in : Bytes → Bytes → Option Bytes
value_in name [] = none
value_in [] (c ∷ entry) = if c == b'=' then some entry else none
value_in (n ∷ name) (c ∷ entry) = elim (n == c && not (c == b'=')) [
  | true ↦ value_in name entry
  | false ↦ none
]

unfoldable pub or_else : Option Bytes → Option Bytes → Option Bytes
or_else (some value) other = some value
or_else none other = other

-- The value of the last entry that gives one.
unfoldable pub last_value : Bytes → List Bytes → Option Bytes
unfolding value_in or_else
last_value name [] = none
last_value name (entry ∷ entries) = or_else (last_value name entries) (value_in name entry)

take_next : (c : ℕ) (s : Bytes) (i : ℕ) → take (i + 1) (c ∷ s) ≡ c ∷ take i s
take_next c s i = rw add-one refl

drop_next : (c : ℕ) (s : Bytes) (i : ℕ) → drop (i + 1 + 1) (c ∷ s) ≡ drop (i + 1) s
drop_next c s i = rw add-one refl

-- The entry's name is what stands before its first `=`.
value_in-split :
    (name entry : Bytes)
    → value_in name entry ≡ elim (find_first (λ d. b'=' == d) entry) [
      | none ↦ none
      | some i ↦ if equal (take i entry) name then some (drop (i + 1) entry) else none
    ]
unfolding value_in find_first equal
value_in-split name [] = refl
value_in-split [] (c ∷ entry) = elim (Option-cases (find_first (λ d. b'=' == d) entry)) [
  | inl f ↦ ground (arith, f)
  | inr (i, f) ↦ ground (arith, f, take_next c entry i)
]
value_in-split (n ∷ name) (c ∷ entry) = elim (Option-cases (find_first (λ d. b'=' == d) entry)) [
  | inl f ↦ ground (arith, f, value_in-split name entry)
  | inr (i, f) ↦
      ground (arith, f, value_in-split name entry, take_next c entry i, drop_next c entry i)
]

lookup-capture_entry :
    (name entry : Bytes) (snapshot : Snapshot)
    → lookup name (capture_entry entry snapshot)
      ≡ or_else (value_in name entry) (lookup name snapshot)
unfolding capture_entry or_else
lookup-capture_entry name entry snapshot = elim (Option-cases (find_first (λ d. b'=' == d) entry)) [
  | inl f ↦ ground (arith, f, find-find_first b'=' entry, value_in-split name entry)
  | inr (i, f) ↦ ground (
    arith,
    f,
    find-find_first b'=' entry,
    value_in-split name entry,
    lookup-insert (take i entry) name (drop (i + 1) entry) snapshot,
  )
]

or_else_assoc : (a b c : Option Bytes) → or_else a (or_else b c) ≡ or_else (or_else a b) c
unfolding or_else
or_else_assoc none b c = refl
or_else_assoc (some value) b c = refl

lookup-capture_from :
    (name : Bytes) (snapshot : Snapshot) (entries : List Bytes)
    → lookup name (capture_from snapshot entries)
      ≡ or_else (last_value name entries) (lookup name snapshot)
unfolding capture_from last_value or_else
lookup-capture_from name snapshot [] = refl
lookup-capture_from name snapshot (entry ∷ entries) =
    lookup-capture_from name (capture_entry entry snapshot) entries
    ∙ ap (or_else (last_value name entries)) (lookup-capture_entry name entry snapshot)
    ∙ or_else_assoc (last_value name entries) (value_in name entry) (lookup name snapshot)

or_else-none : (a : Option Bytes) → or_else a none ≡ a
unfolding or_else
or_else-none none = refl
or_else-none (some value) = refl

-- `Kode.env.get` gives the value of the last entry of the environment whose text before the first `=` is
-- the name, and nothing where there is none.
pub env_get-capture_environment :
    (entries : List Bytes) (name : Bytes)
    → env_get (capture_environment entries) name ≡ last_value name entries
unfolding env_get capture_environment lookup
env_get-capture_environment entries name =
    lookup-capture_from name [] entries ∙ or_else-none (last_value name entries)
