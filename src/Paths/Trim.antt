-- ===== src/Paths/Trim.antt =====
-- The separators at the end of a path, and the names in it.
use kode.Prelude.{
  ℕ, ◌≡◌, refl, ◌∙◌, ap, inl, inr, false, List, [], ◌∷◌, ◌++◌, arith, ◌==◌, All, All-append,
  append_assoc, append-nil, Bool-cases,
}
use kode.Text.{Bytes, is_empty}
use kode.Paths.{
  slash, keep, trim_end, trim_trailing_separators, names_from, join_names, is_absolute,
}

-- A name in a path: not empty, and without a separator.
pub record IsName (name : Bytes) : Type 0 where
  pub some_byte : is_empty name ≡ false
  pub plain : All (λ c. (c == slash) ≡ false) name

pub trim_end-mark : (path : Bytes) → trim_end (path ++ slash ∷ []) ≡ trim_end path
unfolding trim_end
trim_end-mark [] = refl
trim_end-mark (c ∷ path) = rw (trim_end-mark path) refl

pub trim_end-plain : (name : Bytes) → All (λ c. (c == slash) ≡ false) name → trim_end name ≡ name
unfolding trim_end
trim_end-plain [] h = refl
trim_end-plain (c ∷ name) (h, k) = rw (h, trim_end-plain name k) refl

longer-is_empty : (a b : Bytes) (c : ℕ) → is_empty (a ++ c ∷ b) ≡ false
longer-is_empty [] b c = refl
longer-is_empty (d ∷ a) b c = refl

pub trim_end-longer :
    (a b : Bytes) → is_empty b ≡ false → trim_end b ≡ b → trim_end (a ++ slash ∷ b) ≡ a ++ slash ∷ b
unfolding trim_end
trim_end-longer [] b h k = rw (k, h) refl
trim_end-longer (c ∷ a) b h k = ground (arith, trim_end-longer a b h k, longer-is_empty a b slash)

pub trim_trailing_separators-mark :
    (path : Bytes)
    → is_empty path ≡ false
    → trim_end path ≡ path
    → (trim_trailing_separators path ≡ path)
      × (trim_trailing_separators (path ++ slash ∷ []) ≡ path)
unfolding trim_trailing_separators trim_end
trim_trailing_separators-mark [] h k = absurd (ground arith)
trim_trailing_separators-mark (c ∷ path) h k =
    let rest : trim_end path ≡ path = ground arith in
    (ap (◌∷◌ c) rest, ap (◌∷◌ c) (trim_end-mark path ∙ rest))

pub join_names-is_empty :
    (name : Bytes) (names : List Bytes) → IsName name → is_empty (join_names (name ∷ names)) ≡ false
unfolding join_names
join_names-is_empty [] names h = absurd (ground (arith, h.some_byte))
join_names-is_empty (c ∷ name) [] h = refl
join_names-is_empty (c ∷ name) (next ∷ names) h = refl

pub join_names-is_absolute :
    (name : Bytes) (names : List Bytes)
    → IsName name
    → is_absolute (join_names (name ∷ names)) ≡ false
unfolding join_names is_absolute
join_names-is_absolute [] names h = absurd (ground (arith, h.some_byte))
join_names-is_absolute (c ∷ name) [] h = h.plain.0
join_names-is_absolute (c ∷ name) (next ∷ names) h = h.plain.0

pub trim_end-join_names :
    (names : List Bytes) → All IsName names → trim_end (join_names names) ≡ join_names names
unfolding join_names trim_end
trim_end-join_names [] h = refl
trim_end-join_names (name ∷ []) (h, k) = trim_end-plain name h.plain
trim_end-join_names (name ∷ next ∷ names) (h, k) =
    trim_end-longer name _ (join_names-is_empty next names k.0)
      (trim_end-join_names (next ∷ names) k)

names_from-plain :
    (start name : Bytes)
    → All (λ c. (c == slash) ≡ false) name
    → is_empty (start ++ name) ≡ false
    → names_from start name ≡ (start ++ name) ∷ []
unfolding names_from
names_from-plain start [] h k = rw (append-nil start) (rw (rw (append-nil start) at k) refl)
names_from-plain start (c ∷ name) (h, l) k =
    let e = append_assoc start (c ∷ []) name in
    rw (h, names_from) (rw e at (names_from-plain (start ++ c ∷ []) name l (rw e k)))

names_from-more :
    (start name rest : Bytes)
    → All (λ c. (c == slash) ≡ false) name
    → is_empty (start ++ name) ≡ false
    → names_from start (name ++ slash ∷ rest) ≡ (start ++ name) ∷ names_from [] rest
unfolding names_from
names_from-more start [] rest h k = rw (append-nil start) (rw (rw (append-nil start) at k) refl)
names_from-more start (c ∷ name) rest (h, l) k =
    let e = append_assoc start (c ∷ []) name in
    rw (h, names_from) (rw e at (names_from-more (start ++ c ∷ []) name rest l (rw e k)))

pub names_from-join_names :
    (names : List Bytes) → All IsName names → names_from [] (join_names names) ≡ names
unfolding join_names names_from
names_from-join_names [] h = refl
names_from-join_names (name ∷ []) (h, k) = names_from-plain [] name h.plain h.some_byte
names_from-join_names (name ∷ next ∷ names) (h, k) =
    names_from-more [] name _ h.plain h.some_byte
    ∙ ap (◌∷◌ name) (names_from-join_names (next ∷ names) k)

keep-IsName :
    (start : Bytes) (names : List Bytes)
    → All (λ c. (c == slash) ≡ false) start
    → All IsName names
    → All IsName (keep start names)
keep-IsName [] names h k = k
keep-IsName (c ∷ start) names h k = (record { some_byte = refl; plain = h }, k)

pub names_from-IsName :
    (start path : Bytes)
    → All (λ c. (c == slash) ≡ false) start
    → All IsName (names_from start path)
unfolding names_from
names_from-IsName start [] h = keep-IsName start [] h tt
names_from-IsName start (c ∷ path) h = elim (Bool-cases (c == slash)) [
  | inl e ↦ rw (e, names_from) (keep-IsName start _ h (names_from-IsName [] path tt))
  | inr e ↦
      rw (e, names_from)
        (names_from-IsName (start ++ c ∷ []) path (All-append _ start (c ∷ []) h (e, tt)))
]
