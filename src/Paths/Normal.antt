-- ===== src/Paths/Normal.antt =====
-- What the normal form of a path is, and that it is one.
use mathlib.Core.List.{reverse, reverse-cons}
use kode.Prelude.{
  ◌⊎◌, ◌≡◌, refl, ◌∙◌, ap, inl, inr, Bool, true, false, List, [], ◌∷◌, ◌++◌, arith, All, append-nil,
  Bool-cases, if◌then◌else◌,
}
use kode.Text.{Bytes, is_empty, equal, find_last}
use kode.Paths.{
  filename, slash, dot, dot_dot, trim_end, trim_trailing_separators, names_from, join_names,
  is_absolute, push_name, reduce, render, end_mark, ends_as_directory, lexically_normal,
  lexical_path,
}
use kode.Paths.Trim.{
  IsName, trim_end-mark, trim_trailing_separators-mark, join_names-is_empty, join_names-is_absolute,
  trim_end-join_names, names_from-join_names, names_from-IsName,
}
use kode.Paths.Stack.{IsNormal, reduce-IsNormal, reduce-reverse, IsNormal-reverse}

is_empty-snoc : (names : List Bytes) (name : Bytes) → is_empty (names ++ name ∷ []) ≡ false
is_empty-snoc [] name = refl
is_empty-snoc (other ∷ names) name = refl

is_empty-reverse : (top : Bytes) (stack : List Bytes) → is_empty (reverse (top ∷ stack)) ≡ false
is_empty-reverse top stack = rw (reverse-cons top stack) (is_empty-snoc (reverse stack) top)

join_names_plain :
    (names : List Bytes)
    → is_empty names ≡ false
    → All IsName names
    → (is_empty (join_names names) ≡ false) × (is_absolute (join_names names) ≡ false)
join_names_plain [] h k = absurd (ground (arith, h))
join_names_plain (name ∷ names) h (k, l) =
    (join_names-is_empty name names k, join_names-is_absolute name names k)

end_mark-cases :
    (directory : Bool) (stack : List Bytes)
    → (end_mark directory stack ≡ []) ⊎ (end_mark directory stack ≡ slash ∷ [])
unfolding end_mark
end_mark-cases directory [] = inl refl
end_mark-cases false (top ∷ stack) = inl refl
end_mark-cases true (top ∷ stack) = elim (Bool-cases (equal top dot_dot)) [
  | inl e ↦ inl (rw (e, end_mark) refl)
  | inr e ↦ inr (rw (e, end_mark) refl)
]

-- A path that a normal stack is written as: it is read back as that stack, and a mark at its end goes.
record IsWritten (rooted : Bool) (stack : List Bytes) (path : Bytes) : Type 0 where
  some_byte : is_empty path ≡ false
  root : is_absolute path ≡ rooted
  names : reduce rooted [] (names_from [] path) ≡ stack
  trimmed : (directory : Bool) → trim_trailing_separators (path ++ end_mark directory stack) ≡ path

trim_marked :
    (path : Bytes) (directory : Bool) (stack : List Bytes)
    → is_empty path ≡ false
    → trim_end path ≡ path
    → trim_trailing_separators (path ++ end_mark directory stack) ≡ path
trim_marked path directory stack h k =
    let (plain, marked) = trim_trailing_separators-mark path h k in
    elim (end_mark-cases directory stack) [
      | inl e ↦ rw (e, append-nil path) plain
      | inr e ↦ rw e marked
    ]

trim_rooted :
    (path : Bytes) (directory : Bool) (stack : List Bytes)
    → trim_end path ≡ path
    → trim_end (path ++ end_mark directory stack) ≡ path
trim_rooted path directory stack k = elim (end_mark-cases directory stack) [
  | inl e ↦ rw (e, append-nil path) k
  | inr e ↦ rw e (trim_end-mark path ∙ k)
]

dot_names : reduce false [] (dot ∷ []) ≡ []
unfolding reduce push_name equal
dot_names = refl

dot_trimmed : (directory : Bool) → trim_trailing_separators (dot ++ end_mark directory []) ≡ dot
unfolding trim_trailing_separators trim_end end_mark
dot_trimmed directory = refl

render-IsWritten :
    (rooted : Bool) (stack : List Bytes)
    → IsNormal rooted stack
    → IsWritten rooted stack (render rooted stack)
unfolding render is_absolute names_from trim_trailing_separators
render-IsWritten true stack h =
    let names = IsNormal-reverse true stack h in
    record {
      some_byte = refl;
      root = refl;
      names = rw (names_from-join_names (reverse stack) names) (reduce-reverse true stack h);
      trimmed = λ directory. ap (◌∷◌ slash) (
          trim_rooted (join_names (reverse stack)) directory stack
            (trim_end-join_names (reverse stack) names));
    }
render-IsWritten false [] h = record {
  some_byte = refl;
  root = refl;
  names = dot_names;
  trimmed = λ directory. dot_trimmed directory;
}
render-IsWritten false (top ∷ stack) h =
    let names = IsNormal-reverse false (top ∷ stack) h in
    let (full, plain) =
      join_names_plain (reverse (top ∷ stack)) (is_empty-reverse top stack) names in
    record {
      some_byte = full;
      root = plain;
      names =
          rw (names_from-join_names (reverse (top ∷ stack)) names)
            (reduce-reverse false (top ∷ stack) h);
      trimmed = λ directory.
          trim_marked (join_names (reverse (top ∷ stack))) directory (top ∷ stack) full
            (trim_end-join_names (reverse (top ∷ stack)) names);
    }

lexical_path_marked :
    (rooted : Bool) (stack : List Bytes) (path : Bytes) (directory : Bool)
    → IsWritten rooted stack path
    → (let normalized = trim_trailing_separators (path ++ end_mark directory stack) in
        if is_empty normalized then dot else normalized)
      ≡ path
lexical_path_marked rooted stack path directory h = rw (h.trimmed directory) (rw h.some_byte refl)

abbrev names_left : Bytes → List Bytes
names_left path = reduce (is_absolute path) [] (names_from [] path)

names_left-IsWritten :
    (path : Bytes)
    → IsWritten (is_absolute path) (names_left path) (render (is_absolute path) (names_left path))
unfolding IsNormal
names_left-IsWritten path =
    render-IsWritten (is_absolute path) (names_left path)
      (reduce-IsNormal (is_absolute path) [] (names_from [] path) (names_from-IsName [] path tt) tt)

lexical_path_form :
    (path : Bytes)
    → is_empty path ≡ false
    → lexical_path path ≡ render (is_absolute path) (names_left path)
unfolding lexical_path lexically_normal
lexical_path_form path h =
    rw (h, lexical_path, lexically_normal)
      (lexical_path_marked (is_absolute path) (names_left path)
        (render (is_absolute path) (names_left path)) (ends_as_directory path)
        (names_left-IsWritten path))

lexical_path_nothing : lexical_path (lexical_path []) ≡ lexical_path []
unfolding lexical_path lexically_normal trim_trailing_separators trim_end is_absolute names_from
    reduce push_name equal render end_mark ends_as_directory filename find_last
lexical_path_nothing = refl

-- The normal form that `kode:path` gives is stable: normalizing it again changes nothing.
pub lexical_path-lexical_path :
    (path : Bytes) → lexical_path (lexical_path path) ≡ lexical_path path
unfolding lexical_path lexically_normal
lexical_path-lexical_path [] = lexical_path_nothing
lexical_path-lexical_path (c ∷ path) =
    let w = names_left-IsWritten (c ∷ path) in
    let form = lexical_path_form (c ∷ path) refl in
    let again = lexical_path_form _ w.some_byte in rw form (again ∙ rw (w.root, w.names) refl)
