-- ===== src/Parser/Clean/Comments.antt =====
-- `RemoveComments` against its specification: a scan with one bit of state.
use kode.Prelude.{
  ℕ, zero, suc, ◌+◌, ◌-◌, ◌<◌, ◌≡◌, refl, sym, ap, ◌∙◌, inl, inr, Bool, true, false, [], ◌∷◌, ◌++◌,
  none, some, ◌==◌, arith, append-nil, append_assoc, take, drop, length, length-append,
  Option-cases, drop-length_append, length-drop, length-take, take_past, drop_past, drop-drop,
}
use mathlib.Core.Option
use kode.Text.{Bytes, codes, starts_with, find, find_from, substr, erase}
use kode.Parser.Clean.{remove_comments_from, remove_comments}

-- With `true` inside a comment: drop the bytes up to the newline, which stays.
pub strip_comments : Bool → Bytes → Bytes
strip_comments inside [] = []
strip_comments true (c ∷ s) = elim (c == b'\n') [
  | true ↦ c ∷ strip_comments false s
  | false ↦ strip_comments true s
]
strip_comments false (c ∷ s) = elim (starts_with (codes "//") (c ∷ s)) [
  | true ↦ strip_comments true s
  | false ↦ c ∷ strip_comments false s
]

-- What precedes a comment is kept; with no comment, all is.
pub strip_comments-none : (s : Bytes) → find (codes "//") s ≡ none → strip_comments false s ≡ s
unfolding strip_comments find
strip_comments-none [] e = refl
strip_comments-none (c ∷ s) e = ground (arith, strip_comments-none s)

strip-find :
    (s : Bytes) (i : ℕ)
    → find (codes "//") s ≡ some i
    → strip_comments false s ≡ take i s ++ strip_comments true (drop i s)
unfolding strip_comments find
strip-find [] i e = ground arith
strip-find (c ∷ s) zero e = ground arith
strip-find (c ∷ s) (suc i) e = ground (arith, strip-find s i)

-- A comment ends at the newline, or with the text.
strip-newline_none : (s : Bytes) → find (codes "\n") s ≡ none → strip_comments true s ≡ []
unfolding strip_comments find
strip-newline_none [] e = refl
strip-newline_none (c ∷ s) e = ground (arith, strip-newline_none s)

strip-newline :
    (s : Bytes) (i : ℕ)
    → find (codes "\n") s ≡ some i
    → strip_comments true s ≡ strip_comments false (drop i s)
unfolding strip_comments find
strip-newline [] i e = ground arith
strip-newline (c ∷ s) zero e = ground arith
strip-newline (c ∷ s) (suc i) e = ground (arith, strip-newline s i)

-- A newline that ends a comment stands behind its slashes.
newline_later :
    (s : Bytes) (i j : ℕ)
    → find (codes "//") s ≡ some i
    → find (codes "\n") (drop i s) ≡ some j
    → (0 < j) × (i < length s)
unfolding find
newline_later [] i j e f = ground arith
newline_later (c ∷ s) zero zero e f = ground arith
newline_later (c ∷ s) zero (suc j) e f = ground arith
newline_later (c ∷ s) (suc i) j e f = ground (arith, newline_later s i j)

-- One round, by what its two searches find.
module _ (f : ℕ) (result : Bytes) (pos : ℕ) where
  round_none :
      find_from (codes "//") result pos ≡ none → remove_comments_from (suc f) result pos ≡ result
  unfolding remove_comments_from
  round_none e = rw (e, remove_comments_from)

  round_last :
      (start : ℕ)
      → find_from (codes "//") result pos ≡ some start
      → find_from (codes "\n") result start ≡ none
      → remove_comments_from (suc f) result pos ≡ substr result 0 start
  unfolding remove_comments_from
  round_last start e m = rw (e, remove_comments_from) (rw (m, remove_comments_from))

  round_next :
      (start end_line : ℕ)
      → find_from (codes "//") result pos ≡ some start
      → find_from (codes "\n") result start ≡ some end_line
      → remove_comments_from (suc f) result pos
        ≡ remove_comments_from f (erase result start (end_line - start)) start
  unfolding remove_comments_from
  round_next start end_line e m = rw (e, remove_comments_from) (rw (m, remove_comments_from))

-- A search from the end of `a`, or from behind it.
find_from-past :
    (p a s : Bytes) (i : ℕ)
    → find_from p (a ++ s) (length a + i) ≡ Option.map (λ j. length a + i + j) (find p (drop i s))
unfolding find_from
find_from-past p a s i = rw (drop_past a s i)

find_from-here :
    (p a s : Bytes) → find_from p (a ++ s) (length a) ≡ Option.map (λ j. length a + j) (find p s)
unfolding find_from
find_from-here p a s = rw (drop-length_append a s)

erase-past :
    (a s : Bytes) (i j : ℕ)
    → erase (a ++ s) (length a + i) (length a + i + j - (length a + i))
      ≡ (a ++ take i s) ++ drop j (drop i s)
erase-past a s i j =
    let same : length a + i + (length a + i + j - (length a + i)) ≡ length a + (i + j) =
      omega arith in
    rw (same, take_past a s i, drop_past a s (i + j), drop-drop s i j) refl

-- The loop keeps what it has passed, `a`, and strips the rest.
loop-strip_comments :
    (f : ℕ) (a s : Bytes) (pos : ℕ)
    → pos ≡ length a
    → length s < f
    → remove_comments_from f (a ++ s) pos ≡ a ++ strip_comments false s
loop-strip_comments zero a s pos p h = absurd (omega arith)
loop-strip_comments (suc f) a s pos p h = rw p (elim (Option-cases (find (codes "//") s)) [
  | inl e ↦
      round_none f (a ++ s) (length a) (find_from-here (codes "//") a s ∙ rw e)
      ∙ sym (ap (◌++◌ a) (strip_comments-none s e))
  | inr (i, e) ↦
      let begins : find_from (codes "//") (a ++ s) (length a) ≡ some (length a + i) =
        find_from-here (codes "//") a s ∙ rw e in
      elim (Option-cases (find (codes "\n") (drop i s))) [
        | inl m ↦
            round_last f (a ++ s) (length a) (length a + i) begins
              (find_from-past (codes "\n") a s i ∙ rw m)
            ∙ take_past a s i
            ∙ ap (◌++◌ a)
                (sym (strip-find s i e ∙ rw (strip-newline_none (drop i s) m) (append-nil _)))
        | inr (j, m) ↦
            let later = newline_later s i j e m in
            round_next f (a ++ s) (length a) (length a + i) (length a + i + j) begins
              (find_from-past (codes "\n") a s i ∙ rw m)
            ∙ rw (erase-past a s i j) (
                loop-strip_comments f (a ++ take i s) (drop j (drop i s)) (length a + i)
                  (omega (arith, length-append a (take i s), length-take i s))
                  (omega (arith, length-drop j (drop i s), length-drop i s)))
            ∙ append_assoc a (take i s) _
            ∙ ap (◌++◌ a)
                (sym (strip-find s i e ∙ ap (◌++◌ (take i s)) (strip-newline (drop i s) j m)))
      ]
])

-- `RemoveComments` deletes each comment, from its slashes up to its newline, and nothing else.
pub remove_comments-strip_comments : (s : Bytes) → remove_comments s ≡ strip_comments false s
unfolding remove_comments
remove_comments-strip_comments s = loop-strip_comments (length s + 1) [] s 0 refl (omega arith)
