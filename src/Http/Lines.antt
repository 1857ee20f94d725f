-- ===== src/Http/Lines.antt =====
-- The lines of a head, and the empty line that ends it.
use kode.Prelude.{
  ℕ, ◌+◌, ◌≡◌, ◌≢◌, refl, List, [], ◌∷◌, ◌++◌, some, arith, append_assoc, length, length-append,
  All,
}
use mathlib.Core.Option
use kode.Text.{Bytes, find, starts_with}
use kode.Http.{crlf}

abbrev pub NoReturn : Bytes → Type 0
NoReturn = All (λ c. c ≢ b'\r')

-- A line of a head: not empty, and with no carriage return.
abbrev pub IsLine : Bytes → Type 0
IsLine line = (line ≢ []) × NoReturn line

-- The lines with an end of line between them.
abbrev pub joined : List Bytes → Bytes
joined [] = []
joined (line ∷ []) = line
joined (line ∷ next ∷ lines) = line ++ (crlf ++ joined (next ∷ lines))

abbrev pub blank_line : Bytes
blank_line = crlf ++ crlf

-- A byte that is no carriage return begins no empty line.
find_past :
    (c : ℕ) (s : Bytes)
    → c ≢ b'\r'
    → find blank_line (c ∷ s) ≡ Option.map (λ i. i + 1) (find blank_line s)
unfolding find starts_with
find_past c s h = ground arith

find_line :
    (line s : Bytes) (n : ℕ)
    → NoReturn line
    → find blank_line s ≡ some n
    → find blank_line (line ++ s) ≡ some (length line + n)
find_line [] s n h e = rw e (ground arith)
find_line (c ∷ line) s n h e =
    rw (find_past c (line ++ s) h.0, find_line line s n h.1 e) (ground arith)

-- Nor does an end of line with a line behind it.
find_end :
    (c : ℕ) (s : Bytes) (n : ℕ)
    → c ≢ b'\r'
    → find blank_line (c ∷ s) ≡ some n
    → find blank_line (crlf ++ (c ∷ s)) ≡ some (2 + n)
unfolding find starts_with
find_end c s n h e = ground arith

find_last_end : (body : Bytes) → find blank_line (crlf ++ (crlf ++ body)) ≡ some 0
unfolding find starts_with
find_last_end body = refl

joined_cons :
    (c : ℕ) (next : Bytes) (lines : List Bytes)
    → joined ((c ∷ next) ∷ lines) ≡ c ∷ joined (next ∷ lines)
joined_cons c next [] = refl
joined_cons c next (line ∷ lines) = refl

joined-append :
    (line next : Bytes) (lines : List Bytes) (s : Bytes)
    → joined (line ∷ next ∷ lines) ++ s ≡ line ++ (crlf ++ (joined (next ∷ lines) ++ s))
joined-append line next lines s = simp append_assoc

length-joined :
    (line next : Bytes) (lines : List Bytes)
    → length (joined (line ∷ next ∷ lines)) ≡ length line + (2 + length (joined (next ∷ lines)))
length-joined line next lines = ground (arith, length-append line (crlf ++ joined (next ∷ lines)))

-- An end of line with a line of a head behind it.
find_next :
    (c : ℕ) (next : Bytes) (lines : List Bytes) (s : Bytes) (n : ℕ)
    → c ≢ b'\r'
    → find blank_line (joined ((c ∷ next) ∷ lines) ++ s) ≡ some n
    → find blank_line (crlf ++ (joined ((c ∷ next) ∷ lines) ++ s)) ≡ some (2 + n)
find_next c next lines s n h e =
    rw (joined_cons c next lines)
      (find_end c (joined (next ∷ lines) ++ s) n h (rw (joined_cons c next lines) at e))

-- The empty line that ends a head is the first one.
pub find-joined :
    (line : Bytes) (lines : List Bytes) (body : Bytes)
    → All IsLine (line ∷ lines)
    → find blank_line (joined (line ∷ lines) ++ (crlf ++ (crlf ++ body)))
      ≡ some (length (joined (line ∷ lines)))
find-joined line [] body h =
    rw (find_line line (crlf ++ (crlf ++ body)) 0 h.0.1 (find_last_end body)) (ground arith)
find-joined line ([] ∷ lines) body h = absurd (h.1.0.0 refl)
find-joined line ((c ∷ next) ∷ lines) body h =
    rw
      (
        joined-append line (c ∷ next) lines (crlf ++ (crlf ++ body)),
        length-joined line (c ∷ next) lines,
      )
      (find_line line (crlf ++ (joined ((c ∷ next) ∷ lines) ++ (crlf ++ (crlf ++ body))))
        (2 + length (joined ((c ∷ next) ∷ lines))) h.0.1
        (find_next c next lines (crlf ++ (crlf ++ body)) (length (joined ((c ∷ next) ∷ lines)))
          h.1.0.1.0 (find-joined (c ∷ next) lines body h.1)))
