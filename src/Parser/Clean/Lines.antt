-- ===== src/Parser/Clean/Lines.antt =====
-- `SplitIntoLines` cuts at the newlines and loses no byte.
use kode.Prelude.{
  ◌≡◌, ◌≢◌, refl, ap, ◌∙◌, inl, inr, ℕ, Bool, true, false, List, [], ◌∷◌, ◌++◌, ◌==◌, ==_iff, arith,
  append_assoc, append-nil, All, All-append, Bool-cases, if◌then◌else◌,
}
use kode.Text.{Bytes, is_empty}
use kode.Parser.Clean.{split_from, split_into_lines}

-- Each line with its newline.
abbrev pub unlines : List Bytes → Bytes
unlines [] = []
unlines (line ∷ lines) = line ++ (b'\n' ∷ unlines lines)

-- The text with a newline at its end, unless it is empty or has one.
abbrev pub terminate : Bool → Bytes → Bytes
terminate fresh [] = if fresh then [] else b'\n' ∷ []
terminate fresh (c ∷ s) = c ∷ terminate (c == b'\n') s

is_empty-append : (line : Bytes) (c : ℕ) → is_empty (line ++ c ∷ []) ≡ false
is_empty-append [] c = refl
is_empty-append (x ∷ line) c = refl

unlines-split_from :
    (s line : Bytes) → unlines (split_from line s) ≡ line ++ terminate (is_empty line) s
unfolding split_from
unlines-split_from [] [] = refl
unlines-split_from [] (c ∷ line) = refl
unlines-split_from (c ∷ s) line = elim (Bool-cases (c == b'\n')) [
  | inl e ↦ rw (e, split_from) (rw ((==_iff c b'\n').0 e, unlines-split_from s []) refl)
  | inr e ↦
      rw (e, split_from)
        (rw (unlines-split_from s (line ++ c ∷ []), is_empty-append line c) (append_assoc line _ _))
]

abbrev pub NoNewline : Bytes → Type 0
NoNewline = All (λ c. c ≢ b'\n')

split_from-NoNewline : (s line : Bytes) → NoNewline line → All NoNewline (split_from line s)
unfolding split_from
split_from-NoNewline [] [] h = tt
split_from-NoNewline [] (c ∷ line) h = (h, tt)
split_from-NoNewline (c ∷ s) line h = elim (Bool-cases (c == b'\n')) [
  | inl e ↦ rw (e, split_from) (h, split_from-NoNewline s [] tt)
  | inr e ↦
      rw (e, split_from)
        (split_from-NoNewline s (line ++ c ∷ [])
          (All-append (λ (d : ℕ). d ≢ b'\n') line (c ∷ []) h (ground arith, tt)))
]

-- The lines, each with a newline behind it, are the text, with a newline added where the last line
-- has none; and no line holds a newline.
pub split_into_lines-unlines :
    (s : Bytes)
    → (unlines (split_into_lines s) ≡ terminate true s) × All NoNewline (split_into_lines s)
unfolding split_into_lines
split_into_lines-unlines s = (unlines-split_from s [], split_from-NoNewline s [] tt)

-- Lines that hold no newline come back as they were.
split_from-line :
    (line : Bytes) (a s : Bytes)
    → NoNewline line
    → split_from a (line ++ (b'\n' ∷ s)) ≡ (a ++ line) ∷ split_from [] s
unfolding split_from
split_from-line [] a s h = rw append-nil
split_from-line (c ∷ line) a s h =
    let plain : (c == b'\n') ≡ false = ground (arith, h.0) in
    rw (plain, split_from) (split_from-line line (a ++ c ∷ []) s h.1)
    ∙ ap (λ t. t ∷ split_from [] s) (append_assoc a (c ∷ []) line)

pub split_into_lines-unlines_lines :
    (lines : List Bytes) → All NoNewline lines → split_into_lines (unlines lines) ≡ lines
unfolding split_into_lines
split_into_lines-unlines_lines [] h = unfold split_from in refl
split_into_lines-unlines_lines (line ∷ lines) h =
    split_from-line line [] (unlines lines) h.0
    ∙ ap (◌∷◌ line) (split_into_lines-unlines_lines lines h.1)
