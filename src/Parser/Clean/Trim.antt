-- ===== src/Parser/Clean/Trim.antt =====
-- What `TrimWhitespace` does, by a reading from each end.
use mathlib.Core.Option
use kode.Prelude.{
  ℕ, suc, ◌+◌, ◌-◌, ◌≡◌, refl, sym, ap, ◌∙◌, inl, inr, true, false, [], ◌∷◌, ◌++◌, Option, none,
  some, arith, take, Bool-cases, Option-cases, All, is_some, if◌then◌else◌,
}
use native.Mathlib.Numerals.{add-one}
use kode.Text.{Bytes, find_first, find_last, contains}
use kode.Text.Find.{contains-middle}
use kode.Parser.Clean.{is_blank, not_blank, trim_between, trim_whitespace}

pub strip_front : Bytes → Bytes
strip_front [] = []
strip_front (c ∷ s) = let rest = strip_front s in if is_blank c then rest else c ∷ s

abbrev keep_back : ℕ → Bytes → Bytes
keep_back c [] = if is_blank c then [] else c ∷ []
keep_back c (d ∷ t) = c ∷ d ∷ t

pub strip_back : Bytes → Bytes
strip_back [] = []
strip_back (c ∷ s) = keep_back c (strip_back s)

-- Up to a last position.
abbrev upto : Option ℕ → Bytes → Bytes
upto none s = []
upto (some end) s = take (suc end) s

strip_back-find_last : (s : Bytes) → strip_back s ≡ upto (find_last not_blank s) s
unfolding strip_back find_last
strip_back-find_last [] = refl
strip_back-find_last (c ∷ []) = ground arith
strip_back-find_last (c ∷ d ∷ s) = elim (Option-cases (find_last not_blank (d ∷ s))) [
  | inl m ↦ rw (strip_back-find_last (d ∷ s), m) (ground arith)
  | inr (k, m) ↦ rw (strip_back-find_last (d ∷ s), m, add-one) refl
]

abbrev shift : Option ℕ → Option ℕ
shift = Option.map (λ i. i + 1)

trim_between-shift :
    (c : ℕ) (s : Bytes) (a b : Option ℕ)
    → trim_between (c ∷ s) (shift a) (shift b) ≡ trim_between s a b
unfolding trim_between
trim_between-shift c s none b = refl
trim_between-shift c s (some i) none = rw add-one
trim_between-shift c s (some i) (some j) =
    let same : j + 1 - (i + 1) + 1 ≡ j - i + 1 = omega arith in rw (same, add-one i)

find_last-blank :
    (c : ℕ) (s : Bytes)
    → is_blank c ≡ true
    → find_last not_blank (c ∷ s) ≡ shift (find_last not_blank s)
unfolding find_last
find_last-blank c s h = ground arith

trim_between-solid :
    (s : Bytes) (o : Option ℕ) → is_some o ≡ true → trim_between s (some 0) o ≡ upto o s
unfolding trim_between
trim_between-solid s none h = cc
trim_between-solid s (some e) h = let same : e - 0 + 1 ≡ suc e = omega arith in rw same

find_last-solid :
    (c : ℕ) (s : Bytes) → is_blank c ≡ false → is_some (find_last not_blank (c ∷ s)) ≡ true
unfolding find_last
find_last-solid c s h = ground arith

-- `TrimWhitespace` is: skip the blanks in front, then those behind.
pub trim_whitespace-strip : (s : Bytes) → trim_whitespace s ≡ strip_back (strip_front s)
unfolding trim_whitespace find_first strip_front
trim_whitespace-strip [] = unfold strip_back in refl
trim_whitespace-strip (c ∷ s) = elim (Bool-cases (is_blank c)) [
  | inl b ↦
      rw (b, find_last-blank c s b)
        (trim_between-shift c s (find_first not_blank s) (find_last not_blank s)
          ∙ trim_whitespace-strip s)
  | inr b ↦
      rw (b, strip_back-find_last (c ∷ s))
        (trim_between-solid (c ∷ s) (find_last not_blank (c ∷ s)) (find_last-solid c s b))
]

abbrev pub Blanks : Bytes → Type 0
Blanks = All (λ c. is_blank c ≡ true)

-- The text has no blank in front, and none at its end.
abbrev pub StartsSolid : Bytes → Type 0
StartsSolid [] = Unit
StartsSolid (c ∷ s) = is_blank c ≡ false

abbrev pub EndsSolid : Bytes → Type 0
EndsSolid [] = Unit
EndsSolid (c ∷ []) = is_blank c ≡ false
EndsSolid (c ∷ d ∷ s) = EndsSolid (d ∷ s)

strip_front-split :
    (s : Bytes) → (a : Bytes) × (s ≡ a ++ strip_front s) × Blanks a × StartsSolid (strip_front s)
unfolding strip_front
strip_front-split [] = ([], refl, tt, tt)
strip_front-split (c ∷ s) = elim (Bool-cases (is_blank c)) [
  | inl b ↦ let (a, e, h, t) = strip_front-split s in rw b (c ∷ a, ap (◌∷◌ c) e, (b, h), t)
  | inr b ↦ rw b ([], refl, tt, b)
]

strip_back-split :
    (s : Bytes) → (a : Bytes) × (s ≡ strip_back s ++ a) × Blanks a × EndsSolid (strip_back s)
unfolding strip_back
strip_back-split [] = ([], refl, tt, tt)
strip_back-split (c ∷ s) = let (a, e, h, t) = strip_back-split s in go (strip_back s) a e h t
  where
    go :
        (r a : Bytes)
        → s ≡ r ++ a
        → Blanks a
        → EndsSolid r
        → (b : Bytes) × (c ∷ s ≡ keep_back c r ++ b) × Blanks b × EndsSolid (keep_back c r)
    go (d ∷ r) a e h t = (a, ap (◌∷◌ c) e, h, t)
    go [] a e h t = elim (Bool-cases (is_blank c)) [
      | inl b ↦ rw b (c ∷ a, ap (◌∷◌ c) e, (b, h), tt)
      | inr b ↦ rw b (a, ap (◌∷◌ c) e, h, b)
    ]

strip_back-StartsSolid : (s : Bytes) → StartsSolid s → StartsSolid (strip_back s)
unfolding strip_back
strip_back-StartsSolid [] h = tt
strip_back-StartsSolid (c ∷ s) h = go (strip_back s)
  where
    go : (r : Bytes) → StartsSolid (keep_back c r)
    go [] = rw h h
    go (d ∷ r) = h

-- The trimmed text with the blanks that `TrimWhitespace` took off.
pub record Trims (s t : Bytes) : Type 0 where
  pub before : Bytes
  pub behind : Bytes
  pub splits : s ≡ before ++ (t ++ behind)
  pub before_blank : Blanks before
  pub behind_blank : Blanks behind
  pub starts_solid : StartsSolid t
  pub ends_solid : EndsSolid t

-- `TrimWhitespace` takes off blanks at both ends, and all of them.
pub trim_whitespace-Trims : (s : Bytes) → Trims s (trim_whitespace s)
trim_whitespace-Trims s =
    let (a, e, h, k) = strip_front-split s in
    let (b, f, l, m) = strip_back-split (strip_front s) in
    rw (trim_whitespace-strip s) (record {
      before = a;
      behind = b;
      splits = e ∙ ap (◌++◌ a) f;
      before_blank = h;
      behind_blank = l;
      starts_solid = strip_back-StartsSolid (strip_front s) k;
      ends_solid = m;
    })

-- A text with no blank at its ends stays as it is.
strip_back-EndsSolid : (s : Bytes) → EndsSolid s → strip_back s ≡ s
unfolding strip_back
strip_back-EndsSolid [] h = refl
strip_back-EndsSolid (c ∷ []) h = rw h
strip_back-EndsSolid (c ∷ d ∷ s) h = rw (strip_back-EndsSolid (d ∷ s) h)

pub trim_whitespace_solid : (s : Bytes) → StartsSolid s → EndsSolid s → trim_whitespace s ≡ s
trim_whitespace_solid [] h k = trim_whitespace-strip [] ∙ (unfold strip_front strip_back in refl)
trim_whitespace_solid (c ∷ s) h k =
    trim_whitespace-strip (c ∷ s) ∙ (unfold strip_front in rw h (strip_back-EndsSolid (c ∷ s) k))

pub trim_whitespace_blank :
    (c : ℕ) (s : Bytes) → is_blank c ≡ true → trim_whitespace (c ∷ s) ≡ trim_whitespace s
unfolding strip_front
trim_whitespace_blank c s h = trim_whitespace-strip (c ∷ s) ∙ rw h (sym (trim_whitespace-strip s))

-- Trimming drops no byte that is not blank, so what a trimmed text contains, the text contains.
pub contains-trim_whitespace :
    (p s : Bytes) → contains p (trim_whitespace s) ≡ true → contains p s ≡ true
contains-trim_whitespace p s h =
    let t = trim_whitespace-Trims s in
    rw t.splits (contains-middle p t.before (trim_whitespace s) t.behind h)
