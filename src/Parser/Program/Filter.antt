-- ===== src/Parser/Program/Filter.antt =====
-- `Parse` on whole programs: which lines become statements, and which never do.
use kode.Prelude.{
  ◌≡◌, refl, sym, ap, ◌∙◌, ◌⊎◌, inl, inr, true, false, List, [], ◌∷◌, ◌++◌, map, arith,
  append_assoc, append-nil, All, All-append, Bool-cases, none,
}
use kode.Text.{Bytes, codes, contains, find, starts_with, pop_back, is_empty}
use kode.Text.Find.{contains_trans, contains-front}
use kode.Parser.{Statement}
use kode.Parser.Clean.{trim_whitespace, remove_semicolons, remove_comments, split_into_lines}
use kode.Parser.Clean.Trim.{contains-trim_whitespace}
use kode.Parser.Clean.Comments.{remove_comments-strip_comments, strip_comments-none}
use kode.Parser.Clean.Lines.{unlines, NoNewline, split_into_lines-unlines_lines}
use kode.Parser.Line.{is_callback_pattern, parse_line, parse_trimmed}
use kode.Parser.Line.Kinds.{is_console_error, parse_trimmed-Named}
use kode.Parser.Line.Calls.{
  ApiCall, IsApiCall, source_of, statement_of, trim-source_of, parse_line-source_of,
}
use kode.Parser.Program.{
  ParseState, is_unknown, parse_trimmed_line, parse_next, parse_lines, begin, parse,
}

pop_back-split : (s : Bytes) → (t : Bytes) × (s ≡ pop_back s ++ t)
unfolding pop_back
pop_back-split [] = ([], refl)
pop_back-split (c ∷ []) = (c ∷ [], refl)
pop_back-split (c ∷ d ∷ s) = let (t, e) = pop_back-split (d ∷ s) in (t, ap (◌∷◌ c) e)

contains-remove_semicolons :
    (p s : Bytes) → contains p (remove_semicolons s) ≡ true → contains p s ≡ true
unfolding remove_semicolons
contains-remove_semicolons p s h =
    let (t, e) = pop_back-split s in ground (arith, contains-front p (pop_back s) t, e)

-- "console.error" holds "err", which is one of the callback patterns.
error-is_callback_pattern :
    (s : Bytes) → contains (codes "console.error") s ≡ true → is_callback_pattern s ≡ true
unfolding is_callback_pattern
error-is_callback_pattern s h = ground (
  arith,
  contains_trans (codes "err") (codes "console.error") s (unfold find starts_with in refl) h,
)

parse_line-no_error :
    (line : Bytes)
    → is_callback_pattern line ≡ false
    → is_console_error (parse_line line).type ≡ false
unfolding parse_line
parse_line-no_error line h =
    let t = trim_whitespace (remove_semicolons line) in
    elim (Bool-cases (is_console_error (parse_trimmed t).type)) [
      | inr e ↦ e
      | inl e ↦
          let found = contains-remove_semicolons (codes "console.error") line (
            contains-trim_whitespace (codes "console.error") (remove_semicolons line)
              ((parse_trimmed-Named t).named e)) in
          cc (error-is_callback_pattern line found)
    ]

abbrev NoError : Statement → Type 0
NoError stmt = is_console_error stmt.type ≡ false

-- A line adds no statement, or its own, which it does only if it is no callback pattern.
statements-cases :
    (p : ParseState) (line : Bytes)
    → ((parse_trimmed_line p line).statements ≡ p.statements)
      ⊎ ((is_callback_pattern line ≡ false)
          × ((parse_trimmed_line p line).statements ≡ p.statements ++ parse_line line ∷ []))
unfolding parse_trimmed_line
statements-cases p line = ground arith

parse_next-NoError :
    (p : ParseState) (line : Bytes)
    → All NoError p.statements
    → All NoError (parse_next p line).statements
unfolding parse_next
parse_next-NoError p line h = elim (Bool-cases (is_empty (trim_whitespace line))) [
  | inl e ↦ rw e h
  | inr e ↦ rw e (elim (statements-cases p (trim_whitespace line)) [
    | inl m ↦ rw m h
    | inr (k, m) ↦ rw m (
        All-append NoError p.statements (parse_line (trim_whitespace line) ∷ []) h
          (parse_line-no_error (trim_whitespace line) k, tt))
  ])
]

parse_lines-NoError :
    (lines : List Bytes) (p : ParseState)
    → All NoError p.statements
    → All NoError (parse_lines p lines).statements
unfolding parse_lines
parse_lines-NoError [] p h = h
parse_lines-NoError (line ∷ lines) p h =
    parse_lines-NoError lines (parse_next p line) (parse_next-NoError p line h)

-- No program has a CONSOLE_ERROR statement: the filter for callbacks drops every line that calls
-- `console.error`.
pub parse-no_error :
    (program : Bytes) → All (λ stmt. is_console_error stmt.type ≡ false) (parse program)
unfolding parse
parse-no_error program = parse_lines-NoError (split_into_lines (remove_comments program)) begin tt

-- A line that is no part of a callback.
pub record IsPlain (line : Bytes) : Type 0 where
  pub no_newline : NoNewline line
  pub no_arrow : contains (codes "=>") line ≡ false
  pub no_function : contains (codes "function") line ≡ false
  pub no_pattern : is_callback_pattern line ≡ false

abbrev IsPlainCall : ApiCall → Type 0
IsPlainCall c = IsApiCall c × IsPlain (source_of c)

statement_of-known : (c : ApiCall) → is_unknown (statement_of c).type ≡ false
unfolding is_unknown
statement_of-known c = ground arith

source_of-nonempty : (c : ApiCall) → is_empty (source_of c) ≡ false
source_of-nonempty c = ground arith

parse_trimmed_line-plain :
    (p : ParseState) (line : Bytes)
    → p.inside_callback ≡ false
    → IsPlain line
    → is_unknown (parse_line line).type ≡ false
    → ((parse_trimmed_line p line).inside_callback ≡ false)
      × ((parse_trimmed_line p line).statements ≡ p.statements ++ parse_line line ∷ [])
unfolding parse_trimmed_line
parse_trimmed_line-plain p line e h k = ground (arith, h.no_arrow, h.no_function, h.no_pattern)

parse_next-plain :
    (p : ParseState) (line : Bytes)
    → trim_whitespace line ≡ line
    → is_empty line ≡ false
    → parse_next p line ≡ parse_trimmed_line p line
unfolding parse_next
parse_next-plain p line t e = rw (t, e) refl

parse_next-call :
    (p : ParseState) (c : ApiCall)
    → p.inside_callback ≡ false
    → IsPlainCall c
    → ((parse_next p (source_of c)).inside_callback ≡ false)
      × ((parse_next p (source_of c)).statements ≡ p.statements ++ statement_of c ∷ [])
parse_next-call p c e h =
    let read = (parse_line-source_of c h.0).0 in
    rw (parse_next-plain p (source_of c) (trim-source_of c) (source_of-nonempty c), ← read)
      (parse_trimmed_line-plain p (source_of c) e h.1 (rw read (statement_of-known c)))

parse_lines-calls :
    (cs : List ApiCall) (p : ParseState)
    → p.inside_callback ≡ false
    → All IsPlainCall cs
    → (parse_lines p (map source_of cs)).statements ≡ p.statements ++ map statement_of cs
unfolding parse_lines
parse_lines-calls [] p e h = sym (append-nil p.statements)
parse_lines-calls (c ∷ cs) p e h =
    let (out, grown) = parse_next-call p c e h.0 in
    parse_lines-calls cs (parse_next p (source_of c)) out h.1
    ∙ ap (λ xs. xs ++ map statement_of cs) grown
    ∙ append_assoc p.statements (statement_of c ∷ []) (map statement_of cs)

lines-NoNewline : (cs : List ApiCall) → All IsPlainCall cs → All NoNewline (map source_of cs)
lines-NoNewline [] h = tt
lines-NoNewline (c ∷ cs) h = (h.0.1.no_newline, lines-NoNewline cs h.1)

-- `Parse` reads a program of calls of the concurrency API, one on a line, as their statements in
-- order; for a program with no comment, and calls that hold no newline, no arrow, not the word
-- `function` and no callback pattern, and are written as `ParseLine` reads them.
pub parse-calls :
    (cs : List ApiCall)
    → All (λ c. IsApiCall c × IsPlain (source_of c)) cs
    → find (codes "//") (unlines (map source_of cs)) ≡ none
    → parse (unlines (map source_of cs)) ≡ map statement_of cs
unfolding parse
parse-calls cs h none_found =
    ap (λ lines. (parse_lines begin lines).statements)
      (ap split_into_lines (
          remove_comments-strip_comments (unlines (map source_of cs))
          ∙ strip_comments-none (unlines (map source_of cs)) none_found)
        ∙ split_into_lines-unlines_lines (map source_of cs) (lines-NoNewline cs h))
    ∙ parse_lines-calls cs begin refl h
