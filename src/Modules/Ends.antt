-- ===== src/Modules/Ends.antt =====
-- `require` ends: files that load each other do so only as deep as there are files.
use kode.Prelude.{
  ℕ, zero, suc, ◌+◌, ◌≤◌, ◌<◌, ◌≡◌, refl, inl, inr, Bool, true, false, List, [], ◌∷◌, Option, none,
  some, arith, Option-cases, length, is_some, if◌then◌else◌,
}
use kode.Text.{v8_string, Bytes, equal}
use kode.Text.Dict.{lookup}
use kode.Text.Find.{equal_iff}
use kode.Paths.{dirname}
use kode.Modules.{
  Loader, World, Require, Script, returns, raises, requires, sets_exports, sets_require, Answer,
  Compiled, syntax_error, not_a_function, function, execute, enter, after_call, call_compiled,
  load_text, load_file, load_local_module, require_callback, require, require_named, wrap,
}
use kode.Modules.Extends.{enter_known, enter-kept, AllKeep}
use kode.Modules.Loading.{Keeps_some, require-Keeps}

-- Whether a file is on the list, and how many files of the list are not in the cache.
unfoldable pub listed : List Bytes → Bytes → Bool
listed [] file = false
listed (p ∷ files) file = if equal p file then true else listed files file

unfoldable missing : List Bytes → List (Bytes × ℕ) → ℕ
missing [] cache = 0
missing (p ∷ files) cache = (if is_some (lookup p cache) then 0 else 1) + missing files cache

module _ (c d : List (Bytes × ℕ))
    (kept : (k : Bytes) (h : ℕ) → lookup k c ≡ some h → lookup k d ≡ some h) where
  missing_le : (files : List Bytes) → missing files d ≤ missing files c
  unfolding missing
  missing_le [] = omega arith
  missing_le (p ∷ files) = elim (Option-cases (lookup p c)) [
    | inl e ↦ ground (arith, missing_le files)
    | inr (h, e) ↦ ground (arith, missing_le files, kept p h e)
  ]

  missing_lt :
      (files : List Bytes) (file : Bytes) (h : ℕ)
      → listed files file ≡ true
      → lookup file c ≡ none
      → lookup file d ≡ some h
      → missing files d < missing files c
  unfolding missing listed
  missing_lt [] file h l n f = absurd (ground arith)
  missing_lt (p ∷ files) file h l n f = elim (Option-cases (lookup p c)) [
    | inl e ↦ ground (arith, missing_le files, missing_lt files file h, equal_iff p file)
    | inr (i, e) ↦ ground (arith, missing_lt files file h, equal_iff p file, kept p i e)
  ]

if_ends :
    {R : Type 0} (b : Bool) (o : Option R) (r : R)
    → is_some o ≡ true
    → is_some (if b then o else some r) ≡ true
if_ends true o r k = k
if_ends false o r k = refl

module _ {V : Type 0} (files : List Bytes) where
  abbrev AllEnd : Require V → ℕ → Type 0
  AllEnd r n =
      (name : Option Bytes) (s : Loader V) → missing files s.cache < n → is_some (r name s) ≡ true

  bind_ends :
      {R Q : Type 0} (o : Option (Loader V × R)) (next : Loader V → R → Option (Loader V × Q))
      → is_some o ≡ true
      → ((t : Loader V) (a : R) → o ≡ some (t, a) → is_some (next t a) ≡ true)
      → is_some (elim o [ none ↦ none | some (t, a) ↦ next t a ]) ≡ true
  bind_ends none next k l = absurd (ground arith)
  bind_ends (some (t, a)) next k l = l t a refl

  execute_ends :
      (r : Require V) (n : ℕ)
      → AllKeep r
      → AllEnd r n
      → (body : Script V) (s : Loader V) → missing files s.cache < n
      → is_some (execute r body s) ≡ true
  unfolding execute
  execute_ends r n keeps ends returns s h = refl
  execute_ends r n keeps ends raises s h = refl
  execute_ends r n keeps ends (requires name next) s h =
      bind_ends (r name s) (λ t a. execute r (next a) t) (ends name s h)
        (λ t a e.
          let kept = (Keeps_some s t (r name s) a (keeps name s) e).kept in
          let less = missing_le s.cache t.cache kept files in
          execute_ends r n keeps ends (next a) t (omega arith))
  execute_ends r n keeps ends (sets_exports i v next) s h = execute_ends r n keeps ends next _ h
  execute_ends r n keeps ends (sets_require b next) s h = execute_ends r n keeps ends next _ h

  after_call_ends :
      (file : Bytes) (h : ℕ) (o : Option (Loader V × Bool))
      → is_some o ≡ true
      → is_some (after_call file h o) ≡ true
  unfolding after_call
  after_call_ends file h none k = absurd (ground arith)
  after_call_ends file h (some (s, true)) k = refl
  after_call_ends file h (some (s, false)) k = refl

  call_compiled_ends :
      (w : World V) (r : Require V) (n : ℕ)
      → AllKeep r
      → AllEnd r n
      → (file : Bytes) (h : ℕ) (s : Loader V) (c : Compiled V) → missing files s.cache < n
      → is_some (call_compiled w r file h s c) ≡ true
  unfolding call_compiled
  call_compiled_ends w r n keeps ends file h s syntax_error k = refl
  call_compiled_ends w r n keeps ends file h s not_a_function k = refl
  call_compiled_ends w r n keeps ends file h s (function body) k = if_ends s.require_callable _ _ (
      after_call_ends file h _ (
        execute_ends r n keeps ends
          (body (w.object h) h (v8_string file) (v8_string (dirname file))) _ k))

  enter_lt :
      (w : World V) (file : Bytes) (s : Loader V)
      → lookup file s.cache ≡ none
      → listed files file ≡ true
      → missing files (enter w file s).cache < missing files s.cache
  unfolding enter
  enter_lt w file s new l =
      missing_lt s.cache _ (enter-kept w file s new) files file (length s.heap) l new
        (enter_known w file s)

  module _ (w : World V)
      (known : (file text : Bytes)
        → w.read_file_text file ≡ some text
        → listed files file ≡ true) where
    load_file_ends :
        (r : Require V) (n : ℕ)
        → AllKeep r
        → AllEnd r n
        → (specifier file : Bytes) (s : Loader V) → missing files s.cache < n + 1
        → is_some (load_file w r specifier file s) ≡ true
    unfolding load_file load_text
    load_file_ends r n keeps ends specifier file s k = elim (Option-cases (lookup file s.cache)) [
      | inr (h, e) ↦ rw (e, load_file) refl
      | inl new ↦ elim (Option-cases (w.read_file_text file)) [
        | inl e ↦ rw (new, e, load_file, load_text) refl
        | inr (text, e) ↦
            let less = enter_lt w file s new (known file text e) in
            rw (new, e, load_file, load_text)
              (call_compiled_ends w r n keeps ends file (length s.heap) (enter w file s)
                (w.compile (v8_string file) (v8_string (wrap text))) (omega (arith, less, k)))
      ]
    ]

    require_named_ends :
        (r : Require V) (n : ℕ)
        → AllKeep r
        → AllEnd r n
        → (name : Bytes) (s : Loader V) (o : Option V) (local : Bool)
        → missing files s.cache < n + 1
        → is_some (require_named w r name s o local) ≡ true
    unfolding require_named load_local_module
    require_named_ends r n keeps ends name s (some v) local k = refl
    require_named_ends r n keeps ends name s none true k = load_file_ends r n keeps ends name _ s k
    require_named_ends r n keeps ends name s none false k = refl

    require_ends_from : (fuel : ℕ) → AllEnd (require w fuel) fuel
    unfolding require require_callback
    require_ends_from zero name s k = absurd (omega arith)
    require_ends_from (suc fuel) none s k = refl
    require_ends_from (suc fuel) (some name) s k =
        require_named_ends (require w fuel) fuel (require-Keeps w fuel) (require_ends_from fuel)
          name s _ _ (omega (arith, k))

missing-length :
    (files : List Bytes) (cache : List (Bytes × ℕ)) → missing files cache ≤ length files
unfolding missing
missing-length [] cache = omega arith
missing-length (p ∷ files) cache = ground (arith, missing-length files cache)

-- Where every file that can be read is one of `files`, and the body of each module ends by itself,
-- `require` ends: it needs one round more than there are files, cycles of files included.
pub require_ends :
    {V : Type 0} (w : World V) (files : List Bytes)
    → ((file text : Bytes) → w.read_file_text file ≡ some text → listed files file ≡ true)
    → (fuel : ℕ) → length files < fuel
    → (name : Option Bytes) (s : Loader V)
    → (t : Loader V) × (a : Answer V) × (require w fuel name s ≡ some (t, a))
require_ends w files known fuel enough name s = elim (Option-cases (require w fuel name s)) [
  | inr ((t, a), e) ↦ (t, a, e)
  | inl e ↦ absurd (ground (arith, ends))
]
  where
    ends : is_some (require w fuel name s) ≡ true
    ends =
        require_ends_from files w known fuel name s
          (omega (arith, enough, missing-length files s.cache))
