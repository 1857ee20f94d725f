-- ===== src/Modules/Cached.antt =====
-- What the cache does for the next `require` of a module.
use kode.Prelude.{
  ℕ, ◌≡◌, refl, ap, sym, ◌∙◌, inl, inr, Bool, true, false, Option, none, some, arith, Option-cases,
  length, get_or, if◌then◌else◌,
}
use kode.Text.{v8_string, Bytes}
use kode.Text.Dict.{lookup, Unique, lookup-erase_self, insert-Unique}
use kode.Paths.{dirname}
use kode.Modules.{
  Loader, World, Require, Answer, value, undefined, throws, fails, Compiled, syntax_error,
  not_a_function, function, enter, forget, pop_dir, push_dir, finish, after_call, call_compiled,
  load_text, load_file, load_local_module, require, no_require, exports_of,
  resolve_local_module_path, base_dir,
}
use kode.Modules.Extends.{
  Extends, Extends_refl, enter_known, pop_dir-Extends, Keeps, AllKeep, execute-Keeps,
}
use kode.Modules.Loading.{Keeps_some, require-Keeps, load_file-Keeps}

module _ {V : Type 0} where
  -- A module that gave a value is in the cache with it; one that failed is not.
  unfoldable pub Settled : Bytes → Option (Loader V × Answer V) → Type 0
  Settled file none = Unit
  Settled file (some (t, value v)) =
      (h : ℕ) × (lookup file t.cache ≡ some h) × (get_or t.heap h none ≡ some v)
  Settled file (some (t, undefined)) = lookup file t.cache ≡ none
  Settled file (some (t, throws)) = lookup file t.cache ≡ none
  Settled file (some (t, fails e)) = lookup file t.cache ≡ none

  forget_gone :
      (w : World V) (file : Bytes) (s t : Loader V)
      → Unique s.cache
      → Extends (enter w file s) t
      → lookup file (forget file t).cache ≡ none
  unfolding forget enter
  forget_gone w file s t u p =
      lookup-erase_self file t.cache (p.unique (insert-Unique file _ s.cache u))

  finish-Settled :
      (w : World V) (file : Bytes) (s t : Loader V) (o : Option V)
      → Unique s.cache
      → Extends (enter w file s) t
      → get_or t.heap (length s.heap) none ≡ o
      → Settled file (some (finish file t o))
  unfolding finish Settled
  finish-Settled w file s t none u p e = forget_gone w file s t u p
  finish-Settled w file s t (some v) u p e =
      (length s.heap, p.kept file _ (enter_known w file s), e)

  after_call-Settled :
      (w : World V) (file dir : Bytes) (s : Loader V) (o : Option (Loader V × Bool))
      → Unique s.cache
      → Keeps (push_dir dir (enter w file s)) o
      → Settled file (after_call file (length s.heap) o)
  unfolding after_call Keeps Settled
  after_call-Settled w file dir s none u k = tt
  after_call-Settled w file dir s (some (t, false)) u k =
      forget_gone w file s (pop_dir t) u (pop_dir-Extends dir (enter w file s) t k)
  after_call-Settled w file dir s (some (t, true)) u k =
      finish-Settled w file s (pop_dir t) _ u (pop_dir-Extends dir (enter w file s) t k) refl

  if-Settled :
      (file : Bytes) (b : Bool) (x y : Option (Loader V × Answer V))
      → Settled file x
      → Settled file y
      → Settled file (if b then x else y)
  if-Settled file true x y k l = k
  if-Settled file false x y k l = l

  forget-Settled :
      (w : World V) (file : Bytes) (s : Loader V)
      → Unique s.cache
      → Settled file (some (forget file (enter w file s), no_require file))
  unfolding Settled
  forget-Settled w file s u = forget_gone w file s _ u (Extends_refl _)

  call_compiled-Settled :
      (w : World V) (r : Require V)
      → AllKeep r
      → (file : Bytes) (s : Loader V) (c : Compiled V) → Unique s.cache
      → Settled file (call_compiled w r file (length s.heap) (enter w file s) c)
  unfolding call_compiled Settled
  call_compiled-Settled w r keeps file s syntax_error u = forget_gone w file s _ u (Extends_refl _)
  call_compiled-Settled w r keeps file s not_a_function u =
      forget_gone w file s _ u (Extends_refl _)
  call_compiled-Settled w r keeps file s (function body) u =
      if-Settled file (enter w file s).require_callable _
        (some (forget file (enter w file s), no_require file))
        (after_call-Settled w file (dirname file) s _ u (
          execute-Keeps r keeps
            (body (w.object (length s.heap)) (length s.heap) (v8_string file)
              (v8_string (dirname file)))
            _))
        (forget-Settled w file s u)

  text-Settled :
      (w : World V) (r : Require V)
      → AllKeep r
      → (specifier file : Bytes) (s : Loader V) (o : Option Bytes) → Unique s.cache
      → lookup file s.cache ≡ none
      → Settled file (load_text w r specifier file s o)
  unfolding load_text Settled
  text-Settled w r keeps specifier file s none u new = new
  text-Settled w r keeps specifier file s (some text) u new =
      call_compiled-Settled w r keeps file s _ u

  Settled_value :
      (file : Bytes) (t : Loader V) (v : V) (o : Option (Loader V × Answer V))
      → Settled file o
      → o ≡ some (t, value v)
      → (h : ℕ) × (lookup file t.cache ≡ some h) × (get_or t.heap h none ≡ some v)
  unfolding Settled
  Settled_value file t v o k e = rw e at k

  unfoldable pub is_value : Answer V → Bool
  is_value (value v) = true
  is_value undefined = false
  is_value throws = false
  is_value (fails e) = false

  Settled_failed :
      (file : Bytes) (t : Loader V) (a : Answer V)
      → Settled file (some (t, a))
      → is_value a ≡ false
      → lookup file t.cache ≡ none
  unfolding Settled is_value
  Settled_failed file t (value v) k n = absurd (ground arith)
  Settled_failed file t undefined k n = k
  Settled_failed file t throws k n = k
  Settled_failed file t (fails e) k n = k

  exports_value :
      (s : Loader V) (h : ℕ) (v : V) → exports_of s h ≡ value v → get_or s.heap h none ≡ some v
  unfolding exports_of
  exports_value s h v e = ground arith

  load_file-new :
      (w : World V) (r : Require V) (specifier file : Bytes) (s : Loader V)
      → lookup file s.cache ≡ none
      → load_file w r specifier file s ≡ load_text w r specifier file s (w.read_file_text file)
  unfolding load_file
  load_file-new w r specifier file s e = rw (e, load_file) refl

  load_file-hit :
      (w : World V) (r : Require V) (specifier file : Bytes) (s : Loader V) (h : ℕ)
      → lookup file s.cache ≡ some h
      → load_file w r specifier file s ≡ some (s, exports_of s h)
  unfolding load_file
  load_file-hit w r specifier file s h e = rw (e, load_file) refl

  same_result :
      (file : Bytes) (s t : Loader V) (h : ℕ) (a : Answer V) (v : V)
      → ◌≡◌ {A = Option (Loader V × Answer V)} (some (s, a)) (some (t, value v))
      → lookup file s.cache ≡ some h
      → (lookup file t.cache ≡ some h) × (s ≡ t) × (a ≡ value v)
  same_result file s t h a v e f =
      let p : s ≡ t = cc in let q : a ≡ value v = cc in (rw (sym p) f, p, q)

  load_file-cached :
      (w : World V) (r : Require V)
      → AllKeep r
      → (specifier file : Bytes) (s t : Loader V) (v : V) → Unique s.cache
      → load_file w r specifier file s ≡ some (t, value v)
      → (h : ℕ) × (lookup file t.cache ≡ some h) × (get_or t.heap h none ≡ some v)
  load_file-cached w r keeps specifier file s t v u e = elim (Option-cases (lookup file s.cache)) [
    | inl new ↦
        Settled_value file t v _ (text-Settled w r keeps specifier file s _ u new)
          (sym (load_file-new w r specifier file s new) ∙ e)
    | inr (h, f) ↦
        let (known, same, given) =
          same_result file s t h _ v (sym (load_file-hit w r specifier file s h f) ∙ e) f in
        (h, known, rw (sym same) (exports_value s h v given))
  ]

  exports_known :
      (t : Loader V) (h : ℕ) (v : V) → get_or t.heap h none ≡ some v → exports_of t h ≡ value v
  unfolding exports_of
  exports_known t h v e = ground arith

  load_file_again :
      (w : World V) (r q : Require V)
      → AllKeep r
      → (specifier file : Bytes) (s t : Loader V) (v : V) → Unique s.cache
      → load_file w r specifier file s ≡ some (t, value v)
      → load_file w q specifier file t ≡ some (t, value v)
  load_file_again w r q keeps specifier file s t v u e =
      let (h, known, given) = load_file-cached w r keeps specifier file s t v u e in
      load_file-hit w q specifier file t h known ∙ ap (λ a. some (t, a)) (exports_known t h v given)

  same_base : (s t : Loader V) → Extends s t → base_dir t ≡ base_dir s
  unfolding base_dir
  same_base s t p = ground (arith, p.same_stack, p.same_entry)

  -- When a local module has been loaded with a value, requiring it again from the same place gives the
  -- same value and changes nothing, whatever `require` it would have been run with: it is not run.
  pub load_local_module_again :
      (w : World V) (fuel : ℕ) (specifier : Bytes) (s t : Loader V) (v : V)
      → Unique s.cache
      → load_local_module w (require w fuel) specifier s ≡ some (t, value v)
      → (other : Require V) → load_local_module w other specifier t ≡ some (t, value v)
  unfolding load_local_module
  load_local_module_again w fuel specifier s t v u e other =
      let p =
        Keeps_some s t _ (value v) (load_file-Keeps w _ (require-Keeps w fuel) specifier _ s) e in
      rw (same_base s t p) (load_file_again w _ other (require-Keeps w fuel) specifier _ s t v u e)

  -- A local module that was not in the cache and fails, in whatever way, is not in it afterwards.
  pub load_local_module_failed :
      (w : World V) (fuel : ℕ) (specifier : Bytes) (s t : Loader V) (a : Answer V)
      → Unique s.cache
      → lookup (resolve_local_module_path w (base_dir s) specifier) s.cache ≡ none
      → load_local_module w (require w fuel) specifier s ≡ some (t, a)
      → is_value a ≡ false
      → lookup (resolve_local_module_path w (base_dir s) specifier) t.cache ≡ none
  unfolding load_local_module
  load_local_module_failed w fuel specifier s t a u new e n =
      let file = resolve_local_module_path w (base_dir s) specifier in
      let settled =
        text-Settled w _ (require-Keeps w fuel) specifier file s (w.read_file_text file) u new in
      Settled_failed file t a
        (rw (sym (load_file-new w (require w fuel) specifier file s new) ∙ e) at settled) n
