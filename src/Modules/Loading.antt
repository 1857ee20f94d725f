-- ===== src/Modules/Loading.antt =====
-- What a call of `require` keeps of the loader's state, whatever the modules do that it loads.
use kode.Prelude.{
  if◌then◌else◌, ◌⊎◌, ◌∙◌, sym, ℕ, zero, suc, ◌≡◌, inl, inr, Bool, true, false, ◌∷◌, Option, none,
  some, Option-cases,
}
use kode.Text.{v8_string, Bytes}
use kode.Text.Dict.{lookup}
use kode.Paths.{dirname}
use kode.Modules.{
  Loader, World, Require, Answer, Compiled, syntax_error, not_a_function, function, enter, forget,
  pop_dir, after_call, call_compiled, load_text, load_file, load_local_module, require_callback,
  require, no_require, require_named,
}
use kode.Modules.Extends.{
  Extends, Keeps, AllKeep, Keeps-same, execute-Keeps, forget-Extends, finish-Extends, Extends_refl,
  pop_dir-Extends,
}

module _ {V : Type 0} where
  after_call-Keeps :
      (w : World V) (file dir : Bytes) (h : ℕ) (s : Loader V)
      → lookup file s.cache ≡ none
      → (o : Option (Loader V × Bool))
      → (let e = enter w file s in Keeps (record e { dir_stack = dir ∷ e.dir_stack }) o)
      → Keeps s (after_call file h o)
  unfolding after_call Keeps
  after_call-Keeps w file dir h s new none k = tt
  after_call-Keeps w file dir h s new (some (t, false)) k =
      forget-Extends w file s (pop_dir t) new (pop_dir-Extends dir (enter w file s) t k)
  after_call-Keeps w file dir h s new (some (t, true)) k =
      finish-Extends w file s (pop_dir t) _ new (pop_dir-Extends dir (enter w file s) t k)

  if-Keeps :
      {R : Type 0} (s : Loader V) (b : Bool) (x y : Option (Loader V × R))
      → Keeps s x
      → Keeps s y
      → Keeps s (if b then x else y)
  if-Keeps s true x y k l = k
  if-Keeps s false x y k l = l

  forget-Keeps :
      {R : Type 0} (w : World V) (file : Bytes) (s t : Loader V) (r : R)
      → lookup file s.cache ≡ none
      → Extends (enter w file s) t
      → Keeps s (some (forget file t, r))
  unfolding Keeps
  forget-Keeps w file s t r new p = forget-Extends w file s t new p

  call_compiled-Keeps :
      (w : World V) (r : Require V)
      → AllKeep r
      → (file : Bytes) (h : ℕ) (s : Loader V) → lookup file s.cache ≡ none
      → (c : Compiled V) → Keeps s (call_compiled w r file h (enter w file s) c)
  unfolding call_compiled
  call_compiled-Keeps w r keeps file h s new syntax_error =
      forget-Keeps w file s _ _ new (Extends_refl _)
  call_compiled-Keeps w r keeps file h s new not_a_function =
      forget-Keeps w file s _ _ new (Extends_refl _)
  call_compiled-Keeps w r keeps file h s new (function body) =
      if-Keeps s (enter w file s).require_callable _ _
        (after_call-Keeps w file (dirname file) h s new _ (
          execute-Keeps r keeps (body (w.object h) h (v8_string file) (v8_string (dirname file)))
            _))
        (forget-Keeps w file s _ (no_require file) new (Extends_refl _))

  load_text-Keeps :
      (w : World V) (r : Require V)
      → AllKeep r
      → (specifier file : Bytes) (s : Loader V) → lookup file s.cache ≡ none
      → (o : Option Bytes) → Keeps s (load_text w r specifier file s o)
  unfolding load_text
  load_text-Keeps w r keeps specifier file s new none = Keeps-same s _
  load_text-Keeps w r keeps specifier file s new (some source) =
      call_compiled-Keeps w r keeps file _ s new _

  pub load_file-Keeps :
      (w : World V) (r : Require V)
      → AllKeep r
      → (specifier file : Bytes) (s : Loader V) → Keeps s (load_file w r specifier file s)
  unfolding load_file
  load_file-Keeps w r keeps specifier file s = elim (Option-cases (lookup file s.cache)) [
    | inr (h, e) ↦ rw (e, load_file) (Keeps-same s _)
    | inl e ↦ rw (e, load_file) (load_text-Keeps w r keeps specifier file s e _)
  ]

  require_named-Keeps :
      (w : World V) (r : Require V)
      → AllKeep r
      → (name : Bytes) (s : Loader V) (o : Option V) (local : Bool)
      → Keeps s (require_named w r name s o local)
  unfolding require_named load_local_module
  require_named-Keeps w r keeps name s (some v) local = Keeps-same s _
  require_named-Keeps w r keeps name s none true = load_file-Keeps w r keeps name _ s
  require_named-Keeps w r keeps name s none false = Keeps-same s _

  pub require_callback-Keeps :
      (w : World V) (r : Require V) → AllKeep r → AllKeep (require_callback w r)
  unfolding require_callback
  require_callback-Keeps w r keeps none s = Keeps-same s _
  require_callback-Keeps w r keeps (some name) s = require_named-Keeps w r keeps name s _ _

  -- Whatever `require` loads, and however it ends, the stack of directories is as before, and every
  -- module that was in the cache is still there, as the same object.
  pub require-Keeps : (w : World V) (fuel : ℕ) → AllKeep (require w fuel)
  unfolding require Keeps
  require-Keeps w zero name s = tt
  require-Keeps w (suc fuel) name s = require_callback-Keeps w _ (require-Keeps w fuel) name s

  -- The same of a result that is there.
  pub Keeps_some :
      {R : Type 0} (s t : Loader V) (o : Option (Loader V × R)) (a : R)
      → Keeps s o
      → o ≡ some (t, a)
      → Extends s t
  unfolding Keeps
  Keeps_some s t none a k e = absurd cc
  Keeps_some s t (some (u, b)) a k e = let q : u ≡ t = cc in rw (← q) k

  -- Whatever `require` loads, and however it ends, the stack of directories and the entry directory are
  -- as before, and each file that was in the cache is still there, with the same object.
  pub require_keeps :
      (w : World V) (fuel : ℕ) (name : Option Bytes) (s t : Loader V) (a : Answer V)
      → require w fuel name s ≡ some (t, a)
      → (file : Bytes)
      → (t.dir_stack ≡ s.dir_stack)
        × (t.entry_dir ≡ s.entry_dir)
        × ((lookup file s.cache ≡ none) ⊎ (lookup file t.cache ≡ lookup file s.cache))
  require_keeps w fuel name s t a e file =
      let p = Keeps_some s t _ a (require-Keeps w fuel name s) e in
      (
        p.same_stack,
        p.same_entry,
        elim (Option-cases (lookup file s.cache)) [
          | inl new ↦ inl new
          | inr (h, f) ↦ inr (p.kept file h f ∙ sym f)
        ],
      )
