-- ===== src/Modules/Extends.antt =====
-- How the loader's state grows: what the body of a module, and each step around it, keeps.
use kode.Prelude.{drop, ℕ, ◌≡◌, refl, ◌∙◌, Bool, List, ◌∷◌, Option, none, some, arith, length, ap}
use kode.Text.{Bytes}
use kode.Text.Dict.{lookup, lookup-insert, lookup-erase, insert-Unique, erase-Unique, Unique}
use kode.Text.Find.{equal_iff, equal_self}
use kode.Modules.{
  Loader, World, Require, Script, returns, raises, requires, sets_exports, sets_require, execute,
  enter, forget, pop_dir, finish,
}

module _ {V : Type 0} where
  -- `t` is as deep as `s` in the same directories, and knows each module that `s` knows as the same
  -- object.
  pub record Extends (s t : Loader V) : Type 0 where
    pub same_stack : t.dir_stack ≡ s.dir_stack
    pub same_entry : t.entry_dir ≡ s.entry_dir
    pub kept : (k : Bytes) (h : ℕ) → lookup k s.cache ≡ some h → lookup k t.cache ≡ some h
    pub unique : Unique s.cache → Unique t.cache

  -- What a result keeps of the state before.
  unfoldable pub Keeps : {R : Type 0} → Loader V → Option (Loader V × R) → Type 0
  Keeps s none = Unit
  Keeps s (some (t, r)) = Extends s t

  abbrev pub AllKeep : Require V → Type 0
  AllKeep r = (name : Option Bytes) (s : Loader V) → Keeps s (r name s)

  pub Extends_refl : (s : Loader V) → Extends s s
  Extends_refl s = record {
    same_stack = refl;
    same_entry = refl;
    kept = λ k h e. e;
    unique = λ u. u;
  }

  pub Extends_trans : (s t u : Loader V) → Extends s t → Extends t u → Extends s u
  Extends_trans s t u p q = record {
    same_stack = q.same_stack ∙ p.same_stack;
    same_entry = q.same_entry ∙ p.same_entry;
    kept = λ k h e. q.kept k h (p.kept k h e);
    unique = λ v. q.unique (p.unique v);
  }

  pub Keeps-trans :
      {R : Type 0} (s t : Loader V)
      → Extends s t
      → (o : Option (Loader V × R)) → Keeps t o
      → Keeps s o
  unfolding Keeps
  Keeps-trans s t p none k = tt
  Keeps-trans s t p (some (u, r)) k = Extends_trans s t u p k

  pub Keeps-same : {R : Type 0} (s : Loader V) (r : R) → Keeps s (some (s, r))
  unfolding Keeps
  Keeps-same s r = Extends_refl s

  pub Keeps-bind :
      {R Q : Type 0} (s : Loader V) (o : Option (Loader V × R))
      (next : Loader V → R → Option (Loader V × Q))
      → Keeps s o
      → ((t : Loader V) (a : R) → Keeps t (next t a))
      → Keeps s (elim o [ none ↦ none | some (t, a) ↦ next t a ])
  unfolding Keeps
  Keeps-bind s none next k l = tt
  Keeps-bind s (some (t, a)) next k l = Keeps-trans s t k _ (l t a)

  abbrev same_modules :
      (s : Loader V) (heap : List (Option V)) (b : Bool)
      → Extends s (record s { heap = heap; require_callable = b })
  same_modules s heap b = record {
    same_stack = refl;
    same_entry = refl;
    kept = λ k h e. e;
    unique = λ u. u;
  }

  pub execute-Keeps :
      (r : Require V) → AllKeep r → (body : Script V) (s : Loader V) → Keeps s (execute r body s)
  unfolding execute Keeps
  execute-Keeps r keeps returns s = Extends_refl s
  execute-Keeps r keeps raises s = Extends_refl s
  execute-Keeps r keeps (requires name next) s =
      Keeps-bind s (r name s) (λ t a. execute r (next a) t) (keeps name s)
        (λ t a. execute-Keeps r keeps (next a) t)
  execute-Keeps r keeps (sets_exports h v next) s =
      Keeps-trans s _ (same_modules s _ _) _ (execute-Keeps r keeps next _)
  execute-Keeps r keeps (sets_require c next) s =
      Keeps-trans s _ (same_modules s _ _) _ (execute-Keeps r keeps next _)

  pub enter-kept :
      (w : World V) (file : Bytes) (s : Loader V)
      → lookup file s.cache ≡ none
      → (k : Bytes) (h : ℕ) → lookup k s.cache ≡ some h
      → lookup k (enter w file s).cache ≡ some h
  unfolding enter
  enter-kept w file s new k h e =
      ground (arith, lookup-insert file k (length s.heap) s.cache, equal_iff file k)

  pub enter_known :
      (w : World V) (file : Bytes) (s : Loader V)
      → lookup file (enter w file s).cache ≡ some (length s.heap)
  unfolding enter
  enter_known w file s = lookup-insert file file (length s.heap) s.cache ∙ rw (equal_self file) refl

  -- A file that `s` does not know, and that is forgotten again, has changed nothing.
  pub forget-Extends :
      (w : World V) (file : Bytes) (s t : Loader V)
      → lookup file s.cache ≡ none
      → Extends (enter w file s) t
      → Extends s (forget file t)
  unfolding forget enter
  forget-Extends w file s t new p = record {
    same_stack = p.same_stack;
    same_entry = p.same_entry;
    kept = λ k h e.
        lookup-erase file k t.cache (ground (arith, equal_iff file k, new, e))
        ∙ p.kept k h (enter-kept w file s new k h e);
    unique = λ u. erase-Unique file t.cache (p.unique (insert-Unique file _ s.cache u));
  }

  pub enter-Extends :
      (w : World V) (file : Bytes) (s : Loader V)
      → lookup file s.cache ≡ none
      → Extends s (enter w file s)
  unfolding enter
  enter-Extends w file s new = record {
    same_stack = refl;
    same_entry = refl;
    kept = enter-kept w file s new;
    unique = λ u. insert-Unique file _ s.cache u;
  }

  -- From the state with the module's directory on the stack back to the one before.
  pub pop_dir-Extends :
      (dir : Bytes) (s t : Loader V)
      → Extends (record s { dir_stack = dir ∷ s.dir_stack }) t
      → Extends s (pop_dir t)
  unfolding pop_dir
  pop_dir-Extends dir s t p = record {
    same_stack = ap (drop 1) p.same_stack;
    same_entry = p.same_entry;
    kept = p.kept;
    unique = p.unique;
  }

  pub finish-Extends :
      (w : World V) (file : Bytes) (s t : Loader V) (v : Option V)
      → lookup file s.cache ≡ none
      → Extends (enter w file s) t
      → Extends s (finish file t v).0
  unfolding finish
  finish-Extends w file s t none new p = forget-Extends w file s t new p
  finish-Extends w file s t (some v) new p =
      Extends_trans s (enter w file s) t (enter-Extends w file s new) p
