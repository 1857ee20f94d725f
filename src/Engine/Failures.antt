-- ===== src/Engine/Failures.antt =====
-- A script that fails gives an error that the runtime sees.
use kode.Prelude.{
  ℕ, ◌≡◌, ◌↔◌, refl, inl, inr, Bool, true, false, not, List, [], ◌∷◌, ◌++◌, Option, none, some,
  arith, ltb, Bool-cases,
}
use kode.Text.{Bytes, is_empty}
use kode.Runtime.Script.{show_result}
use kode.Engine.{
  State, PromiseState, pending, fulfilled, rejected, plain, promise, run_turns, settled_text,
  resolve_top_level_promise, to_text, format_at, format_try_catch, Run, bad_source, not_compiled,
  not_run, gives, run_compiled, run_script,
}

-- Whether the first state that is not pending is a rejection.
unfoldable pub is_rejected : PromiseState → List PromiseState → Bool
is_rejected pending [] = false
is_rejected pending (state ∷ turns) = is_rejected state turns
is_rejected (fulfilled v) turns = false
is_rejected (rejected v) turns = true

-- A script works if it is compiled and run, and a promise that it gives is not rejected.
unfoldable pub works : Run → Bool
unfolding is_rejected
works bad_source = false
works (not_compiled c) = false
works (not_run c) = false
works (gives (plain v)) = true
works (gives (promise state turns)) = not (is_rejected state turns)

longer-is_empty : (xs : Bytes) (y : ℕ) (ys : Bytes) → is_empty (xs ++ y ∷ ys) ≡ false
longer-is_empty [] y ys = refl
longer-is_empty (x ∷ xs) y ys = refl

format_at-is_empty :
    (file : Bytes) (line : ℕ) (text : Bytes) → is_empty (format_at file line text) ≡ false
unfolding format_at
format_at-is_empty file line text = elim (Bool-cases (ltb 0 line)) [
  | inl e ↦ rw (e, format_at) (longer-is_empty file _ _)
  | inr e ↦ rw (e, format_at) (longer-is_empty file _ _)
]

format_try_catch-is_empty :
    (file : Bytes) (message : Option (Bytes × ℕ)) (exception : Bytes)
    → is_empty (format_try_catch file (record { message = message; exception = exception })) ≡ false
unfolding format_try_catch
format_try_catch-is_empty file none exception = format_at-is_empty file 0 _
format_try_catch-is_empty file (some (resource, line)) exception = format_at-is_empty _ line _

run_turns-is_empty :
    (state : PromiseState) (turns : List PromiseState)
    → is_empty (settled_text (run_turns state turns)).1 ≡ not (is_rejected state turns)
unfolding run_turns settled_text is_rejected
run_turns-is_empty pending [] = refl
run_turns-is_empty pending (state ∷ turns) = run_turns-is_empty state turns
run_turns-is_empty (fulfilled v) turns = refl
run_turns-is_empty (rejected v) turns = elim (Bool-cases (is_empty (to_text v))) [
  | inl e ↦ rw e refl
  | inr e ↦ rw e e
]

pub run_compiled-is_empty : (file : Bytes) (r : Run) → is_empty (run_compiled file r).1 ≡ works r
unfolding run_compiled works resolve_top_level_promise
run_compiled-is_empty file bad_source = refl
run_compiled-is_empty file (not_compiled c) = format_try_catch-is_empty file c.message c.exception
run_compiled-is_empty file (not_run c) = format_try_catch-is_empty file c.message c.exception
run_compiled-is_empty file (gives (plain v)) = refl
run_compiled-is_empty file (gives (promise state turns)) = run_turns-is_empty state turns

-- `ExecuteString` calls what `runScript` gives a success just when the engine has an isolate, the script
-- is compiled and run, and the promise that it may give is not rejected; one that stays pending counts
-- as a success.
pub show_result-run_script :
    (s : State) (file : Bytes) (r : Run)
    → ((show_result (run_script s file r).0 (run_script s file r).1).1 ≡ true)
      ↔ ((s.isolate ≡ true) × (works r ≡ true))
unfolding show_result run_script
show_result-run_script s file r = ground (arith, run_compiled-is_empty file r)
