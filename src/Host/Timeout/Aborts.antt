-- ===== src/Host/Timeout/Aborts.antt =====
-- When a signal of `Kode.timeout` is aborted, and what its handler sees.
use kode.Prelude.{
  ◌≡◌, refl, sym, ◌∙◌, Bool, true, false, ◌||◌, List, [], ◌∷◌, none, some, arith, if◌then◌else◌,
}
use mathlib.Core.Path.{subst}
use kode.Host.Scope.{RuntimeError}
use kode.Host.Timeout.{
  Delay, zero_ms, Signal, fresh, cancelled, abort, makes, timeout, Event, sets_onabort, cancels,
  step, run,
}

abbrev pub is_zero : Delay → Bool
is_zero zero_ms = true
is_zero _ = false

abbrev pub has_cancel : List Event → Bool
has_cancel [] = false
has_cancel (cancels ∷ es) = true
has_cancel (sets_onabort f ∷ es) = has_cancel es

-- What the handler is called with, by the events alone: once, at the first `cancel`, if it is set then.
abbrev pub called : Bool → List Event → List RuntimeError
called handler [] = []
called handler (cancels ∷ es) = if handler then cancelled ∷ [] else []
called handler (sets_onabort f ∷ es) = called f es

abort-aborted : (s : Signal) → s.aborted ≡ true → abort s ≡ s
unfolding abort
abort-aborted s h = simp (h)

abort-waiting :
    (s : Signal)
    → s.aborted ≡ false
    → s.calls ≡ []
    → ((abort s).aborted ≡ true)
      × ((abort s).reason ≡ some cancelled)
      × ((abort s).calls ≡ (if s.onabort then cancelled ∷ [] else []))
unfolding abort
abort-waiting s h c = ground arith

run-aborted :
    (es : List Event) (s : Signal)
    → s.aborted ≡ true
    → ((run es s).aborted ≡ true) × ((run es s).reason ≡ s.reason) × ((run es s).calls ≡ s.calls)
unfolding run step
run-aborted [] s h = (h, refl, refl)
run-aborted (sets_onabort f ∷ es) s h = run-aborted es (record s { onabort = f }) h
run-aborted (cancels ∷ es) s h =
    subst
      (λ t.
        ((run es t).aborted ≡ true) × ((run es t).reason ≡ s.reason) × ((run es t).calls ≡ s.calls))
      (sym (abort-aborted s h)) (run-aborted es s h)

run-waiting :
    (es : List Event) (s : Signal)
    → s.aborted ≡ false
    → s.reason ≡ none
    → s.calls ≡ []
    → ((run es s).aborted ≡ has_cancel es)
      × ((run es s).reason ≡ (if has_cancel es then some cancelled else none))
      × ((run es s).calls ≡ called s.onabort es)
unfolding run step
run-waiting [] s a r c = (a, r, c)
run-waiting (sets_onabort f ∷ es) s a r c = run-waiting es (record s { onabort = f }) a r c
run-waiting (cancels ∷ es) s a r c =
    let now = abort-waiting s a c in
    let later = run-aborted es (abort s) now.0 in (later.0, later.1 ∙ now.1, later.2 ∙ now.2)

abbrev Behaves : Delay → List Event → Signal → Type 0
Behaves d es s =
    ((run es s).aborted ≡ is_zero d || has_cancel es)
    × ((run es s).reason ≡ (if is_zero d || has_cancel es then some cancelled else none))
    × ((run es s).calls ≡ (if is_zero d then [] else called false es))

-- A signal is aborted just when its delay was 0 or `cancel` was called, with the reason then; its handler
-- is called at most once, at the first call of `cancel`, if it is set then and the delay was not 0. A
-- delay above 0 aborts nothing by itself.
pub run-timeout :
    (d : Delay) (s : Signal) (es : List Event)
    → timeout d ≡ makes s
    → ((run es s).aborted ≡ is_zero d || has_cancel es)
      × ((run es s).reason ≡ (if is_zero d || has_cancel es then some cancelled else none))
      × ((run es s).calls ≡ (if is_zero d then [] else called false es))
unfolding timeout abort
run-timeout Delay.no_number s es e = ground arith
run-timeout Delay.negative s es e = ground arith
run-timeout zero_ms s es e = subst (Behaves zero_ms es) (cc) (run-aborted es (abort fresh) refl)
run-timeout Delay.other_ms s es e =
    subst (Behaves Delay.other_ms es) (cc) (run-waiting es fresh refl refl refl)
