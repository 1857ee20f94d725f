-- ===== src/Host/Timeout/Tests.antt =====
-- Signals of `Kode.timeout`.
use kode.Prelude.{◌≡◌, refl, true, false, ◌||◌, [], ◌∷◌, none, some, if◌then◌else◌, List}
use kode.Host.Timeout.{
  fresh, cancelled, abort, timeout, other_ms, Event, sets_onabort, cancels, run,
}
use kode.Host.Timeout.Aborts.{is_zero, has_cancel, called, run-timeout}

-- The handler is set, and `cancel` is called twice.
abbrev twice : List Event
twice = sets_onabort true ∷ cancels ∷ cancels ∷ []

run-timeout_example :
    ((run twice fresh).aborted ≡ is_zero other_ms || has_cancel twice)
    × ((run twice fresh).reason
        ≡ (if is_zero other_ms || has_cancel twice then some cancelled else none))
    × ((run twice fresh).calls ≡ (if is_zero other_ms then [] else called false twice))
unfolding timeout
run-timeout_example = run-timeout other_ms fresh twice refl

-- A handler cannot be there yet where the delay is 0.
too_late : (run (sets_onabort true ∷ cancels ∷ []) (abort fresh)).calls ≡ []
unfolding run abort
too_late = refl
