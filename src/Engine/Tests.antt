-- ===== src/Engine/Tests.antt =====
-- Runs and witnesses of the engine.
use kode.Prelude.{◌≡◌, refl, true, false, [], ◌∷◌, none, some}
use kode.Text.{codes}
use kode.Text.Decimal.{to_string}
use kode.Engine.{
  State, fresh, Setup, initialize, shutdown, pending, fulfilled, rejected, promise,
  resolve_top_level_promise, format_try_catch,
}

abbrev broken_setup : Setup
broken_setup = record {
  isolate_made = true;
  bootstrap_error = some (codes "SyntaxError");
  host_installed = true;
}

abbrev half_made : State
half_made = record { isolate = true; context = false; loop = false }

-- The isolate stays after the error of the bootstrap, so the next call says true; there is no context.
initialize_twice :
    (initialize broken_setup fresh ≡ (half_made, some (codes "SyntaxError")))
    × (initialize broken_setup half_made ≡ (half_made, none))
unfolding initialize
initialize_twice = (refl, refl)

shutdown-half_made : shutdown half_made ≡ fresh
unfolding shutdown
shutdown-half_made = refl

-- A promise is settled in the second turn.
second_turn :
    resolve_top_level_promise (promise pending (pending ∷ fulfilled (some (codes "7")) ∷ []))
    ≡ (codes "7", [])
unfolding resolve_top_level_promise
second_turn = refl

rejected_with_undefined :
    resolve_top_level_promise (promise (rejected none) []) ≡ ([], codes "Promise rejected")
unfolding resolve_top_level_promise
rejected_with_undefined = refl

-- The script's own name and line come before the text.
thrown_at :
    format_try_catch
      (codes "a.js")
      (record { message = some (codes "b.js", 3); exception = codes "Error: no" })
    ≡ codes "b.js:3: Error: no"
unfolding format_try_catch to_string
thrown_at = refl
