-- ===== src/Host/Tests.antt =====
-- Runs and witnesses of the host object.
use kode.Prelude.{◌≡◌, refl, true, false, List, [], ◌∷◌}
use kode.Text.{Bytes, codes, equal, find, starts_with}
use kode.Text.Dict.{insert}
use kode.Host.{capture_environment, sleep, milliseconds, Sleep, timer_callback}

abbrev environment : List Bytes
environment = codes "HOME=/root" ∷ codes "broken" ∷ codes "A=b=c" ∷ codes "HOME=/home" ∷ []

captured :
    capture_environment environment ≡ (codes "HOME", codes "/home") ∷ (codes "A", codes "b=c") ∷ []
unfolding capture_environment insert find starts_with equal
captured = refl

sleeps_cancelled :
    sleep (milliseconds 5) true true ≡ Sleep.rejects (codes "ECANCELED") (codes "Sleep cancelled")
unfolding sleep
sleeps_cancelled = refl

-- The timer settles a new request, and the promise only once.
settles_once : (timer_callback (record { settled = false; closed = false })).0 ∷ [] ≡ 1 ∷ []
unfolding timer_callback
settles_once = refl
