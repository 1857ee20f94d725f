-- ===== src/Host.antt =====
-- src/v8/kode_host.cc: the environment that scripts see, and the requests of `Kode.sleep`.
-- A number is negative or what is left of it without its fraction; the times are libuv's, in milliseconds.
pub mod Environment
pub mod Scope
pub mod Timeout
mod Tests
use kode.Prelude.{
  ℕ, ◌+◌, Bool, true, false, not, List, [], ◌∷◌, ◌++◌, Option, none, some, is_some, take, drop, leb,
  if◌then◌else◌,
}
use kode.Text.{Bytes, codes, find}
use kode.Text.Dict.{lookup, insert}

abbrev pub Snapshot : Type 0
Snapshot = List (Bytes × Bytes)

-- One round of the loop over `environ`.
unfoldable pub capture_entry : Bytes → Snapshot → Snapshot
capture_entry entry snapshot = elim (find (codes "=") entry) [
  | none ↦ snapshot
  | some i ↦ insert (take i entry) (drop (i + 1) entry) snapshot
]

unfoldable pub capture_from : Snapshot → List Bytes → Snapshot
unfolding capture_entry
capture_from snapshot [] = snapshot
capture_from snapshot (entry ∷ entries) = capture_from (capture_entry entry snapshot) entries

-- `CaptureEnvironment`.
unfoldable pub capture_environment : List Bytes → Snapshot
unfolding capture_from
capture_environment entries = capture_from [] entries

-- `EnvGetCallback` and `EnvHasCallback`; an undefined value is `none`.
-- An entry of the environment is a C string, which `V8String` keeps whole.
unfoldable pub env_get : Snapshot → Bytes → Option Bytes
env_get snapshot name = lookup name snapshot

unfoldable pub env_has : Snapshot → Bytes → Bool
env_has snapshot name = is_some (lookup name snapshot)

-- The argument of `Kode.sleep`.
pub data Number : Type 0 where
  missing negative : Number
  milliseconds : ℕ → Number

-- What `SleepCallback` does: it throws, rejects at once, or starts a timer.
pub data Sleep : Type 0 where
  throws : Bytes → Bytes → Sleep
  rejects : Bytes → Bytes → Sleep
  waits : ℕ → Sleep

abbrev bad_number : Sleep
bad_number = throws (codes "EINVAL") (codes "Kode.sleep requires a non-negative number")

-- `SleepCallback`, with the loop there or not, and the signal that is aborted or not.
unfoldable pub sleep : Number → Bool → Bool → Sleep
sleep missing loop aborted = bad_number
sleep negative loop aborted = bad_number
sleep (milliseconds ms) loop aborted =
    if not loop
    then throws (codes "EINTERNAL") (codes "Runtime loop is not available")
    else if aborted
    then rejects (codes "ECANCELED") (codes "Sleep cancelled")
    else waits ms

-- `SleepReq`: whether its promise is settled, and whether its timer is closed.
pub record Request : Type 0 where
  pub settled : Bool
  pub closed : Bool

-- `SleepTimerCallback`: how often it settles the promise, and the request afterwards.
unfoldable pub timer_callback : Request → ℕ × Request
timer_callback r = (if r.settled then 0 else 1, record { settled = true; closed = true })
