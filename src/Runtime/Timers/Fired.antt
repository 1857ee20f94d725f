-- ===== src/Runtime/Timers/Fired.antt =====
-- How often a timer fires.
use kode.Prelude.{
  zero, suc, Option-cases, inl, inr, ◌*◌, ℕ, ◌+◌, ◌<◌, ◌≡◌, refl, true, List, [], ◌∷◌, ◌++◌, Option,
  none, some, arith, ltb, length, extract, length-append, one_if, count, count-append,
  extract-count, ℤ,
}
use kode.Text.{Bytes, codes}
use kode.Runtime.Timers.{
  Timer, Timers, no_timers, to_uint64, set_timeout, on_timer, on_close, Event, sets, fires, closes,
  step, run, is_done, none_left, run_event_loop,
}

abbrev IsExact : ℕ → Timers → Type 0
IsExact id t = count id t.running + count id t.closing + count id t.deleted ≡ one_if (ltb id t.made)

set_timeout-IsExact :
    (id : ℕ) (message : Bytes) (delay_ms : ℤ) (t : Timers)
    → IsExact id t
    → IsExact id (set_timeout message delay_ms t)
unfolding set_timeout
set_timeout-IsExact id message delay_ms t h = ground (
  arith,
  count-append id t.running t.made (record { message = message; due = to_uint64 delay_ms }),
)

on_timer-IsExact :
    (id k : ℕ) (o : Option ((ℕ × Timer) × List (ℕ × Timer))) (t : Timers)
    → extract k t.running ≡ o
    → IsExact id t
    → IsExact id (on_timer o t)
unfolding on_timer
on_timer-IsExact id k none t e h = h
on_timer-IsExact id k (some ((j, timer), rest)) t e h =
    ground (arith, extract-count id k t.running rest j timer e, count-append id t.closing j timer)

on_close-IsExact :
    (id k : ℕ) (o : Option ((ℕ × Timer) × List (ℕ × Timer))) (t : Timers)
    → extract k t.closing ≡ o
    → IsExact id t
    → IsExact id (on_close o t)
unfolding on_close
on_close-IsExact id k none t e h = h
on_close-IsExact id k (some ((j, timer), rest)) t e h =
    ground (arith, extract-count id k t.closing rest j timer e, count-append id t.deleted j timer)

run-IsExact : (id : ℕ) (es : List Event) (t : Timers) → IsExact id t → IsExact id (run es t)
unfolding run step
run-IsExact id [] t h = h
run-IsExact id (sets message delay_ms ∷ es) t h =
    run-IsExact id es _ (set_timeout-IsExact id message delay_ms t h)
run-IsExact id (fires k ∷ es) t h = run-IsExact id es _ (on_timer-IsExact id k _ t refl h)
run-IsExact id (closes k ∷ es) t h = run-IsExact id es _ (on_close-IsExact id k _ t refl h)

-- Each timer prints a line when it is set, and one when it fires.
abbrev IsPrinted : Timers → Type 0
IsPrinted t = length t.lines + length t.running ≡ t.made + t.made

extract-length :
    (k : ℕ) (q : List (ℕ × Timer)) (x : ℕ × Timer) (rest : List (ℕ × Timer))
    → extract k q ≡ some (x, rest)
    → length q ≡ 1 + length rest
unfolding extract
extract-length k [] x rest e = ground (arith, e)
extract-length zero (y ∷ q) x rest e = ground (arith, e)
extract-length (suc k) (y ∷ q) x rest e = elim (Option-cases (extract k q)) [
  | inl m ↦ ground (arith, e, m)
  | inr (p, m) ↦ ground (arith, e, m, extract-length k q p.0 p.1 m)
]

on_timer-IsPrinted :
    (k : ℕ) (o : Option ((ℕ × Timer) × List (ℕ × Timer))) (t : Timers)
    → extract k t.running ≡ o
    → IsPrinted t
    → IsPrinted (on_timer o t)
unfolding on_timer
on_timer-IsPrinted k none t e h = h
on_timer-IsPrinted k (some ((j, timer), rest)) t e h = omega (
  arith,
  h,
  extract-length k t.running (j, timer) rest e,
  length-append t.lines ((codes "Timer fired: " ++ timer.message) ∷ []),
)

on_close-IsPrinted :
    (o : Option ((ℕ × Timer) × List (ℕ × Timer))) (t : Timers)
    → IsPrinted t
    → IsPrinted (on_close o t)
unfolding on_close
on_close-IsPrinted none t h = h
on_close-IsPrinted (some ((j, timer), rest)) t h = h

set_timeout-IsPrinted :
    (message : Bytes) (delay_ms : ℤ) (t : Timers)
    → IsPrinted t
    → IsPrinted (set_timeout message delay_ms t)
unfolding set_timeout
set_timeout-IsPrinted message delay_ms t h =
    omega (arith, h, length-append t.lines (_ ∷ []), length-append t.running (_ ∷ []))

run-IsPrinted : (es : List Event) (t : Timers) → IsPrinted t → IsPrinted (run es t)
unfolding run step
run-IsPrinted [] t h = h
run-IsPrinted (sets message delay_ms ∷ es) t h =
    run-IsPrinted es _ (set_timeout-IsPrinted message delay_ms t h)
run-IsPrinted (fires k ∷ es) t h = run-IsPrinted es _ (on_timer-IsPrinted k _ t refl h)
run-IsPrinted (closes k ∷ es) t h = run-IsPrinted es _ (on_close-IsPrinted _ t h)

done_empty : (t : Timers) → is_done t ≡ true → (t.running ≡ []) × (t.closing ≡ [])
unfolding is_done
done_empty t h = go t.running t.closing h
  where
    go : (xs ys : List (ℕ × Timer)) → none_left xs ys ≡ true → (xs ≡ []) × (ys ≡ [])
    go [] [] e = (refl, refl)
    go (x ∷ xs) ys e = ground (arith, e)
    go [] (y ∷ ys) e = ground (arith, e)

-- Where a call of `RunEventLoop` returns with no handle left, as `uv_run` does when nothing stops it:
-- whatever timers were set and called back before, and in whatever order `uv_run` calls them back,
-- the handle of each timer that was set has been deleted exactly once, and two lines have been printed
-- for each timer that was set.
pub run_event_loop_lem :
    (uv_run : Timers → List Event) (es : List Event) (id : ℕ)
    → is_done (run_event_loop uv_run (run es no_timers)) ≡ true
    → id < (run_event_loop uv_run (run es no_timers)).made
    → (count id (run_event_loop uv_run (run es no_timers)).deleted ≡ 1)
      × (length (run_event_loop uv_run (run es no_timers)).lines
          ≡ 2 * (run_event_loop uv_run (run es no_timers)).made)
unfolding run_event_loop count
run_event_loop_lem uv_run es id d h =
    let t = run es no_timers in
    let u = run (uv_run t) t in
    let (a, b) = done_empty u d in
    let exact = run-IsExact id (uv_run t) t (run-IsExact id es no_timers (ground arith)) in
    let printed = run-IsPrinted (uv_run t) t (run-IsPrinted es no_timers refl) in
    (ground (arith, a, b, h, exact), omega (arith, rw a at printed))
