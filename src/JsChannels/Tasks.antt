-- ===== src/JsChannels/Tasks.antt =====
-- src/concurrency/task.cc: the body of a task of `spawn_task` of the namespace `JSConcurrency`.
use kode.Prelude.{
  ℕ, ◌+◌, ◌-◌, ◌||◌, List, [], ◌∷◌, ◌++◌, Option, none, some, is_some, take, drop, ltb, ◌==◌,
  if◌then◌else◌,
}
use kode.Text.{Bytes, codes, find, find_last}

-- A line on `std::cout` or on `std::cerr`, and a sleep with its milliseconds.
pub data Effect : Type 0 where
  prints complains : Bytes → Effect
  sleeps : ℕ → Effect

first_quote : Bytes → Option ℕ
first_quote js_code = elim (find (codes "'") js_code) [
  | some start ↦ some start
  | none ↦ find (codes "\"") js_code
]

-- `find_last_of` finds nothing only where `start` is none.
log_message : Bytes → Option ℕ → Option ℕ → List Effect
log_message js_code (some start) (some end) =
    if ltb start end then prints (take (end - start - 1) (drop (start + 1) js_code)) ∷ [] else []
log_message js_code _ _ = []

-- The body of the `try`. `error` is the text of the exception at the call of `yield`, if there is one.
unfoldable pub js_work : Bytes → Option Bytes → List Effect
unfolding first_quote log_message
js_work js_code error =
    if is_some (find (codes "console.log") js_code)
    then log_message js_code (first_quote js_code)
        (find_last (λ c. (c == b'\'') || (c == b'"')) js_code)
    else if is_some (find (codes "setTimeout") js_code)
    then sleeps 100 ∷ prints (codes "[JSTask] Timer fired") ∷ []
    else if is_some (find (codes "yield") js_code)
    then elim error [ none ↦ [] | some text ↦ complains (codes "[JSTask] Error: " ++ text) ∷ [] ]
    else sleeps 50 ∷ []

unfoldable pub js_task : Bytes → Option Bytes → List Effect
unfolding js_work
js_task js_code error =
    prints (codes "[JSTask] Executing: " ++ js_code)
    ∷ (js_work js_code error ++ prints (codes "[JSTask] Completed: " ++ js_code) ∷ [])
