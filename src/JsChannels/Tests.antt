-- ===== src/JsChannels/Tests.antt =====
-- The calls that a script would make.
use kode.Prelude.{◌≡◌, refl, List, [], ◌∷◌, none, some}
use kode.Text.{codes, find, find_last}
use kode.JsChannels.Tasks.{prints, complains, js_work, js_task}
use kode.JsChannels.{
  Call, creates, sends, receives, made, not_found, answers, at_start, answers-fate,
}

abbrev script : List Call
script =
    creates (codes "jobs") 1 ∷ sends (codes "jobs") (codes "one") ∷ receives (codes "jobs") ∷ []

answers-fate_example : answers script at_start ≡ made ∷ not_found ∷ not_found ∷ []
answers-fate_example = answers-fate script

logs_text : js_work (codes "console.log('hi')") none ≡ prints (codes "hi") ∷ []
unfolding js_work find find_last
logs_text = refl

-- The first single quote counts, also one inside the text.
logs_apostrophe : js_work (codes "console.log(\"it's\")") none ≡ prints (codes "s") ∷ []
unfolding js_work find find_last
logs_apostrophe = refl

cancelled_at_yield :
    js_task (codes "yield") (some (codes "Task cancelled"))
    ≡ prints (codes "[JSTask] Executing: yield")
      ∷ complains (codes "[JSTask] Error: Task cancelled")
      ∷ prints (codes "[JSTask] Completed: yield")
      ∷ []
unfolding js_task find
cancelled_at_yield = refl
