-- ===== src/FileSystem/Exact.antt =====
-- How often the callback of a request is called.
use kode.Prelude.{
  ℕ, ◌+◌, ◌<◌, ◌≡◌, refl, ◌∙◌, List, [], ◌∷◌, ◌++◌, Option, none, some, arith, ltb, length,
  replicate, extract, length-append, one_if, count, count-append, extract-count,
}
use kode.Text.{Bytes, codes}
use kode.FileSystem.{Disk, Operation, Reply, work}
use kode.FileSystem.Requests.{
  Requests, Event, submits, works, completes, cancels, fails_with, queue_error, submit, do_work,
  after_work, after_cancel, step, run, init,
}

-- The threads take all that is queued, then the loop hands over all that is finished.
abbrev pub drain : ℕ → ℕ → List Event
drain queued finished = replicate queued (works 0) ++ replicate finished (completes 0)

module _ {D : Type 0} (disk : Disk D) where
  -- How often request `id` is somewhere.
  abbrev total : ℕ → Requests D → ℕ
  total id s = count id s.queued + count id s.finished + count id s.called

  abbrev IsExact : ℕ → Requests D → Type 0
  IsExact id s = total id s ≡ one_if (ltb id s.submitted)

  submit-IsExact :
      (id : ℕ) (op : Operation) (refused : Option Bytes) (s : Requests D)
      → IsExact id s
      → IsExact id (submit disk op refused s)
  unfolding submit
  submit-IsExact id op none s h = ground (arith, count-append id s.queued s.submitted op)
  submit-IsExact id op (some text) s h =
      ground (arith, count-append id s.called s.submitted (fails_with op (queue_error op ++ text)))

  do_work-IsExact :
      (id k : ℕ) (s : Requests D) (o : Option ((ℕ × Operation) × List (ℕ × Operation)))
      → extract k s.queued ≡ o
      → IsExact id s
      → IsExact id (do_work disk s o)
  unfolding do_work
  do_work-IsExact id k s none e h = h
  do_work-IsExact id k s (some ((j, op), rest)) e h = ground (
    arith,
    extract-count id k s.queued rest j op e,
    count-append id s.finished j (work disk op s.disk).1,
  )

  after_work-IsExact :
      (id k : ℕ) (s : Requests D) (o : Option ((ℕ × Reply) × List (ℕ × Reply)))
      → extract k s.finished ≡ o
      → IsExact id s
      → IsExact id (after_work disk s o)
  unfolding after_work
  after_work-IsExact id k s none e h = h
  after_work-IsExact id k s (some ((j, reply), rest)) e h =
      ground (arith, extract-count id k s.finished rest j reply e, count-append id s.called j reply)

  after_cancel-IsExact :
      (id k : ℕ) (error : Bytes) (s : Requests D)
      (o : Option ((ℕ × Operation) × List (ℕ × Operation)))
      → extract k s.queued ≡ o
      → IsExact id s
      → IsExact id (after_cancel disk error s o)
  unfolding after_cancel
  after_cancel-IsExact id k error s none e h = h
  after_cancel-IsExact id k error s (some ((j, op), rest)) e h = ground (
    arith,
    extract-count id k s.queued rest j op e,
    count-append id s.called j (fails_with op (codes "libuv error: " ++ error)),
  )

  step-IsExact : (id : ℕ) (e : Event) (s : Requests D) → IsExact id s → IsExact id (step disk e s)
  unfolding step
  step-IsExact id (submits op refused) s h = submit-IsExact id op refused s h
  step-IsExact id (works k) s h = do_work-IsExact id k s _ refl h
  step-IsExact id (completes k) s h = after_work-IsExact id k s _ refl h
  step-IsExact id (cancels k error) s h = after_cancel-IsExact id k error s _ refl h

  run-IsExact :
      (id : ℕ) (es : List Event) (s : Requests D) → IsExact id s → IsExact id (run disk es s)
  unfolding run
  run-IsExact id [] s h = h
  run-IsExact id (e ∷ es) s h = run-IsExact id es _ (step-IsExact id e s h)

  -- In every run of the requests, each request that was submitted is in one place: queued, finished, or
  -- called back, and no other request is anywhere. So no callback is called twice.
  pub run_exact :
      (es : List Event) (d : D) (id : ℕ)
      → (let s = run disk es (init disk d) in
          count id s.queued + count id s.finished + count id s.called)
        ≡ one_if (ltb id (run disk es (init disk d)).submitted)
  unfolding count
  run_exact es d id = run-IsExact id es (init disk d) (ground arith)

  run-append :
      (es fs : List Event) (s : Requests D) → run disk (es ++ fs) s ≡ run disk fs (run disk es s)
  unfolding run
  run-append [] fs s = refl
  run-append (e ∷ es) fs s = run-append es fs (step disk e s)

  works_all :
      (q : List (ℕ × Operation)) (s : Requests D)
      → s.queued ≡ q
      → (let t = run disk (replicate (length q) (works 0)) s in
          (t.queued ≡ [])
          × (length t.finished ≡ length s.finished + length q)
          × (t.submitted ≡ s.submitted))
  unfolding run step do_work extract
  works_all [] s e = (e, omega arith, refl)
  works_all ((j, op) ∷ q) s e =
      let ih = works_all q (do_work disk s (some ((j, op), q))) refl in
      let one = length-append s.finished ((j, (work disk op s.disk).1) ∷ []) in
      rw e (ih.0, omega (arith, ih.1, one), ih.2)

  completes_all :
      (f : List (ℕ × Reply)) (s : Requests D)
      → s.finished ≡ f
      → s.queued ≡ []
      → (let t = run disk (replicate (length f) (completes 0)) s in
          (t.queued ≡ []) × (t.finished ≡ []) × (t.submitted ≡ s.submitted))
  unfolding run step after_work extract
  completes_all [] s e n = (n, e, refl)
  completes_all ((j, reply) ∷ f) s e n =
      rw e (completes_all f (after_work disk s (some ((j, reply), f))) refl n)

  drained :
      (s : Requests D)
      → (let t = run disk (drain (length s.queued) (length s.finished + length s.queued)) s in
          (t.queued ≡ []) × (t.finished ≡ []) × (t.submitted ≡ s.submitted))
  drained s =
      let u = run disk (replicate (length s.queued) (works 0)) s in
      let (empty, longer, same) = works_all s.queued s refl in
      let (a, b, c) = completes_all u.finished u refl empty in
      let joined =
        run-append (replicate (length s.queued) (works 0))
          (replicate (length s.finished + length s.queued) (completes 0)) s in
      rw (joined, ← longer) (a, b, c ∙ same)

  -- Whatever has been submitted, run, handed over or cancelled: once the threads have taken what is
  -- queued and the loop has handed over what is finished, the callback of each submitted request has
  -- been called, once.
  pub run_drained :
      (es : List Event) (d : D) (id : ℕ) (s : Requests D)
      → run disk es (init disk d) ≡ s
      → id < s.submitted
      → count id (run disk (drain (length s.queued) (length s.finished + length s.queued)) s).called
        ≡ 1
  unfolding count
  run_drained es d id s e h =
      let (a, b, c) = drained s in
      let exact =
        run-IsExact id (drain (length s.queued) (length s.finished + length s.queued)) s
          (rw (← e) (run_exact es d id)) in
      ground (arith, a, b, c, exact)
