-- ===== src/FileSystem/Requests.antt =====
-- src/filesystem/modern_fs.cc: the requests to the thread pool, from `uv_queue_work` to the callback. An
-- event of libuv's is one step; which queued request a thread takes, and which finished one the loop
-- hands over, is the event's number.
use kode.Prelude.{ℕ, ◌+◌, List, [], ◌∷◌, ◌++◌, Option, none, some, extract}
use kode.Text.{Bytes, codes}
use kode.FileSystem.{
  Disk, Operation, reads, writes, asks_info, Reply, read_reply, write_reply, info_reply,
  failed_read, failed_write, work,
}

-- What was queued, what is done and waits for the loop, and the calls of callbacks, by the request's
-- number.
pub record Requests (D : Type 0) : Type 0 where
  pub disk : D
  pub queued : List (ℕ × Operation)
  pub finished : List (ℕ × Reply)
  pub called : List (ℕ × Reply)
  pub submitted : ℕ

-- `submits` with the text of the error where `uv_queue_work` fails; a cancelled request is handed over
-- with a negative status, and has not run.
pub data Event : Type 0 where
  submits : Operation → Option Bytes → Event
  works : ℕ → Event
  completes : ℕ → Event
  cancels : ℕ → Bytes → Event

-- A callback's argument for an error before the work.
unfoldable pub fails_with : Operation → Bytes → Reply
fails_with (reads path encoding) error = read_reply (failed_read error)
fails_with (writes path content encoding parents) error = write_reply (failed_write error)
fails_with (asks_info path) error = info_reply none error

unfoldable pub queue_error : Operation → Bytes
queue_error (reads path encoding) = codes "Failed to queue file operation: "
queue_error (writes path content encoding parents) = codes "Failed to queue write operation: "
queue_error (asks_info path) = codes "Failed to queue info operation: "

module _ {D : Type 0} (disk : Disk D) where
  abbrev pub call : ℕ → Reply → Requests D → Requests D
  call id reply s = record s { called = s.called ++ (id, reply) ∷ [] }

  -- `readFile`, `writeFile` and `getFileInfo`.
  unfoldable pub submit : Operation → Option Bytes → Requests D → Requests D
  unfolding fails_with queue_error
  submit op none s = record s {
    queued = s.queued ++ (s.submitted, op) ∷ [];
    submitted = s.submitted + 1;
  }
  submit op (some text) s =
      call s.submitted (fails_with op (queue_error op ++ text))
        (record s { submitted = s.submitted + 1 })

  abbrev finish_work : ℕ → List (ℕ × Operation) → Requests D → D × Reply → Requests D
  finish_work id rest s (d, reply) = record s {
    disk = d;
    queued = rest;
    finished = s.finished ++ (id, reply) ∷ [];
  }

  -- `workCallback`.
  unfoldable pub do_work : Requests D → Option ((ℕ × Operation) × List (ℕ × Operation)) → Requests D
  unfolding work
  do_work s none = s
  do_work s (some ((id, op), rest)) = finish_work id rest s (work disk op s.disk)

  -- `afterWorkCallback`, with the result and with libuv's error.
  unfoldable pub after_work : Requests D → Option ((ℕ × Reply) × List (ℕ × Reply)) → Requests D
  after_work s none = s
  after_work s (some ((id, reply), rest)) = call id reply (record s { finished = rest })

  unfoldable pub after_cancel :
      Bytes → Requests D → Option ((ℕ × Operation) × List (ℕ × Operation)) → Requests D
  unfolding fails_with
  after_cancel error s none = s
  after_cancel error s (some ((id, op), rest)) =
      call id (fails_with op (codes "libuv error: " ++ error)) (record s { queued = rest })

  unfoldable pub step : Event → Requests D → Requests D
  unfolding submit do_work after_work after_cancel
  step (submits op refused) s = submit op refused s
  step (works k) s = do_work s (extract k s.queued)
  step (completes k) s = after_work s (extract k s.finished)
  step (cancels k error) s = after_cancel error s (extract k s.queued)

  unfoldable pub run : List Event → Requests D → Requests D
  unfolding step
  run [] s = s
  run (e ∷ es) s = run es (step e s)

  abbrev pub init : D → Requests D
  init d = record { disk = d; queued = []; finished = []; called = []; submitted = 0 }
