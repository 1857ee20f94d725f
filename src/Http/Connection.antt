-- ===== src/Http/Connection.antt =====
-- src/http/http_server.cc: one connection, from `on_new_connection` to `on_client_closed`, as the
-- callbacks that the event loop runs on it.
use kode.Prelude.{
  ℕ, ◌+◌, ◌≡◌, ◌⊎◌, inl, inr, refl, Bool, true, false, not, ◌&&◌, List, [], ◌∷◌, ◌++◌, arith,
  if◌then◌else◌, append_assoc, append-nil, map, sym, Bool-cases,
}
use kode.Text.{Bytes, find, contains}
use kode.Text.Find.{contains-front}
use kode.Http.{Server, handle_request}
use kode.Http.Lines.{blank_line}

-- `Connection`, with what was asked of libuv: the writes, the calls of `uv_close`, and whether the
-- reading was started.
pub record Connection : Type 0 where
  pub buffer : Bytes
  pub responded : Bool
  pub writes : List Bytes
  pub closes : ℕ
  pub reading : Bool

-- What a read callback is called with: bytes, none of them, the end of the stream, or an error.
pub data Read : Type 0 where
  bytes : Bytes → Read
  nothing : Read
  end_of_stream : Read
  failed : Read

pub data Callback : Type 0 where
  read : Read → Callback
  written : Callback

-- `on_new_connection`, past its test of the status.
unfoldable pub accept : Bool → Connection
accept accepted = record {
  buffer = [];
  responded = false;
  writes = [];
  closes = if accepted then 0 else 1;
  reading = accepted;
}

unfoldable pub respond : Server → Connection → Connection
respond server c = record c {
  responded = true;
  writes = c.writes ++ (handle_request server c.buffer ∷ []);
}

unfoldable pub close : Connection → Connection
close c = record c { closes = c.closes + 1 }

-- `read_cb`, with the append in the place of the copy into the buffer.
unfoldable pub read_cb : Server → Read → Connection → Connection
unfolding respond close
read_cb server nothing c = c
read_cb server end_of_stream c = close c
read_cb server failed c = close c
read_cb server (bytes new) c =
    let d = record c { buffer = c.buffer ++ new } in
    if not c.responded && contains blank_line (c.buffer ++ new) then respond server d else d

-- `after_write_cb`.
unfoldable pub after_write_cb : Connection → Connection
unfolding close
after_write_cb c = close c

unfoldable pub step : Server → Callback → Connection → Connection
unfolding read_cb after_write_cb
step server (read r) c = read_cb server r c
step server written c = after_write_cb c

unfoldable pub run : Server → List Callback → Connection → Connection
unfolding step
run server [] c = c
run server (e ∷ es) c = run server es (step server e c)

-- What has been written is nothing, or the one answer to a request whose head had come in whole.
abbrev pub IsAnswered : Server → Connection → Type 0
IsAnswered server c =
    (c.responded ≡ false × (c.writes ≡ [] × contains blank_line c.buffer ≡ false))
    ⊎ (c.responded ≡ true
        × ((request : Bytes) × (rest : Bytes) × (c.buffer ≡ request ++ rest)
            × (contains blank_line request ≡ true)
            × (c.writes ≡ handle_request server request ∷ [])))

step-IsAnswered :
    (server : Server) (e : Callback) (c : Connection)
    → IsAnswered server c
    → IsAnswered server (step server e c)
unfolding step
step-IsAnswered server written c h = h
step-IsAnswered server (read nothing) c h = h
step-IsAnswered server (read end_of_stream) c h = h
step-IsAnswered server (read failed) c h = h
step-IsAnswered server (read (bytes new)) c (inr (r, (request, rest, b, k, w))) =
    rw r (inr (refl, (request, rest ++ new, rw b (simp append_assoc), k, w)))
step-IsAnswered server (read (bytes new)) c (inl (r, (w, k))) =
    elim (Bool-cases (contains blank_line (c.buffer ++ new))) [
      | inl e ↦ rw (r, e) (inr (refl, (c.buffer ++ new, [], sym (append-nil _), e, rw w)))
      | inr e ↦ rw (r, e) (inl (refl, (w, e)))
    ]

run-IsAnswered_from :
    (server : Server) (es : List Callback) (c : Connection)
    → IsAnswered server c
    → IsAnswered server (run server es c)
unfolding run
run-IsAnswered_from server [] c h = h
run-IsAnswered_from server (e ∷ es) c h =
    run-IsAnswered_from server es (step server e c) (step-IsAnswered server e c h)

-- Whatever callbacks run on a connection, in whatever order: as long as no empty line has come in,
-- nothing is written; afterwards exactly one response has been written, that to a part at the front
-- of what came in, which has the empty line.
pub run-IsAnswered :
    (server : Server) (es : List Callback) (accepted : Bool)
    → IsAnswered server (run server es (accept accepted))
unfolding accept find
run-IsAnswered server es accepted =
    run-IsAnswered_from server es (accept accepted) (inl (refl, (refl, refl)))

-- The chunks of a request, as they come in.
abbrev pub arriving : List Bytes → List Callback
arriving chunks = map (λ chunk. read (bytes chunk)) chunks

abbrev pub concat : List Bytes → Bytes
concat [] = []
concat (chunk ∷ chunks) = chunk ++ concat chunks

not_contains-front : (p s t : Bytes) → contains p (s ++ t) ≡ false → contains p s ≡ false
not_contains-front p s t h = elim (Bool-cases (contains p s)) [
  | inl e ↦ absurd (let f = contains-front p s t e in ground arith)
  | inr e ↦ e
]

step_waiting :
    (server : Server) (new : Bytes) (c : Connection)
    → c.responded ≡ false
    → contains blank_line (c.buffer ++ new) ≡ false
    → step server (read (bytes new)) c ≡ record c { buffer = c.buffer ++ new }
unfolding step
step_waiting server new c r h = rw (r, h)

run-arriving_from :
    (server : Server) (chunks : List Bytes) (last : Bytes) (c : Connection)
    → c.responded ≡ false
    → c.writes ≡ []
    → contains blank_line (c.buffer ++ concat chunks) ≡ false
    → contains blank_line (c.buffer ++ (concat chunks ++ last)) ≡ true
    → (run server (arriving (chunks ++ (last ∷ []))) c).writes
      ≡ handle_request server (c.buffer ++ (concat chunks ++ last)) ∷ []
unfolding run step
run-arriving_from server [] last c r w h k = rw (r, k, w)
run-arriving_from server (chunk ∷ chunks) last c r w h k =
    rw
      (
        step_waiting server chunk c r (
            not_contains-front blank_line (c.buffer ++ chunk) (concat chunks)
              (rw (← regroup c.buffer chunk (concat chunks)) h)),
        run,
        regroup_last c.buffer chunk (concat chunks) last,
      )
      (run-arriving_from server chunks last (record c { buffer = c.buffer ++ chunk }) r w
        (rw (← regroup c.buffer chunk (concat chunks)) h)
        (rw (← regroup_last c.buffer chunk (concat chunks) last) k))
  where
    regroup : (a b c : Bytes) → a ++ (b ++ c) ≡ (a ++ b) ++ c
    regroup a b c = simp append_assoc

    regroup_last : (a b c d : Bytes) → a ++ ((b ++ c) ++ d) ≡ (a ++ b) ++ (c ++ d)
    regroup_last a b c d = simp append_assoc

-- However a request is cut into chunks, its response is written when the chunk comes in that
-- completes its first empty line, and it answers all that has come in by then.
pub run-arriving :
    (server : Server) (chunks : List Bytes) (last : Bytes)
    → contains blank_line (concat chunks) ≡ false
    → contains blank_line (concat chunks ++ last) ≡ true
    → (run server (arriving (chunks ++ (last ∷ []))) (accept true)).writes
      ≡ handle_request server (concat chunks ++ last) ∷ []
unfolding accept
run-arriving server chunks last h k =
    run-arriving_from server chunks last (accept true) refl refl h k
