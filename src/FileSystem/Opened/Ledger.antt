-- ===== src/FileSystem/Opened/Ledger.antt =====
-- What is allocated and open at each turn, and how often the callback was called.
use kode.Prelude.{
  ℕ, ◌≡◌, refl, ◌≤◌, Bool, true, false, ◌⊎◌, inl, inr, List, [], ◌∷◌, ◌++◌, arith, length,
}
use kode.Text.{Bytes, codes, is_empty}
use kode.FileSystem.Opened.{
  Turn, opening, fstatting, reading, closing, ended, crashed, Operation, give_up, finish_read, Step,
  open_fails, fstat_refused, opens, fstat_fails, read_refused, starts_read, read_fails, reads,
  closes, crashes, fails_and_crashes, Reach, start, later,
}

abbrev pub has_operation : Turn → Bool
has_operation ended = false
has_operation _ = true

abbrev pub has_buffer : Turn → Bool
has_buffer (reading size) = true
has_buffer crashed = true
has_buffer _ = false

-- How often the callback was called; a read that crashes may have reported its error before.
abbrev pub Replies : Turn → ℕ → Type 0
Replies closing n = n ≡ 1
Replies ended n = n ≡ 1
Replies crashed n = n ≤ 1
Replies _ n = n ≡ 0

-- Whether the last reply is a content.
abbrev pub gave_content : List (Bytes × Bytes) → Bool
gave_content [] = false
gave_content ((error, content) ∷ calls) = is_empty error

-- The file is open at the turns between, and closed in the end where the reply is a content.
abbrev pub Opens : Turn → Bool → List (Bytes × Bytes) → Type 0
Opens opening file calls = file ≡ false
Opens ended file calls = gave_content calls ≡ true → file ≡ false
Opens _ file calls = file ≡ true

pub record IsTyped (o : Operation) : Type 0 where
  pub operation_there : o.allocated ≡ has_operation o.turn
  pub buffer_there : o.buffer ≡ has_buffer o.turn
  pub replied : Replies o.turn (length o.calls)
  pub file_open : Opens o.turn o.file o.calls

one_more :
    (calls : List (Bytes × Bytes)) (reply : Bytes × Bytes)
    → length calls ≡ 0
    → (calls ++ reply ∷ [] ≡ reply ∷ [])
one_more [] reply h = refl
one_more (call ∷ calls) reply h = absurd (omega (arith, h))

give_up-IsTyped :
    (error : Bytes) (o : Operation)
    → is_empty error ≡ false
    → o.buffer ≡ false
    → length o.calls ≡ 0
    → IsTyped (give_up error o)
unfolding give_up
give_up-IsTyped error o e b c = record {
  operation_there = refl;
  buffer_there = b;
  replied = rw (one_more o.calls (error, []) c) refl;
  file_open = rw (one_more o.calls (error, []) c, e) (λ (h : false ≡ true). cc);
}

finish_read-IsTyped :
    (error content : Bytes) (o : Operation)
    → o.allocated ≡ true
    → o.file ≡ true
    → length o.calls ≡ 0
    → IsTyped (finish_read error content o)
unfolding finish_read
finish_read-IsTyped error content o a f c = record {
  operation_there = a;
  buffer_there = refl;
  replied = rw (one_more o.calls (error, content) c) refl;
  file_open = f;
}

Step-IsTyped : {bufs_kept : Bool} {o p : Operation} → Step bufs_kept o p → IsTyped o → IsTyped p
Step-IsTyped {o = o} (open_fails text e) t = give_up-IsTyped _ o refl (ground arith) (ground arith)
Step-IsTyped {o = o} (fstat_refused text e) t =
    give_up-IsTyped _ (record o { file = true }) refl (ground arith) (ground arith)
Step-IsTyped (opens e) t = ground arith
Step-IsTyped {o = o} (fstat_fails text e) t = give_up-IsTyped _ o refl (ground arith) (ground arith)
Step-IsTyped {o = o} (read_refused text e) t =
    give_up-IsTyped _ o refl (ground arith) (ground arith)
Step-IsTyped (starts_read size e) t = ground arith
Step-IsTyped {o = o} (read_fails text size e k) t =
    finish_read-IsTyped _ [] o (ground arith) (ground arith) (ground arith)
Step-IsTyped {o = o} (reads content size e h k) t =
    finish_read-IsTyped [] content o (ground arith) (ground arith) (ground arith)
Step-IsTyped (crashes size e k) t = ground arith
Step-IsTyped {o = o} (fails_and_crashes text size e k) t =
    ground (arith, one_more o.calls (codes "Failed to read file: " ++ text, []))
Step-IsTyped (closes e) t = ground arith

Reach-IsTyped : {bufs_kept : Bool} {o : Operation} → Reach bufs_kept o → IsTyped o
Reach-IsTyped start = record {
  operation_there = refl;
  buffer_there = refl;
  replied = refl;
  file_open = refl;
}
Reach-IsTyped (later r st) = Step-IsTyped st (Reach-IsTyped r)

-- Only a buffer that is gone crashes the chain.
crashed-gone :
    {bufs_kept : Bool} {o : Operation} → Reach bufs_kept o → o.turn ≡ crashed → bufs_kept ≡ false
unfolding give_up finish_read
crashed-gone start e = ground (arith, e)
crashed-gone (later r (open_fails text f)) e = ground (arith, e)
crashed-gone (later r (fstat_refused text f)) e = ground (arith, e)
crashed-gone (later r (opens f)) e = ground (arith, e)
crashed-gone (later r (fstat_fails text f)) e = ground (arith, e)
crashed-gone (later r (read_refused text f)) e = ground (arith, e)
crashed-gone (later r (starts_read size f)) e = ground (arith, e)
crashed-gone (later r (read_fails text size f k)) e = ground (arith, e)
crashed-gone (later r (reads content size f h k)) e = ground (arith, e)
crashed-gone (later r (crashes size f k)) e = k
crashed-gone (later r (fails_and_crashes text size f k)) e = k
crashed-gone (later r (closes f)) e = ground (arith, e)

-- Whether a chain is through, has crashed for want of its buffer, or has a next turn.
abbrev pub GoesOn : Bool → Operation → Type 0
GoesOn bufs_kept o =
    (o.turn ≡ ended)
    ⊎ (((o.turn ≡ crashed) × (bufs_kept ≡ false)) ⊎ ((p : Operation) × Step bufs_kept o p))

next_step :
    (turn : Turn) (bufs_kept : Bool) (o : Operation)
    → Reach bufs_kept o
    → o.turn ≡ turn
    → GoesOn bufs_kept o
next_step opening kept o r e = inr (inr (_, opens e))
next_step fstatting kept o r e = inr (inr (_, starts_read 0 e))
next_step (reading size) true o r e = inr (inr (_, reads [] size e (omega arith) refl))
next_step (reading size) false o r e = inr (inr (_, crashes size e refl))
next_step closing kept o r e = inr (inr (_, closes e))
next_step ended kept o r e = inl e
next_step crashed kept o r e = inr (inl (e, crashed-gone r e))

-- Whatever libuv answers: at each turn of the chain, just what that turn needs is allocated and open,
-- `readCb` has been called once from the end of the read or an error on, and never before; a chain
-- that has ended with a content has closed its file; and one that has not ended goes on, or it has
-- crashed behind a read because libuv no longer had the buffer in `req->bufs`.
pub IsTyped-Reach :
    (bufs_kept : Bool) (o : Operation) → Reach bufs_kept o → IsTyped o × GoesOn bufs_kept o
IsTyped-Reach bufs_kept o r = (Reach-IsTyped r, next_step o.turn bufs_kept o r refl)
