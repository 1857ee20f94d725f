-- ===== src/FileSystem/Opened.antt =====
-- src/filesystem/fs.cc: `KodeFS::OnOpenComplete` and the callbacks inside it, each run of a callback one
-- step. What libuv answers, with the text of `uv_strerror`, is a premise or an argument of the step; that
-- a read gives no more bytes than the buffer has is what it promises. The callback of the read takes
-- `req->bufs`, a private field of libuv, for its buffer: `bufs_kept` is whether libuv still has the buffer
-- there when it calls back.
pub mod Ledger
mod Tests
use kode.Prelude.{ℕ, ◌≤◌, ◌≡◌, Bool, true, false, List, [], ◌∷◌, ◌++◌, length}
use kode.Text.{Bytes, codes}

-- Which callback is next; a null pointer that is followed ends the process. A read knows the size of its buffer, without the byte for the zero.
pub data Turn : Type 0 where
  opening fstatting : Turn
  reading : ℕ → Turn
  closing ended crashed : Turn

-- Whether the operation and the buffer are allocated and the file is open, and the calls of `readCb`, the
-- error and the content.
pub record Operation : Type 0 where
  pub turn : Turn
  pub allocated : Bool
  pub buffer : Bool
  pub file : Bool
  pub calls : List (Bytes × Bytes)

abbrev pub submitted : Operation
submitted = record { turn = opening; allocated = true; buffer = false; file = false; calls = [] }

-- `readCb` with an error, and `delete op`.
unfoldable pub give_up : Bytes → Operation → Operation
give_up error o = record o { turn = ended; allocated = false; calls = o.calls ++ (error, []) ∷ [] }

-- `readCb` behind the read, the buffer freed, and `uv_fs_close` called; that it starts is taken for granted.
unfoldable pub finish_read : Bytes → Bytes → Operation → Operation
finish_read error content o = record o {
  turn = closing;
  buffer = false;
  calls = o.calls ++ (error, content) ∷ [];
}

pub data Step (bufs_kept : Bool) (o : Operation) : Operation → Type 0 where
  open_fails :
      (text : Bytes)
      → o.turn ≡ opening
      → Step bufs_kept o (give_up (codes "Failed to open file: " ++ text) o)
  fstat_refused :
      (text : Bytes)
      → o.turn ≡ opening
      → Step bufs_kept o
          (give_up (codes "Failed to get file stats: " ++ text) (record o { file = true }))
  opens : o.turn ≡ opening → Step bufs_kept o (record o { turn = fstatting; file = true })
  fstat_fails :
      (text : Bytes)
      → o.turn ≡ fstatting
      → Step bufs_kept o (give_up (codes "Failed to get file stats: " ++ text) o)
  read_refused :
      (text : Bytes)
      → o.turn ≡ fstatting
      → Step bufs_kept o (give_up (codes "Failed to start read: " ++ text) o)
  starts_read :
      (size : ℕ)
      → o.turn ≡ fstatting
      → Step bufs_kept o (record o { turn = reading size; buffer = true })
  read_fails :
      (text : Bytes) (size : ℕ)
      → o.turn ≡ reading size
      → bufs_kept ≡ true
      → Step bufs_kept o (finish_read (codes "Failed to read file: " ++ text) [] o)
  reads :
      (content : Bytes) (size : ℕ)
      → o.turn ≡ reading size
      → length content ≤ size
      → bufs_kept ≡ true
      → Step bufs_kept o (finish_read [] content o)
  crashes :
      (size : ℕ)
      → o.turn ≡ reading size
      → bufs_kept ≡ false
      → Step bufs_kept o (record o { turn = crashed })
  fails_and_crashes :
      (text : Bytes) (size : ℕ)
      → o.turn ≡ reading size
      → bufs_kept ≡ false
      → Step bufs_kept o (record o {
        turn = crashed;
        calls = o.calls ++ (codes "Failed to read file: " ++ text, []) ∷ [];
      })
  closes :
      o.turn ≡ closing
      → Step bufs_kept o (record o { turn = ended; allocated = false; file = false })

pub data Reach (bufs_kept : Bool) : Operation → Type 0 where
  start : Reach bufs_kept submitted
  later : {o p : Operation} → Reach bufs_kept o → Step bufs_kept o p → Reach bufs_kept p
