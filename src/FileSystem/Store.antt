-- ===== src/FileSystem/Store.antt =====
-- What is written to a file is what is read from it, through both interfaces.
use kode.Prelude.{
  ◌⊎◌, ℕ, ◌≡◌, refl, sym, ap, inl, inr, Bool, true, false, List, [], ◌∷◌, ◌++◌, Option, none, some,
  arith, length, if◌then◌else◌,
}
use kode.Text.{Bytes, codes, is_empty, equal, v8_string}
use kode.FileSystem.{
  Disk, Status, Operation, writes, WriteResult, work, work_read, work_write, work_put,
  create_file_info, prepared,
}
use kode.FileSystem.Legacy.{
  after_put, write_opened, read_file_sync, read_file, write_file, file_exists,
}
use kode.FileSystem.Builtins.{
  cancelled, Fields, Argument, text, object, FileInfo, Settled, resolves_file, resolves_written,
  rejects_reason, Started, throws, requests, fields_of, start_unless_aborted, fs_read, fs_read_with,
  fs_write, fs_write_with, settle_read, create_info_value, settle_write, settle_reply, perform,
  get_string_option,
}

-- `is_regular_file`, which a device or a pipe is not.
abbrev pub IsRegular : {D : Type 0} → Disk D → D → Bytes → Type 0
IsRegular disk d path = (s : Status) × (disk.status d path ≡ some s) × (s.regular ≡ true)

-- `ofstream` and `ifstream`: a regular file that was opened, written and closed in good order can be
-- read, with the text.
abbrev pub WritesThrough : {D : Type 0} → Disk D → Type 0
WritesThrough {D} disk =
    (d e : D) (path content : Bytes)
    → disk.put d path content ≡ (e, true)
    → IsRegular disk e path
    → disk.open_read e path ≡ some content

some_pair :
    {A B : Type 0} (a c : A) (b d : B)
    → ◌≡◌ {A = Option (A × B)} (some (a, b)) (some (c, d))
    → (a ≡ c) × (b ≡ d)
some_pair a c b d h =
    let q : ◌≡◌ {A = _ × _} (a, b) (c, d) = cc in (ap (λ p. p.0) q, ap (λ p. p.1) q)

module _ {D : Type 0} (disk : Disk D) (through : WritesThrough disk) where
  abbrev Holds : D → Bytes → Bytes → Type 0
  Holds e path content = IsRegular disk e path → disk.open_read e path ≡ some content

  put_read :
      (d e : D) (path content : Bytes) (p : D × Bool)
      → disk.put d path content ≡ p
      → after_put disk path p ≡ (e, [])
      → Holds e path content
  put_read d e path content (f, true) q h =
      let same : f ≡ e = ap (λ p. p.0) h in through d e path content (rw (← same) q)
  put_read d e path content (f, false) q h =
      let wrong : codes "Failed to write to file: " ++ path ≡ [] = ap (λ p. p.1) h in absurd cc

  opened_read :
      (d e : D) (path content : Bytes) (o : Option D)
      → write_opened disk d path content o ≡ (e, [])
      → Holds e path content
  unfolding write_opened
  opened_read d e path content none h =
      let wrong : codes "Failed to open file for writing: " ++ path ≡ [] = ap (λ p. p.1) h in
      absurd cc
  opened_read d e path content (some f) h =
      put_read f e path content (disk.put f path content) refl h

  -- `KodeFS`: after a write without an error, the file is there and holds the text; but `ReadFile` calls
  -- an empty file an error.
  read_file-write_file :
      (d e : D) (path content : Bytes)
      → write_file disk d path content ≡ (e, [])
      → IsRegular disk e path
      → (file_exists disk e path ≡ true)
        × (read_file_sync disk e path ≡ content)
        × (read_file disk e path ≡ (
            if is_empty content
            then (codes "File not found or empty: " ++ path, [])
            else ([], content)))
  unfolding write_file file_exists read_file read_file_sync
  read_file-write_file d e path content h regular =
      let held = opened_read d e path content (disk.open_write d path) h regular in
      let whole : read_file_sync disk e path ≡ content = rw (held, read_file_sync) refl in
      (rw held refl, whole, rw (whole, read_file) refl)

  work_put_lem :
      (path content : Bytes) (d e : D) (r : WriteResult) (n : ℕ) (info : Option FileInfo)
      (p : D × Bool)
      → disk.put d path content ≡ p
      → work_put disk path content p ≡ (e, r)
      → settle_write path r ≡ resolves_written n info
      → (n ≡ length content) × (Holds e path content)
  unfolding work_put settle_write
  work_put_lem path content d e r n info (f, true) q h k =
      let same : f ≡ e = ap (λ p. p.0) h in
      (ground (arith, ap (λ p. p.1) h), through d e path content (rw (← same) q))
  work_put_lem path content d e r n info (f, false) q h k =
      absurd (ground (arith, ap (λ p. p.1) h, k))

  fs_read_lem :
      (e : D) (path content : Bytes)
      → disk.open_read e path ≡ some content
      → (info : Option FileInfo) × (perform disk e path (fs_read (text path ∷ []))
          ≡ some (e, resolves_file (v8_string content) info))
  unfolding perform fs_read settle_reply settle_read work work_read
  fs_read_lem e path content h = (create_info_value (create_file_info disk e path), rw h refl)

  work_write_lem :
      (path content : Bytes) (d e : D) (r : WriteResult) (n : ℕ) (info : Option FileInfo)
      (o : Option D)
      → work_write disk d path content o ≡ (e, r)
      → settle_write path r ≡ resolves_written n info
      → (n ≡ length content) × (Holds e path content)
  unfolding work_write settle_write
  work_write_lem path content d e r n info none h k = absurd (ground (arith, ap (λ p. p.1) h, k))
  work_write_lem path content d e r n info (some f) h k =
      work_put_lem path content f e r n info (disk.put f path content) refl h k

  requests_lem :
      (path content : Bytes) (parents : Bool) (d e : D) (n : ℕ) (info : Option FileInfo)
      → perform disk d path (requests (writes path content (codes "utf8") parents))
        ≡ some (e, resolves_written n info)
      → (n ≡ length content) × (Holds e path content)
  unfolding perform work settle_reply
  requests_lem path content parents d e n info h =
      let x = prepared disk d path parents in
      let opened = disk.open_write x path in
      let result = work_write disk x path content opened in
      let (same, settled) = some_pair result.0 e (settle_write path result.1) _ h in
      work_write_lem path content x e result.1 n info opened (ap (λ y. (y, result.1)) same) settled

  started_lem :
      (path content : Bytes) (parents : Bool) (d e : D) (n : ℕ) (info : Option FileInfo)
      (aborted : Option (Option Bytes))
      → perform disk d path
          (start_unless_aborted aborted (writes path content (codes "utf8") parents))
        ≡ some (e, resolves_written n info)
      → (n ≡ length content) × (Holds e path content)
  unfolding perform start_unless_aborted
  started_lem path content parents d e n info none h =
      requests_lem path content parents d e n info h
  started_lem path content parents d e n info (some none) h =
      absurd (ground (arith, (some_pair d e cancelled _ h).1))
  started_lem path content parents d e n info (some (some reason)) h =
      absurd (ground (arith, (some_pair d e (rejects_reason reason) _ h).1))

  if_lem :
      (P : Type 0) (b : Bool) (s : Started) (message path : Bytes) (d : D) (out : D × Settled)
      → (perform disk d path s ≡ some out → P)
      → perform disk d path (if b then s else throws message) ≡ some out
      → P
  unfolding perform
  if_lem P true s message path d out keep h = keep h
  if_lem P false s message path d out keep h = absurd (ground (arith, h))

  with_lem :
      (path content : Bytes) (d e : D) (n : ℕ) (info : Option FileInfo) (o : Option Fields)
      → perform disk d path (fs_write_with path content o) ≡ some (e, resolves_written n info)
      → (n ≡ length content) × (Holds e path content)
  unfolding perform fs_write_with
  with_lem path content d e n info none h = absurd (ground (arith, h))
  with_lem path content d e n info (some o) h =
      if_lem _ _ _ _ path d _
        (started_lem path content
          (equal (get_string_option o.create (codes "none")) (codes "parents")) d e n info
          o.aborted)
        h

  -- On a disk where a regular file that was opened, written and closed in good order reads back as it
  -- was written: when a call of `fs.write` with two strings, and whatever options, resolves, and the
  -- path is a regular file then, a call of `fs.read` on it resolves to the text that was written, up to
  -- its first zero byte; the number of bytes is the whole text's length.
  pub fs_read-fs_write :
      (d e : D) (path content : Bytes) (options : List Argument) (n : ℕ) (info : Option FileInfo)
      → perform disk d path (fs_write (text path ∷ text content ∷ options))
        ≡ some (e, resolves_written n info)
      → IsRegular disk e path
      → (n ≡ length content)
        × ((i : Option FileInfo) × (perform disk e path (fs_read (text path ∷ []))
              ≡ some (e, resolves_file (v8_string content) i)))
  unfolding fs_write
  fs_read-fs_write d e path content [] n info h regular =
      let (a, b) = requests_lem path content false d e n info h in
      (a, fs_read_lem e path content (b regular))
  fs_read-fs_write d e path content (o ∷ rest) n info h regular =
      let (a, b) = with_lem path content d e n info (fields_of o) h in
      (a, fs_read_lem e path content (b regular))

module _ {D : Type 0} (disk : Disk D) where
  start_aborted :
      (d e : D) (path message : Bytes) (b : Bool) (reason : Option Bytes) (op : Operation)
      (s : Settled)
      → perform disk d path (if b then start_unless_aborted (some reason) op else throws message)
        ≡ some (e, s)
      → e ≡ d
  unfolding perform start_unless_aborted
  start_aborted d e path message false reason op s h = absurd (ground (arith, h))
  start_aborted d e path message true none op s h = sym (some_pair d e _ s h).0
  start_aborted d e path message true (some r) op s h = sym (some_pair d e _ s h).0

  -- A call of `fs.read` or `fs.write` whose signal is aborted leaves the disk as it is.
  pub aborted_keeps_disk :
      (d e : D) (path content : Bytes) (o : Fields) (reason : Option Bytes) (rest : List Argument)
      (s : Settled)
      → o.aborted ≡ some reason
      → ((perform disk d path (fs_read (text path ∷ object o ∷ rest)) ≡ some (e, s))
          ⊎ (perform disk d path (fs_write (text path ∷ text content ∷ object o ∷ rest))
              ≡ some (e, s)))
      → e ≡ d
  unfolding fs_read fs_write fs_read_with fs_write_with
  aborted_keeps_disk d e path content o reason rest s a (inl h) =
      start_aborted d e path _ _ reason _ s (rw a at h)
  aborted_keeps_disk d e path content o reason rest s a (inr h) =
      start_aborted d e path _ _ reason _ s (rw a at h)
