-- ===== src/FileSystem/Tests.antt =====
-- Runs and witnesses of the file system, on a disk that is a list of files.
use kode.Prelude.{
  count, extract, ℕ, ◌+◌, ◌≡◌, refl, ◌∙◌, ap, pos, true, false, List, [], ◌∷◌, Option, none, some,
  arith, length,
}
use kode.Text.{Bytes, c_string, codes, equal, find_last}
use kode.Text.Dict.{lookup, insert, lookup-insert}
use kode.Text.Find.{equal_self}
use kode.FileSystem.{
  Disk, ReadResult, reads, writes, asks_info, detect_mime_type, extension_text, to_lower,
  ensure_directory_exists,
}
use kode.FileSystem.Legacy.{write_file}
use kode.FileSystem.Builtins.{
  Fields, text, object, FileInfo, resolves_file, resolves_written, rejects_reason, fs_read,
  fs_write, perform, get_string_option, settle_callback, settle_read,
}
use kode.FileSystem.Requests.{Event, submits, works, run, init, step}
use kode.FileSystem.Exact.{run_drained, drain}
use kode.FileSystem.Store.{IsRegular, WritesThrough, fs_read-fs_write}

abbrev Files : Type 0
Files = List (Bytes × Bytes)

-- Every file is a regular one, written at one time; every directory is there.
abbrev files : Disk Files
files = record {
  open_read = λ d path. lookup path d;
  open_write = λ d path. some (insert path [] d);
  put = λ d path content. (insert path content d, true);
  status = λ d path. elim (lookup path d) [
    | none ↦ none
    | some s ↦ some (record { regular = true; folder = false; bytes = length s; written = pos 5 })
  ];
  has_path = λ d path. true;
  create_directories = λ d path. d;
}

files_write_through : WritesThrough files
files_write_through d e path content h regular =
    let same : insert path content d ≡ e = ap (λ p. p.0) h in
    rw (← same) (lookup-insert path path content d ∙ rw (equal_self path) refl)

abbrev path_a : Bytes
path_a = codes "a.txt"

abbrev one_file : Files
one_file = (path_a, codes "hi") ∷ []

mime_no_dot : detect_mime_type (codes "dir.x/JS") ≡ codes "application/octet-stream"
unfolding detect_mime_type extension_text equal find_last to_lower
mime_no_dot = refl

-- A file with no dot in its path is taken for its own extension.
mime_of_name : detect_mime_type (codes "JS") ≡ codes "application/javascript"
unfolding detect_mime_type extension_text equal find_last to_lower
mime_of_name = refl

writes_hi : write_file files [] path_a (codes "hi") ≡ (one_file, [])
unfolding write_file insert equal
writes_hi = refl

abbrev info_a : FileInfo
info_a = record {
  path = path_a;
  kind = codes "file";
  size = 2;
  mime_type = codes "text/plain";
  last_modified = pos 5;
}

abbrev with_parents : Option Bytes → Option (Option Bytes) → Fields
with_parents create aborted = record { as_kind = none; create = create; aborted = aborted }

fs_writes_hi :
    perform files [] path_a (
      fs_write (
        text path_a ∷ text (codes "hi") ∷ object (with_parents (some (codes "parents")) none) ∷ []))
    ≡ some (one_file, resolves_written 2 (some info_a))
unfolding perform fs_write insert equal lookup find_last ensure_directory_exists get_string_option
    detect_mime_type extension_text to_lower kode.Paths.parent_path c_string
fs_writes_hi = refl

one_file-IsRegular : IsRegular files one_file path_a
unfolding lookup equal
one_file-IsRegular = (_, refl, refl)

fs_read-fs_write_example :
    (◌≡◌ {A = ℕ} 2 2)
    × ((i : Option FileInfo) × (perform files one_file path_a (fs_read (text path_a ∷ []))
          ≡ some (one_file, resolves_file (codes "hi") i)))
unfolding c_string
fs_read-fs_write_example =
    fs_read-fs_write files files_write_through [] one_file path_a (codes "hi")
      (object (with_parents (some (codes "parents")) none) ∷ []) 2 (some info_a) fs_writes_hi
      one_file-IsRegular

aborted_write :
    perform files [] path_a (
      fs_write (
        text path_a
        ∷ text (codes "hi")
        ∷ object (with_parents none (some (some (codes "stop"))))
        ∷ []))
    ≡ some ([], rejects_reason (codes "stop"))
unfolding perform fs_write equal get_string_option
aborted_write = refl

abbrev two_requests : List Event
two_requests =
    submits (writes path_a (codes "hi") (codes "utf8") false) none
    ∷ submits (reads path_a (codes "auto")) (some (codes "no threads"))
    ∷ submits (asks_info path_a) none
    ∷ works 0
    ∷ []

run_drained_example :
    (let s = run files two_requests (init files []) in
      count 2 (run files (drain (length s.queued) (length s.finished + length s.queued)) s).called)
    ≡ 1
unfolding run step extract
run_drained_example =
    run_drained files two_requests [] 2 (run files two_requests (init files [])) refl (omega arith)

-- A file with a zero byte is cut there on its way into a script.
abbrev zero_inside : ReadResult
zero_inside = record {
  success = true;
  content = 104 ∷ 0 ∷ 105 ∷ [];
  encoding = codes "auto";
  error = [];
  info = none;
}

read_file_cut : settle_callback zero_inside ≡ (none, some (104 ∷ []))
unfolding settle_callback c_string
read_file_cut = refl

read_cut : settle_read path_a zero_inside ≡ resolves_file (104 ∷ []) none
unfolding settle_read c_string
read_cut = refl
