-- ===== src/FileSystem/Builtins.antt =====
-- src/v8/builtins/fs.cc: the functions of the module `kode:fs`, from the check of their arguments to the
-- settling of the promise. What V8 says of a JavaScript value is its form here.
use kode.Prelude.{ℕ, ℤ, false, ◌&&◌, ◌||◌, not, List, [], ◌∷◌, Option, none, some, if◌then◌else◌}
use kode.Text.{Bytes, codes, is_empty, equal, starts_with, c_string, v8_string}
use kode.FileSystem.{
  Disk, work, Info, ReadResult, WriteResult, Operation, reads, writes, asks_info, Reply, read_reply,
  write_reply, info_reply,
}

-- The properties of an object that the functions look at: strings, and a signal that is aborted with
-- its reason, or with none for an undefined one.
pub record Fields : Type 0 where
  pub as_kind : Option Bytes
  pub create : Option Bytes
  pub aborted : Option (Option Bytes)

pub data Argument : Type 0 where
  text : Bytes → Argument
  object : Fields → Argument
  function : Fields → Argument
  primitive : Argument

pub record FileInfo : Type 0 where
  pub path : Bytes
  pub kind : Bytes
  pub size : ℕ
  pub mime_type : Bytes
  pub last_modified : ℤ

-- How a promise ends, or what the callback of `fs.readFile` gets.
pub data Settled : Type 0 where
  resolves_text : Bytes → Settled
  resolves_file : Bytes → Option FileInfo → Settled
  resolves_written : ℕ → Option FileInfo → Settled
  resolves_info : Option FileInfo → Settled
  rejects : Bytes → Bytes → Bytes → Bytes → Settled
  rejects_reason : Bytes → Settled

-- What a function does before it returns: it throws, rejects at once, or asks for a file operation.
pub data Started : Type 0 where
  throws : Bytes → Started
  settles : Settled → Started
  requests : Operation → Started

-- `FileKind` and `CreateInfoValue`.
unfoldable pub file_kind : Info → Bytes
file_kind info =
    if info.is_file
    then codes "file"
    else if info.is_directory
    then codes "directory"
    else codes "other"

unfoldable pub create_info_value : Option Info → Option FileInfo
unfolding file_kind
create_info_value none = none
create_info_value (some info) = some (record {
  path = v8_string info.path;
  kind = file_kind info;
  size = info.size;
  mime_type = v8_string info.mime_type;
  last_modified = info.last_modified;
})

-- `IsObject`, which a function is too.
abbrev pub fields_of : Argument → Option Fields
fields_of (text s) = none
fields_of (object f) = some f
fields_of (function f) = some f
fields_of primitive = none

-- `GetStringOption`, with the value that stands before.
unfoldable pub get_string_option : Option Bytes → Bytes → Bytes
get_string_option none default = default
get_string_option (some value) default = value

-- The promise is rejected with what `CreateKodeError` makes.
abbrev pub reject_with : Bytes → Bytes → Bytes → Bytes → Settled
reject_with code message operation path =
    rejects (v8_string code) (v8_string message) (v8_string operation) (v8_string path)

abbrev pub cancelled : Settled
cancelled = reject_with (codes "ECANCELED") (codes "Operation cancelled") (codes "Kode.timeout") []

-- `GetSignalReasonIfAborted`.
unfoldable pub start_unless_aborted : Option (Option Bytes) → Operation → Started
start_unless_aborted none op = requests op
start_unless_aborted (some none) op = settles cancelled
start_unless_aborted (some (some reason)) op = settles (rejects_reason reason)

abbrev read_text_of : Bytes → Operation
read_text_of path = reads path (codes "auto")

-- `FSReadCallback` with options.
unfoldable pub fs_read_with : Bytes → Option Fields → Started
unfolding get_string_option start_unless_aborted
fs_read_with path none = throws (codes "fs.read options must be an object")
fs_read_with path (some o) =
    if equal (get_string_option o.as_kind (codes "text")) (codes "text")
    then start_unless_aborted o.aborted (read_text_of path)
    else throws (codes "fs.read only supports { as: \"text\" }")

unfoldable pub fs_read : List Argument → Started
unfolding fs_read_with
fs_read (text path ∷ []) = requests (read_text_of path)
fs_read (text path ∷ options ∷ rest) = fs_read_with path (fields_of options)
fs_read _ = throws (codes "fs.read requires a path string")

-- `FSReadTextCallback`, `FSInfoCallback`, `FSReadFileCallback`.
unfoldable pub fs_read_text : List Argument → Started
fs_read_text (text path ∷ rest) = requests (read_text_of path)
fs_read_text _ = throws (codes "readText requires a path string")

unfoldable pub fs_info : List Argument → Started
fs_info (text path ∷ rest) = requests (asks_info path)
fs_info _ = throws (codes "fs.info requires a path string")

unfoldable pub fs_read_file : List Argument → Started
fs_read_file (text path ∷ function f ∷ rest) = requests (read_text_of (c_string path))
fs_read_file _ = throws (codes "Invalid arguments")

-- `FSWriteCallback`.
unfoldable pub fs_write_with : Bytes → Bytes → Option Fields → Started
unfolding get_string_option start_unless_aborted
fs_write_with path content none = throws (codes "fs.write options must be an object")
fs_write_with path content (some o) =
    let create = get_string_option o.create (codes "none") in
    if equal create (codes "none") || equal create (codes "parents")
    then start_unless_aborted o.aborted
        (writes path content (codes "utf8") (equal create (codes "parents")))
    else throws (codes "fs.write create must be \"none\" or \"parents\"")

unfoldable pub fs_write : List Argument → Started
unfolding fs_write_with
fs_write (text path ∷ text content ∷ []) = requests (writes path content (codes "utf8") false)
fs_write (text path ∷ text content ∷ options ∷ rest) =
    fs_write_with path content (fields_of options)
fs_write _ = throws (codes "fs.write requires path and data strings")

-- The callbacks of the requests; `operation` and `path` are those of the `PromiseReq`.
unfoldable pub settle_text : Bytes → Bytes → ReadResult → Settled
settle_text operation path result =
    if result.success
    then resolves_text (v8_string result.content)
    else reject_with (codes "ENOENT") result.error operation path

-- The arguments of the callback of `fs.readFile`: the error and the text, where none is null.
unfoldable pub settle_callback : ReadResult → Option Bytes × Option Bytes
settle_callback result =
    if result.success
    then (none, some (c_string result.content))
    else (some (c_string result.error), none)

unfoldable pub settle_read : Bytes → ReadResult → Settled
unfolding create_info_value
settle_read path result =
    if result.success
    then resolves_file (v8_string result.content) (create_info_value result.info)
    else reject_with (codes "ENOENT") result.error (codes "fs.read") path

unfoldable pub settle_write : Bytes → WriteResult → Settled
unfolding create_info_value
settle_write path result =
    if result.success
    then resolves_written result.bytes_written (create_info_value result.info)
    else reject_with (codes "ENOENT") result.error (codes "fs.write") path

-- A path that is not there resolves to null.
unfoldable pub settle_info : Bytes → Option Info → Bytes → Settled
unfolding create_info_value
settle_info path (some info) error = resolves_info (create_info_value (some info))
settle_info path none error =
    if not (is_empty error) && not (starts_with (codes "File not found:") error)
    then reject_with (codes "EIO") error (codes "fs.info") path
    else resolves_info none

-- A call to its end, where no other request comes between: none where it throws.
unfoldable pub settle_reply : Bytes → Reply → Settled
unfolding settle_read settle_write settle_info
settle_reply path (read_reply result) = settle_read path result
settle_reply path (write_reply result) = settle_write path result
settle_reply path (info_reply info error) = settle_info path info error

module _ {D : Type 0} (disk : Disk D) where
  abbrev pub settled : Bytes → D × Reply → D × Settled
  settled path (d, reply) = (d, settle_reply path reply)

  unfoldable pub perform : D → Bytes → Started → Option (D × Settled)
  unfolding settle_reply work
  perform d path (throws message) = none
  perform d path (settles s) = some (d, s)
  perform d path (requests op) = some (settled path (work disk op d))
