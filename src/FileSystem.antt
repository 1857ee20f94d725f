-- ===== src/FileSystem.antt =====
-- src/filesystem/modern_fs.cc and src/filesystem/fs.cc: the files of the runtime.
-- The disk is outside: what the standard library's streams and `std::filesystem` give of it is the
-- interface `Disk`. A result carries no `FileInfo` where the source leaves its path empty.
pub mod Legacy
pub mod Opened
pub mod Builtins
pub mod Requests
pub mod Store
pub mod Exact
mod Tests
use kode.Prelude.{
  ℕ, ◌+◌, ◌≡◌, ℤ, Bool, true, false, ◌&&◌, ◌||◌, not, List, [], ◌∷◌, ◌++◌, Option, none, some, ◌==◌,
  ltb, leb, map, drop, length, if◌then◌else◌,
}
use kode.Text.{Bytes, codes, is_empty, equal, find_last, starts_with}
use kode.Text.Decimal.{to_string, to_string_int}
use kode.Paths.{parent_path}

-- `FileInfo`.
pub record Info : Type 0 where
  pub path : Bytes
  pub size : ℕ
  pub is_file : Bool
  pub is_directory : Bool
  pub mime_type : Bytes
  pub last_modified : ℤ

-- What `std::filesystem::status`, `file_size` and `last_write_time` tell.
pub record Status : Type 0 where
  pub regular : Bool
  pub folder : Bool
  pub bytes : ℕ
  pub written : ℤ

-- `open_read` is the content of a file that can be opened, `open_write` the disk once the file is open
-- and empty, `put` the disk once the text is written and the file closed, and whether `good()` holds.
-- `status` is none for a path that is not there or that an exception is thrown for.
pub record Disk (D : Type 0) : Type 0 where
  pub open_read : D → Bytes → Option Bytes
  pub open_write : D → Bytes → Option D
  pub put : D → Bytes → Bytes → D × Bool
  pub status : D → Bytes → Option Status
  pub has_path : D → Bytes → Bool
  pub create_directories : D → Bytes → D

pub record ReadResult : Type 0 where
  pub content : Bytes
  pub info : Option Info
  pub encoding : Bytes
  pub success : Bool
  pub error : Bytes

pub record WriteResult : Type 0 where
  pub bytes_written : ℕ
  pub info : Option Info
  pub success : Bool
  pub error : Bytes

-- `AsyncOperation`: what was asked for.
pub data Operation : Type 0 where
  reads : Bytes → Bytes → Operation
  writes : Bytes → Bytes → Bytes → Bool → Operation
  asks_info : Bytes → Operation

-- What a callback is called with.
pub data Reply : Type 0 where
  read_reply : ReadResult → Reply
  write_reply : WriteResult → Reply
  info_reply : Option Info → Bytes → Reply

abbrev pub failed_read : Bytes → ReadResult
failed_read error = record {
  content = [];
  info = none;
  encoding = [];
  success = false;
  error = error;
}

abbrev pub failed_write : Bytes → WriteResult
failed_write error = record { bytes_written = 0; info = none; success = false; error = error }

-- `::tolower` on ASCII.
unfoldable pub to_lower : ℕ → ℕ
to_lower c = if leb b'A' c && leb c b'Z' then c + 32 else c

-- The text behind the last dot; all of it where there is no dot.
unfoldable pub extension_text : Bytes → Bytes
extension_text path =
    map to_lower
      (elim (find_last (λ c. c == b'.') path) [ none ↦ path | some i ↦ drop (i + 1) path ])

unfoldable pub mime_of : Bytes → Bytes
mime_of ext =
    if equal ext (codes "js")
    then codes "application/javascript"
    else if equal ext (codes "json")
    then codes "application/json"
    else if equal ext (codes "html") || equal ext (codes "htm")
    then codes "text/html"
    else if equal ext (codes "css")
    then codes "text/css"
    else if equal ext (codes "txt")
    then codes "text/plain"
    else if equal ext (codes "md")
    then codes "text/markdown"
    else if equal ext (codes "png")
    then codes "image/png"
    else if equal ext (codes "jpg") || equal ext (codes "jpeg")
    then codes "image/jpeg"
    else if equal ext (codes "gif")
    then codes "image/gif"
    else codes "application/octet-stream"

-- `detectMimeType`.
unfoldable pub detect_mime_type : Bytes → Bytes
unfolding mime_of extension_text
detect_mime_type path = mime_of (extension_text path)

unfoldable pub info_of : Bytes → Status → Info
unfolding detect_mime_type
info_of path s = record {
  path = path;
  size = if s.regular then s.bytes else 0;
  is_file = s.regular;
  is_directory = s.folder;
  mime_type = if s.regular then detect_mime_type path else codes "inode/directory";
  last_modified = s.written;
}

abbrev true_or_false : Bool → Bytes
true_or_false true = codes "true"
true_or_false false = codes "false"

-- `FileInfo::toJSON`: the texts stand between the quotes as they are.
unfoldable pub to_json : Info → Bytes
unfolding to_string to_string_int
to_json i =
    codes "{\"path\":\""
    ++ (i.path
        ++ (codes "\",\"size\":"
            ++ (to_string i.size
                ++ (codes ",\"isFile\":"
                    ++ (true_or_false i.is_file
                        ++ (codes ",\"isDirectory\":"
                            ++ (true_or_false i.is_directory
                                ++ (codes ",\"mimeType\":\""
                                    ++ (i.mime_type
                                        ++ (codes "\",\"lastModified\":"
                                            ++ (to_string_int i.last_modified
                                                ++ codes "}")))))))))))

module _ {D : Type 0} (disk : Disk D) where
  -- `createFileInfo`.
  unfoldable pub create_file_info : D → Bytes → Option Info
  unfolding info_of
  create_file_info d path = elim (disk.status d path) [
    | none ↦ none
    | some s ↦ some (info_of path s)
  ]

  -- `ensureDirectoryExists`.
  unfoldable pub ensure_directory_exists : D → Bytes → D
  ensure_directory_exists d path =
      let dir = parent_path path in
      if not (is_empty dir) && not (disk.has_path d dir) then disk.create_directories d dir else d

  -- The branches of `workCallback`, on a thread of the pool.
  unfoldable pub work_read : D → Bytes → Bytes → Option Bytes → ReadResult
  unfolding create_file_info
  work_read d path encoding none = failed_read (codes "Cannot open file: " ++ path)
  work_read d path encoding (some content) = record {
    content = content;
    info = create_file_info d path;
    encoding = encoding;
    success = true;
    error = [];
  }

  unfoldable pub work_put : Bytes → Bytes → D × Bool → D × WriteResult
  unfolding create_file_info
  work_put path content (d, true) = (
    d,
    record {
      bytes_written = length content;
      info = create_file_info d path;
      success = true;
      error = [];
    },
  )
  work_put path content (d, false) = (d, failed_write (codes "Failed to write to file: " ++ path))

  unfoldable pub work_write : D → Bytes → Bytes → Option D → D × WriteResult
  unfolding work_put
  work_write d path content none = (d, failed_write (codes "Cannot create file: " ++ path))
  work_write d path content (some e) = work_put path content (disk.put e path content)

  abbrev pub prepared : D → Bytes → Bool → D
  prepared d path parents = if parents then ensure_directory_exists d path else d

  info_error : Bytes → Option Info → Bytes
  info_error path none = codes "File not found: " ++ path
  info_error path (some i) = []

  abbrev pub written : D × WriteResult → D × Reply
  written (d, result) = (d, write_reply result)

  -- `workCallback`.
  unfoldable pub work : Operation → D → D × Reply
  unfolding work_read work_write create_file_info info_error ensure_directory_exists
  work (reads path encoding) d = (d, read_reply (work_read d path encoding (disk.open_read d path)))
  work (writes path content encoding parents) d =
      let e = prepared d path parents in
      written (work_write e path content (disk.open_write e path))
  work (asks_info path) d =
      let info = create_file_info d path in (d, info_reply info (info_error path info))
