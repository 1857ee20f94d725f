-- ===== src/FileSystem/Legacy.antt =====
-- src/filesystem/fs.cc: `KodeFS`, which calls its callbacks before it returns. The chain of libuv requests
-- behind `OnOpenComplete` is started by no function and has no model.
use kode.Prelude.{Bool, true, false, [], ◌++◌, Option, none, some, is_some, if◌then◌else◌}
use kode.Text.{Bytes, codes, is_empty}
use kode.FileSystem.{Disk}

module _ {D : Type 0} (disk : Disk D) where
  -- `ReadFileSync`.
  unfoldable pub read_file_sync : D → Bytes → Bytes
  read_file_sync d filename = elim (disk.open_read d filename) [
    | none ↦ []
    | some content ↦ content
  ]

  -- `ReadFile`: the error and the content that the callback gets.
  unfoldable pub read_file : D → Bytes → Bytes × Bytes
  unfolding read_file_sync
  read_file d filename =
      let content = read_file_sync d filename in
      if is_empty content
      then (codes "File not found or empty: " ++ filename, [])
      else ([], content)

  abbrev pub after_put : Bytes → D × Bool → D × Bytes
  after_put filename (d, true) = (d, [])
  after_put filename (d, false) = (d, codes "Failed to write to file: " ++ filename)

  unfoldable pub write_opened : D → Bytes → Bytes → Option D → D × Bytes
  write_opened d filename content none = (d, codes "Failed to open file for writing: " ++ filename)
  write_opened d filename content (some e) = after_put filename (disk.put e filename content)

  -- `WriteFile`: the disk afterwards, and the error that the callback gets.
  unfoldable pub write_file : D → Bytes → Bytes → D × Bytes
  unfolding write_opened
  write_file d filename content = write_opened d filename content (disk.open_write d filename)

  -- `FileExists`.
  unfoldable pub file_exists : D → Bytes → Bool
  file_exists d filename = is_some (disk.open_read d filename)
