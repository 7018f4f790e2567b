-- ===== src/Metadata/Tests.antt =====
-- The theorems on internal/metadata at concrete metadata.
use logblock.Prelude.{◌≡◌, refl, if◌then◌else◌, Bytes, bytes_equal, [], ◌∷◌}
use logblock.Metadata.{
  write_log, sparse_table, Metadata, is_file, push_write_log, remove_write_log, compact_write_log,
  push_sparse_data_file, prepend_reader_files, named, same_type,
}
use logblock.Metadata.Files.{
  count, occurrences, remove_write_log-push_write_log, compact_write_log-push_write_log,
  count-prepend_reader_files,
}

abbrev name_a : Bytes
name_a = 97 ∷ []

abbrev name_b : Bytes
name_b = 98 ∷ []

-- A table, then a write log.
abbrev two_files : Metadata
two_files = record {
  block_size = 4096;
  num_blocks = 8;
  data_files =
      record { type = sparse_table; name = name_a }
      ∷ record { type = write_log; name = name_b }
      ∷ [];
}

remove_write_log-push_write_log_example :
    remove_write_log name_a (push_write_log name_a two_files) ≡ two_files
unfolding count is_file same_type bytes_equal
remove_write_log-push_write_log_example = remove_write_log-push_write_log name_a two_files refl

compact_write_log-push_write_log_example :
    compact_write_log name_a name_b (push_write_log name_a two_files)
    ≡ push_sparse_data_file name_b two_files
unfolding count is_file same_type bytes_equal
compact_write_log-push_write_log_example =
    compact_write_log-push_write_log name_a name_b two_files refl

count-prepend_reader_files_example :
    count sparse_table name_b (prepend_reader_files (name_b ∷ []) two_files).data_files ≡ (
      if named name_b (name_b ∷ [])
      then if same_type sparse_table sparse_table then occurrences name_b (name_b ∷ []) else 0
      else count sparse_table name_b two_files.data_files)
count-prepend_reader_files_example =
    count-prepend_reader_files sparse_table name_b (name_b ∷ []) two_files
