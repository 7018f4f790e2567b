-- ===== src/Metadata.antt =====
-- internal/metadata: the list of the device's data files, oldest first. A method works under its lock
-- and is one step on the record; the messages that it logs are left out. The metadata store is what
-- the program is given, a parameter of `save` and `load_metadata`.
pub mod Files
mod Tests
use logblock.Prelude.{
  ℕ, ◌*◌, ◌%◌, ◌^◌, Bool, true, false, not, ◌&&◌, ◌||◌, Option, none, some, List, [], ◌∷◌, ◌++◌,
  map, if◌then◌else◌, ltb, slt, Bytes, bytes_equal,
}

-- `pb.DataFileType`
pub data FileType : Type 0 where
  unspecified write_log sparse_table : FileType

-- A name is its bytes.
pub record DataFile : Type 0 where
  pub type : FileType
  pub name : Bytes

-- `pb.Metadata`
pub record Metadata : Type 0 where
  pub block_size : ℕ
  pub num_blocks : ℕ
  pub data_files : List DataFile

unfoldable pub same_type : FileType → FileType → Bool
same_type unspecified unspecified = true
same_type write_log write_log = true
same_type sparse_table sparse_table = true
same_type _ _ = false

-- The negation of `df.Type != t || df.Name != name`
unfoldable pub is_file : FileType → Bytes → DataFile → Bool
is_file t name df = same_type df.type t && bytes_equal df.name name

-- `slices.Delete` of the first file that fits.
unfoldable pub delete_first : FileType → Bytes → List DataFile → List DataFile
delete_first t name [] = []
delete_first t name (df ∷ files) =
    let rest = delete_first t name files in if is_file t name df then files else df ∷ rest

-- The file that replaces the first write log of the name, in its place.
unfoldable pub replace_first : Bytes → Bytes → List DataFile → List DataFile
replace_first log_name table [] = []
replace_first log_name table (df ∷ files) =
    let rest = replace_first log_name table files in
    if is_file write_log log_name df
    then record { type = sparse_table; name = table } ∷ files
    else df ∷ rest

-- `NewMetadata`; `none` is the panic on a size that is not positive (an int64).
unfoldable pub new_metadata : ℕ → Option Metadata
new_metadata size =
    if slt 0 size then some (record { block_size = 0; num_blocks = 0; data_files = [] }) else none

-- `NewMetadata_BlockStore`
unfoldable pub new_metadata_block_store : ℕ → ℕ → Metadata
new_metadata_block_store block_size num_blocks = record {
  block_size = block_size % 2 ^ 32;
  num_blocks = num_blocks;
  data_files = [];
}

-- `Size`, an int64
unfoldable pub size : Metadata → ℕ
size m = (m.block_size * m.num_blocks) % 2 ^ 64

unfoldable pub push_write_log : Bytes → Metadata → Metadata
push_write_log name m = record m {
  data_files = m.data_files ++ record { type = write_log; name = name } ∷ [];
}

unfoldable pub remove_write_log : Bytes → Metadata → Metadata
remove_write_log name m = record m { data_files = delete_first write_log name m.data_files }

unfoldable pub compact_write_log : Bytes → Bytes → Metadata → Metadata
compact_write_log log_name table m = record m {
  data_files = replace_first log_name table m.data_files;
}

unfoldable pub push_sparse_data_file : Bytes → Metadata → Metadata
push_sparse_data_file name m = record m {
  data_files = m.data_files ++ record { type = sparse_table; name = name } ∷ [];
}

unfoldable pub remove_sparse_data_file : Bytes → Metadata → Metadata
remove_sparse_data_file name m = record m {
  data_files = delete_first sparse_table name m.data_files;
}

-- `mDataFile.Type`; `none` is its panic.
unfoldable pub file_type : DataFile → Option FileType
file_type df = elim df.type [ unspecified ↦ none | t ↦ some t ]

unfoldable pub list_data_files : Metadata → List DataFile
list_data_files m = m.data_files

-- `names[name]`
unfoldable pub named : Bytes → List Bytes → Bool
named name [] = false
named name (f ∷ fs) = bytes_equal f name || named name fs

unfoldable pub without_names : List Bytes → List DataFile → List DataFile
without_names fs [] = []
without_names fs (e ∷ files) =
    let rest = without_names fs files in if named e.name fs then rest else e ∷ rest

abbrev pub table_named : Bytes → DataFile
table_named f = record { type = sparse_table; name = f }

unfoldable pub prepend_reader_files : List Bytes → Metadata → Metadata
prepend_reader_files fs m = record m {
  data_files = map table_named fs ++ without_names fs m.data_files;
}

-- `MetadataStore`; `none` is an error.
pub record MetadataStore : Type 1 where
  pub State : Type 0
  pub load : State → Option Metadata
  pub store : Metadata → State → Option State

unfoldable pub load_metadata : (S : MetadataStore) → S.State → Option Metadata
load_metadata S s = S.load s

unfoldable pub save : (S : MetadataStore) → Metadata → S.State → Option S.State
save S m s = S.store m s
