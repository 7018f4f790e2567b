-- ===== src/Metadata/Files.antt =====
-- What the methods of internal/metadata/metadata.go do to the list of files.
use logblock.Prelude.{
  ℕ, suc, ◌+◌, ◌-◌, ◌≡◌, refl, ap, true, false, List, [], ◌∷◌, ◌++◌, map, arith, if◌then◌else◌,
  Bytes, bytes_equal, bytes_equal_iff,
}
use logblock.Metadata.{
  FileType, write_log, sparse_table, DataFile, Metadata, same_type, is_file, delete_first,
  replace_first, push_write_log, remove_write_log, compact_write_log, push_sparse_data_file,
  remove_sparse_data_file, named, without_names, prepend_reader_files, table_named,
}

-- How many files have the type and the name.
unfoldable pub count : FileType → Bytes → List DataFile → ℕ
count t name [] = 0
count t name (df ∷ files) =
    if is_file t name df then suc (count t name files) else count t name files

same_type_refl : (t : FileType) → same_type t t ≡ true
unfolding same_type
same_type_refl FileType.unspecified = refl
same_type_refl write_log = refl
same_type_refl sparse_table = refl

is_file_self :
    (t : FileType) (name : Bytes) → is_file t name (record { type = t; name = name }) ≡ true
unfolding is_file
is_file_self t name = ground (arith, same_type_refl t, bytes_equal_iff name name)

delete_first-append :
    (t : FileType) (name : Bytes) (df : DataFile) (files : List DataFile)
    → count t name files ≡ 0
    → is_file t name df ≡ true
    → delete_first t name (files ++ df ∷ []) ≡ files
unfolding delete_first count
delete_first-append t name df [] none_yet here = rw here
delete_first-append t name df (f ∷ files) none_yet here =
    ground (arith, delete_first-append t name df files)

replace_first-append :
    (name table : Bytes) (files : List DataFile)
    → count write_log name files ≡ 0
    → replace_first name table (files ++ record { type = write_log; name = name } ∷ [])
      ≡ files ++ record { type = sparse_table; name = table } ∷ []
unfolding replace_first count
replace_first-append name table [] none_yet = rw (is_file_self write_log name)
replace_first-append name table (f ∷ files) none_yet =
    ground (arith, replace_first-append name table files)

-- Removing a write log that was pushed last, and is not in the list otherwise, gives back the metadata
-- from before the push.
pub remove_write_log-push_write_log :
    (name : Bytes) (m : Metadata)
    → count write_log name m.data_files ≡ 0
    → remove_write_log name (push_write_log name m) ≡ m
unfolding remove_write_log push_write_log
remove_write_log-push_write_log name m fresh =
    ap (λ files. record m { data_files = files })
      (delete_first-append write_log name _ m.data_files fresh (is_file_self write_log name))

-- Compacting a write log that was pushed last, and is not in the list otherwise, leaves the metadata as
-- if the table had been pushed in its place.
pub compact_write_log-push_write_log :
    (name table : Bytes) (m : Metadata)
    → count write_log name m.data_files ≡ 0
    → compact_write_log name table (push_write_log name m) ≡ push_sparse_data_file table m
unfolding compact_write_log push_write_log push_sparse_data_file
compact_write_log-push_write_log name table m fresh =
    ap (λ files. record m { data_files = files })
      (replace_first-append name table m.data_files fresh)

same_type_eq : (t u : FileType) → same_type t u ≡ true → t ≡ u
unfolding same_type
same_type_eq FileType.unspecified FileType.unspecified e = refl
same_type_eq FileType.unspecified write_log e = ground arith
same_type_eq FileType.unspecified sparse_table e = ground arith
same_type_eq write_log FileType.unspecified e = ground arith
same_type_eq write_log write_log e = refl
same_type_eq write_log sparse_table e = ground arith
same_type_eq sparse_table FileType.unspecified e = ground arith
same_type_eq sparse_table write_log e = ground arith
same_type_eq sparse_table sparse_table e = refl

is_file_eq :
    (t : FileType) (name : Bytes) (df : DataFile)
    → is_file t name df ≡ true
    → (df.type ≡ t) × (df.name ≡ name)
unfolding is_file
is_file_eq t name df here = ground (arith, same_type_eq df.type t, bytes_equal_iff df.name name)

-- Two keys that one file fits are one key.
is_file_other :
    (t u : FileType) (name other : Bytes) (df : DataFile)
    → is_file t name df ≡ true
    → is_file u other df ≡ is_file u other (record { type = t; name = name })
unfolding is_file
is_file_other t u name other df here = let e = is_file_eq t name df here in rw (e.0) (rw (e.1) refl)

is_file_same :
    (t u : FileType) (name other : Bytes) (df : DataFile)
    → is_file u other df ≡ true
    → is_file u other (record { type = t; name = name }) ≡ true
    → is_file t name df ≡ true
unfolding is_file
is_file_same t u name other df here there =
    let e = is_file_eq u other df here in
    let g = is_file_eq u other (record { type = t; name = name }) there in
    ground (arith, same_type_refl t, bytes_equal_iff df.name name, e, g)

count-delete_first :
    (t u : FileType) (name other : Bytes) (files : List DataFile)
    → count u other (delete_first t name files)
      ≡ count u other files - (if is_file u other (record { type = t; name = name }) then 1 else 0)
unfolding count delete_first
count-delete_first t u name other [] = ground arith
count-delete_first t u name other (df ∷ files) = ground (
  arith,
  count-delete_first t u name other files,
  is_file_other t u name other df,
  is_file_same t u name other df,
)

-- How often a name is in a list of names.
unfoldable pub occurrences : Bytes → List Bytes → ℕ
occurrences name [] = 0
occurrences name (f ∷ fs) =
    if bytes_equal f name then suc (occurrences name fs) else occurrences name fs

occurrences_unnamed :
    (name : Bytes) (fs : List Bytes) → named name fs ≡ false → occurrences name fs ≡ 0
unfolding occurrences named
occurrences_unnamed name [] unnamed = refl
occurrences_unnamed name (f ∷ fs) unnamed = ground (arith, occurrences_unnamed name fs)

count-append :
    (t : FileType) (name : Bytes) (xs ys : List DataFile)
    → count t name (xs ++ ys) ≡ count t name xs + count t name ys
unfolding count
count-append t name [] ys = ground arith
count-append t name (x ∷ xs) ys = ground (arith, count-append t name xs ys)

count-tables :
    (t : FileType) (name : Bytes) (fs : List Bytes)
    → count t name (map table_named fs)
      ≡ (if same_type sparse_table t then occurrences name fs else 0)
unfolding count is_file occurrences
count-tables t name [] = ground arith
count-tables t name (f ∷ fs) = ground (arith, count-tables t name fs)

count-without_names :
    (t : FileType) (name : Bytes) (fs : List Bytes) (files : List DataFile)
    → count t name (without_names fs files) ≡ (if named name fs then 0 else count t name files)
unfolding count is_file without_names
count-without_names t name fs [] = ground arith
count-without_names t name fs (df ∷ files) =
    ground (arith, count-without_names t name fs files, bytes_equal_iff df.name name)

-- After RemoveWriteLog there is one file less with the type and name that it removes, if there was one,
-- and as many as before with any other.
pub count-remove_write_log :
    (t : FileType) (name other : Bytes) (m : Metadata)
    → count t other (remove_write_log name m).data_files
      ≡ count t other m.data_files
        - (if is_file t other (record { type = write_log; name = name }) then 1 else 0)
unfolding remove_write_log
count-remove_write_log t name other m = count-delete_first write_log t name other m.data_files

count-remove_sparse_data_file :
    (t : FileType) (name other : Bytes) (m : Metadata)
    → count t other (remove_sparse_data_file name m).data_files
      ≡ count t other m.data_files
        - (if is_file t other (record { type = sparse_table; name = name }) then 1 else 0)
unfolding remove_sparse_data_file
count-remove_sparse_data_file t name other m =
    count-delete_first sparse_table t name other m.data_files

-- After PrependReaderFiles, a name that it is given is in the list as often as it is given, as a
-- sparse table alone, and the other names are in it as before.
pub count-prepend_reader_files :
    (t : FileType) (name : Bytes) (fs : List Bytes) (m : Metadata)
    → count t name (prepend_reader_files fs m).data_files ≡ (
        if named name fs
        then if same_type sparse_table t then occurrences name fs else 0
        else count t name m.data_files)
unfolding prepend_reader_files
count-prepend_reader_files t name fs m =
    rw (count-append t name (map table_named fs) (without_names fs m.data_files)) (
      ground (
        arith,
        count-tables t name fs,
        count-without_names t name fs m.data_files,
        occurrences_unnamed name fs,
      ))
