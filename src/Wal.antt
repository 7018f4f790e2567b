-- ===== src/Wal.antt =====
-- internal/wal: the write-ahead log. This module has the types and constants that the writer and
-- the reader share (internal/wal/consts.go, internal/wal/writer.go, internal/wal/pb/wal.proto), and
-- what they take from third-party packages.
pub mod Entry
pub mod Output
pub mod Writer
pub mod Reader
pub mod NewReader
pub mod Recovery
pub mod ReadAt
pub mod ReadableLog
pub mod CloseWriter
mod Tests
use logblock.Prelude.{ℕ, ◌≡◌, ◌≤◌, ◌<◌, ◌^◌, length, Bool, Option, some, [], ◌∷◌, Bytes}

-- `logRecord`; an int64 is its bit pattern.
pub record LogRecord : Type 0 where
  pub log_offset : ℕ
  pub offset : ℕ
  pub length : ℕ
  pub zero : Bool

abbrev pub max_write_size : ℕ
max_write_size = 4194304

pub data EntryType : Type 0 where
  data_entry trim_entry footer_entry : EntryType

abbrev pub entry_code : EntryType → ℕ
entry_code data_entry = 0
entry_code trim_entry = 1
entry_code footer_entry = 2

abbrev pub entry_base_size : ℕ
entry_base_size = 8

-- "lblog\x31\x41\x59" and "footer\x31\x41"
abbrev pub header_magic : Bytes
header_magic = 108 ∷ 98 ∷ 108 ∷ 111 ∷ 103 ∷ 0x31 ∷ 0x41 ∷ 0x59 ∷ []

abbrev pub footer_magic : Bytes
footer_magic = 102 ∷ 111 ∷ 111 ∷ 116 ∷ 101 ∷ 114 ∷ 0x31 ∷ 0x41 ∷ []

-- `pb.Header` and `pb.IndexEntry`
pub record Header : Type 0 where
  pub version : ℕ
  pub block_size : ℕ
  pub align : ℕ
  pub checksum_type : ℕ

pub data IndexEntryType : Type 0 where
  invalid_entry write_entry trim_index_entry : IndexEntryType

pub record IndexEntry : Type 0 where
  pub type : IndexEntryType
  pub log_offset : ℕ
  pub offset : ℕ
  pub length : ℕ

-- The checksum of hash/crc32 and the messages of protobuf, with what the code relies on.
pub record Codec : Type 0 where
  pub crc : Bytes → ℕ
  pub crc_bound : (b : Bytes) → crc b < 2 ^ 32
  pub marshal_header : Header → Bytes
  pub unmarshal_header : Bytes → Option Header
  pub marshal_entry : IndexEntry → Bytes
  pub unmarshal_entry : Bytes → Option IndexEntry
  -- An entry of the index has a type and three integers.
  pub marshal_entry_length : (e : IndexEntry) → length (marshal_entry e) ≤ 65536
  pub unmarshal-marshal_header : (h : Header) → unmarshal_header (marshal_header h) ≡ some h
  pub unmarshal-marshal_entry : (e : IndexEntry) → unmarshal_entry (marshal_entry e) ≡ some e
