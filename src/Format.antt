-- ===== src/Format.antt =====
-- archive/format.go: the parts of an archive as values. Fields of array types are byte strings whose
-- lengths the theorems ask for.
use sarc.Prelude.{ℕ, List}
use sarc.Bytes.{Bytes}

-- `EntryTypeFile`, `EntryTypeSolid`, `EntryTypeEnd`, `ReservedSize`
abbrev pub entry_type_file : ℕ
entry_type_file = 1

abbrev pub entry_type_solid : ℕ
entry_type_solid = 2

abbrev pub entry_type_end : ℕ
entry_type_end = 0

abbrev pub reserved_size : ℕ
reserved_size = 32

-- the length of `FrameHeader`
abbrev pub frame_header_size : ℕ
frame_header_size = 32

-- `ArchiveHeader`, as far as a Version2 header has its fields
pub record ArchiveHeader : Type 0 where
  pub magic : Bytes
  pub version : ℕ
  pub recipient_block : Bytes
  pub file_count_encrypted : Bytes
  pub reserved : Bytes

-- `MetadataBlock`
pub record MetadataBlock : Type 0 where
  pub nonce : Bytes
  pub ciphertext : Bytes

-- `DataBlock`
pub record DataBlock : Type 0 where
  pub nonce : Bytes
  pub ciphertext : Bytes

-- `FileTrailer`
pub record FileTrailer : Type 0 where
  pub random_padding : Bytes
  pub plaintext_hmac_nonce : Bytes
  pub plaintext_hmac_sealed : Bytes
  pub entry_checksum : Bytes

-- `FileEntry`
pub record FileEntry : Type 0 where
  pub entry_type : ℕ
  pub entry_salt : Bytes
  pub frame_hdr : Bytes
  pub metadata : MetadataBlock
  pub inter_block_pad : Bytes
  pub data_blocks : List DataBlock
  pub trailer : FileTrailer
