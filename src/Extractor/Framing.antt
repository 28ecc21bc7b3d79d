-- ===== src/Extractor/Framing.antt =====
-- The framing of an entry, read with no key: what skipping an entry consumes.
pub mod Skips
use sarc.Prelude.{ℕ, zero, suc, ◌+◌, ◌-◌, ◌*◌, Bool, true, false, ◌||◌, Option, none, some}
use sarc.Prelude.{ltb, ◌==◌, if◌then◌else◌, length, drop}
use sarc.Bytes.{Bytes}
use sarc.Bytes.LittleEndian.{from_le}
use sarc.Attributes.{max_attributes_size}
use sarc.Crypto.{nonce_size, gcm_tag_size, hmac_size}
use sarc.Format.{MetadataBlock}
use sarc.Reader.{
  ArchiveError, fatal, recoverable, truncated, integrity_fail, Fallible, panics, Reading, pure,
  fail, ◌>>=◌, reject_if, read_full, discard,
}

-- `MaxMetadataSize`, `maxMetadataCiphertext`
abbrev pub max_metadata_size : ℕ
max_metadata_size = 2 + 0xffff + 1 + 32 + 4 + 1 + 4 + max_attributes_size

abbrev pub max_metadata_ciphertext : ℕ
max_metadata_ciphertext = max_metadata_size + gcm_tag_size

-- `MaxChunkSize`, `MaxPayloadSize`, `maxBlockCiphertext`
abbrev pub max_chunk_size : ℕ
max_chunk_size = 256 * 1024 + 32 * 1024

abbrev pub max_payload_size : ℕ
max_payload_size = max_chunk_size + 256

abbrev pub max_block_ciphertext : ℕ
max_block_ciphertext = max_payload_size + gcm_tag_size

-- `TrailerPayloadSize`
abbrev pub trailer_payload_size : ℕ
trailer_payload_size = hmac_size + 8

-- `skipPadding`, whose error makes the caller return `e`
unfoldable pub skip_padding : ArchiveError → Reading (Unit {0})
skip_padding e = do size_buf ← read_full 4 e; discard (from_le size_buf) e

-- `readMetadataBlock`
unfoldable pub read_metadata_block : Reading MetadataBlock
read_metadata_block = do
  nonce ← read_full nonce_size (recoverable truncated "read metadata nonce")
  size_buf ← read_full 4 (recoverable truncated "read metadata size")
  reject_if (ltb max_metadata_ciphertext (from_le size_buf))
      (fatal integrity_fail "metadata size exceeds maximum")
      (do
        ct ← read_full (from_le size_buf) (recoverable truncated "read metadata ciphertext")
        pure (record { nonce = nonce; ciphertext = ct }))

-- The rest of a turn of `skipDataBlocks`, after the header of a block of `size` bytes, with the turns
-- that are left.
unfoldable pub skip_block : ℕ → ℕ → (ℕ → Reading ℕ) → Reading ℕ
skip_block size stored rest =
    if size == 0
    then pure stored
    else reject_if (ltb max_block_ciphertext size || ltb size gcm_tag_size)
        (fatal integrity_fail "block size out of range")
        (do
          _ ← discard size (recoverable truncated "skip block ciphertext")
          rest (stored + (size - gcm_tag_size)))

-- The loop of `skipDataBlocks`, with the bytes stored so far.
unfoldable pub skip_blocks : ℕ → ℕ → Reading ℕ
skip_blocks zero stored = λ b. (panics, b)
skip_blocks (suc fuel) stored = do
  header ← read_full (nonce_size + 4) (recoverable truncated "read block header")
  skip_block (from_le (drop nonce_size header)) stored (skip_blocks fuel)

-- `skipDataBlocks`, with fuel for each header that can be read and one more turn
unfoldable pub skip_data_blocks : Reading ℕ
skip_data_blocks b = skip_blocks (suc (length b)) 0 b

-- return cause
unfoldable pub return_cause : Option ArchiveError → Reading (Unit {0})
return_cause none = pure tt
return_cause (some cause) = fail cause

-- `skipTrailer`
unfoldable pub skip_trailer : Option ArchiveError → Reading (Unit {0})
skip_trailer cause = do
  _ ← skip_padding (fatal truncated "skip trailer padding")
  header ← read_full (nonce_size + 4) (fatal truncated "read sealed trailer header")
  reject_if (ltb (trailer_payload_size + gcm_tag_size) (from_le (drop nonce_size header)))
      (fatal integrity_fail "sealed trailer too large")
      (do
        _ ← discard (from_le (drop nonce_size header) + 8) (fatal truncated "skip sealed trailer")
        return_cause cause)

-- `skipEntryBody`
unfoldable pub skip_entry_body : Option ArchiveError → Reading (Unit {0})
skip_entry_body cause = do
  _ ← skip_padding (fatal truncated "skip inter-block padding")
  _ ← skip_data_blocks
  skip_trailer cause
