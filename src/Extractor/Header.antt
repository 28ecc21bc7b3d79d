-- ===== src/Extractor/Header.antt =====
-- io/extractor.go: readHeader, which finds the key schedule of an archive.
pub mod Opens
use sarc.Prelude.{ℕ, ◌+◌, ◌-◌, ◌%◌, ◌^◌, Bool, not, Option, none, some, List, [], ◌∷◌, ◌++◌}
use sarc.Prelude.{ltb, ◌==◌, ◌!=◌, if◌then◌else◌, length, take, drop}
use sarc.Bytes.{Bytes}
use sarc.Bytes.LittleEndian.{from_le}
use sarc.Bytes.Slice.{bytes_eq}
use sarc.Result
use sarc.Result.{Result}
use sarc.Recipients.{max_recipient_block_size}
use sarc.Recipients.Unlock.{
  Unwrapping, Unlockers, Outcome, key, identity_error, no_matching_credential, malformed_stanza,
  has_any, open_recipient_block,
}
use sarc.Checksum.{magic, version2, file_count_sealed_size}
use sarc.Crypto.{Primitives, EncryptedBlock, decrypt_block, nonce_size, salt_size}
use sarc.Keys.{
  KeySchedule, version1, header_key, new_version1_key_schedule, new_version2_key_schedule,
}
use sarc.Format.{reserved_size}
use sarc.Writer.{file_count_offset}
use sarc.Reader.{
  ArchiveError, fatal, recoverable, bad_magic, bad_version, auth_failed, truncated, integrity_fail,
  Fallible, panics, fails, got, Reading, pure, fail, lift, ◌>>=◌, reject_if, read_full,
}

-- `headerInfo`
pub record HeaderInfo : Type 0 where
  pub flags : ℕ
  pub sealed_count : ℕ
  pub recipient_block_len : ℕ

-- `headerInfo.incremental`: HeaderFlagIncremental is bit 0
unfoldable pub incremental : HeaderInfo → Bool
incremental h = h.flags % 2 != 0

-- `headerInfo.end`
unfoldable pub end : HeaderInfo → ℕ
end h = file_count_offset h.recipient_block_len + file_count_sealed_size + reserved_size

-- A Version1 header leaves `se.header` at its zero value.
abbrev pub no_header_info : HeaderInfo
no_header_info = record { flags = 0; sealed_count = 0; recipient_block_len = 0 }

module _ (p : Primitives) where
  -- what `openFileCount` returns of the text that opens; none is an error
  unfoldable pub count_of : Option Bytes → Option ℕ
  count_of none = none
  count_of (some plain) = if length plain != 8 then none else some (from_le plain)

  unfoldable pub open_count_with : Result Bytes → Bytes → Option ℕ
  open_count_with (Result.ok hkey) sealed = count_of (
      decrypt_block p hkey
        (record { nonce = take nonce_size sealed; ciphertext = drop nonce_size sealed }))
  open_count_with _ sealed = none

  -- `openFileCount`
  unfoldable pub open_file_count : KeySchedule → Bytes → Option ℕ
  open_file_count keys sealed = open_count_with (header_key p keys) sealed

  -- the end of `readVersion2Header`, for a key that the recipient block opened to
  unfoldable pub confirm_key : Bytes → Option ℕ → Bytes → ℕ → Fallible (KeySchedule × HeaderInfo)
  confirm_key cek none reserved block_len = fails (fatal auth_failed "corrupted header")
  confirm_key cek (some count) reserved block_len = got (
    new_version2_key_schedule cek,
    record {
      flags = from_le (take 1 reserved);
      sealed_count = count;
      recipient_block_len = block_len;
    },
  )

  -- what `readVersion2Header` makes of the outcome of OpenRecipientBlock
  unfoldable pub after_open :
      Result Outcome → Bytes → Bytes → ℕ → Fallible (KeySchedule × HeaderInfo)
  after_open Result.panic sealed reserved block_len = panics
  after_open (Result.err e) sealed reserved block_len =
      fails (fatal integrity_fail "malformed recipient block")
  after_open (Result.ok malformed_stanza) sealed reserved block_len =
      fails (fatal integrity_fail "malformed recipient block")
  after_open (Result.ok (no_matching_credential kinds)) sealed reserved block_len =
      fails (fatal auth_failed "no matching credential")
  after_open (Result.ok (identity_error what)) sealed reserved block_len =
      fails (fatal auth_failed "identity could not be used")
  after_open (Result.ok (key cek)) sealed reserved block_len =
      confirm_key cek (open_file_count (new_version2_key_schedule cek) sealed) reserved block_len

  module _ {Identity : Type 0} (crypto : Unwrapping Identity) (u : Unlockers Identity) where
    -- `readVersion1Header`
    unfoldable pub read_version1_header : Reading (KeySchedule × HeaderInfo)
    read_version1_header = do
      _ ←
          read_full (salt_size + file_count_sealed_size + reserved_size)
            (fatal truncated "read header")
      reject_if (not (has_any u.password))
          (fatal auth_failed "version 1 archives require a password")
          (pure (new_version1_key_schedule u.password, no_header_info))

    -- `readVersion2Header`
    unfoldable pub read_version2_header : Reading (KeySchedule × HeaderInfo)
    read_version2_header = do
      len_buf ← read_full 4 (fatal truncated "read recipient block length")
      reject_if (ltb max_recipient_block_size (from_le len_buf))
          (fatal integrity_fail "recipient block exceeds maximum size")
          (do
            block ← read_full (from_le len_buf) (fatal truncated "read recipient block")
            sealed ← read_full file_count_sealed_size (fatal truncated "read file count")
            reserved ← read_full reserved_size (fatal truncated "read header reserved")
            lift (
                after_open (open_recipient_block crypto u block) sealed reserved (from_le len_buf)))

    -- the switch of `readHeader`
    unfoldable pub by_version : ℕ → Reading (KeySchedule × HeaderInfo)
    by_version v =
        if v == version1
        then read_version1_header
        else if v == version2
        then read_version2_header
        else fail (fatal bad_version "unsupported version")

    -- `readHeader`
    unfoldable pub read_header : Reading (KeySchedule × HeaderInfo)
    read_header = do
      start ← read_full (length magic) (fatal truncated "read magic")
      reject_if (not (bytes_eq start magic)) (fatal bad_magic "invalid magic bytes")
          (do version ← read_full 2 (fatal truncated "read version"); by_version (from_le version))
