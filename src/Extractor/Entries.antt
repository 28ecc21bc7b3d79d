-- ===== src/Extractor/Entries.antt =====
-- io/extractor.go and io/directory.go: reading an entry's type, its head and its trailer.
pub mod Sealed
use sarc.Prelude.{
  ℕ, zero, suc, ◌+◌, ◌-◌, Bool, true, false, ◌&&◌, ◌||◌, not, Option, none, some, [], ◌∷◌,
}
use sarc.Prelude.{ltb, ◌==◌, ◌!=◌, if◌then◌else◌, length, take, drop}
use sarc.Bytes.{Bytes}
use sarc.Bytes.LittleEndian.{from_le}
use sarc.Result
use sarc.Result.{Result}
use sarc.Crypto.{
  Primitives, EncryptedBlock, decrypt_block, verify_hmac, nonce_size, gcm_tag_size, salt_size,
  hmac_size,
}
use sarc.Keys.{KeySchedule, version1, file_key}
use sarc.Metadata.{PlaintextMetadata, unmarshal_metadata}
use sarc.Directory.{parse_directory_locator, entry_type_directory_locator, directory_locator_size}
use sarc.Format.{
  MetadataBlock, entry_type_file, entry_type_solid, entry_type_end, frame_header_size,
}
use sarc.Reader.{
  ArchiveError, fatal, recoverable, truncated, integrity_fail, auth_failed, Fallible, panics, fails,
  got, Reading, pure, fail, lift, after, ◌>>=◌, reject_if, read_full,
}
use sarc.Extractor.Framing.{
  skip_padding, read_metadata_block, skip_entry_body, skip_trailer, trailer_payload_size,
}

-- `EntryTypeDirectory`
abbrev pub entry_type_directory : ℕ
entry_type_directory = 6

-- `entryHead`
pub record EntryHead : Type 0 where
  pub file_key : Bytes
  pub pm : PlaintextMetadata

-- `trailerInfo`
pub record TrailerInfo : Type 0 where
  pub hmac : Bytes
  pub plaintext_size : ℕ
  pub has_size : Bool

-- `skipEntryBody` and `skipTrailer` with a cause, which return an error in every case
unfoldable pub skip_entry_with : {A : Type 0} → ArchiveError → Reading A
skip_entry_with cause = do _ ← skip_entry_body (some cause); fail cause

unfoldable pub skip_trailer_with : {A : Type 0} → ArchiveError → Reading A
skip_trailer_with cause = do _ ← skip_trailer (some cause); fail cause

-- a call whose every error the caller replaces
unfoldable pub or_fail : {A : Type 0} → ArchiveError → Fallible A × Bytes → Fallible A × Bytes
or_fail e (panics, b) = (panics, b)
or_fail e (fails cause, b) = (fails e, b)
or_fail e (got a, b) = (got a, b)

-- `trailerInfo` of a payload that the cipher opened
unfoldable pub trailer_of : ℕ → Option Bytes → Fallible TrailerInfo
trailer_of version none = fails (recoverable auth_failed "decrypt HMAC")
trailer_of version (some payload) =
    if version == version1 && length payload == hmac_size
    then got (record { hmac = take hmac_size payload; plaintext_size = 0; has_size = false })
    else if version != version1 && length payload == trailer_payload_size
    then got (record {
      hmac = take hmac_size payload;
      plaintext_size = from_le (take 8 (drop hmac_size payload));
      has_size = true;
    })
    else fails (recoverable integrity_fail "HMAC length mismatch")

module _ (p : Primitives) where
  -- `Open` of a MetadataManager for `key`; the error of the cipher is one error here
  unfoldable pub opened_metadata : Option Bytes → Result PlaintextMetadata
  opened_metadata none = Result.err (Result.Error.failed "decrypt")
  opened_metadata (some raw) = unmarshal_metadata raw

  unfoldable pub open_metadata : Bytes → MetadataBlock → Result PlaintextMetadata
  open_metadata key mb =
      opened_metadata
        (decrypt_block p key (record { nonce = mb.nonce; ciphertext = mb.ciphertext }))

  -- the end of `readEntryHead`
  unfoldable pub head_of : Bytes → Result PlaintextMetadata → Reading EntryHead
  head_of key Result.panic = lift panics
  head_of key (Result.err e) = skip_entry_with (recoverable auth_failed "decrypt metadata")
  head_of key (Result.ok pm) = pure (record { file_key = key; pm = pm })

  -- `readEntryHead`
  unfoldable pub read_entry_head : KeySchedule → Reading EntryHead
  read_entry_head keys = do
    salt ← read_full salt_size (recoverable truncated "read entry salt")
    _ ← read_full frame_header_size (recoverable truncated "read frame header")
    meta ← read_metadata_block
    head_of (file_key p keys salt) (open_metadata (file_key p keys salt) meta)

  -- `readTrailer`
  unfoldable pub read_trailer : Bytes → ℕ → Reading TrailerInfo
  read_trailer key version = do
    _ ← skip_padding (recoverable truncated "skip trailer padding")
    nonce ← read_full nonce_size (recoverable truncated "read HMAC nonce")
    size_buf ← read_full 4 (recoverable truncated "read HMAC sealed size")
    reject_if (ltb (trailer_payload_size + gcm_tag_size) (from_le size_buf))
        (fatal integrity_fail "sealed trailer too large")
        (do
          sealed ← read_full (from_le size_buf) (recoverable truncated "read HMAC sealed")
          _ ← read_full 8 (recoverable truncated "read entry checksum")
          lift (
              trailer_of version
                (decrypt_block p key (record { nonce = nonce; ciphertext = sealed }))))

  -- `verifyPlaintext`
  unfoldable pub verify_plaintext : Bytes → Bytes → TrailerInfo → Fallible (Unit {0})
  verify_plaintext key plaintext trailer =
      if not (verify_hmac p key plaintext trailer.hmac)
      then fails (recoverable integrity_fail "plaintext HMAC mismatch")
      else if trailer.has_size && trailer.plaintext_size != length plaintext
      then fails (recoverable integrity_fail "plaintext size mismatch")
      else got tt

  -- `decryptFilename`; none is an error
  unfoldable pub decrypt_filename : Bytes → Bytes → Option Bytes
  decrypt_filename blob key =
      if ltb (length blob) nonce_size
      then none
      else decrypt_block p key
          (record { nonce = take nonce_size blob; ciphertext = drop nonce_size blob })

  -- the two halves of `skipDirectory`
  unfoldable pub accept_locator : Result ℕ → Reading (Unit {0})
  accept_locator Result.panic = lift panics
  accept_locator (Result.err e) = fail (fatal integrity_fail "damaged directory locator")
  accept_locator (Result.ok offset) = pure tt

  unfoldable pub skip_locator : Reading (Unit {0})
  skip_locator = do
    rest ← read_full (directory_locator_size - 1) (fatal truncated "read directory locator")
    accept_locator (parse_directory_locator (entry_type_directory_locator ∷ rest))

  unfoldable pub skip_directory_entry : KeySchedule → Reading (Unit {0})
  skip_directory_entry keys = do
    _ ← (λ b. or_fail (fatal integrity_fail "damaged directory") (read_entry_head keys b))
    (λ b. or_fail (fatal integrity_fail "damaged directory") (skip_entry_body none b))

  -- `skipDirectory`
  unfoldable pub skip_directory : KeySchedule → ℕ → Reading (Unit {0})
  skip_directory keys entry_type =
      if entry_type == entry_type_directory_locator then skip_locator else skip_directory_entry keys

  -- the switch of `nextEntryType`, with the turns that are left; none is that no entry follows
  unfoldable pub entry_turn : KeySchedule → ℕ → Reading (Option ℕ) → Reading (Option ℕ)
  entry_turn keys t rest =
      if t == entry_type_file || t == entry_type_solid
      then pure (some t)
      else if t == entry_type_end
      then pure none
      else if t == entry_type_directory || t == entry_type_directory_locator
      then (do _ ← skip_directory keys t; rest)
      else fail (fatal integrity_fail "unexpected entry type")

  -- `nextEntryType` of a Version1 archive, which ends at the end of the reader too
  unfoldable pub version1_entry_type : Reading (Option ℕ)
  version1_entry_type [] = (got none, [])
  version1_entry_type (t ∷ b) = (got (if t == entry_type_file then some t else none), b)

  -- the loop of `nextEntryType`, for later versions
  unfoldable pub version2_entry_type : ℕ → KeySchedule → Reading (Option ℕ)
  version2_entry_type zero keys = lift panics
  version2_entry_type (suc fuel) keys = do
    t ← read_full 1 (fatal truncated "read entry type")
    entry_turn keys (from_le t) (version2_entry_type fuel keys)

  -- `nextEntryType`, with fuel for each byte that is left and one more turn
  unfoldable pub next_entry_type : KeySchedule → Reading (Option ℕ)
  next_entry_type keys b =
      if keys.version == version1
      then version1_entry_type b
      else version2_entry_type (suc (length b)) keys b
