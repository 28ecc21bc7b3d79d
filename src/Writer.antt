-- ===== src/Writer.antt =====
-- archive/writer.go: ArchiveWriter, which serialises an archive to a sink. Writes to the sink do not
-- fail, and its buffer is not modelled: `out` is what the sink holds once the buffer is flushed.
pub mod Layout
pub mod Progress
pub mod Archive
pub mod Resume
use sarc.Prelude.{ℕ, ◌+◌, ◌-◌, ◌%◌, ◌^◌, ◌==◌, if◌then◌else◌}
use sarc.Prelude.{Option, none, some, List, [], ◌∷◌, ◌++◌, length, replicate, Bool, true, false}
use sarc.Result.{Result, Error, ok, err, ◌>>=◌}
use sarc.Bytes.{Bytes}
use sarc.Bytes.LittleEndian.{le}
use sarc.Crypto.{Primitives, EncryptedBlock, encrypt_block, nonce_size, gcm_tag_size}
use sarc.Keys.{KeySchedule, header_key, new_version2_key_schedule}
use sarc.Checksum
use sarc.Checksum.{
  ArchiveChecksum, new_archive_checksum, magic, file_count_sealed_size, header_prefix_len, sum,
}
use sarc.Checkpoint.{Checkpoint, marshal_checkpoint}
use sarc.Directory.{append_directory_locator}
use sarc.Format.{
  ArchiveHeader, MetadataBlock, DataBlock, FileTrailer, FileEntry, entry_type_end, reserved_size,
}

-- `ArchiveWriter`; `offset` is that of its offsetCounter. The int64 fields are their 64 bits.
pub record ArchiveWriter : Type 0 where
  pub out : Bytes
  pub hasher : ArchiveChecksum
  pub offset : ℕ
  pub keys : KeySchedule
  pub recipients : Bytes
  pub checksum : Bytes
  pub entry_offset : ℕ
  pub entry_stored : ℕ

-- `newArchiveWriter`, on a sink that holds `out`
unfoldable pub new_writer : Bytes → KeySchedule → Bytes → ArchiveChecksum → ℕ → ArchiveWriter
new_writer out keys recipients hasher offset = record {
  out = out;
  hasher = hasher;
  offset = offset;
  keys = keys;
  recipients = recipients;
  checksum = [];
  entry_offset = 0;
  entry_stored = 0;
}

-- `NewArchiveWriter`, with the key that it generates and the block that seals it
unfoldable pub new_archive_writer : Bytes → Bytes → ArchiveWriter
new_archive_writer cek recipients =
    new_writer [] (new_version2_key_schedule cek) recipients new_archive_checksum 0

-- The state of the hash and its encoding.BinaryMarshaler: the state of a hash that was fed some bytes,
-- MarshalBinary, and UnmarshalBinary, whose error is none. As a checksum has the text that its hash was
-- fed, `text` gives some text that leaves a hash in a state.
pub record StreamHash (State : Type 0) : Type 0 where
  pub after : Bytes → State
  pub marshal : State → Bytes
  pub unmarshal : Bytes → Option State
  pub text : State → Bytes

-- `MarshalBinary` and `ResumeArchiveChecksum` of archive/checksum.go
unfoldable pub marshal_binary : {State : Type 0} → StreamHash State → ArchiveChecksum → Result Bytes
marshal_binary hash c =
    if c.done
    then ok (hash.marshal (hash.after c.hashed))
    else err (Error.failed "header not yet hashed")

unfoldable pub resume_archive_checksum :
    {State : Type 0} → StreamHash State → Bytes → Result ArchiveChecksum
resume_archive_checksum hash state = elim (hash.unmarshal state) [
  | none ↦ err (Error.failed "restore state")
  | some loaded ↦ ok (record { hashed = hash.text loaded; head = []; done = true })
]

-- `ResumeArchiveWriter`, on a sink that holds `out`
unfoldable pub resume_archive_writer :
    {State : Type 0} → StreamHash State → Bytes → KeySchedule → ℕ → Bytes → Result ArchiveWriter
resume_archive_writer hash out keys offset hash_state = do
  hasher ← resume_archive_checksum hash hash_state
  ok (new_writer out keys [] hasher offset)

-- `aw.tee.Write`: to the sink, the checksum and the counter
unfoldable pub tee_write : ArchiveWriter → Bytes → ArchiveWriter
tee_write aw p = record aw {
  out = aw.out ++ p;
  hasher = Checksum.write aw.hasher p;
  offset = (aw.offset + length p) % 2 ^ 64;
}

-- `writeHeader`
unfoldable pub write_header_bytes : ArchiveWriter → ArchiveHeader → ArchiveWriter
write_header_bytes aw hdr = tee_write aw (
    hdr.magic
    ++ (le 2 hdr.version
        ++ (le 4 (length hdr.recipient_block)
            ++ (hdr.recipient_block ++ (hdr.file_count_encrypted ++ hdr.reserved)))))

-- `SealFileCount`, with the nonce that EncryptBlock draws
unfoldable pub seal_file_count : Primitives → KeySchedule → Bytes → ℕ → Result Bytes
seal_file_count p keys nonce count = do
  key ← header_key p keys
  let sealed = encrypt_block p key nonce (le 8 count)
  ok (sealed.nonce ++ sealed.ciphertext)

-- `WriteHeaderWithFlags`; `WriteHeader` is that with no flags
unfoldable pub write_header_with_flags :
    Primitives → ArchiveWriter → Bytes → ℕ → ℕ → Result ArchiveWriter
write_header_with_flags p aw nonce file_count flags = do
  sealed ← seal_file_count p aw.keys nonce file_count
  ok (
      write_header_bytes aw (record {
        magic = magic;
        version = aw.keys.version;
        recipient_block = aw.recipients;
        file_count_encrypted = sealed;
        reserved = flags ∷ replicate (reserved_size - 1) 0;
      }))

abbrev pub write_header : Primitives → ArchiveWriter → Bytes → ℕ → Result ArchiveWriter
write_header p aw nonce file_count = write_header_with_flags p aw nonce file_count 0

-- `FileCountOffset`
unfoldable pub file_count_offset : ℕ → ℕ
file_count_offset recipient_block_len = length magic + 2 + 4 + recipient_block_len

-- `writeMetadataBlock`
unfoldable pub write_metadata_block : ArchiveWriter → MetadataBlock → ArchiveWriter
write_metadata_block aw mb =
    tee_write (tee_write (tee_write aw mb.nonce) (le 4 (length mb.ciphertext))) mb.ciphertext

-- `writePadding`
unfoldable pub write_padding : ArchiveWriter → Bytes → ArchiveWriter
write_padding aw pad = tee_write (tee_write aw (le 4 (length pad))) pad

-- `startEntry`
unfoldable pub start_entry : ArchiveWriter → ArchiveWriter
start_entry aw = record aw { entry_offset = aw.offset; entry_stored = 0 }

-- the change of `aw.entryStored` by a block
unfoldable pub count_stored : ArchiveWriter → DataBlock → ArchiveWriter
count_stored aw db = record aw {
  entry_stored = (aw.entry_stored + (length db.ciphertext + (2 ^ 64 - gcm_tag_size))) % 2 ^ 64;
}

-- `writeDataBlock`, also `AppendDataBlock`
unfoldable pub write_data_block : ArchiveWriter → DataBlock → ArchiveWriter
write_data_block aw db =
    tee_write (tee_write (tee_write (count_stored aw db) db.nonce) (le 4 (length db.ciphertext)))
      db.ciphertext

-- the loop of `WriteFileEntry`
unfoldable pub write_data_blocks : ArchiveWriter → List DataBlock → ArchiveWriter
write_data_blocks aw [] = aw
write_data_blocks aw (db ∷ dbs) = write_data_blocks (write_data_block aw db) dbs

-- `writeTrailer`
unfoldable pub write_trailer : ArchiveWriter → FileTrailer → ArchiveWriter
write_trailer aw t =
    tee_write
      (tee_write
        (tee_write (tee_write (write_padding aw t.random_padding) t.plaintext_hmac_nonce)
          (le 4 (length t.plaintext_hmac_sealed)))
        t.plaintext_hmac_sealed)
      t.entry_checksum

-- make([]byte, crypto.NonceSize+4)
abbrev pub sentinel : Bytes
sentinel = replicate (nonce_size + 4) 0

-- `WriteFileEntry`
unfoldable pub write_file_entry : ArchiveWriter → FileEntry → ArchiveWriter
write_file_entry aw entry =
    write_trailer
      (tee_write
        (write_data_blocks
          (write_padding
            (write_metadata_block
              (tee_write
                (tee_write (tee_write (start_entry aw) (entry.entry_type ∷ [])) entry.entry_salt)
                entry.frame_hdr)
              entry.metadata)
            entry.inter_block_pad)
          entry.data_blocks)
        sentinel)
      entry.trailer

-- `BeginFileEntry`, `AppendDataBlock`, `EndFileEntry`
unfoldable pub begin_file_entry :
    ArchiveWriter → ℕ → Bytes → Bytes → MetadataBlock → Bytes → ArchiveWriter
begin_file_entry aw entry_type salt frame_hdr meta inter_pad =
    write_padding
      (write_metadata_block
        (tee_write (tee_write (tee_write (start_entry aw) (entry_type ∷ [])) salt) frame_hdr) meta)
      inter_pad

unfoldable pub append_data_block : ArchiveWriter → DataBlock → ArchiveWriter
append_data_block aw db = write_data_block aw db

unfoldable pub end_file_entry : ArchiveWriter → FileTrailer → ArchiveWriter
end_file_entry aw trailer = write_trailer (tee_write aw sentinel) trailer

-- `LastEntry`
unfoldable pub last_entry : ArchiveWriter → ℕ × ℕ
last_entry aw = (aw.entry_offset, aw.entry_stored)

-- `WriteDirectoryLocator`
unfoldable pub write_directory_locator : ArchiveWriter → ℕ → ArchiveWriter
write_directory_locator aw offset = tee_write aw (append_directory_locator [] offset)

-- what `WriteFooter` does once the end marker is written; the footer bypasses the tee
unfoldable pub finish_footer : (Bytes → Bytes) → ArchiveWriter → ArchiveWriter
finish_footer sha256 aw =
    let (checksum, hasher) = sum sha256 aw.hasher [] in
    record aw {
      out = aw.out ++ (checksum ++ replicate reserved_size 0);
      hasher = hasher;
      checksum = checksum;
    }

-- `WriteFooter`
unfoldable pub write_footer : (Bytes → Bytes) → ArchiveWriter → ArchiveWriter
write_footer sha256 aw = finish_footer sha256 (tee_write aw (entry_type_end ∷ []))

-- `WriteCheckpointFooter`
unfoldable pub write_checkpoint_footer :
    {State : Type 0} → (Bytes → Bytes) → StreamHash State → ArchiveWriter → ℕ → Result ArchiveWriter
write_checkpoint_footer sha256 hash aw last_index = do
  state ← marshal_binary hash aw.hasher
  cp ← marshal_checkpoint (record { last_index = last_index; hash_state = state })
  ok (write_footer sha256 (tee_write aw cp))
