-- ===== src/Frames.antt =====
-- archive/frames.go, crypto/padding.go, and the entries that io/solid.go and io/concurrent.go make with
-- them. A FrameBuilder draws its nonces, sizes and padding from one random source, `br`: a function
-- that draws reads from it. What crypto/rand delivers, a salt and nonces, is an argument.
pub mod Chunks
pub mod Parts
pub mod Entries
use sarc.Prelude.{
  ℕ, zero, suc, ◌+◌, ◌-◌, ◌*◌, ◌%◌, ◌^◌, ◌≡◌, Bool, true, false, Option, none, some, List, [], ◌∷◌,
  ◌++◌, min,
}
use sarc.Prelude.{ltb, ◌==◌, if◌then◌else◌, length, take, drop, replicate}
use sarc.Bytes.{Bytes}
use sarc.Bytes.LittleEndian.{le, from_le}
use sarc.Result
use sarc.Result.{Result}
use sarc.Attributes.{Attributes}
use sarc.Crypto.{Primitives, EncryptedBlock, encrypt_block, compute_hmac, nonce_size, hmac_size}
use sarc.Keys.{KeySchedule, file_key}
use sarc.Metadata.{
  PlaintextMetadata, marshal_metadata, bucketize_size, bucket_number, codec_none, codec_zstd,
}
use sarc.Format.{
  MetadataBlock, DataBlock, FileTrailer, FileEntry, frame_header_size, entry_type_file,
}
use sarc.Reader.{
  ArchiveError, fatal, write_failed, Fallible, panics, fails, got, Reading, pure, lift, ◌>>=◌,
  read_full,
}

-- `interBlockPadMin`, `interBlockPadMax`, `TrailerPadMin`, `TrailerPadMax`
abbrev pub inter_block_pad_min : ℕ
inter_block_pad_min = 256

abbrev pub inter_block_pad_max : ℕ
inter_block_pad_max = 1024

abbrev pub trailer_pad_min : ℕ
trailer_pad_min = 512

abbrev pub trailer_pad_max : ℕ
trailer_pad_max = 2048

-- `BaseBlockSize`, `BlockVariance`
abbrev pub base_block_size : ℕ
base_block_size = 256 * 1024

abbrev pub block_variance : ℕ
block_variance = 32 * 1024

-- `FrameBuilder`: the key of its EncryptionManager, and EncodeAll of its compressor, if it has one
pub record FrameBuilder : Type 0 where
  pub key : Bytes
  pub compressor : Option (Bytes → Bytes)

-- int(b[0])<<8|int(b[1])
unfoldable pub two_bytes : Bytes → ℕ
two_bytes b = from_le (take 1 b) * 256 + from_le (take 1 (drop 1 b))

-- `secureRandomRange` of a PaddingManager, also `randomRange` of a FrameBuilder
unfoldable pub random_range : ℕ → ℕ → ArchiveError → Reading Bytes
random_range least most e = do
  b ← read_full 2 e
  read_full (least + two_bytes b % (most - least + 1)) e

-- `RandomVarianceGenerator.Next` for `BlockVariance`, added to `BaseBlockSize`
unfoldable pub varied_size : Bytes → ℕ
varied_size b = base_block_size + two_bytes b % (2 * block_variance + 1) - block_variance

-- `NextChunkSize`; with too short a source the variance is 0
unfoldable pub next_chunk_size : Reading ℕ
next_chunk_size b =
    if ltb (length b) 2
    then (got base_block_size, [])
    else (got (if ltb (varied_size b) 1 then 1 else varied_size b), drop 2 b)

-- `FrameHeader`, `InterBlockPadding`
unfoldable pub frame_header : Reading Bytes
frame_header = read_full frame_header_size (fatal write_failed "frame header")

unfoldable pub inter_block_padding : Reading Bytes
inter_block_padding =
    random_range inter_block_pad_min inter_block_pad_max (fatal write_failed "inter-block padding")

-- `encodeInto`
unfoldable pub encode_into : Option (Bytes → Bytes) → Bytes → Bytes
encode_into none plaintext = plaintext
encode_into (some compress) plaintext = compress plaintext

-- An int64 that is 0 on a timestamp's day boundary: `HashTimestamp` of the day that it names.
unfoldable pub hash_timestamp : Primitives → Bytes → ℕ → Bytes
hash_timestamp p salt day = take 32 (p.hmac salt (le 8 day))

module _ (p : Primitives) where
  -- `EncryptChunk`
  unfoldable pub encrypt_chunk : FrameBuilder → Bytes → Reading DataBlock
  encrypt_chunk fb plaintext = do
    nonce ← read_full nonce_size (fatal write_failed "encrypt chunk")
    let b = encrypt_block p fb.key nonce (encode_into fb.compressor plaintext)
    pure (record { nonce = b.nonce; ciphertext = b.ciphertext })

  -- a turn of `EncryptStream` that asks for `size` bytes, with the turns that are left
  unfoldable pub encrypt_read :
      FrameBuilder → Bytes → ℕ → (Bytes → Reading (List DataBlock)) → Reading (List DataBlock)
  encrypt_read fb plaintext size rest =
      if ltb (length plaintext) size
      then (if length plaintext == 0
          then pure []
          else (do db ← encrypt_chunk fb plaintext; pure (db ∷ [])))
      else (do
        db ← encrypt_chunk fb (take size plaintext)
        dbs ← rest (drop size plaintext)
        pure (db ∷ dbs))

  -- `EncryptStream`, also with a compressor, on a reader that holds `plaintext`
  unfoldable pub encrypt_stream : ℕ → FrameBuilder → Bytes → Reading (List DataBlock)
  encrypt_stream zero fb plaintext = lift panics
  encrypt_stream (suc fuel) fb plaintext = do
    size ← next_chunk_size
    encrypt_read fb plaintext size (encrypt_stream fuel fb)

  -- the loop of `sealPayloadEntry`
  unfoldable pub seal_chunks : ℕ → FrameBuilder → Bytes → Reading (List DataBlock)
  seal_chunks zero fb payload = if length payload == 0 then pure [] else lift panics
  seal_chunks (suc fuel) fb payload = if length payload == 0 then pure [] else (do
    size ← next_chunk_size
    db ← encrypt_chunk fb (take (min size (length payload)) payload)
    dbs ← seal_chunks fuel fb (drop (min size (length payload)) payload)
    pure (db ∷ dbs))

  -- `BuildTrailer`
  unfoldable pub build_trailer : FrameBuilder → Bytes → ℕ → Reading FileTrailer
  build_trailer fb plaintext_hmac plaintext_size = do
    pad ← random_range trailer_pad_min trailer_pad_max (fatal write_failed "build trailer")
    nonce ← read_full nonce_size (fatal write_failed "build trailer")
    let sealed = encrypt_block p fb.key nonce (plaintext_hmac ++ le 8 plaintext_size)
    cs ← read_full 8 (fatal write_failed "build trailer")
    pure (record {
      random_padding = pad;
      plaintext_hmac_nonce = sealed.nonce;
      plaintext_hmac_sealed = sealed.ciphertext;
      entry_checksum = cs;
    })

  -- `Seal` of a MetadataManager, with the nonce that EncryptBlock draws
  unfoldable pub seal_metadata : Bytes → Bytes → PlaintextMetadata → Result MetadataBlock
  seal_metadata key nonce pm = Result.◌>>=◌ (marshal_metadata pm) λ raw.
      let b = encrypt_block p key nonce raw in
      Result.ok (record { nonce = b.nonce; ciphertext = b.ciphertext })

  -- `encryptFilename`, with the nonce that EncryptBlock draws
  unfoldable pub encrypt_filename : Bytes → Bytes → Bytes → Bytes
  encrypt_filename key nonce name =
      let b = encrypt_block p key nonce name in b.nonce ++ b.ciphertext

  -- a call whose error the caller replaces
  unfoldable pub or_fatal : {A : Type 0} → ArchiveError → Result A → Fallible A
  or_fatal e Result.panic = panics
  or_fatal e (Result.err cause) = fails e
  or_fatal e (Result.ok a) = got a

  -- `sealPayloadEntry`
  unfoldable pub seal_payload_entry :
      KeySchedule → Bytes → Bytes → ℕ → ℕ → Bytes → Bytes → Reading FileEntry
  seal_payload_entry keys salt meta_nonce entry_type codec payload plaintext = do
    let key = file_key p keys salt
    let fb : FrameBuilder = record { key = key; compressor = none }
    frame_hdr ← frame_header
    meta ← lift (
        or_fatal (fatal write_failed "seal metadata") (
          seal_metadata key meta_nonce (record {
            encrypted_filename = [];
            size_bucket = bucket_number (bucketize_size (length plaintext));
            timestamp_hash = replicate 32 0;
            permissions = 0;
            codec = codec;
            attributes = none;
          })))
    inter_pad ← inter_block_padding
    blocks ← seal_chunks (length payload) fb payload
    trailer ← build_trailer fb (compute_hmac p key plaintext) (length plaintext)
    pure (record {
      entry_type = entry_type;
      entry_salt = salt;
      frame_hdr = frame_hdr;
      metadata = meta;
      inter_block_pad = inter_pad;
      data_blocks = blocks;
      trailer = trailer;
    })

-- What `encryptFile` finds of a file: its name in the archive, the size and times that Stat returned,
-- its attributes, and its contents; and the codec that the compression policy chooses.
pub record InputFile : Type 0 where
  pub name : Bytes
  pub stat_size : ℕ
  pub day : ℕ
  pub permissions : ℕ
  pub attributes : Attributes
  pub contents : Bytes
  pub codec : ℕ

-- `entrySummary`
pub record EntrySummary : Type 0 where
  pub bucket : ℕ
  pub codec : ℕ
  pub original : ℕ

module _ (p : Primitives) where
  -- the metadata of `encryptFile`
  unfoldable pub file_metadata : Bytes → Bytes → Bytes → InputFile → PlaintextMetadata
  file_metadata key salt name_nonce file = record {
    encrypted_filename = encrypt_filename p key name_nonce file.name;
    size_bucket = bucket_number (bucketize_size file.stat_size);
    timestamp_hash = hash_timestamp p salt file.day;
    permissions = file.permissions;
    codec = file.codec;
    attributes = some file.attributes;
  }

  -- `newFrameBuilder` of a compression policy with this compressor
  unfoldable pub new_frame_builder : Bytes → ℕ → (Bytes → Bytes) → FrameBuilder
  new_frame_builder key codec compress = record {
    key = key;
    compressor = if codec == codec_zstd then some compress else none;
  }

  -- `encryptFile`
  unfoldable pub encrypt_file :
      KeySchedule
      → (Bytes → Bytes)
      → Bytes
      → Bytes
      → Bytes
      → InputFile
      → Reading (FileEntry × EntrySummary)
  encrypt_file keys compress salt name_nonce meta_nonce file = do
    let key = file_key p keys salt
    let fb = new_frame_builder key file.codec compress
    let pm = file_metadata key salt name_nonce file
    frame_hdr ← frame_header
    meta ←
        lift (or_fatal p (fatal write_failed "seal metadata") (seal_metadata p key meta_nonce pm))
    inter_pad ← inter_block_padding
    blocks ← encrypt_stream p (suc (length file.contents)) fb file.contents
    trailer ← build_trailer p fb (compute_hmac p key file.contents) (length file.contents)
    pure (
      record {
        entry_type = entry_type_file;
        entry_salt = salt;
        frame_hdr = frame_hdr;
        metadata = meta;
        inter_block_pad = inter_pad;
        data_blocks = blocks;
        trailer = trailer;
      },
      record { bucket = pm.size_bucket; codec = file.codec; original = length file.contents },
    )
