-- ===== src/Frames/Entries.antt =====
-- The entries that sealPayloadEntry and encryptFile make are sealed: the reader opens them.
use sarc.Prelude.{ℕ, suc, ◌^◌, ◌<◌, ◌≡◌, refl, sym, ap, ◌∙◌, none, some, [], arith, subst}
use sarc.Prelude.{
  ◌==◌, if◌then◌else◌, length, replicate, length-replicate, length-take, Bool-cases, inl, inr,
}
use sarc.Bytes.{Bytes}
use sarc.Bytes.LittleEndian.{le}
use sarc.Attributes.RoundTrip as AttributesRoundTrip
use sarc.Crypto.{Primitives, compute_hmac, nonce_size, salt_size, hmac_size}
use sarc.Keys.{KeySchedule, file_key}
use sarc.Metadata.{PlaintextMetadata, bucketize_size, bucket_number, codec_zstd}
use sarc.Format.{FileEntry, frame_header_size, entry_type_file}
use sarc.Reader.{got, on_bind, on_read_full}
use sarc.Extractor.Blocks.Reads.{payloads}
use sarc.Extractor.Entries.{decrypt_filename}
use sarc.Extractor.Entries.Sealed.{IsSealed}
use sarc.Extractor.Listing.Sealed.{IsReadable}
use sarc.Frames.{
  FrameBuilder, frame_header, inter_block_padding, inter_block_pad_min, inter_block_pad_max,
  encode_into, encrypt_stream, seal_chunks, seal_metadata, seal_payload_entry, InputFile,
  EntrySummary, file_metadata, new_frame_builder, encrypt_file, hash_timestamp,
}
use sarc.Frames.Chunks.{
  encoded, seal_chunks-IsChunked, encrypt_stream-IsChunked, chunked-IsChunk, payloads-plain,
  IsCompressor,
}
use sarc.Frames.Parts.{
  on_random_range, bucket_number-lt, or_fatal_sound, seal_metadata_sound, decrypt-encrypt_filename,
  build_trailer_sound,
}

module _ (p : Primitives) (keys : KeySchedule) (good : IsReadable p keys) where
  length-mac : (key contents : Bytes) → length (compute_hmac p key contents) ≡ hmac_size
  unfolding compute_hmac
  length-mac key contents =
      length-take hmac_size (p.hmac key contents) (omega (arith, good.mac.length-hmac key contents))

  -- the metadata of `sealPayloadEntry`
  abbrev pub payload_metadata : ℕ → Bytes → PlaintextMetadata
  payload_metadata codec plaintext = record {
    encrypted_filename = [];
    size_bucket = bucket_number (bucketize_size (length plaintext));
    timestamp_hash = replicate 32 0;
    permissions = 0;
    codec = codec;
    attributes = none;
  }

  -- With a salt of SaltSize bytes and a nonce of NonceSize, an entry that sealPayloadEntry returns is
  -- of the type that it was given, and is sealed with the archive's keys: its metadata has the codec,
  -- its blocks hold the payload, and its trailer the HMAC and the size of the plaintext.
  pub seal_payload_entry-IsSealed :
      (salt meta_nonce : Bytes) (t codec : ℕ) (payload plaintext random left : Bytes)
      (e : FileEntry)
      → length salt ≡ salt_size
      → length meta_nonce ≡ nonce_size
      → seal_payload_entry p keys salt meta_nonce t codec payload plaintext random ≡ (got e, left)
      → (e.entry_type ≡ t) × IsSealed p keys e (payload_metadata codec plaintext) payload plaintext
  unfolding seal_payload_entry frame_header inter_block_padding
  seal_payload_entry-IsSealed salt meta_nonce t codec payload plaintext random left e hs hn h =
      let key = file_key p keys salt in
      let fb : FrameBuilder = record { key = key; compressor = none } in
      on_read_full frame_header_size _ random _ h λ frame b1 framed h1.
        or_fatal_sound p _ (seal_metadata p key meta_nonce (payload_metadata codec plaintext)) b1 _
          h1
          λ mb sealed h2.
            on_random_range inter_block_pad_min inter_block_pad_max _ b1 _ (omega arith) h2
              λ pad b2 small h3.
                on_bind (seal_chunks p (length payload) fb payload b2) _ h3 λ dbs b3 chunked h4.
                  build_trailer_sound p good.aead fb (compute_hmac p key plaintext)
                    (length plaintext) b3 _ (length-mac key plaintext) h4
                    λ tr b4 trailer opens h5.
                      let (nonced, most, opened) =
                        seal_metadata_sound p good.aead key meta_nonce
                          (payload_metadata codec plaintext) mb
                          (record {
                            size_bucket = bucket_number-lt (bucketize_size (length plaintext));
                            timestamp_hash = length-replicate 32 0;
                            permissions = omega arith;
                            attributes = tt;
                          })
                          sealed in
                      let c =
                        seal_chunks-IsChunked p fb (length payload) payload b2 b3 dbs chunked in
                      let whole : FileEntry = record {
                        entry_type = t;
                        entry_salt = salt;
                        frame_hdr = frame;
                        metadata = mb;
                        inter_block_pad = pad;
                        data_blocks = dbs;
                        trailer = tr;
                      } in
                      let same : whole ≡ e = cc h5 in
                      let is : IsSealed p keys whole (payload_metadata codec plaintext) payload
                          plaintext =
                        record {
                          head = record {
                            salt = hs;
                            frame = framed;
                            nonce = ap (length {A = ℕ}) nonced ∙ hn;
                            most = most;
                          };
                          metadata = opened;
                          padding = omega (arith, small);
                          chunks = encoded none c.pieces;
                          are_chunks =
                              chunked-IsChunk p fb payload dbs c
                                (λ b small. unfold encode_into in omega arith);
                          blocks = c.blocks;
                          joined = payloads-plain c.pieces ∙ c.joined;
                          trailer = trailer;
                          opens = opens;
                        } in
                      subst
                        (λ (z : FileEntry).
                          (z.entry_type ≡ t)
                          × IsSealed p keys z (payload_metadata codec plaintext) payload plaintext)
                        same (refl, is)

  -- With a salt of SaltSize bytes, nonces of NonceSize, permissions and attributes that fit their Go
  -- types, and a compressor that adds at most zstdMaxOverhead bytes to at most MaxChunkSize, the entry that
  -- encryptFile returns is a file entry that is sealed with the archive's keys: its metadata has the
  -- file's attributes and opens to its name, its blocks hold some payload, and its trailer the HMAC and
  -- the size of the contents. The summary has the codec and the size of the contents.
  pub encrypt_file-IsSealed :
      (compress : Bytes → Bytes) (salt name_nonce meta_nonce : Bytes) (file : InputFile)
      (random left : Bytes) (e : FileEntry) (sum : EntrySummary)
      → IsCompressor compress
      → length salt ≡ salt_size
      → length name_nonce ≡ nonce_size
      → length meta_nonce ≡ nonce_size
      → file.permissions < 2 ^ 32
      → AttributesRoundTrip.InRange file.attributes
      → encrypt_file p keys compress salt name_nonce meta_nonce file random ≡ (got (e, sum), left)
      → (payload : Bytes) × (e.entry_type ≡ entry_type_file)
        × IsSealed p keys e
            (file_metadata p (file_key p keys e.entry_salt) salt name_nonce file)
            payload
            file.contents
        × (decrypt_filename p
              (file_metadata p
                (file_key p keys e.entry_salt)
                salt
                name_nonce
                file).encrypted_filename
              (file_key p keys e.entry_salt)
            ≡ some file.name)
        × (sum.codec ≡ file.codec)
        × (sum.original ≡ length file.contents)
  unfolding encrypt_file frame_header inter_block_padding file_metadata hash_timestamp
      new_frame_builder
  encrypt_file-IsSealed compress salt name_nonce meta_nonce file random left e sum comp hs hnn hn
        perms attrs h =
      let key = file_key p keys salt in
      let fb = new_frame_builder p key file.codec compress in
      let pm = file_metadata p key salt name_nonce file in
      on_read_full frame_header_size _ random _ h λ frame b1 framed h1.
        or_fatal_sound p _ (seal_metadata p key meta_nonce pm) b1 _ h1 λ mb sealed h2.
          on_random_range inter_block_pad_min inter_block_pad_max _ b1 _ (omega arith) h2
            λ pad b2 small h3.
              on_bind (encrypt_stream p (suc (length file.contents)) fb file.contents b2) _ h3
                λ dbs b3 chunked h4.
                  build_trailer_sound p good.aead fb (compute_hmac p key file.contents)
                    (length file.contents) b3 _ (length-mac key file.contents) h4
                    λ tr b4 trailer opens h5.
                      let (nonced, most, opened) =
                        seal_metadata_sound p good.aead key meta_nonce pm mb
                          (record {
                            size_bucket = bucket_number-lt (bucketize_size file.stat_size);
                            timestamp_hash =
                                length-take 32 (p.hmac salt (le 8 file.day))
                                  (omega (arith, good.mac.length-hmac salt (le 8 file.day)));
                            permissions = perms;
                            attributes = attrs;
                          })
                          sealed in
                      let c =
                        encrypt_stream-IsChunked p fb (suc (length file.contents)) file.contents b2
                          b3 dbs chunked in
                      let whole : FileEntry = record {
                        entry_type = entry_type_file;
                        entry_salt = salt;
                        frame_hdr = frame;
                        metadata = mb;
                        inter_block_pad = pad;
                        data_blocks = dbs;
                        trailer = tr;
                      } in
                      let same : whole ≡ e = cc h5 in
                      let summary : record {
                        bucket = pm.size_bucket;
                        codec = file.codec;
                        original = length file.contents;
                      }
                          ≡ sum =
                        cc h5 in
                      let is : IsSealed p keys whole pm (payloads (encoded fb.compressor c.pieces))
                          file.contents =
                        record {
                          head = record {
                            salt = hs;
                            frame = framed;
                            nonce = ap (length {A = ℕ}) nonced ∙ hn;
                            most = most;
                          };
                          metadata = opened;
                          padding = omega (arith, small);
                          chunks = encoded fb.compressor c.pieces;
                          are_chunks =
                              chunked-IsChunk p fb file.contents dbs c
                                (bound file.codec compress comp);
                          blocks = c.blocks;
                          joined = refl;
                          trailer = trailer;
                          opens = opens;
                        } in
                      let (kind, whole_is, named, codec_is, size_is) =
                        subst
                          (λ (z : FileEntry).
                            (z.entry_type ≡ entry_type_file)
                            × IsSealed p keys z
                                (file_metadata p (file_key p keys z.entry_salt) salt name_nonce
                                  file)
                                (payloads (encoded fb.compressor c.pieces)) file.contents
                            × (decrypt_filename p
                                  (file_metadata p (file_key p keys z.entry_salt) salt name_nonce
                                    file).encrypted_filename
                                  (file_key p keys z.entry_salt)
                                ≡ some file.name)
                            × (sum.codec ≡ file.codec)
                            × (sum.original ≡ length file.contents))
                          same
                          (
                            refl,
                            is,
                            decrypt-encrypt_filename p good.aead key name_nonce file.name hnn,
                            ap (λ (z : EntrySummary). z.codec) (sym summary),
                            ap (λ (z : EntrySummary). z.original) (sym summary),
                          ) in
                      (
                        payloads (encoded fb.compressor c.pieces),
                        kind,
                        whole_is,
                        named,
                        codec_is,
                        size_is,
                      )
    where
      bound :
          (codec : ℕ) (z : Bytes → Bytes)
          → IsCompressor z
          → IsCompressor (encode_into (if codec == codec_zstd then some z else none))
      bound codec z hz b small = elim (Bool-cases (codec == codec_zstd)) [
        | inl yes_zstd ↦ rw yes_zstd (unfold encode_into in hz b small)
        | inr other ↦ rw other (unfold encode_into in omega arith)
      ]
