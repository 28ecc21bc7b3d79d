-- ===== src/EndToEnd.antt =====
-- Composition: what the archivers of io/concurrent.go and io/solid.go seal, the extractor of
-- io/extractor.go lists.
use sarc.Prelude.{
  ℕ, ◌^◌, ◌≤◌, ◌<◌, ◌≡◌, refl, ◌⊎◌, inl, inr, false, some, List, [], ◌∷◌, ◌++◌, All, arith,
}
use sarc.Prelude.{ltb, length}
use sarc.Prelude.Int.{pos, to_i64-pos}
use sarc.Bytes.{Bytes}
use sarc.Result.{ok}
use sarc.Attributes.RoundTrip as AttributesRoundTrip
use sarc.Crypto.{Primitives, salt_size, nonce_size}
use sarc.Keys.{KeySchedule}
use sarc.Metadata.{codec_none, codec_zstd}
use sarc.Solid.{SolidMember, append_members, max_solid_stream_size}
use sarc.Solid.RoundTrip as SolidRoundTrip
use sarc.Solid.RoundTrip.{parse_solid_stream-append}
use sarc.Format.{FileEntry, entry_type_solid}
use sarc.Writer.Layout
use sarc.Reader.{got}
use sarc.Extractor.Blocks.{decompress, within_limit}
use sarc.Extractor.Entries.Sealed.{head_bytes}
use sarc.Extractor.Listing.{
  ListResult, Decoders, solid_stream, solid_decoded, list_members, list_entry, file_result,
  with_attributes, codec_name,
}
use sarc.Extractor.Listing.Sealed.{IsReadable, list_entry-file, list_entry-solid}
use sarc.Frames.{InputFile, EntrySummary, encrypt_file, seal_payload_entry, file_metadata}
use sarc.Frames.Chunks.{IsCompressor}
use sarc.Frames.Entries.{encrypt_file-IsSealed, seal_payload_entry-IsSealed, payload_metadata}

-- `payload` is what sealSolidEntry makes of `stream`: the stream itself, or what the solid compressor
-- makes of it, which the solid decompressor decodes.
abbrev pub IsEncoded : Decoders → ℕ → Bytes → Bytes → Type 0
IsEncoded decs codec payload stream =
    ((codec ≡ codec_none) × (payload ≡ stream))
    ⊎ ((codec ≡ codec_zstd) × (decs.solid payload ≡ some stream))

module _ (p : Primitives) (keys : KeySchedule) (good : IsReadable p keys) (decs : Decoders) where
  -- An entry that encryptFile returned lists, whatever follows it, as one result with the file's name,
  -- the size of its contents, its codec, and its kind, mode, link target and time; the reader stands
  -- behind the entry. The keys are of a later version than Version1, opening a sealed text gives it
  -- back and HMACs have 32 bytes, the file's permissions and attributes fit their Go types, its size is below 2^63,
  -- the salt and the nonces have their sizes, and the compressor adds at most zstdMaxOverhead bytes to
  -- an input of at most MaxChunkSize.
  pub list_entry-encrypt_file :
      (compress : Bytes → Bytes) (salt name_nonce meta_nonce : Bytes) (file : InputFile)
      (random left rest : Bytes) (e : FileEntry) (sum : EntrySummary)
      → IsCompressor compress
      → length salt ≡ salt_size
      → length name_nonce ≡ nonce_size
      → length meta_nonce ≡ nonce_size
      → file.permissions < 2 ^ 32
      → AttributesRoundTrip.InRange file.attributes
      → length file.contents < 2 ^ 63
      → encrypt_file p keys compress salt name_nonce meta_nonce file random ≡ (got (e, sum), left)
      → (r : ListResult) × (list_entry p decs keys e.entry_type
            (head_bytes e ++ (Layout.entry_body e ++ rest))
          ≡ (got (r ∷ []), rest))
        × (r.filename ≡ file.name)
        × (r.original_bytes ≡ pos (length file.contents))
        × (r.codec ≡ codec_name file.codec)
        × (r.kind ≡ file.attributes.kind)
        × (r.mode ≡ file.attributes.mode)
        × (r.link_target ≡ file.attributes.link_target)
        × (r.mod_time ≡ file.attributes.mod_time)
  unfolding file_result with_attributes file_metadata
  list_entry-encrypt_file compress salt name_nonce meta_nonce file random left rest e sum comp hs
        hnn hn perms attrs fits h =
      let (payload, kind, sealed, named, _, _) =
        encrypt_file-IsSealed p keys good compress salt name_nonce meta_nonce file random left e sum
          comp hs hnn hn perms attrs h in
      (
        _,
        list_entry-file p keys good decs e _ payload file.contents rest file.name e.entry_type
            (λ q. omega (arith, q, kind)) sealed (omega (arith, fits)) named,
        refl,
        to_i64-pos (length file.contents) fits,
        refl,
        refl,
        refl,
        refl,
        refl,
      )

  -- The stream that the reader decodes is the one that was encoded.
  solid_stream-encoded :
      (codec : ℕ) (payload stream : Bytes)
      → length stream ≤ max_solid_stream_size
      → IsEncoded decs codec payload stream
      → solid_stream decs codec payload ≡ got stream
  unfolding solid_stream decompress within_limit solid_decoded
  solid_stream-encoded codec payload stream small (inl (plain, same)) =
      rw (plain, same) (rw (not_more (length stream) small) refl)
    where
      not_more : (n : ℕ) → n ≤ max_solid_stream_size → ltb max_solid_stream_size n ≡ false
      not_more n q = ground arith
  solid_stream-encoded codec payload stream small (inr (zstd, decodes)) =
      rw (zstd, decodes) (rw (not_more (length stream) small) refl)
    where
      not_more : (n : ℕ) → n ≤ max_solid_stream_size → ltb max_solid_stream_size n ≡ false
      not_more n q = ground arith

  -- A solid entry that sealPayloadEntry returned for the stream of some members lists, whatever follows
  -- it, as these members in their order. The keys are of a later version than Version1, opening a
  -- sealed text gives it back and HMACs have 32 bytes, the members fit their Go types, there is at least one, the
  -- stream is at most MaxSolidStreamSize, and the payload is the stream or a text that the solid
  -- decompressor decodes to it; the salt and the nonce have their sizes.
  pub list_entry-seal_payload_entry :
      (salt meta_nonce : Bytes) (codec : ℕ) (payload stream random left rest : Bytes)
      (m : SolidMember) (ms : List SolidMember) (e : FileEntry)
      → length salt ≡ salt_size
      → length meta_nonce ≡ nonce_size
      → All SolidRoundTrip.InRange (m ∷ ms)
      → append_members [] (m ∷ ms) ≡ ok stream
      → length stream ≤ max_solid_stream_size
      → IsEncoded decs codec payload stream
      → seal_payload_entry p keys salt meta_nonce entry_type_solid codec payload stream random
        ≡ (got e, left)
      → list_entry p decs keys entry_type_solid (head_bytes e ++ (Layout.entry_body e ++ rest))
        ≡ (got (list_members codec (length payload) (length stream) (m ∷ ms)), rest)
  list_entry-seal_payload_entry salt meta_nonce codec payload stream random left rest m ms e hs hn
        fit packed small encoded h =
      let (_, sealed) =
        seal_payload_entry-IsSealed p keys good salt meta_nonce entry_type_solid codec payload
          stream random left e hs hn h in
      list_entry-solid p keys good decs e (payload_metadata p keys good codec stream) payload stream
        rest (m ∷ ms) sealed (omega (arith, small))
        (solid_stream-encoded codec payload stream small encoded)
        (parse_solid_stream-append m ms stream fit packed)
