-- ===== src/Tests/Archives/Sealed.antt =====
-- Examples of what the archivers seal and the extractor lists.
use sarc.Prelude.{
  ℕ, ◌+◌, ◌-◌, ◌^◌, ◌≤◌, ◌<◌, ◌≡◌, refl, Option, some, none, List, [], ◌∷◌, ◌++◌, All, arith, inl,
  inr, length, replicate, length-replicate,
}
use sarc.Prelude.Int.{ℤ, pos, negsuc}
use sarc.Bytes.{Bytes}
use sarc.Attributes.{Attributes}
use sarc.Attributes.RoundTrip as AttributesRoundTrip
use sarc.Metadata.{codec_none}
use sarc.Format.{FileEntry}
use sarc.Writer.Layout
use sarc.Reader.{Fallible, panics, fails, got}
use sarc.Extractor.Entries.Sealed.{head_bytes}
use sarc.Extractor.Listing.{ListResult, list_entry, codec_name}
use sarc.Frames.{InputFile, EntrySummary, encrypt_file, seal_payload_entry}
use sarc.EndToEnd.{list_entry-encrypt_file}
use sarc.Tests.{some_attributes}
use sarc.Tests.Archives.{toy, toy_keys, an_entry}
use sarc.Tests.Archives.Reading.{toy-IsReadable, some_decoders}

abbrev pub a_file : InputFile
a_file = record {
  name = b'a' ∷ [];
  stat_size = 3;
  day = 20;
  permissions = 420;
  attributes = record some_attributes { owner = none; xattrs = [] };
  contents = 1 ∷ 2 ∷ 3 ∷ [];
  codec = codec_none;
}

abbrev pub some_random : Bytes
some_random = replicate 900 0

abbrev pub salt : Bytes
salt = replicate 32 3

abbrev pub nonce : Bytes
nonce = replicate 12 5

abbrev entry_of : Fallible (FileEntry × EntrySummary) → FileEntry
entry_of panics = an_entry
entry_of (fails e) = an_entry
entry_of (got (e, sum)) = e

abbrev sum_of : Fallible (FileEntry × EntrySummary) → EntrySummary
sum_of panics = record { bucket = 0; codec = 0; original = 0 }
sum_of (fails e) = record { bucket = 0; codec = 0; original = 0 }
sum_of (got (e, sum)) = sum

abbrev encrypted : Fallible (FileEntry × EntrySummary) × Bytes
encrypted = encrypt_file toy toy_keys (λ b. b) salt nonce nonce a_file some_random

a_file-encrypted :
    encrypt_file toy toy_keys (λ b. b) salt nonce nonce a_file some_random
    ≡ (got (entry_of encrypted.0, sum_of encrypted.0), encrypted.1)
unfolding encrypt_file sarc.Frames.frame_header sarc.Reader.read_full replicate sarc.Frames.or_fatal
    sarc.Frames.seal_metadata sarc.Metadata.marshal_metadata sarc.Frames.file_metadata
    sarc.Frames.encrypt_filename sarc.Crypto.encrypt_block sarc.Metadata.attributes_part
    sarc.Attributes.append_attributes sarc.Attributes.validate sarc.Attributes.xattrs_size
    sarc.Attributes.check_xattr_names sarc.Frames.inter_block_padding
    sarc.Attributes.encode_attributes sarc.Attributes.encode_owner sarc.Attributes.encode_xattrs
    sarc.Attributes.owner_flags sarc.Bytes.LittleEndian.from_le sarc.Bytes.LittleEndian.le
    sarc.Crypto.compute_hmac sarc.Crypto.derive_file_subkey sarc.Crypto.derive_key
    sarc.Crypto.expand_subkey sarc.Frames.build_trailer sarc.Frames.encode_into
    sarc.Frames.encrypt_chunk sarc.Frames.encrypt_read sarc.Frames.encrypt_stream
    sarc.Frames.hash_timestamp sarc.Frames.new_frame_builder sarc.Frames.next_chunk_size
    sarc.Frames.random_range sarc.Frames.two_bytes sarc.Frames.varied_size sarc.Keys.file_key
    sarc.Metadata.bucket_number sarc.Metadata.bucketize_size sarc.Prelude.Int.to_u64
    sarc.Prelude.drop sarc.Prelude.take mathlib.Core.Bool.xor
a_file-encrypted = refl

pub a_file-InRange : AttributesRoundTrip.InRange a_file.attributes
a_file-InRange = record { mode = omega arith; mod_time = omega arith; owner = tt }

list_entry-encrypt_file_example :
    (r : ListResult) × (list_entry toy some_decoders toy_keys (entry_of encrypted.0).entry_type (
        head_bytes (entry_of encrypted.0) ++ (Layout.entry_body (entry_of encrypted.0) ++ (0 ∷ [])))
      ≡ (got (r ∷ []), 0 ∷ []))
    × (r.filename ≡ a_file.name)
    × (r.original_bytes ≡ pos (length a_file.contents))
    × (r.codec ≡ codec_name a_file.codec)
    × (r.kind ≡ a_file.attributes.kind)
    × (r.mode ≡ a_file.attributes.mode)
    × (r.link_target ≡ a_file.attributes.link_target)
    × (r.mod_time ≡ a_file.attributes.mod_time)
list_entry-encrypt_file_example =
    list_entry-encrypt_file toy toy_keys toy-IsReadable some_decoders (λ b. b) salt nonce nonce
      a_file some_random encrypted.1 (0 ∷ []) (entry_of encrypted.0) (sum_of encrypted.0)
      (λ b small. omega arith) (length-replicate 32 3) (length-replicate 12 5)
      (length-replicate 12 5) (omega arith) a_file-InRange (omega arith) a_file-encrypted
