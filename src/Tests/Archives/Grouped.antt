-- ===== src/Tests/Archives/Grouped.antt =====
-- Examples of solid groups: planned, packed and listed.
use sarc.Prelude.{
  ℕ, ◌+◌, ◌-◌, ◌^◌, ◌≤◌, ◌<◌, ◌≡◌, refl, Option, some, none, List, [], ◌∷◌, ◌++◌, All, arith, true,
  false, length, replicate, length-replicate,
}
use mathlib.Core.List.{Perm}
use sarc.Bytes.{Bytes}
use sarc.Attributes.{Attributes}
use sarc.Solid.{SolidMember}
use sarc.Format.{FileEntry, entry_type_solid}
use sarc.Writer.Layout
use sarc.Reader.{Fallible, panics, fails, got}
use sarc.Extractor.Entries.Sealed.{head_bytes}
use sarc.Extractor.Listing.{list_entry, ListResult}
use sarc.Planning.{
  PlanFile, plan_solid, MemberFile, SolidMemberResult, CompressionPolicy, always, build_solid_entry,
}
use sarc.Planning.Plan.{files_of, IsGroup, plan_solid-IsGroup}
use sarc.Planning.Listed.{AreListed}
use sarc.Planning.Packs.{Packs, ReportCodec, list_entry-build_solid_entry}
use sarc.Tests.Archives.{toy, toy_keys, an_entry}
use sarc.Tests.Archives.Reading.{toy-IsReadable, some_decoders}
use sarc.Tests.Archives.Sealed.{a_file, a_file-InRange, some_random, salt, nonce}

abbrev plan_file : Bytes → ℕ → PlanFile
plan_file name size = record {
  name = name;
  attributes = a_file.attributes;
  stat = some (record { is_regular = true; size = size });
}

-- two small files, a large one, and one that cannot be stat'ed
abbrev some_files : List PlanFile
some_files =
    plan_file (b'a' ∷ b'.' ∷ b'c' ∷ []) 10
    ∷ plan_file (b'b' ∷ []) 2000000
    ∷ record { name = b'd' ∷ []; attributes = a_file.attributes; stat = none }
    ∷ plan_file (b'e' ∷ b'.' ∷ b'b' ∷ []) 20
    ∷ []

plan_solid-IsGroup_example :
    Perm (files_of (plan_solid (λ b. b) some_files)) some_files
    × All IsGroup (plan_solid (λ b. b) some_files).groups
plan_solid-IsGroup_example = plan_solid-IsGroup (λ b. b) some_files

abbrev some_policy : CompressionPolicy
some_policy = record { mode = always; solid_compressor = some (λ b. b); probe_compress = λ b. b }

-- the second file cannot be read
abbrev member_files : List MemberFile
member_files =
    record { name = b'm' ∷ []; attributes = a_file.attributes; contents = some (4 ∷ 5 ∷ []) }
    ∷ record { name = b'n' ∷ []; attributes = a_file.attributes; contents = none }
    ∷ []

abbrev built : Fallible (Option FileEntry × List SolidMemberResult) × Bytes
built = build_solid_entry toy toy_keys some_policy salt nonce member_files some_random

abbrev entry_of : Fallible (Option FileEntry × List SolidMemberResult) → FileEntry
entry_of (got (some e, rs)) = e
entry_of _ = an_entry

abbrev results_of : Fallible (Option FileEntry × List SolidMemberResult) → List SolidMemberResult
results_of (got (e, rs)) = rs
results_of _ = []

built_is :
    build_solid_entry toy toy_keys some_policy salt nonce member_files some_random
    ≡ (got (some (entry_of built.0), results_of built.0), built.1)
unfolding build_solid_entry sarc.Planning.pack_members sarc.Planning.append_read_member
    sarc.Planning.appended_member sarc.Planning.built_entry sarc.Planning.seal_solid_entry
    sarc.Planning.any_packed sarc.Planning.with_stored sarc.Planning.codec_with
    sarc.Planning.codec_for sarc.Planning.compressed_with sarc.Planning.attributes_size
    sarc.Solid.solid_record_size sarc.Writer.Progress.stored_size sarc.Frames.seal_payload_entry
    sarc.Frames.frame_header sarc.Reader.read_full replicate sarc.Frames.or_fatal
    sarc.Frames.seal_metadata sarc.Metadata.marshal_metadata sarc.Metadata.attributes_part
    sarc.Frames.inter_block_padding sarc.Frames.random_range sarc.Prelude.drop sarc.Frames.two_bytes
    sarc.Bytes.LittleEndian.from_le sarc.Prelude.take sarc.Frames.seal_chunks
    sarc.Crypto.compute_hmac sarc.Crypto.derive_file_subkey sarc.Crypto.derive_key
    sarc.Crypto.encrypt_block sarc.Crypto.expand_subkey sarc.Frames.build_trailer
    sarc.Frames.encode_into sarc.Frames.encrypt_chunk sarc.Frames.next_chunk_size
    sarc.Frames.varied_size sarc.Keys.file_key sarc.Metadata.bucket_number
    sarc.Metadata.bucketize_size sarc.Solid.append_solid_record sarc.Names.valid_entry_name
    sarc.Attributes.append_attributes sarc.Attributes.validate mathlib.Core.Bool.xor
    sarc.Attributes.xattrs_size sarc.Attributes.check_xattr_names sarc.Solid.encode_record
    sarc.Bytes.LittleEndian.le sarc.Attributes.encode_attributes sarc.Attributes.encode_owner
    sarc.Attributes.encode_xattrs sarc.Attributes.owner_flags sarc.Prelude.Int.to_u64
    sarc.Names.split
built_is = refl

list_entry-build_solid_entry_example :
    (codec : ℕ) × (ms : List SolidMember) × (ls : List ListResult) × Packs member_files
      (results_of built.0)
      ms
    × ReportCodec codec (results_of built.0)
    × AreListed codec ms ls
    × (list_entry toy some_decoders toy_keys entry_type_solid
          (head_bytes (entry_of built.0) ++ (Layout.entry_body (entry_of built.0) ++ (0 ∷ [])))
        ≡ (got ls, 0 ∷ []))
list_entry-build_solid_entry_example =
    list_entry-build_solid_entry toy toy_keys toy-IsReadable some_decoders some_policy (λ b. refl)
      salt nonce member_files some_random built.1 (0 ∷ []) (entry_of built.0) (results_of built.0)
      (length-replicate 32 3) (length-replicate 12 5) (a_file-InRange, (a_file-InRange, tt))
      built_is
