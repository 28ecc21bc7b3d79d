-- ===== src/Tests/Entries.antt =====
-- Examples of metadata, solid groups and directories.
use sarc.Prelude.{
  ℕ, ◌^◌, ◌≤◌, ◌≡◌, refl, ◌≢◌, [], ◌∷◌, ◌++◌, length, drop, replicate, true, some, arith,
}
use sarc.Result.{ok, panic}
use sarc.Bytes.{Bytes}
use sarc.Bytes.LittleEndian.{le}
use sarc.Bytes.Varint
use sarc.Names.{valid_entry_name}
use mathlib.Core.Bool.{xor}
use sarc.Attributes.{
  append_attributes, encode_attributes, encode_owner, encode_xattrs, encode_xattr, validate,
  xattrs_size, check_xattr_names,
}
use sarc.Metadata.{attributes_part, PlaintextMetadata, marshal_metadata, unmarshal_metadata}
use sarc.Metadata.RoundTrip as Metadata
use sarc.Solid.{encode_record, SolidMember, append_members, append_solid_record, parse_solid_stream}
use sarc.Solid.RoundTrip as Solid
use sarc.Solid.Safety.{parse_solid_stream-ne-panic}
use sarc.IndexDecoder.{encode_string}
use sarc.Directory as DirectoryCode
use sarc.Directory.{
  append_directory_record, DirectoryRecord, directory_magic, max_directory_size, append_records,
  parse_directory, append_directory_locator, parse_directory_locator,
}
use sarc.Directory.RoundTrip as Directory
use sarc.Directory.Overflow.{record_start, parse_directory_overflow}
use sarc.Directory.Locator.{parse_directory_locator-append}
use sarc.Tests.{bytes_of, a_name, some_attributes}
use sarc.Tests.Names.{some_attributes-InRange}

abbrev some_metadata : PlaintextMetadata
some_metadata = record {
  encrypted_filename = 1 ∷ 2 ∷ [];
  size_bucket = 0;
  timestamp_hash = replicate 32 9;
  permissions = 420;
  codec = 1;
  attributes = some some_attributes;
}

abbrev metadata_bytes : Bytes
metadata_bytes = bytes_of (marshal_metadata some_metadata)

metadata_is : marshal_metadata some_metadata ≡ ok metadata_bytes
unfolding marshal_metadata attributes_part append_attributes validate xor xattrs_size
    check_xattr_names replicate
metadata_is = refl

metadata_hash : length {A = ℕ} (replicate 32 9) ≡ 32
unfolding replicate
metadata_hash = refl

unmarshal-marshal_metadata_example : unmarshal_metadata metadata_bytes ≡ ok some_metadata
unmarshal-marshal_metadata_example =
    Metadata.unmarshal-marshal_metadata some_metadata metadata_bytes
      (record {
        size_bucket = omega arith;
        timestamp_hash = metadata_hash;
        permissions = omega arith;
        attributes = some_attributes-InRange;
      })
      metadata_is

abbrev some_member : SolidMember
some_member = record { name = a_name; attributes = some_attributes; contents = 5 ∷ 6 ∷ [] }

abbrev stream_bytes : Bytes
stream_bytes = bytes_of (append_members [] (some_member ∷ []))

stream_is : append_members [] (some_member ∷ []) ≡ ok stream_bytes
unfolding append_members append_solid_record valid_entry_name append_attributes validate xor
    xattrs_size check_xattr_names
stream_is = refl

parse_solid_stream-append_example : parse_solid_stream stream_bytes ≡ ok (some_member ∷ [])
parse_solid_stream-append_example =
    Solid.parse_solid_stream-append some_member [] stream_bytes
      (record { attributes = some_attributes-InRange; contents = omega arith }, tt) stream_is

record_is : append_solid_record [] some_member ≡ ok stream_bytes
unfolding append_solid_record append_members encode_record valid_entry_name append_attributes
    validate xor xattrs_size check_xattr_names
record_is = refl

parse_solid_stream-ne-panic_example : parse_solid_stream (3 ∷ 0 ∷ 1 ∷ []) ≢ panic
parse_solid_stream-ne-panic_example = parse_solid_stream-ne-panic (3 ∷ 0 ∷ 1 ∷ []) (omega arith)

abbrev some_record : DirectoryRecord
some_record = record {
  offset = 300;
  name = a_name;
  attributes = some_attributes;
  size_bucket = 1;
  codec = 1;
  solid = true;
  original_size = 2000;
  stored_size = 900;
}

abbrev directory_bytes : Bytes
directory_bytes = bytes_of (append_records directory_magic (some_record ∷ []))

directory_is : append_records directory_magic (some_record ∷ []) ≡ ok directory_bytes
unfolding append_records append_directory_record valid_entry_name append_attributes validate xor
    xattrs_size check_xattr_names
directory_is = refl

directory_short : length directory_bytes ≤ max_directory_size
unfolding append_records append_directory_record valid_entry_name append_attributes validate xor
    xattrs_size check_xattr_names DirectoryCode.encode_record Varint.uvarint Varint.put_uvarint
    encode_string le encode_attributes encode_owner encode_xattrs encode_xattr
directory_short = omega arith

parse_directory-append_example : parse_directory directory_bytes ≡ ok (some_record ∷ [])
parse_directory-append_example =
    Directory.parse_directory-append (some_record ∷ []) directory_bytes
      (
        record {
          offset = omega arith;
          attributes = some_attributes-InRange;
          size_bucket = omega arith;
          codec = omega arith;
          original_size = omega arith;
          stored_size = omega arith;
        },
        tt,
      )
      directory_is directory_short

parse_directory_locator-append_example :
    parse_directory_locator (drop 3 (append_directory_locator (1 ∷ 2 ∷ 3 ∷ []) 70000)) ≡ ok 70000
parse_directory_locator-append_example =
    parse_directory_locator-append (1 ∷ 2 ∷ 3 ∷ []) 70000 (omega arith)

name_valid : valid_entry_name a_name ≡ true
unfolding valid_entry_name
name_valid = refl

overflow_short :
    length (directory_magic ++ (record_start 26 a_name 0 0 0 (2 ^ 63) ++ (1 ∷ [])))
    ≤ max_directory_size
unfolding record_start Varint.uvarint Varint.put_uvarint encode_string le
overflow_short = omega arith

parse_directory_overflow_example :
    parse_directory (directory_magic ++ (record_start 26 a_name 0 0 0 (2 ^ 63) ++ (1 ∷ []))) ≡ panic
parse_directory_overflow_example =
    parse_directory_overflow 26 a_name 0 0 0 (2 ^ 63) (1 ∷ []) (omega arith) name_valid
      (omega arith) (omega arith) (omega arith) (omega arith) (omega arith) overflow_short
