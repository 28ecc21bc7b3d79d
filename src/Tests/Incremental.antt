-- ===== src/Tests/Incremental.antt =====
-- An example of a session index: one pack with two chunks, a file made of them, a deleted name.
use sarc.Prelude.{ℕ, ◌≡◌, refl, [], ◌∷◌, replicate, arith}
use mathlib.Core.Bool.{xor}
use sarc.Prelude.Int.{pos, to_i64, to_u64}
use sarc.Result.{ok}
use sarc.Bytes.{Bytes}
use sarc.Bytes.LittleEndian.{le}
use sarc.Bytes.Varint
use sarc.Bytes.Varint.{zigzag}
use sarc.Names.{valid_entry_name}
use sarc.Attributes.{
  append_attributes, encode_attributes, encode_owner, encode_xattr, encode_xattrs, owner_flags,
  validate, xattrs_size, check_xattr_names,
}
use sarc.IndexDecoder.{encode_string}
use sarc.SessionIndex.{
  encode_head, encode_packs, encode_chunks, encode_chunk, encode_file, encode_numbers, ChunkRecord,
  FileVersion, SessionIndex, marshal, append_files, append_file, append_deleted,
  parse_session_index,
}
use sarc.SessionIndex.Records.{IsChunk, IsFile}
use sarc.SessionIndex.RoundTrip.{InRange, parse_session_index-marshal}
use sarc.Tests.{bytes_of, a_name, some_attributes}
use sarc.Tests.Names.{some_attributes-InRange}

abbrev chunk_at : ℕ → ℕ → ChunkRecord
chunk_at id offset = record {
  id = replicate 32 id;
  pack = 0;
  offset = offset;
  stored_len = 900;
  raw_len = 1000;
  codec = 1;
}

abbrev some_file : FileVersion
some_file = record {
  name = a_name;
  attributes = some_attributes;
  size = 2000;
  chunks = 8 ∷ 7 ∷ 8 ∷ [];
}

abbrev some_index : SessionIndex
some_index = record {
  session = 2;
  time = pos 1700000000;
  prev_index = 4096;
  first_chunk = 7;
  packs = 9000 ∷ [];
  chunks = chunk_at 1 0 ∷ chunk_at 2 900 ∷ [];
  files = some_file ∷ [];
  deleted = (b'b' ∷ []) ∷ [];
}

chunk_at-IsChunk : (id : ℕ) → IsChunk 1 (chunk_at id 900) × IsChunk 1 (chunk_at id 0)
unfolding replicate
chunk_at-IsChunk id = (
  record { id = refl; pack = omega arith; no_fault = refl },
  record { id = refl; pack = omega arith; no_fault = refl },
)

some_file-IsFile : IsFile 9 some_file
some_file-IsFile = record {
  attributes = some_attributes-InRange;
  size = omega arith;
  count = omega arith;
  below = omega arith;
}

some_index-InRange : InRange some_index
some_index-InRange = record {
  session = omega arith;
  some_session = λ e. cc e;
  time = omega arith;
  prev_index = omega arith;
  first_chunk = omega arith;
  packs = (omega arith, tt);
  chunks = ((chunk_at-IsChunk 1).1, ((chunk_at-IsChunk 2).0, tt));
  files = (some_file-IsFile, tt);
}

abbrev index_bytes : Bytes
index_bytes = bytes_of (marshal some_index)

index_is : marshal some_index ≡ ok index_bytes
unfolding marshal append_files append_file append_deleted valid_entry_name append_attributes
    validate xor xattrs_size check_xattr_names encode_head Varint.uvarint Varint.put_uvarint zigzag
    encode_packs encode_chunks encode_chunk replicate le encode_file encode_string encode_attributes
    encode_owner encode_xattr encode_xattrs owner_flags to_i64 to_u64 encode_numbers
index_is = refl

parse_session_index-marshal_example : parse_session_index index_bytes ≡ ok some_index
parse_session_index-marshal_example =
    parse_session_index-marshal some_index index_bytes some_index-InRange index_is
