-- ===== src/SessionIndex.antt =====
-- archive/incremental.go: the session index, what one session of an incremental archive added
-- and changed.
pub mod Lists
pub mod Records
pub mod RoundTrip
use sarc.Prelude.{ℕ, zero, suc, ◌+◌, ◌-◌, ◌*◌, ◌/◌, ◌%◌, ◌^◌, ◌≤◌, ◌<◌, min}
use sarc.Prelude.{String, ◌≡◌, refl, sym, ap, ◌∙◌, subst, ◌≢◌, ◌⊎◌, inl, inr}
use sarc.Prelude.{Bool, true, false, ◌&&◌, ◌||◌, not, Option, none, some}
use sarc.Prelude.{List, [], ◌∷◌, ◌++◌, append-nil, append_assoc, arith}
use sarc.Prelude.{
  ltb, leb, ◌==◌, ◌!=◌, if◌then◌else◌, Bool-cases, ltb→lt, ltb→le, lt→ltb, le→ltb, ==→eq, eq→==,
}
use sarc.Prelude.{
  length, take, drop, replicate, All, length-append, length-replicate, All-append, append-All,
}
use sarc.Prelude.Int.{ℤ, pos, to_i64, to_u64}
use sarc.Result
use sarc.Result.{Result, Error, ok, err, panic, fail_if}
use sarc.Bytes.{Bytes}
use sarc.Bytes.LittleEndian.{le}
use sarc.Bytes.Slice.{has_prefix}
use sarc.Bytes.Varint
use sarc.Bytes.Varint.{zigzag}
use sarc.Decode.{pure, ◌>>=◌}
use sarc.Names.{valid_entry_name}
use sarc.Attributes.{Attributes, append_attributes, kind_regular}
use sarc.Metadata.{codec_none, codec_zstd}
use sarc.Chunker.{max_cdc_chunk_size}
use sarc.IndexDecoder.{
  IndexDecoder, encode_string, Read, no_fault, uvarint, varint, count, bytes, read_byte, name,
  attributes, fail_when,
}

-- `indexMagic`, `HMACSize`, `MaxPackSize`, `MaxIndexSize`, `MaxStoredChunkSize`
abbrev pub index_magic : Bytes
index_magic = b'S' ∷ b'A' ∷ b'R' ∷ b'C' ∷ b'I' ∷ b'D' ∷ b'X' ∷ b'1' ∷ []

abbrev pub hmac_size : ℕ
hmac_size = 32

abbrev pub max_pack_size : ℕ
max_pack_size = 64 * 2 ^ 20

abbrev pub max_index_size : ℕ
max_index_size = 256 * 2 ^ 20

abbrev pub max_stored_chunk_size : ℕ
max_stored_chunk_size = max_cdc_chunk_size + 256

pub record ChunkRecord : Type 0 where
  pub id : Bytes
  pub pack : ℕ
  pub offset : ℕ
  pub stored_len : ℕ
  pub raw_len : ℕ
  pub codec : ℕ

pub record FileVersion : Type 0 where
  pub name : Bytes
  pub attributes : Attributes
  pub size : ℕ
  pub chunks : List ℕ

pub record SessionIndex : Type 0 where
  pub session : ℕ
  pub time : ℤ
  pub prev_index : ℕ
  pub first_chunk : ℕ
  pub packs : List ℕ
  pub chunks : List ChunkRecord
  pub files : List FileVersion
  pub deleted : List Bytes

-- The four loops of `Marshal`. Chunk numbers are written as differences on int64.
unfoldable pub encode_packs : List ℕ → Bytes
encode_packs [] = []
encode_packs (off ∷ packs) = Varint.uvarint off ++ encode_packs packs

unfoldable pub encode_chunk : ChunkRecord → Bytes
encode_chunk c =
    c.id
    ++ (Varint.uvarint c.pack
        ++ (Varint.uvarint c.offset
            ++ (Varint.uvarint c.stored_len ++ (Varint.uvarint c.raw_len ++ le 1 c.codec))))

unfoldable pub encode_chunks : List ChunkRecord → Bytes
encode_chunks [] = []
encode_chunks (c ∷ cs) = encode_chunk c ++ encode_chunks cs

unfoldable pub encode_numbers : ℕ → List ℕ → Bytes
encode_numbers prev [] = []
encode_numbers prev (n ∷ ns) =
    Varint.uvarint (zigzag (to_i64 (n + 2 ^ 64 - prev))) ++ encode_numbers n ns

-- the bytes of a file, around its encoded attributes
unfoldable pub encode_file : FileVersion → Bytes → Bytes
encode_file f attrs =
    encode_string f.name
    ++ (Varint.uvarint (length attrs)
        ++ (attrs
            ++ (Varint.uvarint f.size
                ++ (Varint.uvarint (length f.chunks) ++ encode_numbers 0 f.chunks))))

-- an entry that is not a regular file and has data
abbrev pub is_empty : List ℕ → Bool
is_empty [] = true
is_empty (n ∷ ns) = false

abbrev pub link_with_data : FileVersion → Bool
link_with_data f = f.attributes.kind != kind_regular && (f.size != 0 || not (is_empty f.chunks))

unfoldable pub append_file : Bytes → FileVersion → Result Bytes
append_file b f =
    Result.◌>>◌ (fail_if (not (valid_entry_name f.name)) (Error.failed "invalid file name")) (
      Result.◌>>◌ (fail_if (link_with_data f) (Error.failed "entry with data"))
        (Result.◌>>=◌ (append_attributes [] f.attributes) λ attrs. ok (b ++ encode_file f attrs)))

unfoldable pub append_files : Bytes → List FileVersion → Result Bytes
append_files b [] = ok b
append_files b (f ∷ fs) = Result.◌>>=◌ (append_file b f) λ out. append_files out fs

unfoldable pub append_deleted : Bytes → List Bytes → Result Bytes
append_deleted b [] = ok b
append_deleted b (n ∷ ns) =
    Result.◌>>◌ (fail_if (not (valid_entry_name n)) (Error.failed "invalid deleted name"))
      (append_deleted (b ++ encode_string n) ns)

-- `Marshal`, up to the count of files
unfoldable pub encode_head : SessionIndex → Bytes
encode_head si =
    Varint.uvarint si.session
    ++ (Varint.uvarint (zigzag si.time)
        ++ (Varint.uvarint si.prev_index
            ++ (Varint.uvarint si.first_chunk
                ++ (Varint.uvarint (length si.packs)
                    ++ (encode_packs si.packs
                        ++ (Varint.uvarint (length si.chunks) ++ encode_chunks si.chunks))))))

-- `SessionIndex.Marshal`
unfoldable pub marshal : SessionIndex → Result Bytes
marshal si =
    Result.◌>>=◌
      (append_files (index_magic ++ (encode_head si ++ Varint.uvarint (length si.files))) si.files)
      λ files.
        Result.◌>>=◌ (append_deleted (files ++ Varint.uvarint (length si.deleted)) si.deleted) λ b.
          Result.◌>>◌ (fail_if (ltb max_index_size (length b)) (Error.failed "index size")) (ok b)

-- what `d.bytes(HMACSize)` leaves of a zeroed array when copied into it
abbrev pub copied : ℕ → Bytes → Bytes
copied n b = b ++ replicate (n - length b) 0

-- the first of the faults that `chunk` looks for
abbrev pub chunk_fault : ℕ → ChunkRecord → Option String
chunk_fault packs c =
    if leb packs c.pack
    then some "chunk in unknown pack"
    else if c.stored_len == 0
        || ltb max_stored_chunk_size c.stored_len
        || c.raw_len == 0
        || ltb max_cdc_chunk_size c.raw_len
    then some "chunk size out of range"
    else if ltb max_pack_size c.offset || ltb (max_pack_size - c.offset) c.stored_len
    then some "chunk past pack end"
    else if c.codec != codec_none && c.codec != codec_zstd
    then some "unknown chunk codec"
    else if c.codec == codec_none && c.stored_len != c.raw_len
    then some "stored size of uncompressed chunk differs"
    else none

abbrev pub fail_some : {A : Type 0} → Option String → A → Read A
fail_some none z d = ok (z, d)
fail_some (some what) z d = fail_when (no_fault d) what z d

-- the conversions to uint32 of a chunk's fields
abbrev pub narrow : ChunkRecord → ChunkRecord
narrow c = record c {
  pack = c.pack % 2 ^ 32;
  stored_len = c.stored_len % 2 ^ 32;
  raw_len = c.raw_len % 2 ^ 32;
}

-- `indexDecoder.chunk`
unfoldable pub chunk : ℕ → Read ChunkRecord
unfolding fail_when
chunk packs = do
  id ← bytes (pos hmac_size)
  pack ← uvarint
  offset ← uvarint
  stored ← uvarint
  raw ← uvarint
  codec ← read_byte
  (let c : ChunkRecord = record {
    id = copied hmac_size id;
    pack = pack;
    offset = offset;
    stored_len = stored;
    raw_len = raw;
    codec = codec;
  } in
      fail_some (chunk_fault packs c) (narrow c))

-- The loop of `file` over its chunk numbers, from this previous number on.
unfoldable pub numbers : ℕ → ℕ → ℕ → Read (List ℕ)
unfolding fail_when
numbers limit zero prev = pure []
numbers limit (suc k) prev = do
  z ← varint
  n ← (λ d.
      fail_when (no_fault d && leb limit ((prev + to_u64 z) % 2 ^ 64))
        "file references an unknown chunk" ((prev + to_u64 z) % 2 ^ 64) d)
  ns ← numbers limit k n
  pure (n ∷ ns)

-- `indexDecoder.file`
unfoldable pub file : ℕ → Read FileVersion
unfolding fail_when numbers
file limit = do
  n ← name
  attrs ← attributes
  size ← uvarint
  k ← count 1
  ns ← numbers limit k 0
  (let f : FileVersion = record { name = n; attributes = attrs; size = size; chunks = ns } in
      λ d. fail_when (no_fault d && link_with_data f) "directory or link with data" f d)

-- for i := range xs { xs[i] = read() }
unfoldable pub repeat : {A : Type 0} → ℕ → Read A → Read (List A)
repeat zero read = pure []
repeat (suc n) read = do x ← read; xs ← repeat n read; pure (x ∷ xs)

-- the reads of `ParseSessionIndex`
unfoldable pub session_index : Read SessionIndex
unfolding repeat chunk file
session_index = do
  session ← uvarint
  time ← varint
  prev_index ← uvarint
  first_chunk ← uvarint
  n ← count 1
  packs ← repeat n uvarint
  k ← count (hmac_size + 5)
  chunks ← repeat k (chunk (length packs))
  m ← count 5
  files ← repeat m (file ((first_chunk + length chunks) % 2 ^ 64))
  j ← count 2
  deleted ← repeat j name
  pure (record {
    session = session;
    time = time;
    prev_index = prev_index;
    first_chunk = first_chunk;
    packs = packs;
    chunks = chunks;
    files = files;
    deleted = deleted;
  })

-- the checks that end `ParseSessionIndex`
abbrev pub checked : SessionIndex → IndexDecoder → Option Error → Result SessionIndex
checked si d (some e) = err e
checked si d none =
    Result.◌>>◌ (fail_if (length d.b != 0) (Error.malformed_index "trailing bytes"))
      (Result.◌>>◌ (fail_if (si.session == 0) (Error.malformed_index "session 0")) (ok si))

-- `ParseSessionIndex`
unfoldable pub parse_session_index : Bytes → Result SessionIndex
parse_session_index b =
    Result.◌>>◌
      (fail_if (ltb max_index_size (length b) || not (has_prefix index_magic b))
        (Error.malformed_index "bad magic or size"))
      (Result.◌>>=◌
        (session_index (record { b = drop 8 b; fault = none; kind = Error.malformed_index }))
        λ (si, d). checked si d d.fault)
