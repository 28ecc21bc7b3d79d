-- ===== src/Extractor/Listing.antt =====
-- io/extractor.go and io/solid.go: listing an archive by reading it from its start.
pub mod Sealed
pub mod Scan
use sarc.Prelude.{
  ℕ, zero, suc, ◌+◌, ◌-◌, ◌*◌, ◌/◌, ◌%◌, ◌^◌, Bool, true, false, Option, none, some, List, [], ◌∷◌,
  ◌++◌, String,
}
use sarc.Prelude.{ltb, leb, ◌==◌, if◌then◌else◌, length}
use sarc.Prelude.Int.{ℤ, pos, negsuc, to_i64}
use sarc.Bytes.{Bytes}
use sarc.Result
use sarc.Result.{Result}
use sarc.Attributes.{Attributes}
use sarc.Crypto.{Primitives}
use sarc.Keys.{KeySchedule}
use sarc.Metadata.{PlaintextMetadata, codec_none, codec_zstd, bucketize_size, bucket_number}
use sarc.Solid.{SolidMember, parse_solid_stream, max_solid_stream_size}
use sarc.Format.{entry_type_solid}
use sarc.Reader.{
  ArchiveError, fatal, recoverable, is_fatal, truncated, integrity_fail, auth_failed, Fallible,
  panics, fails, got, Reading, pure, fail, lift, ◌>>=◌, reject_if,
}
use sarc.Extractor.Framing.{skip_padding, skip_data_blocks}
use sarc.Extractor.Blocks.{decrypt_data_blocks, decompress}
use sarc.Extractor.Entries.{
  EntryHead, TrailerInfo, skip_entry_with, skip_trailer_with, read_trailer, verify_plaintext,
  decrypt_filename, read_entry_head, next_entry_type,
}

-- `ListResult`
pub record ListResult : Type 0 where
  pub filename : Bytes
  pub size_bucket : String
  pub codec : String
  pub solid : Bool
  pub original_bytes : ℤ
  pub stored_bytes : ℤ
  pub kind : ℕ
  pub mode : ℕ
  pub link_target : Bytes
  pub mod_time : ℤ
  pub err : Option ArchiveError

-- `bucketName`, of a bucket's number
unfoldable pub bucket_name : ℕ → String
bucket_name b =
    if b == 0
    then "0-1 KB"
    else if b == 1
    then "1-10 KB"
    else if b == 2
    then "10-100 KB"
    else if b == 3
    then "100 KB-1 MB"
    else ">1 MB"

-- `Codec.String`, less the number of an unknown codec
unfoldable pub codec_name : ℕ → String
codec_name c = if c == codec_none then "none" else if c == codec_zstd then "zstd" else "unknown"

-- a listing before `withAttributes`
abbrev pub plain_result : Bytes → String → String → Bool → ℤ → ℤ → ListResult
plain_result filename size_bucket codec solid original stored = record {
  filename = filename;
  size_bucket = size_bucket;
  codec = codec;
  solid = solid;
  original_bytes = original;
  stored_bytes = stored;
  kind = 0;
  mode = 0;
  link_target = [];
  mod_time = pos 0;
  err = none;
}

-- `withAttributes`; the permissions' low 9 bits are kept
unfoldable pub with_attributes : ListResult → Option Attributes → ℕ → ListResult
with_attributes r none permissions = record r { mode = permissions % 2 ^ 9 }
with_attributes r (some attrs) permissions = record r {
  kind = attrs.kind;
  mode = attrs.mode;
  link_target = attrs.link_target;
  mod_time = attrs.mod_time;
}

-- `a / b` on int64, rounded towards zero, of the int64 that `n` wraps to
unfoldable pub divided : ℤ → ℕ → ℤ
divided (pos n) d = pos (n / d)
divided (negsuc n) d = if (n + 1) / d == 0 then pos 0 else negsuc ((n + 1) / d - 1)

-- the listing of one member of `listSolidBody`
unfoldable pub list_member : ℕ → ℕ → ℕ → SolidMember → ListResult
list_member codec stored stream_size m =
    with_attributes
      (plain_result m.name (bucket_name (bucket_number (bucketize_size (length m.contents))))
        (codec_name codec) true (pos (length m.contents))
        (divided (to_i64 (length m.contents * stored)) stream_size))
      (some m.attributes) 0

unfoldable pub list_members : ℕ → ℕ → ℕ → List SolidMember → List ListResult
list_members codec stored stream_size [] = []
list_members codec stored stream_size (m ∷ ms) =
    list_member codec stored stream_size m ∷ list_members codec stored stream_size ms

-- The zstd decoders, DecodeAll of those for blocks and for solid groups, and the number of workers.
pub record Decoders : Type 0 where
  pub block : Bytes → Option Bytes
  pub solid : Bytes → Option Bytes
  pub workers : ℕ

-- the payload of a solid group, decoded by its codec
unfoldable pub solid_decoded : Option Bytes → Fallible Bytes
solid_decoded none = fails (recoverable integrity_fail "decompress solid group")
solid_decoded (some stream) = got stream

unfoldable pub solid_stream : Decoders → ℕ → Bytes → Fallible Bytes
solid_stream decs codec payload =
    if codec == codec_zstd
    then solid_decoded (decompress decs.solid max_solid_stream_size payload)
    else if ltb max_solid_stream_size (length payload)
    then fails (recoverable integrity_fail "solid group exceeds maximum size")
    else got payload

-- what a failure of `decryptDataBlocks` leaves to do: nothing if it is fatal, else skip the trailer
unfoldable pub or_skip_trailer : {A : Type 0} → Fallible A × Bytes → Fallible A × Bytes
or_skip_trailer (panics, b) = (panics, b)
or_skip_trailer (got a, b) = (got a, b)
or_skip_trailer (fails e, b) = if is_fatal e then (fails e, b) else skip_trailer_with e b

-- the loop state of `scanList` at its end: the results, and the error that stopped it
pub data Scanned : Type 0 where
  complete : List ListResult → Scanned
  stopped : List ListResult → ArchiveError → Scanned
  scan_panics : Scanned

abbrev pub decrypt_error : ArchiveError → ListResult
decrypt_error e = record {
  filename =
      b'<' ∷ b'd' ∷ b'e' ∷ b'c' ∷ b'r' ∷ b'y' ∷ b'p' ∷ b't' ∷ b' ' ∷ b'e' ∷ b'r' ∷ b'r' ∷ b'o'
      ∷ b'r' ∷ b'>' ∷ [];
  size_bucket = "?";
  codec = "?";
  solid = false;
  original_bytes = pos 0;
  stored_bytes = pos 0;
  kind = 0;
  mode = 0;
  link_target = [];
  mod_time = pos 0;
  err = some e;
}

module _ (p : Primitives) (decs : Decoders) (keys : KeySchedule) where
  -- `readSolidStream`: the stream and the length of its payload
  unfoldable pub read_solid_stream : EntryHead → Reading (Bytes × ℕ)
  read_solid_stream head = do
    _ ← skip_padding (recoverable truncated "skip inter-block padding")
    payload ← (λ b.
        or_skip_trailer (decrypt_data_blocks p decs.block decs.workers head.file_key codec_none b))
    trailer ← read_trailer p head.file_key keys.version
    stream ← lift (solid_stream decs head.pm.codec payload)
    _ ← lift (verify_plaintext p head.file_key stream trailer)
    pure (stream, length payload)

  -- the parse of `readSolidMembers`
  unfoldable pub parsed_members : Result (List SolidMember) → Fallible (List SolidMember)
  parsed_members Result.panic = panics
  parsed_members (Result.err e) = fails (recoverable integrity_fail "parse solid group")
  parsed_members (Result.ok ms) = got ms

  -- `listSolidBody`, with `readSolidMembers`
  unfoldable pub list_solid_body : EntryHead → Reading (List ListResult)
  list_solid_body head = do
    (stream, stored) ← read_solid_stream head
    members ← lift (parsed_members (parse_solid_stream stream))
    pure (list_members head.pm.codec stored (length stream) members)

  -- the end of `listFileBody`
  unfoldable pub file_result : PlaintextMetadata → Bytes → ℕ → TrailerInfo → ListResult
  file_result pm filename stored trailer =
      with_attributes
        (plain_result filename (bucket_name pm.size_bucket) (codec_name pm.codec) false
          (if trailer.has_size then to_i64 trailer.plaintext_size else pos stored) (pos stored))
        pm.attributes pm.permissions

  unfoldable pub list_named_body : EntryHead → Option Bytes → Reading ListResult
  list_named_body head none = skip_entry_with (recoverable auth_failed "decrypt filename")
  list_named_body head (some filename) = do
    _ ← skip_padding (recoverable truncated "skip inter-block padding")
    stored ← skip_data_blocks
    trailer ← read_trailer p head.file_key keys.version
    pure (file_result head.pm filename stored trailer)

  -- `listFileBody`
  unfoldable pub list_file_body : EntryHead → Reading ListResult
  list_file_body head =
      list_named_body head (decrypt_filename p head.pm.encrypted_filename head.file_key)

  unfoldable pub list_body : ℕ → EntryHead → Reading (List ListResult)
  list_body entry_type head =
      if entry_type == entry_type_solid
      then list_solid_body head
      else (do result ← list_file_body head; pure (result ∷ []))

  -- `listEntry`
  unfoldable pub list_entry : ℕ → Reading (List ListResult)
  list_entry entry_type = do head ← read_entry_head p keys; list_body entry_type head

  -- a turn of `scanList` after an entry was listed, with the turns that are left
  unfoldable pub listed :
      List ListResult
      → Fallible (List ListResult) × Bytes
      → (List ListResult → Bytes → Scanned × Bytes)
      → Scanned × Bytes
  listed results (panics, b) rest = (scan_panics, b)
  listed results (got rs, b) rest = rest (results ++ rs) b
  listed results (fails e, b) rest =
      if is_fatal e then (stopped results e, b) else rest (results ++ (decrypt_error e ∷ [])) b

  -- a turn of `scanList` after the next entry's type was read
  unfoldable pub scan_turn :
      List ListResult
      → Fallible (Option ℕ) × Bytes
      → (List ListResult → Bytes → Scanned × Bytes)
      → Scanned × Bytes
  scan_turn results (panics, b) rest = (scan_panics, b)
  scan_turn results (fails e, b) rest = (stopped results e, b)
  scan_turn results (got none, b) rest = (complete results, b)
  scan_turn results (got (some t), b) rest = listed results (list_entry t b) rest

  unfoldable pub scan : ℕ → List ListResult → Bytes → Scanned × Bytes
  scan zero results b = (scan_panics, b)
  scan (suc fuel) results b = scan_turn results (next_entry_type p keys b) (scan fuel)

  -- `scanList`, with fuel for each byte that is left and one more turn
  unfoldable pub scan_list : Bytes → Scanned × Bytes
  scan_list b = scan (suc (length b)) [] b
