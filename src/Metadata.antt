-- ===== src/Metadata.antt =====
-- archive/metadata.go: the per-file metadata that is sealed with the file's key, and the size
-- classes that stand for exact sizes. Sealing itself is the crypto package's.
pub mod RoundTrip
pub mod Buckets
pub mod Safety
use sarc.Prelude.{ℕ, zero, suc, ◌+◌, ◌-◌, ◌*◌, ◌/◌, ◌%◌, ◌^◌, ◌≤◌, ◌<◌, min}
use sarc.Prelude.{String, ◌≡◌, refl, sym, ap, ◌∙◌, subst, ◌≢◌, ◌⊎◌, inl, inr}
use sarc.Prelude.{Bool, true, false, ◌&&◌, ◌||◌, not, Option, none, some}
use sarc.Prelude.{List, [], ◌∷◌, ◌++◌, append-nil, append_assoc, arith}
use sarc.Prelude.{
  ltb, leb, ◌==◌, ◌!=◌, if◌then◌else◌, Bool-cases, ltb→lt, ltb→le, lt→ltb, le→ltb, ==→eq, eq→==,
}
use sarc.Prelude.{
  length, take, drop, replicate, All, length-append, length-replicate, All-append, append-All,
}
use sarc.Prelude.{take-append, drop-append, take-append-drop, length-take, length-drop}
use sarc.Bytes.{Bytes, IsByte, AreBytes}
use sarc.Bytes.LittleEndian.{
  le, from_le, read_le, length-le, le-AreBytes, from_le-le, from_le-lt, le-from_le,
}
use sarc.Bytes.LittleEndian.{read_le-le, read_le-le_end, read_le_then, on_read_le}
use sarc.Bytes.Slice.{cut, cut-append_eq, cut_total, cut_sound, cut-ne-panic, cut_then, on_cut}
use sarc.Bytes.Slice.{has_prefix, has_prefix-append, has_prefix_sound, nil_of_length}
use sarc.Bytes.Slice.{bytes_eq, bytes_eq_refl, bytes_eq→eq, take-append_eq, drop-append_eq}
use sarc.Result.{Result, Error, ok, err, panic, fail_if, ◌>>=◌, ◌>>◌}
use sarc.Result.{>>=-eq-ok, >>=-ne-panic, fail_if-eq-ok, fail_if-ne-panic, on_fail_if, fail_if_then}
use sarc.Attributes.{Attributes, encode_attributes, append_attributes}
use sarc.Attributes.Decoder.{parse_attributes}

-- `Codec`: its number, as the source's uint8
abbrev pub codec_none : ℕ
codec_none = 0

abbrev pub codec_zstd : ℕ
codec_zstd = 1

-- `PlaintextMetadata`; a nil `Attributes` pointer is `none`.
pub record PlaintextMetadata : Type 0 where
  pub encrypted_filename : Bytes
  pub size_bucket : ℕ
  pub timestamp_hash : Bytes
  pub permissions : ℕ
  pub codec : ℕ
  pub attributes : Option Attributes

-- `knownCodec`
abbrev pub known_codec : ℕ → Bool
known_codec c = c == codec_none || c == codec_zstd

-- the optional end of the layout
unfoldable pub attributes_part : Option Attributes → Result Bytes
attributes_part none = ok []
attributes_part (some a) = do attrs ← append_attributes [] a; ok (le 4 (length attrs) ++ attrs)

-- `marshalMetadata`
unfoldable pub marshal_metadata : PlaintextMetadata → Result Bytes
marshal_metadata pm = do
  fail_if (ltb 0xffff (length pm.encrypted_filename)) (Error.failed "filename too long")
  fail_if (not (known_codec pm.codec)) (Error.failed "unknown codec")
  attrs ← attributes_part pm.attributes
  ok (
      le 2 (length pm.encrypted_filename)
      ++ (pm.encrypted_filename
          ++ (le 1 pm.size_bucket
              ++ (pm.timestamp_hash ++ (le 4 pm.permissions ++ (le 1 pm.codec ++ attrs))))))

-- The codec byte is absent from Version1 metadata, which decodes as `codec_none`.
unfoldable pub read_codec : Bytes → Result (ℕ × Bytes)
read_codec b =
    if ltb 0 (length b)
    then (do
      (c, rest) ← read_le 1 b
      fail_if (not (known_codec c)) (Error.failed "unknown codec")
      ok (c, rest))
    else ok (codec_none, b)

-- Attributes are there if any byte is left; then they are all that is left.
unfoldable pub read_attributes : Bytes → Result (Option Attributes)
read_attributes b =
    if ltb 0 (length b)
    then (do
      fail_if (ltb (length b) 4) (Error.failed "truncated attributes length")
      (n, rest) ← read_le 4 b
      fail_if (n != length rest) (Error.failed "attributes length mismatch")
      attrs ← parse_attributes rest
      ok (some attrs))
    else ok none

-- `unmarshalMetadata`
unfoldable pub unmarshal_metadata : Bytes → Result PlaintextMetadata
unmarshal_metadata b = do
  fail_if (ltb (length b) 2) (Error.failed "truncated")
  (fn_len, b1) ← read_le 2 b
  fail_if (ltb (length b) (2 + fn_len + 1 + 32 + 4)) (Error.failed "too short")
  (filename, b2) ← cut fn_len b1
  (bucket, b3) ← read_le 1 b2
  (hash, b4) ← cut 32 b3
  (permissions, b5) ← read_le 4 b4
  (codec, b6) ← read_codec b5
  attributes ← read_attributes b6
  ok (record {
    encrypted_filename = filename;
    size_bucket = bucket;
    timestamp_hash = hash;
    permissions = permissions;
    codec = codec;
    attributes = attributes;
  })

-- `SizeBucket`: BucketTiny to BucketHuge
pub data SizeBucket : Type 0 where
  tiny small medium large huge : SizeBucket

-- the number that stands for a bucket in metadata
unfoldable pub bucket_number : SizeBucket → ℕ
bucket_number tiny = 0
bucket_number small = 1
bucket_number medium = 2
bucket_number large = 3
bucket_number huge = 4

-- `BucketizeSize`, on a size that is not negative
unfoldable pub bucketize_size : ℕ → SizeBucket
bucketize_size n =
    if leb n 1_024
    then tiny
    else if leb n 10_240
    then small
    else if leb n 102_400
    then medium
    else if leb n 1_048_576
    then large
    else huge
