-- ===== src/Directory.antt =====
-- archive/directory.go: the directory that lists a one-pass archive's entries, and the locator
-- that points at it from the archive's end.
pub mod RoundTrip
pub mod Overflow
pub mod Locator
use sarc.Prelude.{ℕ, zero, suc, ◌+◌, ◌-◌, ◌*◌, ◌/◌, ◌%◌, ◌^◌, ◌≤◌, ◌<◌, min}
use sarc.Prelude.{String, ◌≡◌, refl, sym, ap, ◌∙◌, subst, ◌≢◌, ◌⊎◌, inl, inr}
use sarc.Prelude.{Bool, true, false, ◌&&◌, ◌||◌, not, Option, none, some}
use sarc.Prelude.{List, [], ◌∷◌, ◌++◌, append-nil, append_assoc, arith}
use sarc.Prelude.{
  ltb, leb, ◌==◌, ◌!=◌, if◌then◌else◌, Bool-cases, ltb→lt, ltb→le, lt→ltb, le→ltb, ==→eq, eq→==,
}
use sarc.Prelude.{
  length, take, drop, replicate, All, length-append, length-replicate, All-append, append-All,
}
use sarc.Prelude.{take-append, drop-append, take-append-drop, length-take, length-drop}
use sarc.Prelude.Int.{ℤ, pos}
use sarc.Result
use sarc.Result.{Result, Error, ok, err, panic, fail_if}
use sarc.Bytes.{Bytes}
use sarc.Bytes.LittleEndian.{le, from_le}
use sarc.Bytes.Slice.{has_prefix, bytes_eq}
use sarc.Bytes.Varint
use sarc.Decode.{pure, ◌>>=◌}
use sarc.Names.{valid_entry_name}
use sarc.Attributes.{Attributes, append_attributes, kind_regular, clear_low}
use sarc.Metadata.{codec_none, codec_zstd}
use sarc.IndexDecoder.{
  IndexDecoder, encode_string, Read, no_fault, uvarint, read_byte, name, attributes, fail_with,
}

abbrev pub directory_magic : Bytes
directory_magic = b'S' ∷ b'A' ∷ b'R' ∷ b'C' ∷ b'D' ∷ b'I' ∷ b'R' ∷ b'1' ∷ []

abbrev pub directory_locator_magic : Bytes
directory_locator_magic = b'S' ∷ b'A' ∷ b'R' ∷ b'C' ∷ b'D' ∷ b'L' ∷ b'C' ∷ b'1' ∷ []

-- `EntryTypeDirectoryLocator`, `MaxDirectorySize`, `DirectoryLocatorSize`, `BucketHuge`
abbrev pub entry_type_directory_locator : ℕ
entry_type_directory_locator = 7

abbrev pub max_directory_size : ℕ
max_directory_size = 16 * 2 ^ 20

abbrev pub directory_locator_size : ℕ
directory_locator_size = 1 + 8 + 8

abbrev pub bucket_huge : ℕ
bucket_huge = 4

pub record DirectoryRecord : Type 0 where
  pub offset : ℕ
  pub name : Bytes
  pub attributes : Attributes
  pub size_bucket : ℕ
  pub codec : ℕ
  pub solid : Bool
  pub original_size : ℕ
  pub stored_size : ℕ

-- `directoryFlagSolid` is bit 0.
unfoldable pub solid_flag : Bool → ℕ
solid_flag true = 1
solid_flag false = 0

-- the bytes of a record, around its encoded attributes
unfoldable pub encode_record : DirectoryRecord → Bytes → Bytes
encode_record r attrs =
    Varint.uvarint r.offset
    ++ (encode_string r.name
        ++ (le 1 (solid_flag r.solid)
            ++ (le 1 r.size_bucket
                ++ (le 1 r.codec
                    ++ (Varint.uvarint (length attrs)
                        ++ (attrs
                            ++ (Varint.uvarint r.original_size
                                ++ Varint.uvarint r.stored_size)))))))

-- an entry that is not a regular file and has a size
abbrev pub sized_link : DirectoryRecord → Bool
sized_link r = r.attributes.kind != kind_regular && (r.original_size != 0 || r.stored_size != 0)

-- `AppendDirectoryRecord`
unfoldable pub append_directory_record : Bytes → DirectoryRecord → Result Bytes
append_directory_record dir r =
    Result.◌>>◌ (fail_if (not (valid_entry_name r.name)) (Error.failed "invalid entry name")) (
      Result.◌>>◌ (fail_if (sized_link r) (Error.failed "entry with data")) (
        Result.◌>>=◌ (append_attributes [] r.attributes)
          λ attrs. ok (dir ++ encode_record r attrs)))

-- `NewDirectory` and one `AppendDirectoryRecord` after the other
unfoldable pub append_records : Bytes → List DirectoryRecord → Result Bytes
append_records dir [] = ok dir
append_records dir (r ∷ rs) =
    Result.◌>>=◌ (append_directory_record dir r) λ out. append_records out rs

-- the checks that end `directoryRecord`
unfoldable pub check_record : ℕ → DirectoryRecord → Read DirectoryRecord
unfolding fail_with
check_record flags r d =
    if not (no_fault d)
    then ok (r, d)
    else if clear_low flags 1 != 0
    then fail_with r "unknown flags" d
    else if ltb bucket_huge r.size_bucket
    then fail_with r "unknown size bucket" d
    else if r.codec != codec_none && r.codec != codec_zstd
    then fail_with r "unknown codec" d
    else if sized_link r
    then fail_with r "directory or link with data" d
    else ok (r, d)

-- `indexDecoder.directoryRecord`
unfoldable pub directory_record : Read DirectoryRecord
unfolding check_record
directory_record = do
  offset ← uvarint
  entry_name ← name
  flags ← read_byte
  bucket ← read_byte
  codec ← read_byte
  attrs ← attributes
  original_size ← uvarint
  stored_size ← uvarint
  check_record flags (record {
    offset = offset;
    name = entry_name;
    attributes = attrs;
    size_bucket = bucket;
    codec = codec;
    solid = flags % 2 != 0;
    original_size = original_size;
    stored_size = stored_size;
  })

-- The loop of `ParseDirectory` on fuel: each turn takes a byte or ends in a fault. Running out of
-- fuel is a `panic` here.
unfoldable pub parse_records : ℕ → Read (List DirectoryRecord)
parse_records zero d = if no_fault d && ltb 0 (length d.b) then panic else ok ([], d)
parse_records (suc fuel) d =
    let turn : Result (List DirectoryRecord × IndexDecoder) =
      (do r ← directory_record; rs ← parse_records fuel; pure (r ∷ rs)) d in
    if no_fault d && ltb 0 (length d.b) then turn else ok ([], d)

abbrev records_or_fault : List DirectoryRecord → Option Error → Result (List DirectoryRecord)
records_or_fault rs none = ok rs
records_or_fault rs (some e) = err e

-- `ParseDirectory`
unfoldable pub parse_directory : Bytes → Result (List DirectoryRecord)
parse_directory b =
    Result.◌>>◌
      (fail_if (ltb max_directory_size (length b) || not (has_prefix directory_magic b))
        (Error.malformed_directory "bad magic or size"))
      (Result.◌>>=◌
        (parse_records (length b)
          (record { b = drop 8 b; fault = none; kind = Error.malformed_directory }))
        λ (rs, d). records_or_fault rs d.fault)

-- `AppendDirectoryLocator`
unfoldable pub append_directory_locator : Bytes → ℕ → Bytes
append_directory_locator dst offset =
    dst ++ (le 1 entry_type_directory_locator ++ (directory_locator_magic ++ le 8 offset))

-- `ParseDirectoryLocator`
unfoldable pub parse_directory_locator : Bytes → Result ℕ
parse_directory_locator b =
    Result.◌>>◌
      (fail_if
        (length b != directory_locator_size
          || from_le (take 1 b) != entry_type_directory_locator
          || not (bytes_eq (take 8 (drop 1 b)) directory_locator_magic))
        (Error.malformed_directory "bad locator"))
      (ok (from_le (drop 9 b)))
