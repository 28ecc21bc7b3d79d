-- ===== src/Directory/Overflow.antt =====
-- A directory whose attribute length does not fit an int stops the program.
use sarc.Prelude.{ℕ, zero, suc, ◌^◌, ◌≤◌, ◌<◌}
use sarc.Prelude.{String, ◌≡◌, refl}
use sarc.Prelude.{true}
use sarc.Prelude.{◌++◌, append_assoc, arith}
use sarc.Prelude.{lt→ltb, le→ltb}
use sarc.Prelude.{length, length-append}
use sarc.Result.{Error, panic}
use sarc.Prelude.Int.{IsU64}
use sarc.Bytes.{Bytes}
use sarc.Bytes.LittleEndian.{le}
use sarc.Bytes.Slice.{has_prefix-append, drop-append_eq}
use sarc.Bytes.Varint
use sarc.Bytes.Varint.{length-uvarint}
use sarc.Names.{valid_entry_name}
use sarc.IndexDecoder.{encode_string}
use sarc.IndexDecoder.Reads.{
  fresh, uvarint-append, read_byte-append, name-append, attributes_overflow,
}
use sarc.Directory.{
  directory_magic, max_directory_size, directory_record, parse_records, parse_directory,
}

-- The start of a record, up to and with the length of its attributes.
unfoldable pub record_start : ℕ → Bytes → ℕ → ℕ → ℕ → ℕ → Bytes
record_start offset entry_name flags bucket codec attrs_len =
    Varint.uvarint offset
    ++ (encode_string entry_name
        ++ (le 1 flags ++ (le 1 bucket ++ (le 1 codec ++ Varint.uvarint attrs_len))))

module _ (k : String → Error) where
  directory_record_overflow :
      (offset : ℕ) (entry_name : Bytes) (flags bucket codec attrs_len : ℕ) (rest : Bytes)
      → IsU64 offset
      → valid_entry_name entry_name ≡ true
      → flags < 256
      → bucket < 256
      → codec < 256
      → 2 ^ 63 ≤ attrs_len
      → IsU64 attrs_len
      → directory_record
          (fresh k (record_start offset entry_name flags bucket codec attrs_len ++ rest))
        ≡ panic
  unfolding directory_record record_start encode_string
  directory_record_overflow offset entry_name flags bucket codec attrs_len rest ho hn hf hb hc big
        fits =
      simp append_assoc (
        rw (uvarint-append k offset _ ho) (
          rw (name-append k entry_name _ hn) (
            rw (read_byte-append k flags _ hf) (
              rw (read_byte-append k bucket _ hb) (
                rw (read_byte-append k codec _ hc)
                  (rw (attributes_overflow k attrs_len rest big fits)))))))

  parse_records_panics :
      (fuel : ℕ) (b : Bytes)
      → 0 < fuel
      → 0 < length b
      → directory_record (fresh k b) ≡ panic
      → parse_records fuel (fresh k b) ≡ panic
  unfolding parse_records
  parse_records_panics zero b some_fuel h e = absurd (omega arith)
  parse_records_panics (suc fuel) b some_fuel h e = rw (lt→ltb 0 (length b) h) (rw e)

-- A directory of at most MaxDirectorySize bytes whose first record has a 64-bit offset, a safe
-- name, a byte each for flags, size bucket and codec, and a 64-bit attribute length of 2^63 or more makes ParseDirectory panic; it returns no error.
pub parse_directory_overflow :
    (offset : ℕ) (entry_name : Bytes) (flags bucket codec attrs_len : ℕ) (rest : Bytes)
    → IsU64 offset
    → valid_entry_name entry_name ≡ true
    → flags < 256
    → bucket < 256
    → codec < 256
    → 2 ^ 63 ≤ attrs_len
    → IsU64 attrs_len
    → length
        (directory_magic ++ (record_start offset entry_name flags bucket codec attrs_len ++ rest))
      ≤ max_directory_size
    → parse_directory
        (directory_magic ++ (record_start offset entry_name flags bucket codec attrs_len ++ rest))
      ≡ panic
unfolding parse_directory
parse_directory_overflow offset entry_name flags bucket codec attrs_len rest ho hn hf hb hc big fits
      size =
    let b = record_start offset entry_name flags bucket codec attrs_len ++ rest in
    let some_bytes : 1 ≤ length b =
      unfold record_start in
      rw (append_assoc, length-append) (omega (arith, length-uvarint offset)) in
    let stops =
      directory_record_overflow Error.malformed_directory offset entry_name flags bucket codec
        attrs_len rest ho hn hf hb hc big fits in
    rw
      (
        le→ltb max_directory_size (length (directory_magic ++ b)) size,
        has_prefix-append directory_magic b,
        drop-append_eq 8 directory_magic b refl,
      )
      (rw (
        parse_records_panics Error.malformed_directory (length (directory_magic ++ b)) b
          (omega arith) some_bytes stops))
