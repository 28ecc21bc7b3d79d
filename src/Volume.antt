-- ===== src/Volume.antt =====
-- archive/volume.go: the header of one volume of a split archive.
pub mod RoundTrip
use sarc.Prelude.{
  ℕ, ◌+◌, ◌%◌, ◌^◌, Bool, true, false, ◌||◌, not, [], ◌∷◌, ◌++◌, length, ◌!=◌, ◌==◌, if◌then◌else◌,
}
use sarc.Result.{Result, malformed_volume_header, ok, fail_if, ◌>>=◌, ◌>>◌}
use sarc.Bytes.{Bytes}
use sarc.Bytes.LittleEndian.{le, read_le}
use sarc.Bytes.Slice.{cut, has_prefix}
use sarc.Attributes.{clear_low}

abbrev pub volume_magic : Bytes
volume_magic = b'S' ∷ b'A' ∷ b'R' ∷ b'C' ∷ b'V' ∷ b'O' ∷ b'L' ∷ b'1' ∷ []

-- `VolumeIDSize`, `VolumeHeaderSize`, `VolumeChecksumSize`, `VolumeOverhead`
abbrev pub volume_id_size : ℕ
volume_id_size = 16

abbrev pub volume_header_size : ℕ
volume_header_size = 8 + volume_id_size + 4 + 1 + 3 + 8

abbrev pub volume_checksum_size : ℕ
volume_checksum_size = 32

abbrev pub volume_overhead : ℕ
volume_overhead = volume_header_size + volume_checksum_size

-- The archive ID is an array of `volume_id_size` bytes in the source.
pub record VolumeHeader : Type 0 where
  pub archive_id : Bytes
  pub index : ℕ
  pub last : Bool
  pub payload_len : ℕ

-- `VolumeFlagLast` is bit 0.
unfoldable pub last_flag : Bool → ℕ
last_flag true = 1
last_flag false = 0

-- `VolumeHeader.Marshal`
unfoldable pub marshal : VolumeHeader → Bytes
marshal h =
    volume_magic
    ++ (h.archive_id
        ++ (le 4 h.index
            ++ (le 1 (last_flag h.last) ++ (le 1 0 ++ (le 1 0 ++ (le 1 0 ++ le 8 h.payload_len))))))

-- `IsVolumeHeader`
unfoldable pub is_volume_header : Bytes → Bool
is_volume_header b = has_prefix volume_magic b

-- `ParseVolumeHeader`; the slices are the parts of `b` that its offsets stand for.
unfoldable pub parse_volume_header : Bytes → Result VolumeHeader
parse_volume_header b = do
  fail_if (length b != volume_header_size || not (is_volume_header b))
      (malformed_volume_header "bad magic or size")
  (_, b1) ← cut 8 b
  (archive_id, b2) ← cut volume_id_size b1
  (index, b3) ← read_le 4 b2
  (flags, b4) ← read_le 1 b3
  (r1, b5) ← read_le 1 b4
  (r2, b6) ← read_le 1 b5
  (r3, b7) ← read_le 1 b6
  fail_if (clear_low flags 1 != 0 || r1 != 0 || r2 != 0 || r3 != 0)
      (malformed_volume_header "unknown flags")
  (payload_len, _) ← read_le 8 b7
  fail_if (index == 0) (malformed_volume_header "index 0")
  ok (record {
    archive_id = archive_id;
    index = index;
    last = flags % 2 != 0;
    payload_len = payload_len;
  })
