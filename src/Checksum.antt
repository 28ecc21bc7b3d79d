-- ===== src/Checksum.antt =====
-- archive/checksum.go: the footer checksum, SHA-256 over the archive's bytes, except that the sealed
-- session count of an incremental archive is hashed as zeros. `sha256` is the hash of all the bytes
-- that were written to a hash.Hash.
pub mod Splitting
use sarc.Prelude.{ℕ, zero, suc, ◌+◌, ◌-◌, ◌*◌, ◌%◌, ◌^◌, ◌≤◌, ◌<◌}
use sarc.Prelude.{Bool, true, false, ◌||◌, ◌&&◌, not, List, [], ◌∷◌, ◌++◌}
use sarc.Prelude.{ltb, leb, ◌==◌, ◌!=◌, if◌then◌else◌, length, take, drop, replicate}
use sarc.Bytes.{Bytes}
use sarc.Bytes.LittleEndian.{from_le}
use sarc.Bytes.Slice.{bytes_eq}
use sarc.Recipients.{max_recipient_block_size}

-- `headerPrefixLen`, `Magic`, `Version2`, `FileCountSealedSize`
abbrev pub header_prefix_len : ℕ
header_prefix_len = 4 + 2 + 4

abbrev pub magic : Bytes
magic = b'S' ∷ b'A' ∷ b'R' ∷ b'C' ∷ []

abbrev pub version2 : ℕ
version2 = 2

abbrev pub file_count_sealed_size : ℕ
file_count_sealed_size = 8 + 12 + 16

-- `ArchiveChecksum`; `hashed` is what was written to `h`.
pub record ArchiveChecksum : Type 0 where
  pub hashed : Bytes
  pub head : Bytes
  pub done : Bool

-- `NewArchiveChecksum`
abbrev pub new_archive_checksum : ArchiveChecksum
new_archive_checksum = record { hashed = []; head = []; done = false }

-- the header of a Version2 archive, with a recipient block that is not too large
unfoldable pub has_layout : Bytes → Bool
has_layout head =
    leb header_prefix_len (length head)
    && bytes_eq (take 4 head) magic
    && from_le (take 2 (drop 4 head)) == version2
    && leb (from_le (take 4 (drop 6 head))) max_recipient_block_size

-- countOff and flagOff
unfoldable pub count_off : Bytes → ℕ
count_off head = header_prefix_len + from_le (take 4 (drop 6 head))

abbrev pub flag_off : Bytes → ℕ
flag_off head = count_off head + file_count_sealed_size

-- clear(c.head[countOff:flagOff])
unfoldable pub clear_count : Bytes → Bytes
clear_count head =
    take (count_off head) head ++ (replicate file_count_sealed_size 0 ++ drop (flag_off head) head)

-- what is hashed of a header: `HeaderFlagIncremental` is bit 0 of the byte at flagOff
unfoldable pub masked : Bytes → Bytes
masked head =
    if has_layout head
      && ltb (flag_off head) (length head)
      && from_le (take 1 (drop (flag_off head) head)) % 2 != 0
    then clear_count head
    else head

-- The two early returns of `flushHeader`: the layout is not known yet, or its flag is still to come.
unfoldable pub must_wait : Bytes → Bool
must_wait head =
    ltb (length head) header_prefix_len || (has_layout head && leb (length head) (flag_off head))

-- `flushHeader`
unfoldable pub flush_header : Bool → ArchiveChecksum → ArchiveChecksum
flush_header final c =
    if must_wait c.head && not final
    then c
    else record { hashed = c.hashed ++ masked c.head; head = []; done = true }

-- `Write`
unfoldable pub write : ArchiveChecksum → Bytes → ArchiveChecksum
write c p =
    if c.done
    then record c { hashed = c.hashed ++ p }
    else flush_header false (record c { head = c.head ++ p })

-- one `Write` after the other
unfoldable pub writes : ArchiveChecksum → List Bytes → ArchiveChecksum
writes c [] = c
writes c (p ∷ ps) = writes (write c p) ps

-- `Sum`, of which the bytes appended are `sha256` of what was hashed
unfoldable pub sum : (Bytes → Bytes) → ArchiveChecksum → Bytes → Bytes × ArchiveChecksum
sum sha256 c b =
    let flushed = if c.done then c else flush_header true c in (b ++ sha256 flushed.hashed, flushed)
