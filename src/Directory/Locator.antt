-- ===== src/Directory/Locator.antt =====
-- The locator gives back the offset that it was written with.
use sarc.Prelude.{ℕ}
use sarc.Prelude.{◌≡◌, refl, ap}
use sarc.Prelude.{◌++◌}
use sarc.Prelude.{length, take, drop}
use sarc.Result.{ok}
use sarc.Prelude.Int.{IsU64}
use sarc.Bytes.{Bytes}
use sarc.Bytes.LittleEndian.{le, from_le, from_le-le}
use sarc.Bytes.Slice.{bytes_eq, drop-append_eq}
use sarc.Directory.{
  directory_locator_magic, entry_type_directory_locator, append_directory_locator,
  parse_directory_locator,
}

-- The last 17 bytes of what AppendDirectoryLocator wrote decode to the offset, for every archive
-- in front and every 64-bit offset.
pub parse_directory_locator-append :
    (archive : Bytes) (offset : ℕ)
    → IsU64 offset
    → parse_directory_locator (drop (length archive) (append_directory_locator archive offset))
      ≡ ok offset
unfolding parse_directory_locator append_directory_locator
parse_directory_locator-append archive offset h =
    rw
      (drop-append_eq (length archive) archive
        (le 1 entry_type_directory_locator ++ (directory_locator_magic ++ le 8 offset)) refl)
      (unfold le from_le take drop bytes_eq in ap ok (from_le-le 8 offset h))
