-- ===== src/Keys.antt =====
-- archive/keys.go: the key schedule of an archive, by its format version.
use sarc.Prelude.{ℕ, List, [], ◌==◌, if◌then◌else◌}
use sarc.Bytes.{Bytes}
use sarc.Result.{Result, Error, ok, err}
use sarc.Checksum.{version2}
use sarc.Crypto.{
  Primitives, derive_key, derive_file_subkey, derive_header_subkey, derive_chunk_id_key,
  derive_gear_table,
}

abbrev pub version1 : ℕ
version1 = 1

-- `KeySchedule`; `password` is that of the KeyDeriver of a Version1 archive.
pub record KeySchedule : Type 0 where
  pub version : ℕ
  pub password : Bytes
  pub master_key : Bytes

-- `NewVersion1KeySchedule`
abbrev pub new_version1_key_schedule : Bytes → KeySchedule
new_version1_key_schedule password = record {
  version = version1;
  password = password;
  master_key = [];
}

-- `NewVersion2KeySchedule`
abbrev pub new_version2_key_schedule : Bytes → KeySchedule
new_version2_key_schedule cek = record { version = version2; password = []; master_key = cek }

-- the error of the keys that Version1 lacks, which wraps ErrUnsupportedVersion
abbrev no_version1_key : Error
no_version1_key = Error.failed "unsupported format version"

module _ (p : Primitives) (ks : KeySchedule) where
  -- `FileKey`
  unfoldable pub file_key : Bytes → Bytes
  file_key salt =
      if ks.version == version1
      then derive_key p ks.password salt
      else derive_file_subkey p ks.master_key salt

  -- `HeaderKey`
  unfoldable pub header_key : Result Bytes
  header_key =
      if ks.version == version1
      then err no_version1_key
      else ok (derive_header_subkey p ks.master_key)

  -- `ChunkIDKey`
  unfoldable pub chunk_id_key : Result Bytes
  chunk_id_key =
      if ks.version == version1
      then err no_version1_key
      else ok (derive_chunk_id_key p ks.master_key)

  -- `GearTable`
  unfoldable pub gear_table : Result (List ℕ)
  gear_table =
      if ks.version == version1 then err no_version1_key else ok (derive_gear_table p ks.master_key)
