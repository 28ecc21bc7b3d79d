-- ===== src/Crypto.antt =====
-- crypto/encryption.go, crypto/hmac.go, crypto/subkey.go and crypto/keyderiver.go, over the ciphers
-- and hashes of Go's library as parameters. Keys and nonces have the lengths of their array types,
-- with which the constructors of the library's ciphers and HKDF's Expand do not fail.
use sarc.Prelude.{
  ℕ, zero, suc, ◌+◌, ◌*◌, ◌≡◌, Bool, Option, some, List, [], ◌∷◌, ◌++◌, length, take, drop,
}
use sarc.Bytes.{Bytes}
use sarc.Bytes.LittleEndian.{from_le}
use sarc.Bytes.Slice.{bytes_eq}

-- `NonceSize`, `GCMTagSize`, `SaltSize`, `KeySize`, `HMACSize`, `PBKDF2Iter`, `GearTableSize`
abbrev pub nonce_size : ℕ
nonce_size = 12

abbrev pub gcm_tag_size : ℕ
gcm_tag_size = 16

abbrev pub salt_size : ℕ
salt_size = 32

abbrev pub key_size : ℕ
key_size = 32

abbrev pub hmac_size : ℕ
hmac_size = 32

abbrev pub pbkdf2_iter : ℕ
pbkdf2_iter = 100000

abbrev pub gear_table_size : ℕ
gear_table_size = 256

-- The library's functions: `gcm_seal key nonce plaintext` is Seal of cipher.AEAD with no additional
-- data, `gcm_open` is Open, `hkdf_expand key info length` and `pbkdf2 password salt iterations length`
-- are over SHA-256, and so are `hmac` of a key and the data, and `sha256`.
pub record Primitives : Type 0 where
  pub gcm_seal : Bytes → Bytes → Bytes → Bytes
  pub gcm_open : Bytes → Bytes → Bytes → Option Bytes
  pub hkdf_expand : Bytes → Bytes → ℕ → Bytes
  pub pbkdf2 : Bytes → Bytes → ℕ → ℕ → Bytes
  pub hmac : Bytes → Bytes → Bytes
  pub sha256 : Bytes → Bytes

-- What GCM documents: a sealed text is its plaintext's length and a tag longer, and opens with the
-- key and nonce that it was sealed with.
pub record IsAead (p : Primitives) : Type 0 where
  pub length-seal :
      (key nonce plaintext : Bytes)
      → length (p.gcm_seal key nonce plaintext) ≡ length plaintext + gcm_tag_size
  pub open-seal :
      (key nonce plaintext : Bytes)
      → p.gcm_open key nonce (p.gcm_seal key nonce plaintext) ≡ some plaintext

-- What HMAC-SHA256 documents: its sum has 32 bytes.
pub record IsMac (p : Primitives) : Type 0 where
  pub length-hmac : (key contents : Bytes) → length (p.hmac key contents) ≡ hmac_size

-- `EncryptedBlock`
pub record EncryptedBlock : Type 0 where
  pub nonce : Bytes
  pub ciphertext : Bytes

-- the first `n` bytes of an array that `copy` fills from `raw`
abbrev pub key_of : Bytes → Bytes
key_of raw = take key_size raw

abbrev pub file_subkey_label : Bytes
file_subkey_label =
    b's' ∷ b'a' ∷ b'r' ∷ b'c' ∷ b' ' ∷ b'f' ∷ b'i' ∷ b'l' ∷ b'e' ∷ b' ' ∷ b'k' ∷ b'e' ∷ b'y' ∷ []

abbrev pub header_subkey_label : Bytes
header_subkey_label =
    b's' ∷ b'a' ∷ b'r' ∷ b'c' ∷ b' ' ∷ b'h' ∷ b'e' ∷ b'a' ∷ b'd' ∷ b'e' ∷ b'r' ∷ b' ' ∷ b'k' ∷ b'e'
    ∷ b'y' ∷ []

abbrev pub chunk_id_label : Bytes
chunk_id_label =
    b's' ∷ b'a' ∷ b'r' ∷ b'c' ∷ b' ' ∷ b'c' ∷ b'h' ∷ b'u' ∷ b'n' ∷ b'k' ∷ b' ' ∷ b'i' ∷ b'd' ∷ b' '
    ∷ b'k' ∷ b'e' ∷ b'y' ∷ []

abbrev pub gear_table_label : Bytes
gear_table_label =
    b's' ∷ b'a' ∷ b'r' ∷ b'c' ∷ b' ' ∷ b'c' ∷ b'h' ∷ b'u' ∷ b'n' ∷ b'k' ∷ b'e' ∷ b'r' ∷ b' ' ∷ b'g'
    ∷ b'e' ∷ b'a' ∷ b'r' ∷ b' ' ∷ b't' ∷ b'a' ∷ b'b' ∷ b'l' ∷ b'e' ∷ []

-- The loop over the table: the next 8 bytes of `raw` for each entry.
unfoldable pub gear_entries : ℕ → Bytes → List ℕ
gear_entries zero raw = []
gear_entries (suc n) raw = from_le (take 8 raw) ∷ gear_entries n (drop 8 raw)

module _ (p : Primitives) where
  -- `EncryptBlock`, `EncryptBlockInto` and `EncryptBlockWithNonceInto`, of a manager for `key`; the
  -- first two draw `nonce` from the manager's random source.
  unfoldable pub encrypt_block : Bytes → Bytes → Bytes → EncryptedBlock
  encrypt_block key nonce plaintext = record {
    nonce = nonce;
    ciphertext = p.gcm_seal key nonce plaintext;
  }

  -- `DecryptBlock`; none is its error
  unfoldable pub decrypt_block : Bytes → EncryptedBlock → Option Bytes
  decrypt_block key block = p.gcm_open key block.nonce block.ciphertext

  -- `ComputeHMAC`
  unfoldable pub compute_hmac : Bytes → Bytes → Bytes
  compute_hmac key contents = take hmac_size (p.hmac key contents)

  -- `VerifyHMAC`: whether it returns no error
  unfoldable pub verify_hmac : Bytes → Bytes → Bytes → Bool
  verify_hmac key contents expected = bytes_eq (compute_hmac key contents) expected

  -- `expandSubkey`
  unfoldable pub expand_subkey : Bytes → Bytes → Bytes
  expand_subkey master_key info = key_of (p.hkdf_expand master_key info key_size)

  -- `DeriveFileSubkey`, `DeriveHeaderSubkey`, `DeriveChunkIDKey`, `DeriveGearTable`
  unfoldable pub derive_file_subkey : Bytes → Bytes → Bytes
  derive_file_subkey master_key salt = expand_subkey master_key (file_subkey_label ++ salt)

  unfoldable pub derive_header_subkey : Bytes → Bytes
  derive_header_subkey master_key = expand_subkey master_key header_subkey_label

  unfoldable pub derive_chunk_id_key : Bytes → Bytes
  derive_chunk_id_key master_key = expand_subkey master_key chunk_id_label

  unfoldable pub derive_gear_table : Bytes → List ℕ
  derive_gear_table master_key =
      gear_entries gear_table_size (p.hkdf_expand master_key gear_table_label (gear_table_size * 8))

  -- `KeyDeriver.DeriveKey`, of the deriver of `password`
  unfoldable pub derive_key : Bytes → Bytes → Bytes
  derive_key password salt = key_of (p.pbkdf2 password salt pbkdf2_iter key_size)
