-- ===== src/Extractor/Header/Opens.antt =====
-- The reader of headers opens what the writer of headers wrote.
use sarc.Prelude.{
  ℕ, ◌-◌, ◌^◌, ◌≤◌, ◌<◌, ◌≡◌, refl, ap, ◌∙◌, false, ◌∷◌, ◌++◌, append_assoc, some, arith,
}
use sarc.Prelude.{ltb, length, take, replicate, length-append, length-replicate}
use sarc.Bytes.{Bytes}
use sarc.Bytes.LittleEndian.{le, from_le, from_le-le, length-le}
use sarc.Bytes.Slice.{take-append_eq, drop-append_eq, bytes_eq_refl}
use sarc.Result.{ok}
use sarc.Recipients.{max_recipient_block_size}
use sarc.Recipients.Unlock.{Unwrapping, Unlockers, key, open_recipient_block}
use sarc.Checksum.{magic, version2, file_count_sealed_size}
use sarc.Crypto.{Primitives, IsAead, encrypt_block, decrypt_block, derive_header_subkey, nonce_size}
use sarc.Keys.{KeySchedule, header_key, new_version2_key_schedule}
use sarc.Format.{reserved_size}
use sarc.Reader.{Fallible, got, read_full-append}
use sarc.Writer.{file_count_offset}
use sarc.Writer.Layout
use sarc.Writer.Archive.{header_of}
use sarc.Extractor.Header.{
  HeaderInfo, count_of, open_count_with, open_file_count, confirm_key, after_open,
  read_version2_header, read_header, by_version, end,
}

module _ (p : Primitives) (aead : IsAead p) (cek nonce : Bytes) (count : ℕ) where
  abbrev sealed_count : Bytes
  sealed_count =
      nonce ++ (encrypt_block p (derive_header_subkey p cek) nonce (le 8 count)).ciphertext

  length-sealed_count : length nonce ≡ nonce_size → length sealed_count ≡ file_count_sealed_size
  unfolding encrypt_block
  length-sealed_count h = omega (
    arith,
    h,
    length-append nonce
        (encrypt_block p (derive_header_subkey p cek) nonce (le 8 count)).ciphertext,
    aead.length-seal (derive_header_subkey p cek) nonce (le 8 count),
    length-le 8 count,
  )

  -- The sealed count opens with the keys that it was sealed with.
  pub open_file_count-sealed :
      length nonce ≡ nonce_size
      → count < 2 ^ 64
      → open_file_count p (new_version2_key_schedule cek) sealed_count ≡ some count
  unfolding open_file_count open_count_with header_key decrypt_block encrypt_block count_of
  open_file_count-sealed h fits =
      let ct = p.gcm_seal (derive_header_subkey p cek) nonce (le 8 count) in
      rw (take-append_eq nonce_size nonce ct h, drop-append_eq nonce_size nonce ct h)
        (rw (aead.open-seal (derive_header_subkey p cek) nonce (le 8 count))
          (rw (length-le 8 count) (ap some (from_le-le 8 count (omega arith)))))

flag_of : (flags : ℕ) (zeros : Bytes) → from_le (take 1 (flags ∷ zeros)) ≡ flags
unfolding from_le take
flag_of flags zeros = omega arith

confirm :
    (cek recipients sealed : Bytes) (flags count : ℕ) (p : Primitives)
    → open_file_count p (new_version2_key_schedule cek) sealed ≡ some count
    → after_open p
        (ok (key cek))
        sealed
        (flags ∷ replicate (reserved_size - 1) 0)
        (length recipients)
      ≡ got (
        new_version2_key_schedule cek,
        record { flags = flags; sealed_count = count; recipient_block_len = length recipients },
      )
unfolding after_open confirm_key
confirm cek recipients sealed flags count p is =
    rw is (rw (flag_of flags (replicate (reserved_size - 1) 0)) refl)

length-written :
    (recipients sealed : Bytes) (flags : ℕ)
    → length sealed ≡ file_count_sealed_size
    → length (
        magic
        ++ (le 2 version2
            ++ (Layout.sized recipients ++ (sealed ++ (flags ∷ replicate (reserved_size - 1) 0)))))
      ≡ end (record { flags = flags; sealed_count = 0; recipient_block_len = length recipients })
unfolding end file_count_offset
length-written recipients sealed flags h =
    simp (length-append, length-le, length-replicate) (omega (arith, h))

module _ {Identity : Type 0} (p : Primitives) (crypto : Unwrapping Identity)
    (u : Unlockers Identity) where
  -- A header's fields, read one after the other.
  read_header-fields :
      (recipients sealed reserved rest : Bytes)
      → length recipients ≤ max_recipient_block_size
      → length sealed ≡ file_count_sealed_size
      → length reserved ≡ reserved_size
      → read_header p crypto u (
          magic
          ++ (le 2 version2
              ++ (le 4 (length recipients) ++ (recipients ++ (sealed ++ (reserved ++ rest))))))
        ≡ (
          after_open p
              (open_recipient_block crypto u recipients)
              sealed
              reserved
              (length recipients),
          rest,
        )
  unfolding read_header read_version2_header by_version
  read_header-fields recipients sealed reserved rest small ls lr =
      let n = length recipients in
      rw (read_full-append 4 _ magic _ refl) (
        rw (bytes_eq_refl magic) (
          rw (read_full-append 2 _ (le 2 version2) _ (length-le 2 version2)) (
            rw (from_le-le 2 version2 (omega arith)) (
              rw (read_full-append 4 _ (le 4 n) _ (length-le 4 n)) (
                rw (from_le-le 4 n (omega (arith, small))) (
                  rw (at_most n small) (
                    rw (read_full-append n _ recipients _ refl) (
                      rw (read_full-append file_count_sealed_size _ sealed _ ls)
                        (rw (read_full-append reserved_size _ reserved rest lr) refl)))))))))
    where
      at_most : (m : ℕ) → m ≤ max_recipient_block_size → ltb max_recipient_block_size m ≡ false
      at_most m q = ground arith

  written_shape :
      (recipients nonce sealed reserved rest : Bytes)
      → (magic ++ (le 2 version2 ++ (Layout.sized recipients ++ ((nonce ++ sealed) ++ reserved))))
          ++ rest
        ≡ magic
          ++ (le 2 version2
              ++ (le 4 (length recipients)
                  ++ (recipients ++ ((nonce ++ sealed) ++ (reserved ++ rest)))))
  written_shape recipients nonce sealed reserved rest = simp append_assoc

  -- The header that a writer wrote for a key, with a recipient block of at most MaxRecipientBlockSize that
  -- the credentials open to that key, is read back: the reader has the key schedule, the flags and the count, and stands behind the
  -- header, whose length is what headerInfo.end computes. Opening a sealed text gives it back, the nonce
  -- has NonceSize bytes, the count fits 64 bits and the flags a byte.
  pub read_header-written :
      IsAead p
      → (cek recipients nonce : Bytes) (count flags : ℕ) (rest : Bytes) → length nonce ≡ nonce_size
      → count < 2 ^ 64
      → flags < 256
      → length recipients ≤ max_recipient_block_size
      → open_recipient_block crypto u recipients ≡ ok (key cek)
      → (info : HeaderInfo) × (read_header p crypto u
            (Layout.header (header_of p cek recipients nonce count flags) ++ rest)
          ≡ (got (new_version2_key_schedule cek, info), rest))
        × (info ≡ record {
          flags = flags;
          sealed_count = count;
          recipient_block_len = length recipients;
        })
        × (length (Layout.header (header_of p cek recipients nonce count flags)) ≡ end info)
  unfolding Layout.header end encrypt_block
  read_header-written aead cek recipients nonce count flags rest h fits byte small opens =
      let sealed = sealed_count p aead cek nonce count in
      let reserved = flags ∷ replicate (reserved_size - 1) 0 in
      let ls = length-sealed_count p aead cek nonce count h in
      let lr : length reserved ≡ reserved_size =
        omega (arith, length-replicate {A = ℕ} (reserved_size - 1) 0) in
      let info : HeaderInfo = record {
        flags = flags;
        sealed_count = count;
        recipient_block_len = length recipients;
      } in
      (
        info,
        ap (read_header p crypto u) (
              written_shape recipients nonce
                (encrypt_block p (derive_header_subkey p cek) nonce (le 8 count)).ciphertext
                reserved rest)
            ∙ read_header-fields recipients sealed reserved rest small ls lr
            ∙ ap (λ o. (after_open p o sealed reserved (length recipients), rest)) opens
            ∙ ap (λ (r : Fallible (KeySchedule × HeaderInfo)). (r, rest))
                (confirm cek recipients sealed flags count p
                  (open_file_count-sealed p aead cek nonce count h fits)),
        refl,
        length-written recipients sealed flags ls,
      )
